-- ===== src/Vectorindex/Relink.antt =====
-- internal/vectorindex/hnsw.go: the links that `Add` and `removeNode` change.
use docsiq.Prelude.{
  ◌/◌, ℕ, zero, suc, ◌≤◌, ◌≡◌, refl, ap, ◌∙◌, Bool, true, not, Option, some, List, [], ◌∷◌, ◌++◌,
  map, length, length-map, take, length-take-le, ltb, leb, arith, Bool-cases, List-cases, inl, inr,
}
use docsiq.Prelude.Heap.{init, pop}
use docsiq.Prelude.Heap.Count.{count, count-append, count-init, length-init, pop-some}
use docsiq.Vectorindex.{Floats, HnswNode, Scored, max_less, links, vec_of, cosine_distance}
use docsiq.Vectorindex.Index.{
  remove_ref, modify, has_layer, pop_down, pruned, link_back, link_all, link_node, unlink,
  unlink_layers,
}
use docsiq.Vectorindex.Modify.{frame_of, links-modify, has_layer-modify}
use docsiq.Vectorindex.Links.{
  count-map, count-take, count-remove_ref, length-remove_ref, count_cong, strays, IsLinked, IsKept,
  IsKept-refl, IsKept-trans, modify-IsKept, replace-IsLinked, modify-IsLinked,
}

module _ (fl : Floats) where
  open fl use {F}

  -- The nodes that are kept are as many as allowed, and among the old ones.
  pop_down_lem :
      (p : Scored fl → Bool) (k max : ℕ) (h : List (Scored fl))
      → length h ≤ k
      → (length (pop_down fl k max h) ≤ max) × (count p (pop_down fl k max h) ≤ count p h)
  unfolding pop_down
  pop_down_lem p zero max h l = (omega arith, omega arith)
  pop_down_lem p (suc k) max h l = elim (List-cases h) [
    | inl e ↦ rw (e, pop_down) (ground arith, ground arith)
    | inr (x, xs, e) ↦ elim (Bool-cases (ltb max (length h))) [
      | inr b ↦ rw (b, pop_down) (ground arith, omega arith)
      | inl b ↦
          let (w, rest, f, g, c) = pop-some (max_less fl) x xs in
          let q : pop (max_less fl) h ≡ some (w, rest) = rw e f in
          let ih = pop_down_lem p k max rest (omega (arith, ap length e)) in
          rw (b, q, pop_down) (ih.0, omega (arith, ih.1, c p, ap (count p) e))
    ]
  ]

  module _ (cells : List (HnswNode fl)) (node max : ℕ) (p : ℕ → Bool) where
    pruned_lem :
        (nbs : List ℕ)
        → (length (pruned fl cells node max nbs) ≤ max)
          × (count p (pruned fl cells node max nbs) ≤ count p nbs)
    unfolding pruned
    pruned_lem nbs = elim (Bool-cases (leb (length nbs) max)) [
      | inl b ↦ rw (b, pruned) (ground arith, omega arith)
      | inr b ↦
          let mark : ℕ → Scored fl =
            λ nb. (nb, cosine_distance fl (vec_of fl cells node) (vec_of fl cells nb)) in
          let scored = map mark nbs in
          let q : Scored fl → Bool = λ s. p s.0 in
          let h = init (max_less fl) scored in
          let n = length-init (max_less fl) (length scored / 2) scored in
          let c = count-init (max_less fl) q (length scored / 2) scored in
          let (few, among) =
            pop_down_lem q (length nbs) max h (omega (arith, n, length-map nbs mark)) in
          let kept = pop_down fl (length nbs) max h in
          rw (b, pruned)
            (
              omega (arith, length-map kept (λ (s : Scored fl). s.0), few),
              omega (
                arith,
                count-map (λ (s : Scored fl). s.0) p kept,
                count-map mark q nbs,
                among,
                c,
              ),
            )
    ]

  module _ (bound : ℕ → ℕ) (l : ℕ) where
    -- Links that are added within the layer leave the nodes linked, and no index is out of range.
    abbrev pub Relinked : List (HnswNode fl) → Option (List (HnswNode fl)) → Type 0
    Relinked cells result =
        (new : List (HnswNode fl)) × (result ≡ some new)
        × IsLinked fl bound new
        × IsKept fl l cells new

    link_back-Relinked :
        (n nb : ℕ) (cells : List (HnswNode fl))
        → IsLinked fl bound cells
        → has_layer fl cells l n ≡ true
        → has_layer fl cells l nb ≡ true
        → Relinked cells (link_back fl (bound l) l n nb cells)
    unfolding link_back
    link_back-Relinked n nb cells h hn hnb =
        let old = links fl cells nb l in
        let added = modify fl cells nb l (λ nbs. nbs ++ n ∷ []) in
        let prune = pruned fl cells nb (bound l) in
        let push : List ℕ → List ℕ = λ nbs. nbs ++ n ∷ [] in
        let hnb' = has_layer-modify fl cells nb l push l nb in
        let self : links fl added nb l ≡ old ++ n ∷ [] =
          links-modify fl cells nb l push nb l ∙ ground (arith, hnb) in
        let new = modify fl added nb l prune in
        let kept =
          IsKept-trans fl l cells added new (modify-IsKept fl cells nb l (λ nbs. nbs ++ n ∷ []))
            (modify-IsKept fl added nb l prune) in
        let (few, among) = pruned_lem cells nb (bound l) (strays fl cells l) (old ++ n ∷ []) in
        (
          new,
          rw (hnb, link_back) refl,
          replace-IsLinked fl bound cells new nb l (prune (old ++ n ∷ [])) kept
              (λ b.
                links-modify fl added nb l prune b l
                ∙ ground (arith, hnb, hnb', self, links-modify fl cells nb l push b l))
              h few
              (ground
                (arith, among, h.layered nb l, count-append (strays fl cells l) old (n ∷ []))),
          kept,
        )

    link_all-Relinked :
        (n : ℕ) (nbs : List ℕ) (cells : List (HnswNode fl))
        → IsLinked fl bound cells
        → has_layer fl cells l n ≡ true
        → count (strays fl cells l) nbs ≡ 0
        → Relinked cells (link_all fl (bound l) l n nbs cells)
    unfolding link_all
    link_all-Relinked n [] cells h hn hs = (cells, refl, h, IsKept-refl fl l cells)
    link_all-Relinked n (nb ∷ nbs) cells h hn hs =
        let (mid, e, g, k) = link_back-Relinked n nb cells h hn (ground arith) in
        let (new, f, i, j) = link_all-Relinked n nbs mid g (k.layers l n ∙ hn) (
          count_cong (strays fl mid l) (strays fl cells l) (λ x. ap not (k.layers l x)) nbs
          ∙ omega arith) in
        (new, rw (e, link_all) f, i, IsKept-trans fl l cells mid new k j)

    pub link_node-Relinked :
        (n : ℕ) (cands : List (Scored fl)) (cells : List (HnswNode fl))
        → IsLinked fl bound cells
        → has_layer fl cells l n ≡ true
        → links fl cells n l ≡ []
        → count (λ s. strays fl cells l s.0) cands ≡ 0
        → Relinked cells (link_node fl (bound l) l n cands cells)
    unfolding link_node
    link_node-Relinked n cands cells h hn empty hs =
        let nbs = map (λ (s : Scored fl). s.0) (take (bound l) cands) in
        let mid = modify fl cells n l (λ old. old ++ nbs) in
        let k = modify-IsKept fl cells n l (λ old. old ++ nbs) in
        let near : count (strays fl cells l) nbs ≡ 0 = omega (
          arith,
          count-map (λ (s : Scored fl). s.0) (strays fl cells l) (take (bound l) cands),
          count-take (λ (s : Scored fl). strays fl cells l s.0) (bound l) cands,
        ) in
        let g =
          modify-IsLinked fl bound cells n l (λ old. old ++ nbs) h
            (rw empty (
              omega (
                arith,
                length-map (take (bound l) cands) (λ (s : Scored fl). s.0),
                length-take-le (bound l) cands,
              )))
            (rw empty near) in
        let (new, f, i, j) = link_all-Relinked n nbs mid g (k.layers l n ∙ hn) (
          count_cong (strays fl mid l) (strays fl cells l) (λ x. ap not (k.layers l x)) nbs
          ∙ near) in
        (new, rw (hn, link_node) f, i, IsKept-trans fl l cells mid new k j)

  module _ (bound : ℕ → ℕ) where
    -- The nodes stay linked, and have the layers they had.
    abbrev pub Unlinked : List (HnswNode fl) → List (HnswNode fl) → Type 0
    Unlinked old new =
        IsLinked fl bound new
        × (length new ≡ length old)
        × ((k b : ℕ) → has_layer fl new k b ≡ has_layer fl old k b)
        × ((b : ℕ) → frame_of fl new b ≡ frame_of fl old b)

    unlink-Unlinked :
        (a l : ℕ) (nbs : List ℕ) (cells : List (HnswNode fl))
        → IsLinked fl bound cells
        → Unlinked cells (unlink fl a l nbs cells)
    unfolding unlink
    unlink-Unlinked a l [] cells h = (h, refl, λ k b. refl, λ b. refl)
    unlink-Unlinked a l (nb ∷ nbs) cells h =
        let drop : List ℕ → List ℕ = λ xs. remove_ref xs a in
        let xs = links fl cells nb l in
        let k = modify-IsKept fl cells nb l drop in
        let g =
          modify-IsLinked fl bound cells nb l drop h
            (omega (arith, length-remove_ref xs a, h.few nb l))
            (omega (arith, count-remove_ref (strays fl cells l) xs a, h.layered nb l)) in
        let (i, s, layers, levels) = unlink-Unlinked a l nbs (modify fl cells nb l drop) g in
        (i, s ∙ k.size, (λ m b. layers m b ∙ k.layers m b), (λ b. levels b ∙ k.levels b))

    pub unlink_layers-Unlinked :
        (a l : ℕ) (layers : List (List ℕ)) (cells : List (HnswNode fl))
        → IsLinked fl bound cells
        → Unlinked cells (unlink_layers fl a l layers cells)
    unfolding unlink_layers
    unlink_layers-Unlinked a l [] cells h = (h, refl, λ k b. refl, λ b. refl)
    unlink_layers-Unlinked a l (nbs ∷ layers) cells h =
        let (i, s, e, f) = unlink-Unlinked a l nbs cells h in
        let (j, t, e', f') = unlink_layers-Unlinked a (suc l) layers (unlink fl a l nbs cells) i in
        (j, t ∙ s, (λ m b. e' m b ∙ e m b), (λ b. f' b ∙ f b))
