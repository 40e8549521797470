-- ===== src/Vectorindex/Layered.antt =====
-- internal/vectorindex/hnsw.go: the searches of a layer stay within it.
use docsiq.Prelude.{
  ℕ, zero, suc, ◌+◌, ◌≤◌, ◌≡◌, refl, ap, sym, ◌∙◌, Bool, true, false, ◌&&◌, ◌||◌, none, some, List,
  [], ◌∷◌, length, get_elem?, ltb, leb, any, if◌then◌else◌, arith, Bool-cases, Option-cases,
  List-cases, inl, inr,
}
use docsiq.Prelude.Heap.{init, push}
use docsiq.Prelude.Heap.Count.{count, count-init, count-push, pop-some, pop-nil}
use docsiq.Prelude.Text.{bytes_eq}
use docsiq.Vectorindex.{
  Floats, HnswNode, Scored, Step, Layer, scan, greedy_from, greedy_step, min_less, max_less, better,
  worse, visit, visit_all, expand, drained, search_layer, links, vec_of, id_of, cosine_distance,
}
use docsiq.Vectorindex.Index.{has_layer, descend}
use docsiq.Vectorindex.Links.{strays, IsLinked}
use docsiq.Vectorindex.Greedy.{IsOrder, greedy_step-some}
use docsiq.Vectorindex.Visit.{count-trim}
use docsiq.Vectorindex.SearchLayer.{drain-count}

module _ (fl : Floats) where
  open fl use {F, lt}

  module _ (cells : List (HnswNode fl)) (query : List F) where
    pub has_layer_below :
        (k l a : ℕ) → k ≤ l → has_layer fl cells l a ≡ true → has_layer fl cells k a ≡ true
    has_layer_below k l a h e = elim (Option-cases (get_elem? cells a)) [
      | inl f ↦ absurd (ground (arith, e, f))
      | inr (n, f) ↦ ground (arith, e, f)
    ]

    -- The loop over links to nodes of a layer ends at one of them.
    scan-layer :
        (l : ℕ) (nbs : List ℕ) (s : Step fl)
        → count (strays fl cells l) nbs ≡ 0
        → has_layer fl cells l s.current ≡ true
        → has_layer fl cells l (scan fl cells query nbs s).current ≡ true
    unfolding scan
    scan-layer l [] s h e = e
    scan-layer l (nb ∷ nbs) s h e = elim (Option-cases (get_elem? cells nb)) [
      | inl f ↦ rw (f, scan) (scan-layer l nbs s (omega arith) e)
      | inr (n, f) ↦
          let d = cosine_distance fl n.vec query in
          elim (Bool-cases (lt d s.dist)) [
            | inr b ↦ rw (f, b, scan) (scan-layer l nbs s (omega arith) e)
            | inl b ↦
                let next : Step fl = record { current = nb; dist = d; improved = true } in
                rw (f, b, scan) (scan-layer l nbs next (omega arith) (ground arith))
          ]
    ]

    module _ (bound : ℕ → ℕ) (linked : IsLinked fl bound cells) where
      greedy_from-layer :
          (k l current : ℕ) (dist : F) (a : ℕ)
          → has_layer fl cells l current ≡ true
          → greedy_from fl k cells query l current dist ≡ some a
          → has_layer fl cells l a ≡ true
      unfolding greedy_from
      greedy_from-layer zero l current dist a e f = absurd (cc)
      greedy_from-layer (suc k) l current dist a e f =
          let start : Step fl = record { current = current; dist = dist; improved = false } in
          let s = scan fl cells query (links fl cells current l) start in
          let at = scan-layer l (links fl cells current l) start (linked.layered current l) e in
          elim (Bool-cases s.improved) [
            | inl b ↦
                let q : greedy_from fl (suc k) cells query l current dist
                    ≡ greedy_from fl k cells query l s.current s.dist =
                  rw (b, greedy_from) refl in
                greedy_from-layer k l s.current s.dist a at (sym q ∙ f)
            | inr b ↦
                let q : greedy_from fl (suc k) cells query l current dist ≡ some s.current =
                  rw (b, greedy_from) refl in
                let same : a ≡ s.current = cc in rw same at
          ]

      -- The descent ends at a node of the layer above the lowest, or where it began.
      pub descend-layer :
          (order : IsOrder fl) (floor k ep : ℕ)
          → has_layer fl cells (floor + k) ep ≡ true
          → (a : ℕ) × (descend fl cells query floor k ep ≡ some a)
            × (has_layer fl cells floor a ≡ true)
      unfolding descend greedy_step
      descend-layer order floor zero ep e =
          (ep, refl, has_layer_below floor (floor + 0) ep (omega arith) e)
      descend-layer order floor (suc k) ep e =
          let (b, f) = greedy_step-some fl order cells query ep (floor + suc k) in
          let at =
            greedy_from-layer (suc (length cells)) (floor + suc k) ep
              (cosine_distance fl (vec_of fl cells ep) query) b e f in
          let (a, g, h) =
            descend-layer order floor k b
              (has_layer_below (floor + k) (floor + suc k) b (omega arith) at) in
          (a, rw (f, descend) g, h)

      module _ (ef l : ℕ) where
        -- The number of the nodes in a list that do not have the layer.
        abbrev off : List (Scored fl) → ℕ
        off xs = count (λ (s : Scored fl). strays fl cells l s.0) xs

        off-visit :
            (nb : ℕ) (s : Layer fl)
            → has_layer fl cells l nb ≡ true
            → off s.cand ≡ 0
            → off s.results ≡ 0
            → (off (visit fl cells query ef nb s).cand ≡ 0)
              × (off (visit fl cells query ef nb s).results ≡ 0)
        unfolding visit
        off-visit nb s at hc hr = elim (Option-cases (get_elem? cells nb)) [
          | inl e ↦ rw (e, visit) (hc, hr)
          | inr (n, e) ↦
              let d = cosine_distance fl n.vec query in
              let p : Scored fl → Bool = λ s. strays fl cells l s.0 in
              let here : (if strays fl cells l nb then 1 else zero) ≡ 0 = ground (arith, at) in
              elim (Bool-cases (any (bytes_eq n.id) s.visited)) [
                | inl b ↦ rw (e, b, visit) (hc, hr)
                | inr b ↦ elim (Bool-cases (ltb (length s.results) ef || better fl d s.results)) [
                  | inr c ↦ rw (e, b, c, visit) (hc, hr)
                  | inl c ↦
                      rw (e, b, c, visit)
                        (
                          count-push (min_less fl) p s.cand (nb, d) ∙ ground arith,
                          omega (
                            arith,
                            count-trim fl cells p ef (push (max_less fl) s.results (nb, d)),
                            count-push (max_less fl) p s.results (nb, d),
                            here,
                          ),
                        )
                ]
              ]
        ]

        off-visit_all :
            (nbs : List ℕ) (s : Layer fl)
            → count (strays fl cells l) nbs ≡ 0
            → off s.cand ≡ 0
            → off s.results ≡ 0
            → (off (visit_all fl cells query ef nbs s).cand ≡ 0)
              × (off (visit_all fl cells query ef nbs s).results ≡ 0)
        unfolding visit_all
        off-visit_all [] s h hc hr = (hc, hr)
        off-visit_all (nb ∷ nbs) s h hc hr =
            let (ic, ir) = off-visit nb s (ground arith) hc hr in
            off-visit_all nbs (visit fl cells query ef nb s) (omega arith) ic ir

        off-expand :
            (k : ℕ) (s : Layer fl) (out : List (Scored fl))
            → off s.cand ≡ 0
            → off s.results ≡ 0
            → expand fl k cells query ef l s ≡ some out
            → off out ≡ 0
        unfolding expand
        off-expand zero s out hc hr e = elim (List-cases s.cand) [
          | inl n ↦
              let q : expand fl 0 cells query ef l s ≡ some s.results =
                rw (n, pop-nil (min_less fl), expand) refl in
              let same : out ≡ s.results = cc in rw same hr
          | inr (c, cs, n) ↦
              let (best, rest, f, g, h) = pop-some (min_less fl) c cs in
              let q : expand fl 0 cells query ef l s ≡ none = rw (n, f, expand) refl in absurd (cc)
        ]
        off-expand (suc k) s out hc hr e = elim (List-cases s.cand) [
          | inl n ↦
              let q : expand fl (suc k) cells query ef l s ≡ some s.results =
                rw (n, pop-nil (min_less fl), expand) refl in
              let same : out ≡ s.results = cc in rw same hr
          | inr (c, cs, n) ↦
              let (best, rest, f, g, h) = pop-some (min_less fl) c cs in
              elim (Bool-cases (leb ef (length s.results) && worse fl best.1 s.results)) [
                | inl b ↦
                    let q : expand fl (suc k) cells query ef l s ≡ some s.results =
                      rw (n, f, b, expand) refl in
                    let same : out ≡ s.results = cc in rw same hr
                | inr b ↦
                    let nbs = links fl cells best.0 l in
                    let popped : Layer fl = record s { cand = rest } in
                    let q : expand fl (suc k) cells query ef l s
                        ≡ expand fl k cells query ef l (visit_all fl cells query ef nbs popped) =
                      rw (n, f, b, expand) refl in
                    let less = h (λ (s : Scored fl). strays fl cells l s.0) in
                    let (ic, ir) =
                      off-visit_all nbs popped (linked.layered best.0 l) (omega (arith, ap off n))
                        hr in
                    off-expand k (visit_all fl cells query ef nbs popped) out ic ir (sym q ∙ e)
              ]
        ]

        -- From a node of the layer, `searchLayer` returns nodes of the layer.
        pub search_layer-layer :
            (ep : ℕ) (out : List (Scored fl))
            → has_layer fl cells l ep ≡ true
            → search_layer fl cells ep query ef l ≡ some out
            → count (λ s. strays fl cells l s.0) out ≡ 0
        unfolding search_layer
        search_layer-layer ep out e f =
            let first : List (Scored fl) =
              (ep, cosine_distance fl (vec_of fl cells ep) query) ∷ [] in
            let p : Scored fl → Bool = λ s. strays fl cells l s.0 in
            let start : Layer fl = record {
              visited = id_of fl cells ep ∷ [];
              cand = init (min_less fl) first;
              results = init (max_less fl) first;
            } in
            let none_off : off first ≡ 0 = ground (arith, e) in
            elim (Option-cases (expand fl (suc (length cells)) cells query ef l start)) [
              | inl g ↦
                  let q : search_layer fl cells ep query ef l ≡ none = rw (g, search_layer) refl in
                  absurd (cc)
              | inr (found, g) ↦
                  let q : search_layer fl cells ep query ef l ≡ some (drained fl found) =
                    rw (g, search_layer) refl in
                  let same : out ≡ drained fl found = cc in
                  let ok =
                    off-expand (suc (length cells)) start found
                      (count-init (min_less fl) p 0 first ∙ none_off)
                      (count-init (max_less fl) p 0 first ∙ none_off) g in
                  rw same (omega (arith, drain-count fl p (length found) found [] refl, ok))
            ]
