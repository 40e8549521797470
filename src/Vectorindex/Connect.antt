-- ===== src/Vectorindex/Connect.antt =====
-- internal/vectorindex/hnsw.go: phase 2 of `Add`.
use docsiq.Prelude.{
  ℕ, zero, suc, ◌≤◌, ◌<◌, ◌≡◌, refl, ◌∙◌, true, Option, some, List, [], ◌∷◌, length, arith,
}
use docsiq.Prelude.Heap.Count.{count}
use docsiq.Vectorindex.{Floats, HnswNode, Hnsw, Scored, max_conn, links}
use docsiq.Vectorindex.Index.{has_layer, connect, closest}
use docsiq.Vectorindex.Modify.{frame_of}
use docsiq.Vectorindex.Links.{strays, IsLinked}
use docsiq.Vectorindex.SearchLayer.{search_layer-IsHits}
use docsiq.Vectorindex.Layered.{has_layer_below, search_layer-layer}
use docsiq.Vectorindex.Relink.{link_node-Relinked}

module _ (fl : Floats) where
  open fl use {F}

  -- The nodes of a list are nodes of a layer; so is the first, where there is one.
  closest-layer :
      (cells : List (HnswNode fl)) (l ep : ℕ) (cands : List (Scored fl))
      → count (λ s. strays fl cells l s.0) cands ≡ 0
      → has_layer fl cells l ep ≡ true
      → has_layer fl cells l (closest fl cands ep) ≡ true
  closest-layer cells l ep [] h e = e
  closest-layer cells l ep (c ∷ cs) h e = ground arith

  -- The nodes after phase 2: linked, with the layers that they had.
  abbrev pub Connected : (ℕ → ℕ) → List (HnswNode fl) → Option (List (HnswNode fl)) → Type 0
  Connected bound old result =
      (new : List (HnswNode fl)) × (result ≡ some new)
      × IsLinked fl bound new
      × (length new ≡ length old)
      × ((k b : ℕ) → has_layer fl new k b ≡ has_layer fl old k b)
      × ((b : ℕ) → frame_of fl new b ≡ frame_of fl old b)

  module _ (h : Hnsw fl) (n : ℕ) (vec : List F) (ef : 1 ≤ h.ef_constr) where
    pub connect-Connected :
        (l ep : ℕ) (cells : List (HnswNode fl))
        → IsLinked fl (max_conn fl h) cells
        → ((k : ℕ) → k < l → has_layer fl cells k n ≡ true)
        → ((k : ℕ) → k < l → links fl cells n k ≡ [])
        → ((k : ℕ) → k < l → has_layer fl cells k ep ≡ true)
        → Connected (max_conn fl h) cells (connect fl h n vec l ep cells)
    unfolding connect
    connect-Connected zero ep cells i up empty at =
        (cells, refl, i, refl, (λ k b. refl), (λ b. refl))
    connect-Connected (suc l) ep cells i up empty at =
        let (cands, e, _) = search_layer-IsHits fl cells vec h.ef_constr ep l ef in
        let near =
          search_layer-layer fl cells vec (max_conn fl h) i h.ef_constr l ep cands
            (at l (omega arith)) e in
        let (mid, f, j, k) =
          link_node-Relinked fl (max_conn fl h) l n cands cells i (up l (omega arith))
            (empty l (omega arith)) near in
        let next = closest fl cands ep in
        let at' = closest-layer cells l ep cands near (at l (omega arith)) in
        let (new, g, m, size, layers, levels) =
          connect-Connected l next mid j (λ x lt. k.layers x n ∙ up x (omega arith))
            (λ x lt. k.others n x (ground arith) ∙ empty x (omega arith))
            (λ x lt. k.layers x next ∙ has_layer_below fl cells vec x l next (omega arith) at') in
        (
          new,
          rw (e, f, connect) g,
          m,
          size ∙ k.size,
          (λ x b. layers x b ∙ k.layers x b),
          (λ b. levels b ∙ k.levels b),
        )
