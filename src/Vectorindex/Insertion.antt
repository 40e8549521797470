-- ===== src/Vectorindex/Insertion.antt =====
-- internal/vectorindex/hnsw.go and builder.go: `Add` does not fail and keeps the index well formed.
use docsiq.Prelude.{
  ℕ, suc, ap, ◌≢◌, ◌+◌, ◌-◌, ◌≤◌, ◌<◌, ◌≡◌, refl, ◌∙◌, true, some, List, [], length, ltb,
  if◌then◌else◌, arith, Bool-cases, inl, inr,
}
use docsiq.Prelude.Heap.Count.{count}
use docsiq.Prelude.Text.{Bytes}
use docsiq.Vectorindex.{Floats, HnswNode, Hnsw, max_conn, links, vec_of}
use docsiq.Vectorindex.Connect.{connect-Connected}
use docsiq.Vectorindex.Greedy.{IsOrder}
use docsiq.Vectorindex.Index.{has_layer, level_of, insert_node, Added, added, descend}
use docsiq.Vectorindex.Invariant.{outside, above, IsEntry, IsIndex}
use docsiq.Vectorindex.Layered.{has_layer_below, descend-layer}
use docsiq.Vectorindex.Links.{count_cong, IsLinked}

module _ (fl : Floats) (order : IsOrder fl) where
  open fl use {F}

  -- The index with a new node that is not linked, and is not the entry point.
  pub record IsPlaced (h : Hnsw fl) (n e level : ℕ) : Type 0 where
    pub linked : IsLinked fl (max_conn fl h) h.cells
    pub tall :
        (a l : ℕ) → a < length h.cells → l ≤ level_of fl h.cells a → has_layer fl h.cells l a ≡ true
    pub held : count (outside fl h.cells) h.nodes ≡ 0
    pub bare : (k : ℕ) → links fl h.cells n k ≡ []
    pub fresh : n < length h.cells
    pub drawn : level_of fl h.cells n ≡ level
    pub entered : e < length h.cells
    pub highest :
        (b : ℕ)
        → level_of fl h.cells e ≤ b
        → level ≤ b
        → count (λ x. ltb b (level_of fl h.cells x.1)) h.nodes ≡ 0
    pub spread : h.m ≢ 1
    pub sized :
        (a : ℕ) → a < length h.cells → (0 < h.dims) × (length (vec_of fl h.cells a) ≡ h.dims)
    pub connects : 1 ≤ h.ef_constr
    pub searches : 1 ≤ h.ef_search

  -- `Add` succeeds, with a well-formed index.
  abbrev pub IsAdded : Added fl → Type 0
  IsAdded result = (new : Hnsw fl) × (result ≡ added new) × IsIndex fl new

  module _ (h : Hnsw fl) (n e level : ℕ) (p : IsPlaced h n e level) (vec : List F)
      (range_nodes : List (Bytes × ℕ) → List (Bytes × ℕ)) where
    abbrev lowest : ℕ
    lowest = if ltb level (level_of fl h.cells e) then level else level_of fl h.cells e

    -- Phase 1 ends at a node with the layers of phase 2.
    descend-start :
        (a : ℕ) × (descend fl h.cells vec level (level_of fl h.cells e - level) e ≡ some a)
        × ((k : ℕ) → k < suc lowest → has_layer fl h.cells k a ≡ true)
    unfolding descend
    descend-start =
        let max_l = level_of fl h.cells e in
        elim (Bool-cases (ltb level max_l)) [
          | inl b ↦
              let (a, f, at) =
                descend-layer fl h.cells vec (max_conn fl h) p.linked order level (max_l - level) e
                  (p.tall e (level + (max_l - level)) p.entered (ground (arith, b))) in
              (a, f, λ k lt. has_layer_below fl h.cells vec k level a (ground (arith, b)) at)
          | inr b ↦
              let none_above : max_l - level ≡ 0 = ground (arith, b) in
              (e, rw (none_above, descend) refl, λ k lt. p.tall e k p.entered (ground (arith, b)))
        ]

    -- The entry point after `Add`, among nodes with the same layers.
    chosen-IsEntry :
        (cells : List (HnswNode fl))
        → length cells ≡ length h.cells
        → ((b : ℕ) → level_of fl cells b ≡ level_of fl h.cells b)
        → IsEntry fl cells h.nodes (some (if ltb (level_of fl h.cells e) level then n else e))
    chosen-IsEntry cells size levels = elim (Bool-cases (ltb (level_of fl h.cells e) level)) [
      | inl b ↦ rw b (record {
        empty = λ f. absurd (cc);
        entered = λ x f. let same : x ≡ n = cc in rw (same, size) p.fresh;
        highest = λ x f.
            let same : x ≡ n = cc in
            rw same (
              count_cong (above fl cells n) (λ y. ltb level (level_of fl h.cells y.1))
                (λ y. rw (levels n, levels y.1, p.drawn) refl) h.nodes
              ∙ p.highest level (ground (arith, b)) (omega arith));
      })
      | inr b ↦ rw b (record {
        empty = λ f. absurd (cc);
        entered = λ x f. let same : x ≡ e = cc in rw (same, size) p.entered;
        highest = λ x f.
            let same : x ≡ e = cc in
            rw same (
              count_cong (above fl cells e) (above fl h.cells e)
                (λ y. rw (levels e, levels y.1) refl) h.nodes
              ∙ p.highest (level_of fl h.cells e) (omega arith) (ground (arith, b)));
      })
    ]

    pub insert_node-IsAdded : IsAdded (insert_node fl range_nodes h n vec level e)
    unfolding insert_node
    insert_node-IsAdded =
        let (a, f, at) = descend-start in
        let few : lowest ≤ level = ground arith in
        let (cells, g, linked, size, layers, frames) =
          connect-Connected fl h n vec p.connects (suc lowest) a h.cells p.linked
            (λ k lt. p.tall n k p.fresh (omega (arith, few, p.drawn, lt))) (λ k lt. p.bare k) at in
        let levels : (b : ℕ) → level_of fl cells b ≡ level_of fl h.cells b =
          λ b. ap (λ p. p.0) (frames b) in
        let top = ltb (level_of fl h.cells e) level in
        let new : Hnsw fl = record h { cells = cells; entry = some (if top then n else e) } in
        (
          new,
          rw (f, g, insert_node) refl,
          record {
            linked = linked;
            tall = λ x l lt le.
                layers l x ∙ p.tall x l (omega (arith, size)) (omega (arith, levels x));
            held =
                count_cong (outside fl cells) (outside fl h.cells) (λ x. rw size refl) h.nodes
                ∙ p.held;
            start = chosen-IsEntry cells size levels;
            spread = p.spread;
            sized = λ x lt.
                let (d, e) = p.sized x (omega (arith, size)) in
                (d, ap (λ q. length q.1) (frames x) ∙ e);
            connects = p.connects;
            searches = p.searches;
          },
        )
