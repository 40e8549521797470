-- ===== src/Vectorindex/Placed.antt =====
-- internal/vectorindex/hnsw.go: the index with a new node, before it is linked.
use docsiq.Prelude.{
  ℕ, zero, suc, ap, ◌≤◌, ◌<◌, ◌≡◌, ◌∙◌, true, none, some, List, [], ◌∷◌, ◌++◌, length,
  length-append, ltb, ◌==◌, if◌then◌else◌, arith, Bool-cases, inl, inr, ==_iff,
}
use docsiq.Prelude.Heap.Count.{count}
use docsiq.Prelude.Text.{Bytes}
use docsiq.Vectorindex.{Floats, HnswNode, Hnsw, max_conn, vec_of}
use docsiq.Vectorindex.Append.{
  vec_of-append, links-append, has_layer-append, level_of-append, append-IsLinked, new_node-empty,
  length-new_node,
}
use docsiq.Vectorindex.Greedy.{IsOrder}
use docsiq.Vectorindex.Index.{has_layer, level_of, delete_node, new_node}
use docsiq.Vectorindex.Insertion.{IsPlaced}
use docsiq.Vectorindex.Invariant.{count-delete_node, outside, above, IsIndex}
use docsiq.Vectorindex.Links.{IsLinked}
use docsiq.Vectorindex.Removal.{delete_node-nil}
use docsiq.Vectorindex.Visit.{count_mono}

module _ (fl : Floats) (old : Hnsw fl) (i : IsIndex fl old) (id : Bytes) (vec : List fl.F)
    (level : ℕ) (order : IsOrder fl) (full : 0 < old.dims) (fits : length vec ≡ old.dims) where
  abbrev pub n : ℕ
  n = length old.cells

  abbrev pub cells : List (HnswNode fl)
  cells = old.cells ++ new_node fl id vec level ∷ []

  abbrev pub nodes : List (Bytes × ℕ)
  nodes = (id, n) ∷ delete_node old.nodes id

  size : length cells ≡ suc n
  size = omega (arith, length-append {0} old.cells (new_node fl id vec level ∷ []))

  level_of-new : level_of fl cells n ≡ level
  level_of-new = level_of-append fl old.cells (new_node fl id vec level) n ∙ ground arith

  placed-linked : IsLinked fl (max_conn fl old) cells
  placed-linked =
      append-IsLinked fl old.cells (new_node fl id vec level) (max_conn fl old)
        (new_node-empty fl id vec level) i.linked

  placed-tall :
      (a l : ℕ) → a < length cells → l ≤ level_of fl cells a → has_layer fl cells l a ≡ true
  placed-tall a l lt le =
      let new = new_node fl id vec level in
      has_layer-append fl old.cells new l a ∙ elim (Bool-cases (a == n)) [
        | inl b ↦ rw b (
            ground (arith, le, level_of-append fl old.cells new a, length-new_node fl id vec level))
        | inr b ↦ rw b (
            i.tall a l (ground (arith, lt, size, ==_iff a n))
              (ground (arith, le, level_of-append fl old.cells new a)))
      ]

  placed-sized :
      (a : ℕ) → a < length cells → (0 < old.dims) × (length (vec_of fl cells a) ≡ old.dims)
  placed-sized a lt =
      let new = new_node fl id vec level in
      elim (Bool-cases (a == n)) [
        | inl b ↦ (full, ap length (vec_of-append fl old.cells new a) ∙ rw b fits)
        | inr b ↦
            let (_, e) = i.sized a (ground (arith, lt, size, ==_iff a n)) in
            (full, ap length (vec_of-append fl old.cells new a) ∙ rw b e)
      ]

  placed-held : count (outside fl cells) nodes ≡ 0
  placed-held =
      let first : (if outside fl cells (id, n) then 1 else zero) ≡ 0 = ground (arith, size) in
      omega (
        arith,
        i.held,
        count-delete_node (outside fl old.cells) old.nodes id,
        count_mono (outside fl old.cells) (outside fl cells) (λ x m. ground (arith, m, size))
            (delete_node old.nodes id),
        size,
      )

  -- No node has more layers than both a node that has no less than the others, and the new one.
  placed-highest :
      (e b : ℕ)
      → e < n
      → count (above fl old.cells e) old.nodes ≡ 0
      → level_of fl cells e ≤ b
      → level ≤ b
      → count (λ x. ltb b (level_of fl cells x.1)) nodes ≡ 0
  placed-highest e b lt h le le' =
      let new = new_node fl id vec level in
      let first : (if ltb b (level_of fl cells n) then 1 else zero) ≡ 0 =
        ground (arith, level_of-new, le') in
      omega (
        arith,
        h,
        count-delete_node (above fl old.cells e) old.nodes id,
        count_mono (above fl old.cells e) (λ x. ltb b (level_of fl cells x.1))
            (λ x m. ground (
              arith,
              m,
              level_of-append fl old.cells new x.1,
              level_of-append fl old.cells new e,
              le,
              le',
            ))
            (delete_node old.nodes id),
        level_of-new,
      )

  pub appended-IsPlaced :
      (e : ℕ)
      → old.entry ≡ some e
      → IsPlaced fl order (record old { cells = cells; nodes = nodes }) n e level
  appended-IsPlaced e f = record {
    linked = placed-linked;
    tall = placed-tall;
    held = placed-held;
    bare = λ k.
        links-append fl old.cells (new_node fl id vec level) n k
        ∙ ground (arith, new_node-empty fl id vec level k);
    fresh = omega (arith, size);
    drawn = level_of-new;
    entered = omega (arith, size, i.start.entered e f);
    highest = λ b. placed-highest e b (i.start.entered e f) (i.start.highest e f);
    spread = i.spread;
    sized = placed-sized;
    connects = i.connects;
    searches = i.searches;
  }

  -- The first node.
  pub appended-IsIndex :
      old.entry ≡ none → IsIndex fl (record old { cells = cells; nodes = nodes; entry = some n })
  appended-IsIndex f = record {
    linked = placed-linked;
    tall = placed-tall;
    held = placed-held;
    start = record {
      empty = λ g. absurd (cc);
      entered = λ x g. let same : x ≡ n = cc in rw same (omega (arith, size));
      highest = λ x g.
          let same : x ≡ n = cc in
          let alone : delete_node old.nodes id ≡ [] =
            delete_node-nil old.nodes id (i.start.empty f) in
          rw (same, alone) (ground arith);
    };
    spread = i.spread;
    sized = placed-sized;
    connects = i.connects;
    searches = i.searches;
  }
