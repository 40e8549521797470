-- ===== src/Vectorindex/Query.antt =====
-- internal/vectorindex/hnsw.go: what `Search` returns.
use docsiq.Prelude.{
  ℕ, false, sym, ◌∷◌, All, zero, suc, ◌+◌, ◌≤◌, ◌<◌, ◌≡◌, ◌≢◌, refl, ap, ◌∙◌, ◌⊎◌, not, ◌&&◌, none,
  some, List, [], map, take, length, length-map, length-take-le, ltb, ◌==◌, if◌then◌else◌, arith,
  Bool-cases, Option-cases, inl, inr, ==_iff,
}
use docsiq.Prelude.Int.{ℤ, pos, negsuc}
use docsiq.Prelude.Heap.Count.{count}
use docsiq.Prelude.Text.{Bytes, bytes_eq}
use docsiq.Vectorindex.{
  Floats, Hnsw, Scored, max_conn, id_of, vec_of, HnswNode, cosine_end, cosine_from, cosine_distance,
}
use docsiq.Vectorindex.Greedy.{IsOrder}
use docsiq.Vectorindex.Index.{
  level_of, search_from, search_top, search_index, Searched, hits, empty_query, dim_mismatch,
  panicked,
}
use docsiq.Vectorindex.Invariant.{IsIndex}
use docsiq.Vectorindex.Layered.{descend-layer}
use docsiq.Vectorindex.Links.{count-map, count-take}
use docsiq.Vectorindex.SearchLayer.{search_layer-IsHits}
use docsiq.Vectorindex.Visit.{is_id}

-- The number that is asked for; below 0 it is none.
abbrev asked : ℤ → ℕ
asked (pos n) = n
asked (negsuc n) = 0

module _ (fl : Floats) where
  open fl use {F, lt, from_one}

  -- At most so many hits, and each id once at most.
  abbrev pub IsHitList : ℕ → List (Bytes × F) → Type 0
  IsHitList k hs = (length hs ≤ k) × ((id : Bytes) → count (λ x. bytes_eq id x.0) hs ≤ 1)

  -- No distance of a node to the query panics.
  abbrev pub IsComparable : Hnsw fl → List F → Type 0
  IsComparable h query =
      All
        (λ n.
          cosine_from fl fl.nil fl.nil fl.nil n.vec query ≡ some (cosine_distance fl n.vec query))
        h.cells

  -- The four cases exclude each other.
  abbrev pub IsAnswer : Hnsw fl → List F → ℤ → Searched fl → Type 0
  IsAnswer h query k result =
      ((length query ≡ 0) × (result ≡ empty_query))
      ⊎ (((length query ≢ 0) × (length h.nodes ≡ 0) × (result ≡ hits []))
          ⊎ (((length query ≢ 0)
                × (length h.nodes ≢ 0)
                × (length query ≢ h.dims)
                × (result ≡ dim_mismatch))
              ⊎ ((length query ≢ 0)
                  × (length h.nodes ≢ 0)
                  × (length query ≡ h.dims)
                  × IsComparable h query
                  × ((hs : List (Bytes × F)) × (result ≡ hits hs) × IsHitList (asked k) hs))))

  cosine_from-returns :
      (dot na nb : fl.G) (a b : List F)
      → length a ≡ length b
      → (d : F) × (cosine_from fl dot na nb a b ≡ some d)
  unfolding cosine_from
  cosine_from-returns dot na nb [] b e = (cosine_end fl dot na nb, refl)
  cosine_from-returns dot na nb (x ∷ a) [] e = absurd (omega arith)
  cosine_from-returns dot na nb (x ∷ a) (y ∷ b) e =
      let da = fl.widen x in
      let db = fl.widen y in
      cosine_from-returns (fl.add dot (fl.mul da db)) (fl.add na (fl.mul da da))
        (fl.add nb (fl.mul db db)) a b (omega arith)

  cosine_distance-cosine_from :
      (a b : List F)
      → length a ≡ length b
      → cosine_from fl fl.nil fl.nil fl.nil a b ≡ some (cosine_distance fl a b)
  unfolding cosine_distance
  cosine_distance-cosine_from a b e =
      let (d, f) = cosine_from-returns fl.nil fl.nil fl.nil a b e in
      f ∙ ap some (sym (rw (f, cosine_distance) refl))

  sized-comparable :
      (cells : List (HnswNode fl)) (query : List F)
      → ((a : ℕ) → a < length cells → length (vec_of fl cells a) ≡ length query)
      → All
          (λ n.
            cosine_from fl fl.nil fl.nil fl.nil n.vec query ≡ some (cosine_distance fl n.vec query))
          cells
  sized-comparable [] query s = tt
  sized-comparable (n ∷ cells) query s = (
    cosine_distance-cosine_from n.vec query (s 0 (omega arith)),
    sized-comparable cells query (λ a lt. s (suc a) (omega arith)),
  )

  module _ (order : IsOrder fl) where
    search_from-hits :
        (h : Hnsw fl) (query : List F) (k e : ℕ)
        → IsIndex fl h
        → e < length h.cells
        → (hs : List (Bytes × F)) × (search_from fl h query k e ≡ hits hs) × IsHitList k hs
    unfolding search_from
    search_from-hits h query k e i below =
        let (a, f, _) =
          descend-layer fl h.cells query (max_conn fl h) i.linked order 0 (level_of fl h.cells e) e
            (i.tall e (0 + level_of fl h.cells e) below (omega arith)) in
        let ef = if ltb h.ef_search k then k else h.ef_search in
        let (cands, g, found) =
          search_layer-IsHits fl h.cells query ef a 0 (ground (arith, i.searches)) in
        let show : Scored fl → Bytes × F = λ s. (id_of fl h.cells s.0, from_one s.1) in
        (
          map show (take k cands),
          rw (f, g, search_from) refl,
          (
            omega (arith, length-map (take k cands) show, length-take-le k cands),
            λ id. omega (
              arith,
              count-map show (λ x. bytes_eq id x.0) (take k cands),
              count-take (is_id fl h.cells id) k cands,
              found.1 id,
            ),
          ),
        )

    search_top-hits :
        (h : Hnsw fl) (query : List F) (k : ℤ)
        → IsIndex fl h
        → h.nodes ≢ []
        → (hs : List (Bytes × F)) × (search_top fl h query k ≡ hits hs) × IsHitList (asked k) hs
    search_top-hits h query (pos zero) i full = ([], refl, (omega arith, λ id. omega arith))
    search_top-hits h query (negsuc k) i full = ([], refl, (omega arith, λ id. omega arith))
    search_top-hits h query (pos (suc k)) i full = elim (Option-cases h.entry) [
      | inl e ↦ absurd (full (i.start.empty e))
      | inr (e, f) ↦
          let (hs, g, good) = search_from-hits h query (suc k) e i (i.start.entered e f) in
          (
            hs,
            ap (λ x. elim x [ none ↦ panicked | some e ↦ search_from fl h query (suc k) e ]) f ∙ g,
            good,
          )
    ]

    -- Where there are nodes, the dimension is set.
    dims_set : (h : Hnsw fl) → IsIndex fl h → h.nodes ≢ [] → 0 < h.dims
    dims_set h i full = elim (Option-cases h.entry) [
      | inl e ↦ absurd (full (i.start.empty e))
      | inr (e, f) ↦ (i.sized e (i.start.entered e f)).0
    ]

    -- On a well-formed index `Search` returns: `ErrEmptyQuery` exactly for an empty query; else no
    -- hits from an index without nodes; else `ErrDimMismatch` exactly for a query whose length is
    -- not the index's dimension; else at most `k` hits, none for `k` up to 0,
    -- with each id once at most, and no distance of a node to the query panics. It is supposed that `<` of float32 is irreflexive and transitive.
    pub search_index-IsAnswer :
        (h : Hnsw fl) (query : List F) (k : ℤ)
        → IsIndex fl h
        → IsAnswer h query k (search_index fl h query k)
    unfolding search_index
    search_index-IsAnswer h query k i = elim (Bool-cases (length query == 0)) [
      | inl a ↦ rw (a, search_index) (inl ((==_iff (length query) 0).0 a, refl))
      | inr a ↦ elim (Bool-cases (length h.nodes == 0)) [
        | inl b ↦
            rw (a, b, search_index)
              (inr (inl (ground arith, (==_iff (length h.nodes) 0).0 b, refl)))
        | inr b ↦
            let full : h.nodes ≢ [] = λ e. absurd (ground (arith, b, ap length e)) in
            let set = dims_set h i full in
            let fits : (not (h.dims == 0) && not (length query == h.dims)) ≡ false
                → 0 < h.dims
                → length query ≡ h.dims =
              λ c d. ground arith in
            elim (Bool-cases (not (h.dims == 0) && not (length query == h.dims))) [
              | inl c ↦
                  rw (a, b, c, search_index)
                    (inr (inr (inl (ground arith, ground arith, ground arith, refl))))
              | inr c ↦
                  rw (a, b, c, search_index)
                    (inr (
                      inr (
                        inr (
                          ground arith,
                          ground arith,
                          fits c set,
                          sized-comparable h.cells query
                              (λ x lt. (i.sized x lt).1 ∙ sym (fits c set)),
                          search_top-hits h query k i full,
                        ))))
            ]
      ]
    ]
