-- ===== src/Search/Local.antt =====
-- internal/search/local.go: what `LocalSearch` returns.
use docsiq.Prelude.{
  length-take-le, take, ltb, ap, ◌≡◌, refl, ◌∙◌, sym, true, false, List, [], ◌∷◌, ◌++◌, any, arith,
  Bool-cases, Option-cases, inl, inr, map, some, Option, length, ◌≤◌, ◌<◌, ◌*◌, ◌^◌, ℕ,
  if◌then◌else◌,
}
use docsiq.Prelude.Distinct.{distinct, distinct-snoc, any-append}
use docsiq.Prelude.Int.{ℤ, pos, negsuc}
use docsiq.Prelude.Text.{Bytes, bytes_eq, bytes_eq_iff}
use docsiq.Search.{
  sort, double, is_positive, hit_chunks, doc_ids, scored_entities, scored_chunks, World, Entity,
  Relationship, Chunk, Walk, Searched, found, failed, panicked, add_neighbour, add_neighbours,
  add_entity, add_entities, walk, walk_from, Top, top, top_failed, top_panicked, top_chunks,
  local_search, cut,
}

length-take_top :
    {A : Type 0} (k : ℕ) (xs : List A)
    → length (if ltb (length xs) k then take (length xs) xs else take k xs) ≤ k
length-take_top k xs = ground (arith, length-take-le {0} (length xs) xs, length-take-le {0} k xs)

-- A list is cut at the double of a small number.
cut-double :
    {A : Type 0} (k : ℕ) (xs : List A)
    → k < 2 ^ 62
    → (ys : List A) × (cut (double (pos k)) xs ≡ some ys)
unfolding cut
cut-double k xs h =
    let e : ltb (2 * k) (2 ^ 63) ≡ true = ground arith in
    (if ltb (length xs) (2 * k) then take (length xs) xs else take (2 * k) xs, rw e refl)

module _ (w : World) where
  open w use {Vec, Score, get_entity, relationships_in_docs, search}

  abbrev ids : List (Entity Vec) → List Bytes
  ids es = map (λ e. e.id) es

  -- No entity twice, and each of them is seen.
  record IsWalk (s : Walk w) : Type 0 where
    is_distinct : distinct bytes_eq (ids s.entities) ≡ true
    are_seen :
        (k : Bytes) → any (bytes_eq k) (ids s.entities) ≡ true → any (bytes_eq k) s.seen ≡ true

  ids-snoc : (es : List (Entity Vec)) (e : Entity Vec) → ids (es ++ e ∷ []) ≡ ids es ++ e.id ∷ []
  ids-snoc [] e = refl
  ids-snoc (x ∷ es) e = ap (◌∷◌ x.id) (ids-snoc es e)

  -- An entity that is not seen joins, or is seen only.
  join-IsWalk :
      (s : Walk w) (e : Entity Vec) (nid : Bytes) (rels : List Relationship)
      → IsWalk s
      → e.id ≡ nid
      → any (bytes_eq nid) s.seen ≡ false
      → IsWalk (record { seen = nid ∷ s.seen; entities = s.entities ++ e ∷ []; rels = rels })
  join-IsWalk s e nid rels h p n =
      let fresh : any (bytes_eq nid) (ids s.entities) ≡ false = ground (arith, h.are_seen nid) in
      let shape : ids (s.entities ++ e ∷ []) ≡ ids s.entities ++ nid ∷ [] =
        ids-snoc s.entities e ∙ ap (λ (k : Bytes). ids s.entities ++ k ∷ []) p in
      record {
        is_distinct =
            rw shape (distinct-snoc bytes_eq bytes_eq_iff (ids s.entities) nid h.is_distinct fresh);
        are_seen = λ k m.
            let both =
              sym (any-append bytes_eq k (ids s.entities) (nid ∷ []))
              ∙ sym (ap (any (bytes_eq k)) shape)
              ∙ m in
            ground (arith, h.are_seen k);
      }

  seen-IsWalk :
      (s : Walk w) (nid : Bytes)
      → IsWalk s
      → IsWalk (record { seen = nid ∷ s.seen; entities = s.entities; rels = s.rels })
  seen-IsWalk s nid h = record {
    is_distinct = h.is_distinct;
    are_seen = λ k m. ground (arith, h.are_seen k);
  }

  -- A result with at most so many chunks and no entity twice, or an error, but no panic.
  abbrev pub IsAnswer : ℕ → Searched w → Type 0
  IsAnswer n (found r) =
      (length r.chunks ≤ n) × (distinct bytes_eq (map (λ e. e.id) r.entities) ≡ true)
  IsAnswer n failed = Unit
  IsAnswer n panicked = ⊥

  module _ (named : (id : Bytes) (e : Entity Vec) → get_entity id ≡ some e → e.id ≡ id) where
    add_neighbour-IsWalk : (nid : Bytes) (s : Walk w) → IsWalk s → IsWalk (add_neighbour w nid s)
    unfolding add_neighbour
    add_neighbour-IsWalk nid s h = elim (Bool-cases (any (bytes_eq nid) s.seen)) [
      | inl e ↦ rw e h
      | inr e ↦ elim (Option-cases (get_entity nid)) [
        | inl g ↦ rw (e, g) (seen-IsWalk s nid h)
        | inr (x, g) ↦ rw (e, g) (join-IsWalk s x nid s.rels h (named nid x g) e)
      ]
    ]

    add_neighbours-IsWalk :
        (rs : List Relationship) (s : Walk w) → IsWalk s → IsWalk (add_neighbours w rs s)
    unfolding add_neighbours
    add_neighbours-IsWalk [] s h = h
    add_neighbours-IsWalk (r ∷ rs) s h =
        add_neighbours-IsWalk rs (add_neighbour w r.target_id (add_neighbour w r.source_id s)) (
          add_neighbour-IsWalk r.target_id (add_neighbour w r.source_id s)
            (add_neighbour-IsWalk r.source_id s h))

    add_entity-IsWalk :
        (depth : ℤ) (docs : List Bytes) (e : Entity Vec) (s : Walk w)
        → IsWalk s
        → IsWalk (add_entity w depth docs e s)
    unfolding add_entity
    add_entity-IsWalk depth docs e s h = elim (Bool-cases (any (bytes_eq e.id) s.seen)) [
      | inl p ↦ rw p h
      | inr p ↦ elim (Option-cases (relationships_in_docs e.id depth docs)) [
        | inl g ↦ rw (p, g) (join-IsWalk s e e.id s.rels h refl p)
        | inr (rs, g) ↦
            rw (p, g)
              (add_neighbours-IsWalk rs
                (record {
                  seen = e.id ∷ s.seen;
                  entities = s.entities ++ e ∷ [];
                  rels = s.rels ++ rs;
                })
                (join-IsWalk s e e.id (s.rels ++ rs) h refl p))
      ]
    ]

    add_entities-IsWalk :
        (depth : ℤ) (docs : List Bytes) (es : List (Entity Vec)) (s : Walk w)
        → IsWalk s
        → IsWalk (add_entities w depth docs es s)
    unfolding add_entities
    add_entities-IsWalk depth docs [] s h = h
    add_entities-IsWalk depth docs (e ∷ es) s h =
        add_entities-IsWalk depth docs es (add_entity w depth docs e s)
          (add_entity-IsWalk depth docs e s h)

    walk-IsAnswer :
        (q : Vec) (n k : ℕ) (depth : ℤ) (chunks : List (Chunk × Score))
        → k < 2 ^ 62
        → length chunks ≤ n
        → IsAnswer n (walk w q (pos k) depth chunks)
    unfolding walk
    walk-IsAnswer q n k depth chunks h l =
        let docs = w.range_set (doc_ids w chunks) in
        elim (Option-cases (w.entities_for_docs docs)) [
          | inl e ↦ rw (e, walk) tt
          | inr (es, e) ↦
              let (best, f) =
                cut-double k (sort (λ a b. w.gt a.1 b.1) (scored_entities w q es)) h in
              let start : Walk w = record { seen = []; entities = []; rels = [] } in
              rw (e, f, walk)
                (
                  l,
                  (add_entities-IsWalk depth docs (map (λ b. b.0) best) start
                      (record { is_distinct = refl; are_seen = λ k m. m })).is_distinct,
                )
        ]

    -- `topK` and the chunks within a bound.
    abbrev IsTop : ℕ → Top w → Type 0
    IsTop n (top (pos k) cs) = (k ≤ n) × (length cs ≤ n)
    IsTop n (top (negsuc k) cs) = ⊥
    IsTop n top_failed = Unit
    IsTop n top_panicked = ⊥

    length-hit_chunks : (hits : List (Bytes × Score)) → length (hit_chunks w hits) ≤ length hits
    length-hit_chunks [] = omega arith
    length-hit_chunks ((id, x) ∷ hits) = ground (arith, length-hit_chunks hits)

    module _
        (bounded : (find : Vec → ℤ → Option (List (Bytes × Score))) (q : Vec) (k : ℕ)
            (hits : List (Bytes × Score))
          → search ≡ some find
          → find q (pos k) ≡ some hits
          → length hits ≤ k) where
      top_chunks-IsTop : (q : Vec) (k : ℕ) → IsTop k (top_chunks w q (pos k))
      unfolding top_chunks cut
      top_chunks-IsTop q k = elim (Option-cases search) [
        | inr (find, e) ↦ elim (Option-cases (find q (pos k))) [
          | inl f ↦ rw (e, f) tt
          | inr (hits, f) ↦
              rw (e, f)
                (omega arith, omega (arith, length-hit_chunks hits, bounded find q k hits e f))
        ]
        | inl e ↦ elim (Option-cases w.all_embeddings) [
          | inl f ↦ rw (e, f) tt
          | inr (all, f) ↦ rw (e, f) (ground arith, length-take_top k (scored_chunks w q all))
        ]
      ]

      walk_from-IsAnswer :
          (q : Vec) (n : ℕ) (depth : ℤ) (t : Top w)
          → n < 2 ^ 62
          → IsTop n t
          → IsAnswer n (walk_from w q depth t)
      walk_from-IsAnswer q n depth top_failed h t = tt
      walk_from-IsAnswer q n depth top_panicked h t = t
      walk_from-IsAnswer q n depth (top (negsuc k) cs) h t = elim t [ ]
      walk_from-IsAnswer q n depth (top (pos k) []) h t = (omega arith, refl)
      walk_from-IsAnswer q n depth (top (pos k) (c ∷ cs)) h (a, b) =
          elim (Bool-cases (is_positive w depth)) [
            | inl e ↦ rw e (walk-IsAnswer q n k depth (c ∷ cs) (omega arith) b)
            | inr e ↦ rw e (b, refl)
          ]

      -- Suppose that the store gives for an id only an entity of this id, and that the index gives
      -- at most as many hits as it is asked for. With a `topK` that is not negative and below
      -- 2 ^ 62, `LocalSearch` does not panic, and where it gives a result this has at most `topK`
      -- chunks and no entity twice.
      pub local_search-IsAnswer :
          (query : Bytes) (k : ℕ) (depth : ℤ)
          → k < 2 ^ 62
          → IsAnswer k (local_search w query (pos k) depth)
      unfolding local_search
      local_search-IsAnswer query k depth h = elim (Option-cases (w.embed_one query)) [
        | inl e ↦ rw (e, local_search) tt
        | inr (q, e) ↦
            rw (e, local_search)
              (walk_from-IsAnswer q k depth (top_chunks w q (pos k)) h (top_chunks-IsTop q k))
      ]
