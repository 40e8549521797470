-- ===== src/Pipeline/Integrity.antt =====
-- internal/pipeline/pipeline.go: the relationships that `extractGraph` writes.
use docsiq.Prelude.{
  ℕ, suc, ◌≡◌, refl, sym, ◌∙◌, Bool, true, not, ◌&&◌, ◌||◌, Option, some, List, [], ◌∷◌, ◌++◌, map,
  any, all, length, ltb, arith, Bool-cases, Option-cases, inl, inr,
}
use docsiq.Prelude.Distinct.{distinct}
use docsiq.Prelude.Text.{Bytes, bytes_eq, bytes_eq_refl}
use docsiq.Extractor.{Entity, Relationship, ExtractionResult, key_eq, any_key, add_fresh}
use docsiq.Extractor.Merge.{add_fresh-distinct, key_eq_iff}
use docsiq.Pipeline.Graph.{
  EntityRow, RelRow, find_name, all_entities, all_relationships, Gathered, graphed,
  graph_entities_failed, graph_relationships_failed, normalize_entity_name, display_names, by_norm,
  display_of, gather_new, gather_entity, gather, resolve_rel, resolve_rels, row_key, unique_rels,
  extract_graph,
}

-- An id is that of a row to write, or of an entity that the store has.
abbrev pub is_known : List EntityRow → List (Bytes × EntityRow) → Bytes → Bool
is_known rows found id = any (λ x. bytes_eq id x.id) rows || any (λ p. bytes_eq id p.1.id) found

abbrev pub is_linked : List EntityRow → List (Bytes × EntityRow) → RelRow → Bool
is_linked rows found r = is_known rows found r.source_id && is_known rows found r.target_id

any_app : {A : Type 0} (p : A → Bool) (xs ys : List A) → any p (xs ++ ys) ≡ (any p xs || any p ys)
any_app p [] ys = refl
any_app p (x ∷ xs) ys = ground (arith, any_app p xs ys)

all_snoc :
    {A : Type 0} (p : A → Bool) (xs : List A) (a : A)
    → all p xs ≡ true
    → p a ≡ true
    → all p (xs ++ a ∷ []) ≡ true
all_snoc p [] a h k = ground arith
all_snoc p (x ∷ xs) a h k = ground (arith, all_snoc p xs a (ground arith) k)

all-add_fresh :
    {A K : Type 0} (p : A → Bool) (key : A → K) (eq : K → K → Bool) (wanted : K → Bool)
    (seen : List K) (merged more : List A)
    → all p merged ≡ true
    → all p more ≡ true
    → all p (add_fresh key eq wanted seen merged more) ≡ true
unfolding add_fresh
all-add_fresh p key eq wanted seen merged [] h k = h
all-add_fresh p key eq wanted seen merged (a ∷ more) h k =
    elim (Bool-cases (wanted (key a) && not (any (eq (key a)) seen))) [
      | inl e ↦ rw e (
          all-add_fresh p key eq wanted (key a ∷ seen) (merged ++ a ∷ []) more
            (all_snoc p merged a h (ground arith)) (ground arith))
      | inr e ↦ rw e (all-add_fresh p key eq wanted seen merged more h (ground arith))
    ]

module _ (to_lower : Bytes → Bytes) where
  -- What the map by normalized names finds is an entity that the store has.
  by_norm_found :
      (m xs : List (Bytes × EntityRow)) (n id : Bytes)
      → any (λ p. bytes_eq id p.1.id) (by_norm to_lower m xs) ≡ true
      → (any (λ p. bytes_eq id p.1.id) m || any (λ p. bytes_eq id p.1.id) xs) ≡ true
  unfolding by_norm
  by_norm_found m [] n id h = ground (arith, h)
  by_norm_found m ((name, x) ∷ xs) n id h =
      ground (arith, by_norm_found ((normalize_entity_name to_lower name, x) ∷ m) xs n id h)

  find-any :
      (m : List (Bytes × EntityRow)) (n : Bytes) (x : EntityRow)
      → find_name m n ≡ some x
      → any (λ p. bytes_eq x.id p.1.id) m ≡ true
  unfolding find_name
  find-any [] n x e = absurd (cc)
  find-any ((k, a) ∷ m) n x e = elim (Bool-cases (bytes_eq n k)) [
    | inl b ↦
        let q : find_name ((k, a) ∷ m) n ≡ some a = rw (b, find_name) refl in
        let same : x ≡ a = cc in rw same (ground (arith, bytes_eq_refl a.id))
    | inr b ↦
        let q : find_name ((k, a) ∷ m) n ≡ find_name m n = rw (b, find_name) refl in
        ground (arith, find-any m n x (sym q ∙ e))
  ]

  -- Every name that has an id has a known one.
  abbrev pub Known : List (Bytes × EntityRow) → Gathered → Type 0
  Known found s = (n id : Bytes) → find_name s.ids n ≡ some id → is_known s.rows found id ≡ true

  known_more :
      (rows more : List EntityRow) (found : List (Bytes × EntityRow)) (id : Bytes)
      → is_known rows found id ≡ true
      → is_known (rows ++ more) found id ≡ true
  known_more rows more found id h = ground (arith, h, any_app (λ x. bytes_eq id x.id) rows more)

  module _ (new_id : ℕ → Bytes) (found : List (Bytes × EntityRow))
      (display : List (Bytes × Bytes)) where
    -- A new pair of a name and a known id, and perhaps a new row.
    Known-cons :
        (s : Gathered) (n id : Bytes) (rows : List EntityRow) (drawn : ℕ)
        → Known found s
        → ((i : Bytes) → is_known s.rows found i ≡ true → is_known rows found i ≡ true)
        → is_known rows found id ≡ true
        → Known found (record { ids = (n, id) ∷ s.ids; rows = rows; drawn = drawn })
    unfolding find_name
    Known-cons s n id rows drawn h more k m i e = elim (Bool-cases (bytes_eq m n)) [
      | inl b ↦
          let q : find_name ((n, id) ∷ s.ids) m ≡ some id = rw (b, find_name) refl in
          let same : i ≡ id = cc in rw same k
      | inr b ↦
          let q : find_name ((n, id) ∷ s.ids) m ≡ find_name s.ids m = rw (b, find_name) refl in
          more i (h m i (sym q ∙ e))
    ]

    gather_new-Known :
        (s : Gathered) (n : Bytes) (e : Entity)
        → Known found s
        → Known found (gather_new to_lower new_id found display s n e)
    unfolding gather_new
    gather_new-Known s n e h = elim (Option-cases (find_name found n)) [
      | inl f ↦
          let row : EntityRow = record {
            id = new_id s.drawn;
            name = display_of to_lower new_id found display n;
            kind = e.kind;
            description = e.description;
          } in
          rw (f, gather_new)
            (Known-cons s n (new_id s.drawn) (s.rows ++ row ∷ []) (suc s.drawn) h
              (known_more s.rows (row ∷ []) found)
              (ground (
                arith,
                any_app (λ x. bytes_eq (new_id s.drawn) x.id) s.rows (row ∷ []),
                bytes_eq_refl (new_id s.drawn),
              )))
      | inr (x, f) ↦
          let k = find-any found n x f in
          elim (Bool-cases (ltb (length x.description) (length e.description))) [
            | inl b ↦
                let row : EntityRow = record x { description = e.description } in
                rw (f, gather_new, b)
                  (Known-cons s n x.id (s.rows ++ row ∷ []) s.drawn h
                    (known_more s.rows (row ∷ []) found) (ground (arith, k)))
            | inr b ↦
                rw (f, gather_new, b)
                  (Known-cons s n x.id s.rows s.drawn h (λ i g. g) (ground (arith, k)))
          ]
    ]

    gather_entity-Known :
        (s : Gathered) (e : Entity)
        → Known found s
        → Known found (gather_entity to_lower new_id found display s e)
    unfolding gather_entity
    gather_entity-Known s e h = elim (Bool-cases (bytes_eq e.name [])) [
      | inl b ↦ rw (b, gather_entity) h
      | inr b ↦ elim (Option-cases (find_name s.ids (normalize_entity_name to_lower e.name))) [
        | inr (id, f) ↦ rw (b, f, gather_entity) h
        | inl f ↦
            rw (b, f, gather_entity)
              (gather_new-Known s (normalize_entity_name to_lower e.name) e h)
      ]
    ]

    gather-Known :
        (s : Gathered) (es : List Entity)
        → Known found s
        → Known found (gather to_lower new_id found display s es)
    unfolding gather
    gather-Known s [] h = h
    gather-Known s (e ∷ es) h =
        gather-Known (gather_entity to_lower new_id found display s e) es
          (gather_entity-Known s e h)

  none-Known :
      (found : List (Bytes × EntityRow)) → Known found (record { ids = []; rows = []; drawn = 0 })
  unfolding find_name
  none-Known found n id e = absurd (cc)

  resolve_rels-linked :
      (found : List (Bytes × EntityRow)) (s : Gathered) (rs : List Relationship)
      → Known found s
      → all (is_linked s.rows found) (resolve_rels to_lower s.ids rs) ≡ true
  unfolding resolve_rels resolve_rel
  resolve_rels-linked found s [] h = refl
  resolve_rels-linked found s (r ∷ rs) h =
      let src = normalize_entity_name to_lower r.source in
      let tgt = normalize_entity_name to_lower r.target in
      elim (Option-cases (find_name s.ids src)) [
        | inl e ↦ rw (e, resolve_rels) (resolve_rels-linked found s rs h)
        | inr (a, e) ↦ elim (Option-cases (find_name s.ids tgt)) [
          | inl f ↦ rw (e, f, resolve_rels) (resolve_rels-linked found s rs h)
          | inr (b, f) ↦
              rw (e, f, resolve_rels)
                (ground (arith, h src a e, h tgt b f, resolve_rels-linked found s rs h))
        ]
      ]

  is_linked-by_norm :
      (rows : List EntityRow) (found : List (Bytes × EntityRow)) (r : RelRow)
      → is_linked rows (by_norm to_lower [] found) r ≡ true
      → is_linked rows found r ≡ true
  is_linked-by_norm rows found r h =
      ground
        (arith, h, by_norm_found [] found [] r.source_id, by_norm_found [] found [] r.target_id)

  all_mono :
      (p q : RelRow → Bool)
      → ((r : RelRow) → p r ≡ true → q r ≡ true)
      → (rs : List RelRow) → all p rs ≡ true
      → all q rs ≡ true
  all_mono p q f [] h = refl
  all_mono p q f (r ∷ rs) h = ground (arith, f r, all_mono p q f rs (ground arith))

  -- What `extractGraph` writes: no two relationships have the same ends and the same predicate, up
  -- to its case and the space around it; and both ends of each are the ids of rows that it writes or
  -- of entities that the store has given.
  pub extract_graph-linked :
      (new_id : ℕ → Bytes) (get_entities_by_names : List Bytes → Option (List (Bytes × EntityRow)))
      (entities_work relationships_work : Bool) (results : List (Option ExtractionResult))
      (rows : List EntityRow) (rels : List RelRow) (found : List (Bytes × EntityRow))
      → get_entities_by_names (map (λ d. d.1) (display_names to_lower [] (all_entities results)))
        ≡ some found
      → extract_graph to_lower new_id get_entities_by_names entities_work relationships_work results
        ≡ graphed rows rels
      → (distinct key_eq (map (row_key to_lower) rels) ≡ true)
        × (all (is_linked rows found) rels ≡ true)
  unfolding extract_graph unique_rels
  extract_graph-linked new_id get_entities_by_names entities_work relationships_work results rows
        rels found e h =
      let es = all_entities results in
      let display = display_names to_lower [] es in
      let known = by_norm to_lower [] found in
      let s = gather to_lower new_id known display (record { ids = []; rows = []; drawn = 0 }) es in
      let resolved = resolve_rels to_lower s.ids (all_relationships results) in
      let out = unique_rels to_lower s.ids (all_relationships results) in
      let result =
        extract_graph to_lower new_id get_entities_by_names entities_work relationships_work
          results in
      elim (Bool-cases entities_work) [
        | inr b ↦
            let q : result ≡ graph_entities_failed = rw (e, b, extract_graph) refl in absurd (cc)
        | inl b ↦ elim (Bool-cases relationships_work) [
          | inr c ↦
              let q : result ≡ graph_relationships_failed = rw (e, b, c, extract_graph) refl in
              absurd (cc)
          | inl c ↦
              let q : result ≡ graphed s.rows out = rw (e, b, c, extract_graph) refl in
              let same_rows : rows ≡ s.rows = cc in
              let same_rels : rels ≡ out = cc in
              let ids =
                gather-Known new_id known display (record { ids = []; rows = []; drawn = 0 }) es
                  (none-Known known) in
              let linked =
                all-add_fresh (is_linked s.rows known) (row_key to_lower) key_eq any_key [] []
                  resolved refl (resolve_rels-linked known s (all_relationships results) ids) in
              rw (same_rows, same_rels)
                (
                  add_fresh-distinct (row_key to_lower) key_eq any_key key_eq_iff [] [] resolved
                      (λ k. refl) refl,
                  all_mono (is_linked s.rows known) (is_linked s.rows found)
                      (λ r. is_linked-by_norm s.rows found r) out linked,
                )
        ]
      ]
