-- ===== src/Vectorindex/Index.antt =====
-- internal/vectorindex/hnsw.go and builder.go: `Add`, `Remove`, `Search` and `BuildFromStore`. The
-- order in which `range` visits the nodes and the level of a new node are parameters.
use docsiq.Prelude.{
  ℕ, zero, suc, ◌+◌, ◌-◌, Bool, false, not, ◌&&◌, Option, none, some, List, [], ◌∷◌, ◌++◌, map,
  length, get_elem?, set, take, replicate, ltb, leb, ◌==◌, if◌then◌else◌,
}
use docsiq.Prelude.Int.{ℤ, pos, negsuc}
use docsiq.Prelude.Heap.{init, pop}
use docsiq.Prelude.Text.{Bytes, bytes_eq}
use docsiq.Vectorindex.{
  Floats, HnswNode, Hnsw, Scored, max_less, max_conn, vec_of, id_of, cosine_distance, greedy_step,
  search_layer, new_hnsw,
}

-- The map from ids to addresses.
unfoldable pub lookup_node : List (Bytes × ℕ) → Bytes → Option ℕ
lookup_node [] id = none
lookup_node ((k, a) ∷ m) id = let rest = lookup_node m id in if bytes_eq id k then some a else rest

unfoldable pub delete_node : List (Bytes × ℕ) → Bytes → List (Bytes × ℕ)
delete_node [] id = []
delete_node ((k, a) ∷ m) id =
    let rest = delete_node m id in if bytes_eq id k then rest else (k, a) ∷ rest

-- `removeRef`: the first of the references is dropped.
unfoldable pub remove_ref : List ℕ → ℕ → List ℕ
remove_ref [] a = []
remove_ref (x ∷ xs) a = let rest = remove_ref xs a in if x == a then xs else x ∷ rest

-- A change of one layer of a node's links; a layer that the node does not have is left alone.
unfoldable pub modify_layer : List (List ℕ) → ℕ → (List ℕ → List ℕ) → List (List ℕ)
modify_layer [] l f = []
modify_layer (x ∷ xs) zero f = f x ∷ xs
modify_layer (x ∷ xs) (suc l) f = x ∷ modify_layer xs l f

module _ (fl : Floats) where
  open fl use {F, lt, from_one}

  unfoldable pub modify : List (HnswNode fl) → ℕ → ℕ → (List ℕ → List ℕ) → List (HnswNode fl)
  modify cells a l f = elim (get_elem? cells a) [
    | none ↦ cells
    | some n ↦ set cells a (record n { neighbors = modify_layer n.neighbors l f })
  ]

  -- The greedy descent over so many layers above one; `none` is that a step did not end.
  unfoldable pub descend : List (HnswNode fl) → List F → ℕ → ℕ → ℕ → Option ℕ
  descend cells query floor zero ep = some ep
  descend cells query floor (suc k) ep = elim (greedy_step fl cells ep query (floor + suc k)) [
    | none ↦ none
    | some a ↦ descend cells query floor k a
  ]

  -- `heap.Pop` as long as there are too many, so many times at most.
  unfoldable pub pop_down : ℕ → ℕ → List (Scored fl) → List (Scored fl)
  pop_down zero max h = h
  pop_down (suc k) max h =
      let rest : List (Scored fl) = elim (pop (max_less fl) h) [
        | none ↦ h
        | some (w, r) ↦ pop_down k max r
      ] in
      if ltb max (length h) then rest else h

  -- The links that `pruneNeighbors` keeps.
  unfoldable pub pruned : List (HnswNode fl) → ℕ → ℕ → List ℕ → List ℕ
  pruned cells node max nbs =
      let scored =
        map (λ nb. (nb, cosine_distance fl (vec_of fl cells node) (vec_of fl cells nb))) nbs in
      if leb (length nbs) max
      then nbs
      else map (λ s. s.0) (pop_down (length nbs) max (init (max_less fl) scored))

  -- A node has a layer.
  abbrev pub has_layer : List (HnswNode fl) → ℕ → ℕ → Bool
  has_layer cells l a = elim (get_elem? cells a) [
    | none ↦ false
    | some n ↦ ltb l (length n.neighbors)
  ]

  -- A link back from a neighbour, and `pruneNeighbors`; `none` is an index out of range.
  unfoldable pub link_back : ℕ → ℕ → ℕ → ℕ → List (HnswNode fl) → Option (List (HnswNode fl))
  link_back max l n nb cells =
      if has_layer cells l nb
      then some (modify (modify cells nb l (λ nbs. nbs ++ n ∷ [])) nb l (pruned cells nb max))
      else none

  unfoldable pub link_all : ℕ → ℕ → ℕ → List ℕ → List (HnswNode fl) → Option (List (HnswNode fl))
  link_all max l n [] cells = some cells
  link_all max l n (nb ∷ nbs) cells = elim (link_back max l n nb cells) [
    | none ↦ none
    | some linked ↦ link_all max l n nbs linked
  ]

  -- The closest candidate, where there is one.
  abbrev pub closest : List (Scored fl) → ℕ → ℕ
  closest [] ep = ep
  closest (c ∷ cs) ep = c.0

  -- The links of a new node at a layer, both ways.
  unfoldable pub link_node :
      ℕ → ℕ → ℕ → List (Scored fl) → List (HnswNode fl) → Option (List (HnswNode fl))
  link_node max l n cands cells =
      let nbs = map (λ s. s.0) (take max cands) in
      if has_layer cells l n
      then link_all max l n nbs (modify cells n l (λ old. old ++ nbs))
      else none

  -- Phase 2 of `Add`, at the layers below one; `none` is a search that does not end or an index
  -- out of range.
  unfoldable pub connect :
      Hnsw fl → ℕ → List F → ℕ → ℕ → List (HnswNode fl) → Option (List (HnswNode fl))
  connect h n vec zero ep cells = some cells
  connect h n vec (suc l) ep cells = elim (search_layer fl cells ep vec h.ef_constr l) [
    | none ↦ none
    | some cands ↦ elim (link_node (max_conn fl h l) l n cands cells) [
      | none ↦ none
      | some linked ↦ connect h n vec l (closest cands ep) linked
    ]
  ]

  -- The first loop of `removeNode`, over the links of a layer and over the layers.
  unfoldable pub unlink : ℕ → ℕ → List ℕ → List (HnswNode fl) → List (HnswNode fl)
  unlink a l [] cells = cells
  unlink a l (nb ∷ nbs) cells = unlink a l nbs (modify cells nb l (λ xs. remove_ref xs a))

  unfoldable pub unlink_layers : ℕ → ℕ → List (List ℕ) → List (HnswNode fl) → List (HnswNode fl)
  unlink_layers a l [] cells = cells
  unlink_layers a l (nbs ∷ layers) cells = unlink_layers a (suc l) layers (unlink a l nbs cells)

  abbrev pub level_of : List (HnswNode fl) → ℕ → ℕ
  level_of cells a = elim (get_elem? cells a) [ none ↦ 0 | some n ↦ n.level ]

  -- The second loop of `removeNode`.
  unfoldable pub promote : List (HnswNode fl) → List (Bytes × ℕ) → Option ℕ → Option ℕ
  promote cells [] entry = entry
  promote cells ((id, a) ∷ m) none = promote cells m (some a)
  promote cells ((id, a) ∷ m) (some e) =
      promote cells m (some (if ltb (level_of cells e) (level_of cells a) then a else e))

  abbrev pub is_entry : Option ℕ → ℕ → Bool
  is_entry none a = false
  is_entry (some e) a = e == a

  pub data Searched : Type 0 where
    hits : List (Bytes × F) → Searched
    empty_query dim_mismatch panicked stuck : Searched

  -- `Search` from the entry point, for `k` above 0. A loop that does not end is `stuck`.
  unfoldable pub search_from : Hnsw fl → List F → ℕ → ℕ → Searched
  search_from h query k entry = elim (descend h.cells query 0 (level_of h.cells entry) entry) [
    | none ↦ stuck
    | some ep ↦
        elim (search_layer fl h.cells ep query (if ltb h.ef_search k then k else h.ef_search) 0) [
          | none ↦ stuck
          | some cands ↦ hits (map (λ s. (id_of fl h.cells s.0, from_one s.1)) (take k cands))
        ]
  ]

  abbrev pub search_entry : Hnsw fl → List F → ℕ → Searched
  search_entry h query k = elim h.entry [ none ↦ panicked | some e ↦ search_from h query k e ]

  abbrev pub search_top : Hnsw fl → List F → ℤ → Searched
  search_top h query (pos zero) = hits []
  search_top h query (pos (suc k)) = search_entry h query (suc k)
  search_top h query (negsuc k) = hits []

  unfoldable pub search_index : Hnsw fl → List F → ℤ → Searched
  search_index h query k =
      if length query == 0
      then empty_query
      else if length h.nodes == 0
      then hits []
      else if not (h.dims == 0) && not (length query == h.dims)
      then dim_mismatch
      else search_top h query k

  abbrev pub new_node : Bytes → List F → ℕ → HnswNode fl
  new_node id vec level = record {
    id = id;
    vec = vec;
    level = level;
    neighbors = replicate (suc level) [];
  }

  -- A call of `Add`, with the level that is drawn, or of `Remove`.
  pub data IndexCall : Type 0 where
    call_add : Bytes → List F → ℕ → IndexCall
    call_remove : Bytes → IndexCall

  -- The results of `BuildFromStore`; `not_returned` is that a call of `Add` does not return.
  pub data Built : Type 0 where
    built : Hnsw fl → Built
    models_failed embeddings_failed index_failed not_returned : Built

  -- `add_failed` is that `Add` does not return, or panics.
  pub data Added : Type 0 where
    added : Hnsw fl → Added
    empty_vec wrong_dims add_failed : Added

  -- `randomLevel`, of a level that the generator draws. With `m` 1 the factor `ml` is `1 / ln 1`,
  -- which is infinite; the conversion of its product to int, and 1 more, is negative on every
  -- platform, and the `make` of so many layers panics: `none`.
  unfoldable pub random_level : Hnsw fl → ℕ → Option ℕ
  random_level h draw = if h.m == 1 then none else some draw

  module _ (range_nodes : List (Bytes × ℕ) → List (Bytes × ℕ)) where
    -- `removeNode` of the node at an address.
    unfoldable pub remove_node : Hnsw fl → ℕ → Hnsw fl
    remove_node h a = elim (get_elem? h.cells a) [
      | none ↦ h
      | some n ↦
          let cells = unlink_layers a 0 n.neighbors h.cells in
          let nodes = delete_node h.nodes n.id in
          record h {
            cells = cells;
            nodes = nodes;
            entry = if is_entry h.entry a then promote cells (range_nodes nodes) none else h.entry;
          }
    ]

    unfoldable pub remove_index : Hnsw fl → Bytes → Hnsw fl
    remove_index h id = elim (lookup_node h.nodes id) [ none ↦ h | some a ↦ remove_node h a ]

    -- The new node, linked to the others from an entry point on.
    unfoldable pub insert_node : Hnsw fl → ℕ → List F → ℕ → ℕ → Added
    insert_node h n vec level entry =
        let max_l = level_of h.cells entry in
        elim (descend h.cells vec level (max_l - level) entry) [
          | none ↦ add_failed
          | some ep ↦
              elim (connect h n vec (suc (if ltb level max_l then level else max_l)) ep h.cells) [
                | none ↦ add_failed
                | some cells ↦ added (record h {
                  cells = cells;
                  entry = some (if ltb max_l level then n else entry);
                })
              ]
        ]

    -- `Add` after the test of the dimension, for the level that `randomLevel` draws.
    unfoldable pub add_drawn : Hnsw fl → Bytes → List F → ℕ → Added
    add_drawn h id vec level =
        let old = remove_index h id in
        let n = length old.cells in
        let h' = record old {
          cells = old.cells ++ new_node id vec level ∷ [];
          nodes = (id, n) ∷ delete_node old.nodes id;
        } in
        elim old.entry [
          | none ↦ added (record h' { entry = some n })
          | some e ↦ insert_node h' n vec level e
        ]

    unfoldable pub add_node : Hnsw fl → Bytes → List F → ℕ → Added
    add_node h id vec draw = elim (random_level h draw) [
      | none ↦ add_failed
      | some level ↦ add_drawn h id vec level
    ]

    unfoldable pub add_index : Hnsw fl → Bytes → List F → ℕ → Added
    add_index h id vec level =
        if length vec == 0
        then empty_vec
        else if h.dims == 0
        then add_node (record h { dims = length vec }) id vec level
        else if length vec == h.dims
        then add_node h id vec level
        else wrong_dims

    -- The loop of `BuildFromStore`: a chunk's id, its vector and the level that is drawn for it.
    unfoldable pub add_chunks : Hnsw fl → List (Bytes × List F × ℕ) → Added
    add_chunks h [] = added h
    add_chunks h ((id, [], level) ∷ cs) = add_chunks h cs
    add_chunks h ((id, x ∷ vec, level) ∷ cs) = elim (add_index h id (x ∷ vec) level) [
      | added h' ↦ add_chunks h' cs
      | empty_vec ↦ empty_vec
      | wrong_dims ↦ wrong_dims
      | add_failed ↦ add_failed
    ]

    -- `BuildFromStore`: what the store answers for its models and for the embeddings of a model.
    unfoldable pub build_from_store :
        Option (List Bytes) → (Bytes → Option (List (Bytes × List F × ℕ))) → Built
    build_from_store none embeddings = models_failed
    build_from_store (some []) embeddings = built (new_hnsw fl (pos 16) (pos 200) (pos 50))
    build_from_store (some (model ∷ models)) embeddings = elim (embeddings model) [
      | none ↦ embeddings_failed
      | some chunks ↦ elim (add_chunks (new_hnsw fl (pos 16) (pos 200) (pos 50)) chunks) [
        | added h ↦ built h
        | empty_vec ↦ index_failed
        | wrong_dims ↦ index_failed
        | add_failed ↦ not_returned
      ]
    ]

    -- The index after a call; `none` is that it does not return.
    unfoldable pub after_call : Hnsw fl → IndexCall → Option (Hnsw fl)
    after_call h (call_remove id) = some (remove_index h id)
    after_call h (call_add id vec level) = elim (add_index h id vec level) [
      | added h' ↦ some h'
      | empty_vec ↦ some h
      | wrong_dims ↦ some h
      | add_failed ↦ none
    ]

    unfoldable pub after_calls : List IndexCall → Hnsw fl → Option (Hnsw fl)
    after_calls [] h = some h
    after_calls (c ∷ cs) h = elim (after_call h c) [ none ↦ none | some h' ↦ after_calls cs h' ]
