-- ===== src/Search.antt =====
-- internal/search/local.go: a search over a project's store. The store, the vector index, the
-- embedder, the language model and the arithmetic of scores are parameters. `sort.Slice` leaves the
-- order of equal scores open; here they keep theirs.
use docsiq.Prelude.{
  ℕ, zero, suc, ◌+◌, ◌-◌, ◌*◌, ◌^◌, ◌≡◌, Bool, true, false, not, Option, none, some, List, [], ◌∷◌,
  ◌++◌, any, length, map, take, leb, ltb, if◌then◌else◌,
}
use docsiq.Prelude.Int.{ℤ, pos, negsuc}
use docsiq.Prelude.Sort.{sort}
use docsiq.Prelude.Text.{Bytes, bytes_eq}
pub mod Local
pub mod Global
pub mod Summaries
mod Tests

-- What the two searches read of a chunk, an entity, a relationship and a community.
pub record Chunk : Type 0 where
  pub id : Bytes
  pub doc_id : Bytes

pub record Relationship : Type 0 where
  pub source_id : Bytes
  pub target_id : Bytes

pub record Entity (Vec : Type 0) : Type 0 where
  pub id : Bytes
  pub vector : Option Vec

pub record Community (Vec : Type 0) : Type 0 where
  pub title : Bytes
  pub summary : Bytes
  pub vector : Option Vec

-- `none` is an error, for a chunk or an entity also that it is not there. `search` is that of an
-- index that is there and not empty; `range_set` is the order in which `range` visits a set.
pub record World : Type 1 where
  pub Vec : Type 0
  pub Score : Type 0
  pub gt : Score → Score → Bool
  pub half : Score
  pub cosine : Vec → Vec → Score
  pub is_empty : Vec → Bool
  pub range_set : List Bytes → List Bytes
  pub embed_one : Bytes → Option Vec
  pub search : Option (Vec → ℤ → Option (List (Bytes × Score)))
  pub get_chunk : Bytes → Option Chunk
  pub all_embeddings : Option (List (Chunk × Vec))
  pub entities_for_docs : List Bytes → Option (List (Entity Vec))
  pub relationships_in_docs : Bytes → ℤ → List Bytes → Option (List Relationship)
  pub get_entity : Bytes → Option (Entity Vec)
  pub list_communities : ℤ → Option (List (Community Vec))
  pub all_communities : Option (List (Community Vec))
  pub complete : Bytes → List (ℕ × Community Vec) → Option Bytes

-- `topK * 2`, in 64 bits.
abbrev pub double : ℤ → ℤ
double (pos n) = if ltb (2 * n) (2 ^ 63) then pos (2 * n) else negsuc (2 ^ 64 - 2 * n - 1)
double (negsuc n) =
    if leb (2 * (n + 1)) (2 ^ 63) then negsuc (2 * n + 1) else pos (2 ^ 64 - 2 * (n + 1))

-- `xs[:k]` with `k` lowered to the length where it is above; `none` is a panic.
unfoldable pub cut : {A : Type 0} → ℤ → List A → Option (List A)
cut (pos k) xs = some (if ltb (length xs) k then take (length xs) xs else take k xs)
cut (negsuc k) xs = none

module _ (w : World) where
  open w use {
    Vec, Score, gt, half, cosine, is_empty, range_set, embed_one, search, get_chunk, all_embeddings,
    entities_for_docs, relationships_in_docs, get_entity, list_communities, all_communities,
    complete,
  }

  pub record LocalSearchResult : Type 0 where
    pub chunks : List (Chunk × Score)
    pub entities : List (Entity Vec)
    pub rels : List Relationship

  pub data Searched : Type 0 where
    found : LocalSearchResult → Searched
    failed panicked : Searched

  -- The chunks of the hits, but for those that the store does not give.
  abbrev pub hit_chunks : List (Bytes × Score) → List (Chunk × Score)
  hit_chunks [] = []
  hit_chunks ((id, score) ∷ hits) =
      let rest = hit_chunks hits in elim (get_chunk id) [ none ↦ rest | some c ↦ (c, score) ∷ rest ]

  -- The brute-force scan, in descending order of the scores.
  abbrev pub scored_chunks : Vec → List (Chunk × Vec) → List (Chunk × Score)
  scored_chunks q all = sort (λ a b. gt a.1 b.1) (map (λ c. (c.0, cosine q c.1)) all)

  -- The chunks, and `topK` as the search leaves it.
  pub data Top : Type 0 where
    top : ℤ → List (Chunk × Score) → Top
    top_failed top_panicked : Top

  abbrev pub lowered : ℤ → ℕ → ℤ
  lowered (pos k) n = pos (if ltb n k then n else k)
  lowered (negsuc k) n = negsuc k

  unfoldable pub top_chunks : Vec → ℤ → Top
  top_chunks q top_k = elim search [
    | some find ↦ elim (find q top_k) [
      | none ↦ top_failed
      | some hits ↦ top top_k (hit_chunks hits)
    ]
    | none ↦ elim all_embeddings [
      | none ↦ top_failed
      | some all ↦ elim (cut top_k (scored_chunks q all)) [
        | none ↦ top_panicked
        | some chunks ↦ top (lowered top_k (length all)) chunks
      ]
    ]
  ]

  -- The walk over the graph: the entities seen, and the result so far.
  pub record Walk : Type 0 where
    pub seen : List Bytes
    pub entities : List (Entity Vec)
    pub rels : List Relationship

  -- One of the two ends of a relationship.
  unfoldable pub add_neighbour : Bytes → Walk → Walk
  add_neighbour nid s = if any (bytes_eq nid) s.seen then s else record s {
    seen = nid ∷ s.seen;
    entities = elim (get_entity nid) [ none ↦ s.entities | some e ↦ s.entities ++ e ∷ [] ];
  }

  unfoldable pub add_neighbours : List Relationship → Walk → Walk
  add_neighbours [] s = s
  add_neighbours (r ∷ rs) s =
      add_neighbours rs (add_neighbour r.target_id (add_neighbour r.source_id s))

  -- The body of the loop over the entities with the best scores.
  unfoldable pub add_entity : ℤ → List Bytes → Entity Vec → Walk → Walk
  add_entity depth docs e s =
      let seen_too = record s { seen = e.id ∷ s.seen; entities = s.entities ++ e ∷ [] } in
      if any (bytes_eq e.id) s.seen then s else elim (relationships_in_docs e.id depth docs) [
        | none ↦ seen_too
        | some rs ↦ add_neighbours rs (record seen_too { rels = s.rels ++ rs })
      ]

  unfoldable pub add_entities : ℤ → List Bytes → List (Entity Vec) → Walk → Walk
  add_entities depth docs [] s = s
  add_entities depth docs (e ∷ es) s = add_entities depth docs es (add_entity depth docs e s)

  -- The entities that have a vector, with their scores.
  abbrev pub scored_entities : Vec → List (Entity Vec) → List (Entity Vec × Score)
  scored_entities q [] = []
  scored_entities q (e ∷ es) =
      let rest = scored_entities q es in
      elim e.vector [ none ↦ rest | some v ↦ (e, cosine q v) ∷ rest ]

  -- The keys of `docIDs`.
  abbrev pub doc_ids : List (Chunk × Score) → List Bytes
  doc_ids [] = []
  doc_ids ((c, s) ∷ cs) =
      let rest = doc_ids cs in if any (bytes_eq c.doc_id) rest then rest else c.doc_id ∷ rest

  -- The graph walk.
  unfoldable pub walk : Vec → ℤ → ℤ → List (Chunk × Score) → Searched
  walk q top_k depth chunks =
      let docs = range_set (doc_ids chunks) in
      elim (entities_for_docs docs) [
        | none ↦ failed
        | some es ↦ elim (cut (double top_k) (sort (λ a b. gt a.1 b.1) (scored_entities q es))) [
          | none ↦ panicked
          | some best ↦
              let s =
                add_entities depth docs (map (λ b. b.0) best)
                  (record { seen = []; entities = []; rels = [] }) in
              found (record { chunks = chunks; entities = s.entities; rels = s.rels })
        ]
      ]

  abbrev pub is_positive : ℤ → Bool
  is_positive (pos n) = ltb 0 n
  is_positive (negsuc n) = false

  abbrev pub walk_from : Vec → ℤ → Top → Searched
  walk_from q depth top_failed = failed
  walk_from q depth top_panicked = panicked
  walk_from q depth (top top_k []) = found (record { chunks = []; entities = []; rels = [] })
  walk_from q depth (top top_k (c ∷ cs)) =
      if is_positive depth
      then walk q top_k depth (c ∷ cs)
      else found (record { chunks = c ∷ cs; entities = []; rels = [] })

  unfoldable pub local_search : Bytes → ℤ → ℤ → Searched
  local_search query top_k depth = elim (embed_one query) [
    | none ↦ failed
    | some q ↦ walk_from q depth (top_chunks q top_k)
  ]
