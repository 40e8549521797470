-- ===== src/Search/Tests.antt =====
-- A store with one document of two chunks and three entities.
use docsiq.Prelude.Sort.{sort, insert}
use docsiq.Prelude.{◌≡◌, refl, false, none, some, [], ◌∷◌, arith, ltb, ℕ, length}
use docsiq.Prelude.Text.{Bytes, codes}
use docsiq.Prelude.Int.{pos, negsuc}
use docsiq.Search.{
  add_neighbours, cut, add_neighbour, add_entities, top_chunks, add_entity, walk, World, Entity,
  Community, Chunk, local_search, found, panicked,
}
use docsiq.Search.Summaries.{communities_at, global_search, answered}
use docsiq.Search.Local.{IsAnswer, local_search-IsAnswer}
use docsiq.Search.Global.{IsGrounded, global_search-IsGrounded}

abbrev entity : Bytes → Entity ℕ
entity id = record { id = id; vector = some (length id) }

abbrev chunk : Bytes → Chunk
chunk id = record { id = id; doc_id = codes "d" }

abbrev summary_of : Bytes → Community ℕ
summary_of t = record { title = t; summary = t; vector = none }

abbrev world : World
world = record {
  Vec = ℕ;
  Score = ℕ;
  gt = λ a b. ltb b a;
  half = 1;
  cosine = λ a b. b;
  is_empty = λ v. false;
  range_set = λ xs. xs;
  embed_one = λ t. some 1;
  search = none;
  get_chunk = λ id. some (chunk id);
  all_embeddings = some ((chunk (codes "x"), 1) ∷ (chunk (codes "y"), 2) ∷ []);
  entities_for_docs = λ docs. some (entity (codes "a") ∷ entity (codes "bb") ∷ []);
  relationships_in_docs =
      λ id depth docs. some (record { source_id = id; target_id = codes "c" } ∷ []);
  get_entity = λ id. some (entity id);
  list_communities = λ level. some [];
  all_communities = some (summary_of (codes "s") ∷ summary_of [] ∷ []);
  complete = λ query cs. some query;
}

local_search-IsAnswer_example : IsAnswer world 1 (local_search world [] (pos 1) (pos 2))
local_search-IsAnswer_example =
    local_search-IsAnswer world (λ id e p. ground (arith, p)) (λ find q k hits p h. cc) [] 1 (pos 2)
      (omega arith)

global_search-IsGrounded_example : IsGrounded world (global_search world (codes "q") (pos 0))
global_search-IsGrounded_example = global_search-IsGrounded world (codes "q") (pos 0)

finds :
    local_search world [] (pos 1) (pos 2)
    ≡ found (record {
      chunks = (chunk (codes "y"), 2) ∷ [];
      entities = entity (codes "bb") ∷ entity (codes "c") ∷ entity (codes "a") ∷ [];
      rels =
          record { source_id = codes "bb"; target_id = codes "c" }
          ∷ record { source_id = codes "a"; target_id = codes "c" }
          ∷ [];
    })
unfolding local_search top_chunks cut sort insert walk add_entities add_entity add_neighbours
    add_neighbour
finds = refl

-- A negative `topK` is not refused.
negative : local_search world [] (negsuc 0) (pos 2) ≡ panicked
unfolding local_search top_chunks cut
negative = refl

answers :
    global_search world (codes "q") (pos 0) ≡ answered (codes "q") (summary_of (codes "s") ∷ [])
unfolding global_search communities_at sort insert
answers = refl
