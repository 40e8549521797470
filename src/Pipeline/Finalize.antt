-- ===== src/Pipeline/Finalize.antt =====
-- internal/pipeline/pipeline.go: the start of `finalize`, up to the detection of communities. Of
-- the store's tables of entities, relationships and communities there are the rows.
use docsiq.Prelude.{
  ℕ, ◌≡◌, ◌≢◌, Bool, true, false, not, ◌&&◌, Option, none, some, List, length, ltb, ◌==◌,
  if◌then◌else◌, arith,
}

pub record Tables (A B C : Type 0) : Type 0 where
  pub entities : List A
  pub relationships : List B
  pub communities : List C

pub data Started : Type 0 where
  entities_failed no_entities relationships_failed graph_unchanged detect_communities : Started

module _ {A B C : Type 0} where
  -- `GraphFingerprint`.
  abbrev pub graph_fingerprint : Tables A B C → ℕ × ℕ × ℕ
  graph_fingerprint t = (length t.entities, length t.relationships, length t.communities)

  -- The test that nothing has changed, for the counts of what was loaded and the fingerprint, which
  -- is `none` where its query fails.
  abbrev pub is_unchanged : Tables A B C → Option (ℕ × ℕ × ℕ) → Bool
  is_unchanged loaded none = false
  is_unchanged loaded (some (entities, relationships, communities)) =
      ltb 0 communities
      && entities == length loaded.entities
      && relationships == length loaded.relationships

  unfoldable pub finalize_start : Bool → Bool → Bool → Bool → Tables A B C → Started
  finalize_start force entities_load relationships_load fingerprint_works t =
      if not entities_load
      then entities_failed
      else if length t.entities == 0
      then no_entities
      else if not relationships_load
      then relationships_failed
      else if not force
          && is_unchanged t (if fingerprint_works then some (graph_fingerprint t) else none)
      then graph_unchanged
      else detect_communities

  -- Once there are communities, a call that is not forced and whose queries work does nothing,
  -- whatever the entities and relationships are: the counts are those of one and the same table.
  finalize_start-unforced :
      (t : Tables A B C)
      → length t.entities ≢ 0
      → length t.communities ≢ 0
      → finalize_start false true true true t ≡ graph_unchanged
  unfolding finalize_start
  finalize_start-unforced t some_entities some_communities = ground arith
