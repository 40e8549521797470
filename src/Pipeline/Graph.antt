-- ===== src/Pipeline/Graph.antt =====
-- internal/pipeline/pipeline.go: `extractGraph` from the results of the batches on. A batch that
-- failed is `none`; the ids of rows are drawn by their number, and those of relationships left out.
use docsiq.Prelude.{
  ℕ, suc, ◌==◌, Bool, true, false, not, ◌||◌, Option, none, some, List, [], ◌∷◌, ◌++◌, map, length,
  ltb, if◌then◌else◌,
}
use docsiq.Prelude.Space.{trim_space}
use docsiq.Prelude.Text.{Bytes, bytes_eq}
use docsiq.Extractor.{Entity, Relationship, ExtractionResult, RelKey, key_eq, any_key, add_fresh}

-- `\s` of package regexp.
abbrev pub is_re_space : ℕ → Bool
is_re_space b = b == 9 || b == 10 || b == 12 || b == 13 || b == 32

-- Each run of white space is one space; the flag is that the last byte was one of it.
unfoldable pub collapse_spaces : Bool → Bytes → Bytes
collapse_spaces in_run [] = []
collapse_spaces in_run (b ∷ t) =
    let spaced = collapse_spaces true t in
    let plain = collapse_spaces false t in
    if is_re_space b then (if in_run then spaced else 32 ∷ spaced) else b ∷ plain

-- A row of the table of entities, and one of that of relationships.
pub record EntityRow : Type 0 where
  pub id : Bytes
  pub name : Bytes
  pub kind : Bytes
  pub description : Bytes

pub record RelRow : Type 0 where
  pub source_id : Bytes
  pub target_id : Bytes
  pub predicate : Bytes
  pub description : Bytes
  pub weight : ℕ

-- A map from names.
unfoldable pub find_name : {A : Type 0} → List (Bytes × A) → Bytes → Option A
find_name [] name = none
find_name ((k, a) ∷ m) name =
    let rest = find_name m name in if bytes_eq name k then some a else rest

-- The results of the batches that succeeded.
unfoldable pub all_entities : List (Option ExtractionResult) → List Entity
all_entities [] = []
all_entities (none ∷ rs) = all_entities rs
all_entities (some r ∷ rs) = r.entities ++ all_entities rs

unfoldable pub all_relationships : List (Option ExtractionResult) → List Relationship
all_relationships [] = []
all_relationships (none ∷ rs) = all_relationships rs
all_relationships (some r ∷ rs) = r.relationships ++ all_relationships rs

-- The ids of normalized names, the rows to write, and how many ids are drawn.
pub record Gathered : Type 0 where
  pub ids : List (Bytes × Bytes)
  pub rows : List EntityRow
  pub drawn : ℕ

pub data Graphed : Type 0 where
  graphed : List EntityRow → List RelRow → Graphed
  graph_lookup_failed graph_entities_failed graph_relationships_failed : Graphed

module _ (to_lower : Bytes → Bytes) where
  abbrev pub normalize_entity_name : Bytes → Bytes
  normalize_entity_name name = collapse_spaces false (to_lower (trim_space name))

  -- The names that are first for their normalized name, by it.
  unfoldable pub display_names : List (Bytes × Bytes) → List Entity → List (Bytes × Bytes)
  display_names seen [] = seen
  display_names seen (e ∷ es) =
      let n = normalize_entity_name e.name in
      let kept = display_names seen es in
      let added = display_names ((n, e.name) ∷ seen) es in
      if bytes_eq e.name [] then kept else elim (find_name seen n) [ none ↦ added | some d ↦ kept ]

  -- The entities that the store has, by normalized name; a later one replaces an earlier one.
  unfoldable pub by_norm :
      List (Bytes × EntityRow) → List (Bytes × EntityRow) → List (Bytes × EntityRow)
  by_norm m [] = m
  by_norm m ((name, x) ∷ xs) = by_norm ((normalize_entity_name name, x) ∷ m) xs

  module _ (new_id : ℕ → Bytes) (existing : List (Bytes × EntityRow))
      (display : List (Bytes × Bytes)) where
    abbrev pub display_of : Bytes → Bytes
    display_of n = elim (find_name display n) [ none ↦ [] | some d ↦ d ]

    -- A name that has no id yet.
    unfoldable pub gather_new : Gathered → Bytes → Entity → Gathered
    gather_new s n e = elim (find_name existing n) [
      | some x ↦ record s {
        ids = (n, x.id) ∷ s.ids;
        rows =
            if ltb (length x.description) (length e.description)
            then s.rows ++ record x { description = e.description } ∷ []
            else s.rows;
      }
      | none ↦ record {
        ids = (n, new_id s.drawn) ∷ s.ids;
        rows =
            s.rows
            ++ record {
              id = new_id s.drawn;
              name = display_of n;
              kind = e.kind;
              description = e.description;
            }
              ∷ [];
        drawn = suc s.drawn;
      }
    ]

    unfoldable pub gather_entity : Gathered → Entity → Gathered
    gather_entity s e =
        let n = normalize_entity_name e.name in
        if bytes_eq e.name []
        then s
        else elim (find_name s.ids n) [ some id ↦ s | none ↦ gather_new s n e ]

    unfoldable pub gather : Gathered → List Entity → Gathered
    gather s [] = s
    gather s (e ∷ es) = gather (gather_entity s e) es

  -- A relationship between names that have ids.
  unfoldable pub resolve_rel : List (Bytes × Bytes) → Relationship → Option RelRow
  resolve_rel ids r = elim (find_name ids (normalize_entity_name r.source)) [
    | none ↦ none
    | some s ↦ elim (find_name ids (normalize_entity_name r.target)) [
      | none ↦ none
      | some t ↦ some (record {
        source_id = s;
        target_id = t;
        predicate = r.predicate;
        description = r.description;
        weight = r.weight;
      })
    ]
  ]

  unfoldable pub resolve_rels : List (Bytes × Bytes) → List Relationship → List RelRow
  resolve_rels ids [] = []
  resolve_rels ids (r ∷ rs) = elim (resolve_rel ids r) [
    | none ↦ resolve_rels ids rs
    | some row ↦ row ∷ resolve_rels ids rs
  ]

  abbrev pub row_key : RelRow → RelKey
  row_key r = record {
    src = r.source_id;
    tgt = r.target_id;
    pred = to_lower (trim_space r.predicate);
  }

  unfoldable pub unique_rels : List (Bytes × Bytes) → List Relationship → List RelRow
  unique_rels ids rs = add_fresh row_key key_eq any_key [] [] (resolve_rels ids rs)

  -- `extractGraph`: the store answers the names with entities, by their names, and writes.
  unfoldable pub extract_graph :
      (ℕ → Bytes)
      → (List Bytes → Option (List (Bytes × EntityRow)))
      → Bool
      → Bool
      → List (Option ExtractionResult)
      → Graphed
  extract_graph new_id get_entities_by_names entities_work relationships_work results =
      let es = all_entities results in
      let display = display_names [] es in
      elim (get_entities_by_names (map (λ d. d.1) display)) [
        | none ↦ graph_lookup_failed
        | some found ↦
            let s =
              gather new_id (by_norm [] found) display (record { ids = []; rows = []; drawn = 0 })
                es in
            let rels = unique_rels s.ids (all_relationships results) in
            if not entities_work
            then graph_entities_failed
            else if not relationships_work
            then graph_relationships_failed
            else graphed s.rows rels
      ]
