-- ===== src/Extractor.antt =====
-- internal/extractor/entities.go: extraction of entities and relationships by an LLM, with gleaning
-- passes. What the LLM and `json.Unmarshal` return are parameters; a weight is an abstract value.
use docsiq.Prelude.{
  ℕ, zero, suc, ◌≡◌, refl, Bool, true, false, ◌&&◌, ◌||◌, not, Option, none, some, List, [], ◌∷◌,
  ◌++◌, map, any, filter, take, length, ltb, if◌then◌else◌, reverse,
}
use docsiq.Prelude.Space.{trim_space}
use docsiq.Prelude.Text.{Bytes, codes, bytes_eq, has_prefix, cut_byte}
pub mod Merge
pub mod Glean
mod Tests

pub record Entity : Type 0 where
  pub name : Bytes
  pub kind : Bytes
  pub description : Bytes

-- `weight` stands for the bits of a float64, which is only passed on.
pub record Relationship : Type 0 where
  pub source : Bytes
  pub target : Bytes
  pub predicate : Bytes
  pub description : Bytes
  pub weight : ℕ

pub record ExtractionResult : Type 0 where
  pub entities : List Entity
  pub relationships : List Relationship

-- `collectEntityNames`
unfoldable pub collect_entity_names : List Entity → List Bytes
collect_entity_names [] = []
collect_entity_names (e ∷ es) =
    let rest = collect_entity_names es in if bytes_eq e.name [] then rest else e.name ∷ rest

pub record RelKey : Type 0 where
  pub src : Bytes
  pub tgt : Bytes
  pub pred : Bytes

abbrev pub key_eq : RelKey → RelKey → Bool
key_eq a b = bytes_eq a.src b.src && (bytes_eq a.tgt b.tgt && bytes_eq a.pred b.pred)

-- The two loops of `mergeResults`: an element is appended if it is wanted and its key is not among
-- those seen, which start as the keys of the base.
module _ {A K : Type 0} (key : A → K) (eq : K → K → Bool) (wanted : K → Bool) where
  unfoldable pub add_fresh : List K → List A → List A → List A
  add_fresh seen merged [] = merged
  add_fresh seen merged (a ∷ more) =
      let added = add_fresh (key a ∷ seen) (merged ++ a ∷ []) more in
      let skipped = add_fresh seen merged more in
      if wanted (key a) && not (any (eq (key a)) seen) then added else skipped

abbrev pub is_named : Bytes → Bool
is_named n = not (bytes_eq n [])

abbrev pub any_key : RelKey → Bool
any_key k = true

module _ (to_lower : Bytes → Bytes) where
  abbrev pub norm : Entity → Bytes
  norm e = to_lower e.name

  abbrev pub rel_key : Relationship → RelKey
  rel_key r = record {
    src = to_lower r.source;
    tgt = to_lower r.target;
    pred = to_lower r.predicate;
  }

  unfoldable pub merge_results : ExtractionResult → ExtractionResult → ExtractionResult
  merge_results base additional = record {
    entities =
        add_fresh norm bytes_eq is_named (map norm base.entities) base.entities additional.entities;
    relationships =
        add_fresh rel_key key_eq any_key (map rel_key base.relationships) base.relationships
          additional.relationships;
  }

abbrev pub fence : Bytes
fence = codes "```"

-- What stands before the last fence, if there is one.
pub cut_last_fence : Bytes → Option Bytes
cut_last_fence [] = none
cut_last_fence (c ∷ s) = elim (cut_last_fence s) [
  | some t ↦ some (c ∷ t)
  | none ↦ if has_prefix (c ∷ s) fence then some [] else none
]

drop_first_line : Bytes → Bytes
drop_first_line s = elim (cut_byte s 10) [ none ↦ s | some (line, rest) ↦ rest ]

before_last_fence : Bytes → Bytes
before_last_fence s = elim (cut_last_fence s) [ none ↦ s | some t ↦ t ]

-- `stripCodeFences`
unfoldable pub strip_code_fences : Bytes → Bytes
unfolding before_last_fence drop_first_line
strip_code_fences s =
    let t = trim_space s in
    trim_space (if has_prefix t fence then before_last_fence (drop_first_line t) else t)

-- The formatted prompts: `entityPrompt` of a text, `gleanPrompt` of names and a text.
pub data Prompt : Type 0 where
  entity_prompt : Bytes → Prompt
  glean_prompt : Bytes → Bytes → Prompt

-- The LLM at its n-th call and `json.Unmarshal` at `ExtractionResult`; `none` is an error.
pub record Llm : Type 0 where
  pub complete : ℕ → Prompt → Option Bytes
  pub unmarshal : Bytes → Option ExtractionResult

pub data ExtractError : Type 0 where
  llm_error parse_error : ExtractError

pub data Extracted : Type 0 where
  ok : ExtractionResult → Extracted
  err : ExtractError → Extracted

-- `strings.Join` at a separator of any length.
unfoldable pub join_with : Bytes → List Bytes → Bytes
join_with sep [] = []
join_with sep (p ∷ []) = p
join_with sep (p ∷ q ∷ ps) = p ++ (sep ++ join_with sep (q ∷ ps))

unfoldable pub combine : List Bytes → Bytes
combine chunks =
    let all_text = join_with (codes "\n\n---\n\n") chunks in
    if ltb 8000 (length all_text) then take 8000 all_text else all_text

is_empty_result : ExtractionResult → Bool
is_empty_result r = elim r.entities [
  | e ∷ es ↦ false
  | [] ↦ elim r.relationships [ [] ↦ true | x ∷ xs ↦ false ]
]

module _ (to_lower : Bytes → Bytes) (llm : Llm) where
  -- What a gleaning pass adds; `none` is a `break`.
  glean_once : ℕ → Bytes → ExtractionResult → Option ExtractionResult
  glean_once call combined result = elim (collect_entity_names result.entities) [
    | [] ↦ none
    | n ∷ ns ↦ elim (llm.complete call (glean_prompt (join_with (codes ", ") (n ∷ ns)) combined)) [
      | none ↦ none
      | some resp ↦ elim (llm.unmarshal (strip_code_fences resp)) [
        | none ↦ none
        | some additional ↦
            if is_empty_result additional
            then none
            else some (merge_results to_lower result additional)
      ]
    ]
  ]

  -- The passes that are left.
  glean : ℕ → ℕ → Bytes → ExtractionResult → ExtractionResult
  glean zero call combined result = result
  glean (suc n) call combined result = elim (glean_once call combined result) [
    | none ↦ result
    | some merged ↦ glean n (suc call) combined merged
  ]

  unfoldable pub extract_entities : List Bytes → ℕ → Extracted
  unfolding glean glean_once combine is_empty_result
  extract_entities chunks max_gleanings = elim (llm.complete 0 (entity_prompt (combine chunks))) [
    | none ↦ err llm_error
    | some resp ↦ elim (llm.unmarshal (strip_code_fences resp)) [
      | none ↦ err parse_error
      | some result ↦ ok (glean max_gleanings 1 (combine chunks) result)
    ]
  ]
