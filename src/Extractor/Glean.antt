-- ===== src/Extractor/Glean.antt =====
-- `ExtractEntities` as a whole.
use docsiq.Prelude.{
  ℕ, zero, suc, ◌≡◌, refl, sym, ap, ◌∙◌, none, some, List, [], ◌∷◌, ◌++◌, arith, inl, inr,
  Option-cases, List-cases, append-nil, append_assoc, if◌then◌else◌,
}
use docsiq.Prelude.Text.{Bytes, codes}
use docsiq.Extractor.{
  join_with, glean_prompt, Entity, Relationship, ExtractionResult, Llm, ok, glean, glean_once,
  merge_results, is_empty_result, extract_entities, collect_entity_names, combine, entity_prompt,
  strip_code_fences,
}
use docsiq.Extractor.Merge.{merge_results-IsMerge, IsMerge, merge_results-IsDistinct, IsDistinct}

-- The later result begins with the earlier one.
pub record IsExtended (before after : ExtractionResult) : Type 0 where
  pub entities : (new : List Entity) × (after.entities ≡ before.entities ++ new)
  pub relationships :
      (new : List Relationship) × (after.relationships ≡ before.relationships ++ new)

IsExtended-refl : (r : ExtractionResult) → IsExtended r r
IsExtended-refl r = record {
  entities = ([], sym (append-nil _));
  relationships = ([], sym (append-nil _));
}

IsExtended-trans : (a b c : ExtractionResult) → IsExtended a b → IsExtended b c → IsExtended a c
IsExtended-trans a b c h k =
    let (e, p) = h.entities in
    let (f, q) = k.entities in
    let (r, u) = h.relationships in
    let (s, v) = k.relationships in
    record {
      entities = (e ++ f, q ∙ ap (λ l. l ++ f) p ∙ append_assoc a.entities e f);
      relationships = (r ++ s, v ∙ ap (λ l. l ++ s) u ∙ append_assoc a.relationships r s);
    }

module _ (to_lower : Bytes → Bytes) (llm : Llm) where
  -- A pass that goes on merges.
  glean_once-merged :
      (call : ℕ) (combined : Bytes) (r : ExtractionResult) {m : ExtractionResult}
      → glean_once to_lower llm call combined r ≡ some m
      → (a : ExtractionResult) × (m ≡ merge_results to_lower r a)
  unfolding glean_once
  glean_once-merged call combined r {m} h = elim (List-cases (collect_entity_names r.entities)) [
    | inl e ↦ cc (rw (e, glean_once) at h)
    | inr (n, ns, e) ↦
        elim (Option-cases
          (llm.complete call (glean_prompt (join_with (codes ", ") (n ∷ ns)) combined))) [
            | inl f ↦ cc (rw (e, f, glean_once) at h)
            | inr (resp, f) ↦ elim (Option-cases (llm.unmarshal (strip_code_fences resp))) [
              | inl g ↦ cc (rw (e, f, g, glean_once) at h)
              | inr (a, g) ↦ (a, merged_of a (rw (e, f, g, glean_once) at h))
            ]
          ]
  ]
    where
      merged_of :
          (a : ExtractionResult)
          → (if is_empty_result a then none else some (merge_results to_lower r a)) ≡ some m
          → m ≡ merge_results to_lower r a
      merged_of a q = ground arith

  glean-stop :
      (n call : ℕ) (combined : Bytes) (r : ExtractionResult)
      → glean_once to_lower llm call combined r ≡ none
      → glean to_lower llm (suc n) call combined r ≡ r
  unfolding glean
  glean-stop n call combined r e = rw (e, glean) refl

  glean-go :
      (n call : ℕ) (combined : Bytes) (r m : ExtractionResult)
      → glean_once to_lower llm call combined r ≡ some m
      → glean to_lower llm (suc n) call combined r ≡ glean to_lower llm n (suc call) combined m
  unfolding glean
  glean-go n call combined r m e = rw (e, glean) refl

  glean-IsExtended :
      (n call : ℕ) (combined : Bytes) (r : ExtractionResult)
      → IsExtended r (glean to_lower llm n call combined r)
  glean-IsExtended zero call combined r = unfold glean in IsExtended-refl r
  glean-IsExtended (suc n) call combined r =
      elim (Option-cases (glean_once to_lower llm call combined r)) [
        | inl e ↦ rw (glean-stop n call combined r e) (IsExtended-refl r)
        | inr (m, e) ↦
            let (a, q) = glean_once-merged call combined r e in
            let i : IsMerge to_lower r a m = rw q (merge_results-IsMerge to_lower r a) in
            rw (glean-go n call combined r m e) (
              IsExtended-trans r m _
                (record { entities = i.entities_kept; relationships = i.relationships_kept })
                (glean-IsExtended n (suc call) combined m))
      ]

  glean-IsDistinct :
      (n call : ℕ) (combined : Bytes) (r : ExtractionResult)
      → IsDistinct to_lower r
      → IsDistinct to_lower (glean to_lower llm n call combined r)
  glean-IsDistinct zero call combined r d = unfold glean in d
  glean-IsDistinct (suc n) call combined r d =
      elim (Option-cases (glean_once to_lower llm call combined r)) [
        | inl e ↦ rw (glean-stop n call combined r e) d
        | inr (m, e) ↦
            let (a, q) = glean_once-merged call combined r e in
            rw (glean-go n call combined r m e) (
              glean-IsDistinct n (suc call) combined m
                (rw q (merge_results-IsDistinct to_lower r a d)))
      ]

  extract_entities-ok :
      (chunks : List Bytes) (max_gleanings : ℕ) (resp : Bytes) (first : ExtractionResult)
      → llm.complete 0 (entity_prompt (combine chunks)) ≡ some resp
      → llm.unmarshal (strip_code_fences resp) ≡ some first
      → extract_entities to_lower llm chunks max_gleanings
        ≡ ok (glean to_lower llm max_gleanings 1 (combine chunks) first)
  unfolding extract_entities
  extract_entities-ok chunks max_gleanings resp first h k = rw (h, extract_entities) (rw k)

-- Where the first response parses, extraction succeeds and its result begins with what that
-- response gave, unchanged and in order, however many gleaning passes follow and whatever they
-- answer.
pub extract_entities-extends :
    (to_lower : Bytes → Bytes) (llm : Llm) (chunks : List Bytes) (max_gleanings : ℕ) (resp : Bytes)
    (first : ExtractionResult)
    → llm.complete 0 (entity_prompt (combine chunks)) ≡ some resp
    → llm.unmarshal (strip_code_fences resp) ≡ some first
    → (r : ExtractionResult) × (extract_entities to_lower llm chunks max_gleanings ≡ ok r)
      × IsExtended first r
extract_entities-extends to_lower llm chunks max_gleanings resp first h k = (
  glean to_lower llm max_gleanings 1 (combine chunks) first,
  extract_entities-ok to_lower llm chunks max_gleanings resp first h k,
  glean-IsExtended to_lower llm max_gleanings 1 (combine chunks) first,
)

-- Where the first response parses to a result with no two entities of the same lower-cased name and
-- no two relationships of the same key, extraction succeeds with such a result, whatever the
-- gleaning passes answer.
pub extract_entities-IsDistinct :
    (to_lower : Bytes → Bytes) (llm : Llm) (chunks : List Bytes) (max_gleanings : ℕ) (resp : Bytes)
    (first : ExtractionResult)
    → llm.complete 0 (entity_prompt (combine chunks)) ≡ some resp
    → llm.unmarshal (strip_code_fences resp) ≡ some first
    → IsDistinct to_lower first
    → (r : ExtractionResult) × (extract_entities to_lower llm chunks max_gleanings ≡ ok r)
      × IsDistinct to_lower r
extract_entities-IsDistinct to_lower llm chunks max_gleanings resp first h k d = (
  glean to_lower llm max_gleanings 1 (combine chunks) first,
  extract_entities-ok to_lower llm chunks max_gleanings resp first h k,
  glean-IsDistinct to_lower llm max_gleanings 1 (combine chunks) first d,
)
