-- ===== src/Extractor/Tests.antt =====
-- Extraction with a scripted LLM.
use docsiq.Prelude.Space.{trim_space}
use docsiq.Prelude.{◌≡◌, refl, some, [], ◌∷◌, zero, suc, if◌then◌else◌, map}
use docsiq.Prelude.Text.{cut_byte, Bytes, codes, bytes_eq}
use docsiq.Project.Slug.{lower_byte}
use docsiq.Extractor.{
  cut_last_fence, collect_entity_names, add_fresh, Entity, ExtractionResult, Llm, ok, merge_results,
  extract_entities, strip_code_fences,
}
use docsiq.Extractor.Merge.{IsDistinct}
use docsiq.Extractor.Glean.{IsExtended, extract_entities-extends}

abbrev lower : Bytes → Bytes
lower = map lower_byte

abbrev entity : Bytes → Entity
entity n = record { name = n; kind = []; description = [] }

abbrev first : ExtractionResult
first = record { entities = entity (codes "Go") ∷ []; relationships = [] }

abbrev more : ExtractionResult
more = record { entities = entity (codes "GO") ∷ entity (codes "Rust") ∷ []; relationships = [] }

abbrev script : Llm
script = record {
  complete = λ n p. elim n [ zero ↦ some (codes "1") | suc m ↦ some (codes "```json\n2\n```") ];
  unmarshal = λ s. if bytes_eq s (codes "1") then some first else some more;
}

fences : strip_code_fences (codes " ```json\n2\n``` ") ≡ codes "2"
unfolding strip_code_fences trim_space cut_last_fence cut_byte
fences = refl

gleaned :
    extract_entities lower script (codes "text" ∷ []) 1
    ≡ ok
        (record { entities = entity (codes "Go") ∷ entity (codes "Rust") ∷ []; relationships = [] })
unfolding extract_entities strip_code_fences trim_space collect_entity_names cut_last_fence cut_byte
    merge_results add_fresh
gleaned = refl

first_read : script.unmarshal (strip_code_fences (codes "1")) ≡ some first
unfolding strip_code_fences trim_space
first_read = refl

first-IsDistinct : IsDistinct lower first
first-IsDistinct = record { entities = refl; relationships = refl }

extract_entities-extends_example :
    (r : ExtractionResult) × (extract_entities lower script (codes "text" ∷ []) 3 ≡ ok r)
    × IsExtended first r
extract_entities-extends_example =
    extract_entities-extends lower script (codes "text" ∷ []) 3 (codes "1") first refl first_read
