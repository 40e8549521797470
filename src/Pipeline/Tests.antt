-- ===== src/Pipeline/Tests.antt =====
-- A file in two versions. The hash of a text is the text, and a text is one chunk.
use docsiq.Prelude.{
  map, all, Option, ◌≡◌, refl, true, false, none, some, List, [], ◌∷◌, if◌then◌else◌, arith,
}
use docsiq.Prelude.Int.{pos}
use docsiq.Prelude.Text.{Bytes, bytes_eq, codes}
use docsiq.Store.{Document, get_document_by_path, upsert_document, supersede_document}
use docsiq.Store.Rows.{IsTable}
use docsiq.Pipeline.{
  Run, loaded, no_provider, embedded, indexed, upsert_failed, panicked, version_info, index_file,
  index_read, index_changed, index_loaded, store_version, embed_chunks,
}
use docsiq.Prelude.Distinct.{distinct}
use docsiq.Extractor.{ExtractionResult, key_eq, add_fresh}
use docsiq.Pipeline.Graph.{
  EntityRow, RelRow, extract_graph, graphed, row_key, unique_rels, gather, gather_entity,
  gather_new, find_name, display_names, by_norm, resolve_rel, resolve_rels, all_entities,
  all_relationships, collapse_spaces,
}
use docsiq.Pipeline.Integrity.{is_linked, extract_graph-linked}
use docsiq.Prelude.Space.{trim_space}
use docsiq.Pipeline.Clash.{index_file-lost}
use docsiq.Pipeline.Latest.{IsLatest, index_file-IsLatest}
use docsiq.Pipeline.Versions.{index_file-IsTable}

abbrev sha : Bytes → Bytes
sha t = t

abbrev split : Bytes → List Bytes
split t = if bytes_eq t [] then [] else t ∷ []

abbrev row : Document
row = record {
  id = codes "d1";
  path = codes "/a.md";
  title = codes "A";
  doc_type = codes "md";
  file_hash = codes "one";
  structured = [];
  version = 1;
  canonical_id = codes "c1";
  is_latest = true;
  indexed_mtime = pos 5;
}

abbrev run_of : Bytes → Run
run_of text = record {
  mtime = some (pos 7);
  lookup_works = true;
  contents = some text;
  refresh_works = true;
  supersede_works = true;
  load = loaded (codes "A") (codes "md") text;
  doc_id = codes "d2";
  new_canonical = codes "c2";
  upsert_works = true;
  chunks_work = true;
  embedding = embedded;
  structure = none;
}

row-IsTable : IsTable (row ∷ [])
row-IsTable = record {
  one_id = λ i. ground arith;
  one_hash = λ x. ground arith;
  one_latest = λ p. ground arith;
}

-- Without a provider, a file ends the program.
without_provider :
    (index_file sha split false
      (record (run_of (codes "two")) { embedding = no_provider })
      (codes "/a.md")
      []).0
    ≡ panicked
unfolding index_file index_read index_changed index_loaded store_version embed_chunks
    get_document_by_path upsert_document
without_provider = refl

index_file-IsTable_example :
    IsTable (index_file sha split false (run_of (codes "two")) (codes "/a.md") (row ∷ [])).1
index_file-IsTable_example =
    index_file-IsTable sha split false (run_of (codes "two")) (codes "/a.md") (row ∷ []) row-IsTable
      refl

two_indexed :
    (index_file sha split false (run_of (codes "two")) (codes "/a.md") (row ∷ [])).0 ≡ indexed
unfolding index_file index_read index_changed index_loaded store_version embed_chunks
    get_document_by_path upsert_document supersede_document
two_indexed = refl

index_file-IsLatest_example :
    (text : Bytes) × (some (codes "two") ≡ some text)
    × IsLatest
        (index_file sha split false (run_of (codes "two")) (codes "/a.md") (row ∷ [])).1
        (codes "/a.md")
        text
        (version_info (get_document_by_path (row ∷ []) (codes "/a.md")) (codes "c2"))
index_file-IsLatest_example =
    index_file-IsLatest sha split false (run_of (codes "two")) (codes "/a.md") (row ∷ [])
      row-IsTable refl two_indexed

index_file-lost_example :
    ((index_file sha split true (run_of (codes "one")) (codes "/a.md") (row ∷ [])).0
      ≡ upsert_failed)
    × (get_document_by_path
          (index_file sha split true (run_of (codes "one")) (codes "/a.md") (row ∷ [])).1
          (codes "/a.md")
        ≡ none)
index_file-lost_example =
    index_file-lost sha split (run_of (codes "one")) (codes "/a.md") (codes "one") (codes "A")
      (codes "md") (codes "one") (pos 7) (row ∷ []) row-IsTable refl (omega arith) refl refl refl
      refl refl (λ e. absurd (omega (arith, e)))

-- Two batches, one of which failed: "a" is known to the store, "b" is new.
abbrev answers : List (Option ExtractionResult)
answers =
    none
    ∷ some (record {
      entities =
          record { name = codes "a"; kind = codes "x"; description = codes "" }
          ∷ record { name = codes "b"; kind = codes "y"; description = codes "B" }
          ∷ [];
      relationships =
          record {
            source = codes "a";
            target = codes "b";
            predicate = codes "knows";
            description = [];
            weight = 1;
          }
          ∷ record {
            source = codes "a";
            target = codes "b";
            predicate = codes " knows";
            description = [];
            weight = 2;
          }
          ∷ record {
            source = codes "a";
            target = codes "c";
            predicate = codes "knows";
            description = [];
            weight = 1;
          }
          ∷ [];
    })
    ∷ []

abbrev row_a : EntityRow
row_a = record { id = codes "e1"; name = codes "a"; kind = codes "x"; description = codes "A" }

abbrev row_b : EntityRow
row_b = record { id = codes "n0"; name = codes "b"; kind = codes "y"; description = codes "B" }

abbrev link : RelRow
link = record {
  source_id = codes "e1";
  target_id = codes "n0";
  predicate = codes "knows";
  description = [];
  weight = 1;
}

answers-graphed :
    extract_graph
      (λ t. t)
      (λ i. codes "n0")
      (λ names. some ((codes "a", row_a) ∷ []))
      true
      true
      answers
    ≡ graphed (row_b ∷ []) (link ∷ [])
unfolding extract_graph unique_rels gather gather_entity gather_new find_name display_names by_norm
    resolve_rel resolve_rels all_entities all_relationships collapse_spaces trim_space add_fresh
answers-graphed = refl

extract_graph-linked_example :
    (distinct key_eq (map (row_key (λ t. t)) (link ∷ [])) ≡ true)
    × (all (is_linked (row_b ∷ []) ((codes "a", row_a) ∷ [])) (link ∷ []) ≡ true)
extract_graph-linked_example =
    extract_graph-linked (λ t. t) (λ i. codes "n0") (λ names. some ((codes "a", row_a) ∷ [])) true
      true answers (row_b ∷ []) (link ∷ []) ((codes "a", row_a) ∷ []) refl answers-graphed
