-- ===== src/Pipeline/Clash.antt =====
-- internal/pipeline/pipeline.go: a file whose contents the table already holds.
use docsiq.Prelude.{
  ◌≤◌, ◌≡◌, ◌≢◌, refl, ap, ◌∙◌, Bool, true, false, not, ◌&&◌, Option, none, some, List, any, length,
  ◌==◌, arith, Bool-cases, inl, inr,
}
use docsiq.Prelude.Heap.Count.{count}
use docsiq.Prelude.Int.{ℤ, pos, int_eq}
use docsiq.Prelude.Text.{Bytes, bytes_eq}
use docsiq.Store.{
  Document, has_id, has_hash, get_document_by_path, upsert_document, supersede_document,
}
use docsiq.Store.Rows.{IsTable, get_document_by_path-count, count-supersede-hash}
use docsiq.Store.Upsert.{no_other-hash}
use docsiq.Pipeline.{
  Run, loaded, upsert_failed, embed_chunks, store_version, supersede_old, new_version, unforced,
  index_loaded, index_changed, index_read, index_file,
}
use docsiq.Pipeline.Versions.{supersede_old_lem}

unforced-true : (o : Option Document) (p : Document → Bool) → unforced true o p ≡ false
unforced-true none p = refl
unforced-true (some d) p = refl

-- The column of hashes is unique.
upsert-clash :
    (docs : List Document) (doc : Document)
    → count (has_id doc.id) docs ≡ 0
    → 1 ≤ count (has_hash doc.file_hash) docs
    → upsert_document docs doc ≡ none
unfolding upsert_document
upsert-clash docs doc fresh more =
    elim (Bool-cases (any (λ d. not (has_id doc.id d) && has_hash doc.file_hash d) docs)) [
      | inl b ↦ rw (b, upsert_document) refl
      | inr b ↦ absurd (omega (arith, no_other-hash docs doc.id doc.file_hash b fresh))
    ]

count-supersede_old :
    (run : Run) (docs new : List Document) (o : Option Document) (hash : Bytes)
    → supersede_old run o docs ≡ some new
    → count (has_hash hash) new ≡ count (has_hash hash) docs
count-supersede_old run docs new none hash e = let same : new ≡ docs = cc in rw same refl
count-supersede_old run docs new (some d) hash e = elim (Bool-cases run.supersede_works) [
  | inl b ↦
      let q : supersede_old run (some d) docs ≡ some (supersede_document docs d.id) = rw b refl in
      let same : new ≡ supersede_document docs d.id = cc in
      rw same (count-supersede-hash d.id hash docs)
  | inr b ↦ let q : supersede_old run (some d) docs ≡ none = rw b refl in absurd (cc)
]

supersede_old-some :
    (run : Run) (docs : List Document) (o : Option Document)
    → run.supersede_works ≡ true
    → (new : List Document) × (supersede_old run o docs ≡ some new)
supersede_old-some run docs none b = (docs, refl)
supersede_old-some run docs (some d) b = (supersede_document docs d.id, rw b refl)

store_version-clash :
    (run : Run) (docs : List Document) (doc : Document)
    → count (has_id doc.id) docs ≡ 0
    → 1 ≤ count (has_hash doc.file_hash) docs
    → store_version run docs doc ≡ (upsert_failed, docs)
unfolding store_version
store_version-clash run docs doc fresh more =
    let e = upsert-clash docs doc fresh more in
    elim (Bool-cases run.upsert_works) [
      | inl b ↦ rw (b, store_version, e) refl
      | inr b ↦ rw (b, store_version) refl
    ]

module _ (sha : Bytes → Bytes) (split : Bytes → List Bytes) where
  -- Take a file whose contents have the hash of some row, of an older version or of another path
  -- too, that is indexed by force; and let every step up to the row of the new version work: the
  -- file is read, the old version superseded, the file loaded and split into chunks. Then the row is
  -- refused, and the path has no latest version any more. The table is as its constraints ask, with
  -- one latest version at a path at most, and the new document's id is that of no row.
  pub index_file-lost :
      (run : Run) (path text title doc_type content : Bytes) (mtime : ℤ) (docs : List Document)
      → IsTable docs
      → count (has_id run.doc_id) docs ≡ 0
      → 1 ≤ count (has_hash (sha text)) docs
      → run.mtime ≡ some mtime
      → run.lookup_works ≡ true
      → run.contents ≡ some text
      → run.supersede_works ≡ true
      → run.load ≡ loaded title doc_type content
      → length (split content) ≢ 0
      → ((index_file sha split true run path docs).0 ≡ upsert_failed)
        × (get_document_by_path (index_file sha split true run path docs).1 path ≡ none)
  unfolding index_file index_read index_changed index_loaded store_version embed_chunks
  index_file-lost run path text title doc_type content mtime docs t fresh more a b c d l chunks =
      let existing = get_document_by_path docs path in
      let (new, e) = supersede_old-some run docs existing d in
      let (i, free, ids) = supersede_old_lem run docs new path t e in
      let doc = new_version run path (sha text) existing title doc_type mtime in
      let z : (length (split content) == 0) ≡ false = ground (arith, chunks) in
      let q1 : index_file sha split true run path docs
          ≡ index_changed sha split run path docs existing mtime (sha text) =
        rw
          (
            a,
            b,
            c,
            unforced-true existing
                (λ d. not (int_eq d.indexed_mtime (pos 0)) && int_eq d.indexed_mtime mtime),
            index_file,
            unforced-true existing (λ d. bytes_eq d.file_hash (sha text)),
          )
          refl in
      let q2 : index_changed sha split run path docs existing mtime (sha text)
          ≡ index_loaded sha split run path new existing mtime (sha text) run.load =
        rw (e, index_changed) refl in
      let q3 : index_loaded sha split run path new existing mtime (sha text)
            (loaded title doc_type content)
          ≡ store_version run new doc =
        rw (z, index_loaded) refl in
      let q = q1 ∙ q2 ∙ ap (index_loaded sha split run path new existing mtime (sha text)) l ∙ q3 in
      let r =
        store_version-clash run new doc (ids run.doc_id ∙ fresh)
          (omega (arith, count-supersede_old run docs new existing (sha text) e)) in
      rw (q ∙ r) (refl, get_document_by_path-count new path free)
