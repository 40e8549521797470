-- ===== src/Pipeline/Latest.antt =====
-- internal/pipeline/pipeline.go: the document that a path has after its file was indexed.
use docsiq.Prelude.{
  ℕ, ◌≡◌, ◌≢◌, refl, ap, sym, ◌∙◌, Bool, true, false, not, ◌&&◌, Option, none, some, List, length,
  ◌==◌, arith, Bool-cases, Option-cases, inl, inr,
}
use docsiq.Prelude.Heap.Count.{count}
use docsiq.Prelude.Int.{ℤ, pos, int_eq}
use docsiq.Prelude.Text.{Bytes, bytes_eq}
use docsiq.Store.{Document, has_id, latest_at, get_document_by_path, upsert_document, structure_row}
use docsiq.Store.Rows.{IsTable, get-structured}
use docsiq.Store.Upsert.{upsert-get, stored}
use docsiq.Pipeline.{
  Run, Loaded, loaded, binary_file, load_error, Embedding, no_provider, embed_error, store_error,
  embedded, Indexed, indexed, upsert_failed, chunks_failed, no_chunks, supersede_failed,
  stat_failed, lookup_failed, read_failed, unchanged_mtime, unchanged_hash, version_info,
  embed_chunks, upsert_row, store_version, supersede_old, new_version, unforced, structured_as,
  embed_result, refresh_mtime, index_loaded, index_changed, index_read, index_file,
}
use docsiq.Pipeline.Versions.{supersede_old_lem}

-- The latest version at a path has the hash, the version and the canonical id.
abbrev pub IsLatest : List Document → Bytes → Bytes → ℕ × Bytes → Type 0
IsLatest docs path hash info =
    (d : Document) × (get_document_by_path docs path ≡ some d)
    × (d.file_hash ≡ hash)
    × (d.version ≡ info.0)
    × (d.canonical_id ≡ info.1)

structured_as-IsLatest :
    (o : Option Bytes) (docs : List Document) (id path hash : Bytes) (info : ℕ × Bytes)
    → IsLatest docs path hash info
    → IsLatest (structured_as o docs id) path hash info
structured_as-IsLatest none docs id path hash info h = h
structured_as-IsLatest (some text) docs id path hash info (d, e, f, v, c) = (
  structure_row id text d,
  get-structured docs id text path e,
  (ground arith ∙ f),
  (ground arith ∙ v),
  (ground arith ∙ c),
)

embed_result-indexed :
    (e : Embedding) (docs finished : List Document)
    → (embed_result e docs finished).0 ≡ indexed
    → embed_result e docs finished ≡ (indexed, finished)
embed_result-indexed no_provider docs finished h = absurd (cc)
embed_result-indexed embed_error docs finished h = absurd (cc)
embed_result-indexed store_error docs finished h = absurd (cc)
embed_result-indexed embedded docs finished h = refl

-- `versionInfo` gives a version of 1 or more.
version_info_pos : (o : Option Document) (c : Bytes) → (version_info o c).0 ≢ 0
unfolding version_info
version_info_pos none c e = absurd (omega arith)
version_info_pos (some d) c e = absurd (omega arith)

store_version-IsLatest :
    (run : Run) (docs : List Document) (doc : Document)
    → count (has_id doc.id) docs ≡ 0
    → count (latest_at doc.path) docs ≡ 0
    → doc.is_latest ≡ true
    → doc.version ≢ 0
    → (store_version run docs doc).0 ≡ indexed
    → IsLatest (store_version run docs doc).1 doc.path doc.file_hash (doc.version, doc.canonical_id)
unfolding store_version embed_chunks
store_version-IsLatest run docs doc fresh free l v h =
    elim (Option-cases (upsert_row run docs doc)) [
      | inl e ↦
          let q : store_version run docs doc ≡ (upsert_failed, docs) = rw (e, store_version) refl in
          absurd (cc)
      | inr (new, e) ↦ elim (Bool-cases run.upsert_works) [
        | inr b ↦ let q : upsert_row run docs doc ≡ none = rw b refl in absurd (cc)
        | inl b ↦
            let q : upsert_row run docs doc ≡ upsert_document docs doc = rw b refl in
            let z : (doc.version == 0) ≡ false = ground (arith, v) in
            let as_is : stored doc ≡ doc = rw z refl in
            let found : IsLatest new doc.path doc.file_hash (doc.version, doc.canonical_id) = (
              doc,
              upsert-get docs new doc fresh free l (sym q ∙ e) ∙ ap some as_is,
              refl,
              refl,
              refl,
            ) in
            elim (Bool-cases run.chunks_work) [
              | inr c ↦
                  let r : store_version run docs doc ≡ (chunks_failed, new) =
                    rw (e, store_version, c) refl in
                  absurd (cc)
              | inl c ↦
                  let done = structured_as run.structure new doc.id in
                  let r : store_version run docs doc ≡ embed_result run.embedding new done =
                    rw (e, store_version, c) refl in
                  let s : store_version run docs doc ≡ (indexed, done) =
                    r
                    ∙ embed_result-indexed run.embedding new done
                        (ap (λ (x : Indexed × List Document). x.0) (sym r) ∙ h) in
                  rw s (
                    structured_as-IsLatest run.structure new doc.id doc.path doc.file_hash
                      (doc.version, doc.canonical_id) found)
            ]
      ]
    ]

module _ (sha : Bytes → Bytes) (split : Bytes → List Bytes) where
  index_loaded-IsLatest :
      (run : Run) (path : Bytes) (docs : List Document) (existing : Option Document) (mtime : ℤ)
      (hash : Bytes) (l : Loaded)
      → count (has_id run.doc_id) docs ≡ 0
      → count (latest_at path) docs ≡ 0
      → (index_loaded sha split run path docs existing mtime hash l).0 ≡ indexed
      → IsLatest
          (index_loaded sha split run path docs existing mtime hash l).1
          path
          hash
          (version_info existing run.new_canonical)
  unfolding index_loaded
  index_loaded-IsLatest run path docs existing mtime hash load_error fresh free h = absurd (cc)
  index_loaded-IsLatest run path docs existing mtime hash binary_file fresh free h = absurd (cc)
  index_loaded-IsLatest run path docs existing mtime hash (loaded title doc_type content) fresh free
        h =
      let l = loaded title doc_type content in
      elim (Bool-cases (length (split content) == 0)) [
        | inl b ↦
            let q : index_loaded sha split run path docs existing mtime hash l ≡ (no_chunks, docs) =
              rw (b, index_loaded) refl in
            absurd (cc)
        | inr b ↦
            let doc = new_version run path hash existing title doc_type mtime in
            let q : index_loaded sha split run path docs existing mtime hash l
                ≡ store_version run docs doc =
              rw (b, index_loaded) refl in
            rw q (
              store_version-IsLatest run docs doc fresh free refl
                (version_info_pos existing run.new_canonical)
                (ap (λ (x : Indexed × List Document). x.0) (sym q) ∙ h))
      ]

  index_changed-IsLatest :
      (run : Run) (path : Bytes) (docs : List Document) (mtime : ℤ) (hash : Bytes)
      → IsTable docs
      → count (has_id run.doc_id) docs ≡ 0
      → (index_changed sha split run path docs (get_document_by_path docs path) mtime hash).0
        ≡ indexed
      → IsLatest
          (index_changed sha split run path docs (get_document_by_path docs path) mtime hash).1
          path
          hash
          (version_info (get_document_by_path docs path) run.new_canonical)
  unfolding index_changed
  index_changed-IsLatest run path docs mtime hash t fresh h =
      let existing = get_document_by_path docs path in
      elim (Option-cases (supersede_old run existing docs)) [
        | inl e ↦
            let q : index_changed sha split run path docs existing mtime hash
                ≡ (supersede_failed, docs) =
              rw (e, index_changed) refl in
            absurd (cc)
        | inr (new, e) ↦
            let (i, free, ids) = supersede_old_lem run docs new path t e in
            let q : index_changed sha split run path docs existing mtime hash
                ≡ index_loaded sha split run path new existing mtime hash run.load =
              rw (e, index_changed) refl in
            rw q (
              index_loaded-IsLatest run path new existing mtime hash run.load
                (ids run.doc_id ∙ fresh) free
                (ap (λ (x : Indexed × List Document). x.0) (sym q) ∙ h))
      ]

  -- A result other than the one that is given is refused.
  reach : (x y : Indexed × List Document) → x ≡ y → x.0 ≡ indexed → y.0 ≡ indexed
  reach x y e h = ap (λ (z : Indexed × List Document). z.0) (sym e) ∙ h

  -- Where `indexFile` indexes a file, the latest version at its path has the hash of the file's
  -- contents, and the next version number and the canonical id of the version that was there, or 1
  -- and the new canonical id. The table is as its constraints ask, with one latest version at a path
  -- at most, and the new document's id is that of no row.
  pub index_file-IsLatest :
      (force : Bool) (run : Run) (path : Bytes) (docs : List Document)
      → IsTable docs
      → count (has_id run.doc_id) docs ≡ 0
      → (index_file sha split force run path docs).0 ≡ indexed
      → (text : Bytes) × (run.contents ≡ some text)
        × IsLatest
            (index_file sha split force run path docs).1
            path
            (sha text)
            (version_info (get_document_by_path docs path) run.new_canonical)
  unfolding index_file index_read refresh_mtime index_changed index_loaded store_version
      embed_chunks
  index_file-IsLatest force run path docs t fresh h =
      let existing = get_document_by_path docs path in
      let result = index_file sha split force run path docs in
      elim (Option-cases run.mtime) [
        | inl e ↦
            let q : result ≡ (stat_failed, docs) = rw (e, index_file) refl in
            let r = reach result (stat_failed, docs) q h in absurd (cc)
        | inr (mtime, e) ↦ elim (Bool-cases run.lookup_works) [
          | inr b ↦
              let q : result ≡ (lookup_failed, docs) = rw (e, b, index_file) refl in
              let r = reach result (lookup_failed, docs) q h in absurd (cc)
          | inl b ↦
              elim (Bool-cases (
                unforced force existing
                  (λ d. not (int_eq d.indexed_mtime (pos 0)) && int_eq d.indexed_mtime mtime))) [
                    | inl c ↦
                        let q : result ≡ (unchanged_mtime, docs) = rw (e, b, c, index_file) refl in
                        let r = reach result (unchanged_mtime, docs) q h in absurd (cc)
                    | inr c ↦ elim (Option-cases run.contents) [
                      | inl f ↦
                          let q : result ≡ (read_failed, docs) = rw (e, b, c, f, index_file) refl in
                          let r = reach result (read_failed, docs) q h in absurd (cc)
                      | inr (text, f) ↦
                          elim (Bool-cases
                            (unforced force existing (λ d. bytes_eq d.file_hash (sha text)))) [
                              | inl g ↦
                                  let q : result
                                      ≡ (unchanged_hash, refresh_mtime run docs existing mtime) =
                                    rw (e, b, c, f, index_file, g) refl in
                                  let r =
                                    reach result
                                      (unchanged_hash, refresh_mtime run docs existing mtime) q h in
                                  absurd (cc)
                              | inr g ↦
                                  let next =
                                    index_changed sha split run path docs existing mtime
                                      (sha text) in
                                  let q : result ≡ next = rw (e, b, c, f, index_file, g) refl in
                                  (
                                    text,
                                    f,
                                    rw q (
                                        index_changed-IsLatest run path docs mtime (sha text) t
                                          fresh (reach result next q h)),
                                  )
                            ]
                    ]
                  ]
        ]
      ]
