-- ===== src/Pipeline/Versions.antt =====
-- internal/pipeline/pipeline.go: the versions of a document.
use docsiq.Prelude.{
  ◌≡◌, refl, sym, ◌∙◌, Bool, not, ◌&&◌, Option, none, some, List, length, ◌==◌, arith, Bool-cases,
  Option-cases, inl, inr,
}
use docsiq.Prelude.Heap.Count.{count}
use docsiq.Prelude.Int.{ℤ, pos, int_eq}
use docsiq.Prelude.Text.{Bytes, bytes_eq}
use docsiq.Store.{
  Document, has_id, latest_at, get_document_by_path, upsert_document, supersede_document,
}
use docsiq.Store.Rows.{
  IsTable, get-none, count-supersede-id, supersede-get, supersede-IsTable, structured-IsTable,
}
use docsiq.Store.Upsert.{upsert-fresh, upsert-found}
use docsiq.Pipeline.{
  Run, Loaded, loaded, binary_file, load_error, Embedding, no_provider, embed_error, store_error,
  embedded, embed_chunks, upsert_row, store_version, supersede_old, new_version, unforced,
  refresh_mtime, structured_as, embed_result, index_loaded, index_changed, index_read, index_file,
  index_page,
}

-- The table after the old version was superseded.
pub supersede_old_lem :
    (run : Run) (docs new : List Document) (path : Bytes)
    → IsTable docs
    → supersede_old run (get_document_by_path docs path) docs ≡ some new
    → IsTable new
      × (count (latest_at path) new ≡ 0)
      × ((id : Bytes) → count (has_id id) new ≡ count (has_id id) docs)
supersede_old_lem run docs new path h e = elim (Option-cases (get_document_by_path docs path)) [
  | inl f ↦
      let q : supersede_old run (get_document_by_path docs path) docs ≡ some docs = rw f refl in
      let same : new ≡ docs = cc in rw same (h, get-none docs path f, λ id. refl)
  | inr (d, f) ↦ elim (Bool-cases run.supersede_works) [
    | inl b ↦
        let q : supersede_old run (get_document_by_path docs path) docs
            ≡ some (supersede_document docs d.id) =
          rw (f, b) refl in
        let same : new ≡ supersede_document docs d.id = cc in
        rw same (
          supersede-IsTable docs d.id h,
          omega (arith, supersede-get docs path f, h.one_latest path),
          λ id. count-supersede-id d.id id docs,
        )
    | inr b ↦
        let q : supersede_old run (get_document_by_path docs path) docs ≡ none = rw (f, b) refl in
        absurd (cc)
  ]
]

structured_as-IsTable :
    (o : Option Bytes) (docs : List Document) (id : Bytes)
    → IsTable docs
    → IsTable (structured_as o docs id)
structured_as-IsTable none docs id h = h
structured_as-IsTable (some text) docs id h = structured-IsTable docs id text h

embed_result-IsTable :
    (e : Embedding) (docs finished : List Document)
    → IsTable docs
    → IsTable finished
    → IsTable (embed_result e docs finished).1
embed_result-IsTable no_provider docs finished h f = h
embed_result-IsTable embed_error docs finished h f = h
embed_result-IsTable store_error docs finished h f = h
embed_result-IsTable embedded docs finished h f = f

store_version-IsTable :
    (run : Run) (docs : List Document) (doc : Document)
    → IsTable docs
    → count (has_id doc.id) docs ≡ 0
    → count (latest_at doc.path) docs ≡ 0
    → IsTable (store_version run docs doc).1
unfolding store_version embed_chunks
store_version-IsTable run docs doc h fresh free = elim (Option-cases (upsert_row run docs doc)) [
  | inl e ↦ rw (e, store_version) h
  | inr (new, e) ↦ elim (Bool-cases run.upsert_works) [
    | inr b ↦ let q : upsert_row run docs doc ≡ none = rw b refl in absurd (cc)
    | inl b ↦
        let q : upsert_row run docs doc ≡ upsert_document docs doc = rw b refl in
        let (i, _) = upsert-fresh docs new doc h fresh free (sym q ∙ e) in
        elim (Bool-cases run.chunks_work) [
          | inr c ↦ rw (e, store_version, c) i
          | inl c ↦
              rw (e, store_version, c)
                (embed_result-IsTable run.embedding new (structured_as run.structure new doc.id) i
                  (structured_as-IsTable run.structure new doc.id i))
        ]
  ]
]

refresh_mtime-IsTable :
    (run : Run) (docs : List Document) (path : Bytes) (o : Option Document) (mtime : ℤ)
    → IsTable docs
    → get_document_by_path docs path ≡ o
    → IsTable (refresh_mtime run docs o mtime)
unfolding refresh_mtime
refresh_mtime-IsTable run docs path none mtime h e = h
refresh_mtime-IsTable run docs path (some d) mtime h e =
    elim (Bool-cases (int_eq d.indexed_mtime mtime)) [
      | inl b ↦ rw (b, refresh_mtime) h
      | inr b ↦ elim (Bool-cases run.refresh_works) [
        | inr c ↦ rw (b, c, refresh_mtime) h
        | inl c ↦ elim (Option-cases (upsert_document docs (record d { indexed_mtime = mtime }))) [
          | inl f ↦ rw (b, c, refresh_mtime, f) h
          | inr (new, f) ↦
              rw (b, c, refresh_mtime, f)
                (upsert-found docs new path (record d { indexed_mtime = mtime }) h e refl refl refl
                  refl f)
        ]
      ]
    ]

module _ (sha : Bytes → Bytes) (split : Bytes → List Bytes) where
  index_loaded-IsTable :
      (run : Run) (path : Bytes) (docs : List Document) (existing : Option Document) (mtime : ℤ)
      (hash : Bytes) (l : Loaded)
      → IsTable docs
      → count (has_id run.doc_id) docs ≡ 0
      → count (latest_at path) docs ≡ 0
      → IsTable (index_loaded sha split run path docs existing mtime hash l).1
  unfolding index_loaded
  index_loaded-IsTable run path docs existing mtime hash load_error h fresh free = h
  index_loaded-IsTable run path docs existing mtime hash binary_file h fresh free = h
  index_loaded-IsTable run path docs existing mtime hash (loaded title doc_type content) h fresh
        free =
      elim (Bool-cases (length (split content) == 0)) [
        | inl b ↦ rw (b, index_loaded) h
        | inr b ↦
            rw (b, index_loaded)
              (store_version-IsTable run docs
                (new_version run path hash existing title doc_type mtime) h fresh free)
      ]

  index_changed-IsTable :
      (run : Run) (path : Bytes) (docs : List Document) (mtime : ℤ) (hash : Bytes)
      → IsTable docs
      → count (has_id run.doc_id) docs ≡ 0
      → IsTable
          (index_changed sha split run path docs (get_document_by_path docs path) mtime hash).1
  unfolding index_changed
  index_changed-IsTable run path docs mtime hash h fresh =
      let existing = get_document_by_path docs path in
      elim (Option-cases (supersede_old run existing docs)) [
        | inl e ↦ rw (e, index_changed) h
        | inr (new, e) ↦
            let (i, free, ids) = supersede_old_lem run docs new path h e in
            rw (e, index_changed)
              (index_loaded-IsTable run path new existing mtime hash run.load i
                (ids run.doc_id ∙ fresh) free)
      ]

  -- `indexFile` keeps the table of documents, whatever fails: the ids and the hashes of its rows are
  -- distinct, and a path has at most one latest version. The new document's id is that of no row.
  pub index_file-IsTable :
      (force : Bool) (run : Run) (path : Bytes) (docs : List Document)
      → IsTable docs
      → count (has_id run.doc_id) docs ≡ 0
      → IsTable (index_file sha split force run path docs).1
  unfolding index_file index_read
  index_file-IsTable force run path docs h fresh =
      let existing = get_document_by_path docs path in
      elim (Option-cases run.mtime) [
        | inl e ↦ rw (e, index_file) h
        | inr (mtime, e) ↦ elim (Bool-cases run.lookup_works) [
          | inr b ↦ rw (e, b, index_file) h
          | inl b ↦
              elim (Bool-cases (
                unforced force existing
                  (λ d. not (int_eq d.indexed_mtime (pos 0)) && int_eq d.indexed_mtime mtime))) [
                    | inl c ↦ rw (e, b, c, index_file) h
                    | inr c ↦ elim (Option-cases run.contents) [
                      | inl f ↦ rw (e, b, c, f, index_file) h
                      | inr (text, f) ↦
                          elim (Bool-cases
                            (unforced force existing (λ d. bytes_eq d.file_hash (sha text)))) [
                              | inl g ↦
                                  rw (e, b, c, f, index_file, g)
                                    (refresh_mtime-IsTable run docs path existing mtime h refl)
                              | inr g ↦
                                  rw (e, b, c, f, index_file, g)
                                    (index_changed-IsTable run path docs mtime (sha text) h fresh)
                            ]
                    ]
                  ]
        ]
      ]

  pub index_page-IsTable :
      (force : Bool) (run : Run) (path title doc_type content : Bytes) (docs : List Document)
      → IsTable docs
      → count (has_id run.doc_id) docs ≡ 0
      → IsTable (index_page sha split force run path title doc_type content docs).1
  unfolding index_page
  index_page-IsTable force run path title doc_type content docs h fresh =
      let existing = get_document_by_path docs path in
      let hash = sha content in
      elim (Bool-cases run.lookup_works) [
        | inr b ↦ rw (b, index_page) h
        | inl b ↦ elim (Bool-cases (unforced force existing (λ d. bytes_eq d.file_hash hash))) [
          | inl c ↦ rw (b, c, index_page) h
          | inr c ↦ elim (Option-cases (supersede_old run existing docs)) [
            | inl e ↦ rw (b, c, e, index_page) h
            | inr (new, e) ↦
                let (i, free, ids) = supersede_old_lem run docs new path h e in
                elim (Bool-cases (length (split content) == 0)) [
                  | inl f ↦ rw (b, c, e, f, index_page) i
                  | inr f ↦
                      rw (b, c, e, f, index_page)
                        (store_version-IsTable run new
                          (new_version run path hash existing title doc_type (pos 0)) i
                          (ids run.doc_id ∙ fresh) free)
                ]
          ]
        ]
      ]
