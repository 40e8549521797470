-- ===== src/Pipeline.antt =====
-- internal/pipeline/pipeline.go: the indexing of one file (`indexFile`) or page (`indexRawDoc`), as
-- far as the table of documents goes. SHA-256 and the splitter are parameters; what the file system,
-- the loader, the provider and the statements without a constraint answer is the record of a run.
use docsiq.Prelude.{
  ℕ, ◌+◌, ◌==◌, ◌≡◌, Bool, true, false, not, ◌&&◌, Option, none, some, List, [], ◌∷◌, length,
  if◌then◌else◌,
}
use docsiq.Prelude.Int.{ℤ, pos, int_eq}
use docsiq.Prelude.Text.{Bytes, bytes_eq}
use docsiq.Store.{
  Document, get_document_by_path, upsert_document, supersede_document, update_document_structured,
}
pub mod Clash
pub mod Finalize
pub mod Graph
pub mod Integrity
pub mod Latest
pub mod Versions
mod Tests

pub data Loaded : Type 0 where
  -- Title, type and content.
  loaded : Bytes → Bytes → Bytes → Loaded
  binary_file load_error : Loaded

-- The provider, if there is one, embeds the chunks, and the statement that stores them works.
pub data Embedding : Type 0 where
  no_provider embed_error store_error embedded : Embedding

pub record Run : Type 0 where
  pub mtime : Option ℤ
  pub lookup_works : Bool
  pub contents : Option Bytes
  pub refresh_works : Bool
  pub supersede_works : Bool
  pub load : Loaded
  pub doc_id : Bytes
  pub new_canonical : Bytes
  pub upsert_works : Bool
  pub chunks_work : Bool
  pub embedding : Embedding
  pub structure : Option Bytes

pub data Indexed : Type 0 where
  indexed unchanged_mtime unchanged_hash skipped_binary skipped_empty : Indexed
  stat_failed lookup_failed read_failed supersede_failed load_failed no_chunks : Indexed
  upsert_failed chunks_failed embed_failed embeddings_failed panicked : Indexed

-- `versionInfo`: an existing document's canonical id is its own where it has none.
abbrev pub canonical_or_id : Document → Bytes
canonical_or_id d = if bytes_eq d.canonical_id [] then d.id else d.canonical_id

unfoldable pub version_info : Option Document → Bytes → ℕ × Bytes
version_info none new_canonical = (1, new_canonical)
version_info (some d) new_canonical = (d.version + 1, canonical_or_id d)

-- `structureDocument`, whose errors are only logged.
abbrev pub structured_as : Option Bytes → List Document → Bytes → List Document
structured_as none docs id = docs
structured_as (some text) docs id = update_document_structured docs id text

-- Without a provider, `structureDocument` calls a method of nil; for a page the embedder does so
-- before.
abbrev pub embed_result : Embedding → List Document → List Document → Indexed × List Document
embed_result no_provider docs finished = (panicked, docs)
embed_result embed_error docs finished = (embed_failed, docs)
embed_result store_error docs finished = (embeddings_failed, docs)
embed_result embedded docs finished = (indexed, finished)

-- The rest of `indexFile` from the chunks on.
unfoldable pub embed_chunks : Run → List Document → Bytes → Indexed × List Document
embed_chunks run docs id =
    if run.chunks_work
    then embed_result run.embedding docs (structured_as run.structure docs id)
    else (chunks_failed, docs)

-- `UpsertDocument` as the program calls it.
abbrev pub upsert_row : Run → List Document → Document → Option (List Document)
upsert_row run docs d = if run.upsert_works then upsert_document docs d else none

-- A new version of a document.
unfoldable pub store_version : Run → List Document → Document → Indexed × List Document
store_version run docs d = elim (upsert_row run docs d) [
  | none ↦ (upsert_failed, docs)
  | some docs' ↦ embed_chunks run docs' d.id
]

-- The old version, if any, is superseded.
abbrev pub supersede_old : Run → Option Document → List Document → Option (List Document)
supersede_old run none docs = some docs
supersede_old run (some old) docs =
    if run.supersede_works then some (supersede_document docs old.id) else none

-- The row of the new version.
abbrev pub new_version : Run → Bytes → Bytes → Option Document → Bytes → Bytes → ℤ → Document
new_version run path hash existing title doc_type mtime = record {
  id = run.doc_id;
  path = path;
  title = title;
  doc_type = doc_type;
  file_hash = hash;
  structured = [];
  version = (version_info existing run.new_canonical).0;
  canonical_id = (version_info existing run.new_canonical).1;
  is_latest = true;
  indexed_mtime = mtime;
}

-- The document is not forced, and there is one at the path with the property.
abbrev pub unforced : Bool → Option Document → (Document → Bool) → Bool
unforced force none p = false
unforced force (some d) p = not force && p d

-- The new time of a file with the same content; a failure is only logged.
unfoldable pub refresh_mtime : Run → List Document → Option Document → ℤ → List Document
refresh_mtime run docs none mtime = docs
refresh_mtime run docs (some d) mtime =
    let refreshed : List Document =
      elim (upsert_document docs (record d { indexed_mtime = mtime })) [
        | none ↦ docs
        | some docs' ↦ docs'
      ] in
    if int_eq d.indexed_mtime mtime then docs else if run.refresh_works then refreshed else docs

module _ (sha : Bytes → Bytes) (split : Bytes → List Bytes) where
  -- `indexFile` from the load on.
  unfoldable pub index_loaded :
      Run → Bytes → List Document → Option Document → ℤ → Bytes → Loaded → Indexed × List Document
  index_loaded run path docs existing mtime hash load_error = (load_failed, docs)
  index_loaded run path docs existing mtime hash binary_file = (skipped_binary, docs)
  index_loaded run path docs existing mtime hash (loaded title doc_type content) =
      if length (split content) == 0
      then (no_chunks, docs)
      else store_version run docs (new_version run path hash existing title doc_type mtime)

  -- `indexFile` after the tests for an unchanged file.
  unfoldable pub index_changed :
      Run → Bytes → List Document → Option Document → ℤ → Bytes → Indexed × List Document
  index_changed run path docs existing mtime hash = elim (supersede_old run existing docs) [
    | none ↦ (supersede_failed, docs)
    | some docs' ↦ index_loaded run path docs' existing mtime hash run.load
  ]

  unfoldable pub index_read :
      Bool → Run → Bytes → List Document → ℤ → Bytes → Indexed × List Document
  index_read force run path docs mtime text =
      let existing = get_document_by_path docs path in
      let hash = sha text in
      if unforced force existing (λ d. bytes_eq d.file_hash hash)
      then (unchanged_hash, refresh_mtime run docs existing mtime)
      else index_changed run path docs existing mtime hash

  -- `indexFile` of an absolute path.
  unfoldable pub index_file : Bool → Run → Bytes → List Document → Indexed × List Document
  index_file force run path docs = elim run.mtime [
    | none ↦ (stat_failed, docs)
    | some mtime ↦
        if not run.lookup_works
        then (lookup_failed, docs)
        else if unforced force (get_document_by_path docs path)
            (λ d. not (int_eq d.indexed_mtime (pos 0)) && int_eq d.indexed_mtime mtime)
        then (unchanged_mtime, docs)
        else elim run.contents [
          | none ↦ (read_failed, docs)
          | some text ↦ index_read force run path docs mtime text
        ]
  ]

  -- `indexRawDoc` of a page with a path, a title, a type and a content, that is found by its path.
  unfoldable pub index_page :
      Bool → Run → Bytes → Bytes → Bytes → Bytes → List Document → Indexed × List Document
  index_page force run path title doc_type content docs =
      let existing = get_document_by_path docs path in
      let hash = sha content in
      if not run.lookup_works
      then (lookup_failed, docs)
      else if unforced force existing (λ d. bytes_eq d.file_hash hash)
      then (unchanged_hash, docs)
      else elim (supersede_old run existing docs) [
        | none ↦ (supersede_failed, docs)
        | some docs' ↦
            if length (split content) == 0
            then (skipped_empty, docs')
            else store_version run docs' (new_version run path hash existing title doc_type (pos 0))
      ]
