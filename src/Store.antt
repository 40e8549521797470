-- ===== src/Store.antt =====
-- internal/store/store.go: the table of documents. Its columns of times are left out. A statement
-- fails on a violated constraint; that it fails for another reason is up to its caller.
use docsiq.Prelude.{
  ℕ, suc, ◌==◌, ◌≡◌, Bool, true, false, not, ◌&&◌, Option, none, some, List, [], ◌∷◌, map, any,
  if◌then◌else◌,
}
use docsiq.Prelude.Int.{ℤ}
use docsiq.Prelude.Text.{Bytes, bytes_eq}
pub mod Rows
pub mod Upsert

pub record Document : Type 0 where
  pub id : Bytes
  pub path : Bytes
  pub title : Bytes
  pub doc_type : Bytes
  pub file_hash : Bytes
  pub structured : Bytes
  pub version : ℕ
  pub canonical_id : Bytes
  pub is_latest : Bool
  pub indexed_mtime : ℤ

-- The tests of the queries: the primary key, the unique column, and `GetDocumentByPath`.
abbrev pub has_id : Bytes → Document → Bool
has_id id d = bytes_eq id d.id

abbrev pub has_hash : Bytes → Document → Bool
has_hash hash d = bytes_eq hash d.file_hash

abbrev pub latest_at : Bytes → Document → Bool
latest_at path d = bytes_eq path d.path && d.is_latest

unfoldable pub get_document_by_path : List Document → Bytes → Option Document
get_document_by_path [] path = none
get_document_by_path (d ∷ ds) path =
    let rest = get_document_by_path ds path in if latest_at path d then some d else rest

-- The row with the document's id is replaced, or there is one more row.
unfoldable pub put_document : List Document → Document → List Document
put_document [] doc = doc ∷ []
put_document (d ∷ ds) doc =
    let rest = put_document ds doc in if has_id doc.id d then doc ∷ ds else d ∷ rest

-- `UpsertDocument`; `none` is that another row has the document's hash.
unfoldable pub upsert_document : List Document → Document → Option (List Document)
upsert_document docs doc =
    if any (λ d. not (has_id doc.id d) && has_hash doc.file_hash d) docs
    then none
    else some (put_document docs (if doc.version == 0 then record doc { version = 1 } else doc))

abbrev pub superseded : Bytes → Document → Document
superseded id d = if has_id id d then record d { is_latest = false } else d

unfoldable pub supersede_document : List Document → Bytes → List Document
supersede_document docs id = map (superseded id) docs

abbrev pub structure_row : Bytes → Bytes → Document → Document
structure_row id text d = if has_id id d then record d { structured = text } else d

unfoldable pub update_document_structured : List Document → Bytes → Bytes → List Document
update_document_structured docs id text = map (structure_row id text) docs

-- `DeleteDocument`, with the number of rows that it removes.
unfoldable pub delete_document : List Document → Bytes → List Document × ℕ
delete_document [] id = ([], 0)
delete_document (d ∷ ds) id =
    let rest = delete_document ds id in
    if has_id id d then (rest.0, suc rest.1) else (d ∷ rest.0, rest.1)
