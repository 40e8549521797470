-- ===== src/Store/Upsert.antt =====
-- internal/store/store.go: what `UpsertDocument` changes.
use docsiq.Prelude.{
  ◌+◌, ◌≤◌, ◌≡◌, refl, ap, sym, ◌∙◌, Bool, true, false, not, ◌&&◌, none, some, List, [], ◌∷◌, any,
  ◌==◌, if◌then◌else◌, arith, Bool-cases, inl, inr,
}
use docsiq.Prelude.Heap.Count.{count}
use docsiq.Prelude.Text.{Bytes, bytes_eq_iff, bytes_eq_refl}
use docsiq.Store.{
  Document, has_id, has_hash, latest_at, get_document_by_path, put_document, upsert_document,
}
use docsiq.Store.Rows.{IsTable, get-count}

count-put_fresh :
    (p : Document → Bool) (docs : List Document) (doc : Document)
    → count (has_id doc.id) docs ≡ 0
    → count p (put_document docs doc) ≡ count p docs + (if p doc then 1 else 0)
unfolding put_document
count-put_fresh p [] doc h = omega arith
count-put_fresh p (d ∷ docs) doc h =
    let b : has_id doc.id d ≡ false = ground arith in
    rw (b, put_document) (omega (arith, count-put_fresh p docs doc (ground arith)))

pub no_other-hash :
    (docs : List Document) (id hash : Bytes)
    → any (λ d. not (has_id id d) && has_hash hash d) docs ≡ false
    → count (has_id id) docs ≡ 0
    → count (has_hash hash) docs ≡ 0
no_other-hash [] id hash e h = refl
no_other-hash (d ∷ docs) id hash e h =
    ground (arith, no_other-hash docs id hash (ground arith) (ground arith))

-- The row that a query found is replaced by one that passes the same tests.
count-put_found :
    (p : Document → Bool) (docs : List Document) (path : Bytes) (doc : Document) {d : Document}
    → get_document_by_path docs path ≡ some d
    → doc.id ≡ d.id
    → p doc ≡ p d
    → count (has_id d.id) docs ≤ 1
    → count p (put_document docs doc) ≡ count p docs
unfolding get_document_by_path put_document
count-put_found p [] path doc e i h one = absurd (cc)
count-put_found p (x ∷ docs) path doc {d} e i h one = elim (Bool-cases (latest_at path x)) [
  | inl b ↦
      let q : get_document_by_path (x ∷ docs) path ≡ some x = rw (b, get_document_by_path) refl in
      let same : d ≡ x = cc in
      let own : has_id doc.id x ≡ true = rw (i, same) (bytes_eq_refl x.id) in
      let px : p doc ≡ p x = h ∙ ap p same in rw (own, put_document, px) refl
  | inr b ↦
      let q : get_document_by_path (x ∷ docs) path ≡ get_document_by_path docs path =
        rw (b, get_document_by_path) refl in
      let more = get-count (has_id d.id) docs path (sym q ∙ e) (bytes_eq_refl d.id) in
      let other : has_id d.id x ≡ false = ground (arith, one, more) in
      let other' : has_id doc.id x ≡ false = rw i other in
      rw (other', put_document)
        (omega
          (arith, count-put_found p docs path doc (sym q ∙ e) i h (ground (arith, other, one))))
]

-- The document as it is stored.
abbrev pub stored : Document → Document
stored doc = if doc.version == 0 then record doc { version = 1 } else doc

stored-same :
    (p : Document → Bool) (doc : Document)
    → p (record doc { version = 1 }) ≡ p doc
    → p (stored doc) ≡ p doc
stored-same p doc h = elim (Bool-cases (doc.version == 0)) [ inl b ↦ rw b h | inr b ↦ rw b refl ]

stored-id : (doc : Document) → (stored doc).id ≡ doc.id
stored-id doc = elim (Bool-cases (doc.version == 0)) [ inl b ↦ rw b refl | inr b ↦ rw b refl ]

one_more :
    (docs new : List Document) (p : Document → Bool) (doc : Document)
    → count p new ≡ count p docs + (if p doc then 1 else 0)
    → (p doc ≡ true → count p docs ≡ 0)
    → count p docs ≤ 1
    → count p new ≤ 1
one_more docs new p doc e free le = elim (Bool-cases (p doc)) [
  | inl b ↦ ground (arith, e, b, free b)
  | inr b ↦ ground (arith, e, b)
]

-- A new row keeps the table, where the path has no latest version.
pub upsert-fresh :
    (docs new : List Document) (doc : Document)
    → IsTable docs
    → count (has_id doc.id) docs ≡ 0
    → count (latest_at doc.path) docs ≡ 0
    → upsert_document docs doc ≡ some new
    → IsTable new
      × ((p : Document → Bool)
          → p (record doc { version = 1 }) ≡ p doc
          → count p new ≡ count p docs + (if p doc then 1 else 0))
unfolding upsert_document
upsert-fresh docs new doc h fresh free e =
    elim (Bool-cases (any (λ d. not (has_id doc.id d) && has_hash doc.file_hash d) docs)) [
      | inl b ↦
          let q : upsert_document docs doc ≡ none = rw (b, upsert_document) refl in absurd (cc)
      | inr b ↦
          let q : upsert_document docs doc ≡ some (put_document docs (stored doc)) =
            rw (b, upsert_document) refl in
          let same : new ≡ put_document docs (stored doc) = cc in
          let id_same : (stored doc).id ≡ doc.id = stored-id doc in
          let counts : (p : Document → Bool)
              → p (record doc { version = 1 }) ≡ p doc
              → count p new ≡ count p docs + (if p doc then 1 else 0) =
            λ p k. rw same (
              count-put_fresh p docs (stored doc) (rw id_same fresh)
              ∙ rw (stored-same p doc k) refl) in
          let none_hash = no_other-hash docs doc.id doc.file_hash b fresh in
          (
            record {
              one_id = λ i.
                  one_more docs new (has_id i) doc (counts (has_id i) refl)
                    (λ t. let e' : i ≡ doc.id = (bytes_eq_iff i doc.id).0 t in rw e' fresh)
                    (h.one_id i);
              one_hash = λ x.
                  one_more docs new (has_hash x) doc (counts (has_hash x) refl)
                    (λ t.
                      let e' : x ≡ doc.file_hash = (bytes_eq_iff x doc.file_hash).0 t in
                      rw e' none_hash)
                    (h.one_hash x);
              one_latest = λ path.
                  one_more docs new (latest_at path) doc (counts (latest_at path) refl)
                    (λ t.
                      let e' : path ≡ doc.path =
                        (bytes_eq_iff path doc.path).0 (ground (arith, t)) in
                      rw e' free)
                    (h.one_latest path);
            },
            counts,
          )
    ]

-- A row that a query found, with changes that no test of the table sees.
pub upsert-found :
    (docs new : List Document) (path : Bytes) (doc : Document) {d : Document}
    → IsTable docs
    → get_document_by_path docs path ≡ some d
    → doc.id ≡ d.id
    → doc.file_hash ≡ d.file_hash
    → doc.path ≡ d.path
    → doc.is_latest ≡ d.is_latest
    → upsert_document docs doc ≡ some new
    → IsTable new
unfolding upsert_document
upsert-found docs new path doc {d} h found i x at l e =
    elim (Bool-cases (any (λ r. not (has_id doc.id r) && has_hash doc.file_hash r) docs)) [
      | inl b ↦
          let q : upsert_document docs doc ≡ none = rw (b, upsert_document) refl in absurd (cc)
      | inr b ↦
          let q : upsert_document docs doc ≡ some (put_document docs (stored doc)) =
            rw (b, upsert_document) refl in
          let same : new ≡ put_document docs (stored doc) = cc in
          let one = h.one_id d.id in
          let id_same = stored-id doc ∙ i in
          record {
            one_id = λ k.
                let e' =
                  count-put_found (has_id k) docs path (stored doc) found id_same
                    (stored-same (has_id k) doc refl ∙ rw i refl) one in
                rw (same, e') (h.one_id k);
            one_hash = λ k.
                let e' =
                  count-put_found (has_hash k) docs path (stored doc) found id_same
                    (stored-same (has_hash k) doc refl ∙ rw x refl) one in
                rw (same, e') (h.one_hash k);
            one_latest = λ k.
                let e' =
                  count-put_found (latest_at k) docs path (stored doc) found id_same
                    (stored-same (latest_at k) doc refl ∙ rw (at, l) refl) one in
                rw (same, e') (h.one_latest k);
          }
    ]

get-put :
    (docs : List Document) (doc : Document) (path : Bytes)
    → count (has_id doc.id) docs ≡ 0
    → count (latest_at path) docs ≡ 0
    → latest_at path doc ≡ true
    → get_document_by_path (put_document docs doc) path ≡ some doc
unfolding get_document_by_path put_document
get-put [] doc path fresh free here = rw (here, get_document_by_path) refl
get-put (d ∷ docs) doc path fresh free here =
    let b : has_id doc.id d ≡ false = ground arith in
    let c : latest_at path d ≡ false = ground arith in
    rw (b, put_document, c, get_document_by_path)
      (get-put docs doc path (ground (arith, b)) (ground (arith, c)) here)

-- A new latest version is found.
pub upsert-get :
    (docs new : List Document) (doc : Document)
    → count (has_id doc.id) docs ≡ 0
    → count (latest_at doc.path) docs ≡ 0
    → doc.is_latest ≡ true
    → upsert_document docs doc ≡ some new
    → get_document_by_path new doc.path ≡ some (stored doc)
unfolding upsert_document
upsert-get docs new doc fresh free l e =
    elim (Bool-cases (any (λ r. not (has_id doc.id r) && has_hash doc.file_hash r) docs)) [
      | inl b ↦
          let q : upsert_document docs doc ≡ none = rw (b, upsert_document) refl in absurd (cc)
      | inr b ↦
          let q : upsert_document docs doc ≡ some (put_document docs (stored doc)) =
            rw (b, upsert_document) refl in
          let same : new ≡ put_document docs (stored doc) = cc in
          let here : latest_at doc.path (stored doc) ≡ true =
            stored-same (latest_at doc.path) doc refl
            ∙ rw l (ground (arith, bytes_eq_refl doc.path)) in
          rw same (get-put docs (stored doc) doc.path (rw (stored-id doc) fresh) free here)
    ]
