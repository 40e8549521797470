-- ===== src/Store/Rows.antt =====
-- internal/store/store.go: what the statements on documents change.
use docsiq.Prelude.{
  suc, ◌≤◌, ◌≡◌, refl, ap, sym, ◌∙◌, Bool, true, false, none, some, List, [], ◌∷◌, map, arith,
  Bool-cases, inl, inr,
}
use docsiq.Prelude.Heap.Count.{count}
use docsiq.Prelude.Text.{Bytes, bytes_eq_refl}
use docsiq.Store.{
  Document, has_id, has_hash, latest_at, get_document_by_path, superseded, supersede_document,
  update_document_structured, structure_row,
}

-- The primary key, the unique column, and at most one latest version at a path.
pub record IsTable (docs : List Document) : Type 0 where
  pub one_id : (id : Bytes) → count (has_id id) docs ≤ 1
  pub one_hash : (hash : Bytes) → count (has_hash hash) docs ≤ 1
  pub one_latest : (path : Bytes) → count (latest_at path) docs ≤ 1

-- A document that a query finds is one of the rows.
pub get-count :
    (p : Document → Bool) (docs : List Document) (path : Bytes) {d : Document}
    → get_document_by_path docs path ≡ some d
    → p d ≡ true
    → 1 ≤ count p docs
unfolding get_document_by_path
get-count p [] path e h = absurd (cc)
get-count p (x ∷ docs) path {d} e h = elim (Bool-cases (latest_at path x)) [
  | inl b ↦
      let q : get_document_by_path (x ∷ docs) path ≡ some x = rw (b, get_document_by_path) refl in
      let same : d ≡ x = cc in let here : p x ≡ true = ap p (sym same) ∙ h in ground (arith, here)
  | inr b ↦
      let q : get_document_by_path (x ∷ docs) path ≡ get_document_by_path docs path =
        rw (b, get_document_by_path) refl in
      omega (arith, get-count p docs path (sym q ∙ e) h)
]

pub get-none :
    (docs : List Document) (path : Bytes)
    → get_document_by_path docs path ≡ none
    → count (latest_at path) docs ≡ 0
unfolding get_document_by_path
get-none [] path e = refl
get-none (x ∷ docs) path e = elim (Bool-cases (latest_at path x)) [
  | inl b ↦
      let q : get_document_by_path (x ∷ docs) path ≡ some x = rw (b, get_document_by_path) refl in
      absurd (cc)
  | inr b ↦
      let q : get_document_by_path (x ∷ docs) path ≡ get_document_by_path docs path =
        rw (b, get_document_by_path) refl in
      ground (arith, get-none docs path (sym q ∙ e))
]

pub get_document_by_path-count :
    (docs : List Document) (path : Bytes)
    → count (latest_at path) docs ≡ 0
    → get_document_by_path docs path ≡ none
unfolding get_document_by_path
get_document_by_path-count [] path e = refl
get_document_by_path-count (x ∷ docs) path e =
    let b : latest_at path x ≡ false = ground arith in
    rw (b, get_document_by_path) (get_document_by_path-count docs path (ground arith))

-- A map of the rows that a test does not see.
pub count-map_same :
    (p : Document → Bool) (f : Document → Document)
    → ((d : Document) → p (f d) ≡ p d)
    → (docs : List Document) → count p (map f docs) ≡ count p docs
count-map_same p f e [] = refl
count-map_same p f e (d ∷ docs) = rw (e d) (omega (arith, count-map_same p f e docs))

pub count-supersede-id :
    (id i : Bytes) (docs : List Document)
    → count (has_id i) (supersede_document docs id) ≡ count (has_id i) docs
unfolding supersede_document
count-supersede-id id i docs = count-map_same (has_id i) (superseded id) (λ d. ground arith) docs

pub count-supersede-hash :
    (id hash : Bytes) (docs : List Document)
    → count (has_hash hash) (supersede_document docs id) ≡ count (has_hash hash) docs
unfolding supersede_document
count-supersede-hash id hash docs =
    count-map_same (has_hash hash) (superseded id) (λ d. ground arith) docs

pub count-supersede-latest :
    (id path : Bytes) (docs : List Document)
    → count (latest_at path) (supersede_document docs id) ≤ count (latest_at path) docs
unfolding supersede_document
count-supersede-latest id path [] = omega arith
count-supersede-latest id path (d ∷ docs) = ground (arith, count-supersede-latest id path docs)

-- The latest version at a path is superseded.
pub supersede-get :
    (docs : List Document) (path : Bytes) {d : Document}
    → get_document_by_path docs path ≡ some d
    → suc (count (latest_at path) (supersede_document docs d.id)) ≤ count (latest_at path) docs
unfolding get_document_by_path supersede_document
supersede-get [] path e = absurd (cc)
supersede-get (x ∷ docs) path {d} e = elim (Bool-cases (latest_at path x)) [
  | inl b ↦
      let q : get_document_by_path (x ∷ docs) path ≡ some x = rw (b, get_document_by_path) refl in
      let same : d ≡ x = cc in
      let own : has_id d.id x ≡ true = rw same (bytes_eq_refl x.id) in
      ground (arith, own, count-supersede-latest d.id path docs)
  | inr b ↦
      let q : get_document_by_path (x ∷ docs) path ≡ get_document_by_path docs path =
        rw (b, get_document_by_path) refl in
      ground (arith, supersede-get docs path (sym q ∙ e))
]

pub supersede-IsTable :
    (docs : List Document) (id : Bytes) → IsTable docs → IsTable (supersede_document docs id)
supersede-IsTable docs id h = record {
  one_id = λ i. omega (arith, count-supersede-id id i docs, h.one_id i);
  one_hash = λ x. omega (arith, count-supersede-hash id x docs, h.one_hash x);
  one_latest = λ path. omega (arith, count-supersede-latest id path docs, h.one_latest path);
}

pub structured-IsTable :
    (docs : List Document) (id text : Bytes)
    → IsTable docs
    → IsTable (update_document_structured docs id text)
unfolding update_document_structured
structured-IsTable docs id text h = record {
  one_id = λ i. omega (
    arith,
    count-map_same (has_id i) (structure_row id text) (λ d. ground arith) docs,
    h.one_id i,
  );
  one_hash = λ x. omega (
    arith,
    count-map_same (has_hash x) (structure_row id text) (λ d. ground arith) docs,
    h.one_hash x,
  );
  one_latest = λ path. omega (
    arith,
    count-map_same (latest_at path) (structure_row id text) (λ d. ground arith) docs,
    h.one_latest path,
  );
}

-- The change of a field that the query does not read.
pub get-structured :
    (docs : List Document) (id text path : Bytes) {d : Document}
    → get_document_by_path docs path ≡ some d
    → get_document_by_path (update_document_structured docs id text) path
      ≡ some (structure_row id text d)
unfolding get_document_by_path update_document_structured
get-structured [] id text path e = absurd (cc)
get-structured (x ∷ docs) id text path {d} e =
    let seen : latest_at path (structure_row id text x) ≡ latest_at path x = ground arith in
    elim (Bool-cases (latest_at path x)) [
      | inl b ↦
          let q : get_document_by_path (x ∷ docs) path ≡ some x =
            rw (b, get_document_by_path) refl in
          let same : d ≡ x = cc in rw (seen, b, get_document_by_path, same) refl
      | inr b ↦
          let q : get_document_by_path (x ∷ docs) path ≡ get_document_by_path docs path =
            rw (b, get_document_by_path) refl in
          rw (seen, b, get_document_by_path) (get-structured docs id text path (sym q ∙ e))
    ]
