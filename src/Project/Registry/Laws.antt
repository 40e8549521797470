-- ===== src/Project/Registry/Laws.antt =====
-- What the registry's operations keep and what they do to lookups.
use docsiq.Prelude.{
  ◌⊎◌, ◌≡◌, refl, Bool, true, false, ◌||◌, none, some, [], ◌∷◌, if◌then◌else◌, arith, Option-cases,
  Bool-cases, inl, inr,
}
use docsiq.Prelude.Int.{ℤ}
use docsiq.Prelude.Text.{Bytes, bytes_eq, bytes_eq_iff, bytes_eq_refl}
use docsiq.Project.Slug.{is_valid_slug}
use docsiq.Project.Registry.{
  Project, Table, get, get_by_remote, has_slug, has_remote, insert, register, delete_rows, delete,
  is_zero,
}

-- Every slug is valid, and no two rows share a slug or a remote.
abbrev pub IsTable : Table → Type 0
IsTable [] = Unit
IsTable (p ∷ t) =
    (is_valid_slug p.slug ≡ true)
    × (get t p.slug ≡ none)
    × (get_by_remote t p.remote ≡ none)
    × IsTable t

insert-old :
    (b : Bool) (t : Table) (p : Project)
    → (has_slug t p.slug || has_remote t p.remote) ≡ true
    → (insert b t p).0 ≡ t
unfolding insert
insert-old b t p h = ground arith

insert-new :
    (b : Bool) (t : Table) (p : Project)
    → has_slug t p.slug ≡ false
    → has_remote t p.remote ≡ false
    → (insert b t p).0 ≡ p ∷ t
unfolding insert
insert-new b t p h k = rw (k, h) refl

insert-IsTable :
    (b : Bool) (t : Table) (p : Project)
    → is_valid_slug p.slug ≡ true
    → IsTable t
    → IsTable (insert b t p).0
insert-IsTable b t p s v = elim (Option-cases (get t p.slug)) [
  | inl e ↦ elim (Option-cases (get_by_remote t p.remote)) [
    | inl f ↦ rw (insert-new b t p (rw (e, has_slug) refl) (rw (f, has_remote) refl)) (s, e, f, v)
    | inr (q, f) ↦ rw (insert-old b t p (rw (e, f, has_slug, has_remote) refl)) v
  ]
  | inr (q, e) ↦ rw (insert-old b t p (rw (e, has_slug) refl)) v
]

-- Registration keeps the slugs valid and the slugs and remotes of the rows distinct.
pub register-IsTable :
    (b : Bool) (now : ℤ) (t : Table) (p : Project) → IsTable t → IsTable (register b now t p).0
unfolding register
register-IsTable b now t p v = elim (Bool-cases (is_valid_slug p.slug)) [
  | inl s ↦ ground (
    arith,
    insert-IsTable b t
        (record p { created_at = if is_zero p.created_at then now else p.created_at }) s v,
  )
  | inr s ↦ rw s v
]

get-delete_rows :
    (t : Table) (slug other : Bytes) → get t other ≡ none → get (delete_rows t slug) other ≡ none
unfolding get delete_rows
get-delete_rows [] slug other h = refl
get-delete_rows (p ∷ t) slug other h = ground (arith, get-delete_rows t slug other)

get_by_remote-delete_rows :
    (t : Table) (slug other : Bytes)
    → get_by_remote t other ≡ none
    → get_by_remote (delete_rows t slug) other ≡ none
unfolding get_by_remote delete_rows
get_by_remote-delete_rows [] slug other h = refl
get_by_remote-delete_rows (p ∷ t) slug other h =
    ground (arith, get_by_remote-delete_rows t slug other)

delete_rows-IsTable : (t : Table) (slug : Bytes) → IsTable t → IsTable (delete_rows t slug)
unfolding delete_rows
delete_rows-IsTable [] slug v = tt
delete_rows-IsTable (p ∷ t) slug (s, a, b, v) = elim (Bool-cases (bytes_eq p.slug slug)) [
  | inl e ↦ rw e (delete_rows-IsTable t slug v)
  | inr e ↦ rw e (
    s,
    get-delete_rows t slug p.slug a,
    get_by_remote-delete_rows t slug p.remote b,
    delete_rows-IsTable t slug v,
  )
]

-- Deletion keeps the slugs valid and the slugs and remotes of the rows distinct.
pub delete-IsTable : (t : Table) (slug : Bytes) → IsTable t → IsTable (delete t slug).0
unfolding delete
delete-IsTable t slug v = ground (arith, delete_rows-IsTable t slug v)

get-delete_rows_same : (t : Table) (slug : Bytes) → get (delete_rows t slug) slug ≡ none
unfolding get delete_rows
get-delete_rows_same [] slug = refl
get-delete_rows_same (p ∷ t) slug = ground (arith, get-delete_rows_same t slug)

pub get-delete_rows_other :
    (t : Table) (slug other : Bytes)
    → bytes_eq slug other ≡ false
    → get (delete_rows t slug) other ≡ get t other
unfolding get delete_rows
get-delete_rows_other [] slug other n = refl
get-delete_rows_other (p ∷ t) slug other n = ground (
  arith,
  get-delete_rows_other t slug other n,
  bytes_eq_iff p.slug slug,
  bytes_eq_iff p.slug other,
  bytes_eq_iff slug other,
)

pub delete-absent : (t : Table) (slug : Bytes) → has_slug t slug ≡ false → (delete t slug).0 ≡ t
unfolding delete
delete-absent t slug h = rw h refl

pub delete-present :
    (t : Table) (slug : Bytes) → has_slug t slug ≡ true → (delete t slug).0 ≡ delete_rows t slug
unfolding delete
delete-present t slug h = rw h refl

-- After `Delete` the slug is not found, and every other slug gives what it gave before.
pub get-delete :
    (t : Table) (slug other : Bytes)
    → (get (delete t slug).0 slug ≡ none)
      × ((bytes_eq slug other ≡ true) ⊎ (get (delete t slug).0 other ≡ get t other))
get-delete t slug other = elim (Option-cases (get t slug)) [
  | inl e ↦ rw (delete-absent t slug (rw (e, has_slug) refl)) (e, inr refl)
  | inr (p, e) ↦ rw (delete-present t slug (rw (e, has_slug) refl)) (
    get-delete_rows_same t slug,
    elim (Bool-cases (bytes_eq slug other)) [
      | inl f ↦ inl f
      | inr f ↦ inr (get-delete_rows_other t slug other f)
    ],
  )
]

register-row :
    (b : Bool) (now : ℤ) (t : Table) (p : Project)
    → (register b now t p).1 ≡ none
    → (q : Project) × ((register b now t p).0 ≡ q ∷ t)
      × (q.slug ≡ p.slug)
      × (q.name ≡ p.name)
      × (q.remote ≡ p.remote)
unfolding register insert
register-row b now t p h = (
  record p { created_at = if is_zero p.created_at then now else p.created_at },
  ground arith,
  refl,
  refl,
  refl,
)

pub registered-found :
    (b : Bool) (now : ℤ) (t : Table) (p : Project)
    → (register b now t p).1 ≡ none
    → (q : Project) × (get (register b now t p).0 p.slug ≡ some q)
      × (get_by_remote (register b now t p).0 p.remote ≡ some q)
      × (q.slug ≡ p.slug)
      × (q.name ≡ p.name)
      × (q.remote ≡ p.remote)
unfolding get get_by_remote
registered-found b now t p h =
    let (q, e, s, n, r) = register-row b now t p h in
    (
      q,
      rw (e, s) (rw (bytes_eq_refl p.slug) refl),
      rw (e, r) (rw (bytes_eq_refl p.remote) refl),
      s,
      n,
      r,
    )
