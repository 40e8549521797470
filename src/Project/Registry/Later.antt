-- ===== src/Project/Registry/Later.antt =====
-- A registered project stays found through later operations.
use mathlib.Core.Path.{subst}
use docsiq.Prelude.{
  ◌≡◌, ◌≢◌, refl, sym, ◌∙◌, Bool, false, none, some, List, [], ◌∷◌, All, if◌then◌else◌, arith,
  Option-cases, inl, inr,
}
use docsiq.Prelude.Int.{ℤ}
use docsiq.Prelude.Text.{Bytes, bytes_eq, bytes_eq_iff}
use docsiq.Project.Registry.{
  Project, Table, get, get_by_remote, has_slug, insert, register, delete_rows, delete, is_zero,
}
use docsiq.Project.Registry.Laws.{
  registered-found, delete-absent, delete-present, get-delete_rows_other,
}

-- A later change of the registry.
pub data RegistryOp : Type 0 where
  registers : Bool → ℤ → Project → RegistryOp
  deletes : Bytes → RegistryOp

abbrev pub after_ops : Table → List RegistryOp → Table
after_ops t [] = t
after_ops t (registers b now p ∷ ops) = after_ops (register b now t p).0 ops
after_ops t (deletes slug ∷ ops) = after_ops (delete t slug).0 ops

-- It does not delete the slug.
abbrev pub Spares : Bytes → RegistryOp → Type 0
Spares slug (registers b now p) = Unit
Spares slug (deletes other) = other ≢ slug

-- The slug and the remote of the project find it.
abbrev IsHeld : Table → Project → Type 0
IsHeld t q = (get t q.slug ≡ some q) × (get_by_remote t q.remote ≡ some q)

insert-IsHeld : (b : Bool) (t : Table) (p q : Project) → IsHeld t q → IsHeld (insert b t p).0 q
unfolding insert get get_by_remote
insert-IsHeld b t p q (g, r) =
    ground (arith, bytes_eq_iff p.slug q.slug, bytes_eq_iff p.remote q.remote)

register-IsHeld :
    (b : Bool) (now : ℤ) (t : Table) (p q : Project) → IsHeld t q → IsHeld (register b now t p).0 q
unfolding register
register-IsHeld b now t p q h =
    let i =
      insert-IsHeld b t
        (record p { created_at = if is_zero p.created_at then now else p.created_at }) q h in
    ground arith

-- The row that the remote finds stays first among those of its remote.
get_by_remote-delete_rows_other :
    (t : Table) (slug remote : Bytes) (q : Project)
    → bytes_eq q.slug slug ≡ false
    → get_by_remote t remote ≡ some q
    → get_by_remote (delete_rows t slug) remote ≡ some q
unfolding get_by_remote delete_rows
get_by_remote-delete_rows_other [] slug remote q n h = cc
get_by_remote-delete_rows_other (p ∷ t) slug remote q n h =
    ground (arith, get_by_remote-delete_rows_other t slug remote q n)

delete-IsHeld :
    (t : Table) (slug : Bytes) (q : Project)
    → slug ≢ q.slug
    → IsHeld t q
    → IsHeld (delete t slug).0 q
delete-IsHeld t slug q n (g, r) = elim (Option-cases (get t slug)) [
  | inl e ↦ rw (delete-absent t slug (rw (e, has_slug) refl)) (g, r)
  | inr (p, e) ↦
      let a : bytes_eq slug q.slug ≡ false = ground (arith, bytes_eq_iff slug q.slug) in
      let b : bytes_eq q.slug slug ≡ false = ground (arith, bytes_eq_iff q.slug slug) in
      rw (delete-present t slug (rw (e, has_slug) refl)) (
        get-delete_rows_other t slug q.slug a ∙ g,
        get_by_remote-delete_rows_other t slug q.remote q b r,
      )
]

after_ops-IsHeld :
    (t : Table) (q : Project) (ops : List RegistryOp)
    → All (Spares q.slug) ops
    → IsHeld t q
    → IsHeld (after_ops t ops) q
after_ops-IsHeld t q [] s h = h
after_ops-IsHeld t q (registers b now p ∷ ops) (u, s) h =
    after_ops-IsHeld (register b now t p).0 q ops s (register-IsHeld b now t p q h)
after_ops-IsHeld t q (deletes slug ∷ ops) (n, s) h =
    after_ops-IsHeld (delete t slug).0 q ops s (delete-IsHeld t slug q n h)

-- Where `Register` succeeds, the slug and the remote both find one same project, which has the
-- registered slug, name and remote, also after any later registrations and deletions, as long as
-- none of them deletes that slug.
pub get-register :
    (b : Bool) (now : ℤ) (t : Table) (p : Project) (ops : List RegistryOp)
    → (register b now t p).1 ≡ none
    → All (Spares p.slug) ops
    → (q : Project) × (get (after_ops (register b now t p).0 ops) p.slug ≡ some q)
      × (get_by_remote (after_ops (register b now t p).0 ops) p.remote ≡ some q)
      × (q.slug ≡ p.slug)
      × (q.name ≡ p.name)
      × (q.remote ≡ p.remote)
get-register b now t p ops h s =
    let (q, g, k, e, n, r) = registered-found b now t p h in
    let u : Table = (register b now t p).0 in
    let held : IsHeld u q = (
      subst (λ x. get u x ≡ some q) (sym e) g,
      subst (λ x. get_by_remote u x ≡ some q) (sym r) k,
    ) in
    let (a, c) = after_ops-IsHeld u q ops (subst (λ x. All (Spares x) ops) (sym e) s) held in
    (
      q,
      subst (λ x. get (after_ops u ops) x ≡ some q) e a,
      subst (λ x. get_by_remote (after_ops u ops) x ≡ some q) r c,
      e,
      n,
      r,
    )
