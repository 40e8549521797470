-- ===== src/Api/Scope/Laws.antt =====
-- What a request's project is, once the middleware has let it through.
use docsiq.Prelude.{
  ◌≡◌, ◌⊎◌, inl, inr, refl, Bool, true, false, ◌||◌, some, [], ◌∷◌, if◌then◌else◌, arith,
  Option-cases, Bool-cases, Option, none,
}
use docsiq.Prelude.Int.{ℤ}
use docsiq.Prelude.Space.{trim_space, trim_space_plain}
use docsiq.Prelude.Text.{Bytes, codes, bytes_eq, bytes_eq_iff, bytes_eq_refl}
use docsiq.Project.Slug.{is_valid_slug, slug_valid}
use docsiq.Project.Registry.{Project, Table, get, has_slug, has_remote, insert, register, is_zero}
use docsiq.Project.Registry.Laws.{IsTable, register-IsTable}
use docsiq.Project.Slug.Idempotent.{plain}
use docsiq.Api.{Request}
use docsiq.Api.Scope.{
  Access, scoped, default_slug, requested_slug, default_project, resolve, project_middleware,
}

-- A valid slug is its own trimmed text, and not empty.
valid_not_blank : (s : Bytes) → is_valid_slug s ≡ true → bytes_eq (trim_space s) [] ≡ false
unfolding is_valid_slug slug_valid
valid_not_blank [] h = cc
valid_not_blank (c ∷ s) h = rw (trim_space_plain (c ∷ s) (plain (c ∷ s) (ground arith))) refl

get-insert :
    (b : Bool) (t : Table) (p : Project)
    → (has_slug (insert b t p).0 p.slug || has_remote t p.remote) ≡ true
unfolding insert get
get-insert b t p = ground (arith, bytes_eq_refl p.slug)

register_default :
    (b : Bool) (now : ℤ) (t : Table) (slug : Bytes)
    → is_valid_slug slug ≡ true
    → (register b now t (default_project now slug)).0
      ≡ (insert b t
          (record (default_project now slug) { created_at = if is_zero now then now else now })).0
unfolding register trim_space
register_default b now t slug v = rw (v, valid_not_blank slug v) refl

-- Where a slug that is let through stands: it is registered, or it is the default one and its
-- registration met a taken remote "_default" or a database that could not be written.
abbrev pub IsKnown : Access → Bytes → Table → Table → Bytes → Type 0
IsKnown io configured t u s =
    (has_slug u s ≡ true)
    ⊎ ((s ≡ default_slug configured)
        × ((has_remote t (codes "_default") ≡ true) ⊎ (io.writes ≡ false)))

-- The outcome of the look-up.
resolve-scoped :
    (io : Access) (b : Bool) (now : ℤ) (configured : Bytes) (t : Table) (slug : Bytes) {u : Table}
    {s : Bytes}
    → is_valid_slug slug ≡ true
    → resolve io b now configured t slug ≡ (u, scoped s)
    → (s ≡ slug) × IsKnown io configured t u s
unfolding resolve
resolve-scoped io b now configured t slug {u} {s} v h =
    let p : Project = record (default_project now slug) {
      created_at = if is_zero now then now else now;
    } in
    let k = get-insert b t p in
    let e = register_default b now t slug v in
    elim (Option-cases (get t slug)) [
      | inr (q, f) ↦ ground arith
      | inl f ↦ ground (arith, bytes_eq_iff slug (default_slug configured))
    ]

resolve-reads :
    (io : Access) (b : Bool) (now : ℤ) (configured : Bytes) (t : Table) (slug : Bytes) {u : Table}
    {s : Bytes}
    → resolve io b now configured t slug ≡ (u, scoped s)
    → io.reads ≡ true
unfolding resolve
resolve-reads io b now configured t slug {u} {s} h = elim (Bool-cases io.reads) [
  | inl e ↦ e
  | inr e ↦ cc (rw (e, resolve) at h)
]

-- Where it stands without a registry, or in the registry before and after the request.
abbrev pub IsPlaced : Access → Bytes → Option Table → Option Table → Bytes → Type 0
IsPlaced io configured none after s = after ≡ none
IsPlaced io configured (some t) none s = ⊥
IsPlaced io configured (some t) (some u) s = (io.reads ≡ true) × IsKnown io configured t u s

-- A request that the middleware lets through with a project has a valid slug. If there is a
-- registry, it could be read, and the slug is registered, or it is the default one and the remote
-- "_default" was already taken or the registry could not be written; if there is none, there is
-- none afterwards.
pub project_middleware-scoped :
    (io : Access) (b : Bool) (now : ℤ) (configured : Bytes) (registry : Option Table) (r : Request)
    {after : Option Table} {s : Bytes}
    → project_middleware io b now configured registry r ≡ (after, scoped s)
    → (is_valid_slug s ≡ true) × IsPlaced io configured registry after s
unfolding project_middleware
project_middleware-scoped io b now configured none r {after = after} {s = s} h = ground arith
project_middleware-scoped io b now configured (some t) r {after = none} {s = s} h =
    absurd (ground arith)
project_middleware-scoped io b now configured (some t) r {after = some u} {s = s} h = ground (
  arith,
  resolve-scoped io b now configured t (requested_slug configured r) {u = u} {s = s},
  resolve-reads io b now configured t (requested_slug configured r) {u = u} {s = s},
)

resolve-IsTable :
    (io : Access) (b : Bool) (now : ℤ) (configured : Bytes) (t : Table) (slug : Bytes)
    → IsTable t
    → IsTable (resolve io b now configured t slug).0
unfolding resolve
resolve-IsTable io b now configured t slug v =
    ground (arith, register-IsTable b now t (default_project now slug) v)

-- The middleware keeps the registry's slugs valid and its slugs and remotes distinct.
pub project_middleware-IsTable :
    (io : Access) (b : Bool) (now : ℤ) (configured : Bytes) (t : Table) (r : Request) {u : Table}
    → IsTable t
    → (project_middleware io b now configured (some t) r).0 ≡ some u
    → IsTable u
unfolding project_middleware
project_middleware-IsTable io b now configured t r {u} v h =
    ground (arith, resolve-IsTable io b now configured t (requested_slug configured r) v)
