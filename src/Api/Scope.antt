-- ===== src/Api/Scope.antt =====
-- internal/api/project.go: `projectMiddleware`, which finds the project of a request.
use docsiq.Prelude.{
  ◌≡◌, refl, Bool, true, false, ◌&&◌, ◌||◌, not, Option, none, some, List, [], ◌∷◌, if◌then◌else◌,
}
use docsiq.Prelude.Int.{ℤ}
use docsiq.Prelude.Text.{Bytes, codes, bytes_eq, has_prefix}
use docsiq.Prelude.FilePath.{is_local}
use docsiq.Project.Slug.{is_valid_slug}
use docsiq.Project.Registry.{Project, Table, get, register}
use docsiq.Api.{Request}
pub mod Laws
mod Tests

-- The next handler without a project, the next handler with the slug in its context, 400, 404 or
-- 500.
pub data Scoped : Type 0 where
  unscoped invalid_project unknown_project internal_error : Scoped
  scoped : Bytes → Scoped

abbrev pub default_slug : Bytes → Bytes
default_slug configured = if bytes_eq configured [] then codes "_default" else configured

unfoldable pub requested_slug : Bytes → Request → Bytes
requested_slug configured r =
    if not (bytes_eq r.project_query [])
    then r.project_query
    else if not (bytes_eq r.project_header [])
    then r.project_header
    else default_slug configured

abbrev pub default_project : ℤ → Bytes → Project
default_project now slug = record {
  slug = slug;
  name = slug;
  remote = codes "_default";
  created_at = now;
}

-- Whether the database can be read, and whether it can be written.
pub record Access : Type 0 where
  pub reads : Bool
  pub writes : Bool

-- The look-up with its automatic registration, whose errors are only logged: those of `register`
-- and that of a database that cannot be written.
unfoldable pub resolve : Access → Bool → ℤ → Bytes → Table → Bytes → Table × Scoped
resolve io remote_first now configured t slug =
    if not io.reads then (t, internal_error) else elim (get t slug) [
      | some p ↦ (t, scoped slug)
      | none ↦
          if not (bytes_eq slug (default_slug configured))
          then (t, unknown_project)
          else if io.writes
          then ((register remote_first now t (default_project now slug)).0, scoped slug)
          else (t, scoped slug)
    ]

-- `none` for a registry that is nil; `now` and `remote_first` are those of `register`.
unfoldable pub project_middleware :
    Access → Bool → ℤ → Bytes → Option Table → Request → Option Table × Scoped
project_middleware io remote_first now configured registry r =
    if not (has_prefix r.path (codes "/api/")) && not (has_prefix r.path (codes "/mcp"))
    then (registry, unscoped)
    else let slug = requested_slug configured r in
      if not (is_valid_slug slug)
      then (registry, invalid_project)
      else if not (is_local slug)
      then (registry, invalid_project)
      else elim registry [
        | none ↦ (none, scoped slug)
        | some t ↦ let (u, s) = resolve io remote_first now configured t slug in (some u, s)
      ]
