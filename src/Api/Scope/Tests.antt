-- ===== src/Api/Scope/Tests.antt =====
-- The first request for the default project.
use docsiq.Prelude.FilePath.{is_local}
use docsiq.Prelude.Split.{split}
use docsiq.Prelude.{◌≡◌, refl, true, false, [], ◌∷◌, none, some}
use docsiq.Prelude.Int.{pos}
use docsiq.Prelude.Text.{codes}
use docsiq.Prelude.Space.{trim_space}
use docsiq.Project.Slug.{slug_valid, is_valid_slug}
use docsiq.Project.Registry.{insert, register, Table, get, get_by_remote}
use docsiq.Api.{Request}
use docsiq.Api.Scope.{Access, scoped, default_project, project_middleware, requested_slug, resolve}
use docsiq.Api.Scope.Laws.{IsPlaced, project_middleware-scoped}

abbrev request : Request
request = record {
  method = codes "GET";
  path = codes "/api/stats";
  authorization = [];
  session_cookie = none;
  project_query = [];
  project_header = [];
}

abbrev registered : Table
registered = default_project (pos 7) (codes "_default") ∷ []

abbrev fine : Access
fine = record { reads = true; writes = true }

-- A registry that can only be read.
abbrev read_only : Access
read_only = record { reads = true; writes = false }

-- The request goes on, and its slug has no row.
unregistered :
    project_middleware read_only true (pos 7) [] (some []) request
    ≡ (some [], scoped (codes "_default"))
unfolding project_middleware is_valid_slug requested_slug slug_valid is_local split resolve get
unregistered = refl

first_request :
    project_middleware fine true (pos 7) [] (some []) request
    ≡ (some registered, scoped (codes "_default"))
unfolding project_middleware is_valid_slug requested_slug slug_valid is_local split resolve get
    register trim_space insert get_by_remote
first_request = refl

-- With another default slug configured, the remote "_default" is taken, and the slug is let through
-- without a row of its own.
renamed_default :
    project_middleware fine true (pos 9) (codes "main") (some registered) request
    ≡ (some registered, scoped (codes "main"))
unfolding project_middleware is_valid_slug requested_slug slug_valid is_local split resolve get
    register trim_space insert get_by_remote
renamed_default = refl

project_middleware-scoped_example :
    (is_valid_slug (codes "_default") ≡ true)
    × IsPlaced fine [] (some []) (some registered) (codes "_default")
project_middleware-scoped_example =
    project_middleware-scoped fine true (pos 7) [] (some []) request first_request
