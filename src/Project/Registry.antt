-- ===== src/Project/Registry.antt =====
-- internal/project/registry.go: the table of projects. SQLite is used through four statements, whose
-- meaning on the one table of `registrySchema` is written out; failures of the database itself and
-- the open and close of the handle are left out. Times are int64 seconds.
use docsiq.Prelude.{
  ltb, ℕ, ◌≡◌, refl, Bool, true, false, ◌&&◌, ◌||◌, not, Option, none, some, List, [], ◌∷◌, ◌==◌,
  if◌then◌else◌,
}
use docsiq.Prelude.Int.{negsuc, ℤ, pos}
use docsiq.Prelude.Sort.{bytes_lt, sort}
use docsiq.Prelude.Text.{Bytes, bytes_eq}
use docsiq.Prelude.Space.{trim_space}
use docsiq.Project.Slug.{is_valid_slug}
pub mod Later
pub mod Laws
pub mod Order
mod Tests

pub record Project : Type 0 where
  pub slug : Bytes
  pub name : Bytes
  pub remote : Bytes
  pub created_at : ℤ

pub data RegisterError : Type 0 where
  invalid_slug empty_name empty_remote duplicate_remote duplicate_slug : RegisterError

-- The rows, the newest first.
abbrev pub Table : Type 0
Table = List Project

abbrev pub is_zero : ℤ → Bool
is_zero (pos n) = n == 0
is_zero _ = false

-- `SELECT ... WHERE slug=?`, with `scanProject`: `none` is `ErrNotFound`.
unfoldable pub get : Table → Bytes → Option Project
get [] slug = none
get (p ∷ t) slug = let rest = get t slug in if bytes_eq p.slug slug then some p else rest

-- `SELECT ... WHERE remote=?`
unfoldable pub get_by_remote : Table → Bytes → Option Project
get_by_remote [] remote = none
get_by_remote (p ∷ t) remote =
    let rest = get_by_remote t remote in if bytes_eq p.remote remote then some p else rest

abbrev pub has_slug : Table → Bytes → Bool
has_slug t slug = elim (get t slug) [ none ↦ false | some p ↦ true ]

abbrev pub has_remote : Table → Bytes → Bool
has_remote t remote = elim (get_by_remote t remote) [ none ↦ false | some p ↦ true ]

-- `INSERT` under the two constraints; `remote_first` tells which of two violations SQLite reports.
unfoldable pub insert : Bool → Table → Project → Table × Option RegisterError
insert remote_first t p =
    if has_remote t p.remote && (remote_first || not (has_slug t p.slug))
    then (t, some duplicate_remote)
    else if has_slug t p.slug
    then (t, some duplicate_slug)
    else (p ∷ t, none)

-- `now` is `time.Now().Unix()`.
unfoldable pub register : Bool → ℤ → Table → Project → Table × Option RegisterError
register remote_first now t p =
    if not (is_valid_slug p.slug)
    then (t, some invalid_slug)
    else if bytes_eq (trim_space p.name) []
    then (t, some empty_name)
    else if bytes_eq (trim_space p.remote) []
    then (t, some empty_remote)
    else insert remote_first t
        (record p { created_at = if is_zero p.created_at then now else p.created_at })

-- `DELETE ... WHERE slug=?`: the rows that are left, and whether there was one to delete.
unfoldable pub delete_rows : Table → Bytes → Table
delete_rows [] slug = []
delete_rows (p ∷ t) slug =
    let rest = delete_rows t slug in if bytes_eq p.slug slug then rest else p ∷ rest

-- The flag is false for `ErrNotFound`.
unfoldable pub delete : Table → Bytes → Table × Bool
delete t slug = if has_slug t slug then (delete_rows t slug, true) else (t, false)

abbrev pub int_lt : ℤ → ℤ → Bool
int_lt (pos a) (pos b) = ltb a b
int_lt (pos a) (negsuc b) = false
int_lt (negsuc a) (pos b) = true
int_lt (negsuc a) (negsuc b) = ltb b a

-- `ORDER BY created_at ASC, slug ASC`
abbrev pub older : Project → Project → Bool
older p q =
    int_lt p.created_at q.created_at
    || (not (int_lt q.created_at p.created_at) && bytes_lt p.slug q.slug)

-- `List`
unfoldable pub list : Table → List Project
list t = sort older t
