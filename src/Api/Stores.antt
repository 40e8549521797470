-- ===== src/Api/Stores.antt =====
-- internal/api/stores.go: the cache of the projects' open stores. The methods hold the lock
-- throughout, so that each is one step. A handle is the number of `OpenForProject` calls that
-- succeeded before; what opens and what closes without an error is the database's.
use docsiq.Prelude.{
  ℕ, suc, ◌≡◌, Bool, true, false, Option, none, some, List, [], ◌∷◌, ◌++◌, map, if◌then◌else◌,
}
use docsiq.Prelude.Text.{Bytes, bytes_eq}
pub mod Handles
mod Tests

-- `stores`, with the number of handles that were opened and those that were closed.
pub record ProjectStores : Type 0 where
  pub stores : List (Bytes × ℕ)
  pub opened : ℕ
  pub closed : List ℕ

pub data StoreError : Type 0 where
  empty_slug open_failed : StoreError
  close_failed : Bytes → StoreError

pub data Got : Type 0 where
  store : ℕ → Got
  refused : StoreError → Got

abbrev pub new_project_stores : ProjectStores
new_project_stores = record { stores = []; opened = 0; closed = [] }

unfoldable pub find_store : List (Bytes × ℕ) → Bytes → Option ℕ
find_store [] slug = none
find_store ((k, h) ∷ m) slug =
    let rest = find_store m slug in if bytes_eq slug k then some h else rest

-- `Get` of a slug that is not empty; `opens` tells whether `OpenForProject` succeeds.
abbrev pub get_or_open : Bool → Bytes → ProjectStores → Got × ProjectStores
get_or_open opens slug s = elim (find_store s.stores slug) [
  | some h ↦ (store h, s)
  | none ↦
      if opens
      then (
        store s.opened,
        record { stores = (slug, s.opened) ∷ s.stores; opened = suc s.opened; closed = s.closed },
      )
      else (refused open_failed, s)
]

unfoldable pub get_store : Bool → Bytes → ProjectStores → Got × ProjectStores
get_store opens [] s = (refused empty_slug, s)
get_store opens (c ∷ slug) s = get_or_open opens (c ∷ slug) s

-- `Slugs`
abbrev pub slugs : ProjectStores → List Bytes
slugs s = map (λ e. e.0) s.stores

-- The first error of the loop of `Close`; `closes` tells which handles close without one.
abbrev pub first_error : (ℕ → Bool) → List (Bytes × ℕ) → Option StoreError
first_error closes [] = none
first_error closes ((slug, h) ∷ m) =
    let rest = first_error closes m in if closes h then rest else some (close_failed slug)

-- `Close`, which closes every handle and forgets it whether there is an error or not.
unfoldable pub close_stores : (ℕ → Bool) → ProjectStores → Option StoreError × ProjectStores
close_stores closes s = (
  first_error closes s.stores,
  record { stores = []; opened = s.opened; closed = map (λ e. e.1) s.stores ++ s.closed },
)

-- A call of one of the two methods that change the cache.
pub data Call : Type 0 where
  get_call : Bool → Bytes → Call
  close_call : (ℕ → Bool) → Call

unfoldable pub call : Call → ProjectStores → ProjectStores
call (get_call opens slug) s = (get_store opens slug s).1
call (close_call closes) s = (close_stores closes s).1

unfoldable pub calls : List Call → ProjectStores → ProjectStores
calls [] s = s
calls (c ∷ cs) s = calls cs (call c s)
