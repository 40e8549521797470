-- ===== src/Api/Indexes.antt =====
-- internal/api/vector_indexes.go: the cache of vector indexes. Each stretch of code under the lock
-- is one step, and a run is a list of steps of any number of requests in any order. The group of
-- package singleflight lets fewer builds run at once than the steps allow.
use docsiq.Prelude.{
  ℕ, zero, suc, ◌+◌, ◌≡◌, Bool, true, false, Option, none, some, List, [], ◌∷◌, ◌++◌, get_elem?,
  if◌then◌else◌,
}
use docsiq.Prelude.Text.{Bytes, bytes_eq}
pub mod Fresh
mod Tests

-- `BuildFromStore` of a project's store at a version, `none` being its error. The version counts
-- the changes of the stores.
pub record Builder : Type 1 where
  pub Index : Type 0
  pub build : Bytes → ℕ → Option Index

module _ (builder : Builder) where
  open builder use {Index, build}

  -- `indexes`, with the builds that are on their way and what they will give, and the version of
  -- the stores.
  pub record Cache : Type 0 where
    pub indexes : List (Bytes × Index)
    pub flights : List (Bytes × Option Index)
    pub version : ℕ

  unfoldable pub cached : List (Bytes × Index) → Bytes → Option Index
  cached [] slug = none
  cached ((k, idx) ∷ m) slug =
      let rest = cached m slug in if bytes_eq slug k then some idx else rest

  unfoldable pub evict : List (Bytes × Index) → Bytes → List (Bytes × Index)
  evict [] slug = []
  evict ((k, idx) ∷ m) slug =
      let rest = evict m slug in if bytes_eq slug k then rest else (k, idx) ∷ rest

  abbrev pub new_vector_indexes : ℕ → Cache
  new_vector_indexes version = record { indexes = []; flights = []; version = version }

  -- The stretches under the lock: `Set`, `Invalidate`, the check before a build with the build's
  -- read of the store, the write after it; and a change of the store.
  pub data Event : Type 0 where
    set_index : Bytes → Index → Event
    invalidate begin_build : Bytes → Event
    end_build : ℕ → Event
    change_store : Event

  abbrev pub put_index : Bytes → Index → List (Bytes × Index) → List (Bytes × Index)
  put_index slug idx m = (slug, idx) ∷ evict m slug

  -- A build that failed leaves the cache alone.
  abbrev pub put_built : Bytes × Option Index → List (Bytes × Index) → List (Bytes × Index)
  put_built (slug, none) m = m
  put_built (slug, some idx) m = put_index slug idx m

  abbrev pub remove_at : List (Bytes × Option Index) → ℕ → List (Bytes × Option Index)
  remove_at [] i = []
  remove_at (f ∷ fs) zero = fs
  remove_at (f ∷ fs) (suc i) = f ∷ remove_at fs i

  unfoldable pub step : Event → Cache → Cache
  step (set_index slug idx) c = record c { indexes = put_index slug idx c.indexes }
  step (invalidate slug) c = record c { indexes = evict c.indexes slug }
  step (begin_build slug) c = elim (cached c.indexes slug) [
    | some idx ↦ c
    | none ↦ record c { flights = c.flights ++ (slug, build slug c.version) ∷ [] }
  ]
  step (end_build i) c = elim (get_elem? c.flights i) [
    | none ↦ c
    | some f ↦ record c { indexes = put_built f c.indexes; flights = remove_at c.flights i }
  ]
  step change_store c = record c { version = suc c.version }

  unfoldable pub run : List Event → Cache → Cache
  run [] c = c
  run (e ∷ es) c = run es (step e c)

  -- `ForProject` with no other request in between.
  unfoldable pub for_project : Bytes → Cache → Option Index × Cache
  for_project slug c = elim (cached c.indexes slug) [
    | some idx ↦ (some idx, c)
    | none ↦ (
      build slug c.version,
      record c { indexes = put_built (slug, build slug c.version) c.indexes },
    )
  ]
