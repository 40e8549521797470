-- ===== src/Api/Indexes/Tests.antt =====
-- A builder whose index is the version that it reads.
use docsiq.Prelude.{◌≡◌, refl, some, List, [], ◌∷◌, ℕ}
use docsiq.Prelude.Text.{codes}
use docsiq.Api.Indexes.{
  Builder, Cache, Event, invalidate, begin_build, end_build, change_store, step, run, for_project,
  cached, new_vector_indexes, evict,
}
use docsiq.Api.Indexes.Fresh.{Built, run-invalidate}

abbrev versions : Builder
versions = record { Index = ℕ; build = λ slug v. some v }

abbrev upload : List (Event versions)
upload =
    begin_build (codes "q")
    ∷ change_store
    ∷ begin_build (codes "p")
    ∷ end_build 1
    ∷ change_store
    ∷ []

-- The store has changed twice since the index in the cache was built.
abbrev old_cache : Cache versions
old_cache = record {
  indexes = (codes "p", 0) ∷ (codes "q", 1) ∷ [];
  flights = (codes "q", some 1) ∷ [];
  version = 2;
}

run-invalidate_example : Built versions (codes "p") 2 4 3
unfolding for_project cached run step evict
run-invalidate_example = run-invalidate versions (codes "p") old_cache upload 3 refl refl refl

-- A build that is on its way over the `Invalidate` puts an index into the cache that does not know
-- of the change before it.
stale :
    (for_project versions (codes "p") (
      run versions
        (begin_build (codes "p") ∷ change_store ∷ invalidate (codes "p") ∷ end_build 0 ∷ [])
        (new_vector_indexes versions 0))).0
    ≡ some 0
unfolding run for_project cached step
stale = refl
