-- ===== src/Api/Indexes/Fresh.antt =====
-- internal/api/vector_indexes.go: how old a cached index can be.
use mathlib.Core.Path.{subst}
use docsiq.Prelude.{
  if◌then◌else◌, ℕ, zero, suc, ◌≤◌, ◌≡◌, refl, sym, ◌∙◌, ap, Bool, true, false, Option, none, some,
  List, [], ◌∷◌, get_elem?, any, All, All-append, arith, Bool-cases, Option-cases, inl, inr,
}
use docsiq.Prelude.Text.{Bytes, bytes_eq, bytes_eq_iff, bytes_eq_refl}
use docsiq.Api.Indexes.{
  Builder, Cache, cached, evict, Event, set_index, invalidate, begin_build, end_build, change_store,
  put_index, put_built, remove_at, step, run, for_project,
}

module _ (builder : Builder) (slug : Bytes) where
  open builder use {Index, build}

  -- Built from the project's store at a version between two.
  abbrev pub Built : ℕ → ℕ → Index → Type 0
  Built floor now idx = (v : ℕ) × (floor ≤ v) × (v ≤ now) × (build slug v ≡ some idx)

  -- The same of the result of a build, if it is one for the project.
  abbrev IsLate : ℕ → ℕ → Bytes × Option Index → Type 0
  IsLate floor now f =
      (idx : Index) → bytes_eq slug f.0 ≡ true → f.1 ≡ some idx → Built floor now idx

  record IsFresh (floor : ℕ) (c : Cache builder) : Type 0 where
    in_cache : (idx : Index) → cached builder c.indexes slug ≡ some idx → Built floor c.version idx
    in_flight : All (IsLate floor c.version) c.flights
    since : floor ≤ c.version

  cached-evict :
      (m : List (Bytes × Index)) (k : Bytes)
      → cached builder (evict builder m k) slug
        ≡ (if bytes_eq slug k then none else cached builder m slug)
  unfolding cached evict
  cached-evict [] k = ground arith
  cached-evict ((j, idx) ∷ m) k =
      ground (arith, cached-evict m k, bytes_eq_iff slug k, bytes_eq_iff k j, bytes_eq_iff slug j)

  All-get :
      (floor now : ℕ) (fs : List (Bytes × Option Index)) (i : ℕ) {f : Bytes × Option Index}
      → All (IsLate floor now) fs
      → get_elem? fs i ≡ some f
      → IsLate floor now f
  All-get floor now [] i h e = absurd (cc)
  All-get floor now (g ∷ fs) zero {f} (h, hs) e =
      subst (λ (x : Bytes × Option Index). IsLate floor now x) (cc) h
  All-get floor now (g ∷ fs) (suc i) (h, hs) e = All-get floor now fs i hs e

  All-remove_at :
      (floor now : ℕ) (fs : List (Bytes × Option Index)) (i : ℕ)
      → All (IsLate floor now) fs
      → All (IsLate floor now) (remove_at builder fs i)
  All-remove_at floor now [] i h = h
  All-remove_at floor now (g ∷ fs) zero (h, hs) = hs
  All-remove_at floor now (g ∷ fs) (suc i) (h, hs) = (h, All-remove_at floor now fs i hs)

  All-later :
      (floor now : ℕ) (fs : List (Bytes × Option Index))
      → All (IsLate floor now) fs
      → All (IsLate floor (suc now)) fs
  All-later floor now [] h = h
  All-later floor now (f ∷ fs) (h, hs) = (
    (λ idx p q. let (v, a, b, e) = h idx p q in (v, a, omega arith, e)),
    All-later floor now fs hs,
  )

  cached-put_index :
      (m : List (Bytes × Index)) (k : Bytes) (idx : Index)
      → cached builder (put_index builder k idx m) slug
        ≡ (if bytes_eq slug k then some idx else cached builder m slug)
  unfolding cached
  cached-put_index m k idx = ground (arith, cached-evict m k)

  -- The index of the project is put by hand.
  abbrev pub is_set : Event builder → Bool
  is_set (set_index k idx) = bytes_eq slug k
  is_set (invalidate k) = false
  is_set (begin_build k) = false
  is_set (end_build i) = false
  is_set change_store = false

  -- The write after a build keeps what is fresh.
  put_built-fresh :
      (floor now : ℕ) (f : Bytes × Option Index) (m : List (Bytes × Index))
      → IsLate floor now f
      → ((idx : Index) → cached builder m slug ≡ some idx → Built floor now idx)
      → (idx : Index) → cached builder (put_built builder f m) slug ≡ some idx
      → Built floor now idx
  put_built-fresh floor now (k, none) m late old idx e = old idx e
  put_built-fresh floor now (k, some new) m late old idx e = elim (Bool-cases (bytes_eq slug k)) [
    | inl p ↦ late idx p (ground (arith, cached-put_index m k new))
    | inr p ↦ old idx (ground (arith, cached-put_index m k new))
  ]

  step-IsFresh :
      (floor : ℕ) (e : Event builder) (c : Cache builder)
      → IsFresh floor c
      → is_set e ≡ false
      → IsFresh floor (step builder e c)
  unfolding step
  step-IsFresh floor (set_index k idx) c h n = record {
    in_cache = λ x p. h.in_cache x (ground (arith, cached-put_index c.indexes k idx));
    in_flight = h.in_flight;
    since = h.since;
  }
  step-IsFresh floor (invalidate k) c h n = record {
    in_cache = λ x p. h.in_cache x (ground (arith, cached-evict c.indexes k));
    in_flight = h.in_flight;
    since = h.since;
  }
  step-IsFresh floor (begin_build k) c h n = elim (Option-cases (cached builder c.indexes k)) [
    | inr (idx, e) ↦ rw (e, step) h
    | inl e ↦
        rw (e, step)
          (record {
            in_cache = h.in_cache;
            in_flight =
                All-append (IsLate floor c.version) c.flights ((k, build k c.version) ∷ [])
                  h.in_flight
                  (
                    (λ x p q. (
                      c.version,
                      h.since,
                      omega arith,
                      ap (λ (j : Bytes). build j c.version) ((bytes_eq_iff slug k).0 p) ∙ q,
                    )),
                    tt,
                  );
            since = h.since;
          })
  ]
  step-IsFresh floor (end_build i) c h n = elim (Option-cases (get_elem? c.flights i)) [
    | inl e ↦ rw (e, step) h
    | inr (f, e) ↦
        rw (e, step)
          (record {
            in_cache =
                put_built-fresh floor c.version f c.indexes
                  (All-get floor c.version c.flights i h.in_flight e) h.in_cache;
            in_flight = All-remove_at floor c.version c.flights i h.in_flight;
            since = h.since;
          })
  ]
  step-IsFresh floor change_store c h n = record {
    in_cache = λ x p. let (v, a, b, q) = h.in_cache x p in (v, a, omega arith, q);
    in_flight = All-later floor c.version c.flights h.in_flight;
    since = omega (arith, h.since);
  }

  run-IsFresh :
      (floor : ℕ) (es : List (Event builder)) (c : Cache builder)
      → IsFresh floor c
      → any is_set es ≡ false
      → IsFresh floor (run builder es c)
  unfolding run
  run-IsFresh floor [] c h n = h
  run-IsFresh floor (e ∷ es) c h n =
      run-IsFresh floor es (step builder e c) (step-IsFresh floor e c h (ground arith))
        (ground arith)

  no_flights :
      (floor now : ℕ) (fs : List (Bytes × Option Index))
      → any (λ f. bytes_eq slug f.0) fs ≡ false
      → All (IsLate floor now) fs
  no_flights floor now [] h = tt
  no_flights floor now (f ∷ fs) h =
      ((λ idx p q. absurd (ground arith)), no_flights floor now fs (ground arith))

  for_project-cached :
      (c : Cache builder) {idx : Index}
      → cached builder c.indexes slug ≡ some idx
      → (for_project builder slug c).0 ≡ some idx
  unfolding for_project
  for_project-cached c p = rw (p, for_project) refl

  for_project-none :
      (c : Cache builder)
      → cached builder c.indexes slug ≡ none
      → (for_project builder slug c).0 ≡ build slug c.version
  unfolding for_project
  for_project-none c p = rw (p, for_project) refl

  -- After `Invalidate` of a project of which no build is on its way, and as long as no index of the
  -- project is put by hand, whatever the requests do and in whatever order: an index that
  -- `ForProject` then gives for the project was built from its store as it was at the `Invalidate`
  -- or later.
  pub run-invalidate :
      (c : Cache builder) (es : List (Event builder)) (idx : Index)
      → any (λ f. bytes_eq slug f.0) c.flights ≡ false
      → any is_set es ≡ false
      → (for_project builder slug (run builder es (step builder (invalidate slug) c))).0 ≡ some idx
      → Built c.version (run builder es (step builder (invalidate slug) c)).version idx
  unfolding step
  run-invalidate c es idx n s e =
      let start = step builder (invalidate slug) c in
      let fresh =
        run-IsFresh c.version es start
          (record {
            in_cache =
                λ x p. absurd (ground (arith, cached-evict c.indexes slug, bytes_eq_refl slug));
            in_flight = no_flights c.version c.version c.flights n;
            since = omega arith;
          })
          s in
      elim (Option-cases (cached builder (run builder es start).indexes slug)) [
        | inr (old, p) ↦
            fresh.in_cache idx (p ∙ sym (for_project-cached (run builder es start) p) ∙ e)
        | inl p ↦ (
          (run builder es start).version,
          fresh.since,
          omega arith,
          sym (for_project-none (run builder es start) p) ∙ e,
        )
      ]
