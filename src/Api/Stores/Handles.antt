-- ===== src/Api/Stores/Handles.antt =====
-- internal/api/stores.go: no handle is lost, and none is closed twice.
use docsiq.Prelude.{
  ℕ, suc, ◌≡◌, refl, Bool, true, false, ◌||◌, none, List, [], ◌∷◌, ◌++◌, any, map, ◌==◌, ltb, arith,
  Bool-cases, Option-cases, inl, inr, ==_iff,
}
use docsiq.Prelude.Distinct.{distinct}
use docsiq.Prelude.Text.{Bytes, bytes_eq}
use docsiq.Api.Stores.{
  ProjectStores, Call, get_call, close_call, find_store, get_or_open, get_store, close_stores, call,
  calls, new_project_stores, slugs,
}

-- The handles in the cache and those that were closed.
abbrev pub handles : ProjectStores → List ℕ
handles s = map (λ e. e.1) s.stores ++ s.closed

-- No slug has two stores; a handle is in the cache or closed exactly if it was opened; and none is
-- there twice.
pub record IsStores (s : ProjectStores) : Type 0 where
  pub one_per_slug : distinct bytes_eq (slugs s) ≡ true
  pub accounted : (h : ℕ) → any (◌==◌ h) (handles s) ≡ ltb h s.opened
  pub once : distinct ◌==◌ (handles s) ≡ true

find_store-slugs :
    (m : List (Bytes × ℕ)) (slug : Bytes)
    → find_store m slug ≡ none
    → any (bytes_eq slug) (map (λ e. e.0) m) ≡ false
unfolding find_store
find_store-slugs [] slug h = refl
find_store-slugs ((k, x) ∷ m) slug h = ground (arith, find_store-slugs m slug)

ltb-suc : (h n : ℕ) → (h == n || ltb h n) ≡ ltb h (suc n)
ltb-suc h n = ground (arith, ==_iff h n)

ltb_self : (n : ℕ) → ltb n n ≡ false
ltb_self n = ground arith

get_or_open-IsStores :
    (opens : Bool) (slug : Bytes) (s : ProjectStores)
    → IsStores s
    → IsStores (get_or_open opens slug s).1
get_or_open-IsStores opens slug s h = elim (Option-cases (find_store s.stores slug)) [
  | inr (x, e) ↦ rw (e, get_or_open) h
  | inl e ↦ elim (Bool-cases opens) [
    | inr o ↦ rw (e, o, get_or_open) h
    | inl o ↦
        rw (e, o, get_or_open)
          (record {
            one_per_slug = ground (arith, find_store-slugs s.stores slug e, h.one_per_slug);
            accounted = λ x. ground (arith, h.accounted x, ltb-suc x s.opened);
            once = ground (arith, h.once, h.accounted s.opened, ltb_self s.opened);
          })
  ]
]

call-IsStores : (c : Call) (s : ProjectStores) → IsStores s → IsStores (call c s)
unfolding call get_store close_stores
call-IsStores (get_call opens []) s h = h
call-IsStores (get_call opens (c ∷ slug)) s h = get_or_open-IsStores opens (c ∷ slug) s h
call-IsStores (close_call closes) s h = record {
  one_per_slug = refl;
  accounted = h.accounted;
  once = h.once;
}

calls-IsStores : (cs : List Call) (s : ProjectStores) → IsStores s → IsStores (calls cs s)
unfolding calls
calls-IsStores [] s h = h
calls-IsStores (c ∷ cs) s h = calls-IsStores cs (call c s) (call-IsStores c s h)

-- After any calls of `Get` and `Close` on a new cache, whichever of them fail: no slug has two open
-- stores, every handle that was opened is in the cache or was closed, and none of them is in both
-- or was closed twice.
pub calls-new-IsStores : (cs : List Call) → IsStores (calls cs new_project_stores)
calls-new-IsStores cs =
    calls-IsStores cs new_project_stores
      (record { one_per_slug = refl; accounted = λ h. ground arith; once = refl })
