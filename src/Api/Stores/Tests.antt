-- ===== src/Api/Stores/Tests.antt =====
-- Two projects, one of which does not open at first, and a close.
use docsiq.Prelude.{◌≡◌, refl, true, false, List, [], ◌∷◌, ◌==◌}
use docsiq.Prelude.Text.{codes}
use docsiq.Api.Stores.{
  find_store, get_store, call, Call, get_call, close_call, calls, new_project_stores, close_stores,
}
use docsiq.Api.Stores.Handles.{IsStores, calls-new-IsStores}

abbrev some_calls : List Call
some_calls =
    get_call false (codes "a")
    ∷ get_call true (codes "b")
    ∷ get_call true (codes "a")
    ∷ get_call true (codes "b")
    ∷ close_call (λ h. h == 1)
    ∷ get_call true (codes "a")
    ∷ []

calls-new-IsStores_example : IsStores (calls some_calls new_project_stores)
calls-new-IsStores_example = calls-new-IsStores some_calls

reopened :
    calls some_calls new_project_stores
    ≡ record { stores = (codes "a", 2) ∷ []; opened = 3; closed = 1 ∷ 0 ∷ [] }
unfolding calls call get_store find_store close_stores
reopened = refl
