-- ===== src/Prelude/Distinct.antt =====
-- Lists without repetition, up to a Boolean equality of keys.
use mathlib.Core.Bool.{Bool, true, false, ◌&&◌, ◌||◌, not}
use mathlib.Core.List.{List, [], ◌∷◌, ◌++◌}
use mathlib.Core.Logic.{◌↔◌}
use mathlib.Core.Path.{◌≡◌, refl}
use native.Mathlib.Omega.{arith}
use docsiq.Prelude.Lists.{any}

module _ {K : Type 0} (eq : K → K → Bool) where
  -- No two elements with the same key.
  abbrev pub distinct : List K → Bool
  distinct [] = true
  distinct (k ∷ ks) = not (any (eq k) ks) && distinct ks

  pub any-append :
      (k : K) (xs ys : List K) → any (eq k) (xs ++ ys) ≡ (any (eq k) xs || any (eq k) ys)
  any-append k [] ys = refl
  any-append k (x ∷ xs) ys = ground (arith, any-append k xs ys)

module _ {K : Type 0} (eq : K → K → Bool) (eq_iff : (a b : K) → (eq a b ≡ true) ↔ (a ≡ b)) where
  pub distinct-snoc :
      (ks : List K) (k : K)
      → distinct eq ks ≡ true
      → any (eq k) ks ≡ false
      → distinct eq (ks ++ k ∷ []) ≡ true
  distinct-snoc [] k d n = refl
  distinct-snoc (x ∷ ks) k d n =
      ground (arith, distinct-snoc ks k, any-append eq x ks (k ∷ []), eq_iff x k, eq_iff k x)
