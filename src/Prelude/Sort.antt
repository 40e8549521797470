-- ===== src/Prelude/Sort.antt =====
-- `sort.Strings` and its kin: a list in order under a Boolean test, by insertion.
use docsiq.Prelude.{◌∙◌, ◌↔◌}
use mathlib.Core.Bool.{Bool, true, false, ◌&&◌, ◌||◌, not}
use mathlib.Core.List.{List, [], ◌∷◌}
use mathlib.Core.Logic.{◌↔◌, inl, inr}
use mathlib.Core.Path.{◌≡◌, refl}
use native.Mathlib.Omega.{arith}
use Prim.Native.Nat.{suc}
use docsiq.Prelude.Lists.{any, length}
use docsiq.Prelude.Tests.{ltb, ◌==◌, if◌then◌else◌, Bool-cases}
use docsiq.Prelude.Distinct.{distinct}
use docsiq.Prelude.Text.{Bytes}

-- Strings are compared by their bytes.
abbrev pub bytes_lt : Bytes → Bytes → Bool
bytes_lt s [] = false
bytes_lt [] (b ∷ t) = true
bytes_lt (a ∷ s) (b ∷ t) = ltb a b || (a == b && bytes_lt s t)

module _ {A : Type 0} (lt : A → A → Bool) where
  -- Behind those that are not greater: the order of equal elements is kept.
  unfoldable pub insert : A → List A → List A
  insert a [] = a ∷ []
  insert a (x ∷ xs) = let rest = insert a xs in if lt x a then x ∷ rest else a ∷ x ∷ xs

  unfoldable pub sort : List A → List A
  sort [] = []
  sort (x ∷ xs) = insert x (sort xs)

  -- No element is less than the one before it.
  abbrev pub is_sorted : List A → Bool
  is_sorted [] = true
  is_sorted (x ∷ []) = true
  is_sorted (x ∷ y ∷ ys) = not (lt y x) && is_sorted (y ∷ ys)

  any-insert : (p : A → Bool) (a : A) (xs : List A) → any p (insert a xs) ≡ (p a || any p xs)
  unfolding insert
  any-insert p a [] = refl
  any-insert p a (x ∷ xs) = ground (arith, any-insert p a xs)

  -- Sorting keeps the elements.
  pub any-sort : (p : A → Bool) (xs : List A) → any p (sort xs) ≡ any p xs
  unfolding sort
  any-sort p [] = refl
  any-sort p (x ∷ xs) = ground (arith, any-sort p xs, any-insert p x (sort xs))

  length-insert : (a : A) (xs : List A) → length (insert a xs) ≡ suc (length xs)
  unfolding insert
  length-insert a [] = refl
  length-insert a (x ∷ xs) = ground (arith, length-insert a xs)

  pub length-sort : (xs : List A) → length (sort xs) ≡ length xs
  unfolding sort
  length-sort [] = refl
  length-sort (x ∷ xs) = ground (arith, length-sort xs, length-insert x (sort xs))

  module _ (asym : (a b : A) → lt a b ≡ true → lt b a ≡ false) where
    insert-is_sorted : (a : A) (xs : List A) → is_sorted xs ≡ true → is_sorted (insert a xs) ≡ true
    unfolding insert
    insert-is_sorted a [] h = refl
    insert-is_sorted a (x ∷ []) h = ground (arith, asym x a)
    insert-is_sorted a (x ∷ y ∷ ys) h = elim (Bool-cases (lt x a)) [
      | inr e ↦ rw (e, insert) (ground arith)
      | inl e ↦
          let k = insert-is_sorted a (y ∷ ys) (ground arith) in
          let b = asym x a e in
          elim (Bool-cases (lt y a)) [ inl f ↦ ground arith | inr f ↦ ground arith ]
    ]

    pub sort-is_sorted : (xs : List A) → is_sorted (sort xs) ≡ true
    unfolding sort
    sort-is_sorted [] = refl
    sort-is_sorted (x ∷ xs) = insert-is_sorted x (sort xs) (sort-is_sorted xs)

pub bytes_lt-asym : (s t : Bytes) → bytes_lt s t ≡ true → bytes_lt t s ≡ false
bytes_lt-asym s [] h = cc
bytes_lt-asym [] (b ∷ t) h = refl
bytes_lt-asym (a ∷ s) (b ∷ t) h = ground (arith, bytes_lt-asym s t)

module _ {K : Type 0} (lt eq : K → K → Bool) (eq_iff : (a b : K) → (eq a b ≡ true) ↔ (a ≡ b)) where
  insert-distinct :
      (k : K) (ks : List K)
      → distinct eq ks ≡ true
      → any (eq k) ks ≡ false
      → distinct eq (insert lt k ks) ≡ true
  unfolding insert
  insert-distinct k [] d n = refl
  insert-distinct k (x ∷ ks) d n =
      ground (arith, insert-distinct k ks, any-insert lt (eq x) k ks, eq_iff x k, eq_iff k x)

  pub sort-distinct : (ks : List K) → distinct eq ks ≡ true → distinct eq (sort lt ks) ≡ true
  unfolding sort
  sort-distinct [] d = d
  sort-distinct (k ∷ ks) d =
      insert-distinct k (sort lt ks) (sort-distinct ks (ground arith))
        (any-sort lt (eq k) ks ∙ ground arith)
