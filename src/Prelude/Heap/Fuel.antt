-- ===== src/Prelude/Heap/Fuel.antt =====
-- Package container/heap: the rounds that the operations are given are enough.
use docsiq.Prelude.{
  ℕ, zero, suc, ◌+◌, ◌-◌, ◌/◌, ◌*◌, ◌≡◌, ◌≤◌, refl, Bool, true, List, leb, ◌==◌, arith, Bool-cases,
  inl, inr,
}
use docsiq.Prelude.Heap.{swap, up, child, down}

module _ {A : Type 0} (less : A → A → Bool) where
  -- As many rounds as the index has predecessors do what any more would do.
  pub up_fuel : (k m : ℕ) (h : List A) (j : ℕ) → j ≤ k → j ≤ m → up less k h j ≡ up less m h j
  unfolding up
  up_fuel zero zero h j a b = refl
  up_fuel zero (suc m) h j a b = let e : ((j - 1) / 2 == j) ≡ true = ground arith in rw (e, up) refl
  up_fuel (suc k) zero h j a b = let e : ((j - 1) / 2 == j) ≡ true = ground arith in rw (e, up) refl
  up_fuel (suc k) (suc m) h j a b = elim (Bool-cases ((j - 1) / 2 == j)) [
    | inl e ↦ rw (e, up) refl
    | inr e ↦
        let i = (j - 1) / 2 in
        let rest = up_fuel k m (swap h i j) i (ground arith) (ground arith) in ground arith
  ]

  pub down_fuel :
      (k m : ℕ) (h : List A) (i n : ℕ)
      → n ≤ k + i
      → n ≤ m + i
      → down less k h i n ≡ down less m h i n
  unfolding down
  down_fuel zero zero h i n a b = refl
  down_fuel zero (suc m) h i n a b =
      let e : leb n (2 * i + 1) ≡ true = ground arith in rw (e, down) refl
  down_fuel (suc k) zero h i n a b =
      let e : leb n (2 * i + 1) ≡ true = ground arith in rw (e, down) refl
  down_fuel (suc k) (suc m) h i n a b =
      let j = child less h (2 * i + 1) n in
      let l : 2 * i + 1 ≤ j = ground arith in
      let rest = down_fuel k m (swap h i j) j n (omega arith) (omega arith) in ground arith
