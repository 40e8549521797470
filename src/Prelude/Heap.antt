-- ===== src/Prelude/Heap.antt =====
-- Package container/heap on a slice: `Init`, `Push` and `Pop` with `up` and `down`, for a `Less` on
-- the elements.
use docsiq.Prelude.{
  ℕ, zero, suc, ◌+◌, ◌-◌, ◌*◌, ◌/◌, ◌≡◌, Bool, true, false, not, ◌&&◌, Option, none, some, List, [],
  ◌∷◌, ◌++◌, length, take, get_elem?, set, ltb, leb, ◌==◌, if◌then◌else◌,
}
pub mod Count
pub mod Fuel

module _ {A : Type 0} where
  -- `Swap`; the indices of the package are in range.
  abbrev pub swap : List A → ℕ → ℕ → List A
  swap h i j = elim (get_elem? h i) [
    | none ↦ h
    | some a ↦ elim (get_elem? h j) [ none ↦ h | some b ↦ set (set h i b) j a ]
  ]

  module _ (less : A → A → Bool) where
    -- `h.Less(i, j)`
    abbrev pub less_at : List A → ℕ → ℕ → Bool
    less_at h i j = elim (get_elem? h i) [
      | none ↦ false
      | some a ↦ elim (get_elem? h j) [ none ↦ false | some b ↦ less a b ]
    ]

    -- `up(h, j)`: each round at least halves the index.
    unfoldable pub up : ℕ → List A → ℕ → List A
    up zero h j = h
    up (suc n) h j =
        let i = (j - 1) / 2 in
        let rest = up n (swap h i j) i in if i == j then h else if less_at h j i then rest else h

    -- The smaller child of an index, from the one at `j1`.
    abbrev pub child : List A → ℕ → ℕ → ℕ
    child h j1 n = if ltb (j1 + 1) n && less_at h (j1 + 1) j1 then j1 + 1 else j1

    -- `down(h, i, n)`: each round at least doubles the index.
    unfoldable pub down : ℕ → List A → ℕ → ℕ → List A
    down zero h i n = h
    down (suc k) h i n =
        let j = child h (2 * i + 1) n in
        let rest = down k (swap h i j) j n in
        if leb n (2 * i + 1) then h else if less_at h j i then rest else h

    -- The loop of `Init`, for the indices below one.
    unfoldable pub init_below : ℕ → List A → List A
    init_below zero h = h
    init_below (suc i) h = init_below i (down (length h) h i (length h))

    abbrev pub init : List A → List A
    init h = init_below (length h / 2) h

    abbrev pub push : List A → A → List A
    push h a = up (length h) (h ++ a ∷ []) (length h)

    -- `Pop` of a heap; `none` where it is empty.
    unfoldable pub pop : List A → Option (A × List A)
    pop h =
        let n = length h - 1 in
        let moved = down n (swap h 0 n) 0 n in
        elim (get_elem? moved n) [ none ↦ none | some a ↦ some (a, take n moved) ]
