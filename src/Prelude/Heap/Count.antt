-- ===== src/Prelude/Heap/Count.antt =====
-- Package container/heap: its operations keep the elements.
use docsiq.Prelude.{
  ℕ, zero, suc, ◌+◌, ◌-◌, ◌/◌, ◌*◌, ◌≡◌, ◌≤◌, refl, ap, sym, ◌∙◌, Bool, none, some, List, [], ◌∷◌,
  ◌++◌, length, take, get_elem?, set, length-set, length-append, if◌then◌else◌, arith, Option-cases,
  inl, inr,
}
use docsiq.Prelude.Heap.{swap, up, child, down, init_below, push, pop}

module _ {A : Type 0} where
  -- The number of elements that pass a test.
  abbrev pub count : (A → Bool) → List A → ℕ
  count p [] = 0
  count p (x ∷ xs) = (if p x then 1 else 0) + count p xs

  pub count-append : (p : A → Bool) (xs ys : List A) → count p (xs ++ ys) ≡ count p xs + count p ys
  count-append p [] ys = omega arith
  count-append p (x ∷ xs) ys = omega (arith, count-append p xs ys)

  pub count-le-length : (p : A → Bool) (xs : List A) → count p xs ≤ length xs
  count-le-length p [] = omega arith
  count-le-length p (x ∷ xs) = ground (arith, count-le-length p xs)

  count-set :
      (p : A → Bool) (xs : List A) (i : ℕ) (v : A) {a : A}
      → get_elem? xs i ≡ some a
      → count p (set xs i v) + (if p a then 1 else 0) ≡ count p xs + (if p v then 1 else 0)
  count-set p [] i v e = absurd (cc)
  count-set p (x ∷ xs) zero v {a} e = let q : x ≡ a = cc in rw (sym q) (omega arith)
  count-set p (x ∷ xs) (suc i) v e = omega (arith, count-set p xs i v e)

  get-set_eq :
      (xs : List A) (i j : ℕ) {b : A} → get_elem? xs j ≡ some b → get_elem? (set xs i b) j ≡ some b
  get-set_eq [] i j e = e
  get-set_eq (x ∷ xs) zero zero e = refl
  get-set_eq (x ∷ xs) zero (suc j) e = e
  get-set_eq (x ∷ xs) (suc i) zero e = e
  get-set_eq (x ∷ xs) (suc i) (suc j) e = get-set_eq xs i j e

  pub count-swap : (p : A → Bool) (h : List A) (i j : ℕ) → count p (swap h i j) ≡ count p h
  count-swap p h i j = elim (Option-cases (get_elem? h i)) [
    | inl e ↦ rw (e, swap) refl
    | inr (a, e) ↦ elim (Option-cases (get_elem? h j)) [
      | inl f ↦ rw (e, f, swap) refl
      | inr (b, f) ↦
          let one = count-set p h i b e in
          let two = count-set p (set h i b) j a (get-set_eq h i j f) in
          rw (e, f, swap) (omega arith)
    ]
  ]

  pub length-swap : (h : List A) (i j : ℕ) → length (swap h i j) ≡ length h
  length-swap h i j = elim (Option-cases (get_elem? h i)) [
    | inl e ↦ rw (e, swap) refl
    | inr (a, e) ↦ elim (Option-cases (get_elem? h j)) [
      | inl f ↦ rw (e, f, swap) refl
      | inr (b, f) ↦ rw (e, f, swap) (length-set (set h i b) j a ∙ length-set h i b)
    ]
  ]

  module _ (less : A → A → Bool) where
    count-up : (p : A → Bool) (k : ℕ) (h : List A) (j : ℕ) → count p (up less k h j) ≡ count p h
    unfolding up
    count-up p zero h j = refl
    count-up p (suc k) h j =
        let i = (j - 1) / 2 in
        let rest = count-up p k (swap h i j) i ∙ count-swap p h i j in ground arith

    length-up : (k : ℕ) (h : List A) (j : ℕ) → length (up less k h j) ≡ length h
    unfolding up
    length-up zero h j = refl
    length-up (suc k) h j =
        let i = (j - 1) / 2 in
        let rest = length-up k (swap h i j) i ∙ length-swap h i j in ground arith

    count-down :
        (p : A → Bool) (k : ℕ) (h : List A) (i n : ℕ) → count p (down less k h i n) ≡ count p h
    unfolding down
    count-down p zero h i n = refl
    count-down p (suc k) h i n =
        let j = child less h (2 * i + 1) n in
        let rest = count-down p k (swap h i j) j n ∙ count-swap p h i j in ground arith

    length-down : (k : ℕ) (h : List A) (i n : ℕ) → length (down less k h i n) ≡ length h
    unfolding down
    length-down zero h i n = refl
    length-down (suc k) h i n =
        let j = child less h (2 * i + 1) n in
        let rest = length-down k (swap h i j) j n ∙ length-swap h i j in ground arith

    pub count-init : (p : A → Bool) (k : ℕ) (h : List A) → count p (init_below less k h) ≡ count p h
    unfolding init_below
    count-init p zero h = refl
    count-init p (suc i) h =
        count-init p i (down less (length h) h i (length h))
        ∙ count-down p (length h) h i (length h)

    pub length-init : (k : ℕ) (h : List A) → length (init_below less k h) ≡ length h
    unfolding init_below
    length-init zero h = refl
    length-init (suc i) h =
        length-init i (down less (length h) h i (length h)) ∙ length-down (length h) h i (length h)

    pub count-push :
        (p : A → Bool) (h : List A) (a : A)
        → count p (push less h a) ≡ count p h + (if p a then 1 else 0)
    count-push p h a =
        omega (arith, count-up p (length h) (h ++ a ∷ []) (length h), count-append p h (a ∷ []))

    pub length-push : (h : List A) (a : A) → length (push less h a) ≡ suc (length h)
    length-push h a =
        omega (arith, length-up (length h) (h ++ a ∷ []) (length h), length-append {0} h (a ∷ []))

    count-take :
        (p : A → Bool) (n : ℕ) (xs : List A) {a : A}
        → get_elem? xs n ≡ some a
        → length xs ≤ suc n
        → count p xs ≡ (if p a then 1 else 0) + count p (take n xs)
    count-take p n [] e l = absurd (cc)
    count-take p zero (x ∷ []) {a} e l = let q : x ≡ a = cc in rw (sym q) refl
    count-take p zero (x ∷ y ∷ xs) e l = absurd (omega arith)
    count-take p (suc n) (x ∷ xs) e l = omega (arith, count-take p n xs e (omega arith))

    length-take_last : (n : ℕ) (xs : List A) → length xs ≡ suc n → length (take n xs) ≡ n
    length-take_last zero xs l = refl
    length-take_last (suc n) [] l = absurd (omega arith)
    length-take_last (suc n) (x ∷ xs) l = ap suc (length-take_last n xs (omega arith))

    get_some : (n : ℕ) (xs : List A) → length xs ≡ suc n → (a : A) × (get_elem? xs n ≡ some a)
    get_some n [] l = absurd (omega arith)
    get_some zero (x ∷ xs) l = (x, refl)
    get_some (suc n) (x ∷ xs) l = get_some n xs (omega arith)

    -- A heap that is not empty gives an element, and keeps the others.
    pub pop-some :
        (x : A) (xs : List A)
        → (a : A) × (rest : List A) × (pop less (x ∷ xs) ≡ some (a, rest))
          × (length rest ≡ length xs)
          × ((p : A → Bool) → count p (x ∷ xs) ≡ (if p a then 1 else 0) + count p rest)
    unfolding pop
    pop-some x xs =
        let h = x ∷ xs in
        let n = length h - 1 in
        let moved = down less n (swap h 0 n) 0 n in
        let l = length-down n (swap h 0 n) 0 n ∙ length-swap h 0 n in
        let (a, e) = get_some n moved (omega arith) in
        (
          a,
          take n moved,
          rw (e, pop) refl,
          omega (arith, length-take_last n moved (omega arith)),
          λ p.
              let c = count-down p n (swap h 0 n) 0 n ∙ count-swap p h 0 n in
              sym c ∙ count-take p n moved e (omega arith),
        )

    pub pop-nil : pop less [] ≡ none
    unfolding pop down
    pop-nil = refl
