-- ===== src/Vectorindex/Modify.antt =====
-- internal/vectorindex/hnsw.go: what a change of one node's links changes.
use docsiq.Prelude.{
  ℕ, zero, suc, ◌<◌, ◌≡◌, refl, ap, sym, ◌∙◌, ◌&&◌, none, some, List, [], ◌∷◌, ◌++◌, length,
  length-set, get_elem?, set, ltb, ◌==◌, if◌then◌else◌, arith, Bool-cases, Option-cases, inl, inr,
  ==_iff,
}
use docsiq.Vectorindex.{Floats, HnswNode, layer_of, links, vec_of}
use docsiq.Vectorindex.Index.{modify_layer, modify, has_layer, level_of}

module _ {A : Type 0} where
  pub get-set :
      (xs : List A) (i j : ℕ) (v : A) {a : A}
      → get_elem? xs i ≡ some a
      → get_elem? (set xs i v) j ≡ (if j == i then some v else get_elem? xs j)
  get-set [] i j v e = absurd (cc)
  get-set (x ∷ xs) zero zero v e = refl
  get-set (x ∷ xs) zero (suc j) v e = ground arith
  get-set (x ∷ xs) (suc i) zero v e = ground arith
  get-set (x ∷ xs) (suc i) (suc j) v e = ground (arith, get-set xs i j v e)

  pub get-snoc :
      (xs : List A) (v : A) (i : ℕ)
      → get_elem? (xs ++ v ∷ []) i ≡ (if i == length xs then some v else get_elem? xs i)
  get-snoc [] v zero = refl
  get-snoc [] v (suc i) = ground arith
  get-snoc (x ∷ xs) v zero = ground arith
  get-snoc (x ∷ xs) v (suc i) = ground (arith, get-snoc xs v i)

  pub get-lt : (xs : List A) (i : ℕ) {a : A} → get_elem? xs i ≡ some a → i < length xs
  get-lt [] i e = absurd (cc)
  get-lt (x ∷ xs) zero e = omega arith
  get-lt (x ∷ xs) (suc i) e = omega (arith, get-lt xs i e)

  pub get-below : (xs : List A) (i : ℕ) → i < length xs → (a : A) × (get_elem? xs i ≡ some a)
  get-below [] i h = absurd (omega arith)
  get-below (x ∷ xs) zero h = (x, refl)
  get-below (x ∷ xs) (suc i) h = get-below xs i (omega arith)

abbrev layer : List (List ℕ) → ℕ → List ℕ
layer ls k = elim (get_elem? ls k) [ none ↦ [] | some l ↦ l ]

layer-modify_layer :
    (ls : List (List ℕ)) (l k : ℕ) (f : List ℕ → List ℕ)
    → layer (modify_layer ls l f) k
      ≡ (if k == l && ltb l (length ls) then f (layer ls l) else layer ls k)
unfolding modify_layer
layer-modify_layer [] l k f = ground arith
layer-modify_layer (x ∷ ls) zero zero f = ground arith
layer-modify_layer (x ∷ ls) zero (suc k) f = ground arith
layer-modify_layer (x ∷ ls) (suc l) zero f = ground arith
layer-modify_layer (x ∷ ls) (suc l) (suc k) f = layer-modify_layer ls l k f ∙ ground arith

length-modify_layer :
    (ls : List (List ℕ)) (l : ℕ) (f : List ℕ → List ℕ) → length (modify_layer ls l f) ≡ length ls
unfolding modify_layer
length-modify_layer [] l f = refl
length-modify_layer (x ∷ ls) zero f = refl
length-modify_layer (x ∷ ls) (suc l) f = ap suc (length-modify_layer ls l f)

-- What stays of a node where its links change: its level and its vector.
abbrev pub frame_of : (fl : Floats) → List (HnswNode fl) → ℕ → ℕ × List fl.F
frame_of fl cells a = (level_of fl cells a, vec_of fl cells a)

module _ (fl : Floats) (cells : List (HnswNode fl)) (a l : ℕ) (f : List ℕ → List ℕ) where
  pub length-modify : length (modify fl cells a l f) ≡ length cells
  unfolding modify
  length-modify = elim (Option-cases (get_elem? cells a)) [
    | inl e ↦ rw (e, modify) refl
    | inr (n, e) ↦
        rw (e, modify) (length-set cells a (record n { neighbors = modify_layer n.neighbors l f }))
  ]

  -- A node after the change: the same but for its links.
  get-modify :
      (b : ℕ) (n : HnswNode fl)
      → get_elem? cells a ≡ some n
      → get_elem? (modify fl cells a l f) b ≡ (
          if b == a
          then some (record n { neighbors = modify_layer n.neighbors l f })
          else get_elem? cells b)
  unfolding modify
  get-modify b n e =
      rw (e, modify) (get-set cells a b (record n { neighbors = modify_layer n.neighbors l f }) e)

  modify-none : get_elem? cells a ≡ none → modify fl cells a l f ≡ cells
  unfolding modify
  modify-none e = rw (e, modify) refl

  level_of-modify : (b : ℕ) → level_of fl (modify fl cells a l f) b ≡ level_of fl cells b
  level_of-modify b = elim (Option-cases (get_elem? cells a)) [
    | inl e ↦ rw (modify-none e) refl
    | inr (n, e) ↦ elim (Bool-cases (b == a)) [
      | inl p ↦
          let q : b ≡ a = (==_iff b a).0 p in
          rw (get-modify b n e, p, level_of) (sym (rw (q, e, level_of) refl))
      | inr p ↦ rw (get-modify b n e, p, level_of) refl
    ]
  ]

  vec_of-modify : (b : ℕ) → vec_of fl (modify fl cells a l f) b ≡ vec_of fl cells b
  vec_of-modify b = elim (Option-cases (get_elem? cells a)) [
    | inl e ↦ rw (modify-none e) refl
    | inr (n, e) ↦ elim (Bool-cases (b == a)) [
      | inl p ↦
          let q : b ≡ a = (==_iff b a).0 p in
          rw (get-modify b n e, p, vec_of) (sym (rw (q, e, vec_of) refl))
      | inr p ↦ rw (get-modify b n e, p, vec_of) refl
    ]
  ]

  pub frame_of-modify : (b : ℕ) → frame_of fl (modify fl cells a l f) b ≡ frame_of fl cells b
  frame_of-modify b =
      ap (λ x. (x, vec_of fl (modify fl cells a l f) b)) (level_of-modify b)
      ∙ ap (λ v. (level_of fl cells b, v)) (vec_of-modify b)

  pub has_layer-modify :
      (k b : ℕ) → has_layer fl (modify fl cells a l f) k b ≡ has_layer fl cells k b
  has_layer-modify k b = elim (Option-cases (get_elem? cells a)) [
    | inl e ↦ rw (modify-none e) refl
    | inr (n, e) ↦ elim (Bool-cases (b == a)) [
      | inl p ↦
          let q : b ≡ a = (==_iff b a).0 p in
          rw (get-modify b n e, p, has_layer)
            (sym (rw (q, e, has_layer) (ap (ltb k) (sym (length-modify_layer n.neighbors l f)))))
      | inr p ↦ rw (get-modify b n e, p, has_layer) refl
    ]
  ]

  pub links-modify :
      (b k : ℕ)
      → links fl (modify fl cells a l f) b k ≡ (
          if b == a && k == l && has_layer fl cells l a
          then f (links fl cells a l)
          else links fl cells b k)
  links-modify b k = elim (Option-cases (get_elem? cells a)) [
    | inl e ↦ rw (modify-none e, e, has_layer) (ground arith)
    | inr (n, e) ↦ elim (Bool-cases (b == a)) [
      | inl p ↦
          let q : b ≡ a = (==_iff b a).0 p in
          let same : links fl cells b k ≡ layer_of fl n k = rw (q, e, links) refl in
          rw (get-modify b n e, p, links, e, has_layer, same) (layer-modify_layer n.neighbors l k f)
      | inr p ↦ rw (get-modify b n e, p, links) refl
    ]
  ]
