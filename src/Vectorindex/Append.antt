-- ===== src/Vectorindex/Append.antt =====
-- internal/vectorindex/hnsw.go: a new node, before it is linked.
use docsiq.Prelude.{
  ℕ, zero, suc, ◌<◌, ◌≡◌, refl, ap, ◌∙◌, true, not, none, some, List, [], ◌∷◌, ◌++◌, length,
  get_elem?, replicate, ltb, ◌==◌, if◌then◌else◌, arith, Bool-cases, Option-cases, inl, inr,
}
use docsiq.Prelude.Text.{Bytes}
use docsiq.Vectorindex.{Floats, HnswNode, layer_of, links, vec_of}
use docsiq.Vectorindex.Index.{has_layer, level_of, new_node}
use docsiq.Vectorindex.Links.{strays, IsLinked}
use docsiq.Vectorindex.Modify.{get-snoc, get-lt}
use docsiq.Vectorindex.Visit.{count_mono}

abbrev layer_at : List (List ℕ) → ℕ → List ℕ
layer_at ls k = elim (get_elem? ls k) [ none ↦ [] | some l ↦ l ]

empty_layers : (n k : ℕ) → layer_at (replicate n []) k ≡ []
empty_layers zero k = refl
empty_layers (suc n) zero = refl
empty_layers (suc n) (suc k) = empty_layers n k

length-replicate : {A : Type 0} (n : ℕ) (x : A) → length (replicate n x) ≡ n
length-replicate zero x = refl
length-replicate (suc n) x = ap suc (length-replicate n x)

module _ (fl : Floats) (cells : List (HnswNode fl)) (n : HnswNode fl) where
  pub links-append :
      (b k : ℕ)
      → links fl (cells ++ n ∷ []) b k
        ≡ (if b == length cells then layer_of fl n k else links fl cells b k)
  links-append b k = elim (Bool-cases (b == length cells)) [
    | inl e ↦ rw (get-snoc cells n b, e, links) refl
    | inr e ↦ rw (get-snoc cells n b, e, links) refl
  ]

  pub has_layer-append :
      (k b : ℕ)
      → has_layer fl (cells ++ n ∷ []) k b
        ≡ (if b == length cells then ltb k (length n.neighbors) else has_layer fl cells k b)
  has_layer-append k b = elim (Bool-cases (b == length cells)) [
    | inl e ↦ rw (get-snoc cells n b, e, has_layer) refl
    | inr e ↦ rw (get-snoc cells n b, e, has_layer) refl
  ]

  pub vec_of-append :
      (b : ℕ)
      → vec_of fl (cells ++ n ∷ []) b ≡ (if b == length cells then n.vec else vec_of fl cells b)
  vec_of-append b = elim (Bool-cases (b == length cells)) [
    | inl e ↦ rw (get-snoc cells n b, e, vec_of) refl
    | inr e ↦ rw (get-snoc cells n b, e, vec_of) refl
  ]

  pub level_of-append :
      (b : ℕ)
      → level_of fl (cells ++ n ∷ []) b
        ≡ (if b == length cells then n.level else level_of fl cells b)
  level_of-append b = elim (Bool-cases (b == length cells)) [
    | inl e ↦ rw (get-snoc cells n b, e, level_of) refl
    | inr e ↦ rw (get-snoc cells n b, e, level_of) refl
  ]

  has_layer-lt : (k b : ℕ) → has_layer fl cells k b ≡ true → b < length cells
  has_layer-lt k b e = elim (Option-cases (get_elem? cells b)) [
    | inl f ↦ absurd (ground (arith, e, f))
    | inr (x, f) ↦ get-lt cells b f
  ]

  has_layer-kept :
      (k b : ℕ) → has_layer fl cells k b ≡ true → has_layer fl (cells ++ n ∷ []) k b ≡ true
  has_layer-kept k b e = let lt = has_layer-lt k b e in has_layer-append k b ∙ ground (arith, e)

  -- A node without links keeps the others linked.
  pub append-IsLinked :
      (bound : ℕ → ℕ)
      → ((k : ℕ) → layer_of fl n k ≡ [])
      → IsLinked fl bound cells
      → IsLinked fl bound (cells ++ n ∷ [])
  append-IsLinked bound empty h = record {
    few = λ b k. elim (Bool-cases (b == length cells)) [
      | inl e ↦ rw (links-append b k, e, empty k) (omega arith)
      | inr e ↦ rw (links-append b k, e) (h.few b k)
    ];
    layered = λ b k. elim (Bool-cases (b == length cells)) [
      | inl e ↦ rw (links-append b k, e, empty k) refl
      | inr e ↦
          rw (links-append b k, e)
            (omega (
              arith,
              h.layered b k,
              count_mono (strays fl cells k) (strays fl (cells ++ n ∷ []) k)
                  (λ x m. elim (Bool-cases (has_layer fl cells k x)) [
                    | inl f ↦ absurd (ground (arith, m, has_layer-kept k x f))
                    | inr f ↦ ap not f
                  ])
                  (links fl cells b k),
            ))
    ];
  }

module _ (fl : Floats) (id : Bytes) (vec : List fl.F) (level : ℕ) where
  pub new_node-empty : (k : ℕ) → layer_of fl (new_node fl id vec level) k ≡ []
  new_node-empty k = empty_layers (suc level) k

  pub length-new_node : length (new_node fl id vec level).neighbors ≡ suc level
  length-new_node = length-replicate (suc level) []
