-- ===== src/Vectorindex/Links.antt =====
-- internal/vectorindex/hnsw.go: how many links a node has, and where they lead.
use docsiq.Prelude.{
  ℕ, zero, suc, ◌≤◌, ◌≡◌, refl, ap, ◌∙◌, Bool, false, not, ◌&&◌, List, [], ◌∷◌, map, length, take,
  ◌==◌, if◌then◌else◌, arith, Bool-cases, inl, inr, ==_iff,
}
use docsiq.Prelude.Heap.Count.{count}
use docsiq.Vectorindex.{Floats, HnswNode, links}
use docsiq.Vectorindex.Index.{remove_ref, modify, has_layer}
use docsiq.Vectorindex.Modify.{
  frame_of, links-modify, has_layer-modify, length-modify, frame_of-modify,
}

pub count_cong :
    {A : Type 0} (p q : A → Bool) → ((x : A) → p x ≡ q x) → (xs : List A) → count p xs ≡ count q xs
count_cong p q e [] = refl
count_cong p q e (x ∷ xs) = rw (e x) (omega (arith, count_cong p q e xs))

pub count-map :
    {A B : Type 0} (f : A → B) (p : B → Bool) (xs : List A)
    → count p (map f xs) ≡ count (λ x. p (f x)) xs
count-map f p [] = refl
count-map f p (x ∷ xs) = omega (arith, count-map f p xs)

pub count-take :
    {A : Type 0} (p : A → Bool) (n : ℕ) (xs : List A) → count p (take n xs) ≤ count p xs
count-take p zero xs = omega arith
count-take p (suc n) [] = omega arith
count-take p (suc n) (x ∷ xs) = omega (arith, count-take p n xs)

pub count-remove_ref : (p : ℕ → Bool) (xs : List ℕ) (a : ℕ) → count p (remove_ref xs a) ≤ count p xs
unfolding remove_ref
count-remove_ref p [] a = omega arith
count-remove_ref p (x ∷ xs) a = ground (arith, count-remove_ref p xs a)

pub length-remove_ref : (xs : List ℕ) (a : ℕ) → length (remove_ref xs a) ≤ length xs
unfolding remove_ref
length-remove_ref [] a = omega arith
length-remove_ref (x ∷ xs) a = ground (arith, length-remove_ref xs a)

module _ (fl : Floats) where
  open fl use {F}

  -- A link that leads to a node without the layer.
  abbrev pub strays : List (HnswNode fl) → ℕ → ℕ → Bool
  strays cells l b = not (has_layer fl cells l b)

  -- No node has more links at a layer than a bound, and all of them lead to nodes of the layer.
  pub record IsLinked (bound : ℕ → ℕ) (cells : List (HnswNode fl)) : Type 0 where
    pub few : (a l : ℕ) → length (links fl cells a l) ≤ bound l
    pub layered : (a l : ℕ) → count (strays cells l) (links fl cells a l) ≡ 0

  -- The layers of the nodes are the same.
  abbrev pub SameLayers : List (HnswNode fl) → List (HnswNode fl) → Type 0
  SameLayers old new =
      (length new ≡ length old)
      × ((l a : ℕ) → has_layer fl new l a ≡ has_layer fl old l a)
      × ((a : ℕ) → frame_of fl new a ≡ frame_of fl old a)

  -- The layers of the nodes, and the links at all layers but one, are the same.
  pub record IsKept (l : ℕ) (old new : List (HnswNode fl)) : Type 0 where
    pub size : length new ≡ length old
    pub layers : (k b : ℕ) → has_layer fl new k b ≡ has_layer fl old k b
    pub levels : (b : ℕ) → frame_of fl new b ≡ frame_of fl old b
    pub others : (b k : ℕ) → (k == l) ≡ false → links fl new b k ≡ links fl old b k

  pub IsKept-refl : (l : ℕ) (cells : List (HnswNode fl)) → IsKept l cells cells
  IsKept-refl l cells = record {
    size = refl;
    layers = λ k b. refl;
    levels = λ b. refl;
    others = λ b k e. refl;
  }

  pub IsKept-trans :
      (l : ℕ) (a b c : List (HnswNode fl)) → IsKept l a b → IsKept l b c → IsKept l a c
  IsKept-trans l a b c x y = record {
    size = y.size ∙ x.size;
    layers = λ k n. y.layers k n ∙ x.layers k n;
    levels = λ n. y.levels n ∙ x.levels n;
    others = λ n k e. y.others n k e ∙ x.others n k e;
  }

  pub modify-IsKept :
      (cells : List (HnswNode fl)) (a l : ℕ) (f : List ℕ → List ℕ)
      → IsKept l cells (modify fl cells a l f)
  modify-IsKept cells a l f = record {
    size = length-modify fl cells a l f;
    layers = has_layer-modify fl cells a l f;
    levels = frame_of-modify fl cells a l f;
    others = λ b k e. links-modify fl cells a l f b k ∙ ground arith;
  }

  module _ (bound : ℕ → ℕ) where
    -- Other links for one node at one layer, within the bound and at nodes of the layer.
    pub replace-IsLinked :
        (old new : List (HnswNode fl)) (a l : ℕ) (xs : List ℕ)
        → IsKept l old new
        → ((b : ℕ)
            → links fl new b l ≡ (if b == a && has_layer fl old l a then xs else links fl old b l))
        → IsLinked bound old
        → length xs ≤ bound l
        → count (strays old l) xs ≡ 0
        → IsLinked bound new
    replace-IsLinked old new a l xs kept change h few layered = record {
      few = λ b k. elim (Bool-cases (k == l)) [
        | inl e ↦ rw ((==_iff k l).0 e, change b) (ground (arith, h.few b l))
        | inr e ↦ rw (kept.others b k e) (h.few b k)
      ];
      layered = λ b k. elim (Bool-cases (k == l)) [
        | inl e ↦
            rw ((==_iff k l).0 e, change b)
              (count_cong (strays new l) (strays old l) (λ x. ap not (kept.layers l x))
                  (if b == a && has_layer fl old l a then xs else links fl old b l)
                ∙ ground (arith, h.layered b l))
        | inr e ↦ rw (kept.others b k e) (
            count_cong (strays new k) (strays old k) (λ x. ap not (kept.layers k x))
              (links fl old b k)
            ∙ h.layered b k)
      ];
    }

    pub modify-IsLinked :
        (cells : List (HnswNode fl)) (a l : ℕ) (f : List ℕ → List ℕ)
        → IsLinked bound cells
        → length (f (links fl cells a l)) ≤ bound l
        → count (strays cells l) (f (links fl cells a l)) ≡ 0
        → IsLinked bound (modify fl cells a l f)
    modify-IsLinked cells a l f h few layered =
        replace-IsLinked cells (modify fl cells a l f) a l (f (links fl cells a l))
          (modify-IsKept cells a l f) (λ b. links-modify fl cells a l f b l ∙ ground arith) h few
          layered
