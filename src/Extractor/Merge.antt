-- ===== src/Extractor/Merge.antt =====
-- `mergeResults`: nothing is lost, nothing is doubled.
use mathlib.Core.List.{map-append}
use docsiq.Prelude.{
  ◌≡◌, ◌↔◌, refl, sym, ap, ◌∙◌, Bool, true, false, ◌&&◌, ◌||◌, not, List, [], ◌∷◌, ◌++◌, map, any,
  arith, inl, inr, Bool-cases, append-nil, append_assoc,
}
use docsiq.Prelude.Distinct.{distinct, any-append, distinct-snoc}
use docsiq.Prelude.Text.{Bytes, bytes_eq, bytes_eq_iff}
use docsiq.Extractor.{
  Entity, Relationship, ExtractionResult, RelKey, key_eq, add_fresh, is_named, any_key, norm,
  rel_key, merge_results,
}

-- Every key of the list is unwanted or among the keys.
module _ {A K : Type 0} (key : A → K) (eq : K → K → Bool) (wanted : K → Bool) where
  abbrev pub AllKept : List A → List K → Type 0
  AllKept [] ks = Unit
  AllKept (a ∷ more) ks = ((not (wanted (key a)) || any (eq (key a)) ks) ≡ true) × AllKept more ks

module _ {A K : Type 0} (key : A → K) (eq : K → K → Bool) (wanted : K → Bool)
    (eq_iff : (a b : K) → (eq a b ≡ true) ↔ (a ≡ b)) where
  map-snoc : (xs : List A) (a : A) → map key (xs ++ a ∷ []) ≡ map key xs ++ key a ∷ []
  map-snoc [] a = refl
  map-snoc (x ∷ xs) a = ap (◌∷◌ (key x)) (map-snoc xs a)

  -- The keys seen are those of what is merged.
  abbrev Same : List K → List K → Type 0
  Same seen ks = (k : K) → any (eq k) seen ≡ any (eq k) ks

  Same-snoc : (seen ks : List K) (x : K) → Same seen ks → Same (x ∷ seen) (ks ++ x ∷ [])
  Same-snoc seen ks x h k = ground (arith, h k, any-append eq k ks (x ∷ []))

  pub add_fresh-distinct :
      (seen : List K) (merged more : List A)
      → Same seen (map key merged)
      → distinct eq (map key merged) ≡ true
      → distinct eq (map key (add_fresh key eq wanted seen merged more)) ≡ true
  unfolding add_fresh
  add_fresh-distinct seen merged [] s d = d
  add_fresh-distinct seen merged (a ∷ more) s d =
      elim (Bool-cases (wanted (key a) && not (any (eq (key a)) seen))) [
        | inl e ↦ rw e (
            add_fresh-distinct (key a ∷ seen) (merged ++ a ∷ []) more
              (rw (map-snoc merged a) (Same-snoc seen (map key merged) (key a) s))
              (rw (map-snoc merged a)
                (distinct-snoc eq eq_iff (map key merged) (key a) d (ground (arith, s (key a))))))
        | inr e ↦ rw e (add_fresh-distinct seen merged more s d)
      ]

  -- The merged list is the base and then elements of the other list.
  add_fresh-split :
      (seen : List K) (merged more : List A)
      → (new : List A) × (add_fresh key eq wanted seen merged more ≡ merged ++ new)
  unfolding add_fresh
  add_fresh-split seen merged [] = ([], sym (append-nil merged))
  add_fresh-split seen merged (a ∷ more) =
      elim (Bool-cases (wanted (key a) && not (any (eq (key a)) seen))) [
        | inl e ↦
            let (new, q) = add_fresh-split (key a ∷ seen) (merged ++ a ∷ []) more in
            (a ∷ new, rw e (q ∙ append_assoc merged (a ∷ []) new))
        | inr e ↦ let (new, q) = add_fresh-split seen merged more in (new, rw e q)
      ]

  still_there :
      (k : K) (seen : List K) (merged more : List A)
      → any (eq k) (map key merged) ≡ true
      → any (eq k) (map key (add_fresh key eq wanted seen merged more)) ≡ true
  still_there k seen merged more h =
      let (new, q) = add_fresh-split seen merged more in
      rw (q, map-append key merged new)
        (rw (any-append eq k (map key merged) (map key new), h) refl)

  last_there : (a : A) (merged : List A) → any (eq (key a)) (map key (merged ++ a ∷ [])) ≡ true
  last_there a merged =
      rw (map-snoc merged a, any-append eq (key a) (map key merged) (key a ∷ []))
        (ground (arith, eq_iff (key a) (key a)))

  skipped_there :
      (seen : List K) (merged more : List A) (a : A)
      → Same seen (map key merged)
      → (wanted (key a) && not (any (eq (key a)) seen)) ≡ false
      → (not (wanted (key a))
          || any (eq (key a)) (map key (add_fresh key eq wanted seen merged more)))
        ≡ true
  skipped_there seen merged more a s e = elim (Bool-cases (any (eq (key a)) seen)) [
    | inl f ↦ let h = still_there (key a) seen merged more (sym (s (key a)) ∙ f) in ground arith
    | inr f ↦ ground arith
  ]

  pub add_fresh-AllKept :
      (seen : List K) (merged more : List A)
      → Same seen (map key merged)
      → AllKept key eq wanted more (map key (add_fresh key eq wanted seen merged more))
  unfolding add_fresh
  add_fresh-AllKept seen merged [] s = tt
  add_fresh-AllKept seen merged (a ∷ more) s =
      elim (Bool-cases (wanted (key a) && not (any (eq (key a)) seen))) [
        | inl e ↦ rw e (
          ground (
            arith,
            still_there (key a) (key a ∷ seen) (merged ++ a ∷ []) more (last_there a merged),
          ),
          add_fresh-AllKept (key a ∷ seen) (merged ++ a ∷ []) more
              (rw (map-snoc merged a) (Same-snoc seen (map key merged) (key a) s)),
        )
        | inr e ↦ rw e (skipped_there seen merged more a s e, add_fresh-AllKept seen merged more s)
      ]

pub key_eq_iff : (a b : RelKey) → (key_eq a b ≡ true) ↔ (a ≡ b)
key_eq_iff a b =
    ground (arith, bytes_eq_iff a.src b.src, bytes_eq_iff a.tgt b.tgt, bytes_eq_iff a.pred b.pred)

-- What a merge keeps of its two results.
pub record IsMerge (to_lower : Bytes → Bytes) (base additional merged : ExtractionResult)
    : Type 0 where
  pub entities_kept : (new : List Entity) × (merged.entities ≡ base.entities ++ new)
  pub relationships_kept :
      (new : List Relationship) × (merged.relationships ≡ base.relationships ++ new)
  pub entities_added :
      AllKept
        (norm to_lower)
        bytes_eq
        is_named
        additional.entities
        (map (norm to_lower) merged.entities)
  pub relationships_added :
      AllKept
        (rel_key to_lower)
        key_eq
        any_key
        additional.relationships
        (map (rel_key to_lower) merged.relationships)

-- No two entities with the same lower-cased name, no two relationships with the same key.
pub record IsDistinct (to_lower : Bytes → Bytes) (r : ExtractionResult) : Type 0 where
  pub entities : distinct bytes_eq (map (norm to_lower) r.entities) ≡ true
  pub relationships : distinct key_eq (map (rel_key to_lower) r.relationships) ≡ true

-- A merge begins with the base, entities and relationships unchanged and in order; every entity of
-- the other result whose lower-cased name is not empty, and every one of its relationships, has its
-- key among the merged ones.
pub merge_results-IsMerge :
    (to_lower : Bytes → Bytes) (base additional : ExtractionResult)
    → IsMerge to_lower base additional (merge_results to_lower base additional)
unfolding merge_results
merge_results-IsMerge to_lower base additional = record {
  entities_kept =
      add_fresh-split (norm to_lower) bytes_eq is_named bytes_eq_iff _ base.entities
        additional.entities;
  relationships_kept =
      add_fresh-split (rel_key to_lower) key_eq any_key key_eq_iff _ base.relationships
        additional.relationships;
  entities_added =
      add_fresh-AllKept (norm to_lower) bytes_eq is_named bytes_eq_iff _ base.entities
        additional.entities (λ k. refl);
  relationships_added =
      add_fresh-AllKept (rel_key to_lower) key_eq any_key key_eq_iff _ base.relationships
        additional.relationships (λ k. refl);
}

-- A merge onto a base with no two entities of the same lower-cased name and no two relationships of
-- the same key has no two of them either, whatever the other result holds.
pub merge_results-IsDistinct :
    (to_lower : Bytes → Bytes) (base additional : ExtractionResult)
    → IsDistinct to_lower base
    → IsDistinct to_lower (merge_results to_lower base additional)
unfolding merge_results
merge_results-IsDistinct to_lower base additional d = record {
  entities =
      add_fresh-distinct (norm to_lower) bytes_eq is_named bytes_eq_iff _ base.entities
        additional.entities (λ k. refl) d.entities;
  relationships =
      add_fresh-distinct (rel_key to_lower) key_eq any_key key_eq_iff _ base.relationships
        additional.relationships (λ k. refl) d.relationships;
}
