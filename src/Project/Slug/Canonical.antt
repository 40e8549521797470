-- ===== src/Project/Slug/Canonical.antt =====
-- What `Slug` returns is a canonical slug.
use docsiq.Prelude.{
  ℕ, zero, suc, ◌≤◌, ◌≡◌, ◌≢◌, refl, Bool, true, false, ◌&&◌, not, [], ◌∷◌, length, take, ltb, ◌==◌,
  all, drop_while, trim_end, arith, inl, inr, Bool-cases, List-cases, length-take-le,
  length-trim_end,
}
use docsiq.Prelude.Text.{Bytes, bytes_eq, bytes_eq_iff}
use docsiq.Prelude.Space.{trim_space}
use docsiq.Project.Slug.{
  max_slug_len, is_slug_byte, is_forbidden, contains_any, slug_valid, is_valid_slug, ok, err,
  produced_invalid, replace_non_slug, collapse_dashes, is_edge, lowered, cap_length, normalize,
  slug,
}

-- No two dashes side by side; the flag tells whether a dash stands before the text.
abbrev pub single_dashes : Bytes → Bool → Bool
single_dashes [] after_dash = true
single_dashes (c ∷ s) after_dash = not (after_dash && c == b'-') && single_dashes s (c == b'-')

abbrev pub starts_clean : Bytes → Bool
starts_clean [] = true
starts_clean (c ∷ s) = not (is_edge c)

abbrev pub ends_clean : Bytes → Bool
ends_clean [] = true
ends_clean (c ∷ []) = not (is_edge c)
ends_clean (c ∷ d ∷ s) = ends_clean (d ∷ s)

-- Slug bytes only, with dashes and underscores inside and no two dashes side by side.
pub record IsTidy (s : Bytes) : Type 0 where
  pub bytes : all is_slug_byte s ≡ true
  pub dashes : single_dashes s false ≡ true
  pub start : starts_clean s ≡ true
  pub end : ends_clean s ≡ true

pub record IsCanonical (s : Bytes) : Type 0 where
  pub tidy : IsTidy s
  pub nonempty : s ≢ []
  pub short : length s ≤ max_slug_len

replace-all : (s : Bytes) (b : Bool) → all is_slug_byte (replace_non_slug s b) ≡ true
unfolding replace_non_slug
replace-all [] b = refl
replace-all (c ∷ s) b = ground (arith, replace-all s (not (is_slug_byte c)))

collapse-all :
    (s : Bytes) (b : Bool)
    → all is_slug_byte s ≡ true
    → all is_slug_byte (collapse_dashes s b) ≡ true
unfolding collapse_dashes
collapse-all [] b h = refl
collapse-all (c ∷ s) b h = ground (arith, collapse-all s (c == b'-'))

collapse-single : (s : Bytes) (b : Bool) → single_dashes (collapse_dashes s b) b ≡ true
unfolding collapse_dashes
collapse-single [] b = refl
collapse-single (c ∷ s) b = elim (Bool-cases (c == b'-')) [
  | inl e ↦ ground (arith, collapse-single s true)
  | inr e ↦ ground (arith, collapse-single s false)
]

single_weaken : (s : Bytes) (b : Bool) → single_dashes s b ≡ true → single_dashes s false ≡ true
single_weaken [] b h = refl
single_weaken (c ∷ s) b h = ground arith

single-drop_while :
    (p : ℕ → Bool) (s : Bytes) (b : Bool)
    → single_dashes s b ≡ true
    → single_dashes (drop_while p s) false ≡ true
single-drop_while p [] b h = refl
single-drop_while p (c ∷ s) b h =
    ground (arith, single-drop_while p s (c == b'-'), single_weaken (c ∷ s) b)

all-drop_while : (p q : ℕ → Bool) (s : Bytes) → all q s ≡ true → all q (drop_while p s) ≡ true
all-drop_while p q [] h = refl
all-drop_while p q (c ∷ s) h = ground (arith, all-drop_while p q s)

starts-drop_while : (s : Bytes) → starts_clean (drop_while is_edge s) ≡ true
starts-drop_while [] = refl
starts-drop_while (c ∷ s) = ground (arith, starts-drop_while s)

single-trim_end :
    (s : Bytes) (b : Bool) → single_dashes s b ≡ true → single_dashes (trim_end is_edge s) b ≡ true
single-trim_end [] b h = refl
single-trim_end (c ∷ s) b h = elim (List-cases (trim_end is_edge s)) [
  | inl e ↦ ground (arith, single-trim_end s (c == b'-'))
  | inr (d, t, e) ↦ ground (arith, single-trim_end s (c == b'-'))
]

all-trim_end : (q : ℕ → Bool) (s : Bytes) → all q s ≡ true → all q (trim_end is_edge s) ≡ true
all-trim_end q [] h = refl
all-trim_end q (c ∷ s) h = elim (List-cases (trim_end is_edge s)) [
  | inl e ↦ ground (arith, all-trim_end q s)
  | inr (d, t, e) ↦ ground (arith, all-trim_end q s)
]

starts-trim_end : (s : Bytes) → starts_clean s ≡ true → starts_clean (trim_end is_edge s) ≡ true
starts-trim_end [] h = refl
starts-trim_end (c ∷ s) h = elim (List-cases (trim_end is_edge s)) [
  | inl e ↦ ground arith
  | inr (d, t, e) ↦ ground arith
]

ends-trim_end : (s : Bytes) → ends_clean (trim_end is_edge s) ≡ true
ends-trim_end [] = refl
ends-trim_end (c ∷ s) = elim (List-cases (trim_end is_edge s)) [
  | inl e ↦ ground arith
  | inr (d, t, e) ↦ ground (arith, ends-trim_end s)
]

trim_end-ne-nil : (s : Bytes) → s ≢ [] → starts_clean s ≡ true → trim_end is_edge s ≢ []
trim_end-ne-nil [] n h = n
trim_end-ne-nil (c ∷ s) n h = elim (List-cases (trim_end is_edge s)) [
  | inl e ↦ ground arith
  | inr (d, t, e) ↦ ground arith
]

single-take :
    (n : ℕ) (s : Bytes) (b : Bool) → single_dashes s b ≡ true → single_dashes (take n s) b ≡ true
single-take zero s b h = refl
single-take (suc n) [] b h = refl
single-take (suc n) (c ∷ s) b h = ground (arith, single-take n s (c == b'-'))

all-take : (q : ℕ → Bool) (n : ℕ) (s : Bytes) → all q s ≡ true → all q (take n s) ≡ true
all-take q zero s h = refl
all-take q (suc n) [] h = refl
all-take q (suc n) (c ∷ s) h = ground (arith, all-take q n s)

starts-take : (n : ℕ) (s : Bytes) → starts_clean s ≡ true → starts_clean (take n s) ≡ true
starts-take zero s h = refl
starts-take (suc n) [] h = refl
starts-take (suc n) (c ∷ s) h = h

trimmed-IsTidy :
    (t : Bytes)
    → all is_slug_byte t ≡ true
    → IsTidy (trim_end is_edge (drop_while is_edge (collapse_dashes t false)))
trimmed-IsTidy t h =
    let u = collapse_dashes t false in
    let v = drop_while is_edge u in
    record {
      bytes =
          all-trim_end is_slug_byte v
            (all-drop_while is_edge is_slug_byte u (collapse-all t false h));
      dashes =
          single-trim_end v false (single-drop_while is_edge u false (collapse-single t false));
      start = starts-trim_end v (starts-drop_while u);
      end = ends-trim_end v;
    }

pub normalize-IsTidy : (lower : Bytes → Bytes) (raw : Bytes) → IsTidy (normalize lower raw)
unfolding normalize
normalize-IsTidy lower raw =
    trimmed-IsTidy (replace_non_slug (lowered lower raw) false)
      (replace-all (lowered lower raw) false)

ne_of_test : (s : Bytes) → bytes_eq s [] ≡ false → s ≢ []
ne_of_test [] h e = cc
ne_of_test (c ∷ s) h e = cc

capped :
    (n : ℕ) (s : Bytes)
    → s ≢ []
    → suc n ≤ max_slug_len
    → IsTidy s
    → IsCanonical (trim_end is_edge (take (suc n) s))
capped n [] ne le t = absurd (ne refl)
capped n (c ∷ s) ne le t =
    let v = take (suc n) (c ∷ s) in
    record {
      tidy = record {
        bytes = all-trim_end is_slug_byte v (all-take is_slug_byte (suc n) (c ∷ s) t.bytes);
        dashes = single-trim_end v false (single-take (suc n) (c ∷ s) false t.dashes);
        start = starts-trim_end v t.start;
        end = ends-trim_end v;
      };
      nonempty = trim_end-ne-nil v (λ e. cc) t.start;
      short = omega (arith, length-trim_end is_edge v, length-take-le (suc n) (c ∷ s));
    }

cap-IsCanonical : (s : Bytes) → s ≢ [] → IsTidy s → IsCanonical (cap_length s)
unfolding cap_length
cap-IsCanonical s n t = elim (Bool-cases (ltb max_slug_len (length s))) [
  | inl e ↦ rw e (capped 199 s n (omega arith) t)
  | inr e ↦ rw e (record { tidy = t; nonempty = n; short = ground arith })
]

pub canonical_valid : (s : Bytes) → IsCanonical s → slug_valid s ≡ true
unfolding slug_valid
canonical_valid [] k = absurd (k.nonempty refl)
canonical_valid (c ∷ s) k = k.tidy.bytes

-- `Slug` refuses exactly the remotes that are blank, that hold a NUL byte behind the white space at
-- their ends, or that normalise to nothing: its last check, for an invalid product, never fails.
pub slug-ne-produced_invalid :
    (lower : Bytes → Bytes) (remote : Bytes) → slug lower remote ≢ err produced_invalid
unfolding slug
slug-ne-produced_invalid lower remote =
    elim (Bool-cases (bytes_eq (normalize lower (trim_space remote)) [])) [
      | inl e ↦ ground arith
      | inr e ↦
          let k = canonical_valid _ (
            cap-IsCanonical (normalize lower (trim_space remote))
              (ne_of_test (normalize lower (trim_space remote)) e)
              (normalize-IsTidy lower (trim_space remote))) in
          ground arith
    ]

-- A slug that `Slug` returns is canonical: not empty, at most 200 bytes, of slug bytes only, with no
-- dash or underscore at its ends and no two dashes side by side.
pub slug-IsCanonical :
    (lower : Bytes → Bytes) (remote : Bytes) {s : Bytes} → slug lower remote ≡ ok s → IsCanonical s
unfolding slug
slug-IsCanonical lower remote {s} h =
    elim (Bool-cases (bytes_eq (normalize lower (trim_space remote)) [])) [
      | inl e ↦ absurd (ground arith)
      | inr e ↦
          let k =
            cap-IsCanonical (normalize lower (trim_space remote))
              (ne_of_test (normalize lower (trim_space remote)) e)
              (normalize-IsTidy lower (trim_space remote)) in
          let q : cap_length (normalize lower (trim_space remote)) ≡ s = ground arith in rw (← q) k
    ]

no_forbidden : (s : Bytes) → all is_slug_byte s ≡ true → contains_any is_forbidden s ≡ false
unfolding contains_any is_forbidden
no_forbidden [] h = refl
no_forbidden (c ∷ s) h = ground (arith, no_forbidden s)

pub canonical_IsValidSlug : (s : Bytes) → IsCanonical s → is_valid_slug s ≡ true
unfolding is_valid_slug
canonical_IsValidSlug s k =
    ground (arith, no_forbidden s k.tidy.bytes, canonical_valid s k, bytes_eq_iff s [])

-- Every slug that `Slug` returns passes `IsValidSlug`.
pub is_valid_slug-slug :
    (lower : Bytes → Bytes) (remote : Bytes) {s : Bytes}
    → slug lower remote ≡ ok s
    → is_valid_slug s ≡ true
is_valid_slug-slug lower remote {s} h = canonical_IsValidSlug s (slug-IsCanonical lower remote h)
