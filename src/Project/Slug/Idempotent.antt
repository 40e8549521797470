-- ===== src/Project/Slug/Idempotent.antt =====
-- `Slug` leaves a canonical slug as it is.
use docsiq.Prelude.{
  ℕ, zero, suc, ◌-◌, ◌≤◌, ◌≡◌, ◌≢◌, refl, ap, ◌∙◌, Bool, true, false, not, none, some, List, [],
  ◌∷◌, ◌++◌, map, length, drop, ltb, ◌==◌, all, drop_while, trim_end, arith, inl, inr, Bool-cases,
  All,
}
use docsiq.Prelude.Space.{is_plain, trim_space_plain}
use docsiq.Prelude.Text.{
  Bytes, codes, bytes_eq, has_prefix, has_prefix_split, contains_byte, cut_byte,
}
use docsiq.Project.Slug.{
  is_slug_byte, is_ascii, lower_byte, max_slug_len, strip_git, scp_path, drop_user, drop_port,
  unescape, unescape_or_same, cons_some, to_lower, strip_scheme, schemes, replace_non_slug,
  collapse_dashes, is_edge, cap_length, lowered, normalize, check_slug, slug, ok,
}
use docsiq.Project.Slug.Canonical.{
  single_dashes, starts_clean, ends_clean, IsTidy, IsCanonical, canonical_valid, slug-IsCanonical,
}

pub plain : (s : Bytes) → all is_slug_byte s ≡ true → all is_plain s ≡ true
plain [] h = refl
plain (c ∷ s) h = ground (arith, plain s)

no_null : (s : Bytes) → all is_slug_byte s ≡ true → contains_byte s 0 ≡ false
no_null [] h = refl
no_null (c ∷ s) h = ground (arith, no_null s)

cut_none :
    (b : ℕ) (s : Bytes) → is_slug_byte b ≡ false → all is_slug_byte s ≡ true → cut_byte s b ≡ none
unfolding cut_byte
cut_none b [] n h = refl
cut_none b (c ∷ s) n h = elim (Bool-cases (c == b)) [
  | inl e ↦ ground arith
  | inr e ↦ rw (e, cut_none b s n (ground arith))
]

all-drop : (n : ℕ) (s : Bytes) → all is_slug_byte s ≡ true → all is_slug_byte (drop n s) ≡ true
all-drop zero s h = h
all-drop (suc n) [] h = refl
all-drop (suc n) (c ∷ s) h = all-drop n s (ground arith)

not_git :
    (s : Bytes) → all is_slug_byte s ≡ true → bytes_eq (map lower_byte s) (codes ".git") ≡ false
not_git [] h = refl
not_git (c ∷ s) h = ground arith

strip_git_id : (s : Bytes) → all is_slug_byte s ≡ true → strip_git s ≡ s
unfolding strip_git
strip_git_id s h = ground (arith, not_git (drop (length s - 4) s) (all-drop (length s - 4) s h))

scp_path_id : (s : Bytes) → all is_slug_byte s ≡ true → scp_path s ≡ s
unfolding scp_path
scp_path_id s h = ground (arith, cut_none b'@' s refl h)

lower_id : (s : Bytes) → all is_slug_byte s ≡ true → (map lower_byte s ≡ s) × (is_ascii s ≡ true)
lower_id [] h = (refl, refl)
lower_id (c ∷ s) h = ground (arith, lower_id s)

all-prefix : (p r : Bytes) → all is_slug_byte (p ++ r) ≡ true → all is_slug_byte p ≡ true
all-prefix [] r h = refl
all-prefix (c ∷ p) r h = ground (arith, all-prefix p r)

no_prefix :
    (s p : Bytes) → all is_slug_byte s ≡ true → all is_slug_byte p ≡ false → has_prefix s p ≡ false
no_prefix s p h n = elim (Bool-cases (has_prefix s p)) [
  | inl e ↦ let (r, q) = has_prefix_split s p e in cc (all-prefix p r (rw q at h))
  | inr e ↦ e
]

module _ (lower : Bytes → Bytes) where
  to_lower_id : (s : Bytes) → all is_slug_byte s ≡ true → to_lower lower s ≡ s
  unfolding to_lower
  to_lower_id s h = ground (arith, lower_id s h)

  strip_scheme_id :
      (l : List Bytes) (s : Bytes)
      → All (λ p. all is_slug_byte p ≡ false) l
      → all is_slug_byte s ≡ true
      → strip_scheme lower l s ≡ s
  unfolding strip_scheme
  strip_scheme_id [] s n h = refl
  strip_scheme_id (p ∷ l) s n h =
      rw (to_lower_id s h, no_prefix s p h n.0) (strip_scheme_id l s n.1 h)

unescape_id : (s : Bytes) → all is_slug_byte s ≡ true → unescape s 0 ≡ some s
unfolding unescape cons_some
unescape_id [] h = refl
unescape_id (c ∷ []) h = ground arith
unescape_id (c ∷ a ∷ []) h = ground arith
unescape_id (c ∷ a ∷ b ∷ s) h = ground (arith, unescape_id (a ∷ b ∷ s))

replace_id : (s : Bytes) (b : Bool) → all is_slug_byte s ≡ true → replace_non_slug s b ≡ s
unfolding replace_non_slug
replace_id [] b h = refl
replace_id (c ∷ s) b h = ground (arith, replace_id s (not (is_slug_byte c)))

collapse_id : (s : Bytes) (b : Bool) → single_dashes s b ≡ true → collapse_dashes s b ≡ s
unfolding collapse_dashes
collapse_id [] b h = refl
collapse_id (c ∷ s) b h = ground (arith, collapse_id s (c == b'-'))

drop_while_id : (s : Bytes) → starts_clean s ≡ true → drop_while is_edge s ≡ s
drop_while_id [] h = refl
drop_while_id (c ∷ s) h = ground arith

trim_end_id : (s : Bytes) → ends_clean s ≡ true → trim_end is_edge s ≡ s
trim_end_id [] h = refl
trim_end_id (c ∷ []) h = ground arith
trim_end_id (c ∷ d ∷ s) h = rw (trim_end_id (d ∷ s) h)

drop_user_id : (s : Bytes) → all is_slug_byte s ≡ true → drop_user s ≡ s
unfolding drop_user
drop_user_id s h = rw (cut_none b'@' s refl h, drop_user)

drop_port_id : (s : Bytes) → all is_slug_byte s ≡ true → drop_port s ≡ s
unfolding drop_port
drop_port_id s h = rw (cut_none b':' s refl h, drop_port)

unescape_or_same_id : (s : Bytes) → all is_slug_byte s ≡ true → unescape_or_same s ≡ s
unfolding unescape_or_same
unescape_or_same_id s h = rw (unescape_id s h, unescape_or_same)

schemes_id :
    (lower : Bytes → Bytes) (s : Bytes)
    → all is_slug_byte s ≡ true
    → strip_scheme lower schemes s ≡ s
unfolding schemes
schemes_id lower s h = strip_scheme_id lower schemes s (refl, (refl, (refl, (refl, (refl, tt))))) h

lowered_id : (lower : Bytes → Bytes) (s : Bytes) → all is_slug_byte s ≡ true → lowered lower s ≡ s
unfolding lowered
lowered_id lower s h =
    ap
      (λ t.
        to_lower lower
          (unescape_or_same (drop_port (drop_user (strip_scheme lower schemes (scp_path t))))))
      (strip_git_id s h)
    ∙ ap
        (λ t.
          to_lower lower (unescape_or_same (drop_port (drop_user (strip_scheme lower schemes t)))))
        (scp_path_id s h)
    ∙ ap (λ t. to_lower lower (unescape_or_same (drop_port (drop_user t)))) (schemes_id lower s h)
    ∙ ap (λ t. to_lower lower (unescape_or_same (drop_port t))) (drop_user_id s h)
    ∙ ap (λ t. to_lower lower (unescape_or_same t)) (drop_port_id s h)
    ∙ ap (to_lower lower) (unescape_or_same_id s h)
    ∙ to_lower_id lower s h

normalize_id : (lower : Bytes → Bytes) (s : Bytes) → IsTidy s → normalize lower s ≡ s
unfolding normalize
normalize_id lower s t =
    ap
      (λ u.
        trim_end is_edge (drop_while is_edge (collapse_dashes (replace_non_slug u false) false)))
      (lowered_id lower s t.bytes)
    ∙ ap (λ u. trim_end is_edge (drop_while is_edge (collapse_dashes u false)))
        (replace_id s false t.bytes)
    ∙ ap (λ u. trim_end is_edge (drop_while is_edge u)) (collapse_id s false t.dashes)
    ∙ ap (trim_end is_edge) (drop_while_id s t.start)
    ∙ trim_end_id s t.end

cap_id : (s : Bytes) → length s ≤ max_slug_len → cap_length s ≡ s
unfolding cap_length
cap_id s h = ground arith

fits : (s : Bytes) → length s ≤ max_slug_len → ltb max_slug_len (length s) ≡ false
fits s h = ground arith

empty_test : (s : Bytes) → s ≢ [] → bytes_eq s [] ≡ false
empty_test [] h = absurd (h refl)
empty_test (c ∷ s) h = refl

-- A canonical slug is its own slug.
pub slug-canonical : (lower : Bytes → Bytes) (s : Bytes) → IsCanonical s → slug lower s ≡ ok s
unfolding slug check_slug
slug-canonical lower s k = rw (trim_space_plain s (plain s k.tidy.bytes)) (
    rw
      (
        normalize_id lower s k.tidy,
        empty_test s k.nonempty,
        no_null s k.tidy.bytes,
        fits s k.short,
        canonical_valid s k,
      )
      refl)

-- `Slug` is idempotent: the slug of a remote is its own slug.
pub slug-slug :
    (lower : Bytes → Bytes) (remote : Bytes) {s : Bytes}
    → slug lower remote ≡ ok s
    → slug lower s ≡ ok s
slug-slug lower remote {s} h = slug-canonical lower s (slug-IsCanonical lower remote h)
