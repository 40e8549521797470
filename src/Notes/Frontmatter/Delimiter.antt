-- ===== src/Notes/Frontmatter/Delimiter.antt =====
-- internal/notes/frontmatter.go: a line that `trimFMDelim` accepts, taken apart.
use docsiq.Prelude.{
  ℕ, ◌≡◌, refl, sym, ap, ◌∙◌, Bool, true, some, [], ◌∷◌, ◌++◌, drop_while, trim_end, ◌==◌, arith,
  inl, inr, Bool-cases, Option-cases, all, append_assoc,
}
use docsiq.Prelude.Split.{lacks}
use docsiq.Prelude.Text.{Bytes, cut_prefix_split, cut_prefix}
use docsiq.Notes.Frontmatter.{
  newline, fm_delim, is_blank, is_trailing, is_delim_line, skip_cr, need_newline, trim_fm_delim,
}

pub drop_while_split :
    (p : ℕ → Bool) (s : Bytes) → (pre : Bytes) × (all p pre ≡ true) × (s ≡ pre ++ drop_while p s)
drop_while_split p [] = ([], refl, refl)
drop_while_split p (c ∷ s) = elim (Bool-cases (p c)) [
  | inl e ↦ let (pre, h, q) = drop_while_split p s in (c ∷ pre, ground arith, ground arith)
  | inr e ↦ ([], refl, ground arith)
]

pub all_blank_trailing : (s : Bytes) → all is_blank s ≡ true → all is_trailing s ≡ true
all_blank_trailing [] h = refl
all_blank_trailing (c ∷ s) h = ground (arith, all_blank_trailing s)

pub all-append :
    (p : ℕ → Bool) (s t : Bytes) → all p s ≡ true → all p t ≡ true → all p (s ++ t) ≡ true
all-append p [] t hs ht = ht
all-append p (c ∷ s) t hs ht = ground (arith, all-append p s t)

pub newline_split :
    (t : Bytes) {r : Bytes}
    → need_newline (skip_cr t) ≡ some r
    → (w : Bytes) × (all is_trailing w ≡ true) × (t ≡ w ++ newline ∷ r)
newline_split [] h = cc
newline_split (c ∷ []) h = elim (Bool-cases (c == b'\r')) [
  | inl e ↦ ground arith
  | inr e ↦ ([], refl, ground arith)
]
newline_split (c ∷ d ∷ t) h = elim (Bool-cases (c == b'\r')) [
  | inl e ↦ (c ∷ [], ground arith, ground arith)
  | inr e ↦ ([], refl, ground arith)
]

-- A delimiter line that `trimFMDelim` accepts, taken apart.
pub trim_fm_delim_split :
    (s : Bytes) {r : Bytes}
    → trim_fm_delim s ≡ some r
    → (w : Bytes) × (all is_trailing w ≡ true) × (s ≡ (fm_delim ++ w) ++ newline ∷ r)
unfolding trim_fm_delim
trim_fm_delim_split s {r} h = elim (Option-cases (cut_prefix fm_delim s)) [
  | inl n ↦ cc (rw (n, trim_fm_delim) at h)
  | inr (t, n) ↦
      let (pre, hp, ep) = drop_while_split is_blank t in
      let (w, hw, ew) =
        newline_split (drop_while is_blank t) {r = r} (rw (n, trim_fm_delim) at h) in
      (
        pre ++ w,
        all-append is_trailing pre w (all_blank_trailing pre hp) hw,
        cut_prefix_split fm_delim s n
            ∙ ap (◌++◌ fm_delim) (ep ∙ ap (◌++◌ pre) ew ∙ sym (append_assoc pre w (newline ∷ r))),
      )
]

pub trim_end-trailing : (w : Bytes) → all is_trailing w ≡ true → trim_end is_trailing w ≡ []
trim_end-trailing [] h = refl
trim_end-trailing (c ∷ w) h = ground (arith, trim_end-trailing w)

pub delim_line_trailing :
    (w : Bytes) → all is_trailing w ≡ true → is_delim_line (fm_delim ++ w) ≡ true
unfolding is_delim_line
delim_line_trailing w h = rw (trim_end-trailing w h) refl

pub trailing_not_newline : (w : Bytes) → all is_trailing w ≡ true → lacks newline w ≡ true
trailing_not_newline [] h = refl
trailing_not_newline (c ∷ w) h = ground (arith, trailing_not_newline w)
