-- ===== src/Prelude/FilePath/Clean.antt =====
-- Clean rooted paths, and what Abs and Join make of them.
use docsiq.Prelude.FilePath.{go_up, is_skipped, is_dot_dot, clean_segments, clean, file_join, abs}
use docsiq.Prelude.Lists.{All, All-append}
use docsiq.Prelude.Split.{split, split-append, split-lacks, split-join, join, lacks}
use docsiq.Prelude.Tests.{◌==◌, Bool-cases}
use docsiq.Prelude.Text.{Bytes, bytes_eq_iff}
use Prim.Native.Nat.{ℕ}
use mathlib.Core.Bool.{Bool, true, false}
use mathlib.Core.List.{
  List, [], ◌∷◌, ◌++◌, reverse, reverse-cons, reverse-append, reverse-reverse, append_assoc,
  append-nil,
}
use mathlib.Core.Logic.{◌≢◌, inl, inr}
use mathlib.Core.Option.{some}
use mathlib.Core.Path.{ap₂, ◌≡◌, refl, ap, ◌∙◌, sym}
use native.Mathlib.Omega.{arith}

-- A path element that names an entry of its directory.
abbrev pub IsName : Bytes → Type 0
IsName seg = (seg ≢ []) × (seg ≢ b'.' ∷ []) × (seg ≢ b'.' ∷ b'.' ∷ [])

abbrev pub IsElement : Bytes → Type 0
IsElement seg = IsName seg × (lacks b'/' seg ≡ true)

-- A rooted path of such elements.
abbrev pub rooted : List Bytes → Bytes
rooted segs = b'/' ∷ join b'/' segs

name_tests : (seg : Bytes) → IsName seg → (is_skipped seg ≡ false) × (is_dot_dot seg ≡ false)
name_tests seg h =
    ground (
      arith,
      bytes_eq_iff seg [],
      bytes_eq_iff seg (b'.' ∷ []),
      bytes_eq_iff seg (b'.' ∷ b'.' ∷ []),
    )

tests-IsName : (seg : Bytes) → is_skipped seg ≡ false → is_dot_dot seg ≡ false → IsName seg
tests-IsName seg h k =
    ground (
      arith,
      bytes_eq_iff seg [],
      bytes_eq_iff seg (b'.' ∷ []),
      bytes_eq_iff seg (b'.' ∷ b'.' ∷ []),
    )

clean_name :
    (r : Bool) (seg : Bytes) (segs stack : List Bytes)
    → IsName seg
    → clean_segments r stack (seg ∷ segs) ≡ clean_segments r (seg ∷ stack) segs
unfolding clean_segments
clean_name r seg segs stack h = let (s, d) = name_tests seg h in rw (s, d)

-- Names are pushed one by one.
clean_segments_names :
    (r : Bool) (segs rest stack : List Bytes)
    → All IsElement segs
    → clean_segments r stack (segs ++ rest) ≡ clean_segments r (reverse segs ++ stack) rest
clean_segments_names r [] rest stack h = refl
clean_segments_names r (seg ∷ segs) rest stack h =
    clean_name r seg (segs ++ rest) stack h.0.0
    ∙ clean_segments_names r segs rest (seg ∷ stack) h.1
    ∙ ap (λ l. clean_segments r l rest)
        (sym (append_assoc (reverse segs) (seg ∷ []) stack)
          ∙ ap (λ l. l ++ stack) (sym (reverse-cons seg segs)))

-- In a rooted path only names are kept.
clean_segments-All :
    (segs stack : List Bytes)
    → All (λ p. lacks b'/' p ≡ true) segs
    → All IsElement stack
    → All IsElement (clean_segments true stack segs)
unfolding clean_segments
clean_segments-All [] stack f h = h
clean_segments-All (seg ∷ segs) stack f h = elim (Bool-cases (is_skipped seg)) [
  | inl s ↦ rw s (clean_segments-All segs stack f.1 h)
  | inr s ↦ elim (Bool-cases (is_dot_dot seg)) [
    | inl d ↦ rw (s, d) (clean_segments-All segs _ f.1 (up stack h))
    | inr d ↦ rw (s, d) (clean_segments-All segs (seg ∷ stack) f.1 ((tests-IsName seg s d, f.0), h))
  ]
]
  where
    up : (st : List Bytes) → All IsElement st → All IsElement (go_up true st)
    up [] h = tt
    up (top ∷ st) h = rw ((name_tests top h.0.0).1) h.1

clean_nil : (r : Bool) (stack : List Bytes) → clean_segments r stack [] ≡ stack
unfolding clean_segments
clean_nil r stack = refl

clean_empty :
    (r : Bool) (segs stack : List Bytes)
    → clean_segments r stack ([] ∷ segs) ≡ clean_segments r stack segs
unfolding clean_segments
clean_empty r segs stack = refl

-- The segments of a joined list of names are pushed like the names, also if there are none.
clean_join :
    (segs rest stack : List Bytes)
    → All IsElement segs
    → clean_segments true stack (split b'/' (join b'/' segs) ++ rest)
      ≡ clean_segments true (reverse segs ++ stack) rest
clean_join [] rest stack h = unfold split join in clean_empty true rest stack
clean_join (seg ∷ segs) rest stack h =
    ap (λ l. clean_segments true stack (l ++ rest))
      (split-join b'/' seg segs (free_all (seg ∷ segs) h))
    ∙ clean_segments_names true (seg ∷ segs) rest stack h
  where
    free_all : (l : List Bytes) → All IsElement l → All (λ p. lacks b'/' p ≡ true) l
    free_all [] h = tt
    free_all (x ∷ l) h = (h.0.1, free_all l h.1)

All-reverse : (l : List Bytes) → All IsElement l → All IsElement (reverse l)
All-reverse [] h = tt
All-reverse (x ∷ l) h =
    rw (reverse-cons x l) (All-append IsElement (reverse l) (x ∷ []) (All-reverse l h.1) (h.0, tt))

clean_rooted_lem :
    (s : Bytes) → clean (b'/' ∷ s) ≡ rooted (reverse (clean_segments true [] (split b'/' s)))
unfolding clean clean_segments split
clean_rooted_lem s = refl

-- A clean rooted path is cleaned to itself.
pub clean-rooted : (segs : List Bytes) → All IsElement segs → clean (rooted segs) ≡ rooted segs
clean-rooted segs h =
    clean_rooted_lem (join b'/' segs)
    ∙ ap (λ l. rooted (reverse (clean_segments true [] l)))
        (sym (append-nil (split b'/' (join b'/' segs))))
    ∙ ap (λ l. rooted (reverse l)) (clean_join segs [] [] h)
    ∙ ap (λ l. rooted (reverse l)) (clean_nil true (reverse segs ++ []) ∙ append-nil (reverse segs))
    ∙ ap rooted (reverse-reverse segs)

-- Whatever rooted path is cleaned, the result is rooted and made of names.
pub clean_is_rooted :
    (s : Bytes) → (segs : List Bytes) × All IsElement segs × (clean (b'/' ∷ s) ≡ rooted segs)
clean_is_rooted s = (
  reverse (clean_segments true [] (split b'/' s)),
  All-reverse _ (clean_segments-All (split b'/' s) [] (split-lacks b'/' s) tt),
  clean_rooted_lem s,
)

-- A clean rooted path joined with a relative path of names.
pub join-rooted :
    (segs : List Bytes) (c : ℕ) (rel : Bytes)
    → All IsElement segs
    → All IsElement (split b'/' (c ∷ rel))
    → file_join (rooted segs) (c ∷ rel) ≡ rooted (segs ++ split b'/' (c ∷ rel))
unfolding file_join
join-rooted segs c rel h k =
    clean_rooted_lem (join b'/' segs ++ b'/' ∷ (c ∷ rel))
    ∙ ap (λ l. rooted (reverse (clean_segments true [] l)))
        (split-append b'/' (join b'/' segs) (c ∷ rel))
    ∙ ap (λ l. rooted (reverse l)) (clean_join segs (split b'/' (c ∷ rel)) [] h)
    ∙ ap (λ l. rooted (reverse (clean_segments true (reverse segs ++ []) l)))
        (sym (append-nil (split b'/' (c ∷ rel))))
    ∙ ap (λ l. rooted (reverse l))
        (clean_segments_names true (split b'/' (c ∷ rel)) [] (reverse segs ++ []) k)
    ∙ ap (λ l. rooted (reverse l))
        (clean_nil true (reverse (split b'/' (c ∷ rel)) ++ (reverse segs ++ []))
          ∙ ap (◌++◌ (reverse (split b'/' (c ∷ rel)))) (append-nil (reverse segs)))
    ∙ ap rooted (reverse-append (reverse (split b'/' (c ∷ rel))) (reverse segs))
    ∙ ap rooted (ap₂ ◌++◌ (reverse-reverse segs) (reverse-reverse (split b'/' (c ∷ rel))))

-- An absolute path is rooted and clean, if the working directory is rooted.
pub abs_is_rooted :
    (w path : Bytes) {base : Bytes}
    → abs (some (b'/' ∷ w)) path ≡ some base
    → (segs : List Bytes) × All IsElement segs × (base ≡ rooted segs)
unfolding abs file_join
abs_is_rooted w [] h = let (segs, k, e) = clean_is_rooted w in (segs, k, cc)
abs_is_rooted w (c ∷ path) {base} h = elim (Bool-cases (c == b'/')) [
  | inl e ↦
      let slash_path : c ≡ b'/' = ground arith in
      let (segs, k, q) = clean_is_rooted path in
      (segs, k, ground (arith, ap (λ x. clean (x ∷ path)) slash_path))
  | inr e ↦ let (segs, k, q) = clean_is_rooted (w ++ b'/' ∷ (c ∷ path)) in (segs, k, ground arith)
]
