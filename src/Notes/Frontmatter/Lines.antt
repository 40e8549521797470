-- ===== src/Notes/Frontmatter/Lines.antt =====
-- A text as its lines, and `findClosingDelim` as a search over them.
use docsiq.Prelude.{
  ap, ◌++◌, any, List-cases, ℕ, zero, suc, ◌+◌, ◌≤◌, ◌≡◌, refl, true, false, Option, none, some,
  List, [], ◌∷◌, length, ◌==◌, arith, inl, inr, Bool-cases, Option-cases,
}
use docsiq.Prelude.Split.{split, split-ne-nil, split-append}
use docsiq.Prelude.Text.{Bytes, cut_byte}
use docsiq.Notes.Frontmatter.{newline, is_delim_line, find_from, find_closing_delim}

-- The lines of a text, without their newlines; behind a last newline stands an empty line.
abbrev pub lines : Bytes → List Bytes
lines = split newline

-- The position of the first line that is a delimiter.
pub first_delim : List Bytes → Option ℕ
first_delim [] = none
first_delim (l ∷ ls) = elim (is_delim_line l) [
  | true ↦ some 0
  | false ↦ elim (first_delim ls) [ none ↦ none | some i ↦ some (length l + 1 + i) ]
]

lines-cut_some :
    (s : Bytes) {l r : Bytes}
    → cut_byte s newline ≡ some (l, r)
    → (lines s ≡ l ∷ lines r) × (length s ≡ length l + 1 + length r)
unfolding split cut_byte
lines-cut_some [] h = cc
lines-cut_some (c ∷ s) {l} {r} h = elim (Bool-cases (c == newline)) [
  | inl e ↦ ground arith
  | inr e ↦ elim (Option-cases (cut_byte s newline)) [
    | inl n ↦ ground arith
    | inr ((a, b), n) ↦ ground (arith, lines-cut_some s {l = a} {r = b} n)
  ]
]

lines-cut_none : (s : Bytes) → cut_byte s newline ≡ none → lines s ≡ s ∷ []
unfolding split cut_byte
lines-cut_none [] h = refl
lines-cut_none (c ∷ s) h = elim (Bool-cases (c == newline)) [
  | inl e ↦ ground arith
  | inr e ↦ elim (Option-cases (cut_byte s newline)) [
    | inl n ↦ ground (arith, lines-cut_none s n)
    | inr (p, n) ↦ ground arith
  ]
]

find_from-first_delim :
    (fuel : ℕ) (s : Bytes) → length s ≤ fuel → find_from fuel s ≡ first_delim (lines s)
unfolding find_from first_delim
find_from-first_delim zero [] h = unfold split is_delim_line in refl
find_from-first_delim zero (c ∷ s) h = absurd (omega arith)
find_from-first_delim (suc fuel) [] h = unfold split is_delim_line in refl
find_from-first_delim (suc fuel) (c ∷ s) h = elim (Option-cases (cut_byte (c ∷ s) newline)) [
  | inl n ↦ rw (lines-cut_none (c ∷ s) n) (rw (n, find_from) (ground arith))
  | inr ((l, r), n) ↦ rw ((lines-cut_some (c ∷ s) n).0) (
      rw (n, find_from)
        (ground
          (arith, find_from-first_delim fuel r (omega (arith, (lines-cut_some (c ∷ s) n).1)))))
]

-- `findClosingDelim` finds the first line that is a delimiter and gives its position, or finds
-- that there is none; its loop never runs out of rounds.
pub find_closing_delim-first_delim : (s : Bytes) → find_closing_delim s ≡ first_delim (lines s)
unfolding find_closing_delim
find_closing_delim-first_delim s = find_from-first_delim (length s) s (omega arith)

-- The bytes that lines take up with their newlines.
pub span : List Bytes → ℕ
span [] = 0
span (l ∷ ls) = length l + 1 + span ls

span-lines : (s : Bytes) → span (lines s) ≡ length s + 1
unfolding split span
span-lines [] = omega arith
span-lines (c ∷ s) = elim (List-cases (lines s)) [
  | inl e ↦ absurd (split-ne-nil newline s e)
  | inr (l, ls, e) ↦ ground (arith, span-lines s)
]

-- A search passes over lines that are no delimiter.
pub first_delim-append :
    (ls ms : List Bytes)
    → any is_delim_line ls ≡ false
    → first_delim (ls ++ ms) ≡ elim (first_delim ms) [ none ↦ none | some i ↦ some (span ls + i) ]
unfolding first_delim span
first_delim-append [] ms h = elim (Option-cases (first_delim ms)) [
  | inl e ↦ rw e
  | inr (i, e) ↦ rw e (ap some (omega arith))
]
first_delim-append (l ∷ ls) ms h = elim (Option-cases (first_delim ms)) [
  | inl e ↦ ground (arith, first_delim-append ls ms)
  | inr (i, e) ↦ ground (arith, first_delim-append ls ms)
]

-- The search in a block of lines with no delimiter, behind which a delimiter line stands.
pub find_closing_delim-append :
    (block : Bytes) (l : Bytes) (ms : List Bytes) (rest : Bytes)
    → any is_delim_line (lines block) ≡ false
    → lines rest ≡ l ∷ ms
    → is_delim_line l ≡ true
    → find_closing_delim (block ++ newline ∷ rest) ≡ some (length block + 1)
find_closing_delim-append block l ms rest h e d =
    rw
      (
        find_closing_delim-first_delim (block ++ newline ∷ rest),
        split-append newline block rest,
        first_delim-append (lines block) (lines rest) h,
        e,
      )
      (unfold first_delim in rw d (ap some (omega (arith, span-lines block))))
