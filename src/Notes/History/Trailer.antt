-- ===== src/Notes/History/Trailer.antt =====
-- internal/notes/history.go: an author cannot add lines to the message of a commit.
use docsiq.Prelude.{
  ℕ, zero, suc, ◌+◌, ◌*◌, ◌≤◌, ◌≡◌, ◌≢◌, refl, Bool, true, not, [], ◌∷◌, ◌++◌, length,
  length-append, length-take-le, take, filter, all, arith, Bool-cases, inl, inr, leb, leb→le,
}
use docsiq.Prelude.Text.{Bytes, codes}
use docsiq.Notes.History.{
  max_commit_msg_bytes, rune_start, ellipsis, truncate_for_commit, is_line_end, author_line,
  build_commit_message,
}

-- No line break.
abbrev pub is_one_line : Bytes → Bool
is_one_line s = all (λ c. not (is_line_end c)) s

is_one_line-append :
    (s t : Bytes) → is_one_line s ≡ true → is_one_line t ≡ true → is_one_line (s ++ t) ≡ true
is_one_line-append [] t hs ht = ht
is_one_line-append (c ∷ s) t hs ht = ground (arith, is_one_line-append s t)

is_one_line-take : (n : ℕ) (s : Bytes) → is_one_line s ≡ true → is_one_line (take n s) ≡ true
is_one_line-take zero s h = refl
is_one_line-take (suc n) [] h = refl
is_one_line-take (suc n) (c ∷ s) h = ground (arith, is_one_line-take n s)

is_one_line-filter : (s : Bytes) → is_one_line (filter (λ c. not (is_line_end c)) s) ≡ true
is_one_line-filter [] = refl
is_one_line-filter (c ∷ s) = elim (Bool-cases (is_line_end c)) [
  | inl e ↦ rw e (is_one_line-filter s)
  | inr e ↦ rw (e, e) (is_one_line-filter s)
]

truncate_for_commit-is_one_line :
    (s : Bytes) → is_one_line s ≡ true → is_one_line (truncate_for_commit s) ≡ true
unfolding truncate_for_commit
truncate_for_commit-is_one_line s h = elim (Bool-cases (leb (length s) max_commit_msg_bytes)) [
  | inl e ↦ rw (e, truncate_for_commit) h
  | inr e ↦
      rw (e, truncate_for_commit)
        (is_one_line-append (take (rune_start s max_commit_msg_bytes) s) ellipsis
          (is_one_line-take (rune_start s max_commit_msg_bytes) s h) refl)
]

rune_start-le : (s : Bytes) (n : ℕ) → rune_start s n ≤ n
unfolding rune_start
rune_start-le s zero = omega arith
rune_start-le s (suc n) = ground (arith, rune_start-le s n)

length-truncate_for_commit : (s : Bytes) → length (truncate_for_commit s) ≤ max_commit_msg_bytes + 3
unfolding truncate_for_commit
length-truncate_for_commit s = elim (Bool-cases (leb (length s) max_commit_msg_bytes)) [
  | inl e ↦ rw (e, truncate_for_commit) (omega (arith, leb→le (length s) max_commit_msg_bytes e))
  | inr e ↦
      rw (e, truncate_for_commit)
        (omega (
          arith,
          length-append {0} (take (rune_start s max_commit_msg_bytes) s) ellipsis,
          length-take-le {0} (rune_start s max_commit_msg_bytes) s,
          rune_start-le s max_commit_msg_bytes,
        ))
]

author_line-is_one_line : (author : Bytes) → is_one_line (author_line author) ≡ true
author_line-is_one_line author =
    let kept = filter (λ c. not (is_line_end c)) author in
    let a = truncate_for_commit kept in
    let h = truncate_for_commit-is_one_line kept (is_one_line-filter author) in
    is_one_line-append (codes "Co-Authored-By: ") (a ++ (codes " <" ++ (a ++ codes "@local>"))) refl
      (is_one_line-append a (codes " <" ++ (a ++ codes "@local>")) h (
        is_one_line-append (codes " <") (a ++ codes "@local>") refl
          (is_one_line-append a (codes "@local>") h refl)))

length-author_line :
    (author : Bytes) → length (author_line author) ≤ 2 * (max_commit_msg_bytes + 3) + 25
length-author_line author =
    let kept = filter (λ c. not (is_line_end c)) author in
    let a = truncate_for_commit kept in
    omega (
      arith,
      length-append {0} a (codes " <" ++ (a ++ codes "@local>")),
      length-append {0} a (codes "@local>"),
      length-truncate_for_commit kept,
    )

-- With an author that is not empty, and whatever bytes it holds, the message of a commit is the
-- truncated subject, an empty line, and one more line, which has no line break; and the message has
-- at most three times the bound in bytes, and 36 more.
pub build_commit_message-is_one_line :
    (repair : Bytes → Bytes) (subject author : Bytes)
    → author ≢ []
    → ((line : Bytes) × (build_commit_message repair subject author
          ≡ truncate_for_commit subject ++ b'\n' ∷ b'\n' ∷ line)
        × (is_one_line line ≡ true))
      × (length (build_commit_message repair subject author) ≤ 3 * max_commit_msg_bytes + 36)
unfolding build_commit_message
build_commit_message-is_one_line repair subject [] h = absurd (h refl)
build_commit_message-is_one_line repair subject (c ∷ author) h =
    let line = author_line (repair (c ∷ author)) in
    (
      (line, refl, author_line-is_one_line (repair (c ∷ author))),
      omega (
        arith,
        length-append {0} (truncate_for_commit subject) (b'\n' ∷ b'\n' ∷ line),
        length-truncate_for_commit subject,
        length-author_line (repair (c ∷ author)),
      ),
    )
