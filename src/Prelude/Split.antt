-- ===== src/Prelude/Split.antt =====
-- `strings.Split` and `strings.Join` at a one-byte separator.
use docsiq.Prelude.Tests.{Bool-cases, ◌==◌, if◌then◌else◌, List-cases}
use docsiq.Prelude.Lists.{All, all}
use docsiq.Prelude.Text.{Bytes}
use Prim.Native.Nat.{ℕ}
use mathlib.Core.Bool.{Bool, true, not}
use mathlib.Core.List.{append-nil, List, [], ◌∷◌, ◌++◌, append_assoc}
use mathlib.Core.Logic.{◌≢◌, inl, inr}
use mathlib.Core.Path.{◌≡◌, refl, ap, ◌∙◌, sym}
use native.Mathlib.Omega.{arith}

abbrev cons_head : ℕ → List Bytes → List Bytes
cons_head c [] = (c ∷ []) ∷ []
cons_head c (l ∷ ls) = (c ∷ l) ∷ ls

abbrev pub lacks : ℕ → Bytes → Bool
lacks sep = all (λ c. not (c == sep))

module _ (sep : ℕ) where
  unfoldable pub split : Bytes → List Bytes
  split [] = [] ∷ []
  split (c ∷ s) = let ls = split s in if c == sep then [] ∷ ls else cons_head c ls

  -- The parts behind the first, each with a separator in front.
  unfoldable pub join_rest : List Bytes → Bytes
  join_rest [] = []
  join_rest (p ∷ ps) = sep ∷ (p ++ join_rest ps)

  unfoldable pub join : List Bytes → Bytes
  join [] = []
  join (p ∷ ps) = p ++ join_rest ps

  cons_head-append :
      (c : ℕ) (ls ms : List Bytes) → ls ≢ [] → cons_head c (ls ++ ms) ≡ cons_head c ls ++ ms
  cons_head-append c [] ms h = absurd (h refl)
  cons_head-append c (l ∷ ls) ms h = refl

  pub split-ne-nil : (s : Bytes) → split s ≢ []
  unfolding split
  split-ne-nil [] h = cc
  split-ne-nil (c ∷ s) h = elim (List-cases (split s)) [
    | inl e ↦ split-ne-nil s e
    | inr (l, ls, e) ↦ ground arith
  ]

  pub split-append : (s t : Bytes) → split (s ++ sep ∷ t) ≡ split s ++ split t
  unfolding split
  split-append [] t = ground arith
  split-append (c ∷ s) t =
      rw (split-append s t)
        (ground (arith, cons_head-append c (split s) (split t) (split-ne-nil s)))

  -- A text without the separator is one part.
  pub split_single : (w : Bytes) → lacks sep w ≡ true → split w ≡ w ∷ []
  unfolding split
  split_single [] h = refl
  split_single (c ∷ w) h = ground (arith, split_single w)

  join-cons_head : (c : ℕ) (ls : List Bytes) → ls ≢ [] → join (cons_head c ls) ≡ c ∷ join ls
  unfolding join
  join-cons_head c [] h = absurd (h refl)
  join-cons_head c (l ∷ ls) h = refl

  join-nil_cons : (ls : List Bytes) → ls ≢ [] → join ([] ∷ ls) ≡ sep ∷ join ls
  unfolding join join_rest
  join-nil_cons [] h = absurd (h refl)
  join-nil_cons (l ∷ ls) h = refl

  pub split-cons :
      (c : ℕ) (s : Bytes)
      → split (c ∷ s) ≡ (if c == sep then [] ∷ split s else cons_head c (split s))
  unfolding split
  split-cons c s = refl

  -- Joining the parts gives the text back.
  pub join-split : (s : Bytes) → join (split s) ≡ s
  unfolding join
  join-split [] = unfold split join_rest in refl
  join-split (c ∷ s) = elim (Bool-cases (c == sep)) [
    | inl e ↦
        rw (split-cons c s, e)
          (ground (arith, join-nil_cons (split s) (split-ne-nil s), join-split s))
    | inr e ↦
        rw (split-cons c s, e)
          (join-cons_head c (split s) (split-ne-nil s) ∙ ap (◌∷◌ c) (join-split s))
  ]

  -- No part of a split holds the separator.
  pub split-lacks : (s : Bytes) → All (λ p. lacks sep p ≡ true) (split s)
  unfolding split
  split-lacks [] = (refl, tt)
  split-lacks (c ∷ s) = elim (List-cases (split s)) [
    | inl e ↦ absurd (split-ne-nil s e)
    | inr (l, ls, e) ↦ ground (arith, split-lacks s)
  ]

  append_free_part :
      (p : Bytes) (ps : List Bytes)
      → lacks sep p ≡ true
      → ps ≢ []
      → split (p ++ join_rest ps) ≡ p ∷ split (join ps)
  unfolding join join_rest
  append_free_part p [] f h = absurd (h refl)
  append_free_part p (q ∷ ps) f h =
      split-append p (q ++ join_rest ps)
      ∙ ap (λ l. l ++ split (q ++ join_rest ps)) (split_single p f)

  -- Splitting a join gives the parts back, if there is a part and none holds the separator.
  pub split-join :
      (p : Bytes) (ps : List Bytes)
      → All (λ q. lacks sep q ≡ true) (p ∷ ps)
      → split (join (p ∷ ps)) ≡ p ∷ ps
  unfolding join
  split-join p [] (f, _) = unfold join_rest in (ap split (append-nil p) ∙ split_single p f)
  split-join p (q ∷ ps) (f, fs) =
      append_free_part p (q ∷ ps) f (λ e. cc) ∙ ap (◌∷◌ p) (split-join q ps fs)

  join_rest-append : (ps qs : List Bytes) → join_rest (ps ++ qs) ≡ join_rest ps ++ join_rest qs
  unfolding join_rest
  join_rest-append [] qs = refl
  join_rest-append (p ∷ ps) qs =
      ap (◌∷◌ sep)
        (ap (◌++◌ p) (join_rest-append ps qs) ∙ sym (append_assoc p (join_rest ps) (join_rest qs)))

  pub join-append :
      (p : Bytes) (ps qs : List Bytes)
      → qs ≢ []
      → join ((p ∷ ps) ++ qs) ≡ join (p ∷ ps) ++ sep ∷ join qs
  unfolding join
  join-append p ps [] h = absurd (h refl)
  join-append p ps (q ∷ qs) h =
      unfold join_rest in
      (ap (◌++◌ p) (join_rest-append ps (q ∷ qs))
        ∙ sym (append_assoc p (join_rest ps) (sep ∷ (q ++ join_rest qs))))
