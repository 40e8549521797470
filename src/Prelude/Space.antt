-- ===== src/Prelude/Space.antt =====
-- `strings.TrimSpace` on UTF-8 text: the white space of `unicode.IsSpace`, by its encodings.
use docsiq.Prelude.{arith, ◌++◌, ◌≡◌}
use docsiq.Prelude.Lists.{all}
use mathlib.Core.List.{reverse-cons, reverse-reverse}
use mathlib.Core.Path.{◌≡◌, refl, ap, ◌∙◌}
use docsiq.Prelude.Tests.{ltb, leb, ◌==◌, if◌then◌else◌}
use docsiq.Prelude.Text.{Bytes}
use Prim.Native.Nat.{ℕ, zero, suc}
use mathlib.Core.Bool.{Bool, true, ◌&&◌, ◌||◌}
use mathlib.Core.List.{[], ◌∷◌, reverse}

is_ascii_space : ℕ → Bool
is_ascii_space c = (leb 9 c && leb c 13) || c == 32

-- The two- and three-byte encodings: U+0085, U+00A0; U+1680, U+2000 to U+200A, U+2028, U+2029,
-- U+202F, U+205F, U+3000.
is_space_2 : ℕ → ℕ → Bool
is_space_2 a b = a == 0xC2 && (b == 0x85 || b == 0xA0)

is_space_3 : ℕ → ℕ → ℕ → Bool
is_space_3 a b c =
    (a == 0xE1 && (b == 0x9A && c == 0x80))
    || ((a == 0xE2
          && (b == 0x80 && ((leb 0x80 c && leb c 0x8A) || (c == 0xA8 || (c == 0xA9 || c == 0xAF)))))
        || ((a == 0xE2 && (b == 0x81 && c == 0x9F)) || (a == 0xE3 && (b == 0x80 && c == 0x80))))

-- The number of bytes of the white space rune at the front, 0 if there is none.
space_front : Bytes → ℕ
unfolding is_ascii_space is_space_2 is_space_3
space_front [] = 0
space_front (a ∷ []) = if is_ascii_space a then 1 else 0
space_front (a ∷ b ∷ []) = if is_ascii_space a then 1 else if is_space_2 a b then 2 else 0
space_front (a ∷ b ∷ c ∷ s) =
    if is_ascii_space a then 1 else if is_space_2 a b then 2 else if is_space_3 a b c then 3 else 0

-- The same at the end of a text that is given reversed.
space_back : Bytes → ℕ
unfolding is_ascii_space is_space_2 is_space_3
space_back [] = 0
space_back (a ∷ []) = if is_ascii_space a then 1 else 0
space_back (b ∷ a ∷ []) = if is_ascii_space b then 1 else if is_space_2 a b then 2 else 0
space_back (c ∷ b ∷ a ∷ s) =
    if is_ascii_space c then 1 else if is_space_2 b c then 2 else if is_space_3 a b c then 3 else 0

-- Drops runes from the front as long as `width` finds one; the number is what is left of a rune.
trim_by : (Bytes → ℕ) → Bytes → ℕ → Bytes
trim_by width [] n = []
trim_by width (c ∷ s) (suc n) = trim_by width s n
trim_by width (c ∷ s) zero = elim (width (c ∷ s)) [ zero ↦ c ∷ s | suc n ↦ trim_by width s n ]

unfoldable pub trim_space : Bytes → Bytes
unfolding space_front space_back trim_by
trim_space s = reverse (trim_by space_back (reverse (trim_by space_front s 0)) 0)

-- An ASCII byte that is no white space.
abbrev pub is_plain : ℕ → Bool
is_plain c = ltb c 128 && (ltb 32 c || ltb c 9)

trim_by_id : (width : Bytes → ℕ) (s : Bytes) → width s ≡ 0 → trim_by width s 0 ≡ s
unfolding trim_by
trim_by_id width [] h = refl
trim_by_id width (c ∷ s) h = rw (h, trim_by)

front_plain : (s : Bytes) → all is_plain s ≡ true → space_front s ≡ 0
unfolding space_front
front_plain [] h = refl
front_plain (a ∷ []) h = ground arith
front_plain (a ∷ b ∷ []) h = ground arith
front_plain (a ∷ b ∷ c ∷ s) h = ground arith

back_plain : (s : Bytes) → all is_plain s ≡ true → space_back s ≡ 0
unfolding space_back
back_plain [] h = refl
back_plain (a ∷ []) h = ground arith
back_plain (b ∷ a ∷ []) h = ground arith
back_plain (c ∷ b ∷ a ∷ s) h = ground arith

all-append_true :
    (p : ℕ → Bool) (s t : Bytes) → all p s ≡ true → all p t ≡ true → all p (s ++ t) ≡ true
all-append_true p [] t hs ht = ht
all-append_true p (c ∷ s) t hs ht = ground (arith, all-append_true p s t)

all-reverse : (p : ℕ → Bool) (s : Bytes) → all p s ≡ true → all p (reverse s) ≡ true
all-reverse p [] h = refl
all-reverse p (c ∷ s) h =
    rw (reverse-cons c s)
      (all-append_true p (reverse s) (c ∷ []) (ground (arith, all-reverse p s)) (ground arith))

-- A text with no white space and nothing beyond ASCII is not trimmed.
pub trim_space_plain : (s : Bytes) → all is_plain s ≡ true → trim_space s ≡ s
unfolding trim_space
trim_space_plain s h =
    ap (λ t. reverse (trim_by space_back (reverse t) 0))
      (trim_by_id space_front s (front_plain s h))
    ∙ ap reverse
        (trim_by_id space_back (reverse s) (back_plain (reverse s) (all-reverse is_plain s h)))
    ∙ reverse-reverse s
