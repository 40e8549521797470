-- ===== src/Notes/Links.antt =====
-- internal/notes/wikilinks.go: the links `[[target]]` and `[[target|alias]]` of a note's body. The
-- two regular expressions are written out as functions on bytes: their classes of characters make
-- every match the longest run of its class.
use docsiq.Prelude.{
  ℕ, zero, suc, ◌≡◌, Bool, true, false, ◌&&◌, ◌||◌, not, Option, none, some, List, [], ◌∷◌, ◌++◌,
  length, any, all, drop_while, leb, ◌==◌, if◌then◌else◌,
}
use docsiq.Prelude.Text.{Bytes, codes, bytes_eq, cut_prefix}
pub mod Render
mod Tests

-- The longest prefix whose bytes pass a test.
abbrev pub take_while : (ℕ → Bool) → Bytes → Bytes
take_while p [] = []
take_while p (c ∷ s) = let rest = take_while p s in if p c then c ∷ rest else []

-- `[^\]|]`
abbrev pub is_target : ℕ → Bool
is_target c = not (c == b']') && not (c == b'|')

-- `[^\]]`
abbrev pub is_alias : ℕ → Bool
is_alias c = not (c == b']')

-- What follows `(?:\|[^\]]*)?\]\]`.
abbrev pub link_end : Bytes → Option Bytes
link_end [] = none
link_end (c ∷ s) = cut_prefix (codes "]]") (if c == b'|' then drop_while is_alias s else c ∷ s)

-- A target that is not empty, with what follows its link.
abbrev pub link_target : Bytes → Bytes → Option (Bytes × Bytes)
link_target [] s = none
link_target (c ∷ t) s = elim (link_end s) [ none ↦ none | some rest ↦ some (c ∷ t, rest) ]

-- A match of `wikilinkRe` at the start of a text: its target and what follows it.
unfoldable pub link_at : Bytes → Option (Bytes × Bytes)
link_at s = elim (cut_prefix (codes "[[") s) [
  | none ↦ none
  | some r ↦ link_target (take_while is_target r) (drop_while is_target r)
]

-- `FindAllSubmatch`: the targets of the matches from left to right. Each round reads a byte at
-- least, so that as many rounds as bytes are enough.
unfoldable pub matches : ℕ → Bytes → List Bytes
matches zero s = []
matches (suc n) [] = []
matches (suc n) (c ∷ s) = elim (link_at (c ∷ s)) [
  | none ↦ matches n s
  | some (t, rest) ↦ t ∷ matches n rest
]

-- A key joins those seen, which are kept in the order of their first appearance.
abbrev pub add_key : List Bytes → Bytes → List Bytes
add_key seen k = if any (bytes_eq k) seen then seen else seen ++ k ∷ []

-- The loop over the matches.
unfoldable pub add_targets : List Bytes → List Bytes → List Bytes
add_targets seen [] = seen
add_targets seen (t ∷ ts) = add_targets (if bytes_eq t [] then seen else add_key seen t) ts

unfoldable pub extract_wikilinks : Bytes → List Bytes
extract_wikilinks body = add_targets [] (matches (length body) body)

pub record Wikilink : Type 0 where
  pub target : Bytes
  pub project : Bytes
  pub key : Bytes
  pub cross_project : Bool

-- `[a-zA-Z0-9_-]`
abbrev pub is_slug_char : ℕ → Bool
is_slug_char c =
    (leb b'a' c && leb c b'z')
    || (leb b'A' c && leb c b'Z')
    || (leb b'0' c && leb c b'9')
    || c == b'_'
    || c == b'-'

-- The rest of `crossProjectRe` after the slug: a slash and a key that is not empty and has no
-- newline.
abbrev pub cross_key : Bytes → Option Bytes
cross_key [] = none
cross_key (c ∷ []) = none
cross_key (c ∷ k ∷ ks) =
    if c == b'/' && all (λ d. not (d == 10)) (k ∷ ks) then some (k ∷ ks) else none

abbrev pub cross_parts : Bytes → Bytes → Option (Bytes × Bytes)
cross_parts [] s = none
cross_parts (c ∷ slug) s = elim (cross_key s) [ none ↦ none | some k ↦ some (c ∷ slug, k) ]

-- A match of `crossProjectRe`: the slug and the key.
unfoldable pub cross_match : Bytes → Option (Bytes × Bytes)
cross_match s = elim (cut_prefix (codes "projects/") s) [
  | none ↦ none
  | some r ↦ cross_parts (take_while is_slug_char r) (drop_while is_slug_char r)
]

unfoldable pub parse_wikilink : Bytes → Wikilink
parse_wikilink target = elim (cross_match target) [
  | some (slug, key) ↦ record { target = target; project = slug; key = key; cross_project = true }
  | none ↦ record { target = target; project = []; key = target; cross_project = false }
]
