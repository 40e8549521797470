-- ===== src/Project/Slug.antt =====
-- internal/project/slug.go: from a git remote to a project slug. Texts are bytes; `lower` is what
-- `strings.ToLower` does to a text that is not ASCII (the tables of package unicode).
use docsiq.Prelude.{
  ℕ, zero, suc, ◌+◌, ◌-◌, ◌*◌, ◌≡◌, refl, Bool, true, false, ◌&&◌, ◌||◌, not, Option, none, some,
  List, [], ◌∷◌, ◌++◌, map, length, take, drop, ltb, leb, ◌==◌, if◌then◌else◌, all, drop_while,
  trim_end,
}
use docsiq.Prelude.Space.{trim_space}
use docsiq.Prelude.Text.{Bytes, codes, bytes_eq, has_prefix, contains, contains_byte, cut_byte}
pub mod Canonical
pub mod Idempotent
mod Tests

abbrev pub max_slug_len : ℕ
max_slug_len = 200

-- `[a-z0-9_-]`
abbrev pub is_slug_byte : ℕ → Bool
is_slug_byte c =
    (leb b'a' c && leb c b'z') || ((leb b'0' c && leb c b'9') || (c == b'_' || c == b'-'))

-- The bytes of "\x00 \t\n\r/\\".
is_forbidden : ℕ → Bool
is_forbidden c =
    c == 0 || (c == b' ' || (c == b'\t' || (c == 10 || (c == 13 || (c == b'/' || c == b'\\')))))

contains_any : (ℕ → Bool) → Bytes → Bool
contains_any p [] = false
contains_any p (c ∷ s) = p c || contains_any p s

-- `slugValid.MatchString`
unfoldable pub slug_valid : Bytes → Bool
slug_valid [] = false
slug_valid (c ∷ s) = all is_slug_byte (c ∷ s)

unfoldable pub is_valid_slug : Bytes → Bool
unfolding contains_any is_forbidden
is_valid_slug s =
    if bytes_eq s [] || ltb max_slug_len (length s)
    then false
    else if contains_any is_forbidden s
    then false
    else slug_valid s

pub data SlugError : Type 0 where
  empty_remote null_byte normalized_empty produced_invalid : SlugError

pub data Result : Type 0 where
  ok : Bytes → Result
  err : SlugError → Result

abbrev pub lower_byte : ℕ → ℕ
lower_byte c = if leb b'A' c && leb c b'Z' then c + 32 else c

abbrev pub is_ascii : Bytes → Bool
is_ascii = all (λ c. ltb c 128)

-- `strings.EqualFold(s[len(s)-4:], ".git")` and the cut
strip_git : Bytes → Bytes
strip_git s =
    if leb 4 (length s) && bytes_eq (map lower_byte (drop (length s - 4) s)) (codes ".git")
    then take (length s - 4) s
    else s

-- "user@host:path" becomes "host/path"
scp_path : Bytes → Bytes
scp_path s = if contains s (codes "://") then s else elim (cut_byte s b'@') [
  | none ↦ s
  | some (user, rest) ↦ elim (cut_byte rest b':') [
    | none ↦ s
    | some (host, path) ↦ host ++ b'/' ∷ path
  ]
]

-- Drops "user@" if no slash stands before the `@`.
drop_user : Bytes → Bytes
drop_user s = elim (cut_byte s b'@') [
  | none ↦ s
  | some (user, rest) ↦ if contains_byte user b'/' then s else rest
]

-- Drops what stands between the first colon and the next slash, both of them being there.
drop_port : Bytes → Bytes
drop_port s = elim (cut_byte s b':') [
  | none ↦ s
  | some (host, rest) ↦ elim (cut_byte rest b'/') [
    | none ↦ s
    | some (port, path) ↦ host ++ b'/' ∷ path
  ]
]

hex_value : ℕ → Option ℕ
hex_value c =
    if leb b'0' c && leb c b'9'
    then some (c - b'0')
    else if leb b'a' c && leb c b'f'
    then some (c - b'a' + 10)
    else if leb b'A' c && leb c b'F'
    then some (c - b'A' + 10)
    else none

hex_pair : ℕ → ℕ → Option ℕ
hex_pair a b = elim (hex_value a) [
  | none ↦ none
  | some x ↦ elim (hex_value b) [ none ↦ none | some y ↦ some (x * 16 + y) ]
]

cons_some : ℕ → Option Bytes → Option Bytes
cons_some c none = none
cons_some c (some s) = some (c ∷ s)

-- `url.PathUnescape`; `none` is its error. The number is how much of an escape is left to skip.
pub unescape : Bytes → ℕ → Option Bytes
unescape [] n = some []
unescape (c ∷ s) (suc n) = unescape s n
unescape (c ∷ []) zero = if c == b'%' then none else some (c ∷ [])
unescape (c ∷ a ∷ []) zero = if c == b'%' then none else cons_some c (unescape (a ∷ []) zero)
unescape (c ∷ a ∷ b ∷ s) zero = elim (c == b'%') [
  | false ↦ cons_some c (unescape (a ∷ b ∷ s) zero)
  | true ↦ elim (hex_pair a b) [ none ↦ none | some x ↦ cons_some x (unescape (a ∷ b ∷ s) 2) ]
]

unescape_or_same : Bytes → Bytes
unescape_or_same s = elim (unescape s 0) [ none ↦ s | some t ↦ t ]

-- `nonSlug.ReplaceAllString(s, "-")`; the flag tells whether a run of other bytes is going on.
pub replace_non_slug : Bytes → Bool → Bytes
replace_non_slug [] in_run = []
replace_non_slug (c ∷ s) in_run =
    let rest = replace_non_slug s (not (is_slug_byte c)) in
    if is_slug_byte c then c ∷ rest else if in_run then rest else b'-' ∷ rest

-- `collapseDashes.ReplaceAllString(s, "-")`
pub collapse_dashes : Bytes → Bool → Bytes
collapse_dashes [] after_dash = []
collapse_dashes (c ∷ s) after_dash =
    let rest = collapse_dashes s (c == b'-') in if after_dash && c == b'-' then rest else c ∷ rest

abbrev pub is_edge : ℕ → Bool
is_edge c = c == b'-' || c == b'_'

-- The length cap.
cap_length : Bytes → Bytes
cap_length s = if ltb max_slug_len (length s) then trim_end is_edge (take max_slug_len s) else s

schemes : List Bytes
schemes =
    codes "ssh://" ∷ codes "https://" ∷ codes "http://" ∷ codes "git://" ∷ codes "file://" ∷ []

module _ (lower : Bytes → Bytes) where
  pub to_lower : Bytes → Bytes
  to_lower s = if is_ascii s then map lower_byte s else lower s

  strip_scheme : List Bytes → Bytes → Bytes
  strip_scheme [] s = s
  strip_scheme (scheme ∷ rest) s =
      if has_prefix (to_lower s) scheme then drop (length scheme) s else strip_scheme rest s

  -- The remote from the cut of ".git" down to the lower case.
  unfoldable pub lowered : Bytes → Bytes
  unfolding strip_git scp_path drop_user drop_port unescape_or_same strip_scheme to_lower schemes
  lowered raw =
      to_lower
        (unescape_or_same (drop_port (drop_user (strip_scheme schemes (scp_path (strip_git raw))))))

  -- Steps 2 to 8 of the comment of `Slug`, on the trimmed remote.
  unfoldable pub normalize : Bytes → Bytes
  normalize raw =
      trim_end is_edge
        (drop_while is_edge (collapse_dashes (replace_non_slug (lowered raw) false) false))

  check_slug : Bytes → Result
  check_slug s = if slug_valid s then ok s else err produced_invalid

  unfoldable pub slug : Bytes → Result
  unfolding check_slug cap_length
  slug remote =
      let raw = trim_space remote in
      if bytes_eq raw []
      then err empty_remote
      else if contains_byte raw 0
      then err null_byte
      else if bytes_eq (normalize raw) []
      then err normalized_empty
      else check_slug (cap_length (normalize raw))
