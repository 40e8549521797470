-- ===== src/Notes/Frontmatter.antt =====
-- internal/notes/frontmatter.go: the YAML block in front of a note's body. The YAML library is a
-- parameter; an error of the source is `none`.
use docsiq.Prelude.{
  ℕ, zero, suc, ◌+◌, ◌≡◌, refl, Bool, true, false, ◌&&◌, ◌||◌, Option, none, some, List, [], ◌∷◌,
  ◌++◌, length, take, drop, drop_while, trim_end, ◌==◌, if◌then◌else◌,
}
use docsiq.Prelude.Space.{trim_space}
use docsiq.Prelude.Text.{Bytes, codes, bytes_eq, cut_prefix, cut_byte}
pub mod Delimiter
pub mod Lines
pub mod RoundTrip
mod Tests

-- gopkg.in/yaml.v3 at `map[string]any`: `unmarshal` fails, or leaves a map that may be nil.
pub record Yaml : Type 1 where
  pub Map : Type 0
  pub empty : Map
  pub is_empty : Map → Bool
  pub unmarshal : Bytes → Option (Option Map)
  pub encode : Map → Option Bytes

abbrev pub newline : ℕ
newline = 10

abbrev pub fm_delim : Bytes
fm_delim = b'-' ∷ b'-' ∷ b'-' ∷ []

abbrev pub is_blank : ℕ → Bool
is_blank c = c == b' ' || c == b'\t'

abbrev skip_cr : Bytes → Bytes
skip_cr [] = []
skip_cr (c ∷ s) = if c == b'\r' then s else c ∷ s

abbrev need_newline : Bytes → Option Bytes
need_newline [] = none
need_newline (c ∷ s) = if c == newline then some s else none

-- `trimFMDelim`: what follows a leading delimiter line.
unfoldable pub trim_fm_delim : Bytes → Option Bytes
trim_fm_delim b = elim (cut_prefix fm_delim b) [
  | none ↦ none
  | some rest ↦ need_newline (skip_cr (drop_while is_blank rest))
]

abbrev pub is_trailing : ℕ → Bool
is_trailing c = c == b' ' || (c == b'\t' || c == b'\r')

-- A line that is `---` up to trailing white space.
unfoldable pub is_delim_line : Bytes → Bool
is_delim_line line = bytes_eq (trim_end is_trailing line) fm_delim

-- The loop of `findClosingDelim` on what is left, `s[start:]`; each round reads one line. The
-- result is relative to `start`.
find_from : ℕ → Bytes → Option ℕ
find_from zero s = none
find_from (suc fuel) [] = none
find_from (suc fuel) (c ∷ s) = elim (cut_byte (c ∷ s) newline) [
  | none ↦ if is_delim_line (c ∷ s) then some 0 else none
  | some (line, rest) ↦ elim (is_delim_line line) [
    | true ↦ some 0
    | false ↦ elim (find_from fuel rest) [ none ↦ none | some i ↦ some (length line + 1 + i) ]
  ]
]

unfoldable pub find_closing_delim : Bytes → Option ℕ
unfolding find_from is_delim_line
find_closing_delim s = find_from (length s) s

abbrev pub drop_newline : Bytes → Bytes
drop_newline [] = []
drop_newline (c ∷ s) = if c == newline then s else c ∷ s

module _ (yaml : Yaml) where
  open yaml use {Map, empty, is_empty, unmarshal, encode}

  -- `yaml.Unmarshal` into an empty map, a nil map being replaced by an empty one.
  decode_block : Bytes → Option Map
  decode_block block = elim (trim_space block) [
    | [] ↦ some empty
    | c ∷ s ↦ elim (unmarshal block) [
      | none ↦ none
      | some none ↦ some empty
      | some (some m) ↦ some m
    ]
  ]

  -- What follows a delimiter line, or the whole text if there is none.
  abbrev after_delim : Bytes → Bytes
  after_delim s = elim (trim_fm_delim s) [ none ↦ s | some r ↦ r ]

  unfoldable pub parse_frontmatter : Bytes → Option (Map × Bytes)
  unfolding decode_block
  parse_frontmatter raw = elim (trim_fm_delim raw) [
    | none ↦ some (empty, raw)
    | some rest ↦ elim (find_closing_delim rest) [
      | none ↦ some (empty, raw)
      | some i ↦ elim (decode_block (take i rest)) [
        | none ↦ none
        | some m ↦ some (m, drop_newline (after_delim (drop i rest)))
      ]
    ]
  ]

  unfoldable pub encode_frontmatter : Map → Bytes → Option Bytes
  encode_frontmatter m body = if is_empty m then some body else elim (encode m) [
    | none ↦ none
    | some block ↦ some (fm_delim ++ newline ∷ (block ++ (fm_delim ++ newline ∷ body)))
  ]
