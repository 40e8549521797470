-- ===== src/Notes/Key.antt =====
-- internal/notes/notes.go: `ValidateKey` and `resolvePath`, from a note's key to its file.
use docsiq.Prelude.{
  ℕ, zero, suc, ◌+◌, ◌≡◌, refl, Bool, true, false, ◌&&◌, ◌||◌, not, Option, none, some, List, [],
  ◌∷◌, ◌++◌, length, ltb, ◌==◌, if◌then◌else◌,
}
use docsiq.Prelude.Split.{split}
use docsiq.Prelude.Text.{Bytes, codes, bytes_eq, has_prefix, contains_byte}
use docsiq.Prelude.FilePath.{abs, file_join, is_local}
pub mod Safe
pub mod Resolve
mod Tests

pub data KeyError : Type 0 where
  empty too_long null_byte backslash absolute parent_segment current_segment empty_segment :
      KeyError

abbrev pub max_key_len : ℕ
max_key_len = 512

abbrev pub dot : Bytes
dot = b'.' ∷ []

abbrev pub dot_dot : Bytes
dot_dot = b'.' ∷ b'.' ∷ []

-- The loop over the segments of the key.
check_segments : List Bytes → Option KeyError
check_segments [] = none
check_segments (seg ∷ segs) =
    let rest = check_segments segs in
    if bytes_eq seg dot_dot
    then some parent_segment
    else if bytes_eq seg dot
    then some current_segment
    else if bytes_eq seg []
    then some empty_segment
    else rest

-- `none` is the nil error.
unfoldable pub validate_key : Bytes → Option KeyError
unfolding check_segments
validate_key key =
    if bytes_eq key []
    then some empty
    else if ltb max_key_len (length key)
    then some too_long
    else if contains_byte key 0
    then some null_byte
    else if contains_byte key b'\\'
    then some backslash
    else if has_prefix key (b'/' ∷ [])
    then some absolute
    else check_segments (split b'/' key)

pub data PathError : Type 0 where
  invalid_key : KeyError → PathError
  non_local no_working_dir escapes : PathError

pub data Resolved : Type 0 where
  ok : Bytes → Resolved
  err : PathError → Resolved

abbrev pub md_suffix : Bytes
md_suffix = b'.' ∷ b'm' ∷ b'd' ∷ []

-- The containment test on the two clean paths.
check_inside : Bytes → Bytes → Resolved
check_inside clean_base clean_full =
    if has_prefix clean_full (clean_base ++ b'/' ∷ []) || bytes_eq clean_full clean_base
    then ok clean_full
    else err escapes

-- `wd` is the working directory of the process, if it has one.
unfoldable pub resolve_path : Option Bytes → Bytes → Bytes → Resolved
unfolding check_inside
resolve_path wd notes_dir key = elim (validate_key key) [
  | some e ↦ err (invalid_key e)
  | none ↦
      if is_local (key ++ md_suffix)
      then elim (abs wd notes_dir) [
        | none ↦ err no_working_dir
        | some clean_base ↦ elim (abs wd (file_join clean_base (key ++ md_suffix))) [
          | none ↦ err no_working_dir
          | some clean_full ↦ check_inside clean_base clean_full
        ]
      ]
      else err non_local
]
