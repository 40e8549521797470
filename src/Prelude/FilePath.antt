-- ===== src/Prelude/FilePath.antt =====
-- The functions of `path/filepath` on Unix that the program calls: Clean, Join, Abs, IsLocal.
pub mod Clean
use docsiq.Prelude.Lists.{any}
use docsiq.Prelude.Split.{split, join}
use docsiq.Prelude.Tests.{◌==◌, if◌then◌else◌}
use docsiq.Prelude.Text.{Bytes, bytes_eq, has_prefix}
use mathlib.Core.Bool.{Bool, true, false, not, ◌||◌}
use mathlib.Core.List.{List, [], ◌∷◌, ◌++◌, reverse}
use mathlib.Core.Option.{Option, none, some}

abbrev pub slash : Bytes
slash = b'/' ∷ []

abbrev pub is_skipped : Bytes → Bool
is_skipped seg = bytes_eq seg [] || bytes_eq seg (b'.' ∷ [])

abbrev pub is_dot_dot : Bytes → Bool
is_dot_dot seg = bytes_eq seg (b'.' ∷ b'.' ∷ [])

-- `..` removes the last element; above the root it does nothing, and in a relative path it stays.
abbrev pub go_up : Bool → List Bytes → List Bytes
go_up true [] = []
go_up false [] = (b'.' ∷ b'.' ∷ []) ∷ []
go_up rooted (top ∷ stack) = if is_dot_dot top then (b'.' ∷ b'.' ∷ []) ∷ (top ∷ stack) else stack

-- The segments that are kept, last first.
pub clean_segments : Bool → List Bytes → List Bytes → List Bytes
clean_segments rooted stack [] = stack
clean_segments rooted stack (seg ∷ segs) =
    clean_segments rooted
      (if is_skipped seg then stack else if is_dot_dot seg then go_up rooted stack else seg ∷ stack)
      segs

or_dot : Bytes → Bytes
or_dot [] = b'.' ∷ []
or_dot (c ∷ s) = c ∷ s

unfoldable pub clean : Bytes → Bytes
unfolding clean_segments or_dot
clean path = elim (has_prefix path slash) [
  | true ↦ b'/' ∷ join b'/' (reverse (clean_segments true [] (split b'/' path)))
  | false ↦ or_dot (join b'/' (reverse (clean_segments false [] (split b'/' path))))
]

-- `filepath.Join` of two elements.
unfoldable pub file_join : Bytes → Bytes → Bytes
file_join [] [] = []
file_join [] (c ∷ b) = clean (c ∷ b)
file_join (c ∷ a) [] = clean (c ∷ a)
file_join (c ∷ a) (d ∷ b) = clean ((c ∷ a) ++ b'/' ∷ (d ∷ b))

-- `filepath.Abs`, given what `os.Getwd` returns.
unfoldable pub abs : Option Bytes → Bytes → Option Bytes
abs wd path = elim (has_prefix path slash) [
  | true ↦ some (clean path)
  | false ↦ elim wd [ none ↦ none | some dir ↦ some (file_join dir path) ]
]

unfoldable pub is_local : Bytes → Bool
is_local path =
    if bytes_eq path [] || has_prefix path slash
    then false
    else (let p =
          if any (λ s. bytes_eq s (b'.' ∷ []) || is_dot_dot s) (split b'/' path)
          then clean path
          else path in
        not (bytes_eq p (b'.' ∷ b'.' ∷ []) || has_prefix p (b'.' ∷ b'.' ∷ b'/' ∷ [])))
