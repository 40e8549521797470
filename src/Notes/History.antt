-- ===== src/Notes/History.antt =====
-- internal/notes/history.go: the message of a note's commit. Git itself is not modelled.
use docsiq.Prelude.{
  ℕ, zero, suc, ◌+◌, ◌*◌, ◌≡◌, Bool, true, false, ◌&&◌, ◌||◌, not, Option, none, some, List, [],
  ◌∷◌, ◌++◌, length, take, filter, any, all, get_elem?, ltb, leb, ◌==◌, if◌then◌else◌,
}
use docsiq.Prelude.Text.{Bytes, codes, bytes_eq, has_prefix}
pub mod Trailer
mod Tests

abbrev pub max_commit_msg_bytes : ℕ
max_commit_msg_bytes = 8 * 1024

-- `s[cut]&0xC0 == 0x80`
abbrev pub is_continuation : Option ℕ → Bool
is_continuation none = false
is_continuation (some b) = leb 128 b && ltb b 192

-- The loop that walks back to the start of a rune.
unfoldable pub rune_start : Bytes → ℕ → ℕ
rune_start s zero = 0
rune_start s (suc n) =
    let back = rune_start s n in if is_continuation (get_elem? s (suc n)) then back else suc n

-- The three bytes of the ellipsis.
abbrev pub ellipsis : Bytes
ellipsis = 226 ∷ 128 ∷ 166 ∷ []

unfoldable pub truncate_for_commit : Bytes → Bytes
truncate_for_commit s =
    if leb (length s) max_commit_msg_bytes
    then s
    else take (rune_start s max_commit_msg_bytes) s ++ ellipsis

abbrev pub is_line_end : ℕ → Bool
is_line_end c = c == b'\n' || c == b'\r'

-- The line of the author, without its line breaks.
abbrev pub author_line : Bytes → Bytes
author_line author =
    let a = truncate_for_commit (filter (λ c. not (is_line_end c)) author) in
    codes "Co-Authored-By: " ++ (a ++ (codes " <" ++ (a ++ codes "@local>")))

-- `repair` is what `strings.Map` makes of bytes that are not UTF-8.
unfoldable pub build_commit_message : (Bytes → Bytes) → Bytes → Bytes → Bytes
build_commit_message repair subject [] = truncate_for_commit subject
build_commit_message repair subject (c ∷ author) =
    truncate_for_commit subject ++ (b'\n' ∷ b'\n' ∷ author_line (repair (c ∷ author)))
