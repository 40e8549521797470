-- ===== src/Notes/Key/Safe.antt =====
-- What `ValidateKey` accepts.
use docsiq.Prelude.{
  ◌≤◌, ◌≡◌, ◌↔◌, refl, false, none, List, [], ◌∷◌, length, ◌==◌, arith, inl, inr, Bool-cases, All,
}
use docsiq.Prelude.FilePath.Clean.{IsName}
use docsiq.Prelude.Split.{split, split-cons}
use docsiq.Prelude.Text.{Bytes, bytes_eq, bytes_eq_iff, has_prefix, contains_byte}
use docsiq.Notes.Key.{dot, dot_dot, max_key_len, check_segments, validate_key}

pub record IsSafe (key : Bytes) : Type 0 where
  pub short : length key ≤ max_key_len
  pub no_null : contains_byte key 0 ≡ false
  pub no_backslash : contains_byte key b'\\' ≡ false
  pub names : All IsName (split b'/' key)

check_segments_sound : (segs : List Bytes) → check_segments segs ≡ none → All IsName segs
unfolding check_segments
check_segments_sound [] h = tt
check_segments_sound (seg ∷ segs) h = ground (
  arith,
  check_segments_sound segs,
  bytes_eq_iff seg [],
  bytes_eq_iff seg dot,
  bytes_eq_iff seg dot_dot,
)

check_segments_complete : (segs : List Bytes) → All IsName segs → check_segments segs ≡ none
unfolding check_segments
check_segments_complete [] h = refl
check_segments_complete (seg ∷ segs) h = ground (
  arith,
  check_segments_complete segs,
  bytes_eq_iff seg [],
  bytes_eq_iff seg dot,
  bytes_eq_iff seg dot_dot,
)

validate_key_sound : (key : Bytes) → validate_key key ≡ none → IsSafe key
unfolding validate_key
validate_key_sound key h = ground (arith, check_segments_sound (split b'/' key))

-- A key all of whose segments are names is neither empty nor absolute.
pub names_relative :
    (key : Bytes)
    → All IsName (split b'/' key)
    → (bytes_eq key [] ≡ false) × (has_prefix key (b'/' ∷ []) ≡ false)
names_relative [] h = unfold split in absurd (h.0.0 refl)
names_relative (c ∷ key) h = elim (Bool-cases (c == b'/')) [
  | inl e ↦
      let h' : All IsName ([] ∷ split b'/' key) = rw (split-cons b'/' c key, e) at h in
      absurd (h'.0.0 refl)
  | inr e ↦ ground arith
]

-- `ValidateKey` accepts exactly the keys of at most 512 bytes, with no NUL byte and no backslash,
-- every segment of which is a name: not empty, not `.` and not `..`.
pub validate_key-IsSafe : (key : Bytes) → (validate_key key ≡ none) ↔ IsSafe key
unfolding validate_key
validate_key-IsSafe key = (
  validate_key_sound key,
  λ s. ground (arith, check_segments_complete (split b'/' key) s.names, names_relative key s.names),
)
