-- ===== src/Hookinstaller.antt =====
-- internal/hookinstaller: the entry of the session hook in the settings files of four clients. What
-- package encoding/json does is a parameter; a map decoded from `null` is nil, and an assignment to
-- a nil map panics. A client's file is found by `ConfigPath`, which only joins paths.
use docsiq.Prelude.{
  ℕ, ◌≡◌, refl, Bool, true, false, ◌&&◌, ◌||◌, not, Option, none, some, List, [], ◌∷◌, ◌++◌, any,
  filter, if◌then◌else◌,
}
use docsiq.Prelude.Text.{Bytes, codes, bytes_eq, contains, contains_byte, has_prefix}
use docsiq.Prelude.Space.{trim_space}
pub mod Claude
pub mod Cursor
pub mod Laws
mod Tests

-- A Go map, by its entries.
abbrev pub Map : Type 0 → Type 0
Map V = List (Bytes × V)

module _ {V : Type 0} where
  abbrev pub lookup : Map V → Bytes → Option V
  lookup [] k = none
  lookup ((j, v) ∷ m) k = let rest = lookup m k in if bytes_eq j k then some v else rest

  abbrev pub put : Map V → Bytes → V → Map V
  put [] k v = (k, v) ∷ []
  put ((j, w) ∷ m) k v = let rest = put m k v in if bytes_eq j k then (k, v) ∷ m else (j, w) ∷ rest

  abbrev pub remove : Map V → Bytes → Map V
  remove [] k = []
  remove ((j, w) ∷ m) k = let rest = remove m k in if bytes_eq j k then rest else (j, w) ∷ rest

-- A settings file: none, one that cannot be read, or its bytes.
pub data File : Type 0 where
  missing unreadable : File
  content : Bytes → File

pub data Outcome : Type 0 where
  done bad_path read_error parse_error write_error nil_map_panic : Outcome

-- What the program decodes and encodes. The decoding of a map is its error, or a map or nil; where
-- the error is ignored, `texts` and `cursor` are what the destination holds afterwards.
pub record Json : Type 0 where
  pub settings : Bytes → Option (Option (Map Bytes))
  pub encode_settings : Map Bytes → Option Bytes
  pub texts : Bytes → Bool × Option (Map Bytes)
  pub encode_texts : Map Bytes → Bytes
  pub cursor : Bytes → Bool × Option Bytes
  pub encode_cursor : Option Bytes → Bytes
  pub groups : Bytes → Option (Option (Map (List Bytes)))
  pub encode_groups : Map (List Bytes) → Option Bytes
  pub group_commands : Bytes → Option (List Bytes)
  pub flat_entry : Bytes → Option (Bytes × Bytes)
  pub encode_group : Bytes → Bytes

abbrev pub hooks_key : Bytes
hooks_key = codes "hooks"

-- `validateHookPath`
unfoldable pub validate_hook_path : Bytes → Bool
validate_hook_path path =
    let p = trim_space path in
    not (bytes_eq p [])
    && (not (contains_byte p 0) && (not (contains p (codes "..")) && has_prefix p (codes "/")))

-- `looksLikeDocsiqHook`
unfoldable pub looks_like_docsiq_hook : Bytes → Bool
looks_like_docsiq_hook cmd =
    if bytes_eq cmd []
    then false
    else contains cmd (codes "/docsiq/hooks/hook.sh")
      || (contains cmd (codes "/.docsiq/hooks/hook.sh") || contains cmd (codes "docsiq-hook.sh"))

pub data Settings : Type 0 where
  failed : Outcome → Settings
  read : Option (Map Bytes) → Settings

abbrev pub hooks_raw : Option (Map Bytes) → Option Bytes
hooks_raw none = none
hooks_raw (some s) = lookup s hooks_key

abbrev pub is_ours : Option Bytes → Bool
is_ours none = false
is_ours (some cur) = looks_like_docsiq_hook cur

-- The hooks that are left, a nil map being as empty as an empty one.
abbrev pub flat_left : Bytes → Option (Map Bytes) → Map Bytes
flat_left event none = []
flat_left event (some h) = if is_ours (lookup h event) then remove h event else h

module _ (json : Json) where
  open json use {settings, encode_settings, texts, encode_texts}

  unfoldable pub read_json_map : File → Settings
  read_json_map missing = read (some [])
  read_json_map unreadable = failed read_error
  read_json_map (content raw) = elim (trim_space raw) [
    | [] ↦ read (some [])
    | c ∷ s ↦ elim (settings raw) [ none ↦ failed parse_error | some m ↦ read m ]
  ]

  -- The temporary file replaces the old one, or the old one stays; `writable` tells whether every
  -- call of the file system succeeds.
  unfoldable pub write_json_map_atomic : Bool → File → Map Bytes → File × Outcome
  write_json_map_atomic writable file m = elim (encode_settings m) [
    | none ↦ (file, write_error)
    | some buf ↦ if writable then (content (buf ++ 10 ∷ []), done) else (file, write_error)
  ]

  -- `settings["hooks"] = encoded`, and the write.
  unfoldable pub store_hooks : Bool → File → Option (Map Bytes) → Bytes → File × Outcome
  store_hooks writable file none encoded = (file, nil_map_panic)
  store_hooks writable file (some s) encoded =
      write_json_map_atomic writable file (put s hooks_key encoded)

  unfoldable pub drop_hooks : Bool → File → Map Bytes → File × Outcome
  drop_hooks writable file s = write_json_map_atomic writable file (remove s hooks_key)

  -- `hooks := map[string]string{}` and the decoding of the section, if it has bytes.
  unfoldable pub flat_hooks : Option Bytes → Option (Map Bytes)
  flat_hooks none = some []
  flat_hooks (some []) = some []
  flat_hooks (some (c ∷ raw)) = (texts (c ∷ raw)).1

  -- Codex and Copilot, whose section maps an event's name to a command.
  module _ (event : Bytes) where
    unfoldable pub flat_install : Bool → File → Bytes → File × Outcome
    flat_install writable file hook_path =
        if not (validate_hook_path hook_path) then (file, bad_path) else elim (read_json_map file) [
          | failed e ↦ (file, e)
          | read s ↦ elim (flat_hooks (hooks_raw s)) [
            | none ↦ (file, nil_map_panic)
            | some h ↦ store_hooks writable file s (encode_texts (put h event hook_path))
          ]
        ]

    unfoldable pub flat_uninstall : Bool → File → File × Outcome
    flat_uninstall writable file = elim (read_json_map file) [
      | failed e ↦ (file, e)
      | read none ↦ (file, done)
      | read (some s) ↦ elim (lookup s hooks_key) [
        | none ↦ (file, done)
        | some raw ↦ elim (flat_left event (texts raw).1) [
          | [] ↦ drop_hooks writable file s
          | e ∷ h ↦ store_hooks writable file (some s) (encode_texts (e ∷ h))
        ]
      ]
    ]

    unfoldable pub flat_status : File → Bool
    flat_status file = elim (read_json_map file) [
      | failed e ↦ false
      | read s ↦ elim (hooks_raw s) [
        | none ↦ false
        | some raw ↦
            if (texts raw).0
            then false
            else elim (texts raw).1 [ none ↦ false | some h ↦ is_ours (lookup h event) ]
      ]
    ]

  -- The two clients that share the flat section.
  abbrev pub codex_event : Bytes
  codex_event = codes "SessionStart"

  abbrev pub copilot_event : Bytes
  copilot_event = codes "session-start"

  abbrev pub codex_install : Bool → File → Bytes → File × Outcome
  codex_install = flat_install codex_event

  abbrev pub codex_uninstall : Bool → File → File × Outcome
  codex_uninstall = flat_uninstall codex_event

  abbrev pub codex_status : File → Bool
  codex_status = flat_status codex_event

  abbrev pub copilot_install : Bool → File → Bytes → File × Outcome
  copilot_install = flat_install copilot_event

  abbrev pub copilot_uninstall : Bool → File → File × Outcome
  copilot_uninstall = flat_uninstall copilot_event

  abbrev pub copilot_status : File → Bool
  copilot_status = flat_status copilot_event
