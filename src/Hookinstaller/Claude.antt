-- ===== src/Hookinstaller/Claude.antt =====
-- internal/hookinstaller/claude.go: Claude's settings, where an event has a list of entries.
use docsiq.Prelude.{
  Bool, false, ◌&&◌, ◌||◌, not, Option, none, some, List, [], ◌∷◌, ◌++◌, any, filter, if◌then◌else◌,
}
use docsiq.Prelude.Text.{Bytes, codes, bytes_eq}
use docsiq.Hookinstaller.{
  Map, lookup, put, remove, File, Outcome, done, bad_path, parse_error, write_error, nil_map_panic,
  Json, hooks_key, validate_hook_path, looks_like_docsiq_hook, failed, read, read_json_map,
  store_hooks, drop_hooks, hooks_raw,
}

module _ (json : Json) where
  open json use {groups, encode_groups, group_commands, flat_entry, encode_group}

  -- Claude: an entry of a list is ours if a command of its group satisfies the test, or the command
  -- of the flat shape does.
  unfoldable pub is_our_claude_entry : (Bytes → Bool) → Bytes → Bool
  is_our_claude_entry test e =
      elim (group_commands e) [ none ↦ false | some cmds ↦ any test cmds ] || elim (flat_entry e) [
        | none ↦ false
        | some (kind, cmd) ↦ bytes_eq kind (codes "command") && test cmd
      ]

  abbrev pub session_start : Bytes
  session_start = codes "SessionStart"

  abbrev pub entries : Map (List Bytes) → List Bytes
  entries h = elim (lookup h session_start) [ none ↦ [] | some es ↦ es ]

  unfoldable pub claude_hooks : Option Bytes → Option (Option (Map (List Bytes)))
  claude_hooks none = some (some [])
  claude_hooks (some []) = some (some [])
  claude_hooks (some (c ∷ raw)) = groups (c ∷ raw)

  abbrev pub claude_cleaned : (Bytes → Bool) → Map (List Bytes) → List Bytes
  claude_cleaned test h = filter (λ e. not (is_our_claude_entry test e)) (entries h)

  unfoldable pub store_groups : Bool → File → Option (Map Bytes) → Map (List Bytes) → File × Outcome
  store_groups writable file s h = elim (encode_groups h) [
    | none ↦ (file, write_error)
    | some encoded ↦ store_hooks json writable file s encoded
  ]

  unfoldable pub claude_install : Bool → File → Bytes → File × Outcome
  claude_install writable file hook_path =
      if not (validate_hook_path hook_path)
      then (file, bad_path)
      else elim (read_json_map json file) [
        | failed e ↦ (file, e)
        | read s ↦ elim (claude_hooks (hooks_raw s)) [
          | none ↦ (file, parse_error)
          | some none ↦ (file, nil_map_panic)
          | some (some h) ↦ store_groups writable file s (
              put h session_start
                (claude_cleaned (λ c. bytes_eq c hook_path) h ++ encode_group hook_path ∷ []))
        ]
      ]

  abbrev pub claude_left : Option (Map (List Bytes)) → Map (List Bytes)
  claude_left none = []
  claude_left (some h) = elim (claude_cleaned looks_like_docsiq_hook h) [
    | [] ↦ remove h session_start
    | e ∷ es ↦ put h session_start (e ∷ es)
  ]

  unfoldable pub claude_uninstall : Bool → File → File × Outcome
  claude_uninstall writable file = elim (read_json_map json file) [
    | failed e ↦ (file, e)
    | read none ↦ (file, done)
    | read (some s) ↦ elim (lookup s hooks_key) [
      | none ↦ (file, done)
      | some [] ↦ (file, done)
      | some (c ∷ raw) ↦ elim (groups (c ∷ raw)) [
        | none ↦ (file, parse_error)
        | some h ↦ elim (claude_left h) [
          | [] ↦ drop_hooks json writable file s
          | e ∷ es ↦ store_groups writable file (some s) (e ∷ es)
        ]
      ]
    ]
  ]

  unfoldable pub claude_status : File → Bool
  claude_status file = elim (read_json_map json file) [
    | failed e ↦ false
    | read s ↦ elim (hooks_raw s) [
      | none ↦ false
      | some raw ↦ elim (groups raw) [
        | none ↦ false
        | some none ↦ false
        | some (some h) ↦ any (is_our_claude_entry looks_like_docsiq_hook) (entries h)
      ]
    ]
  ]
