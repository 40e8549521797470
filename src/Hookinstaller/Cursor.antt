-- ===== src/Hookinstaller/Cursor.antt =====
-- internal/hookinstaller/cursor.go: Cursor's settings, whose section is a struct.
use docsiq.Prelude.{Bool, false, not, none, some, if◌then◌else◌}
use docsiq.Prelude.Text.{Bytes}
use docsiq.Hookinstaller.{
  lookup, File, Outcome, done, bad_path, Json, hooks_key, validate_hook_path,
  looks_like_docsiq_hook, failed, read, read_json_map, store_hooks, drop_hooks, hooks_raw,
}

module _ (json : Json) where
  open json use {cursor, encode_cursor}

  -- Cursor, whose section is a struct with at most one command.
  unfoldable pub cursor_install : Bool → File → Bytes → File × Outcome
  cursor_install writable file hook_path =
      if not (validate_hook_path hook_path)
      then (file, bad_path)
      else elim (read_json_map json file) [
        | failed e ↦ (file, e)
        | read s ↦ store_hooks json writable file s (encode_cursor (some hook_path))
      ]

  unfoldable pub cursor_uninstall : Bool → File → File × Outcome
  cursor_uninstall writable file = elim (read_json_map json file) [
    | failed e ↦ (file, e)
    | read none ↦ (file, done)
    | read (some s) ↦ elim (lookup s hooks_key) [
      | none ↦ (file, done)
      | some raw ↦ elim (cursor raw).1 [
        | none ↦ drop_hooks json writable file s
        | some cmd ↦
            if looks_like_docsiq_hook cmd
            then drop_hooks json writable file s
            else store_hooks json writable file (some s) (encode_cursor (some cmd))
      ]
    ]
  ]

  unfoldable pub cursor_status : File → Bool
  cursor_status file = elim (read_json_map json file) [
    | failed e ↦ false
    | read s ↦ elim (hooks_raw s) [
      | none ↦ false
      | some raw ↦
          if (cursor raw).0
          then false
          else elim (cursor raw).1 [ none ↦ false | some cmd ↦ looks_like_docsiq_hook cmd ]
    ]
  ]
