-- ===== src/Hookinstaller/Tests.antt =====
-- An encoding of settings that knows one section, with an installation and a removal.
use docsiq.Prelude.{
  ◌==◌, ◌≡◌, ◌≢◌, refl, ◌∙◌, ap, Bool, true, false, Option, none, some, [], ◌∷◌, ◌++◌,
  if◌then◌else◌, arith, Bool-cases, inl, inr,
}
use docsiq.Prelude.Text.{Bytes, codes, bytes_eq, bytes_eq_iff}
use docsiq.Prelude.Space.{trim_space}
use docsiq.Hookinstaller.{
  Map, lookup, missing, content, done, nil_map_panic, Json, hooks_key, looks_like_docsiq_hook,
  flat_install, flat_uninstall, flat_status, validate_hook_path, read_json_map, store_hooks,
  flat_hooks, write_json_map_atomic, drop_hooks,
}
use docsiq.Hookinstaller.Laws.{
  AllIn, JsonLaws, flat_status-flat_install, flat_status-flat_uninstall,
}

abbrev event : Bytes
event = codes "SessionStart"

abbrev hook : Bytes
hook = codes "/r/.docsiq/hooks/hook.sh"

abbrev section : Bytes
section = b'1' ∷ hook

abbrev encode_entry : Option Bytes → Bytes
encode_entry none = b'0' ∷ []
encode_entry (some v) = b'1' ∷ v

abbrev encode_section : Option Bytes → Option Bytes
encode_section none = some (codes "0")
encode_section (some raw) = if bytes_eq raw section then some (codes "1") else none

abbrev decode_trimmed : Bytes → Bool × Option (Map Bytes)
decode_trimmed [] = (true, none)
decode_trimmed (c ∷ v) =
    if c == b'n'
    then (false, none)
    else if c == b'0'
    then (false, some [])
    else (false, some ((event, v) ∷ []))

abbrev decode_texts : Bytes → Bool × Option (Map Bytes)
decode_texts [] = (true, none)
decode_texts (c ∷ v) = if c == 32 then decode_trimmed v else decode_trimmed (c ∷ v)

abbrev json : Json
json = record {
  settings = λ raw.
      if bytes_eq raw (codes "0\n")
      then some (some [])
      else if bytes_eq raw (codes "1\n")
      then some (some ((hooks_key, 32 ∷ section) ∷ []))
      else if bytes_eq raw (codes "n\n")
      then some (some ((hooks_key, codes "n") ∷ []))
      else none;
  encode_settings = λ m. encode_section (lookup m hooks_key);
  texts = decode_texts;
  encode_texts = λ m. encode_entry (lookup m event);
  cursor = λ raw. (true, none);
  encode_cursor = λ x. [];
  groups = λ raw. none;
  encode_groups = λ m. none;
  group_commands = λ raw. none;
  flat_entry = λ raw. none;
  encode_group = λ raw. raw;
}

zero_not_blank : trim_space (codes "0\n") ≢ []
unfolding trim_space
zero_not_blank e = cc

one_not_blank : trim_space (codes "1\n") ≢ []
unfolding trim_space
one_not_blank e = cc

section_not_blank :
    (x : Option Bytes) {c : Bytes} → encode_section x ≡ some c → trim_space (c ++ 10 ∷ []) ≢ []
section_not_blank none {c} e =
    let q : codes "0" ≡ c = cc in λ z. zero_not_blank (ap (λ s. trim_space (s ++ 10 ∷ [])) q ∙ z)
section_not_blank (some raw) {c} e = elim (Bool-cases (bytes_eq raw section)) [
  | inl f ↦
      let q : codes "1" ≡ c = ground arith in
      λ z. one_not_blank (ap (λ s. trim_space (s ++ 10 ∷ [])) q ∙ z)
  | inr f ↦ absurd (ground arith)
]

entry_inj : (x : Option Bytes) → encode_entry x ≡ section → some hook ≡ x
entry_inj none h = cc
entry_inj (some v) h = cc

always : (x : Option Bytes) → AllIn (λ s. true) x
always none = tt
always (some s) = refl

without_back :
    (m : Map Bytes) {c : Bytes}
    → encode_section (lookup m hooks_key) ≡ some c
    → lookup m hooks_key ≡ none
    → (n : Map Bytes) × (json.settings (c ++ 10 ∷ []) ≡ some (some n)) × (lookup n hooks_key ≡ none)
without_back m {c} e a =
    let k : some (codes "0") ≡ some c = rw a at e in
    let q : c ≡ codes "0" = cc in ([], ap (λ s. json.settings (s ++ 10 ∷ [])) q, refl)

-- The section is given back with a blank before its bytes.
with_back :
    (m : Map Bytes) (x : Option Bytes) {c : Bytes}
    → encode_section (lookup m hooks_key) ≡ some c
    → lookup m hooks_key ≡ some (encode_entry x)
    → (n : Map Bytes) × (raw : Bytes) × (g : Map Bytes) × (json.settings (c ++ 10 ∷ [])
        ≡ some (some n))
      × (lookup n hooks_key ≡ some raw)
      × (decode_texts raw ≡ (false, some g))
      × (lookup g event ≡ x)
with_back m x {c} e a =
    let b : encode_section (some (encode_entry x)) ≡ some c = rw a at e in
    elim (Bool-cases (bytes_eq (encode_entry x) section)) [
      | inl f ↦
          let q : c ≡ codes "1" = ground arith in
          (
            (hooks_key, 32 ∷ section) ∷ [],
            32 ∷ section,
            (event, hook) ∷ [],
            ap (λ s. json.settings (s ++ 10 ∷ [])) q,
            refl,
            refl,
            entry_inj x ((bytes_eq_iff (encode_entry x) section).0 f),
          )
      | inr f ↦ absurd (ground arith)
    ]

laws : JsonLaws json event
laws = record {
  not_blank = λ m e. section_not_blank (lookup m hooks_key) e;
  utf8 = λ s. true;
  without_hooks = λ m e a. without_back m e a;
  with_hooks = λ m h e a u. with_back m (lookup h event) e a;
  decoded_utf8 = λ raw {g} e. always (lookup g event);
}

installs : flat_install json event true missing hook ≡ (content (codes "1\n"), done)
unfolding flat_install validate_hook_path trim_space read_json_map flat_hooks store_hooks
    write_json_map_atomic
installs = refl

uninstalls : flat_uninstall json event true (content (codes "1\n")) ≡ (content (codes "0\n"), done)
unfolding flat_uninstall read_json_map trim_space looks_like_docsiq_hook drop_hooks
    write_json_map_atomic
uninstalls = refl

-- A section that is `null` makes an installation assign to a nil map.
null_section :
    flat_install json event true (content (codes "n\n")) hook
    ≡ (content (codes "n\n"), nil_map_panic)
unfolding flat_install validate_hook_path trim_space read_json_map flat_hooks
null_section = refl

-- A path in another data directory installs, and is not recognised.
unrecognised : looks_like_docsiq_hook (codes "/data/hooks/hook.sh") ≡ false
unfolding looks_like_docsiq_hook
unrecognised = refl

flat_status-flat_install_example :
    flat_status json event (content (codes "1\n")) ≡ looks_like_docsiq_hook hook
unfolding laws
flat_status-flat_install_example =
    flat_status-flat_install json event laws true missing hook refl installs

flat_status-flat_uninstall_example : flat_status json event (content (codes "0\n")) ≡ false
flat_status-flat_uninstall_example =
    flat_status-flat_uninstall json event laws true (content (codes "1\n")) uninstalls
