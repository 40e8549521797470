-- ===== src/Hookinstaller/Laws.antt =====
-- What an installation and a removal do to the settings and to the status.
use mathlib.Core.Path.{subst}
use docsiq.Prelude.{
  ◌≡◌, refl, sym, ap, ◌∙◌, ◌⊎◌, Bool, true, false, Option, none, some, [], ◌∷◌, ◌++◌, arith,
  Bool-cases, Option-cases, List-cases, inl, inr, ◌≢◌,
}
use docsiq.Prelude.Text.{Bytes, bytes_eq, bytes_eq_iff, bytes_eq_refl}
use docsiq.Prelude.Space.{trim_space}
use docsiq.Hookinstaller.{
  Map, lookup, put, remove, File, missing, unreadable, content, done, read_error, parse_error, Json,
  hooks_key, validate_hook_path, looks_like_docsiq_hook, failed, read, read_json_map,
  write_json_map_atomic, store_hooks, drop_hooks, hooks_raw, flat_hooks, flat_install, is_ours,
  flat_left, flat_uninstall, flat_status,
}

module _ {V : Type 0} where
  lookup-put_same : (m : Map V) (k : Bytes) (v : V) → lookup (put m k v) k ≡ some v
  lookup-put_same [] k v = rw (bytes_eq_refl k) refl
  lookup-put_same ((j, w) ∷ m) k v = ground (arith, lookup-put_same m k v, bytes_eq_refl k)

  lookup-put_other :
      (m : Map V) (k : Bytes) (v : V) (i : Bytes)
      → bytes_eq k i ≡ false
      → lookup (put m k v) i ≡ lookup m i
  lookup-put_other [] k v i n = rw n refl
  lookup-put_other ((j, w) ∷ m) k v i n =
      ground
        (arith, lookup-put_other m k v i n, bytes_eq_iff j k, bytes_eq_iff j i, bytes_eq_iff k i)

  lookup-remove_same : (m : Map V) (k : Bytes) → lookup (remove m k) k ≡ none
  lookup-remove_same [] k = refl
  lookup-remove_same ((j, w) ∷ m) k = ground (arith, lookup-remove_same m k)

-- The test of what is there, if anything.
abbrev pub AllIn : (Bytes → Bool) → Option Bytes → Type 0
AllIn test none = Unit
AllIn test (some s) = test s ≡ true

-- The documented round trips of encoding/json that the program relies on. `utf8` tells the strings
-- of valid UTF-8, which are encoded without loss; a decoded string is one. A map that was encoded,
-- with a newline added, is not blank and is decoded to a map that again has a section `hooks` or
-- not. The section's bytes may be indented otherwise, but if they encoded a map of hooks, they are
-- decoded to one with the same entry for the event, if that is valid UTF-8.
pub record JsonLaws (json : Json) (event : Bytes) : Type 0 where
  pub not_blank :
      (m : Map Bytes) {c : Bytes} → json.encode_settings m ≡ some c → trim_space (c ++ 10 ∷ []) ≢ []
  pub utf8 : Bytes → Bool
  pub without_hooks :
      (m : Map Bytes) {c : Bytes}
      → json.encode_settings m ≡ some c
      → lookup m hooks_key ≡ none
      → (n : Map Bytes) × (json.settings (c ++ 10 ∷ []) ≡ some (some n))
        × (lookup n hooks_key ≡ none)
  pub with_hooks :
      (m h : Map Bytes) {c : Bytes}
      → json.encode_settings m ≡ some c
      → lookup m hooks_key ≡ some (json.encode_texts h)
      → AllIn utf8 (lookup h event)
      → (n : Map Bytes) × (raw : Bytes) × (g : Map Bytes) × (json.settings (c ++ 10 ∷ [])
          ≡ some (some n))
        × (lookup n hooks_key ≡ some raw)
        × (json.texts raw ≡ (false, some g))
        × (lookup g event ≡ lookup h event)
  pub decoded_utf8 :
      (raw : Bytes) {g : Map Bytes} → (json.texts raw).1 ≡ some g → AllIn utf8 (lookup g event)

module _ (json : Json) (event : Bytes) (laws : JsonLaws json event) where
  read-content :
      (raw : Bytes) {r : Option (Map Bytes)}
      → trim_space raw ≢ []
      → json.settings raw ≡ some r
      → read_json_map json (content raw) ≡ read r
  unfolding read_json_map
  read-content raw b e = elim (List-cases (trim_space raw)) [
    | inl z ↦ absurd (b z)
    | inr (c, s, z) ↦ rw (z, e, read_json_map) refl
  ]

  -- What a write that succeeds leaves.
  written :
      (writable : Bool) (file : File) (m : Map Bytes) {f : File}
      → write_json_map_atomic json writable file m ≡ (f, done)
      → (c : Bytes) × (json.encode_settings m ≡ some c) × (f ≡ content (c ++ 10 ∷ []))
  unfolding write_json_map_atomic
  written writable file m {f} h = elim (Option-cases (json.encode_settings m)) [
    | inl e ↦ absurd (ground arith)
    | inr (c, e) ↦ (c, e, ground arith)
  ]

  reads_back :
      (m : Map Bytes) (c : Bytes) {f : File} {n : Map Bytes}
      → json.encode_settings m ≡ some c
      → f ≡ content (c ++ 10 ∷ [])
      → json.settings (c ++ 10 ∷ []) ≡ some (some n)
      → read_json_map json f ≡ read (some n)
  reads_back m c e q d =
      ap (read_json_map json) q ∙ read-content (c ++ 10 ∷ []) (laws.not_blank m e) d

  -- The status after hooks were written.
  status_of_texts :
      (writable : Bool) (file : File) (m h : Map Bytes) {f : File}
      → write_json_map_atomic json writable file (put m hooks_key (json.encode_texts h)) ≡ (f, done)
      → AllIn laws.utf8 (lookup h event)
      → flat_status json event f ≡ is_ours (lookup h event)
  unfolding flat_status
  status_of_texts writable file m h {f} w u =
      let p : Map Bytes = put m hooks_key (json.encode_texts h) in
      let (c, e, q) = written writable file p w in
      let (n, raw, g, d, l, t, k) =
        laws.with_hooks p h e (lookup-put_same m hooks_key (json.encode_texts h)) u in
      rw (reads_back p c e q d, flat_status) (rw (l, flat_status) (rw t (ap (is_ours) k)))

  install-store :
      (writable : Bool) (file : File) (hook_path : Bytes) {f : File} {s h : Map Bytes}
      → flat_install json event writable file hook_path ≡ (f, done)
      → read_json_map json file ≡ read (some s)
      → flat_hooks json (lookup s hooks_key) ≡ some h
      → write_json_map_atomic json writable file
          (put s hooks_key (json.encode_texts (put h event hook_path)))
        ≡ (f, done)
  unfolding flat_install store_hooks
  install-store writable file hook_path i r k = elim (Bool-cases (validate_hook_path hook_path)) [
    | inl v ↦ rw (v, r, k, flat_install) at i
    | inr v ↦ absurd (ground arith)
  ]

  read_json_map-cases :
      (file : File)
      → (read_json_map json file ≡ failed read_error)
        ⊎ ((read_json_map json file ≡ failed parse_error)
            ⊎ ((read_json_map json file ≡ read none)
                ⊎ ((s : Map Bytes) × (read_json_map json file ≡ read (some s)))))
  unfolding read_json_map
  read_json_map-cases missing = inr (inr (inr ([], refl)))
  read_json_map-cases unreadable = inl refl
  read_json_map-cases (content raw) = elim (List-cases (trim_space raw)) [
    | inl z ↦ inr (inr (inr ([], rw (z, read_json_map) refl)))
    | inr (c, s, z) ↦ elim (Option-cases (json.settings raw)) [
      | inl e ↦ inr (inl (rw (z, e, read_json_map) refl))
      | inr (none, e) ↦ inr (inr (inl (rw (z, e, read_json_map) refl)))
      | inr (some m, e) ↦ inr (inr (inr (m, rw (z, e, read_json_map) refl)))
    ]
  ]

  -- A file that an installation accepts holds settings and hooks that are maps.
  install-reads :
      (writable : Bool) (file : File) (hook_path : Bytes) {f : File}
      → flat_install json event writable file hook_path ≡ (f, done)
      → (s h : Map Bytes) × (read_json_map json file ≡ read (some s))
        × (flat_hooks json (lookup s hooks_key) ≡ some h)
  unfolding flat_install flat_hooks store_hooks
  install-reads writable file hook_path i = elim (Bool-cases (validate_hook_path hook_path)) [
    | inr v ↦ absurd (ground arith)
    | inl v ↦ elim (read_json_map-cases file) [
      | inl r ↦ absurd (cc (rw (v, r, flat_install) at i))
      | inr (inl r) ↦ absurd (cc (rw (v, r, flat_install) at i))
      | inr (inr (inl r)) ↦ absurd (cc (rw (v, r, flat_install) at i))
      | inr (inr (inr (s, r))) ↦ elim (Option-cases (flat_hooks json (lookup s hooks_key))) [
        | inl k ↦ absurd (cc (rw (v, r, k, flat_install) at i))
        | inr (h, k) ↦ (s, h, r, k)
      ]
    ]
  ]

  -- After an installation for Codex or Copilot that succeeded, the status is "installed" exactly if
  -- the path looks like the program's own hook. It is supposed that the path is valid UTF-8, and
  -- the round trips of `JsonLaws`.
  pub flat_status-flat_install :
      (writable : Bool) (file : File) (hook_path : Bytes) {f : File}
      → laws.utf8 hook_path ≡ true
      → flat_install json event writable file hook_path ≡ (f, done)
      → flat_status json event f ≡ looks_like_docsiq_hook hook_path
  flat_status-flat_install writable file hook_path {f} u i =
      let (s, h, r, k) = install-reads writable file hook_path i in
      let w = install-store writable file hook_path i r k in
      let e : lookup (put h event hook_path) event ≡ some hook_path =
        lookup-put_same h event hook_path in
      status_of_texts writable file s (put h event hook_path) w (rw e u) ∙ ap is_ours e

  flat_left-others : (x : Option (Map Bytes)) → is_ours (lookup (flat_left event x) event) ≡ false
  flat_left-others none = refl
  flat_left-others (some h) = elim (Bool-cases (is_ours (lookup h event))) [
    | inl o ↦ rw o (ap is_ours (lookup-remove_same h event))
    | inr o ↦ rw o o
  ]

  -- What is left comes from the decoded section.
  flat_left-utf8 :
      (raw : Bytes) → AllIn laws.utf8 (lookup (flat_left event (json.texts raw).1) event)
  flat_left-utf8 raw = elim (Option-cases (json.texts raw).1) [
    | inl e ↦ rw e tt
    | inr (g, e) ↦ elim (Bool-cases (is_ours (lookup g event))) [
      | inl o ↦ rw (e, flat_left) (rw o (rw (lookup-remove_same g event) tt))
      | inr o ↦ rw (e, flat_left) (rw o (laws.decoded_utf8 raw e))
    ]
  ]

  status_without :
      (f : File) (s : Option (Map Bytes))
      → read_json_map json f ≡ read s
      → hooks_raw s ≡ none
      → flat_status json event f ≡ false
  unfolding flat_status
  status_without f s r l = rw (r, flat_status) (rw (l, flat_status) refl)

  uninstalled_section :
      (writable : Bool) (file : File) (s : Map Bytes) (raw : Bytes) {f : File}
      → read_json_map json file ≡ read (some s)
      → lookup s hooks_key ≡ some raw
      → flat_uninstall json event writable file ≡ (f, done)
      → flat_status json event f ≡ false
  unfolding flat_uninstall drop_hooks store_hooks
  uninstalled_section writable file s raw {f} r l i =
      elim (List-cases (flat_left event (json.texts raw).1)) [
        | inl z ↦
            let m : Map Bytes = remove s hooks_key in
            let (c, e, q) = written writable file m (rw (r, l, z, flat_uninstall) at i) in
            let (n, d, k) = laws.without_hooks m e (lookup-remove_same s hooks_key) in
            status_without f (some n) (reads_back m c e q d) k
        | inr (x, xs, z) ↦
            status_of_texts writable file s (x ∷ xs) (rw (r, l, z, flat_uninstall) at i)
              (subst (λ m. AllIn laws.utf8 (lookup m event)) z (flat_left-utf8 raw))
            ∙ ap (λ m. is_ours (lookup m event)) (sym z)
            ∙ flat_left-others (json.texts raw).1
      ]

  -- After a removal for Codex or Copilot that succeeded, the status is "not installed", whatever the
  -- file held. The round trips of `JsonLaws` are supposed.
  pub flat_status-flat_uninstall :
      (writable : Bool) (file : File) {f : File}
      → flat_uninstall json event writable file ≡ (f, done)
      → flat_status json event f ≡ false
  unfolding flat_uninstall
  flat_status-flat_uninstall writable file {f} i = elim (read_json_map-cases file) [
    | inl r ↦ absurd (cc (rw (r, flat_uninstall) at i))
    | inr (inl r) ↦ absurd (cc (rw (r, flat_uninstall) at i))
    | inr (inr (inl r)) ↦
        let q : file ≡ f = ap (λ x. x.0) (rw (r, flat_uninstall) at i) in
        status_without f none (ap (read_json_map json) (sym q) ∙ r) refl
    | inr (inr (inr (s, r))) ↦ elim (Option-cases (lookup s hooks_key)) [
      | inl l ↦
          let q : file ≡ f = ap (λ x. x.0) (rw (r, l, flat_uninstall) at i) in
          status_without f (some s) (ap (read_json_map json) (sym q) ∙ r) l
      | inr (raw, l) ↦ uninstalled_section writable file s raw r l i
    ]
  ]
