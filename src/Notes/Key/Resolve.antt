-- ===== src/Notes/Key/Resolve.antt =====
-- Where `resolvePath` puts a note.
use mathlib.Core.Path.{subst}
use docsiq.Prelude.{
  All-append, Option-cases, ◌≡◌, ◌≢◌, refl, sym, ap, ◌∙◌, true, false, ◌||◌, none, some, List, [],
  ◌∷◌, ◌++◌, arith, inl, inr, Bool-cases, List-cases, All, any, append_assoc,
}
use docsiq.Prelude.FilePath.{file_join, abs, is_local, is_dot_dot, slash}
use docsiq.Prelude.FilePath.Clean.{
  IsName, IsElement, rooted, clean-rooted, join-rooted, abs_is_rooted,
}
use docsiq.Prelude.Split.{split, split-ne-nil, split-lacks, join, join-append, join-split, lacks}
use docsiq.Prelude.Text.{
  Bytes, bytes_eq, bytes_eq_iff, has_prefix, has_prefix_split, has_prefix-append,
}
use docsiq.Notes.Key.{
  md_suffix, check_inside, validate_key, resolve_path, Resolved, ok, err, PathError,
}
use docsiq.Notes.Key.Safe.{IsSafe, validate_key-IsSafe, names_relative}

-- Appends to the last part.
on_last : Bytes → List Bytes → List Bytes
on_last w [] = w ∷ []
on_last w (p ∷ []) = (p ++ w) ∷ []
on_last w (p ∷ q ∷ ps) = p ∷ on_last w (q ∷ ps)

split-md : (s : Bytes) → split b'/' (s ++ md_suffix) ≡ on_last md_suffix (split b'/' s)
unfolding split on_last
split-md [] = refl
split-md (c ∷ s) = elim (List-cases (split b'/' s)) [
  | inl e ↦ absurd (split-ne-nil b'/' s e)
  | inr (p, [], e) ↦ ground (arith, split-md s)
  | inr (p, q ∷ ps, e) ↦ ground (arith, split-md s)
]

md-IsName : (p : Bytes) → p ≢ [] → IsName (p ++ md_suffix)
md-IsName [] h = absurd (h refl)
md-IsName (c ∷ []) h = ground arith
md-IsName (c ∷ d ∷ []) h = ground arith
md-IsName (c ∷ d ∷ e ∷ p) h = ground arith

on_last-IsName : (ps : List Bytes) → ps ≢ [] → All IsName ps → All IsName (on_last md_suffix ps)
unfolding on_last
on_last-IsName [] n h = absurd (n refl)
on_last-IsName (p ∷ []) n h = (md-IsName p h.0.0, tt)
on_last-IsName (p ∷ q ∷ ps) n h = (h.0, on_last-IsName (q ∷ ps) (λ e. cc) h.1)

zip_elements :
    (ps : List Bytes) → All IsName ps → All (λ p. lacks b'/' p ≡ true) ps → All IsElement ps
zip_elements [] h k = tt
zip_elements (p ∷ ps) h k = ((h.0, k.0), zip_elements ps h.1 k.1)

-- The file name of a valid key is a relative path of names.
file_names : (key : Bytes) → IsSafe key → All IsName (split b'/' (key ++ md_suffix))
file_names key s =
    rw (split-md key) (on_last-IsName (split b'/' key) (split-ne-nil b'/' key) s.names)

file_elements : (key : Bytes) → IsSafe key → All IsElement (split b'/' (key ++ md_suffix))
file_elements key s = zip_elements _ (file_names key s) (split-lacks b'/' (key ++ md_suffix))

no_dots :
    (ps : List Bytes) → All IsName ps → any (λ s. bytes_eq s (b'.' ∷ []) || is_dot_dot s) ps ≡ false
no_dots [] h = refl
no_dots (p ∷ ps) h =
    ground (arith, no_dots ps, bytes_eq_iff p (b'.' ∷ []), bytes_eq_iff p (b'.' ∷ b'.' ∷ []))

dots_split : split b'/' (b'.' ∷ b'.' ∷ []) ≡ (b'.' ∷ b'.' ∷ []) ∷ []
unfolding split
dots_split = refl

up_split : (r : Bytes) → split b'/' (b'.' ∷ b'.' ∷ b'/' ∷ r) ≡ (b'.' ∷ b'.' ∷ []) ∷ split b'/' r
unfolding split
up_split r = refl

not_up :
    (rel : Bytes)
    → All IsName (split b'/' rel)
    → (bytes_eq rel (b'.' ∷ b'.' ∷ []) || has_prefix rel (b'.' ∷ b'.' ∷ b'/' ∷ [])) ≡ false
not_up rel h = elim (Bool-cases (bytes_eq rel (b'.' ∷ b'.' ∷ []))) [
  | inl e ↦
      let h' : All IsName ((b'.' ∷ b'.' ∷ []) ∷ []) =
        rw ((bytes_eq_iff rel (b'.' ∷ b'.' ∷ [])).0 e, dots_split) at h in
      absurd (h'.0.2 refl)
  | inr e ↦ elim (Bool-cases (has_prefix rel (b'.' ∷ b'.' ∷ b'/' ∷ []))) [
    | inl f ↦
        let (r, q) = has_prefix_split rel (b'.' ∷ b'.' ∷ b'/' ∷ []) f in
        let h' : All IsName ((b'.' ∷ b'.' ∷ []) ∷ split b'/' r) = rw (q ∙ refl, up_split r) at h in
        absurd (h'.0.2 refl)
    | inr f ↦ rw (e, f)
  ]
]

names_local : (rel : Bytes) → All IsName (split b'/' rel) → is_local rel ≡ true
unfolding is_local
names_local rel h =
    let (nonempty, relative) = names_relative rel h in
    rw (nonempty, relative, no_dots (split b'/' rel) h, not_up rel h)

-- A clean base that is not the root contains what a relative path of names is joined to.
inside :
    (segs ps : List Bytes)
    → rooted segs ≢ slash
    → ps ≢ []
    → check_inside (rooted segs) (rooted (segs ++ ps)) ≡ ok (rooted segs ++ b'/' ∷ join b'/' ps)
unfolding check_inside
inside [] ps n h = absurd (n (unfold join in refl))
inside (p ∷ segs) ps n h =
    let inner = join b'/' ps in
    let base = rooted (p ∷ segs) in
    rw (ap (◌∷◌ b'/') (join-append b'/' p segs ps h)) (rw (contained base inner) refl)
  where
    contained : (base inner : Bytes) → has_prefix (base ++ b'/' ∷ inner) (base ++ b'/' ∷ []) ≡ true
    contained base inner =
        ap (λ t. has_prefix t (base ++ b'/' ∷ [])) (sym (append_assoc base (b'/' ∷ []) inner))
        ∙ has_prefix-append (base ++ b'/' ∷ []) inner

abs-rooted :
    (w : Bytes) (segs : List Bytes)
    → All IsElement segs
    → abs (some (b'/' ∷ w)) (rooted segs) ≡ some (rooted segs)
unfolding abs
abs-rooted w segs h = ap some (clean-rooted segs h)

-- The abs-and-join half of `resolvePath`.
abbrev join_inside : Bytes → Bytes → Bytes → Resolved
join_inside w key base = elim (abs (some (b'/' ∷ w)) (file_join base (key ++ md_suffix))) [
  | none ↦ err PathError.no_working_dir
  | some clean_full ↦ check_inside base clean_full
]

placed :
    (w key : Bytes) (segs : List Bytes)
    → All IsElement segs
    → rooted segs ≢ slash
    → IsSafe key
    → join_inside w key (rooted segs) ≡ ok (rooted segs ++ b'/' ∷ (key ++ md_suffix))
placed w [] segs k n s = absurd (unfold split in s.names.0.0 refl)
placed w (c ∷ key) segs k n s =
    let names = file_elements (c ∷ key) s in
    let ps = split b'/' (c ∷ key ++ md_suffix) in
    rw (join-rooted segs c (key ++ md_suffix) k names, join_inside)
      (rw (abs-rooted w (segs ++ ps) (All-append IsElement segs ps k names)) (
        inside segs ps n (split-ne-nil b'/' (c ∷ key ++ md_suffix))
        ∙ ap (λ t. ok (rooted segs ++ b'/' ∷ t)) (join-split b'/' (c ∷ key ++ md_suffix))))

placed_at :
    (w key base : Bytes)
    → (segs : List Bytes) × All IsElement segs × (base ≡ rooted segs)
    → base ≢ slash
    → IsSafe key
    → join_inside w key base ≡ ok (base ++ b'/' ∷ (key ++ md_suffix))
placed_at w key base (segs, k, e) n s =
    subst (λ b. join_inside w key b ≡ ok (b ++ b'/' ∷ (key ++ md_suffix))) (sym e)
      (placed w key segs k (λ q. n (e ∙ q)) s)

-- Every key is either refused with the error of `ValidateKey`, or its note is the file
-- `<base>/<key>.md`, where `<base>` is the absolute notes directory. It is assumed that the working
-- directory is rooted and that the notes directory is not the root of the file system.
pub resolve_path_lem :
    (w notes_dir key base : Bytes)
    → abs (some (b'/' ∷ w)) notes_dir ≡ some base
    → base ≢ slash
    → resolve_path (some (b'/' ∷ w)) notes_dir key ≡ elim (validate_key key) [
      | some e ↦ err (PathError.invalid_key e)
      | none ↦ ok (base ++ b'/' ∷ (key ++ md_suffix))
    ]
unfolding resolve_path
resolve_path_lem w notes_dir key base h n = elim (Option-cases (validate_key key)) [
  | inr (e, v) ↦ rw (v, resolve_path)
  | inl v ↦
      rw (v, resolve_path)
        (rw (names_local (key ++ md_suffix) (file_names key ((validate_key-IsSafe key).0 v)), h)
          (placed_at w key base (abs_is_rooted w notes_dir h) n ((validate_key-IsSafe key).0 v)))
]
