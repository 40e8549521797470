-- ===== src/Notes/Files/Refinement.antt =====
-- The notes on disk are a map from keys to texts: paths, directories and temporary files do not
-- show.
use mathlib.Core.Path.{fun_ext}
use docsiq.Prelude.{
  ◌≡◌, ◌≢◌, refl, sym, ap, ◌∙◌, not, Option, none, some, [], ◌∷◌, ◌++◌, if◌then◌else◌, arith,
  Option-cases, Bool-cases, inl, inr, length, length-append, take, take-append,
}
use docsiq.Prelude.Text.{Bytes, bytes_eq, bytes_eq_iff}
use docsiq.Prelude.FilePath.{abs, slash}
use docsiq.Notes.Frontmatter.{encode_frontmatter}
use docsiq.Notes.Key.{PathError, md_suffix, validate_key}
use docsiq.Notes.Key.Resolve.{resolve_path_lem}
use docsiq.Notes.Files.{
  Env, Disk, read_file, remove_file, Removal, removed, not_exist, remove_error, os_remove,
  replace_file, Steps, NoteError, bad_path, not_found, mkdir_failed, encode_failed, create_failed,
  write_failed, sync_failed, close_failed, rename_failed, remove_failed, Note, stamped, overlay,
  store_file, write, delete,
}

-- The specification: a text for each key.
abbrev pub Spec : Type 0
Spec = Bytes → Option Bytes

abbrev pub update : Spec → Bytes → Option Bytes → Spec
update s key v k = if bytes_eq key k then v else s k

-- The first step of a write that does not succeed.
abbrev pub first_failure : Steps → Option NoteError
first_failure io =
    if not io.create_temp
    then some create_failed
    else if not io.write_temp
    then some write_failed
    else if not io.sync_temp
    then some sync_failed
    else if not io.close_temp
    then some close_failed
    else if not io.rename
    then some rename_failed
    else none

-- What a change does to the specification, and its error.
abbrev pub spec_write : Spec → Steps → Bytes → Option Bytes → Spec × Option NoteError
spec_write s io key text = elim (validate_key key) [
  | some e ↦ (s, some (bad_path (PathError.invalid_key e)))
  | none ↦ if not io.mkdir then (s, some mkdir_failed) else elim text [
    | none ↦ (s, some encode_failed)
    | some out ↦ elim (first_failure io) [
      | some e ↦ (s, some e)
      | none ↦ (update s key (some out), none)
    ]
  ]
]

-- A deletion that the system does not refuse leaves no text at the key. Without a text it is
-- `ErrNotFound`, except that an empty directory of the note's name goes without a word.
abbrev pub spec_delete : Spec → Removal → Bytes → Spec × Option NoteError
spec_delete s io key = elim (validate_key key) [
  | some e ↦ (s, some (bad_path (PathError.invalid_key e)))
  | none ↦ if io.refused then (s, some remove_failed) else elim (s key) [
    | none ↦ (s, if io.empty_dir then none else some not_found)
    | some raw ↦ (update s key none, none)
  ]
]

module _ (env : Env) where
  -- An operation that changes notes.
  pub data Op : Type 0 where
    writes : Steps → env.Time → Note env → Op
    deletes : Removal → Bytes → Op

  abbrev pub spec_apply : Spec → Op → Spec × Option NoteError
  spec_apply s (writes io now n) =
      spec_write s io n.key
        (encode_frontmatter env.yaml (overlay env (stamped env now n)) n.content)
  spec_apply s (deletes io key) = spec_delete s io key

  abbrev pub apply : Option Bytes → Bytes → Disk → Op → Disk × Option NoteError
  apply wd dir disk (writes io now n) = write env wd dir io now disk n
  apply wd dir disk (deletes io key) = delete env wd dir io disk key

-- The notes of a disk under a base directory.
abbrev pub path_of : Bytes → Bytes → Bytes
path_of base key = base ++ b'/' ∷ (key ++ md_suffix)

abbrev pub view : Bytes → Disk → Spec
view base disk key = read_file disk (path_of base key)

read_file-remove_file :
    (disk : Disk) (path other : Bytes)
    → read_file (remove_file disk path) other
      ≡ (if bytes_eq path other then none else read_file disk other)
unfolding read_file remove_file
read_file-remove_file [] path other = ground arith
read_file-remove_file ((p, c) ∷ disk) path other = ground (
  arith,
  read_file-remove_file disk path other,
  bytes_eq_iff p path,
  bytes_eq_iff p other,
  bytes_eq_iff path other,
)

append_inj : (b s t : Bytes) → b ++ s ≡ b ++ t → s ≡ t
append_inj [] s t h = h
append_inj (c ∷ b) s t h = append_inj b s t (cc h)

append_inj_end : (s t e : Bytes) → s ++ e ≡ t ++ e → s ≡ t
append_inj_end s t e h =
    let n : length s ≡ length t =
      omega (arith, sym (length-append s e) ∙ ap length h ∙ length-append t e) in
    sym (take-append s e) ∙ ap (λ k. take k (s ++ e)) n ∙ ap (take (length t)) h ∙ take-append t e

bytes_eq-path_of :
    (base key k : Bytes) → bytes_eq (path_of base key) (path_of base k) ≡ bytes_eq key k
bytes_eq-path_of base key k =
    let back : path_of base key ≡ path_of base k → key ≡ k = λ e.
      append_inj_end key k md_suffix
        (append_inj (b'/' ∷ []) (key ++ md_suffix) (k ++ md_suffix) (append_inj base _ _ e)) in
    elim (Bool-cases (bytes_eq key k)) [
      | inl e ↦
          let q = ap (path_of base) ((bytes_eq_iff key k).0 e) in
          (bytes_eq_iff (path_of base key) (path_of base k)).1 q ∙ sym e
      | inr e ↦ elim (Bool-cases (bytes_eq (path_of base key) (path_of base k))) [
        | inl f ↦
            let q = back ((bytes_eq_iff (path_of base key) (path_of base k)).0 f) in
            absurd (cc ((bytes_eq_iff key k).1 q, e))
        | inr f ↦ f ∙ sym e
      ]
    ]

view-replace :
    (base : Bytes) (disk : Disk) (key out : Bytes)
    → view base (replace_file disk (path_of base key) out) ≡ update (view base disk) key (some out)
unfolding read_file
view-replace base disk key out = fun_ext λ k. ground (
  arith,
  read_file-remove_file disk (path_of base key) (path_of base k),
  bytes_eq-path_of base key k,
)

view-remove :
    (base : Bytes) (disk : Disk) (key : Bytes)
    → view base (remove_file disk (path_of base key)) ≡ update (view base disk) key none
view-remove base disk key = fun_ext λ k. ground (
  arith,
  read_file-remove_file disk (path_of base key) (path_of base k),
  bytes_eq-path_of base key k,
)

store_file_lem :
    (io : Steps) (disk : Disk) (path out : Bytes)
    → store_file io disk path out ≡ elim (first_failure io) [
      | some e ↦ (disk, some e)
      | none ↦ (replace_file disk path out, none)
    ]
unfolding store_file
store_file_lem io disk path out = ground arith

-- What a disk shows of an outcome.
abbrev pub shown : Bytes → Disk × Option NoteError → Spec × Option NoteError
shown base (disk, e) = (view base disk, e)

store_file-shown :
    (base : Bytes) (disk : Disk) (key out : Bytes) (failure : Option NoteError)
    → shown base (elim failure [
      | some e ↦ (disk, some e)
      | none ↦ (replace_file disk (path_of base key) out, none)
    ])
      ≡ elim failure [
        | some e ↦ (view base disk, some e)
        | none ↦ (update (view base disk) key (some out), none)
      ]
store_file-shown base disk key out (some e) = refl
store_file-shown base disk key out none = ap (λ s. (s, none)) (view-replace base disk key out)

written-shown :
    (base : Bytes) (io : Steps) (disk : Disk) (key : Bytes) (text : Option Bytes)
    → shown base (elim text [
      | none ↦ (disk, some encode_failed)
      | some out ↦ store_file io disk (path_of base key) out
    ])
      ≡ elim text [
        | none ↦ (view base disk, some encode_failed)
        | some out ↦ elim (first_failure io) [
          | some e ↦ (view base disk, some e)
          | none ↦ (update (view base disk) key (some out), none)
        ]
      ]
written-shown base io disk key none = refl
written-shown base io disk key (some out) =
    ap (shown base) (store_file_lem io disk (path_of base key) out)
    ∙ store_file-shown base disk key out (first_failure io)

module _ (env : Env) (w notes_dir base : Bytes)
    (found : abs (some (b'/' ∷ w)) notes_dir ≡ some base) (below : base ≢ slash) where
  pub write-store :
      (io : Steps) (now : env.Time) (disk : Disk) (n : Note env)
      → shown base (write env (some (b'/' ∷ w)) notes_dir io now disk n)
        ≡ spec_write
            (view base disk)
            io
            n.key
            (encode_frontmatter env.yaml (overlay env (stamped env now n)) n.content)
  unfolding write
  write-store io now disk n =
      let r = resolve_path_lem w notes_dir n.key base found below in
      elim (Option-cases (validate_key n.key)) [
        | inr (e, v) ↦ let q = rw v at r in rw (q, v, write, spec_write) refl
        | inl v ↦
            let q = rw v at r in
            rw (q, v, write, spec_write)
              (elim (Bool-cases io.mkdir) [
                | inl m ↦ rw m (
                    written-shown base io disk n.key
                      (encode_frontmatter env.yaml (overlay env (stamped env now n)) n.content))
                | inr m ↦ rw m refl
              ])
      ]

  removed-shown :
      (io : Removal) (base : Bytes) (disk : Disk) (key : Bytes)
      → shown base (elim (os_remove io disk (path_of base key)) [
        | removed after ↦ (after, none)
        | not_exist ↦ (disk, some not_found)
        | remove_error ↦ (disk, some remove_failed)
      ])
        ≡ (if io.refused then (view base disk, some remove_failed) else elim (view base disk key) [
          | none ↦ (view base disk, if io.empty_dir then none else some not_found)
          | some raw ↦ (update (view base disk) key none, none)
        ])
  unfolding os_remove
  removed-shown io base disk key = elim (Bool-cases io.refused) [
    | inl e ↦ rw (e, os_remove) refl
    | inr e ↦ elim (Option-cases (read_file disk (path_of base key))) [
      | inr (raw, f) ↦ rw (e, f, os_remove) (ap (λ s. (s, none)) (view-remove base disk key))
      | inl f ↦ elim (Bool-cases io.empty_dir) [
        | inl m ↦ rw (e, f, m, os_remove) refl
        | inr m ↦ rw (e, f, m, os_remove) refl
      ]
    ]
  ]

  delete-store :
      (io : Removal) (disk : Disk) (key : Bytes)
      → shown base (delete env (some (b'/' ∷ w)) notes_dir io disk key)
        ≡ spec_delete (view base disk) io key
  unfolding delete os_remove
  delete-store io disk key =
      let r = resolve_path_lem w notes_dir key base found below in
      elim (Option-cases (validate_key key)) [
        | inr (e, v) ↦ let q = rw v at r in rw (q, v, delete, spec_delete) refl
        | inl v ↦
            let q = rw v at r in rw (q, v, delete, spec_delete) (removed-shown io base disk key)
      ]

  -- `Write` and `Delete` refine the map from keys to texts: on the disk, an operation gives the
  -- error of the specification and leaves the notes that the specification has after it. It is
  -- assumed that the working directory is rooted and that the notes directory is not the root of
  -- the file system.
  pub apply-refines :
      (disk : Disk) (op : Op env)
      → shown base (apply env (some (b'/' ∷ w)) notes_dir disk op)
        ≡ spec_apply env (view base disk) op
  apply-refines disk (writes io now n) = write-store io now disk n
  apply-refines disk (deletes io key) = delete-store io disk key
