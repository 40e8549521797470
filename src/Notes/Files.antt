-- ===== src/Notes/Files.antt =====
-- internal/notes/notes.go: notes as files. The disk is a list of paths and contents; the YAML
-- library, the clock and what the operating system lets succeed are parameters.
use docsiq.Prelude.{
  ◌≡◌, Bool, true, false, ◌&&◌, ◌||◌, not, Option, none, some, List, [], ◌∷◌, ◌++◌, map, length,
  take, ◌-◌, if◌then◌else◌,
}
use docsiq.Prelude.Text.{Bytes, codes, bytes_eq, cut_prefix, has_suffix}
use docsiq.Prelude.Sort.{bytes_lt, sort}
use docsiq.Notes.Frontmatter.{Yaml, parse_frontmatter, encode_frontmatter}
use docsiq.Notes.Key.{PathError, Resolved, ok, err, md_suffix, resolve_path}
pub mod Refinement
pub mod ReadBack
mod Tests

-- A value of a frontmatter map: a string, a list of strings, or a list whose entries are strings or
-- not (`none`).
pub data Value : Type 0 where
  text : Bytes → Value
  texts : List Bytes → Value
  items : List (Option Bytes) → Value
  other : Value

-- The frontmatter map of the YAML library with its entries, and package time.
pub record Env : Type 1 where
  pub yaml : Yaml
  pub get : yaml.Map → Bytes → Option Value
  pub put : yaml.Map → Bytes → Value → yaml.Map
  pub Time : Type 0
  pub is_zero : Time → Bool
  pub format : Time → Bytes
  pub format_nano : Time → Bytes
  pub parse_time : Bytes → Option Time

abbrev pub Disk : Type 0
Disk = List (Bytes × Bytes)

unfoldable pub read_file : Disk → Bytes → Option Bytes
read_file [] path = none
read_file ((p, c) ∷ disk) path =
    let rest = read_file disk path in if bytes_eq p path then some c else rest

unfoldable pub remove_file : Disk → Bytes → Disk
remove_file [] path = []
remove_file ((p, c) ∷ disk) path =
    let rest = remove_file disk path in if bytes_eq p path then rest else (p, c) ∷ rest

-- `os.Rename` of the temporary file onto the path.
abbrev pub replace_file : Disk → Bytes → Bytes → Disk
replace_file disk path content = (path, content) ∷ remove_file disk path

-- What `os.Remove` meets: `refused` stands for any error but `ErrNotExist`, such as a parent that is
-- a file, a directory that is not empty or a missing permission, and `empty_dir` tells whether an
-- empty directory has the path.
pub record Removal : Type 0 where
  pub refused : Bool
  pub empty_dir : Bool

pub data Removed : Type 0 where
  removed : Disk → Removed
  not_exist remove_error : Removed

-- A file or an empty directory goes; the disk shows the files only.
unfoldable pub os_remove : Removal → Disk → Bytes → Removed
os_remove io disk path = if io.refused then remove_error else elim (read_file disk path) [
  | some raw ↦ removed (remove_file disk path)
  | none ↦ if io.empty_dir then removed disk else not_exist
]

-- Which steps of a write succeed.
pub record Steps : Type 0 where
  pub mkdir : Bool
  pub create_temp : Bool
  pub write_temp : Bool
  pub sync_temp : Bool
  pub close_temp : Bool
  pub rename : Bool

pub data NoteError : Type 0 where
  bad_path : PathError → NoteError
  not_found read_failed parse_failed mkdir_failed encode_failed create_failed write_failed
        sync_failed close_failed rename_failed remove_failed :
      NoteError

abbrev pub strings_of : List (Option Bytes) → List Bytes
strings_of [] = []
strings_of (none ∷ xs) = strings_of xs
strings_of (some s ∷ xs) = s ∷ strings_of xs

unfoldable pub coerce_string_slice : Value → List Bytes
coerce_string_slice (texts ts) = ts
coerce_string_slice (items xs) = strings_of xs
coerce_string_slice (text []) = []
coerce_string_slice (text (c ∷ s)) = (c ∷ s) ∷ []
coerce_string_slice other = []

-- The temporary file and its rename; `none` is the nil error.
unfoldable pub store_file : Steps → Disk → Bytes → Bytes → Disk × Option NoteError
store_file io disk path out =
    if not io.create_temp
    then (disk, some create_failed)
    else if not io.write_temp
    then (disk, some write_failed)
    else if not io.sync_temp
    then (disk, some sync_failed)
    else if not io.close_temp
    then (disk, some close_failed)
    else if not io.rename
    then (disk, some rename_failed)
    else (replace_file disk path out, none)

module _ (env : Env) where
  open env use {yaml, get, put, Time, is_zero, format, format_nano, parse_time}

  pub record Note : Type 0 where
    pub key : Bytes
    pub content : Bytes
    pub author : Bytes
    pub tags : List Bytes
    pub frontmatter : yaml.Map
    pub created_at : Time
    pub updated_at : Time

  -- `fm[name].(string)`
  abbrev pub text_at : yaml.Map → Bytes → Option Bytes
  text_at m name = elim (get m name) [
    | some (text s) ↦ some s
    | some (texts ts) ↦ none
    | some (items xs) ↦ none
    | some other ↦ none
    | none ↦ none
  ]

  -- A time of the frontmatter, if it is there and parses.
  abbrev pub time_at : yaml.Map → Bytes → Time → Time
  time_at m name default = elim (text_at m name) [
    | none ↦ default
    | some s ↦ elim (parse_time s) [ none ↦ default | some t ↦ t ]
  ]

  abbrev pub author_of : yaml.Map → Bytes
  author_of m = elim (text_at m (codes "author")) [ none ↦ [] | some a ↦ a ]

  abbrev pub tags_of : yaml.Map → List Bytes
  tags_of m = elim (get m (codes "tags")) [ none ↦ [] | some v ↦ coerce_string_slice v ]

  pub data ReadResult : Type 0 where
    note : Note → ReadResult
    failed : NoteError → ReadResult

  -- `readable` tells whether the system gives no error but that there is no such file; `mod_time` is
  -- the time of the file's last change.
  unfoldable pub read : Option Bytes → Bytes → Bool → Time → Disk → Bytes → ReadResult
  read wd notes_dir readable mod_time disk key = elim (resolve_path wd notes_dir key) [
    | err e ↦ failed (bad_path e)
    | ok path ↦ elim (read_file disk path) [
      | none ↦ if readable then failed not_found else failed read_failed
      | some raw ↦ if not readable then failed read_failed else elim (parse_frontmatter yaml raw) [
        | none ↦ failed parse_failed
        | some (fm, body) ↦ note (record {
          key = key;
          content = body;
          author = author_of fm;
          tags = tags_of fm;
          frontmatter = fm;
          created_at = time_at fm (codes "created_at") mod_time;
          updated_at = time_at fm (codes "updated_at") mod_time;
        })
      ]
    ]
  ]

  -- The times that `Write` sets in the note.
  abbrev pub stamped : Time → Note → Note
  stamped now n = record n {
    created_at = if is_zero n.created_at then now else n.created_at;
    updated_at = now;
  }

  abbrev pub put_author : yaml.Map → Bytes → yaml.Map
  put_author m [] = m
  put_author m (c ∷ s) = put m (codes "author") (text (c ∷ s))

  abbrev pub put_tags : yaml.Map → List Bytes → yaml.Map
  put_tags m [] = m
  put_tags m (t ∷ ts) = put m (codes "tags") (texts (t ∷ ts))

  -- The frontmatter with the note's fields over it.
  abbrev pub overlay : Note → yaml.Map
  overlay n =
      put
        (put (put_tags (put_author n.frontmatter n.author) n.tags) (codes "created_at")
          (text (format n.created_at)))
        (codes "updated_at") (text (format_nano n.updated_at))

  -- `Write` of a note that is not nil, up to the git commit, which cannot fail it. The note's two
  -- times are set in the caller's note, too: `stamped`.
  unfoldable pub write : Option Bytes → Bytes → Steps → Time → Disk → Note → Disk × Option NoteError
  write wd notes_dir io now disk n = elim (resolve_path wd notes_dir n.key) [
    | err e ↦ (disk, some (bad_path e))
    | ok path ↦
        if not io.mkdir
        then (disk, some mkdir_failed)
        else elim (encode_frontmatter yaml (overlay (stamped now n)) n.content) [
          | none ↦ (disk, some encode_failed)
          | some out ↦ store_file io disk path out
        ]
  ]

  unfoldable pub delete : Option Bytes → Bytes → Removal → Disk → Bytes → Disk × Option NoteError
  delete wd notes_dir io disk key = elim (resolve_path wd notes_dir key) [
    | err e ↦ (disk, some (bad_path e))
    | ok path ↦ elim (os_remove io disk path) [
      | removed after ↦ (after, none)
      | not_exist ↦ (disk, some not_found)
      | remove_error ↦ (disk, some remove_failed)
    ]
  ]

-- The files that `WalkDir` meets under the base directory, as keys: the relative path without
-- ".md".
unfoldable pub walk_keys : Bytes → Disk → List Bytes
walk_keys base [] = []
walk_keys base ((path, c) ∷ disk) =
    let rest = walk_keys base disk in
    elim (cut_prefix (base ++ b'/' ∷ []) path) [
      | none ↦ rest
      | some rel ↦ if has_suffix path md_suffix then take (length rel - 3) rel ∷ rest else rest
    ]

unfoldable pub list_keys : Bytes → Disk → List Bytes
list_keys base disk = sort bytes_lt (walk_keys base disk)
