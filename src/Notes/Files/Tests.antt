-- ===== src/Notes/Files/Tests.antt =====
-- A disk of notes, with maps that are lists of entries and a YAML library that knows one block.
use docsiq.Prelude.Sort.{sort, insert}
use docsiq.Notes.Key.{validate_key, resolve_path}
use docsiq.Prelude.{
  map, ◌≡◌, ◌≢◌, refl, Bool, true, false, Option, none, some, List, [], ◌∷◌, ◌++◌, any,
  if◌then◌else◌, arith,
}
use docsiq.Prelude.Text.{Bytes, codes, bytes_eq, bytes_eq_refl}
use docsiq.Prelude.Space.{trim_space}
use docsiq.Prelude.Split.{join_rest, join, split}
use docsiq.Prelude.FilePath.{clean, is_local, file_join, abs, slash}
use docsiq.Notes.Frontmatter.{encode_frontmatter, newline, drop_newline, is_delim_line}
use docsiq.Notes.Frontmatter.Lines.{lines}
use docsiq.Notes.Files.{
  store_file, map, walk_keys, remove_file, Env, Value, text, texts, items, other, Steps, Note,
  stamped, overlay, read, note, write, list_keys,
}
use docsiq.Notes.Files.Refinement.{writes, apply, spec_apply, shown, view, apply-refines}
use docsiq.Notes.Files.ReadBack.{decoded_value, FieldLaws, IsYaml, read-write}

abbrev Entries : Type 0
Entries = List (Bytes × Value)

abbrev entry : Entries → Bytes → Option Value
entry [] k = none
entry ((j, v) ∷ m) k = let rest = entry m k in if bytes_eq j k then some v else rest

abbrev read_value : Value → Value
read_value (text s) = text s
read_value (texts ts) = items (map some ts)
read_value (items xs) = items xs
read_value other = other

abbrev read_entries : Entries → Entries
read_entries [] = []
read_entries ((j, v) ∷ m) = (j, read_value v) ∷ read_entries m

abbrev is_empty : Entries → Bool
is_empty [] = true
is_empty (e ∷ m) = false

abbrev block : Bytes
block = codes "a: 1"

-- The map that the one block holds.
abbrev written_map : Entries
written_map =
    (codes "updated_at", text (codes "7"))
    ∷ (codes "created_at", text (codes "7"))
    ∷ (codes "tags", texts (codes "t" ∷ []))
    ∷ (codes "author", text (codes "ann"))
    ∷ []

abbrev env : Env
env = record {
  yaml = record {
    Map = Entries;
    empty = [];
    is_empty = is_empty;
    unmarshal = λ b. some (some (read_entries written_map));
    encode = λ m. some (block ++ newline ∷ []);
  };
  get = entry;
  put = λ m k v. (k, v) ∷ m;
  Time = Bytes;
  is_zero = λ t. bytes_eq t [];
  format = λ t. t;
  format_nano = λ t. t;
  parse_time = λ s. some s;
}

abbrev plan : Note env
plan = record {
  key = codes "team/plan";
  content = codes "hi";
  author = codes "ann";
  tags = codes "t" ∷ [];
  frontmatter = [];
  created_at = [];
  updated_at = [];
}

abbrev all_fine : Steps
all_fine = record {
  mkdir = true;
  create_temp = true;
  write_temp = true;
  sync_temp = true;
  close_temp = true;
  rename = true;
}

abbrev wd : Bytes
wd = codes "srv"

abbrev dir : Bytes
dir = codes "data/../notes"

abbrev base : Bytes
base = codes "/srv/notes"

abbrev file : Bytes × Bytes
file = (codes "/srv/notes/team/plan.md", codes "---\na: 1\n---\nhi")

dir_runs : abs (some (b'/' ∷ wd)) dir ≡ some base
unfolding abs file_join clean join split join_rest
dir_runs = refl

base-ne-slash : base ≢ slash
base-ne-slash e = cc

plan_written : write env (some (b'/' ∷ wd)) dir all_fine (codes "7") [] plan ≡ (file ∷ [], none)
unfolding write resolve_path validate_key split is_local abs file_join clean join join_rest
    encode_frontmatter store_file remove_file
plan_written = refl

keys_listed :
    list_keys base (file ∷ (codes "/srv/notes/a.md", []) ∷ (codes "/srv/x.md", []) ∷ [])
    ≡ codes "a" ∷ codes "team/plan" ∷ []
unfolding list_keys sort walk_keys insert
keys_listed = refl

entry-read_entries :
    (m : Entries) (k : Bytes) → entry (read_entries m) k ≡ decoded_value (entry m k)
entry-read_entries [] k = refl
entry-read_entries ((j, text s) ∷ m) k = ground (arith, entry-read_entries m k)
entry-read_entries ((j, texts s) ∷ m) k = ground (arith, entry-read_entries m k)
entry-read_entries ((j, items s) ∷ m) k = ground (arith, entry-read_entries m k)
entry-read_entries ((j, other) ∷ m) k = ground (arith, entry-read_entries m k)

field_laws : FieldLaws env
field_laws = record {
  get_put_same = λ m k v. rw (bytes_eq_refl k) refl;
  get_put_other = λ m k v j h. rw h refl;
}

block_not_blank : trim_space (block ++ newline ∷ []) ≢ []
unfolding trim_space
block_not_blank e = cc

block_no_delim : any is_delim_line (lines block) ≡ false
unfolding is_delim_line split
block_no_delim = refl

map-IsYaml : IsYaml env (overlay env (stamped env (codes "7") plan))
map-IsYaml = record {
  block = block;
  decoded = read_entries written_map;
  not_empty = refl;
  encoded = refl;
  no_delim = block_no_delim;
  not_blank = block_not_blank;
  reads = refl;
  entries = entry-read_entries written_map;
}

apply-refines_example :
    shown base (apply env (some (b'/' ∷ wd)) dir [] (writes all_fine (codes "7") plan))
    ≡ spec_apply env (view base []) (writes all_fine (codes "7") plan)
apply-refines_example =
    apply-refines env wd dir base dir_runs base-ne-slash [] (writes all_fine (codes "7") plan)

read-write_example :
    (r : Note env) × (read env (some (b'/' ∷ wd)) dir true (codes "9") (file ∷ []) plan.key
      ≡ note r)
    × (r.content ≡ drop_newline plan.content)
    × (r.author ≡ plan.author)
    × (r.tags ≡ plan.tags)
read-write_example =
    read-write env field_laws wd dir base all_fine (codes "7") (codes "9") [] plan dir_runs
      base-ne-slash (λ e. cc) (λ e. cc) map-IsYaml plan_written
