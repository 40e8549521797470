-- ===== src/Notes/Files/ReadBack.antt =====
-- A note that was written is read back.
use docsiq.Prelude.{
  ◌≡◌, ◌≢◌, refl, sym, ap, ◌∙◌, true, false, Option, none, some, List, [], ◌∷◌, ◌++◌, map, any,
  Option-cases, Bool-cases, inl, inr,
}
use docsiq.Prelude.Text.{Bytes, codes, bytes_eq, bytes_eq_refl}
use docsiq.Prelude.Space.{trim_space}
use docsiq.Prelude.FilePath.{abs, slash}
use docsiq.Notes.Frontmatter.{
  newline, drop_newline, is_delim_line, parse_frontmatter, encode_frontmatter,
}
use docsiq.Notes.Frontmatter.Lines.{lines}
use docsiq.Notes.Frontmatter.RoundTrip.{parse_written}
use docsiq.Notes.Key.{validate_key, resolve_path, ok}
use docsiq.Notes.Key.Resolve.{resolve_path_lem}
use docsiq.Notes.Files.{
  Env, Value, text, texts, items, other, Disk, read_file, Steps, Note, stamped, overlay, put_author,
  put_tags, text_at, time_at, author_of, tags_of, coerce_string_slice, strings_of, read, note,
  write,
}
use docsiq.Notes.Files.Refinement.{
  Spec, update, view, path_of, spec_write, shown, write-store, first_failure,
}

-- A value after a round through YAML: a list of strings is read as a list of anything.
abbrev pub decoded_value : Option Value → Option Value
decoded_value none = none
decoded_value (some (text s)) = some (text s)
decoded_value (some (texts ts)) = some (items (map some ts))
decoded_value (some (items xs)) = some (items xs)
decoded_value (some other) = some other

-- The entries of a frontmatter map.
pub record FieldLaws (env : Env) : Type 0 where
  pub get_put_same : (m : env.yaml.Map) (k : Bytes) (v : Value) → env.get (env.put m k v) k ≡ some v
  pub get_put_other :
      (m : env.yaml.Map) (k : Bytes) (v : Value) (j : Bytes)
      → bytes_eq k j ≡ false
      → env.get (env.put m k v) j ≡ env.get m j

-- What yaml.v3 does with a map: a block of whole lines, none of them a delimiter, that is not blank
-- and is read back to a map with the same entries.
pub record IsYaml (env : Env) (m : env.yaml.Map) : Type 0 where
  pub block : Bytes
  pub decoded : env.yaml.Map
  pub not_empty : env.yaml.is_empty m ≡ false
  pub encoded : env.yaml.encode m ≡ some (block ++ newline ∷ [])
  pub no_delim : any is_delim_line (lines block) ≡ false
  pub not_blank : trim_space (block ++ newline ∷ []) ≢ []
  pub reads : env.yaml.unmarshal (block ++ newline ∷ []) ≡ some (some decoded)
  pub entries : (k : Bytes) → env.get decoded k ≡ decoded_value (env.get m k)

spec_write-done :
    (s : Spec) (io : Steps) (key : Bytes) (out : Option Bytes) {t : Spec}
    → spec_write s io key out ≡ (t, none)
    → (o : Bytes) × (out ≡ some o) × (validate_key key ≡ none) × (t key ≡ some o)
spec_write-done s io key out {t} h = elim (Option-cases (validate_key key)) [
  | inr (e, v) ↦ absurd (cc (rw (v, spec_write) at h))
  | inl v ↦ elim (Bool-cases io.mkdir) [
    | inr m ↦ absurd (cc (rw (v, m, spec_write) at h))
    | inl m ↦ elim (Option-cases out) [
      | inl o ↦ absurd (cc (rw (v, m, o, spec_write) at h))
      | inr (o, q) ↦ elim (Option-cases (first_failure io)) [
        | inr (e, f) ↦ absurd (cc (rw (v, m, q, f, spec_write) at h))
        | inl f ↦
            let r = rw (v, m, q, f, spec_write) at h in
            let u : update s key (some o) ≡ t = ap (λ p. p.0) r in
            (o, q, v, sym (ap (λ x. x key) u) ∙ rw (bytes_eq_refl key) refl)
      ]
    ]
  ]
]

strings_of-map : (ts : List Bytes) → strings_of (map some ts) ≡ ts
strings_of-map [] = refl
strings_of-map (t ∷ ts) = ap (◌∷◌ t) (strings_of-map ts)

module _ (env : Env) (laws : FieldLaws env) where
  -- The two times hide no other entry.
  under_times :
      (m : env.yaml.Map) (v w : Value) (k : Bytes)
      → bytes_eq (codes "created_at") k ≡ false
      → bytes_eq (codes "updated_at") k ≡ false
      → env.get (env.put (env.put m (codes "created_at") v) (codes "updated_at") w) k ≡ env.get m k
  under_times m v w k c u =
      laws.get_put_other (env.put m (codes "created_at") v) (codes "updated_at") w k u
      ∙ laws.get_put_other m (codes "created_at") v k c

  author_put :
      (m : env.yaml.Map) (a : Bytes)
      → a ≢ []
      → env.get (put_author env m a) (codes "author") ≡ some (text a)
  author_put m [] h = absurd (h refl)
  author_put m (c ∷ s) h = laws.get_put_same m (codes "author") (text (c ∷ s))

  author_under_tags :
      (m : env.yaml.Map) (ts : List Bytes)
      → env.get (put_tags env m ts) (codes "author") ≡ env.get m (codes "author")
  author_under_tags m [] = refl
  author_under_tags m (t ∷ ts) =
      laws.get_put_other m (codes "tags") (texts (t ∷ ts)) (codes "author") refl

  tags_put :
      (m : env.yaml.Map) (ts : List Bytes)
      → ts ≢ []
      → env.get (put_tags env m ts) (codes "tags") ≡ some (texts ts)
  tags_put m [] h = absurd (h refl)
  tags_put m (t ∷ ts) h = laws.get_put_same m (codes "tags") (texts (t ∷ ts))

  author_there :
      (n : Note env)
      → n.author ≢ []
      → env.get (overlay env n) (codes "author") ≡ some (text n.author)
  author_there n h =
      under_times (put_tags env (put_author env n.frontmatter n.author) n.tags) _ _ (codes "author")
        refl refl
      ∙ author_under_tags (put_author env n.frontmatter n.author) n.tags
      ∙ author_put n.frontmatter n.author h

  tags_there :
      (n : Note env) → n.tags ≢ [] → env.get (overlay env n) (codes "tags") ≡ some (texts n.tags)
  tags_there n h =
      under_times (put_tags env (put_author env n.frontmatter n.author) n.tags) _ _ (codes "tags")
        refl refl
      ∙ tags_put (put_author env n.frontmatter n.author) n.tags h

  author_of-decoded :
      (m : env.yaml.Map) (y : IsYaml env m) (a : Bytes)
      → env.get m (codes "author") ≡ some (text a)
      → author_of env y.decoded ≡ a
  author_of-decoded m y a h =
      let e = y.entries (codes "author") ∙ ap decoded_value h in rw (e, author_of, text_at) refl

  tags_of-decoded :
      (m : env.yaml.Map) (y : IsYaml env m) (ts : List Bytes)
      → env.get m (codes "tags") ≡ some (texts ts)
      → tags_of env y.decoded ≡ ts
  tags_of-decoded m y ts h =
      let e = y.entries (codes "tags") ∙ ap decoded_value h in
      rw (e, tags_of) (unfold coerce_string_slice in strings_of-map ts)

  read-note :
      (wd : Option Bytes) (notes_dir key path raw body : Bytes) (mod_time : env.Time) (disk : Disk)
      (fm : env.yaml.Map)
      → resolve_path wd notes_dir key ≡ ok path
      → read_file disk path ≡ some raw
      → parse_frontmatter env.yaml raw ≡ some (fm, body)
      → (r : Note env) × (read env wd notes_dir true mod_time disk key ≡ note r)
        × (r.content ≡ body)
        × (r.author ≡ author_of env fm)
        × (r.tags ≡ tags_of env fm)
  unfolding read
  read-note wd notes_dir key path raw body mod_time disk fm p f q = (
    record {
      key = key;
      content = body;
      author = author_of env fm;
      tags = tags_of env fm;
      frontmatter = fm;
      created_at = time_at env fm (codes "created_at") mod_time;
      updated_at = time_at env fm (codes "updated_at") mod_time;
    },
    rw (p, f, q, read) refl,
    refl,
    refl,
    refl,
  )

  -- A note that `Write` has written is read back by `Read` with its author, its tags and its
  -- content, less one newline at the content's start if it has one. It is assumed that author and
  -- tags are not empty, that the YAML library reads back what it wrote, that the working directory
  -- is rooted and that the notes directory is not the root of the file system.
  pub read-write :
      (w notes_dir base : Bytes) (io : Steps) (now mod_time : env.Time) (disk : Disk) (n : Note env)
      {after : Disk}
      → abs (some (b'/' ∷ w)) notes_dir ≡ some base
      → base ≢ slash
      → n.author ≢ []
      → n.tags ≢ []
      → IsYaml env (overlay env (stamped env now n))
      → write env (some (b'/' ∷ w)) notes_dir io now disk n ≡ (after, none)
      → (r : Note env) × (read env (some (b'/' ∷ w)) notes_dir true mod_time after n.key ≡ note r)
        × (r.content ≡ drop_newline n.content)
        × (r.author ≡ n.author)
        × (r.tags ≡ n.tags)
  read-write w notes_dir base io now mod_time disk n {after} found below a t y h =
      let m = overlay env (stamped env now n) in
      let s : spec_write (view base disk) io n.key (encode_frontmatter env.yaml m n.content)
          ≡ (view base after, none) =
        sym (write-store env w notes_dir base found below io now disk n) ∙ ap (shown base) h in
      let (out, e, v, f) = spec_write-done (view base disk) io n.key _ s in
      let q =
        parse_written env.yaml m y.decoded n.content y.block out y.not_empty y.encoded y.no_delim
          y.not_blank y.reads e in
      let p = rw v at (resolve_path_lem w notes_dir n.key base found below) in
      let (r, k, c, b, g) =
        read-note (some (b'/' ∷ w)) notes_dir n.key (path_of base n.key) out
          (drop_newline n.content) mod_time after y.decoded p f q in
      (
        r,
        k,
        c,
        b ∙ author_of-decoded m y n.author (author_there (stamped env now n) a),
        g ∙ tags_of-decoded m y n.tags (tags_there (stamped env now n) t),
      )
