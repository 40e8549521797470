-- ===== src/Notes/Frontmatter/Tests.antt =====
-- Frontmatter at small inputs, with a map that is its own text.
use docsiq.Prelude.{◌≡◌, ◌≢◌, ◌++◌, refl, [], ◌∷◌, some, false, any, trim_end, ◌==◌}
use docsiq.Prelude.Space.{trim_space}
use docsiq.Prelude.Split.{split}
use docsiq.Prelude.Text.{cut_byte, Bytes, codes, bytes_eq}
use docsiq.Notes.Frontmatter.{
  trim_fm_delim, trim_space, Yaml, newline, parse_frontmatter, encode_frontmatter, is_delim_line,
  find_closing_delim,
}
use docsiq.Notes.Frontmatter.Lines.{lines}
use docsiq.Notes.Frontmatter.RoundTrip.{parse-encode}

abbrev text_yaml : Yaml
text_yaml = record {
  Map = Bytes;
  empty = [];
  is_empty = λ m. bytes_eq m [];
  unmarshal = λ b. some (some (trim_end (λ c. c == newline) b));
  encode = λ m. some (m ++ newline ∷ []);
}

abbrev note_text : Bytes
note_text = codes "---\na: 1\n---\nbody\n"

note_runs : parse_frontmatter text_yaml note_text ≡ some (codes "a: 1", codes "body\n")
unfolding parse_frontmatter find_closing_delim trim_fm_delim cut_byte trim_space
note_runs = refl

plain : any is_delim_line (lines (codes "a\nb")) ≡ false
unfolding is_delim_line split
plain = refl

not_blank : trim_space (codes "a: 1" ++ newline ∷ []) ≢ []
unfolding trim_space
not_blank e = cc

written :
    encode_frontmatter text_yaml (codes "a: 1") (codes "\nbody")
    ≡ some (codes "---\na: 1\n---\n\nbody")
unfolding encode_frontmatter
written = refl

no_delim : any is_delim_line (lines (codes "a: 1")) ≡ false
unfolding is_delim_line split
no_delim = refl

-- A body that begins with a newline loses it.
parse-encode_example :
    parse_frontmatter text_yaml (codes "---\na: 1\n---\n\nbody") ≡ some (codes "a: 1", codes "body")
parse-encode_example =
    parse-encode text_yaml (codes "a: 1") (codes "\nbody") (codes "a: 1")
      (codes "---\na: 1\n---\n\nbody") refl refl no_delim not_blank refl written
