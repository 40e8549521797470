-- ===== src/Notes/Frontmatter/RoundTrip.antt =====
-- What `ParseFrontmatter` returns on a text, and on what `EncodeFrontmatter` wrote.
use docsiq.Prelude.{
  ℕ, ◌≡◌, ◌≢◌, refl, sym, ap, ◌∙◌, true, false, some, [], ◌∷◌, ◌++◌, length, length-append, take,
  drop, take-append, drop-append, take-append-drop, ◌==◌, arith, inl, inr, Bool-cases, Option-cases,
  List-cases, any, append_assoc,
}
use docsiq.Prelude.Space.{trim_space}
use docsiq.Prelude.Split.{split, split_single, split-append}
use docsiq.Prelude.Text.{Bytes}
use docsiq.Notes.Frontmatter.{
  Yaml, newline, fm_delim, is_delim_line, trim_fm_delim, find_closing_delim, drop_newline,
  decode_block, after_delim, parse_frontmatter, encode_frontmatter,
}
use docsiq.Notes.Frontmatter.Lines.{lines, find_closing_delim-append}
use docsiq.Notes.Frontmatter.Delimiter.{
  trim_fm_delim_split, delim_line_trailing, trailing_not_newline,
}

-- A text that begins with a delimiter line has one among its lines.
has_delim_line :
    (s : Bytes) {r : Bytes} → trim_fm_delim s ≡ some r → any is_delim_line (lines s) ≡ true
has_delim_line s {r} h =
    let (w, hw, e) = trim_fm_delim_split s {r = r} h in
    rw (
      e,
      split-append newline (fm_delim ++ w) r,
      split_single newline (fm_delim ++ w) (trailing_not_newline w hw),
      delim_line_trailing w hw,
    )

-- The part of a text behind a delimiter line is an end of it.
after_delim_split : (yaml : Yaml) (s : Bytes) → (p : Bytes) × (s ≡ p ++ after_delim yaml s)
after_delim_split yaml s = elim (Option-cases (trim_fm_delim s)) [
  | inl n ↦ ([], rw (n, after_delim))
  | inr (r, n) ↦
      let (w, hw, e) = trim_fm_delim_split s {r = r} n in
      (
        (fm_delim ++ w) ++ newline ∷ [],
        rw (n, after_delim) (e ∙ sym (append_assoc (fm_delim ++ w) (newline ∷ []) r)),
      )
]

drop_newline_split : (s : Bytes) → (p : Bytes) × (s ≡ p ++ drop_newline s)
drop_newline_split [] = ([], refl)
drop_newline_split (c ∷ s) = elim (Bool-cases (c == newline)) [
  | inl e ↦ (c ∷ [], ground arith)
  | inr e ↦ ([], ground arith)
]

-- Two ends one after the other.
ends_compose :
    (a b c : Bytes)
    → (p : Bytes) × (a ≡ p ++ b)
    → (p : Bytes) × (b ≡ p ++ c)
    → (p : Bytes) × (a ≡ p ++ c)
ends_compose a b c (p, e) (q, f) = (p ++ q, e ∙ ap (◌++◌ p) f ∙ sym (append_assoc p q c))

rest_split : (s : Bytes) {r : Bytes} → trim_fm_delim s ≡ some r → (p : Bytes) × (s ≡ p ++ r)
rest_split s {r} h =
    let (w, hw, e) = trim_fm_delim_split s {r = r} h in
    ((fm_delim ++ w) ++ newline ∷ [], e ∙ sym (append_assoc (fm_delim ++ w) (newline ∷ []) r))

trim_written : (s : Bytes) → trim_fm_delim (fm_delim ++ newline ∷ s) ≡ some s
unfolding trim_fm_delim
trim_written s = refl

-- A block that ends its last line and holds no delimiter line ends at the delimiter behind it.
find_written :
    (block body : Bytes)
    → any is_delim_line (lines block) ≡ false
    → find_closing_delim ((block ++ newline ∷ []) ++ (fm_delim ++ newline ∷ body))
      ≡ some (length (block ++ newline ∷ []))
unfolding split
find_written block body h = rw (append_assoc block (newline ∷ []) (fm_delim ++ newline ∷ body)) (
    find_closing_delim-append block fm_delim (lines body) (fm_delim ++ newline ∷ body) h
      (split-append newline fm_delim body) (unfold is_delim_line in refl)
    ∙ ap some (omega (arith, length-append block (newline ∷ []))))

module _ (yaml : Yaml) where
  open yaml use {Map, empty, is_empty, unmarshal, encode}

  -- Where parsing succeeds, the body is the text itself or an end of it, so that no byte of the
  -- body is changed, moved or made up.
  pub parse-suffix :
      (raw : Bytes) {m : Map} {body : Bytes}
      → parse_frontmatter yaml raw ≡ some (m, body)
      → (p : Bytes) × (raw ≡ p ++ body)
  unfolding parse_frontmatter
  parse-suffix raw {m} {body} h = elim (Option-cases (trim_fm_delim raw)) [
    | inl n ↦ ([], cc (rw (n, parse_frontmatter) at h))
    | inr (rest, n) ↦ elim (Option-cases (find_closing_delim rest)) [
      | inl k ↦ ([], cc (rw (n, k, parse_frontmatter) at h))
      | inr (i, k) ↦ elim (Option-cases (decode_block yaml (take i rest))) [
        | inl d ↦ cc (rw (n, k, d, parse_frontmatter) at h)
        | inr (m', d) ↦
            let e : some (m', drop_newline (after_delim yaml (drop i rest))) ≡ some (m, body) =
              rw (n, k, d, parse_frontmatter) at h in
            let same_body : drop_newline (after_delim yaml (drop i rest)) ≡ body = cc e in
            ends_compose raw rest body (rest_split raw n) (
              ends_compose rest (drop i rest) body (take i rest, sym (take-append-drop i rest))
                (rw (← same_body) (
                  ends_compose (drop i rest) (after_delim yaml (drop i rest)) _
                    (after_delim_split yaml (drop i rest))
                    (drop_newline_split (after_delim yaml (drop i rest))))))
      ]
    ]
  ]

  -- A text none of whose lines is a delimiter has no frontmatter: it is returned whole.
  pub parse_plain :
      (raw : Bytes)
      → any is_delim_line (lines raw) ≡ false
      → parse_frontmatter yaml raw ≡ some (empty, raw)
  unfolding parse_frontmatter
  parse_plain raw h = elim (Option-cases (trim_fm_delim raw)) [
    | inl n ↦ rw (n, parse_frontmatter)
    | inr (r, n) ↦ cc (has_delim_line raw {r = r} n)
  ]

  parse_step :
      (raw rest : Bytes) (i : ℕ) (m : Map)
      → trim_fm_delim raw ≡ some rest
      → find_closing_delim rest ≡ some i
      → decode_block yaml (take i rest) ≡ some m
      → parse_frontmatter yaml raw ≡ some (m, drop_newline (after_delim yaml (drop i rest)))
  unfolding parse_frontmatter
  parse_step raw rest i m n k d = rw (n, parse_frontmatter) (rw k (rw d))

  after_written : (body : Bytes) → after_delim yaml (fm_delim ++ newline ∷ body) ≡ body
  unfolding trim_fm_delim
  after_written body = refl

  decode_block_lem :
      (block : Bytes) (m : Map)
      → trim_space block ≢ []
      → unmarshal block ≡ some (some m)
      → decode_block yaml block ≡ some m
  unfolding decode_block
  decode_block_lem block m h u = elim (List-cases (trim_space block)) [
    | inl e ↦ absurd (h e)
    | inr (c, s, e) ↦ rw (e, decode_block) (rw u)
  ]

  -- The map that is read may differ from the one written.
  pub parse_written :
      (m decoded : Map) (body block out : Bytes)
      → is_empty m ≡ false
      → encode m ≡ some (block ++ newline ∷ [])
      → any is_delim_line (lines block) ≡ false
      → trim_space (block ++ newline ∷ []) ≢ []
      → unmarshal (block ++ newline ∷ []) ≡ some (some decoded)
      → encode_frontmatter yaml m body ≡ some out
      → parse_frontmatter yaml out ≡ some (decoded, drop_newline body)
  unfolding parse_frontmatter encode_frontmatter
  parse_written m decoded body block out he e no_delim not_blank reads h =
      let written : some
            (fm_delim ++ newline ∷ ((block ++ newline ∷ []) ++ (fm_delim ++ newline ∷ body)))
          ≡ some out =
        rw (he, e, encode_frontmatter) at h in
      let same : out
          ≡ fm_delim ++ newline ∷ ((block ++ newline ∷ []) ++ (fm_delim ++ newline ∷ body)) =
        cc in
      let tail = fm_delim ++ newline ∷ body in
      let whole = block ++ newline ∷ [] in
      rw same (
        parse_step (fm_delim ++ newline ∷ (whole ++ tail)) (whole ++ tail) (length whole) decoded
          (trim_written (whole ++ tail)) (find_written block body no_delim)
          (rw (take-append whole tail) (decode_block_lem whole decoded not_blank reads))
        ∙ ap (λ t. some (decoded, drop_newline (after_delim yaml t))) (drop-append whole tail)
        ∙ ap (λ t. some (decoded, drop_newline t)) (after_written body))

  -- What is encoded is parsed to the same map and the same body, less one newline at the body's
  -- start if it has one, provided that the YAML block ends its last line, holds no delimiter line,
  -- is not blank, and is read back to the map.
  pub parse-encode :
      (m : Map) (body block out : Bytes)
      → is_empty m ≡ false
      → encode m ≡ some (block ++ newline ∷ [])
      → any is_delim_line (lines block) ≡ false
      → trim_space (block ++ newline ∷ []) ≢ []
      → unmarshal (block ++ newline ∷ []) ≡ some (some m)
      → encode_frontmatter yaml m body ≡ some out
      → parse_frontmatter yaml out ≡ some (m, drop_newline body)
  parse-encode m body block out he e no_delim not_blank reads h =
      parse_written m m body block out he e no_delim not_blank reads h
