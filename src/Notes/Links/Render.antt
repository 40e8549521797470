-- ===== src/Notes/Links/Render.antt =====
-- internal/notes/wikilinks.go: a body written from links gives these links back.
use mathlib.Core.Path.{subst}
use docsiq.Prelude.{
  ℕ, List, [], ◌∷◌, Bool, Option, suc, zero, refl, sym, ap, inl, inr, ==_iff, ◌∙◌, length-append,
  arith, false, Bool-cases, none, map, true, ◌+◌, ◌==◌, ◌≤◌, ◌||◌, some, ◌++◌, length, not, ◌≡◌,
  any, ◌≢◌, all, All, drop_while,
}
use docsiq.Prelude.Distinct.{distinct, distinct-snoc, any-append}
use docsiq.Prelude.Text.{Bytes, codes, bytes_eq, bytes_eq_iff}
use docsiq.Notes.Links.{
  take_while, is_target, is_alias, link_end, link_target, link_at, matches, add_key, add_targets,
  extract_wikilinks,
}

-- A link with the text before it.
pub record Part : Type 0 where
  pub before : Bytes
  pub target : Bytes
  pub alias : Option Bytes

-- The text has no bracket that opens, the target no closing bracket and no bar, the alias no
-- closing bracket.
pub record IsPart (p : Part) : Type 0 where
  pub plain : all (λ c. not (c == b'[')) p.before ≡ true
  pub is_link : all is_target p.target ≡ true
  pub is_some : p.target ≢ []
  pub is_named : elim p.alias [ none ↦ true | some a ↦ all is_alias a ] ≡ true

abbrev pub alias_text : Option Bytes → Bytes
alias_text none = []
alias_text (some a) = b'|' ∷ a

abbrev pub link_text : Bytes → Option Bytes → Bytes → Bytes
link_text target alias rest = codes "[[" ++ (target ++ (alias_text alias ++ (codes "]]" ++ rest)))

abbrev pub render : List Part → Bytes → Bytes
render [] end = end
render (p ∷ ps) end = p.before ++ link_text p.target p.alias (render ps end)

module _ (p : ℕ → Bool) where
  take_while-append :
      (t : Bytes) (c : ℕ) (s : Bytes) → all p t ≡ true → p c ≡ false → take_while p (t ++ c ∷ s) ≡ t
  take_while-append [] c s h k = ground arith
  take_while-append (x ∷ t) c s h k = ground (arith, take_while-append t c s)

  drop_while-append :
      (t : Bytes) (c : ℕ) (s : Bytes)
      → all p t ≡ true
      → p c ≡ false
      → drop_while p (t ++ c ∷ s) ≡ c ∷ s
  drop_while-append [] c s h k = ground arith
  drop_while-append (x ∷ t) c s h k = ground (arith, drop_while-append t c s)

link_target-some :
    (t s rest : Bytes) → t ≢ [] → link_end s ≡ some rest → link_target t s ≡ some (t, rest)
link_target-some [] s rest n h = absurd (n refl)
link_target-some (c ∷ t) s rest n h = rw (h, link_target) refl

-- A link at the start of a text is matched whole.
link_at-link_text :
    (target : Bytes) (alias : Option Bytes) (rest : Bytes)
    → all is_target target ≡ true
    → target ≢ []
    → elim alias [ none ↦ true | some a ↦ all is_alias a ] ≡ true
    → link_at (link_text target alias rest) ≡ some (target, rest)
unfolding link_at
link_at-link_text target none rest h n k =
    rw
      (
        take_while-append is_target target b']' (b']' ∷ rest) h refl,
        drop_while-append is_target target b']' (b']' ∷ rest) h refl,
      )
      (link_target-some target (b']' ∷ b']' ∷ rest) rest n refl)
link_at-link_text target (some a) rest h n k =
    let e = drop_while-append is_alias a b']' (b']' ∷ rest) k refl in
    rw
      (
        take_while-append is_target target b'|' (a ++ b']' ∷ b']' ∷ rest) h refl,
        drop_while-append is_target target b'|' (a ++ b']' ∷ b']' ∷ rest) h refl,
      )
      (link_target-some target (b'|' ∷ (a ++ b']' ∷ b']' ∷ rest)) rest n (rw e refl))

link_at-plain : (c : ℕ) (s : Bytes) → not (c == b'[') ≡ true → link_at (c ∷ s) ≡ none
unfolding link_at
link_at-plain c s h =
    let e : (b'[' == c) ≡ false = ground (arith, ==_iff c b'[', ==_iff b'[' c) in
    rw (e, link_at) refl

matches-none :
    (c : ℕ) (s : Bytes) (n : ℕ) → link_at (c ∷ s) ≡ none → matches (suc n) (c ∷ s) ≡ matches n s
unfolding matches
matches-none c s n h = rw (h, matches) refl

matches-some :
    (c : ℕ) (s : Bytes) (n : ℕ) {t rest : Bytes}
    → link_at (c ∷ s) ≡ some (t, rest)
    → matches (suc n) (c ∷ s) ≡ t ∷ matches n rest
unfolding matches
matches-some c s n h = rw (h, matches) refl

-- The text before a link is skipped.
matches-plain :
    (b r : Bytes) (n : ℕ)
    → all (λ c. not (c == b'[')) b ≡ true
    → length (b ++ r) ≤ n
    → (m : ℕ) × (length r ≤ m) × (matches n (b ++ r) ≡ matches m r)
matches-plain [] r n h k = (n, k, refl)
matches-plain (c ∷ b) r zero h k = absurd (omega arith)
matches-plain (c ∷ b) r (suc n) h k =
    let (m, l, e) = matches-plain b r n (ground arith) (omega arith) in
    (m, l, matches-none c (b ++ r) n (link_at-plain c (b ++ r) (ground arith)) ∙ e)

length-link_text :
    (target : Bytes) (alias : Option Bytes) (rest : Bytes)
    → length rest + 2 ≤ length (link_text target alias rest)
length-link_text target alias rest = omega (
  arith,
  length-append {0} target (alias_text alias ++ (codes "]]" ++ rest)),
  length-append {0} (alias_text alias) (codes "]]" ++ rest),
)

-- A link is one match.
matches-link_text :
    (p : Part) (rest : Bytes) (n : ℕ)
    → IsPart p
    → length (link_text p.target p.alias rest) ≤ n
    → (m : ℕ) × (length rest ≤ m)
      × (matches n (link_text p.target p.alias rest) ≡ p.target ∷ matches m rest)
matches-link_text p rest zero h k = absurd (omega arith)
matches-link_text p rest (suc n) h k = (
  n,
  omega (arith, length-link_text p.target p.alias rest),
  matches-some b'[' (b'[' ∷ (p.target ++ (alias_text p.alias ++ (codes "]]" ++ rest)))) n
      (link_at-link_text p.target p.alias rest h.is_link h.is_some h.is_named),
)

matches-end : (end : Bytes) (n : ℕ) → all (λ c. not (c == b'[')) end ≡ true → matches n end ≡ []
unfolding matches
matches-end end zero h = refl
matches-end [] (suc n) h = refl
matches-end (c ∷ s) (suc n) h =
    matches-none c s n (link_at-plain c s (ground arith)) ∙ matches-end s n (ground arith)

-- Every match of a rendered text is one of its links.
matches-render :
    (ps : List Part) (end : Bytes) (n : ℕ)
    → All IsPart ps
    → all (λ c. not (c == b'[')) end ≡ true
    → length (render ps end) ≤ n
    → matches n (render ps end) ≡ map (λ p. p.target) ps
matches-render [] end n _ h k = matches-end end n h
matches-render (p ∷ ps) end n (q, qs) h k =
    let (m, l, e) =
      matches-plain p.before (link_text p.target p.alias (render ps end)) n q.plain k in
    let (j, l', f) = matches-link_text p (render ps end) m q l in
    e ∙ f ∙ ap (◌∷◌ p.target) (matches-render ps end j qs h l')

pub any-add_key :
    (seen : List Bytes) (t k : Bytes)
    → any (bytes_eq k) (add_key seen t) ≡ (any (bytes_eq k) seen || bytes_eq k t)
any-add_key seen t k = elim (Bool-cases (any (bytes_eq t) seen)) [
  | inr e ↦ rw e (ground (arith, any-append bytes_eq k seen (t ∷ [])))
  | inl e ↦ elim (Bool-cases (bytes_eq k t)) [
    | inr f ↦ rw (e, f) (ground arith)
    | inl f ↦
        let s = (bytes_eq_iff k t).0 f in
        let g : any (bytes_eq k) seen ≡ true =
          subst (λ (x : Bytes). any (bytes_eq x) seen ≡ true) (sym s) e in
        rw (e, f, g) refl
  ]
]

pub add_key-distinct :
    (seen : List Bytes) (t : Bytes)
    → distinct bytes_eq seen ≡ true
    → distinct bytes_eq (add_key seen t) ≡ true
add_key-distinct seen t h = elim (Bool-cases (any (bytes_eq t) seen)) [
  | inl e ↦ rw e h
  | inr e ↦ rw e (distinct-snoc bytes_eq bytes_eq_iff seen t h e)
]

-- What the loop over the matches keeps.
any-add_targets :
    (seen ts : List Bytes) (k : Bytes)
    → k ≢ []
    → any (bytes_eq k) (add_targets seen ts) ≡ (any (bytes_eq k) seen || any (bytes_eq k) ts)
unfolding add_targets
any-add_targets seen [] k h = ground arith
any-add_targets seen ([] ∷ ts) k h =
    let e : bytes_eq k [] ≡ false = ground (arith, bytes_eq_iff k []) in
    any-add_targets seen ts k h ∙ rw e refl
any-add_targets seen ((c ∷ t) ∷ ts) k h =
    any-add_targets (add_key seen (c ∷ t)) ts k h ∙ ground (arith, any-add_key seen (c ∷ t) k)

pub add_targets-distinct :
    (seen ts : List Bytes)
    → distinct bytes_eq seen ≡ true
    → distinct bytes_eq (add_targets seen ts) ≡ true
unfolding add_targets
add_targets-distinct seen [] h = h
add_targets-distinct seen ([] ∷ ts) h = add_targets-distinct seen ts h
add_targets-distinct seen ((c ∷ t) ∷ ts) h =
    add_targets-distinct (add_key seen (c ∷ t)) ts (add_key-distinct seen (c ∷ t) h)

-- Take parts whose texts have no bracket that opens, whose targets are not empty and have no
-- closing bracket and no bar, and whose aliases have no closing bracket, with a text behind them
-- that has no bracket that opens. From the body that writes each target in double brackets, with
-- its alias behind a bar if there is one, `ExtractWikilinks` returns no key twice, and a key that
-- is not empty exactly if it is one of these targets.
pub extract_wikilinks-render :
    (ps : List Part) (end k : Bytes)
    → All IsPart ps
    → all (λ c. not (c == b'[')) end ≡ true
    → k ≢ []
    → (any (bytes_eq k) (extract_wikilinks (render ps end))
        ≡ any (bytes_eq k) (map (λ p. p.target) ps))
      × (distinct bytes_eq (extract_wikilinks (render ps end)) ≡ true)
unfolding extract_wikilinks
extract_wikilinks-render ps end k h e n =
    let body = render ps end in
    let m = matches-render ps end (length body) h e (omega arith) in
    (
      rw m (any-add_targets [] (map (λ p. p.target) ps) k n),
      add_targets-distinct [] (matches (length body) body) refl,
    )
