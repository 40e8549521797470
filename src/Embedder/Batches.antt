-- ===== src/Embedder/Batches.antt =====
-- The batches together give one vector for each text, in the order of the texts.
use mathlib.Core.List.{map-append}
use docsiq.Prelude.{
  ℕ, zero, suc, ◌+◌, ◌-◌, ◌≤◌, ◌<◌, ◌≡◌, refl, sym, ap, ◌∙◌, true, false, Option, none, some, List,
  [], ◌∷◌, ◌++◌, map, length, take, drop, replicate, ◌==◌, arith, Option-cases, Bool-cases, inl,
  inr, append_assoc, append-nil, length-append, length-map, length-drop, length-take-le,
  take-append, take-append-drop, ◌⊎◌,
}
use docsiq.Prelude.Int.{ℤ, pos, negsuc, or_default, or_default_pos}
use docsiq.Prelude.Text.{Bytes}
use docsiq.Embedder.{
  Provider, batch_size, batches, batches_from, EmbedError, wrong_count, vectors, first_error,
  write_at, embed_one_batch, embed_batches, embed_texts,
}

-- The batch size is positive and within a ceiling that the provider declares.
pub batch_size-bounds :
    (ceiling size : ℤ)
    → (0 < batch_size ceiling size)
      × (batch_size ceiling size ≤ or_default ceiling (batch_size ceiling size))
unfolding batch_size
batch_size-bounds (pos zero) size = (or_default_pos size 20 (omega arith), omega arith)
batch_size-bounds (pos (suc c)) size = let h = or_default_pos size 20 (omega arith) in ground arith
batch_size-bounds (negsuc c) size = (or_default_pos size 20 (omega arith), omega arith)

module _ {A : Type 0} where
  drop_more : (xs ys : List A) (k : ℕ) → drop (length xs + k) (xs ++ ys) ≡ drop k ys
  drop_more [] ys k = let e : 0 + k ≡ k = omega arith in ap (λ n. drop n ys) e
  drop_more (x ∷ xs) ys k =
      let e : suc (length xs) + k ≡ suc (length xs + k) = omega arith in
      ap (λ n. drop n (x ∷ (xs ++ ys))) e ∙ drop_more xs ys k

  drop-replicate : (k n : ℕ) (a : A) → drop k (replicate n a) ≡ replicate (n - k) a
  drop-replicate zero n a = let e : n ≡ n - 0 = omega arith in ap (λ m. replicate m a) e
  drop-replicate (suc k) zero a = let e : 0 ≡ 0 - suc k = omega arith in ap (λ m. replicate m a) e
  drop-replicate (suc k) (suc n) a =
      let e : n - k ≡ suc n - suc k = omega arith in
      drop-replicate k n a ∙ ap (λ m. replicate m a) e

  -- A cut is full unless nothing is left.
  take_full : (k : ℕ) (xs : List A) → (drop k xs ≡ []) ⊎ (length (take k xs) ≡ k)
  take_full zero xs = inr refl
  take_full (suc k) [] = inl refl
  take_full (suc k) (x ∷ xs) = elim (take_full k xs) [ inl e ↦ inl e | inr e ↦ inr (ap suc e) ]

  length-take-drop : (k : ℕ) (xs : List A) → length (take k xs) + length (drop k xs) ≡ length xs
  length-take-drop k xs =
      sym (length-append (take k xs) (drop k xs)) ∙ ap length (take-append-drop k xs)

  shorter :
      (k fuel : ℕ) (x : A) (xs : List A)
      → 0 < k
      → length (x ∷ xs) ≤ suc fuel
      → length (drop k (x ∷ xs)) ≤ fuel
  shorter k fuel x xs s f = omega (arith, length-drop k (x ∷ xs))

module _ (provider : Provider) where
  open provider use {Vector, embed_batch}

  abbrev unwritten : ℕ → List (Option Vector)
  unwritten n = replicate n none

  -- A batch's vectors come after those that are there.
  write_at-append :
      (done us : List Vector) (n : ℕ)
      → write_at provider (map some done ++ unwritten n) (length done) us
        ≡ map some (done ++ us) ++ unwritten (n - length us)
  write_at-append done us n =
      let before : length (map some done) ≡ length done = length-map done some in
      let a : take (length done) (map some done ++ unwritten n) ≡ map some done =
        ap (λ k. take k (map some done ++ unwritten n)) (sym before)
        ∙ take-append (map some done) (unwritten n) in
      let b : drop (length done + length us) (map some done ++ unwritten n)
          ≡ unwritten (n - length us) =
        ap (λ k. drop (k + length us) (map some done ++ unwritten n)) (sym before)
        ∙ drop_more (map some done) (unwritten n) (length us)
        ∙ drop-replicate (length us) n none in
      rw (a, b)
        (sym (append_assoc (map some done) (map some us) (unwritten (n - length us)))
          ∙ ap (λ x. x ++ unwritten (n - length us)) (sym (map-append some done us)))

  -- The vectors are the provider's answers to the batches, one after the other. A batch has no more
  -- texts than a bound, and its answer as many vectors as it has texts.
  abbrev pub AreAnswers : ℕ → List (List Bytes) → List Vector → Type 0
  AreAnswers size [] vs = vs ≡ []
  AreAnswers size (b ∷ bs) vs =
      (us rest : List Vector) × (vs ≡ us ++ rest)
      × (embed_batch b ≡ some us)
      × (length us ≡ length b)
      × (length b ≤ size)
      × AreAnswers size bs rest

  abbrev pub joined : List (List Bytes) → List Bytes
  joined [] = []
  joined (b ∷ bs) = b ++ joined bs

  -- The slots are written in order, one for each text.
  AllWritten : ℕ → List Vector → List Bytes → List (Option Vector) → Type 0
  AllWritten size done texts rs =
      (vs : List Vector) × (bs : List (List Bytes)) × (rs ≡ map some (done ++ vs))
      × (length vs ≡ length texts)
      × (joined bs ≡ texts)
      × AreAnswers size bs vs

  embed_one_batch-ok :
      (rs : List (Option Vector)) (i : ℕ) (b : List Bytes) (us : List Vector)
      → embed_batch b ≡ some us
      → (length us == length b) ≡ true
      → embed_one_batch provider rs (i, b) ≡ (write_at provider rs i us, none)
  unfolding embed_one_batch
  embed_one_batch-ok rs i b us e c = rw (e, c, embed_one_batch) refl

  embed_one_batch-short :
      (rs : List (Option Vector)) (i : ℕ) (b : List Bytes) (us : List Vector)
      → embed_batch b ≡ some us
      → (length us == length b) ≡ false
      → embed_one_batch provider rs (i, b) ≡ (rs, some (wrong_count i))
  unfolding embed_one_batch
  embed_one_batch-short rs i b us e c = rw (e, c, embed_one_batch) refl

  embed_batches-step :
      (rs : List (Option Vector)) (b : ℕ × List Bytes) (bs : List (ℕ × List Bytes))
      {next : List (Option Vector)}
      → embed_one_batch provider rs b ≡ (next, none)
      → embed_batches provider rs (b ∷ bs) ≡ embed_batches provider next bs
  unfolding embed_batches
  embed_batches-step rs b bs o =
      ap
        (λ p. (
          (embed_batches provider p.0 bs).0,
          elim p.1 [ none ↦ (embed_batches provider p.0 bs).1 | some x ↦ some x ],
        ))
        o

  embed_batches-cons :
      (rs : List (Option Vector)) (i : ℕ) (b : List Bytes) (us : List Vector)
      (bs : List (ℕ × List Bytes)) {all : List (Option Vector)}
      → embed_batch b ≡ some us
      → embed_batches provider rs ((i, b) ∷ bs) ≡ (all, none)
      → (length us ≡ length b)
        × (embed_batches provider (write_at provider rs i us) bs ≡ (all, none))
  unfolding embed_batches
  embed_batches-cons rs i b us bs {all} e h = elim (Bool-cases (length us == length b)) [
    | inl c ↦
        (ground arith, sym (embed_batches-step rs (i, b) bs (embed_one_batch-ok rs i b us e c)) ∙ h)
    | inr c ↦ absurd (cc (rw (embed_one_batch-short rs i b us e c) at h))
  ]

  embed_batches-fails :
      (rs : List (Option Vector)) (i : ℕ) (b : List Bytes) (bs : List (ℕ × List Bytes))
      {all : List (Option Vector)}
      → embed_batch b ≡ none
      → embed_batches provider rs ((i, b) ∷ bs) ≡ (all, none)
      → ⊥
  unfolding embed_batches embed_one_batch
  embed_batches-fails rs i b bs {all} e h = cc (rw e at h)

  batches_from-nil : (size fuel i : ℕ) → batches_from fuel size i [] ≡ []
  unfolding batches_from
  batches_from-nil size zero i = refl
  batches_from-nil size (suc fuel) i = refl

  embed_batches-AllWritten :
      (size fuel i : ℕ) (done : List Vector) (texts : List Bytes) {rs : List (Option Vector)}
      → 0 < size
      → length texts ≤ fuel
      → (texts ≡ []) ⊎ (i ≡ length done)
      → embed_batches provider
          (map some done ++ unwritten (length texts))
          (batches_from fuel size i texts)
        ≡ (rs, none)
      → AllWritten size done texts rs
  unfolding AllWritten batches_from embed_batches
  embed_batches-AllWritten size fuel i done [] {rs} s f p h =
      let k = rw (batches_from-nil size fuel i) at h in
      (
        [],
        [],
        sym (ap (λ x. x.0) k) ∙ append-nil (map some done) ∙ ap (map some) (sym (append-nil done)),
        refl,
        refl,
        refl,
      )
  embed_batches-AllWritten size zero i done (t ∷ ts) {rs} s f p h = absurd (omega arith)
  embed_batches-AllWritten size (suc fuel) i done (t ∷ ts) {rs} s f p h =
      let b = take size (t ∷ ts) in
      let left = drop size (t ∷ ts) in
      elim (Option-cases (embed_batch b)) [
        | inl e ↦ absurd (embed_batches-fails _ i b (batches_from fuel size (i + size) left) e h)
        | inr (us, e) ↦
            let q : i ≡ length done = elim p [ inl z ↦ absurd (cc z) | inr z ↦ z ] in
            let (c, k) =
              embed_batches-cons (map some done ++ unwritten (length (t ∷ ts))) i b us
                (batches_from fuel size (i + size) left) e h in
            let total = length-take-drop size (t ∷ ts) in
            let full = take_full size (t ∷ ts) in
            let counted : length (t ∷ ts) - length us ≡ length left = omega (arith, total, c) in
            let w =
              ap (λ x. write_at provider (map some done ++ unwritten (length (t ∷ ts))) x us) q
              ∙ write_at-append done us (length (t ∷ ts))
              ∙ ap (λ x. map some (done ++ us) ++ unwritten x) counted in
            let (vs, bs, r, l, parts, given) =
              embed_batches-AllWritten size fuel (i + size) (done ++ us) left s
                (shorter size fuel t ts s f)
                (elim full [
                  | inl z ↦ inl z
                  | inr z ↦ inr (
                      ap (λ n. n + size) q
                      ∙ ap (λ n. length done + n) (sym z ∙ sym c)
                      ∙ sym (length-append done us))
                ])
                (rw w at k) in
            (
              us ++ vs,
              b ∷ bs,
              r ∙ ap (map some) (append_assoc done us vs),
              length-append us vs ∙ omega (arith, total, c, l),
              ap (λ x. b ++ x) parts ∙ take-append-drop size (t ∷ ts),
              (us, vs, refl, e, c, length-take-le {0} size (t ∷ ts), given),
            )
      ]

  first_error-vectors :
      (p : List (Option Vector) × Option EmbedError) {rs : List (Option Vector)}
      → first_error p ≡ vectors rs
      → p ≡ (rs, none)
  first_error-vectors (a, none) {rs} h = let e : a ≡ rs = cc in ap (λ x. (x, none)) e
  first_error-vectors (a, some x) h = cc

  -- Where `EmbedTexts` succeeds, it has written one vector for each text, in order: the texts are cut
  -- into batches of at most the batch size, and the vectors are the provider's answers to the
  -- batches, each of which has as many vectors as its batch has texts. The batch size is supposed
  -- to be positive.
  pub embed_texts_complete :
      (size : ℕ) (texts : List Bytes) {rs : List (Option Vector)}
      → 0 < size
      → embed_texts provider size texts ≡ vectors rs
      → (vs : List Vector) × (bs : List (List Bytes)) × (rs ≡ map some vs)
        × (length vs ≡ length texts)
        × (joined bs ≡ texts)
        × AreAnswers size bs vs
  unfolding embed_texts batches AllWritten
  embed_texts_complete size [] s h = ([], [], ground arith, refl, refl, refl)
  embed_texts_complete size (t ∷ ts) {rs} s h =
      embed_batches-AllWritten size (length (t ∷ ts)) 0 [] (t ∷ ts) s (omega arith) (inr refl) (
        first_error-vectors
          (embed_batches provider (unwritten (length (t ∷ ts))) (batches size (t ∷ ts))) h)
