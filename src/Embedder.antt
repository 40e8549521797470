-- ===== src/Embedder.antt =====
-- internal/embedder/embedder.go: texts are embedded in batches. The provider is a parameter; a batch
-- writes into its own part of the results, so that the order in which the batches end does not
-- matter, and they are written in their own order here.
use docsiq.Prelude.{
  ℕ, zero, suc, ◌+◌, ◌≡◌, Bool, true, false, Option, none, some, List, [], ◌∷◌, ◌++◌, map, length,
  take, drop, replicate, ltb, ◌==◌, if◌then◌else◌,
}
use docsiq.Prelude.Int.{ℤ, pos, negsuc, or_default}
use docsiq.Prelude.Text.{Bytes}
pub mod Batches
mod Tests

-- `EmbedBatch`, `none` being its error, and `BatchCeiling`.
pub record Provider : Type 1 where
  pub Vector : Type 0
  pub batch_ceiling : ℤ
  pub embed_batch : List Bytes → Option (List Vector)

-- `New`: the batch size.
unfoldable pub batch_size : ℤ → ℤ → ℕ
batch_size ceiling size =
    let n = or_default size 20 in
    elim ceiling [ pos c ↦ if ltb 0 c then (if ltb c n then c else n) else n | negsuc c ↦ n ]

-- The loop `for i := 0; i < len(texts); i += e.batchSize`: each round takes at least one text, so
-- that as many rounds as texts are enough.
unfoldable pub batches_from : ℕ → ℕ → ℕ → List Bytes → List (ℕ × List Bytes)
batches_from zero size i texts = []
batches_from (suc fuel) size i [] = []
batches_from (suc fuel) size i (t ∷ ts) =
    (i, take size (t ∷ ts)) ∷ batches_from fuel size (i + size) (drop size (t ∷ ts))

unfoldable pub batches : ℕ → List Bytes → List (ℕ × List Bytes)
batches size texts = batches_from (length texts) size 0 texts

-- What goes wrong with a batch that starts at an index.
pub data EmbedError : Type 0 where
  batch_failed wrong_count : ℕ → EmbedError

pub data Embedded (V : Type 0) : Type 0 where
  vectors : List (Option V) → Embedded V
  failed : EmbedError → Embedded V

-- The results, or the first error.
abbrev pub first_error : {V : Type 0} → List (Option V) × Option EmbedError → Embedded V
first_error (results, none) = vectors results
first_error (results, some e) = failed e

module _ (provider : Provider) where
  open provider use {Vector, embed_batch}

  -- `results[work.idx+i] = vec` for each vector.
  abbrev pub write_at : List (Option Vector) → ℕ → List Vector → List (Option Vector)
  write_at results idx vecs =
      take idx results ++ (map some vecs ++ drop (idx + length vecs) results)

  -- The work of one batch: the results, and its entry of `errs`.
  unfoldable pub embed_one_batch :
      List (Option Vector) → ℕ × List Bytes → List (Option Vector) × Option EmbedError
  embed_one_batch results (idx, texts) = elim (embed_batch texts) [
    | none ↦ (results, some (batch_failed idx))
    | some vecs ↦
        if length vecs == length texts
        then (write_at results idx vecs, none)
        else (results, some (wrong_count idx))
  ]

  -- All batches, and the first error.
  unfoldable pub embed_batches :
      List (Option Vector) → List (ℕ × List Bytes) → List (Option Vector) × Option EmbedError
  embed_batches results [] = (results, none)
  embed_batches results (b ∷ bs) =
      let (done, e) = embed_one_batch results b in
      let (all_done, f) = embed_batches done bs in (all_done, elim e [ none ↦ f | some x ↦ some x ])

  -- `EmbedTexts`; a slot that is not written is nil, `none` here.
  unfoldable pub embed_texts : ℕ → List Bytes → Embedded Vector
  embed_texts size [] = vectors []
  embed_texts size (t ∷ ts) =
      let texts = t ∷ ts in
      first_error (embed_batches (replicate (length texts) none) (batches size texts))
