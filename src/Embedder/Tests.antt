-- ===== src/Embedder/Tests.antt =====
-- A provider that gives the length of a text.
use docsiq.Prelude.{ℕ, ◌≡◌, refl, some, List, [], ◌∷◌, map, length, arith}
use docsiq.Prelude.Int.{pos}
use docsiq.Prelude.Text.{Bytes, codes}
use docsiq.Embedder.{
  Provider, vectors, embed_texts, batches, batches_from, embed_batches, embed_one_batch,
}
use docsiq.Embedder.Batches.{joined, AreAnswers, embed_texts_complete}

abbrev lengths : Provider
lengths = record {
  Vector = ℕ;
  batch_ceiling = pos 2;
  embed_batch = λ texts. some (map length texts);
}

abbrev three : List Bytes
three = codes "a" ∷ codes "bc" ∷ codes "def" ∷ []

embedded : embed_texts lengths 2 three ≡ vectors (some 1 ∷ some 2 ∷ some 3 ∷ [])
unfolding embed_texts embed_batches batches batches_from embed_one_batch
embedded = refl

embed_texts_complete_example :
    (vs : List ℕ) × (bs : List (List Bytes)) × ((some 1 ∷ some 2 ∷ some 3 ∷ []) ≡ map some vs)
    × (length vs ≡ length three)
    × (joined lengths bs ≡ three)
    × AreAnswers lengths 2 bs vs
embed_texts_complete_example = embed_texts_complete lengths 2 three (omega arith) embedded
