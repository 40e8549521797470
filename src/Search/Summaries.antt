-- ===== src/Search/Summaries.antt =====
-- internal/search/global.go: `GlobalSearch`.
use docsiq.Prelude.{ℕ, ◌+◌, Option, none, some, List, [], ◌∷◌, map, take, if◌then◌else◌}
use docsiq.Prelude.Int.{ℤ}
use docsiq.Prelude.Sort.{sort}
use docsiq.Prelude.Text.{Bytes, codes}
use docsiq.Search.{World, Community}

module _ (w : World) where
  open w use {
    Vec, Score, gt, half, cosine, is_empty, embed_one, list_communities, all_communities, complete,
  }

  pub data Answered : Type 0 where
    answered : Bytes → List (Community Vec) → Answered
    answer_failed : Answered

  -- The communities with a score.
  abbrev pub scored_communities : Vec → List (Community Vec) → List (Community Vec × Score)
  scored_communities q [] = []
  scored_communities q (c ∷ cs) =
      let rest = scored_communities q cs in
      let by_summary : List (Community Vec × Score) = elim c.summary [
        | [] ↦ rest
        | b ∷ s ↦ (c, half) ∷ rest
      ] in
      elim c.vector [
        | none ↦ by_summary
        | some v ↦ if is_empty q then by_summary else (c, cosine q v) ∷ rest
      ]

  -- Those with a summary, with their place in the order of the scores, from a number on.
  abbrev pub with_summary : ℕ → List (Community Vec × Score) → List (ℕ × Community Vec)
  with_summary i [] = []
  with_summary i (c ∷ cs) =
      let rest = with_summary (i + 1) cs in elim c.0.summary [ [] ↦ rest | b ∷ s ↦ (i, c.0) ∷ rest ]

  -- The communities of a level, or all if it has none.
  unfoldable pub communities_at : ℤ → Option (List (Community Vec))
  communities_at level = elim (list_communities level) [
    | none ↦ none
    | some [] ↦ all_communities
    | some (c ∷ cs) ↦ some (c ∷ cs)
  ]

  -- The answer where no summary is left.
  abbrev pub no_summaries : Bytes
  no_summaries = codes "No community summaries available. Run `docsiq index --finalize` first."

  -- The question to the model, of the communities that are left.
  abbrev pub ask : Bytes → List (ℕ × Community Vec) → Answered
  ask query [] = answered no_summaries []
  ask query (p ∷ ps) = elim (complete query (p ∷ ps)) [
    | none ↦ answer_failed
    | some answer ↦ answered answer (map (λ c. c.1) (p ∷ ps))
  ]

  unfoldable pub global_search : Bytes → ℤ → Answered
  global_search query level = elim (embed_one query) [
    | none ↦ answer_failed
    | some q ↦ elim (communities_at level) [
      | none ↦ answer_failed
      | some cs ↦
          ask query (with_summary 1 (take 10 (sort (λ a b. gt a.1 b.1) (scored_communities q cs))))
    ]
  ]
