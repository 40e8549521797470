-- ===== src/Search/Global.antt =====
-- internal/search/global.go: what `GlobalSearch` returns.
use docsiq.Prelude.{
  length-map, ◌≢◌, ◌≡◌, ◌⊎◌, refl, ℕ, List, [], ◌∷◌, map, length, take, ◌+◌, ◌≤◌, ◌<◌, arith,
  Option-cases, List-cases, inl, inr, All, length-take-le,
}
use docsiq.Prelude.Sort.{sort}
use docsiq.Prelude.Text.{Bytes, codes}
use docsiq.Prelude.Int.{ℤ}
use docsiq.Search.{World, Community}
use docsiq.Search.Summaries.{
  Answered, answered, answer_failed, with_summary, scored_communities, ask, global_search,
  communities_at,
}

module _ (w : World) where
  open w use {Vec, Score}

  abbrev HasSummary : Community Vec → Type 0
  HasSummary c = c.summary ≢ []

  with_summary-HasSummary :
      (i : ℕ) (cs : List (Community Vec × Score))
      → All HasSummary (map (λ c. c.1) (with_summary w i cs))
  with_summary-HasSummary i [] = tt
  with_summary-HasSummary i (c ∷ cs) = elim (List-cases c.0.summary) [
    | inl e ↦ rw e (with_summary-HasSummary (i + 1) cs)
    | inr (b, s, e) ↦ rw e ((λ h. cc), with_summary-HasSummary (i + 1) cs)
  ]

  length-with_summary :
      (i : ℕ) (cs : List (Community Vec × Score)) → length (with_summary w i cs) ≤ length cs
  length-with_summary i [] = omega arith
  length-with_summary i (c ∷ cs) = ground (arith, length-with_summary (i + 1) cs)

  -- An answer is the notice without communities, or names between one and ten communities, which
  -- all have a summary.
  abbrev pub IsGrounded : Answered w → Type 0
  IsGrounded (answered text cs) =
      ((cs ≡ [])
        × (text ≡ codes "No community summaries available. Run `docsiq index --finalize` first."))
      ⊎ ((0 < length cs) × (length cs ≤ 10) × All (λ c. c.summary ≢ []) cs)
  IsGrounded answer_failed = Unit

  ask-IsGrounded :
      (query : Bytes) (ps : List (ℕ × Community Vec))
      → length ps ≤ 10
      → All HasSummary (map (λ c. c.1) ps)
      → IsGrounded (ask w query ps)
  ask-IsGrounded query [] l h = inl (refl, refl)
  ask-IsGrounded query (p ∷ ps) l h = elim (Option-cases (w.complete query (p ∷ ps))) [
    | inl e ↦ rw (e, ask) tt
    | inr (answer, e) ↦
        rw (e, ask)
          (inr (omega arith, omega (arith, length-map ps (λ (c : ℕ × Community Vec). c.1)), h))
  ]

  -- An answer of `GlobalSearch` names between one and ten communities, and each of them has a
  -- summary, or it names none and its text is the notice that there are no community summaries.
  pub global_search-IsGrounded :
      (query : Bytes) (level : ℤ) → IsGrounded (global_search w query level)
  unfolding global_search
  global_search-IsGrounded query level = elim (Option-cases (w.embed_one query)) [
    | inl e ↦ rw (e, global_search) tt
    | inr (q, e) ↦ elim (Option-cases (communities_at w level)) [
      | inl f ↦ rw (e, f, global_search) tt
      | inr (cs, f) ↦
          let best = take 10 (sort (λ a b. w.gt a.1 b.1) (scored_communities w q cs)) in
          rw (e, f, global_search)
            (ask-IsGrounded query (with_summary w 1 best)
              (omega (
                arith,
                length-with_summary 1 best,
                length-take-le {0} 10 (sort (λ a b. w.gt a.1 b.1) (scored_communities w q cs)),
              ))
              (with_summary-HasSummary 1 best))
    ]
  ]
