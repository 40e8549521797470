-- ===== src/Vectorindex/Greedy.antt =====
-- internal/vectorindex/hnsw.go: `greedyStep` ends.
use docsiq.Prelude.{
  ℕ, zero, suc, ◌≤◌, ◌≡◌, refl, ◌⊎◌, true, false, some, List, [], ◌∷◌, length, get_elem?, arith,
  Bool-cases, Option-cases, inl, inr,
}
use docsiq.Prelude.Heap.Count.{count, count-le-length}
use docsiq.Vectorindex.{
  Floats, HnswNode, Step, scan, greedy_from, greedy_step, cosine_distance, vec_of, links,
}
use docsiq.Vectorindex.Visit.{count_strict}

module _ (fl : Floats) where
  open fl use {F, lt}

  -- `<` of float32: NaN is less than nothing, and nothing is less than it.
  pub record IsOrder : Type 0 where
    pub irrefl : (a : F) → lt a a ≡ false
    pub trans : (a b c : F) → lt a b ≡ true → lt b c ≡ true → lt a c ≡ true

  module _ (order : IsOrder) (cells : List (HnswNode fl)) (query : List F) where
    -- The nodes that are closer than a distance.
    abbrev closer : F → ℕ
    closer d = count (λ n. lt (cosine_distance fl n.vec query) d) cells

    closer-less :
        (d : F) (i : ℕ) {n : HnswNode fl}
        → get_elem? cells i ≡ some n
        → lt (cosine_distance fl n.vec query) d ≡ true
        → suc (closer (cosine_distance fl n.vec query)) ≤ closer d
    closer-less d i {n} e h =
        let d' = cosine_distance fl n.vec query in
        count_strict (λ (x : HnswNode fl). lt (cosine_distance fl x.vec query) d)
          (λ (x : HnswNode fl). lt (cosine_distance fl x.vec query) d')
          (λ x m. order.trans (cosine_distance fl x.vec query) d' d m h) cells i e h
          (order.irrefl d')

    -- The loop over the links improves nothing, or leaves fewer nodes that are closer.
    scan-closer :
        (nbs : List ℕ) (s : Step fl)
        → (scan fl cells query nbs s ≡ s)
          ⊎ (((scan fl cells query nbs s).improved ≡ true)
              × (suc (closer (scan fl cells query nbs s).dist) ≤ closer s.dist))
    unfolding scan
    scan-closer [] s = inl refl
    scan-closer (nb ∷ nbs) s = elim (Option-cases (get_elem? cells nb)) [
      | inl e ↦ rw (e, scan) (scan-closer nbs s)
      | inr (n, e) ↦
          let d = cosine_distance fl n.vec query in
          elim (Bool-cases (lt d s.dist)) [
            | inr b ↦ rw (e, b, scan) (scan-closer nbs s)
            | inl b ↦
                let next : Step fl = record { current = nb; dist = d; improved = true } in
                let fewer = closer-less s.dist nb e b in
                rw (e, b, scan)
                  (inr (elim (scan-closer nbs next) [
                    | inl f ↦ rw f (refl, fewer)
                    | inr (i, l) ↦ (i, omega arith)
                  ]))
          ]
    ]

    greedy_from-some :
        (k layer current : ℕ) (dist : F)
        → closer dist ≤ k
        → (a : ℕ) × (greedy_from fl (suc k) cells query layer current dist ≡ some a)
    unfolding greedy_from
    greedy_from-some zero layer current dist l =
        let start : Step fl = record { current = current; dist = dist; improved = false } in
        let s = scan fl cells query (links fl cells current layer) start in
        elim (scan-closer (links fl cells current layer) start) [
          | inl f ↦ (current, rw (f, greedy_from) refl)
          | inr (i, fewer) ↦ absurd (omega arith)
        ]
    greedy_from-some (suc k) layer current dist l =
        let start : Step fl = record { current = current; dist = dist; improved = false } in
        let s = scan fl cells query (links fl cells current layer) start in
        elim (scan-closer (links fl cells current layer) start) [
          | inl f ↦ (current, rw (f, greedy_from) refl)
          | inr (i, fewer) ↦
              let (a, e) = greedy_from-some k layer s.current s.dist (omega arith) in
              (a, rw (i, greedy_from) e)
        ]

    -- A greedy step ends: there are as many rounds as nodes, and one.
    pub greedy_step-some : (ep layer : ℕ) → (a : ℕ) × (greedy_step fl cells ep query layer ≡ some a)
    unfolding greedy_step
    greedy_step-some ep layer =
        let d = cosine_distance fl (vec_of fl cells ep) query in
        greedy_from-some (length cells) layer ep d
          (count-le-length (λ (n : HnswNode fl). lt (cosine_distance fl n.vec query) d) cells)
