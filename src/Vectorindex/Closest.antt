-- ===== src/Vectorindex/Closest.antt =====
-- internal/vectorindex/hnsw.go: what `greedyStep` returns.
use docsiq.Prelude.{
  ℕ, zero, suc, ◌≡◌, refl, ap, sym, ◌∙◌, Bool, true, false, none, some, List, [], ◌∷◌, length,
  get_elem?, arith, Bool-cases, Option-cases, inl, inr,
}
use docsiq.Prelude.Heap.Count.{count}
use docsiq.Vectorindex.{
  Floats, HnswNode, Step, scan, greedy_from, greedy_step, links, vec_of, cosine_distance,
}
use docsiq.Vectorindex.Greedy.{IsOrder, greedy_step-some}

module _ (fl : Floats) (cells : List (HnswNode fl)) (query : List fl.F) where
  open fl use {F, lt}

  -- A link leads to a node that is closer to the query than a distance.
  abbrev pub leads_closer : F → ℕ → Bool
  leads_closer d nb = elim (get_elem? cells nb) [
    | none ↦ false
    | some n ↦ lt (cosine_distance fl n.vec query) d
  ]

  abbrev pub distance_of : ℕ → F
  distance_of a = cosine_distance fl (vec_of fl cells a) query

  -- The distance that the loop keeps is that of its current node.
  scan-dist :
      (nbs : List ℕ) (s : Step fl)
      → s.dist ≡ distance_of s.current
      → (scan fl cells query nbs s).dist ≡ distance_of (scan fl cells query nbs s).current
  unfolding scan
  scan-dist [] s h = h
  scan-dist (nb ∷ nbs) s h = elim (Option-cases (get_elem? cells nb)) [
    | inl e ↦ rw (e, scan) (scan-dist nbs s h)
    | inr (n, e) ↦
        let d = cosine_distance fl n.vec query in
        let next : Step fl = record { current = nb; dist = d; improved = true } in
        let same : d ≡ distance_of nb = rw (e, distance_of, vec_of) refl in
        elim (Bool-cases (lt d s.dist)) [
          | inl b ↦ rw (e, b, scan) (scan-dist nbs next same)
          | inr b ↦ rw (e, b, scan) (scan-dist nbs s h)
        ]
  ]

  scan-improved :
      (nbs : List ℕ) (s : Step fl) → s.improved ≡ true → (scan fl cells query nbs s).improved ≡ true
  unfolding scan
  scan-improved [] s h = h
  scan-improved (nb ∷ nbs) s h = elim (Option-cases (get_elem? cells nb)) [
    | inl e ↦ rw (e, scan) (scan-improved nbs s h)
    | inr (n, e) ↦
        let d = cosine_distance fl n.vec query in
        let next : Step fl = record { current = nb; dist = d; improved = true } in
        elim (Bool-cases (lt d s.dist)) [
          | inl b ↦ rw (e, b, scan) (scan-improved nbs next refl)
          | inr b ↦ rw (e, b, scan) (scan-improved nbs s h)
        ]
  ]

  -- A loop that improves nothing has seen no closer node, and stays where it was.
  scan-rest :
      (nbs : List ℕ) (s : Step fl)
      → (scan fl cells query nbs s).improved ≡ false
      → (count (leads_closer s.dist) nbs ≡ 0) × (scan fl cells query nbs s ≡ s)
  unfolding scan
  scan-rest [] s h = (refl, refl)
  scan-rest (nb ∷ nbs) s h = elim (Option-cases (get_elem? cells nb)) [
    | inl e ↦
        let q : scan fl cells query (nb ∷ nbs) s ≡ scan fl cells query nbs s = rw (e, scan) refl in
        let (c, f) = scan-rest nbs s (ap (λ (x : Step fl). x.improved) (sym q) ∙ h) in
        (rw (e, leads_closer) (omega (arith, c)), q ∙ f)
    | inr (n, e) ↦
        let d = cosine_distance fl n.vec query in
        let next : Step fl = record { current = nb; dist = d; improved = true } in
        elim (Bool-cases (lt d s.dist)) [
          | inl b ↦
              let q : scan fl cells query (nb ∷ nbs) s ≡ scan fl cells query nbs next =
                rw (e, b, scan) refl in
              let up = scan-improved nbs next refl in
              let down = ap (λ (x : Step fl). x.improved) (sym q) ∙ h in absurd (cc)
          | inr b ↦
              let q : scan fl cells query (nb ∷ nbs) s ≡ scan fl cells query nbs s =
                rw (e, b, scan) refl in
              let (c, f) = scan-rest nbs s (ap (λ (x : Step fl). x.improved) (sym q) ∙ h) in
              (rw (e, leads_closer, b) (omega (arith, c)), q ∙ f)
        ]
  ]

  greedy_from-closest :
      (k layer current : ℕ) (dist : F) (a : ℕ)
      → dist ≡ distance_of current
      → greedy_from fl k cells query layer current dist ≡ some a
      → count (leads_closer (distance_of a)) (links fl cells a layer) ≡ 0
  unfolding greedy_from
  greedy_from-closest zero layer current dist a h e = absurd (cc)
  greedy_from-closest (suc k) layer current dist a h e =
      let start : Step fl = record { current = current; dist = dist; improved = false } in
      let s = scan fl cells query (links fl cells current layer) start in
      elim (Bool-cases s.improved) [
        | inl b ↦
            let q : greedy_from fl (suc k) cells query layer current dist
                ≡ greedy_from fl k cells query layer s.current s.dist =
              rw (b, greedy_from) refl in
            greedy_from-closest k layer s.current s.dist a
              (scan-dist (links fl cells current layer) start h) (sym q ∙ e)
        | inr b ↦
            let q : greedy_from fl (suc k) cells query layer current dist ≡ some s.current =
              rw (b, greedy_from) refl in
            let (c, f) = scan-rest (links fl cells current layer) start b in
            let at : s.current ≡ current = ap (λ (x : Step fl). x.current) f in
            let same : a ≡ current = cc in rw (same, sym h) c
      ]

  -- `greedyStep` ends, at a node that has no link at the layer to a node closer to the query than
  -- itself. It is supposed that `<` of float32 is irreflexive and transitive.
  pub greedy_step-closest :
      (order : IsOrder fl) (ep layer : ℕ)
      → (a : ℕ) × (greedy_step fl cells ep query layer ≡ some a)
        × (count (leads_closer (distance_of a)) (links fl cells a layer) ≡ 0)
  unfolding greedy_step
  greedy_step-closest order ep layer =
      let (a, e) = greedy_step-some fl order cells query ep layer in
      (a, e, greedy_from-closest (suc (length cells)) layer ep (distance_of ep) a refl e)
