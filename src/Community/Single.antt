-- ===== src/Community/Single.antt =====
-- The super-graph has edges at one node only, so that no second level is ever found.
use docsiq.Prelude.{
  ℕ, zero, suc, ◌+◌, ◌-◌, ◌<◌, ◌≡◌, refl, sym, ap, ◌∙◌, true, false, none, some, List, [], ◌∷◌, any,
  map, length, ◌==◌, arith, All, All-append, Option-cases, Bool-cases, inl, inr, length-map,
}
use docsiq.Prelude.Text.{Bytes}
use docsiq.Community.{
  Runtime, Graph, iota, at, add_edge, add_edges, node_index, position, new_graph, louvain,
}
use docsiq.Community.Loops.{IsRuntime, louvain-loops}
use docsiq.Community.Levels.{
  dedup, index_in, super_adj, super_row, super_edges, names, next_level, levels_from,
  hierarchical_louvain,
}

at-iota : (start n i : ℕ) → i < n → at (iota start n) i ≡ start + i
at-iota start zero i h = absurd (omega arith)
at-iota start (suc n) zero h = omega arith
at-iota start (suc n) (suc i) h = at-iota (start + 1) n i (omega (arith, h)) ∙ omega arith

any-dedup : (c : ℕ) (xs : List ℕ) → any (◌==◌ c) (dedup xs) ≡ any (◌==◌ c) xs
any-dedup c [] = refl
any-dedup c (x ∷ xs) =
    let h = any-dedup c xs in
    elim (Bool-cases (c == x)) [
      | inl d ↦
          let e : c ≡ x = ground arith in
          let k : any (◌==◌ c) xs ≡ any (◌==◌ x) xs = ap (λ y. any (◌==◌ y) xs) e in ground arith
      | inr d ↦ ground arith
    ]

-- A map that is injective on the entries keeps the number of different ones.
any-map :
    (f : ℕ → ℕ) (x : ℕ) (xs : List ℕ)
    → ((y : ℕ) → any (◌==◌ y) xs ≡ true → f x ≡ f y → x ≡ y)
    → any (◌==◌ (f x)) (map f xs) ≡ any (◌==◌ x) xs
any-map f x [] inj = refl
any-map f x (y ∷ ys) inj =
    let rest = any-map f x ys (λ z h k. inj z (ground arith) k) in
    let back : f x ≡ f y → x ≡ y = inj y (ground arith) in
    elim (Bool-cases (x == y)) [
      | inl d ↦ let e : f x ≡ f y = ap f (ground arith) in ground arith
      | inr d ↦ elim (Bool-cases (f x == f y)) [
        | inl k ↦ let e = back (ground arith) in ground arith
        | inr k ↦ ground arith
      ]
    ]

length-dedup-map :
    (f : ℕ → ℕ) (xs : List ℕ)
    → ((x y : ℕ) → any (◌==◌ x) xs ≡ true → any (◌==◌ y) xs ≡ true → f x ≡ f y → x ≡ y)
    → length (dedup (map f xs)) ≡ length (dedup xs)
length-dedup-map f [] inj = refl
length-dedup-map f (x ∷ xs) inj =
    let rest = length-dedup-map f xs (λ a b h k e. inj a b (ground arith) (ground arith) e) in
    let same = any-map f x xs (λ y h e. inj x y (ground arith) (ground arith) e) in ground arith

-- Where a label stands in the order.
position-some :
    (order : List ℕ) (c : ℕ)
    → any (◌==◌ c) order ≡ true
    → (i : ℕ) × (position order c ≡ some i) × (i < length order)
position-some [] c h = cc
position-some (d ∷ order) c h = elim (Bool-cases (d == c)) [
  | inl e ↦ (0, ground arith, omega arith)
  | inr e ↦
      let (i, k, l) = position-some order c (ground arith) in
      (suc i, ground arith, omega (arith, l))
]

position-inj :
    (order : List ℕ) (c d i : ℕ) → position order c ≡ some i → position order d ≡ some i → c ≡ d
position-inj [] c d i h k = cc
position-inj (e ∷ order) c d zero h k = elim (Option-cases (position order c)) [
  | inl x ↦ elim (Option-cases (position order d)) [
    | inl y ↦ ground arith
    | inr (b, y) ↦ ground arith
  ]
  | inr (a, x) ↦ elim (Option-cases (position order d)) [
    | inl y ↦ ground arith
    | inr (b, y) ↦ ground arith
  ]
]
position-inj (e ∷ order) c d (suc i) h k = elim (Option-cases (position order c)) [
  | inl x ↦ absurd (ground arith)
  | inr (a, x) ↦ elim (Option-cases (position order d)) [
    | inl y ↦ absurd (ground arith)
    | inr (b, y) ↦
        let p : a ≡ i = ground arith in
        let q : b ≡ i = ground arith in position-inj order c d i (x ∙ ap some p) (y ∙ ap some q)
  ]
]

module _ (rt : Runtime) where
  -- Both ends of an edge have the same name.
  abbrev IsLoop : Bytes × Bytes × rt.F → Type 0
  IsLoop (src, tgt, w) = src ≡ tgt

  add_edge-nodes : (g : Graph rt) (e : Bytes × Bytes × rt.F) → (add_edge rt g e).nodes ≡ g.nodes
  unfolding add_edge
  add_edge-nodes g (src, tgt, w) = elim (Option-cases (node_index 0 g.nodes src)) [
    | inl p ↦ rw (p, add_edge) refl
    | inr (i, p) ↦ elim (Option-cases (node_index 0 g.nodes tgt)) [
      | inl q ↦ rw (p, q, add_edge) refl
      | inr (j, q) ↦ rw (p, q, add_edge) refl
    ]
  ]

  add_edge-IsLoop :
      (g : Graph rt) (e : Bytes × Bytes × rt.F) (i j : ℕ)
      → IsLoop e
      → (i == j) ≡ false
      → (add_edge rt g e).adj i j ≡ g.adj i j
  unfolding add_edge
  add_edge-IsLoop g (src, tgt, w) i j l n = elim (Option-cases (node_index 0 g.nodes src)) [
    | inl p ↦ rw (p, add_edge) refl
    | inr (k, p) ↦
        let q = ap (node_index 0 g.nodes) (sym l) ∙ p in rw (p, q, add_edge) (ground arith)
  ]

  add_edges-loops :
      (g : Graph rt) (es : List (Bytes × Bytes × rt.F))
      → All IsLoop es
      → ((add_edges rt g es).nodes ≡ g.nodes)
        × ((i j : ℕ) → (i == j) ≡ false → (add_edges rt g es).adj i j ≡ g.adj i j)
  unfolding add_edges
  add_edges-loops g [] h = (refl, λ i j n. refl)
  add_edges-loops g (e ∷ es) (l, h) =
      let (a, b) = add_edges-loops (add_edge rt g e) es h in
      (a ∙ add_edge-nodes g e, λ i j n. b i j n ∙ add_edge-IsLoop g e i j l n)

  super_row-IsLoop : (adj : ℕ → ℕ → rt.F) (i : ℕ) (js : List ℕ) → All IsLoop (super_row rt adj i js)
  super_row-IsLoop adj i [] = tt
  super_row-IsLoop adj i (j ∷ js) =
      let h = super_row-IsLoop adj i js in
      elim (Bool-cases (rt.gt (adj i j) rt.nil)) [ inl e ↦ rw e (refl, h) | inr e ↦ rw e h ]

  super_edges-IsLoop :
      (adj : ℕ → ℕ → rt.F) (k : ℕ) (is : List ℕ) → All IsLoop (super_edges rt adj k is)
  super_edges-IsLoop adj k [] = tt
  super_edges-IsLoop adj k (i ∷ is) =
      All-append IsLoop (super_row rt adj i (iota (i + 1) (k - (i + 1)))) (super_edges rt adj k is)
        (super_row-IsLoop adj i (iota (i + 1) (k - (i + 1)))) (super_edges-IsLoop adj k is)

  module _ (laws : IsRuntime rt) where
    louvain-super :
        (order : List ℕ) (es : List (Bytes × Bytes × rt.F)) (max_iter : ℕ)
        → All IsLoop es
        → louvain rt (new_graph rt (names order) es) max_iter ≡ iota 0 (length order)
    unfolding new_graph
    louvain-super order es max_iter h =
        let empty : Graph rt = record {
          nodes = names order;
          edges = [];
          adj = λ i j. rt.nil;
          total = rt.nil;
        } in
        let (a, b) = add_edges-loops empty es h in
        louvain-loops rt laws (add_edges rt empty es)
          (λ i j n. ap (λ x. rt.gt x rt.nil) (b i j n) ∙ laws.nil_not_gt) max_iter
        ∙ ap (λ ns. iota 0 (length ns)) a
        ∙ ap (iota 0) (length-map order (λ c. []))

    module _
        (all_visited : (xs : List ℕ) (c : ℕ)
          → any (◌==◌ c) xs ≡ true
          → any (◌==◌ c) (rt.range_set xs) ≡ true) where
      -- A label's node in the super-graph.
      located :
          (current : List ℕ) (c : ℕ)
          → any (◌==◌ c) current ≡ true
          → (i : ℕ) × (position (rt.range_set (dedup current)) c ≡ some i)
            × (i < length (rt.range_set (dedup current)))
      located current c h =
          position-some (rt.range_set (dedup current)) c
            (all_visited (dedup current) c (any-dedup c current ∙ h))

      renamed :
          (order : List ℕ) (c i : ℕ)
          → position order c ≡ some i
          → i < length order
          → at (iota 0 (length order)) (index_in order c) ≡ i
      renamed order c i p l =
          let q : index_in order c ≡ i = rw (p, index_in) refl in
          ap (at (iota 0 (length order))) q ∙ at-iota 0 (length order) i l ∙ omega arith

      next_level-none :
          (g : Graph rt) (max_iter : ℕ) (current : List ℕ) → next_level rt g max_iter current ≡ none
      unfolding next_level
      next_level-none g max_iter current =
          let order = rt.range_set (dedup current) in
          let k = length order in
          let adj = super_adj rt order current (λ i j. rt.nil) g.edges in
          let e =
            louvain-super order (super_edges rt adj k (iota 0 k)) max_iter
              (super_edges-IsLoop adj k (iota 0 k)) in
          let next =
            length-dedup-map (λ c. at (iota 0 k) (index_in order c)) current
              (λ c d h l q.
                let (i, p, b) = located current c h in
                let (j, r, s) = located current d l in
                let u : i ≡ j = sym (renamed order c i p b) ∙ q ∙ renamed order d j r s in
                position-inj order c d j (p ∙ ap some u) r) in
          rw (e, next_level) (ground (arith, next))

      -- `HierarchicalLouvain` never returns a second level: the nodes of its super-graph all have
      -- the empty name, so that every edge joins the last node to itself and no node moves. It is
      -- assumed that `x - x` and 0 are not greater than 0 and that `range` visits every key.
      pub hierarchical_louvain-single :
          (g : Graph rt) (max_levels max_iter : ℕ)
          → hierarchical_louvain rt g max_levels max_iter ≡ louvain rt g max_iter ∷ []
      unfolding hierarchical_louvain levels_from
      hierarchical_louvain-single g max_levels max_iter =
          ap (◌∷◌ (louvain rt g max_iter)) (stops (max_levels - 1))
        where
          stops : (n : ℕ) → levels_from rt g max_iter n (louvain rt g max_iter) ≡ []
          stops zero = refl
          stops (suc n) = rw (next_level-none g max_iter (louvain rt g max_iter), levels_from) refl
