-- ===== src/Community/Levels.antt =====
-- internal/community/louvain.go: `HierarchicalLouvain`.
use docsiq.Prelude.{
  ℕ, zero, suc, ◌+◌, ◌-◌, Option, none, some, List, [], ◌∷◌, ◌++◌, any, map, length, leb, ◌==◌,
  if◌then◌else◌,
}
use docsiq.Prelude.Text.{Bytes}
use docsiq.Community.{Runtime, Graph, Edge, iota, at, add_at, position, new_graph, louvain}

-- The keys of a set of labels.
abbrev pub dedup : List ℕ → List ℕ
dedup [] = []
dedup (c ∷ cs) = let rest = dedup cs in if any (◌==◌ c) cs then rest else c ∷ rest

-- `superNodeIdx[c]`, which is 0 for a label that is not there.
abbrev pub index_in : List ℕ → ℕ → ℕ
index_in order c = elim (position order c) [ none ↦ 0 | some i ↦ i ]

-- `superNodes`: every super-node has the empty name.
abbrev pub names : List ℕ → List Bytes
names order = map (λ c. []) order

-- `maxLevels` and `maxIter` are natural numbers here; the loops of a negative one do nothing.
module _ (rt : Runtime) where
  open rt use {F, nil, gt, range_set}

  -- `superAdj`, from the edges that are left.
  unfoldable pub super_adj : List ℕ → List ℕ → (ℕ → ℕ → F) → List (Edge rt) → ℕ → ℕ → F
  super_adj order current adj [] = adj
  super_adj order current adj (e ∷ es) =
      let ci = at current e.source in
      let cj = at current e.target in
      let si = index_in order ci in
      let sj = index_in order cj in
      if ci == cj
      then super_adj order current adj es
      else super_adj order current (add_at rt (add_at rt adj si sj e.weight) sj si e.weight) es

  -- The edges of a row of the super-graph.
  abbrev pub super_row : (ℕ → ℕ → F) → ℕ → List ℕ → List (Bytes × Bytes × F)
  super_row adj i [] = []
  super_row adj i (j ∷ js) =
      let rest = super_row adj i js in if gt (adj i j) nil then ([], [], adj i j) ∷ rest else rest

  abbrev pub super_edges : (ℕ → ℕ → F) → ℕ → List ℕ → List (Bytes × Bytes × F)
  super_edges adj k [] = []
  super_edges adj k (i ∷ is) = super_row adj i (iota (i + 1) (k - (i + 1))) ++ super_edges adj k is

  -- The body of the loop; `none` is a `break`.
  unfoldable pub next_level : Graph rt → ℕ → List ℕ → Option (List ℕ)
  next_level g max_iter current =
      let comm_set = dedup current in
      let order = range_set comm_set in
      let k = length order in
      let adj = super_adj order current (λ i j. nil) g.edges in
      let super_graph = new_graph rt (names order) (super_edges adj k (iota 0 k)) in
      let super_comm = louvain rt super_graph max_iter in
      let next = map (λ c. at super_comm (index_in order c)) current in
      if leb (length comm_set) 1
      then none
      else if leb (length comm_set) (length (dedup next))
      then none
      else some next

  -- The levels above one, so many at most.
  unfoldable pub levels_from : Graph rt → ℕ → ℕ → List ℕ → List (List ℕ)
  levels_from g max_iter zero current = []
  levels_from g max_iter (suc n) current = elim (next_level g max_iter current) [
    | none ↦ []
    | some next ↦ next ∷ levels_from g max_iter n next
  ]

  unfoldable pub hierarchical_louvain : Graph rt → ℕ → ℕ → List (List ℕ)
  hierarchical_louvain g max_levels max_iter =
      let current = louvain rt g max_iter in
      current ∷ levels_from g max_iter (max_levels - 1) current
