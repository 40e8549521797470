-- ===== src/Community.antt =====
-- internal/community/louvain.go: the graph and one run of the Louvain algorithm. Numbers of type
-- float64 and the choices of the runtime are parameters; a matrix and a map with default zero are
-- functions of their keys.
use docsiq.Prelude.{
  ℕ, zero, suc, ◌+◌, ◌≡◌, refl, Bool, true, false, ◌&&◌, ◌||◌, not, Option, none, some, List, [],
  ◌∷◌, ◌++◌, length, get_elem?, set, ◌==◌, if◌then◌else◌,
}
use docsiq.Prelude.Text.{Bytes, bytes_eq}
pub mod Labels
pub mod Levels
pub mod Loops
pub mod Single
mod Tests

-- float64 with its arithmetic, and what the runtime chooses: the permutation of a pass and the
-- order in which `range` visits a map.
pub record Runtime : Type 1 where
  pub F : Type 0
  pub nil : F
  pub one : F
  pub two : F
  pub add : F → F → F
  pub sub : F → F → F
  pub mul : F → F → F
  pub div : F → F → F
  pub gt : F → F → Bool
  pub is_zero : F → Bool
  pub perm : ℕ → ℕ → List ℕ
  pub range_comms : List (ℕ × F) → List (ℕ × F)
  pub range_set : List ℕ → List ℕ

-- 0, 1, ..., from a start, so many.
abbrev pub iota : ℕ → ℕ → List ℕ
iota start zero = []
iota start (suc n) = start ∷ iota (start + 1) n

-- The entry of a slice; the indices of the program are within it.
abbrev pub at : List ℕ → ℕ → ℕ
at xs i = elim (get_elem? xs i) [ none ↦ 0 | some x ↦ x ]

-- `nodeIndex[name]`: the last index of the name, the indices starting at `i`.
unfoldable pub node_index : ℕ → List Bytes → Bytes → Option ℕ
node_index i [] name = none
node_index i (n ∷ nodes) name = elim (node_index (i + 1) nodes name) [
  | some j ↦ some j
  | none ↦ if bytes_eq n name then some i else none
]

module _ (rt : Runtime) where
  open rt use {F, nil, one, add, sub, mul, div, gt, is_zero, perm, range_comms}

  pub record Edge : Type 0 where
    pub source : ℕ
    pub target : ℕ
    pub weight : F

  pub record Graph : Type 0 where
    pub nodes : List Bytes
    pub edges : List Edge
    pub adj : ℕ → ℕ → F
    pub total : F

  -- `g.adjMatrix[i][j] += w`
  abbrev pub add_at : (ℕ → ℕ → F) → ℕ → ℕ → F → ℕ → ℕ → F
  add_at adj i j w k l = if k == i && l == j then add (adj k l) w else adj k l

  -- One round of the loop over the edges.
  unfoldable pub add_edge : Graph → Bytes × Bytes × F → Graph
  add_edge g (src, tgt, w0) =
      let w = if is_zero w0 then one else w0 in
      elim (node_index 0 g.nodes src) [
        | none ↦ g
        | some si ↦ elim (node_index 0 g.nodes tgt) [
          | none ↦ g
          | some ti ↦ record g {
            edges = g.edges ++ record { source = si; target = ti; weight = w } ∷ [];
            adj = add_at (add_at g.adj si ti w) ti si w;
            total = add g.total w;
          }
        ]
      ]

  unfoldable pub add_edges : Graph → List (Bytes × Bytes × F) → Graph
  add_edges g [] = g
  add_edges g (e ∷ es) = add_edges (add_edge g e) es

  unfoldable pub new_graph : List Bytes → List (Bytes × Bytes × F) → Graph
  new_graph nodes edges =
      add_edges (record { nodes = nodes; edges = []; adj = λ i j. nil; total = nil }) edges

  -- `nodeDegree`, over the columns that are left.
  unfoldable pub degree_from : (ℕ → F) → F → List ℕ → F
  degree_from row d [] = d
  degree_from row d (j ∷ js) = degree_from row (add d (row j)) js

  unfoldable pub node_degree : Graph → ℕ → F
  node_degree g i = degree_from (g.adj i) nil (iota 0 (length g.nodes))

  -- A map from communities to weights, in the order of insertion.
  abbrev pub weight_of : List (ℕ × F) → ℕ → F
  weight_of [] c = nil
  weight_of ((d, w) ∷ m) c = let rest = weight_of m c in if d == c then w else rest

  abbrev pub add_weight : List (ℕ × F) → ℕ → F → List (ℕ × F)
  add_weight [] c w = (c, add nil w) ∷ []
  add_weight ((d, v) ∷ m) c w =
      let rest = add_weight m c w in if d == c then (d, add v w) ∷ m else (d, v) ∷ rest

  -- `neighborComms` of a row of the matrix.
  unfoldable pub neighbor_comms : List ℕ → (ℕ → F) → List (ℕ × F) → List ℕ → List (ℕ × F)
  neighbor_comms comm row m [] = m
  neighbor_comms comm row m (j ∷ js) =
      neighbor_comms comm row (if gt (row j) nil then add_weight m (at comm j) (row j) else m) js

  -- A pass: the communities, their total degrees and whether a node has moved.
  pub record Pass : Type 0 where
    pub comm : List ℕ
    pub sigma_tot : ℕ → F
    pub improved : Bool

  abbrev pub update : (ℕ → F) → ℕ → F → ℕ → F
  update f c w d = if d == c then w else f d

  -- `kiIn/m2 - (sigmaTot[c]*ki)/(m2*m2)`
  abbrev pub gain_of : F → F → (ℕ → F) → ℕ → F → F
  gain_of m2 ki sigma c ki_in = sub (div ki_in m2) (div (mul (sigma c) ki) (mul m2 m2))

  -- The loop over the neighbouring communities: the best of them so far and its gain.
  unfoldable pub best_comm : F → F → (ℕ → F) → F → ℕ → F → List (ℕ × F) → ℕ
  best_comm m2 ki sigma loss best gain [] = best
  best_comm m2 ki sigma loss best gain ((c, ki_in) ∷ m) =
      let g = sub (gain_of m2 ki sigma c ki_in) loss in
      if gt g gain then best_comm m2 ki sigma loss c g m else best_comm m2 ki sigma loss best gain m

  -- The body of the loop over the nodes.
  unfoldable pub visit : Graph → F → Pass → ℕ → Pass
  visit g m2 p i =
      let ki = node_degree g i in
      let old = at p.comm i in
      let near = neighbor_comms p.comm (g.adj i) [] (iota 0 (length g.nodes)) in
      let sigma = update p.sigma_tot old (sub (p.sigma_tot old) ki) in
      let loss = gain_of m2 ki sigma old (weight_of near old) in
      let best = best_comm m2 ki sigma loss old nil (range_comms near) in
      record {
        comm = set p.comm i best;
        sigma_tot = update sigma best (add (sigma best) ki);
        improved = p.improved || not (best == old);
      }

  unfoldable pub sweep : Graph → F → Pass → List ℕ → Pass
  sweep g m2 p [] = p
  sweep g m2 p (i ∷ order) = sweep g m2 (visit g m2 p i) order

  -- The passes that are left, as long as one moves a node.
  unfoldable pub passes : Graph → F → ℕ → Pass → Pass
  passes g m2 zero p = p
  passes g m2 (suc n) p =
      let next =
        passes g m2 n (sweep g m2 (record p { improved = false }) (perm n (length g.nodes))) in
      if p.improved then next else p

  unfoldable pub initial_sigma : Graph → (ℕ → F) → List ℕ → ℕ → F
  initial_sigma g sigma [] = sigma
  initial_sigma g sigma (i ∷ is) =
      initial_sigma g (update sigma i (add (sigma i) (node_degree g i))) is

-- The position of a label in the list of those seen, if it is there.
abbrev pub position : List ℕ → ℕ → Option ℕ
position [] c = none
position (d ∷ seen) c =
    if d == c then some 0 else elim (position seen c) [ none ↦ none | some i ↦ some (suc i) ]

-- The final renumbering; those seen stand in the order of their new numbers.
unfoldable pub renumber : List ℕ → List ℕ → List ℕ
renumber seen [] = []
renumber seen (c ∷ comm) = elim (position seen c) [
  | some i ↦ i ∷ renumber seen comm
  | none ↦ length seen ∷ renumber (seen ++ c ∷ []) comm
]

module _ (rt : Runtime) where
  open rt use {F, nil, two, add, mul, is_zero}

  unfoldable pub louvain : Graph rt → ℕ → List ℕ
  louvain g max_iter =
      let n = length g.nodes in
      if n == 0
      then []
      else if is_zero g.total
      then iota 0 n
      else renumber []
          (passes rt g (mul two g.total) max_iter (record {
            comm = iota 0 n;
            sigma_tot = initial_sigma rt g (λ c. nil) (iota 0 n);
            improved = true;
          })).comm
