-- ===== src/Vectorindex.antt =====
-- internal/vectorindex/hnsw.go: the distance, the nodes, and the searches of one layer. A node is a
-- cell at an address, since nodes point at each other and are changed in place; every address that
-- the program holds is one of a cell. The arithmetic of float32 and float64 is a parameter.
use docsiq.Prelude.{
  ℕ, zero, suc, ◌+◌, ◌-◌, ◌*◌, ◌≡◌, Bool, true, false, not, ◌&&◌, ◌||◌, Option, none, some, List,
  [], ◌∷◌, ◌++◌, length, get_elem?, any, ltb, leb, if◌then◌else◌,
}
use docsiq.Prelude.Int.{ℤ, or_default}
use docsiq.Prelude.Heap.{init, push, pop}
use docsiq.Prelude.Text.{Bytes, bytes_eq}
pub mod Append
pub mod Calls
pub mod Closest
pub mod Connect
pub mod Greedy
pub mod Index
pub mod Insertion
pub mod Invariant
pub mod Layered
pub mod Links
pub mod Modify
pub mod Placed
pub mod Query
pub mod Relink
pub mod Removal
pub mod SearchLayer
pub mod Visit
mod Tests

-- float32 (`F`) and float64 (`G`). The second fields of a comparison are those of `<`.
pub record Floats : Type 1 where
  pub F : Type 0
  pub G : Type 0
  pub widen : F → G
  pub narrow : G → F
  pub nil : G
  pub one : G
  pub add : G → G → G
  pub sub : G → G → G
  pub mul : G → G → G
  pub div : G → G → G
  pub sqrt : G → G
  pub is_nil : G → Bool
  pub lt : F → F → Bool
  pub from_one : F → F

module _ (fl : Floats) where
  open fl use {F, G, widen, narrow, nil, one, add, sub, mul, div, sqrt, is_nil, lt}

  pub record HnswNode : Type 0 where
    pub id : Bytes
    pub vec : List F
    pub level : ℕ
    pub neighbors : List (List ℕ)

  pub record Hnsw : Type 0 where
    pub m : ℕ
    pub m0 : ℕ
    pub ef_search : ℕ
    pub ef_constr : ℕ
    pub dims : ℕ
    pub cells : List HnswNode
    pub nodes : List (Bytes × ℕ)
    pub entry : Option ℕ

  unfoldable pub new_hnsw : ℤ → ℤ → ℤ → Hnsw
  new_hnsw m ef_constr ef_search = record {
    m = or_default m 16;
    m0 = or_default m 16 * 2;
    ef_search = or_default ef_search 50;
    ef_constr = or_default ef_constr 200;
    dims = 0;
    cells = [];
    nodes = [];
    entry = none;
  }

  -- The end of `cosineDistance`, and its loop; `none` is an index out of the second vector's range,
  -- which panics.
  abbrev pub cosine_end : G → G → G → F
  cosine_end dot na nb =
      if is_nil na || is_nil nb
      then narrow one
      else narrow (sub one (div dot (mul (sqrt na) (sqrt nb))))

  unfoldable pub cosine_from : G → G → G → List F → List F → Option F
  cosine_from dot na nb [] b = some (cosine_end dot na nb)
  cosine_from dot na nb (x ∷ a) [] = none
  cosine_from dot na nb (x ∷ a) (y ∷ b) =
      let da = widen x in
      let db = widen y in
      cosine_from (add dot (mul da db)) (add na (mul da da)) (add nb (mul db db)) a b

  -- The distance, where it does not panic; the vectors of an index and a query that it searches for
  -- have one length. Elsewhere the number stands for nothing.
  unfoldable pub cosine_distance : List F → List F → F
  cosine_distance a b = elim (cosine_from nil nil nil a b) [ none ↦ narrow one | some d ↦ d ]

  abbrev pub max_conn : Hnsw → ℕ → ℕ
  max_conn h zero = h.m0
  max_conn h (suc layer) = h.m

  -- The links of a node at a layer; it has none above its own layers.
  abbrev pub layer_of : HnswNode → ℕ → List ℕ
  layer_of n layer = elim (get_elem? n.neighbors layer) [ none ↦ [] | some links ↦ links ]

  abbrev pub links : List HnswNode → ℕ → ℕ → List ℕ
  links cells a layer = elim (get_elem? cells a) [ none ↦ [] | some n ↦ layer_of n layer ]

  -- The current node of a greedy step, its distance, and whether it has improved.
  pub record Step : Type 0 where
    pub current : ℕ
    pub dist : F
    pub improved : Bool

  -- The loop over the links of a node.
  unfoldable pub scan : List HnswNode → List F → List ℕ → Step → Step
  scan cells query [] s = s
  scan cells query (nb ∷ nbs) s = scan cells query nbs (elim (get_elem? cells nb) [
    | none ↦ s
    | some n ↦
        let d = cosine_distance n.vec query in
        if lt d s.dist then record { current = nb; dist = d; improved = true } else s
  ])

  -- `greedyStep`, for so many rounds; `none` is that they were not enough.
  unfoldable pub greedy_from : ℕ → List HnswNode → List F → ℕ → ℕ → F → Option ℕ
  greedy_from zero cells query layer current dist = none
  greedy_from (suc k) cells query layer current dist =
      let s =
        scan cells query (links cells current layer)
          (record { current = current; dist = dist; improved = false }) in
      let rest = greedy_from k cells query layer s.current s.dist in
      if s.improved then rest else some s.current

  abbrev pub vec_of : List HnswNode → ℕ → List F
  vec_of cells a = elim (get_elem? cells a) [ none ↦ [] | some n ↦ n.vec ]

  abbrev pub id_of : List HnswNode → ℕ → Bytes
  id_of cells a = elim (get_elem? cells a) [ none ↦ [] | some n ↦ n.id ]

  unfoldable pub greedy_step : List HnswNode → ℕ → List F → ℕ → Option ℕ
  greedy_step cells ep query layer =
      greedy_from (suc (length cells)) cells query layer ep
        (cosine_distance (vec_of cells ep) query)

  -- A node and its distance.
  abbrev pub Scored : Type 0
  Scored = ℕ × F

  -- `Less` of the heap with the closest on top, and of the one with the furthest.
  abbrev pub min_less : Scored → Scored → Bool
  min_less a b = lt a.1 b.1

  abbrev pub max_less : Scored → Scored → Bool
  max_less a b = lt b.1 a.1

  -- The state of `searchLayer`.
  pub record Layer : Type 0 where
    pub visited : List Bytes
    pub cand : List Scored
    pub results : List Scored

  -- A distance is less than that of the worst result; and the other way round.
  abbrev pub better : F → List Scored → Bool
  better d [] = false
  better d (w ∷ ws) = lt d w.1

  abbrev pub worse : F → List Scored → Bool
  worse d [] = false
  worse d (w ∷ ws) = lt w.1 d

  -- `heap.Pop` of the results where they are too many.
  abbrev pub trim : ℕ → List Scored → List Scored
  trim ef results =
      if ltb ef (length results)
      then elim (pop max_less results) [ none ↦ results | some (w, rest) ↦ rest ]
      else results

  -- A link of the node that is expanded.
  unfoldable pub visit : List HnswNode → List F → ℕ → ℕ → Layer → Layer
  visit cells query ef nb s = elim (get_elem? cells nb) [
    | none ↦ s
    | some n ↦
        let d = cosine_distance n.vec query in
        if any (bytes_eq n.id) s.visited
        then s
        else if ltb (length s.results) ef || better d s.results
        then record {
          visited = n.id ∷ s.visited;
          cand = push min_less s.cand (nb, d);
          results = trim ef (push max_less s.results (nb, d));
        }
        else record s { visited = n.id ∷ s.visited }
  ]

  unfoldable pub visit_all : List HnswNode → List F → ℕ → List ℕ → Layer → Layer
  visit_all cells query ef [] s = s
  visit_all cells query ef (nb ∷ nbs) s = visit_all cells query ef nbs (visit cells query ef nb s)

  -- The loop of `searchLayer`, for so many rounds; `none` is that they were not enough.
  unfoldable pub expand : ℕ → List HnswNode → List F → ℕ → ℕ → Layer → Option (List Scored)
  expand zero cells query ef layer s = elim (pop min_less s.cand) [
    | none ↦ some s.results
    | some (c, cand) ↦ none
  ]
  expand (suc k) cells query ef layer s = elim (pop min_less s.cand) [
    | none ↦ some s.results
    | some (c, cand) ↦
        let rest =
          expand k cells query ef layer
            (visit_all cells query ef (links cells c.0 layer) (record s { cand = cand })) in
        if leb ef (length s.results) && worse c.1 s.results then some s.results else rest
  ]

  -- The results in ascending distance: the last that is popped is the first.
  unfoldable pub drain : ℕ → List Scored → List Scored → List Scored
  drain zero results out = out
  drain (suc k) results out = elim (pop max_less results) [
    | none ↦ out
    | some (w, rest) ↦ drain k rest (w ∷ out)
  ]

  abbrev pub drained : List Scored → List Scored
  drained results = drain (length results) results []

  unfoldable pub search_layer : List HnswNode → ℕ → List F → ℕ → ℕ → Option (List Scored)
  search_layer cells ep query ef layer =
      let first = (ep, cosine_distance (vec_of cells ep) query) ∷ [] in
      let found = expand (suc (length cells)) cells query ef layer (record {
        visited = id_of cells ep ∷ [];
        cand = init min_less first;
        results = init max_less first;
      }) in
      elim found [ none ↦ none | some results ↦ some (drained results) ]
