-- ===== src/Community/Tests.antt =====
-- A runtime over natural numbers, and a graph of two linked nodes.
use docsiq.Prelude.{ℕ, ◌+◌, ◌-◌, ◌*◌, ◌/◌, ◌≡◌, refl, true, [], ◌∷◌, length, ltb, ◌==◌, arith}
use docsiq.Prelude.Text.{codes}
use docsiq.Community.{Runtime, Graph, iota, new_graph, louvain}
use docsiq.Community.Labels.{is_numbering, louvain-is_numbering}
use docsiq.Community.Levels.{hierarchical_louvain}
use docsiq.Community.Loops.{IsRuntime}
use docsiq.Community.Single.{hierarchical_louvain-single}

abbrev numbers : Runtime
numbers = record {
  F = ℕ;
  nil = 0;
  one = 1;
  two = 2;
  add = λ a b. a + b;
  sub = λ a b. a - b;
  mul = λ a b. a * b;
  div = λ a b. a / b;
  gt = λ a b. ltb b a;
  is_zero = λ a. a == 0;
  perm = λ pass n. iota 0 n;
  range_comms = λ m. m;
  range_set = λ s. s;
}

numbers-IsRuntime : IsRuntime numbers
numbers-IsRuntime = record {
  sub_self = λ x. ground arith;
  nil_not_gt = refl;
  range_none = refl;
  range_one = λ c w. refl;
}

abbrev linked : Graph numbers
linked = new_graph numbers (codes "a" ∷ codes "b" ∷ []) ((codes "a", codes "b", 4) ∷ [])

louvain-is_numbering_example :
    (length (louvain numbers linked 5) ≡ length linked.nodes)
    × (is_numbering 0 (louvain numbers linked 5) ≡ true)
louvain-is_numbering_example = louvain-is_numbering numbers linked 5

hierarchical_louvain-single_example :
    hierarchical_louvain numbers linked 4 5 ≡ louvain numbers linked 5 ∷ []
hierarchical_louvain-single_example =
    hierarchical_louvain-single numbers numbers-IsRuntime (λ xs c h. h) linked 4 5
