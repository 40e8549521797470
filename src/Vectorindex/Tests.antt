-- ===== src/Vectorindex/Tests.antt =====
-- Vectors of one number on a line, with two links a layer and four on the lowest.
use docsiq.Prelude.{
  ℕ, ap, ◌≢◌, ◌+◌, ◌-◌, ◌≡◌, refl, false, none, some, List, [], ◌∷◌, ltb, leb, if◌then◌else◌, arith,
}
use docsiq.Prelude.Int.{ℤ, pos, negsuc}
use docsiq.Prelude.Text.{Bytes, codes}
use docsiq.Prelude.Heap.Count.{count}
use docsiq.Vectorindex.{
  Floats, Hnsw, new_hnsw, greedy_step, links, search_layer, expand, visit_all, cosine_distance,
  cosine_from, drain, greedy_from, scan, visit,
}
use docsiq.Vectorindex.Calls.{after_calls-IsIndex}
use docsiq.Vectorindex.Closest.{leads_closer, distance_of, greedy_step-closest}
use docsiq.Vectorindex.Greedy.{IsOrder}
use docsiq.Vectorindex.Index.{
  add_index, added, remove_index, search_index, hits, Searched, add_chunks, Added, IndexCall,
  add_drawn, random_level, add_failed, call_add, call_remove, after_calls, add_node, lookup_node,
  delete_node, insert_node, descend, connect, link_node, link_all, link_back, modify, modify_layer,
  pop_down, promote, pruned, remove_node, remove_ref, unlink, unlink_layers, search_from,
}
use docsiq.Prelude.Heap.{pop, down, init_below, up}
use docsiq.Vectorindex.Invariant.{IsIndex, new_hnsw-IsIndex}
use docsiq.Vectorindex.Query.{IsAnswer, search_index-IsAnswer}

-- A distance of two numbers: numbers stand for both kinds of floats, `mul` for their distance.
abbrev line : Floats
line = record {
  F = ℕ;
  G = ℕ;
  widen = λ x. x;
  narrow = λ x. x;
  nil = 0;
  one = 1;
  add = λ a b. a + b;
  sub = λ a b. b;
  mul = λ a b. if leb a b then b - a else a - b;
  div = λ a b. a;
  sqrt = λ a. a;
  is_nil = λ a. false;
  lt = ltb;
  from_one = λ a. a;
}

abbrev six : List (Bytes × List ℕ × ℕ)
six =
    (codes "p", 0 ∷ [], 0)
    ∷ (codes "r", 10 ∷ [], 0)
    ∷ (codes "s", 11 ∷ [], 0)
    ∷ (codes "t", 12 ∷ [], 0)
    ∷ (codes "u", 13 ∷ [], 0)
    ∷ (codes "v", 14 ∷ [], 0)
    ∷ []

abbrev search_after : Added line → Bytes → Searched line
search_after (added h) id = search_index line (remove_index line (λ m. m) h id) (10 ∷ []) (pos 2)
search_after _ id = hits []

-- `<` of numbers is an order.
line-IsOrder : IsOrder line
line-IsOrder = record { irrefl = λ a. ground arith; trans = λ a b c x y. ground arith }

-- A node that was removed is still found: a link to it is left, where its own links do not lead
-- back.
stale :
    search_after (add_chunks line (λ m. m) (new_hnsw line (pos 2) (pos 0) (pos 0)) six) (codes "r")
    ≡ hits ((codes "r", 0) ∷ (codes "s", 1) ∷ [])
unfolding add_chunks add_index new_hnsw add_node add_drawn random_level remove_index lookup_node
    delete_node insert_node descend connect search_layer expand pop down init_below visit_all
    link_node up link_all link_back modify modify_layer pop_down promote pruned remove_node
    remove_ref unlink unlink_layers cosine_distance cosine_from drain greedy_from greedy_step scan
    visit search_index search_from
stale = refl

-- With `m` 1 the first `Add` panics.
one_link :
    add_index line (λ m. m) (new_hnsw line (pos 1) (pos 0) (pos 0)) (codes "p") (0 ∷ []) 0
    ≡ add_failed
unfolding add_index new_hnsw add_node random_level
one_link = refl

abbrev count_of : ℤ → ℕ
count_of (pos n) = n
count_of (negsuc n) = 0

two : pos 2 ≢ pos 1
two e = absurd (omega (arith, ap count_of e))

abbrev empty_line : Hnsw line
empty_line = new_hnsw line (pos 2) (pos 0) (pos 0)

abbrev some_calls : List (IndexCall line)
some_calls =
    call_add (codes "p") (0 ∷ []) 0
    ∷ call_add (codes "q") (10 ∷ []) 1
    ∷ call_add (codes "r") (11 ∷ []) 0
    ∷ call_add (codes "s") [] 0
    ∷ call_add (codes "s") (12 ∷ []) 0
    ∷ call_remove (codes "r")
    ∷ call_add (codes "p") (3 ∷ []) 2
    ∷ []

abbrev filled : Hnsw line
filled = elim (after_calls line (λ m. m) some_calls empty_line) [ none ↦ empty_line | some h ↦ h ]

filled-IsIndex : IsIndex line filled
filled-IsIndex =
    let (new, e, i) =
      after_calls-IsIndex line line-IsOrder (λ m. m) (λ p m. refl) some_calls empty_line
        (new_hnsw-IsIndex line (pos 2) (pos 0) (pos 0) two) in
    rw (e, filled) i

search_index-IsAnswer_example :
    IsAnswer line filled (11 ∷ []) (pos 2) (search_index line filled (11 ∷ []) (pos 2))
search_index-IsAnswer_example =
    search_index-IsAnswer line line-IsOrder filled (11 ∷ []) (pos 2) filled-IsIndex

greedy_step-closest_example :
    (a : ℕ) × (greedy_step line filled.cells 1 (3 ∷ []) 0 ≡ some a)
    × (count
          (leads_closer line filled.cells (3 ∷ []) (distance_of line filled.cells (3 ∷ []) a))
          (links line filled.cells a 0)
        ≡ 0)
greedy_step-closest_example = greedy_step-closest line filled.cells (3 ∷ []) line-IsOrder 1 0
