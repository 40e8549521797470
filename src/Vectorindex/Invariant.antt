-- ===== src/Vectorindex/Invariant.antt =====
-- internal/vectorindex/hnsw.go: what holds of an index between its operations.
use docsiq.Prelude.{
  ℕ, zero, suc, ◌≢◌, ◌≤◌, ◌<◌, ◌≡◌, refl, ap, sym, ◌∙◌, Bool, true, Option, none, some, List, [],
  ◌∷◌, length, ltb, leb, arith, Bool-cases, List-cases, inl, inr,
}
use docsiq.Prelude.Heap.Count.{count}
use docsiq.Prelude.Text.{Bytes}
use docsiq.Prelude.Int.{ℤ, pos, negsuc, or_default, or_default_pos}
use docsiq.Vectorindex.{Floats, HnswNode, Hnsw, max_conn, vec_of, new_hnsw}
use docsiq.Vectorindex.Index.{has_layer, level_of, delete_node, promote}
use docsiq.Vectorindex.Links.{IsLinked}

-- `range` over a map: each of its entries once, in some order.
abbrev pub IsRange : (List (Bytes × ℕ) → List (Bytes × ℕ)) → Type 0
IsRange range_nodes =
    (p : Bytes × ℕ → Bool) (m : List (Bytes × ℕ)) → count p (range_nodes m) ≡ count p m

pub count-delete_node :
    (p : Bytes × ℕ → Bool) (m : List (Bytes × ℕ)) (id : Bytes)
    → count p (delete_node m id) ≤ count p m
unfolding delete_node
count-delete_node p [] id = omega arith
count-delete_node p ((k, a) ∷ m) id = ground (arith, count-delete_node p m id)

module _ (fl : Floats) where
  open fl use {F}

  -- An entry of the map with an address that is not a node's, and one with more layers than a node.
  abbrev pub outside : List (HnswNode fl) → Bytes × ℕ → Bool
  outside cells e = leb (length cells) e.1

  abbrev pub above : List (HnswNode fl) → ℕ → Bytes × ℕ → Bool
  above cells a e = ltb (level_of fl cells a) (level_of fl cells e.1)

  -- The entry point: there is one where there are nodes, and none of them has more layers.
  pub record IsEntry (cells : List (HnswNode fl)) (nodes : List (Bytes × ℕ)) (entry : Option ℕ)
      : Type 0 where
    pub empty : entry ≡ none → nodes ≡ []
    pub entered : (e : ℕ) → entry ≡ some e → e < length cells
    pub highest : (e : ℕ) → entry ≡ some e → count (above cells e) nodes ≡ 0

  pub record IsIndex (h : Hnsw fl) : Type 0 where
    pub linked : IsLinked fl (max_conn fl h) h.cells
    pub tall :
        (a l : ℕ) → a < length h.cells → l ≤ level_of fl h.cells a → has_layer fl h.cells l a ≡ true
    pub held : count (outside h.cells) h.nodes ≡ 0
    pub start : IsEntry h.cells h.nodes h.entry
    pub spread : h.m ≢ 1
    pub sized :
        (a : ℕ) → a < length h.cells → (0 < h.dims) × (length (vec_of fl h.cells a) ≡ h.dims)
    pub connects : 1 ≤ h.ef_constr
    pub searches : 1 ≤ h.ef_search

  -- The node that is chosen is in range and has the most layers.
  promote-some :
      (cells : List (HnswNode fl)) (m : List (Bytes × ℕ)) (e : ℕ)
      → e < length cells
      → count (outside cells) m ≡ 0
      → (x : ℕ) × (promote fl cells m (some e) ≡ some x)
        × (x < length cells)
        × (level_of fl cells e ≤ level_of fl cells x)
        × (count (above cells x) m ≡ 0)
  unfolding promote
  promote-some cells [] e lt h = (e, refl, lt, omega arith, refl)
  promote-some cells ((id, a) ∷ m) e lt h =
      elim (Bool-cases (ltb (level_of fl cells e) (level_of fl cells a))) [
        | inl b ↦
            let (x, f, g, u, v) = promote-some cells m a (ground arith) (omega arith) in
            (x, rw (b, promote) f, g, ground arith, ground (arith, v))
        | inr b ↦
            let (x, f, g, u, v) = promote-some cells m e lt (omega arith) in
            (x, rw (b, promote) f, g, u, ground (arith, v))
      ]

  -- A count that passes everything is 0 for the empty list alone.
  count-nil : (m : List (Bytes × ℕ)) → count (λ e. true) m ≡ 0 → m ≡ []
  count-nil [] h = refl
  count-nil (e ∷ m) h = absurd (omega arith)

  pub promote-IsEntry :
      (range_nodes : List (Bytes × ℕ) → List (Bytes × ℕ)) (range : IsRange range_nodes)
      (cells : List (HnswNode fl)) (nodes : List (Bytes × ℕ))
      → count (outside cells) nodes ≡ 0
      → IsEntry cells nodes (promote fl cells (range_nodes nodes) none)
  unfolding promote
  promote-IsEntry range_nodes range cells nodes h = elim (List-cases (range_nodes nodes)) [
    | inl e ↦
        let f : promote fl cells (range_nodes nodes) none ≡ none = rw (e, promote) refl in
        record {
          empty = λ _. count-nil nodes (sym (range (λ e. true) nodes) ∙ rw e refl);
          entered = λ x g. absurd (cc);
          highest = λ x g. absurd (cc);
        }
    | inr ((id, a), m, e) ↦
        let out : count (outside cells) ((id, a) ∷ m) ≡ 0 =
          ap (count (outside cells)) (sym e) ∙ range (outside cells) nodes ∙ h in
        let (x, f, lt, up, high) =
          promote-some cells m a (ground (arith, out)) (omega (arith, out)) in
        let g : promote fl cells (range_nodes nodes) none ≡ some x = rw (e, promote) f in
        let top : count (above cells x) nodes ≡ 0 =
          sym (range (above cells x) nodes) ∙ rw e (ground (arith, high)) in
        record {
          empty = λ n. absurd (cc);
          entered = λ y n. let same : y ≡ x = cc in rw same lt;
          highest = λ y n. let same : y ≡ x = cc in rw same top;
        }
  ]

  or_default-ne-one : (m : ℤ) → m ≢ pos 1 → or_default m 16 ≢ 1
  or_default-ne-one (pos zero) n e = absurd (omega arith)
  or_default-ne-one (pos (suc k)) n e = n (ap pos e)
  or_default-ne-one (negsuc k) n e = absurd (omega arith)

  pub new_hnsw-IsIndex :
      (m ef_constr ef_search : ℤ) → m ≢ pos 1 → IsIndex (new_hnsw fl m ef_constr ef_search)
  unfolding new_hnsw
  new_hnsw-IsIndex m ef_constr ef_search n = record {
    linked = record { few = λ a l. omega arith; layered = λ a l. refl };
    tall = λ a l lt. absurd (omega arith);
    held = refl;
    start = record { empty = λ _. refl; entered = λ e f. absurd (cc); highest = λ e f. refl };
    spread = or_default-ne-one m n;
    sized = λ a lt. absurd (omega arith);
    connects = or_default_pos ef_constr 200 (omega arith);
    searches = or_default_pos ef_search 50 (omega arith);
  }
