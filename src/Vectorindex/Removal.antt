-- ===== src/Vectorindex/Removal.antt =====
-- internal/vectorindex/hnsw.go: `removeNode` and `Remove` keep the index well formed.
use docsiq.Prelude.{
  ℕ, ap, length, ◌≡◌, refl, ◌∙◌, List, [], ◌∷◌, get_elem?, arith, Bool-cases, Option-cases, inl,
  inr,
}
use docsiq.Prelude.Heap.Count.{count}
use docsiq.Prelude.Text.{Bytes}
use docsiq.Vectorindex.{Floats, Hnsw, max_conn}
use docsiq.Vectorindex.Index.{
  delete_node, is_entry, unlink_layers, remove_node, remove_index, lookup_node, level_of,
}
use docsiq.Vectorindex.Invariant.{
  IsRange, count-delete_node, outside, above, IsEntry, IsIndex, promote-IsEntry,
}
use docsiq.Vectorindex.Links.{count_cong}
use docsiq.Vectorindex.Relink.{unlink_layers-Unlinked}

pub delete_node-nil : (m : List (Bytes × ℕ)) (id : Bytes) → m ≡ [] → delete_node m id ≡ []
unfolding delete_node
delete_node-nil [] id e = refl
delete_node-nil (x ∷ m) id e = absurd (cc)

module _ (fl : Floats) (range_nodes : List (Bytes × ℕ) → List (Bytes × ℕ))
    (range : IsRange range_nodes) where
  pub remove_node-IsIndex :
      (h : Hnsw fl) (a : ℕ) → IsIndex fl h → IsIndex fl (remove_node fl range_nodes h a)
  unfolding remove_node
  remove_node-IsIndex h a i = elim (Option-cases (get_elem? h.cells a)) [
    | inl e ↦ rw (e, remove_node) i
    | inr (n, e) ↦
        let cells = unlink_layers fl a 0 n.neighbors h.cells in
        let nodes = delete_node h.nodes n.id in
        let (linked, size, layers, frames) =
          unlink_layers-Unlinked fl (max_conn fl h) a 0 n.neighbors h.cells i.linked in
        let levels : (b : ℕ) → level_of fl cells b ≡ level_of fl h.cells b =
          λ b. ap (λ p. p.0) (frames b) in
        let held : count (outside fl cells) nodes ≡ 0 = omega (
          arith,
          count-delete_node (outside fl cells) h.nodes n.id,
          count_cong (outside fl cells) (outside fl h.cells) (λ x. rw size refl) h.nodes,
          i.held,
        ) in
        let same : IsEntry fl cells nodes h.entry = record {
          empty = λ f. delete_node-nil h.nodes n.id (i.start.empty f);
          entered = λ x f. rw size (i.start.entered x f);
          highest = λ x f. omega (
            arith,
            count-delete_node (above fl cells x) h.nodes n.id,
            count_cong (above fl cells x) (above fl h.cells x) (λ y. rw (levels x, levels y.1) refl)
                h.nodes,
            i.start.highest x f,
          );
        } in
        rw (e, remove_node)
          (record {
            linked = linked;
            tall = λ x l lt le.
                layers l x ∙ i.tall x l (omega (arith, size)) (omega (arith, levels x));
            held = held;
            start = elim (Bool-cases (is_entry fl h.entry a)) [
              | inl b ↦ rw b (promote-IsEntry fl range_nodes range cells nodes held)
              | inr b ↦ rw b same
            ];
            spread = i.spread;
            sized = λ x lt.
                let (d, e) = i.sized x (omega (arith, size)) in
                (d, ap (λ p. length p.1) (frames x) ∙ e);
            connects = i.connects;
            searches = i.searches;
          })
  ]

  pub remove_index-IsIndex :
      (h : Hnsw fl) (id : Bytes) → IsIndex fl h → IsIndex fl (remove_index fl range_nodes h id)
  unfolding remove_index
  remove_index-IsIndex h id i = elim (Option-cases (lookup_node h.nodes id)) [
    | inl e ↦ rw (e, remove_index) i
    | inr (a, e) ↦ rw (e, remove_index) (remove_node-IsIndex h a i)
  ]
