-- ===== src/Vectorindex/Calls.antt =====
-- internal/vectorindex/hnsw.go and builder.go: `Add` and `Remove` always return, and keep the index
-- well formed.
use docsiq.Prelude.{
  none, Option, ap, sym, false, get_elem?, ◌≢◌, ◌<◌, ◌∙◌, arith, ==_iff, ℕ, ◌≡◌, refl, ◌⊎◌, some,
  List, [], ◌∷◌, ◌++◌, length, ◌==◌, Bool-cases, Option-cases, inl, inr,
}
use docsiq.Prelude.Text.{Bytes}
use docsiq.Vectorindex.{Floats, Hnsw, new_hnsw}
use docsiq.Vectorindex.Greedy.{IsOrder}
use docsiq.Vectorindex.Index.{
  add_node, add_drawn, random_level, remove_node, lookup_node, add_index, add_chunks, new_node,
  delete_node, empty_vec, wrong_dims, remove_index, IndexCall, call_add, call_remove, after_call,
  after_calls, build_from_store, built, models_failed, embeddings_failed, index_failed,
}
use docsiq.Prelude.Int.{ℤ, pos, negsuc}
use docsiq.Vectorindex.Insertion.{IsAdded, insert_node-IsAdded}
use docsiq.Vectorindex.Invariant.{IsRange, IsIndex, new_hnsw-IsIndex}
use docsiq.Vectorindex.Removal.{remove_index-IsIndex}
use docsiq.Vectorindex.Placed.{appended-IsPlaced, appended-IsIndex}

module _ (fl : Floats) (order : IsOrder fl) (range_nodes : List (Bytes × ℕ) → List (Bytes × ℕ))
    (range : IsRange range_nodes) where
  open fl use {F}

  remove_index-dims : (h : Hnsw fl) (id : Bytes) → (remove_index fl range_nodes h id).dims ≡ h.dims
  unfolding remove_index remove_node
  remove_index-dims h id = elim (Option-cases (lookup_node h.nodes id)) [
    | inl e ↦ rw (e, remove_index) refl
    | inr (a, e) ↦ elim (Option-cases (get_elem? h.cells a)) [
      | inl f ↦ rw (e, f, remove_index, remove_node) refl
      | inr (n, f) ↦ rw (e, f, remove_index, remove_node) refl
    ]
  ]

  add_drawn-IsAdded :
      (h : Hnsw fl) (id : Bytes) (vec : List F) (level : ℕ)
      → IsIndex fl h
      → 0 < h.dims
      → length vec ≡ h.dims
      → IsAdded fl order (add_drawn fl range_nodes h id vec level)
  unfolding add_drawn
  add_drawn-IsAdded h id vec level i full fits =
      let same = remove_index-dims h id in
      let full' : 0 < (remove_index fl range_nodes h id).dims = rw same full in
      let fits' : length vec ≡ (remove_index fl range_nodes h id).dims = fits ∙ sym same in
      let old = remove_index fl range_nodes h id in
      let j = remove_index-IsIndex fl range_nodes range h id i in
      let h' : Hnsw fl = record old {
        cells = old.cells ++ new_node fl id vec level ∷ [];
        nodes = (id, length old.cells) ∷ delete_node old.nodes id;
      } in
      elim (Option-cases old.entry) [
        | inl e ↦ (
          record h' { entry = some (length old.cells) },
          rw (e, add_drawn) refl,
          appended-IsIndex fl old j id vec level order full' fits' e,
        )
        | inr (e, f) ↦
            let (new, g, k) =
              insert_node-IsAdded fl order h' (length old.cells) e level
                (appended-IsPlaced fl old j id vec level order full' fits' e f) vec range_nodes in
            (new, rw (f, add_drawn) g, k)
      ]

  add_node-IsAdded :
      (h : Hnsw fl) (id : Bytes) (vec : List F) (draw : ℕ)
      → IsIndex fl h
      → 0 < h.dims
      → length vec ≡ h.dims
      → IsAdded fl order (add_node fl range_nodes h id vec draw)
  unfolding add_node random_level
  add_node-IsAdded h id vec draw i full fits =
      let off : (h.m == 1) ≡ false = ground (arith, i.spread, ==_iff h.m 1) in
      rw (off, add_node, random_level) (add_drawn-IsAdded h id vec draw i full fits)

  -- A first vector sets the dimension; there are no nodes yet.
  dims-IsIndex :
      (h : Hnsw fl) (d : ℕ) → h.dims ≡ 0 → IsIndex fl h → IsIndex fl (record h { dims = d })
  dims-IsIndex h d z i = record {
    linked = i.linked;
    tall = i.tall;
    held = i.held;
    start = i.start;
    spread = i.spread;
    sized = λ a lt. absurd (omega (arith, (i.sized a lt).0, z));
    connects = i.connects;
    searches = i.searches;
  }

  add_index-IsAdded :
      (h : Hnsw fl) (id : Bytes) (vec : List F) (level : ℕ)
      → IsIndex fl h
      → IsAdded fl order (add_index fl range_nodes h id vec level)
        ⊎ ((add_index fl range_nodes h id vec level ≡ empty_vec)
            ⊎ (add_index fl range_nodes h id vec level ≡ wrong_dims))
  unfolding add_index
  add_index-IsAdded h id vec level i = elim (Bool-cases (length vec == 0)) [
    | inl a ↦ inr (inl (rw (a, add_index) refl))
    | inr a ↦ elim (Bool-cases (h.dims == 0)) [
      | inl b ↦
          rw (a, b, add_index)
            (inl (
              add_node-IsAdded (record h { dims = length vec }) id vec level
                (dims-IsIndex h (length vec) ((==_iff h.dims 0).0 b) i) (ground arith) refl))
      | inr b ↦ elim (Bool-cases (length vec == h.dims)) [
        | inl c ↦
            rw (a, b, c, add_index)
              (inl (
                add_node-IsAdded h id vec level i (ground arith)
                  ((==_iff (length vec) h.dims).0 c)))
        | inr c ↦ inr (inr (rw (a, b, c, add_index) refl))
      ]
    ]
  ]

  after_call-IsIndex :
      (h : Hnsw fl) (c : IndexCall fl)
      → IsIndex fl h
      → (new : Hnsw fl) × (after_call fl range_nodes h c ≡ some new) × IsIndex fl new
  unfolding after_call
  after_call-IsIndex h (call_remove id) i =
      (remove_index fl range_nodes h id, refl, remove_index-IsIndex fl range_nodes range h id i)
  after_call-IsIndex h (call_add id vec level) i = elim (add_index-IsAdded h id vec level i) [
    | inl (new, e, j) ↦ (new, rw (e, after_call) refl, j)
    | inr (inl e) ↦ (h, rw (e, after_call) refl, i)
    | inr (inr e) ↦ (h, rw (e, after_call) refl, i)
  ]

  add_chunks-IsAdded :
      (h : Hnsw fl) (cs : List (Bytes × List F × ℕ))
      → IsIndex fl h
      → IsAdded fl order (add_chunks fl range_nodes h cs)
        ⊎ ((add_chunks fl range_nodes h cs ≡ empty_vec)
            ⊎ (add_chunks fl range_nodes h cs ≡ wrong_dims))
  unfolding add_chunks
  add_chunks-IsAdded h [] i = inl (h, refl, i)
  add_chunks-IsAdded h ((id, [], level) ∷ cs) i = add_chunks-IsAdded h cs i
  add_chunks-IsAdded h ((id, x ∷ vec, level) ∷ cs) i =
      elim (add_index-IsAdded h id (x ∷ vec) level i) [
        | inl (new, e, j) ↦ rw (e, add_chunks) (add_chunks-IsAdded new cs j)
        | inr (inl e) ↦ inr (inl (rw (e, add_chunks) refl))
        | inr (inr e) ↦ inr (inr (rw (e, add_chunks) refl))
      ]

  sixteen : pos 16 ≢ pos 1
  sixteen e = absurd (omega (arith, ap size e))
    where
      size : ℤ → ℕ
      size (pos n) = n
      size (negsuc n) = 0

  -- Whatever the store answers, `BuildFromStore` returns: an error, or a well-formed index.
  pub build_from_store-IsBuilt :
      (models : Option (List Bytes)) (embeddings : Bytes → Option (List (Bytes × List F × ℕ)))
      → ((h : Hnsw fl) × (build_from_store fl range_nodes models embeddings ≡ built h)
          × IsIndex fl h)
        ⊎ ((build_from_store fl range_nodes models embeddings ≡ models_failed)
            ⊎ ((build_from_store fl range_nodes models embeddings ≡ embeddings_failed)
                ⊎ (build_from_store fl range_nodes models embeddings ≡ index_failed)))
  unfolding build_from_store
  build_from_store-IsBuilt none embeddings = inr (inl refl)
  build_from_store-IsBuilt (some []) embeddings =
      let start = new_hnsw fl (pos 16) (pos 200) (pos 50) in
      inl (start, refl, new_hnsw-IsIndex fl (pos 16) (pos 200) (pos 50) sixteen)
  build_from_store-IsBuilt (some (model ∷ models)) embeddings =
      let start = new_hnsw fl (pos 16) (pos 200) (pos 50) in
      elim (Option-cases (embeddings model)) [
        | inl e ↦ inr (inr (inl (rw (e, build_from_store) refl)))
        | inr (cs, e) ↦
            elim (add_chunks-IsAdded start cs
              (new_hnsw-IsIndex fl (pos 16) (pos 200) (pos 50) sixteen)) [
                | inl (h, f, i) ↦ inl (h, rw (e, f, build_from_store) refl, i)
                | inr (inl f) ↦ inr (inr (inr (rw (e, f, build_from_store) refl)))
                | inr (inr f) ↦ inr (inr (inr (rw (e, f, build_from_store) refl)))
              ]
      ]

  pub after_calls-IsIndex :
      (cs : List (IndexCall fl)) (h : Hnsw fl)
      → IsIndex fl h
      → (new : Hnsw fl) × (after_calls fl range_nodes cs h ≡ some new) × IsIndex fl new
  unfolding after_calls
  after_calls-IsIndex [] h i = (h, refl, i)
  after_calls-IsIndex (c ∷ cs) h i =
      let (mid, e, j) = after_call-IsIndex h c i in
      let (new, f, k) = after_calls-IsIndex cs mid j in (new, rw (e, after_calls) f, k)
