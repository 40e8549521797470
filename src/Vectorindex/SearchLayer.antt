-- ===== src/Vectorindex/SearchLayer.antt =====
-- internal/vectorindex/hnsw.go: `searchLayer` ends, and what it returns.
use docsiq.Prelude.{
  ℕ, zero, suc, ◌+◌, ◌≤◌, ◌≡◌, refl, ap, Bool, ◌&&◌, some, List, [], ◌∷◌, length, leb, not, any,
  arith, Bool-cases, List-cases, inl, inr,
}
use docsiq.Prelude.Heap.{init, pop}
use docsiq.Prelude.Heap.Count.{count, count-init, count-le-length, length-init, pop-some, pop-nil}
use docsiq.Prelude.Text.{Bytes, bytes_eq}
use docsiq.Vectorindex.{
  Floats, HnswNode, Scored, Layer, min_less, max_less, worse, visit_all, expand, drain, drained,
  search_layer, cosine_distance, vec_of, id_of, links,
}
use docsiq.Vectorindex.Visit.{is_id, IsFound, measure, visit_all-measure, visit_all-IsFound}

module _ (fl : Floats) where
  open fl use {F}

  pub drain-count :
      (p : Scored fl → Bool) (k : ℕ) (results out : List (Scored fl))
      → length results ≡ k
      → count p (drain fl k results out) ≡ count p results + count p out
  unfolding drain
  drain-count p zero [] out l = omega arith
  drain-count p zero (r ∷ rs) out l = absurd (omega arith)
  drain-count p (suc k) [] out l = absurd (omega arith)
  drain-count p (suc k) (r ∷ rs) out l =
      let (w, rest, f, g, h) = pop-some (max_less fl) r rs in
      rw (f, drain) (omega (arith, drain-count p k rest (w ∷ out) (omega arith), h p))

  drain-length :
      (k : ℕ) (results out : List (Scored fl))
      → length results ≡ k
      → length (drain fl k results out) ≡ length results + length out
  unfolding drain
  drain-length zero [] out l = omega arith
  drain-length zero (r ∷ rs) out l = absurd (omega arith)
  drain-length (suc k) [] out l = absurd (omega arith)
  drain-length (suc k) (r ∷ rs) out l =
      let (w, rest, f, g, h) = pop-some (max_less fl) r rs in
      rw (f, drain) (omega (arith, drain-length k rest (w ∷ out) (omega arith)))

  module _ (cells : List (HnswNode fl)) where
    module _ (query : List F) (ef : ℕ) where
      -- A list of at most `ef` nodes, and of each id one at most.
      abbrev pub IsHits : List (Scored fl) → Type 0
      IsHits out = (length out ≤ ef) × ((id : Bytes) → count (is_id fl cells id) out ≤ 1)

      IsFound-IsHits :
          (visited : List Bytes) (out : List (Scored fl))
          → IsFound fl cells ef visited out
          → IsHits out
      IsFound-IsHits visited out h = (h.is_small, λ id. ground (arith, h.once id))

      -- As many rounds as nodes are not visited and candidates wait are enough.
      expand-IsHits :
          (k layer : ℕ) (s : Layer fl)
          → measure fl cells s ≤ k
          → IsFound fl cells ef s.visited s.results
          → (out : List (Scored fl)) × (expand fl k cells query ef layer s ≡ some out) × IsHits out
      unfolding expand
      expand-IsHits zero layer s l h = elim (List-cases s.cand) [
        | inl e ↦ (
          s.results,
          rw (e, pop-nil (min_less fl), expand) refl,
          IsFound-IsHits s.visited s.results h,
        )
        | inr (c, cs, e) ↦ absurd (omega (arith, ap length e))
      ]
      expand-IsHits (suc k) layer s l h = elim (List-cases s.cand) [
        | inl e ↦ (
          s.results,
          rw (e, pop-nil (min_less fl), expand) refl,
          IsFound-IsHits s.visited s.results h,
        )
        | inr (c, cs, e) ↦
            let (best, rest, f, g, _) = pop-some (min_less fl) c cs in
            let q : pop (min_less fl) s.cand ≡ some (best, rest) = rw e f in
            elim (Bool-cases (leb ef (length s.results) && worse fl best.1 s.results)) [
              | inl b ↦ (s.results, rw (q, b, expand) refl, IsFound-IsHits s.visited s.results h)
              | inr b ↦
                  let nbs = links fl cells best.0 layer in
                  let popped : Layer fl = record s { cand = rest } in
                  let next = visit_all fl cells query ef nbs popped in
                  let less = visit_all-measure fl cells query ef nbs popped in
                  let (out, r, hits) =
                    expand-IsHits k layer next (omega (arith, ap length e))
                      (visit_all-IsFound fl cells query ef nbs popped h) in
                  (out, rw (q, b, expand) r, hits)
            ]
      ]

      -- `searchLayer` ends, with a list that is not longer than `ef` and has no id twice.
      pub search_layer-IsHits :
          (ep layer : ℕ)
          → 1 ≤ ef
          → (out : List (Scored fl)) × (search_layer fl cells ep query ef layer ≡ some out)
            × IsHits out
      unfolding search_layer
      search_layer-IsHits ep layer l =
          let first : List (Scored fl) = (ep, cosine_distance fl (vec_of fl cells ep) query) ∷ [] in
          let start : Layer fl = record {
            visited = id_of fl cells ep ∷ [];
            cand = init (min_less fl) first;
            results = init (max_less fl) first;
          } in
          let few =
            count-le-length (λ (n : HnswNode fl). not (any (bytes_eq n.id) start.visited)) cells in
          let (out, e, hits) =
            expand-IsHits (suc (length cells)) layer start
              (omega (arith, length-init (min_less fl) 0 first))
              (record {
                is_small = omega (arith, length-init (max_less fl) 0 first);
                once = λ id. ground (arith, count-init (max_less fl) (is_id fl cells id) 0 first);
              }) in
          (
            drained fl out,
            rw (e, search_layer) refl,
            (
              omega (arith, drain-length (length out) out [] refl, hits.0),
              λ id.
                  omega
                    (arith, drain-count (is_id fl cells id) (length out) out [] refl, hits.1 id),
            ),
          )
