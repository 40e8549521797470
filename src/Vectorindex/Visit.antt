-- ===== src/Vectorindex/Visit.antt =====
-- internal/vectorindex/hnsw.go: what a round of `searchLayer` keeps, and what it uses up.
use docsiq.Prelude.{
  ℕ, zero, suc, ◌+◌, ◌≤◌, ◌≡◌, refl, ap, ◌∙◌, Bool, true, false, not, ◌||◌, some, List, [], ◌∷◌,
  length, get_elem?, any, ltb, if◌then◌else◌, arith, Bool-cases, Option-cases, inl, inr,
}
use docsiq.Prelude.Heap.{push}
use docsiq.Prelude.Heap.Count.{count, count-push, length-push, pop-some}
use docsiq.Prelude.Text.{Bytes, bytes_eq, bytes_eq_iff, bytes_eq_refl}
use docsiq.Vectorindex.{
  Floats, HnswNode, Scored, Layer, min_less, max_less, better, trim, visit, visit_all,
  cosine_distance, id_of,
}

module _ {A : Type 0} (p q : A → Bool) (sub : (a : A) → q a ≡ true → p a ≡ true) where
  pub count_mono : (xs : List A) → count q xs ≤ count p xs
  count_mono [] = omega arith
  count_mono (x ∷ xs) = ground (arith, count_mono xs, sub x)

  -- One element passes the one test and not the other.
  pub count_strict :
      (xs : List A) (i : ℕ) {a : A}
      → get_elem? xs i ≡ some a
      → p a ≡ true
      → q a ≡ false
      → suc (count q xs) ≤ count p xs
  count_strict [] i e h n = absurd (cc)
  count_strict (x ∷ xs) zero {a} e h n =
      let f : x ≡ a = cc in
      let h' : p x ≡ true = rw f h in let n' : q x ≡ false = rw f n in ground (arith, count_mono xs)
  count_strict (x ∷ xs) (suc i) e h n = ground (arith, count_strict xs i e h n, sub x)

-- A result more of an id that was not visited.
once_more :
    (id nid : Bytes) (visited : List Bytes) (old new : ℕ)
    → any (bytes_eq nid) visited ≡ false
    → old ≤ (if any (bytes_eq id) visited then 1 else 0)
    → new ≤ old + (if bytes_eq id nid then 1 else 0)
    → new ≤ (if bytes_eq id nid || any (bytes_eq id) visited then 1 else 0)
once_more id nid visited old new v o l = elim (Bool-cases (bytes_eq id nid)) [
  | inr e ↦ ground arith
  | inl e ↦
      let same : id ≡ nid = (bytes_eq_iff id nid).0 e in
      let w : any (bytes_eq id) visited ≡ false = rw same v in ground arith
]

module _ (fl : Floats) where
  open fl use {F}

  module _ (cells : List (HnswNode fl)) where
    -- The nodes that are not visited.
    abbrev unvisited : List Bytes → ℕ
    unvisited visited = count (λ n. not (any (bytes_eq n.id) visited)) cells

    unvisited-visit :
        (visited : List Bytes) (i : ℕ) {n : HnswNode fl}
        → get_elem? cells i ≡ some n
        → any (bytes_eq n.id) visited ≡ false
        → suc (unvisited (n.id ∷ visited)) ≤ unvisited visited
    unvisited-visit visited i {n} e h =
        count_strict (λ (x : HnswNode fl). not (any (bytes_eq x.id) visited))
          (λ (x : HnswNode fl). not (any (bytes_eq x.id) (n.id ∷ visited))) (λ x m. ground arith)
          cells i e (ground arith) (ground (arith, bytes_eq_refl n.id))

    -- A test for the results of an id.
    abbrev pub is_id : Bytes → Scored fl → Bool
    is_id id s = bytes_eq id (id_of fl cells s.0)

    -- At most `ef` results, and one at most of a visited id.
    pub record IsFound (ef : ℕ) (visited : List Bytes) (results : List (Scored fl)) : Type 0 where
      pub is_small : length results ≤ ef
      pub once :
          (id : Bytes) → count (is_id id) results ≤ (if any (bytes_eq id) visited then 1 else 0)

    pub count-trim :
        (p : Scored fl → Bool) (ef : ℕ) (results : List (Scored fl))
        → count p (trim fl ef results) ≤ count p results
    count-trim p ef [] = ground arith
    count-trim p ef (r ∷ rs) =
        let (w, rest, f, g, h) = pop-some (max_less fl) r rs in
        elim (Bool-cases (ltb ef (length (r ∷ rs)))) [
          | inr e ↦ rw (e, trim) (omega arith)
          | inl e ↦ rw (e, f, trim) (omega (arith, h p))
        ]

    trim_lem :
        (ef : ℕ) (results : List (Scored fl))
        → length results ≤ suc ef
        → (length (trim fl ef results) ≤ ef)
          × ((p : Scored fl → Bool) → count p (trim fl ef results) ≤ count p results)
    trim_lem ef [] l = (ground arith, λ p. count-trim p ef [])
    trim_lem ef (r ∷ rs) l =
        let (w, rest, f, g, h) = pop-some (max_less fl) r rs in
        (
          elim (Bool-cases (ltb ef (length (r ∷ rs)))) [
            | inr e ↦ rw (e, trim) (ground arith)
            | inl e ↦ rw (e, f, trim) (omega arith)
          ],
          λ p. count-trim p ef (r ∷ rs),
        )

    abbrev pub measure : Layer fl → ℕ
    measure s = unvisited s.visited + length s.cand

    module _ (query : List F) (ef : ℕ) where
      visit-measure : (nb : ℕ) (s : Layer fl) → measure (visit fl cells query ef nb s) ≤ measure s
      unfolding visit
      visit-measure nb s = elim (Option-cases (get_elem? cells nb)) [
        | inl e ↦ rw (e, visit) (omega arith)
        | inr (n, e) ↦ elim (Bool-cases (any (bytes_eq n.id) s.visited)) [
          | inl v ↦ rw (e, v, visit) (omega arith)
          | inr v ↦
              let d = cosine_distance fl n.vec query in
              let fewer = unvisited-visit s.visited nb e v in
              elim (Bool-cases (ltb (length s.results) ef || better fl d s.results)) [
                | inl b ↦
                    rw (e, v, b, visit) (omega (arith, length-push (min_less fl) s.cand (nb, d)))
                | inr b ↦ rw (e, v, b, visit) (omega arith)
              ]
        ]
      ]

      pub visit_all-measure :
          (nbs : List ℕ) (s : Layer fl) → measure (visit_all fl cells query ef nbs s) ≤ measure s
      unfolding visit_all
      visit_all-measure [] s = omega arith
      visit_all-measure (nb ∷ nbs) s =
          omega (arith, visit_all-measure nbs (visit fl cells query ef nb s), visit-measure nb s)

      visit-IsFound :
          (nb : ℕ) (s : Layer fl)
          → IsFound ef s.visited s.results
          → IsFound ef (visit fl cells query ef nb s).visited (visit fl cells query ef nb s).results
      unfolding visit
      visit-IsFound nb s h = elim (Option-cases (get_elem? cells nb)) [
        | inl e ↦ rw (e, visit) h
        | inr (n, e) ↦ elim (Bool-cases (any (bytes_eq n.id) s.visited)) [
          | inl v ↦ rw (e, v, visit) h
          | inr v ↦
              let d = cosine_distance fl n.vec query in
              elim (Bool-cases (ltb (length s.results) ef || better fl d s.results)) [
                | inr b ↦
                    rw (e, v, b, visit)
                      (record { is_small = h.is_small; once = λ id. ground (arith, h.once id) })
                | inl b ↦
                    let pushed = push (max_less fl) s.results (nb, d) in
                    let (small, fewer) =
                      trim_lem ef pushed
                        (omega (arith, length-push (max_less fl) s.results (nb, d), h.is_small)) in
                    let same : id_of fl cells nb ≡ n.id = rw (e, id_of) refl in
                    rw (e, v, b, visit)
                      (record {
                        is_small = small;
                        once = λ id.
                            let old = h.once id in
                            let more = count-push (max_less fl) (is_id id) s.results (nb, d) in
                            let less = fewer (is_id id) in
                            once_more id n.id s.visited (count (is_id id) s.results)
                              (count (is_id id) (trim fl ef pushed)) v old
                              (omega (
                                arith,
                                more
                                    ∙ ap
                                        (λ (x : Bytes).
                                          count (is_id id) s.results
                                          + (if bytes_eq id x then 1 else 0))
                                        same,
                              ));
                      })
              ]
        ]
      ]

      pub visit_all-IsFound :
          (nbs : List ℕ) (s : Layer fl)
          → IsFound ef s.visited s.results
          → IsFound ef
              (visit_all fl cells query ef nbs s).visited
              (visit_all fl cells query ef nbs s).results
      unfolding visit_all
      visit_all-IsFound [] s h = h
      visit_all-IsFound (nb ∷ nbs) s h =
          visit_all-IsFound nbs (visit fl cells query ef nb s) (visit-IsFound nb s h)
