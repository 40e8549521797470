-- ===== src/Community/Loops.antt =====
-- A graph without edges between different nodes: `Louvain` moves no node.
use docsiq.Prelude.{
  ℕ, zero, suc, ◌+◌, ◌<◌, ◌≡◌, refl, sym, ap, ◌∙◌, true, false, none, List, [], ◌∷◌, ◌++◌, length,
  set, ◌==◌, arith, Bool-cases, inl, inr, ◌⊎◌,
}
use docsiq.Community.Labels.{length-iota}
use docsiq.Community.{
  Runtime, Graph, Pass, iota, at, position, renumber, louvain, passes, sweep, visit, initial_sigma,
  weight_of, add_weight, neighbor_comms, best_comm, gain_of, update, node_degree,
}

-- What is used of float64 and of `range`: `x - x` is 0 or NaN, which is not greater than 0, and an
-- order of visit has the keys of the map.
pub record IsRuntime (rt : Runtime) : Type 0 where
  pub sub_self : (x : rt.F) → rt.gt (rt.sub x x) rt.nil ≡ false
  pub nil_not_gt : rt.gt rt.nil rt.nil ≡ false
  pub range_none : rt.range_comms [] ≡ []
  pub range_one : (c : ℕ) (w : rt.F) → rt.range_comms ((c, w) ∷ []) ≡ (c, w) ∷ []

-- Writing an entry back changes nothing.
set-at : (xs : List ℕ) (i : ℕ) → set xs i (at xs i) ≡ xs
set-at [] i = refl
set-at (x ∷ xs) zero = refl
set-at (x ∷ xs) (suc i) = ap (◌∷◌ x) (set-at xs i)

iota-snoc : (start n : ℕ) → iota start n ++ (start + n) ∷ [] ≡ iota start (suc n)
iota-snoc start zero = ap (λ x. x ∷ []) (omega arith)
iota-snoc start (suc n) =
    ap (◌∷◌ start) (ap (λ x. iota (start + 1) n ++ x ∷ []) (omega arith) ∙ iota-snoc (start + 1) n)

position-iota : (start n c : ℕ) → start + n < c + 1 → position (iota start n) c ≡ none
position-iota start zero c h = refl
position-iota start (suc n) c h =
    let e = position-iota (start + 1) n c (omega (arith, h)) in ground arith

same : (c : ℕ) → (c == c) ≡ true
same c = ground arith

renumber-iota : (m n : ℕ) → renumber (iota 0 m) (iota m n) ≡ iota m n
unfolding renumber
renumber-iota m zero = refl
renumber-iota m (suc n) =
    let new = position-iota 0 m m (omega arith) in
    let one_more : suc m ≡ m + 1 = omega arith in
    let one : iota 0 m ++ m ∷ [] ≡ iota 0 (m + 1) =
      ap (λ x. iota 0 m ++ x ∷ []) (omega arith) ∙ iota-snoc 0 m ∙ ap (iota 0) one_more in
    let rest = ap (λ s. renumber s (iota (m + 1) n)) one ∙ renumber-iota (m + 1) n in
    let k = length-iota 0 m in rw (new, renumber) (cc (k, rest))

module _ (rt : Runtime) (laws : IsRuntime rt) (g : Graph rt)
    (loops : (i j : ℕ) → (i == j) ≡ false → rt.gt (g.adj i j) rt.nil ≡ false) where
  -- The only community near a node is its own.
  abbrev IsOwn : ℕ → List (ℕ × rt.F) → Type 0
  IsOwn c m = (m ≡ []) ⊎ ((w : rt.F) × (m ≡ (c, w) ∷ []))

  add_weight-one : (c : ℕ) (v w : rt.F) → add_weight rt ((c, v) ∷ []) c w ≡ (c, rt.add v w) ∷ []
  add_weight-one c v w = rw (same c) refl

  add_weight-IsOwn :
      (c : ℕ) (m : List (ℕ × rt.F)) (w : rt.F) → IsOwn c m → IsOwn c (add_weight rt m c w)
  add_weight-IsOwn c m w (inl e) = inr (rt.add rt.nil w, ap (λ x. add_weight rt x c w) e)
  add_weight-IsOwn c m w (inr (v, e)) =
      inr (rt.add v w, ap (λ x. add_weight rt x c w) e ∙ add_weight-one c v w)

  neighbor_comms-IsOwn :
      (comm : List ℕ) (i : ℕ) (m : List (ℕ × rt.F)) (js : List ℕ)
      → IsOwn (at comm i) m
      → IsOwn (at comm i) (neighbor_comms rt comm (g.adj i) m js)
  unfolding neighbor_comms
  neighbor_comms-IsOwn comm i m [] h = h
  neighbor_comms-IsOwn comm i m (j ∷ js) h = elim (Bool-cases (rt.gt (g.adj i j) rt.nil)) [
    | inr e ↦ rw (e, neighbor_comms) (neighbor_comms-IsOwn comm i m js h)
    | inl e ↦ elim (Bool-cases (i == j)) [
      | inr d ↦ absurd (cc (loops i j d, e))
      | inl d ↦
          let s : i ≡ j = ground arith in
          let k : IsOwn (at comm i) (add_weight rt m (at comm j) (g.adj i j)) =
            rw (sym s) (add_weight-IsOwn (at comm i) m (g.adj i i) h) in
          rw (e, neighbor_comms)
            (neighbor_comms-IsOwn comm i (add_weight rt m (at comm j) (g.adj i j)) js k)
    ]
  ]

  best_comm-own :
      (m2 ki : rt.F) (sigma : ℕ → rt.F) (old : ℕ) (m : List (ℕ × rt.F))
      → IsOwn old m
      → best_comm rt m2 ki sigma
          (gain_of rt m2 ki sigma old (weight_of rt m old))
          old
          rt.nil
          (rt.range_comms m)
        ≡ old
  unfolding best_comm
  best_comm-own m2 ki sigma old m (inl e) = rw (e, laws.range_none) refl
  best_comm-own m2 ki sigma old m (inr (w, e)) =
      rw (e, laws.range_one old w, same old)
        (rw (laws.sub_self (gain_of rt m2 ki sigma old w), best_comm) refl)

  visit-still : (m2 : rt.F) (p : Pass rt) (i : ℕ) → (visit rt g m2 p i).comm ≡ p.comm
  unfolding visit
  visit-still m2 p i =
      let ki = node_degree rt g i in
      let old = at p.comm i in
      let near = neighbor_comms rt p.comm (g.adj i) [] (iota 0 (length g.nodes)) in
      let sigma = update rt p.sigma_tot old (rt.sub (p.sigma_tot old) ki) in
      let own = neighbor_comms-IsOwn p.comm i [] (iota 0 (length g.nodes)) (inl refl) in
      ap (set p.comm i) (best_comm-own m2 ki sigma old near own) ∙ set-at p.comm i

  sweep-still : (m2 : rt.F) (p : Pass rt) (order : List ℕ) → (sweep rt g m2 p order).comm ≡ p.comm
  unfolding sweep
  sweep-still m2 p [] = refl
  sweep-still m2 p (i ∷ order) = sweep-still m2 (visit rt g m2 p i) order ∙ visit-still m2 p i

  passes-still : (m2 : rt.F) (n : ℕ) (p : Pass rt) → (passes rt g m2 n p).comm ≡ p.comm
  unfolding passes
  passes-still m2 zero p = refl
  passes-still m2 (suc n) p =
      let order = rt.perm n (length g.nodes) in
      let q = record p { improved = false } in
      elim (Bool-cases p.improved) [
        | inl e ↦
            rw (e, passes) (passes-still m2 n (sweep rt g m2 q order) ∙ sweep-still m2 q order)
        | inr e ↦ rw (e, passes) refl
      ]

  -- Every node stays in its own community.
  pub louvain-loops : (max_iter : ℕ) → louvain rt g max_iter ≡ iota 0 (length g.nodes)
  unfolding louvain
  louvain-loops max_iter =
      let start : Pass rt = record {
        comm = iota 0 (length g.nodes);
        sigma_tot = initial_sigma rt g (λ c. rt.nil) (iota 0 (length g.nodes));
        improved = true;
      } in
      let a = ap (renumber []) (passes-still (rt.mul rt.two g.total) max_iter start) in
      let b = renumber-iota 0 (length g.nodes) in
      elim (Bool-cases (length g.nodes == 0)) [
        | inl z ↦
            let none_there : length g.nodes ≡ 0 = ground arith in
            rw (z, louvain) (sym (ap (iota 0) none_there))
        | inr z ↦ elim (Bool-cases (rt.is_zero g.total)) [
          | inl e ↦ rw (z, e, louvain) refl
          | inr e ↦ rw (z, e, louvain) (a ∙ b)
        ]
      ]
