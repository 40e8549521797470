-- ===== src/Community/Labels.antt =====
-- The communities of one run are numbered 0, 1, ... in the order of their first node.
use docsiq.Prelude.{
  ℕ, zero, suc, ◌+◌, ◌<◌, ◌≡◌, refl, ap, ◌∙◌, Bool, true, false, some, List, [], ◌∷◌, ◌++◌, length,
  length-append, ltb, ◌==◌, if◌then◌else◌, length-set, arith, Option-cases, Bool-cases, inl, inr,
}
use docsiq.Community.{
  Runtime, Graph, Pass, iota, position, renumber, louvain, passes, sweep, visit, initial_sigma,
}

-- Each label is one of those before it or the next free one, which is `next` at the start.
abbrev pub is_numbering : ℕ → List ℕ → Bool
is_numbering next [] = true
is_numbering next (x ∷ xs) =
    let old = is_numbering next xs in
    let new = is_numbering (suc next) xs in
    if ltb x next then old else if x == next then new else false

position-lt : (seen : List ℕ) (c : ℕ) {i : ℕ} → position seen c ≡ some i → i < length seen
position-lt [] c h = cc
position-lt (d ∷ seen) c {i} h = elim (Option-cases (position seen c)) [
  | inl e ↦ ground arith
  | inr (j, e) ↦ ground (arith, position-lt seen c {i = j} e)
]

renumber-is_numbering :
    (seen comm : List ℕ) → is_numbering (length seen) (renumber seen comm) ≡ true
unfolding renumber
renumber-is_numbering seen [] = refl
renumber-is_numbering seen (c ∷ comm) = elim (Option-cases (position seen c)) [
  | inr (i, e) ↦
      let l = position-lt seen c e in
      let h = renumber-is_numbering seen comm in rw (e, renumber) (ground arith)
  | inl e ↦
      let h = renumber-is_numbering (seen ++ c ∷ []) comm in
      let l = length-append seen (c ∷ []) in rw (e, renumber) (ground arith)
]

iota-is_numbering : (start n : ℕ) → is_numbering start (iota start n) ≡ true
iota-is_numbering start zero = refl
iota-is_numbering start (suc n) = ground (arith, iota-is_numbering (start + 1) n)

pub length-iota : (start n : ℕ) → length (iota start n) ≡ n
length-iota start zero = refl
length-iota start (suc n) = ap suc (length-iota (start + 1) n)

length-renumber : (seen comm : List ℕ) → length (renumber seen comm) ≡ length comm
unfolding renumber
length-renumber seen [] = refl
length-renumber seen (c ∷ comm) = elim (Option-cases (position seen c)) [
  | inr (i, e) ↦ rw (e, renumber) (ap suc (length-renumber seen comm))
  | inl e ↦ rw (e, renumber) (ap suc (length-renumber (seen ++ c ∷ []) comm))
]

module _ (rt : Runtime) (g : Graph rt) where
  length-sweep :
      (m2 : rt.F) (p : Pass rt) (order : List ℕ)
      → length (sweep rt g m2 p order).comm ≡ length p.comm
  unfolding sweep visit
  length-sweep m2 p [] = refl
  length-sweep m2 p (i ∷ order) = length-sweep m2 (visit rt g m2 p i) order ∙ length-set p.comm i _

  length-passes :
      (m2 : rt.F) (n : ℕ) (p : Pass rt) → length (passes rt g m2 n p).comm ≡ length p.comm
  unfolding passes
  length-passes m2 zero p = refl
  length-passes m2 (suc n) p =
      let swept = sweep rt g m2 (record p { improved = false }) (rt.perm n (length g.nodes)) in
      let a = length-passes m2 n swept in
      let b = length-sweep m2 (record p { improved = false }) (rt.perm n (length g.nodes)) in
      elim (Bool-cases p.improved) [ inl e ↦ rw (e, passes) (a ∙ b) | inr e ↦ rw (e, passes) refl ]

  -- Whatever the order of the nodes, the ties and the arithmetic of float64 do, `Louvain` gives one
  -- label for each node, and the labels are numbered from 0 in the order of their first node.
  pub louvain-is_numbering :
      (max_iter : ℕ)
      → (length (louvain rt g max_iter) ≡ length g.nodes)
        × (is_numbering 0 (louvain rt g max_iter) ≡ true)
  unfolding louvain
  louvain-is_numbering max_iter =
      let start : Pass rt = record {
        comm = iota 0 (length g.nodes);
        sigma_tot = initial_sigma rt g (λ c. rt.nil) (iota 0 (length g.nodes));
        improved = true;
      } in
      let last = (passes rt g (rt.mul rt.two g.total) max_iter start).comm in
      let a = length-iota 0 (length g.nodes) in
      let b = iota-is_numbering 0 (length g.nodes) in
      let c = length-renumber [] last ∙ length-passes (rt.mul rt.two g.total) max_iter start ∙ a in
      let d = renumber-is_numbering [] last in ground arith
