-- ===== src/Workq/Invariant.antt =====
-- What holds of the pool after any interleaving of calls and workers.
use docsiq.Prelude.{
  ◌⊎◌, ℕ, zero, suc, ◌+◌, ◌^◌, ◌≤◌, ◌<◌, ◌≡◌, ◌≢◌, refl, true, some, List, [], ◌∷◌, length,
  length-append, arith, inl, inr, Option-cases,
}
use docsiq.Workq.{
  Config, Pool, Event, JobEnd, submits, receives, finishes, exits, closes, waits, drained, ctx_done,
  new, submit, send_panic, close_start, close_wait, finish, exit, step, run, erase_at, take_job,
}
use docsiq.Prelude.Int.{or_default_pos}

-- The queue is within the channel's buffer, no worker is counted twice, a worker exits only when
-- the channel is closed and empty, and the two closings go together.
pub record IsValid (p : Pool) : Type 0 where
  pub within : length p.jobs ≤ p.capacity
  pub workers_bound : length p.running + p.exited ≤ p.workers
  pub flags : p.jobs_closed ≡ p.closed
  pub exit_closed : (p.exited ≡ 0) ⊎ ((p.closed ≡ true) × (p.jobs ≡ []))
  pub has_worker : 0 < p.workers
  pub counter : p.rejected < 2 ^ 64

pub new-IsValid : (cfg : Config) → IsValid (new cfg)
unfolding new
new-IsValid cfg = record {
  within = omega arith;
  workers_bound = omega arith;
  flags = refl;
  exit_closed = inl refl;
  has_worker = or_default_pos cfg.workers 1 (omega arith);
  counter = omega arith;
}

pub length-erase_at :
    (i : ℕ) (xs : List ℕ) {r : List ℕ} → erase_at i xs ≡ some r → length r + 1 ≡ length xs
length-erase_at i [] h = cc
length-erase_at zero (x ∷ xs) h = ground arith
length-erase_at (suc i) (x ∷ xs) {r} h = elim (Option-cases (erase_at i xs)) [
  | inl e ↦ ground arith
  | inr (t, e) ↦ ground (arith, length-erase_at i xs {r = t} e)
]

submit-IsValid : (p : Pool) (job : ℕ) → IsValid p → IsValid (submit p job).0
unfolding submit
submit-IsValid p job v = elim v.exit_closed [
  | inl z ↦ ground (arith, length-append p.jobs (job ∷ []))
  | inr (c, e) ↦ ground (arith, length-append p.jobs (job ∷ []))
]

take_job-IsValid :
    (p : Pool) (js : List ℕ) {q : Pool}
    → p.jobs ≡ js
    → IsValid p
    → take_job p js ≡ some q
    → IsValid q
unfolding take_job
take_job-IsValid p [] e v h = cc
take_job-IsValid p (job ∷ rest) e v h = ground (arith, length-append p.running (job ∷ []))

finish-IsValid :
    (p : Pool) (i : ℕ) (e : JobEnd) {q : Pool} → IsValid p → finish p i e ≡ some q → IsValid q
unfolding finish
finish-IsValid p i e {q} v h = elim (Option-cases (erase_at i p.running)) [
  | inl n ↦ ground arith
  | inr (t, n) ↦ ground (arith, length-erase_at i p.running {r = t} n)
]

exit-IsValid :
    (p : Pool) (js : List ℕ) {q : Pool} → p.jobs ≡ js → IsValid p → exit p ≡ some q → IsValid q
unfolding exit
exit-IsValid p [] e v h = ground arith
exit-IsValid p (job ∷ rest) e v h = ground arith

-- Every step of a caller or a worker keeps the pool valid.
pub step-IsValid : (p : Pool) (e : Event) {q : Pool} → IsValid p → step p e ≡ some q → IsValid q
unfolding step
step-IsValid p (submits job) v h = ground (arith, submit-IsValid p job)
step-IsValid p receives v h = take_job-IsValid p p.jobs refl v h
step-IsValid p (finishes i e) v h = finish-IsValid p i e v h
step-IsValid p exits v h = exit-IsValid p p.jobs refl v h
step-IsValid p closes v h = unfold close_start in ground arith
step-IsValid p (waits drained) v h = unfold close_wait in ground arith
step-IsValid p (waits ctx_done) v h = unfold close_wait in ground arith

run_inv : (p : Pool) (es : List Event) {q : Pool} → IsValid p → run p es ≡ some q → IsValid q
unfolding run
run_inv p [] v h = ground arith
run_inv p (e ∷ es) {q} v h = elim (Option-cases (step p e)) [
  | inl n ↦ cc (rw (n, run) at h)
  | inr (t, n) ↦ run_inv t es (step-IsValid p e v n) (rw (n, run) at h)
]

-- In every interleaving of submissions, workers and closings from a new pool, the queue stays
-- within the channel's buffer, no more workers run or have exited than were started, the two
-- closings go together, and a worker has exited only if the pool is closed and its queue empty.
pub run-new-IsValid :
    (cfg : Config) (es : List Event) {q : Pool} → run (new cfg) es ≡ some q → IsValid q
run-new-IsValid cfg es h = run_inv (new cfg) es (new-IsValid cfg) h

-- In every interleaving from a new pool, a submission never sends on the closed channel.
pub submit-ne-panic :
    (cfg : Config) (es : List Event) (job : ℕ) {q : Pool}
    → run (new cfg) es ≡ some q
    → (submit q job).1 ≢ send_panic
unfolding submit
submit-ne-panic cfg es job {q} h = let v : IsValid q = run-new-IsValid cfg es h in ground arith
