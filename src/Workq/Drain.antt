-- ===== src/Workq/Drain.antt =====
-- A closed pool drains: its workers are never stuck, and each of their steps brings the end nearer.
use docsiq.Prelude.{
  ℕ, zero, suc, ◌+◌, ◌-◌, ◌*◌, ◌≤◌, ◌<◌, ◌≡◌, refl, ◌∙◌, true, List, [], ◌∷◌, ◌++◌, some, arith,
  inl, inr, Option-cases, length, length-append,
}
use native.Mathlib.Decide.{dec_lt}
use docsiq.Workq.{
  Pool, Config, Event, receives, finishes, exits, closes, returned, drained, step, run, take_job,
  receive, finish, exit, erase_at, close_wait, close_start, new, submit, closed_err, ok,
}
use docsiq.Workq.Invariant.{IsValid, step-IsValid, length-erase_at, run-new-IsValid}

-- What workers do by themselves.
abbrev pub IsWorkerStep : Event → Type 0
IsWorkerStep receives = Unit
IsWorkerStep (finishes i e) = Unit
IsWorkerStep exits = Unit
IsWorkerStep _ = ⊥

abbrev pub AllWorkerSteps : List Event → Type 0
AllWorkerSteps [] = Unit
AllWorkerSteps (e ∷ es) = IsWorkerStep e × AllWorkerSteps es

-- The steps that are left.
abbrev pub measure : Pool → ℕ
measure p = 2 * length p.jobs + length p.running + (p.workers - p.exited)

take_job-measure :
    (p : Pool) (js : List ℕ) {q : Pool}
    → p.jobs ≡ js
    → take_job p js ≡ some q
    → measure q + 1 ≡ measure p
unfolding take_job
take_job-measure p [] e h = cc
take_job-measure p (job ∷ rest) e h = ground (arith, length-append p.running (job ∷ []))

-- A worker's step brings the end nearer by one.
worker_step-measure :
    (p : Pool) (e : Event) {q : Pool}
    → IsWorkerStep e
    → step p e ≡ some q
    → measure q + 1 ≡ measure p
unfolding step
worker_step-measure p receives w h = take_job-measure p p.jobs refl h
worker_step-measure p (finishes i e) {q} w h =
    unfold finish in
    elim (Option-cases (erase_at i p.running)) [
      | inl n ↦ ground arith
      | inr (t, n) ↦ ground (arith, length-erase_at i p.running {r = t} n)
    ]
worker_step-measure p exits w h = unfold exit in ground arith
worker_step-measure p _ w h = absurd w

-- A worker's step leaves a closed pool closed, with as many workers.
worker_step-closed :
    (p : Pool) (e : Event) {q : Pool}
    → IsWorkerStep e
    → step p e ≡ some q
    → (q.closed ≡ p.closed) × (q.workers ≡ p.workers)
unfolding step
worker_step-closed p receives w h = unfold receive take_job in ground arith
worker_step-closed p (finishes i e) w h = unfold finish in ground arith
worker_step-closed p exits w h = unfold exit in ground arith
worker_step-closed p _ w h = absurd w

can_step :
    (p : Pool) (js rs : List ℕ)
    → p.jobs ≡ js
    → p.running ≡ rs
    → p.jobs_closed ≡ true
    → p.exited < p.workers
    → (e : Event) × (q : Pool) × IsWorkerStep e × (step p e ≡ some q)
unfolding step
can_step p js (r ∷ rs) ej er c w =
    (finishes 0 returned, record p { running = rs }, tt, unfold finish in rw er)
can_step p (j ∷ js) [] ej er c w = (
  receives,
  record p { jobs = js; running = p.running ++ j ∷ [] },
  tt,
  unfold receive take_job in ground arith,
)
can_step p [] [] ej er c w =
    (exits, record p { exited = p.exited + 1 }, tt, unfold exit in ground arith)

closed_refuses : (p : Pool) (job : ℕ) → p.closed ≡ true → submit p job ≡ (p, closed_err)
unfolding submit
closed_refuses p job c = rw c

run-closed :
    (p : Pool) (es : List Event) {q : Pool}
    → AllWorkerSteps es
    → p.closed ≡ true
    → run p es ≡ some q
    → q.closed ≡ true
unfolding run
run-closed p [] w c h = ground arith
run-closed p (e ∷ es) (w, ws) c h = elim (Option-cases (step p e)) [
  | inl n ↦ cc (rw (n, run) at h)
  | inr (t, n) ↦ run-closed t es ws ((worker_step-closed p e w n).0 ∙ c) (rw (n, run) at h)
]

drains_in :
    (n : ℕ) (p : Pool)
    → measure p ≤ n
    → IsValid p
    → p.closed ≡ true
    → (es : List Event) × (q : Pool) × AllWorkerSteps es
      × (run p es ≡ some q)
      × (q.exited ≡ q.workers)
      × IsValid q
unfolding run
drains_in zero p m v c = ([], p, tt, refl, omega arith, v)
drains_in (suc n) p m v c = elim (dec_lt p.exited p.workers) [
  | yes w ↦
      let (e, q, k, s) = can_step p p.jobs p.running refl refl (v.flags ∙ c) w in
      let (es, r, ks, ran, done, u) =
        drains_in n q (omega (arith, worker_step-measure p e k s)) (step-IsValid p e v s)
          ((worker_step-closed p e k s).0 ∙ c) in
      (e ∷ es, r, (k, ks), rw (s, run) ran, done, u)
  | no w ↦ ([], p, tt, refl, omega (arith, v.workers_bound), v)
]

-- From any reachable pool, once `Close` has closed it, the workers by themselves can bring it to a
-- state where the wait of `Close` returns nil, and then nothing is queued.
pub close_drains :
    (cfg : Config) (es : List Event) {p : Pool}
    → run (new cfg) es ≡ some p
    → (ws : List Event) × (q : Pool) × AllWorkerSteps ws
      × (run (close_start p) ws ≡ some q)
      × (close_wait q drained ≡ some (q, ok))
      × (q.jobs ≡ [])
unfolding close_wait
close_drains cfg es {p} h =
    let v : IsValid p = run-new-IsValid cfg es h in
    let u : IsValid (close_start p) = step-IsValid p closes v (unfold step in refl) in
    let (ws, q, ks, ran, done, r) =
      drains_in (measure (close_start p)) (close_start p) (omega arith) u
        (unfold close_start in ground arith) in
    let empty : q.jobs ≡ [] = elim r.exit_closed [
      | inl z ↦ absurd (omega (arith, r.has_worker))
      | inr (x, y) ↦ y
    ] in
    (ws, q, ks, ran, ground arith, empty)

-- No schedule of the workers is longer than two steps for each queued job, one for each running
-- job and one for each worker that has not exited.
pub run-measure :
    (p : Pool) (es : List Event) {q : Pool}
    → AllWorkerSteps es
    → run p es ≡ some q
    → measure q + length es ≡ measure p
unfolding run
run-measure p [] w h = ground arith
run-measure p (e ∷ es) (w, ws) h = elim (Option-cases (step p e)) [
  | inl n ↦ cc (rw (n, run) at h)
  | inr (t, n) ↦ omega (arith, worker_step-measure p e w n, run-measure t es ws (rw (n, run) at h))
]

-- A closed pool whose workers have not all exited always lets some worker take a step.
pub closed_progress :
    (p : Pool)
    → IsValid p
    → p.closed ≡ true
    → p.exited < p.workers
    → (e : Event) × (q : Pool) × IsWorkerStep e × (step p e ≡ some q)
closed_progress p v c w = can_step p p.jobs p.running refl refl (v.flags ∙ c) w

-- After the closing step, `Submit` refuses every job and changes nothing, at once and after any
-- further steps of the workers.
pub submit-close_start :
    (p : Pool) (es : List Event) (job : ℕ) {q : Pool}
    → AllWorkerSteps es
    → run (close_start p) es ≡ some q
    → submit q job ≡ (q, closed_err)
submit-close_start p es job w h =
    closed_refuses _ job (run-closed (close_start p) es w (unfold close_start in ground arith) h)
