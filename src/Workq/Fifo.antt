-- ===== src/Workq/Fifo.antt =====
-- Accepted jobs start in the order of their submission, each at most once.
use docsiq.Prelude.{
  ℕ, ◌≡◌, sym, ap, ◌∙◌, List, [], ◌∷◌, ◌++◌, append-nil, append_assoc, none, some, arith, inl, inr,
  drop, length, drop-append, Option-cases,
}
use docsiq.Workq.{
  Config, Pool, Event, submits, receives, finishes, exits, closes, waits, accepted, queue_full,
  closed_err, send_panic, drained, ctx_done, new, submit, step, run, take_job, receive, finish,
  exit, close_start, close_wait,
}

-- The job that a step adds to the accepted ones.
abbrev pub accepted_by : Pool → Event → List ℕ
accepted_by p (submits job) = elim (submit p job).1 [
  | accepted ↦ job ∷ []
  | queue_full ↦ []
  | closed_err ↦ []
  | send_panic ↦ []
]
accepted_by p _ = []

-- The jobs that a receive adds to those that run.
abbrev pub started_by : Pool → Event → List ℕ
started_by p receives = elim (receive p) [ none ↦ [] | some q ↦ drop (length p.running) q.running ]
started_by p _ = []

abbrev concat_run : (Pool → Event → List ℕ) → Pool → List Event → List ℕ
concat_run f p [] = []
concat_run f p (e ∷ es) = elim (step p e) [ none ↦ [] | some q ↦ f p e ++ concat_run f q es ]

-- The jobs accepted, and those started, in the order in which a run does so.
pub accepted_jobs : Pool → List Event → List ℕ
accepted_jobs = concat_run accepted_by

pub started_jobs : Pool → List Event → List ℕ
started_jobs = concat_run started_by

take_job_fifo :
    (p : Pool) (js : List ℕ) {q : Pool}
    → take_job p js ≡ some q
    → drop (length p.running) q.running ++ q.jobs ≡ js
unfolding take_job
take_job_fifo p [] h = cc
take_job_fifo p (job ∷ rest) h = ground (arith, drop-append p.running (job ∷ []))

receive_fifo : (p : Pool) {q : Pool} → receive p ≡ some q → started_by p receives ++ q.jobs ≡ p.jobs
unfolding receive
receive_fifo p {q} h =
    let k : drop (length p.running) q.running ++ q.jobs ≡ p.jobs = take_job_fifo p p.jobs h in
    rw (h, started_by) k

-- One step: what it starts and what is then queued is what was queued and what it accepts.
step_fifo :
    (p : Pool) (e : Event) {q : Pool}
    → step p e ≡ some q
    → started_by p e ++ q.jobs ≡ p.jobs ++ accepted_by p e
unfolding step
step_fifo p (submits job) h = unfold submit in ground (arith, append-nil p.jobs)
step_fifo p receives h = receive_fifo p h ∙ sym (append-nil p.jobs)
step_fifo p (finishes i e) h = unfold finish in ground (arith, append-nil p.jobs)
step_fifo p exits h = unfold exit in ground (arith, append-nil p.jobs)
step_fifo p closes h = unfold close_start in ground (arith, append-nil p.jobs)
step_fifo p (waits drained) h = unfold close_wait in ground (arith, append-nil p.jobs)
step_fifo p (waits ctx_done) h = unfold close_wait in ground (arith, append-nil p.jobs)

concat_run-step :
    (f : Pool → Event → List ℕ) (p : Pool) (e : Event) (es : List Event) {q : Pool}
    → step p e ≡ some q
    → concat_run f p (e ∷ es) ≡ f p e ++ concat_run f q es
concat_run-step f p e es h = rw (h, concat_run)

run_fifo :
    (p : Pool) (es : List Event) {q : Pool}
    → run p es ≡ some q
    → started_jobs p es ++ q.jobs ≡ p.jobs ++ accepted_jobs p es
unfolding run started_jobs accepted_jobs
run_fifo p [] h = ground (arith, append-nil p.jobs)
run_fifo p (e ∷ es) {q} h = elim (Option-cases (step p e)) [
  | inl n ↦ cc (rw (n, run) at h)
  | inr (t, n) ↦
      rw (concat_run-step started_by p e es n, concat_run-step accepted_by p e es n)
        (append_assoc (started_by p e) (started_jobs t es) q.jobs
          ∙ ap (◌++◌ (started_by p e)) (run_fifo t es (rw (n, run) at h))
          ∙ sym (append_assoc (started_by p e) t.jobs (accepted_jobs t es))
          ∙ ap (λ l. l ++ accepted_jobs t es) (step_fifo p e n)
          ∙ append_assoc p.jobs (accepted_by p e) (accepted_jobs t es))
]

-- In every interleaving from a new pool, the jobs that the receives have put among those that run,
-- in the order of their start, followed by those still queued, are exactly the jobs that `Submit`
-- accepted, in the order of their submission: none is lost, repeated or overtaken.
pub started-append-jobs :
    (cfg : Config) (es : List Event) {q : Pool}
    → run (new cfg) es ≡ some q
    → started_jobs (new cfg) es ++ q.jobs ≡ accepted_jobs (new cfg) es
unfolding new
started-append-jobs cfg es {q} h = run_fifo (new cfg) es {q = q} h
