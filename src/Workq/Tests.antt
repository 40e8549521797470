-- ===== src/Workq/Tests.antt =====
-- Runs of the pool at small inputs.
use docsiq.Prelude.{◌≡◌, refl, true, false, List, [], ◌∷◌, ◌++◌, some}
use docsiq.Prelude.Int.{pos, negsuc}
use docsiq.Workq.{
  Config, Pool, Event, submits, receives, finishes, panicked, new, submit, close_start, close_wait,
  drained, ok, step, run,
}
use docsiq.Workq.Invariant.{IsValid, run-new-IsValid}
use docsiq.Workq.Fifo.{started_jobs, accepted_jobs, started-append-jobs}
use docsiq.Workq.Drain.{AllWorkerSteps, close_drains}

-- One worker and one queue slot: room for two jobs.
abbrev small : Config
small = record { workers = negsuc 2; queue_depth = pos 1 }

abbrev history : List Event
history =
    submits 7 ∷ submits 8 ∷ receives ∷ submits 9 ∷ submits 10 ∷ finishes 0 panicked ∷ receives ∷ []

abbrev after_history : Pool
after_history = record {
  workers = 1;
  capacity = 2;
  jobs = 9 ∷ [];
  jobs_closed = false;
  closed = false;
  cancelled = false;
  rejected = 1;
  running = 8 ∷ [];
  exited = 0;
}

history_runs : run (new small) history ≡ some after_history
unfolding run step new submit
history_runs = refl

run-new-IsValid_example : IsValid after_history
run-new-IsValid_example = run-new-IsValid small history history_runs

started-append-jobs_example :
    started_jobs (new small) history ++ 9 ∷ [] ≡ accepted_jobs (new small) history
started-append-jobs_example = started-append-jobs small history history_runs

close_drains_example :
    (ws : List Event) × (q : Pool) × AllWorkerSteps ws
    × (run (close_start after_history) ws ≡ some q)
    × (close_wait q drained ≡ some (q, ok))
    × (q.jobs ≡ [])
close_drains_example = close_drains small history history_runs

abbrev closing : List Event
closing = finishes 0 panicked ∷ receives ∷ []

abbrev after_closing : Pool
after_closing = record after_history {
  jobs = [];
  running = 9 ∷ [];
  closed = true;
  jobs_closed = true;
}

closing_runs : run (close_start after_history) closing ≡ some after_closing
unfolding run step close_start
closing_runs = refl
