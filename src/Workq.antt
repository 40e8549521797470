-- ===== src/Workq.antt =====
-- internal/workq/workq.go: the bounded worker pool. A method of the pool is one atomic step (the
-- code holds `p.mu` over `Submit`'s two selects and over both `close` calls); what the workers and
-- the waiting half of `Close` do are steps of their own, so that a run is any interleaving.
use docsiq.Prelude.{
  ℕ, zero, suc, ◌+◌, ◌-◌, ◌%◌, ◌^◌, ◌≡◌, refl, Bool, true, false, ◌&&◌, not, Option, none, some,
  List, [], ◌∷◌, ◌++◌, length, get_elem?, ltb, ◌==◌, if◌then◌else◌,
}
use docsiq.Prelude.Int.{ℤ, or_default}
pub mod Invariant
pub mod Fifo
pub mod Drain
mod Tests

pub record Config : Type 0 where
  pub workers : ℤ
  pub queue_depth : ℤ

-- A job is known by a number. `jobs` is the buffered channel, oldest first; `running` holds the
-- jobs that workers have taken; a worker that is neither running nor exited waits at the channel.
pub record Pool : Type 0 where
  pub workers : ℕ
  pub capacity : ℕ
  pub jobs : List ℕ
  pub jobs_closed : Bool
  pub closed : Bool
  pub cancelled : Bool
  pub rejected : ℕ
  pub running : List ℕ
  pub exited : ℕ

-- What `Submit` returns; a send on a closed channel would panic.
pub data Submitted : Type 0 where
  accepted queue_full closed_err send_panic : Submitted

-- How a job ends: `run` recovers a panic.
pub data JobEnd : Type 0 where
  returned panicked : JobEnd

unfoldable pub new : Config → Pool
new cfg = record {
  workers = n;
  capacity = n + or_default cfg.queue_depth 16;
  jobs = [];
  jobs_closed = false;
  closed = false;
  cancelled = false;
  rejected = 0;
  running = [];
  exited = 0;
}
  where
    n : ℕ
    n = or_default cfg.workers 1

-- The non-blocking send on `p.jobs`; `rejectedTotal` is an int64.
unfoldable pub send : Pool → ℕ → Pool × Submitted
send p job =
    if p.jobs_closed
    then (p, send_panic)
    else if ltb (length p.jobs) p.capacity
    then (record p { jobs = p.jobs ++ job ∷ [] }, accepted)
    else (record p { rejected = (p.rejected + 1) % 2 ^ 64 }, queue_full)

unfoldable pub submit : Pool → ℕ → Pool × Submitted
unfolding send
submit p job = if p.closed then (p, closed_err) else send p job

pub record Stats : Type 0 where
  pub depth : ℕ
  pub rejected : ℕ

unfoldable pub stats : Pool → Stats
stats p = record { depth = length p.jobs; rejected = p.rejected }

-- `closeOnce.Do` of `Close`: the second and later calls do nothing.
unfoldable pub close_start : Pool → Pool
close_start p = if p.closed then p else record p { closed = true; jobs_closed = true }

-- The select of `Close`: `p.wg.Wait()` has returned, or the caller's context is done.
pub data Wait : Type 0 where
  drained ctx_done : Wait

pub data Closed : Type 0 where
  ok ctx_err : Closed

unfoldable pub close_wait : Pool → Wait → Option (Pool × Closed)
close_wait p drained = if p.exited == p.workers then some (p, ok) else none
close_wait p ctx_done = some (record p { cancelled = true }, ctx_err)

-- A worker that waits at `range p.jobs` takes the oldest job.
take_job : Pool → List ℕ → Option Pool
take_job p [] = none
take_job p (job ∷ rest) =
    if ltb (length p.running + p.exited) p.workers
    then some (record p { jobs = rest; running = p.running ++ job ∷ [] })
    else none

unfoldable pub receive : Pool → Option Pool
unfolding take_job
receive p = take_job p p.jobs

-- The list without the entry at an index, if there is one.
abbrev pub erase_at : ℕ → List ℕ → Option (List ℕ)
erase_at i [] = none
erase_at zero (x ∷ xs) = some xs
erase_at (suc i) (x ∷ xs) = elim (erase_at i xs) [ none ↦ none | some r ↦ some (x ∷ r) ]

-- A job ends and its worker goes on with the loop, also after a panic.
unfoldable pub finish : Pool → ℕ → JobEnd → Option Pool
finish p i e = elim (erase_at i p.running) [
  | none ↦ none
  | some rest ↦ elim e [
    | returned ↦ some (record p { running = rest })
    | panicked ↦ some (record p { running = rest })
  ]
]

is_nil : List ℕ → Bool
is_nil [] = true
is_nil (x ∷ xs) = false

-- The channel is closed and empty: the loop of a waiting worker ends.
unfoldable pub exit : Pool → Option Pool
unfolding is_nil
exit p =
    if p.jobs_closed && is_nil p.jobs && ltb (length p.running + p.exited) p.workers
    then some (record p { exited = p.exited + 1 })
    else none

-- One step of anybody; `none` if the step cannot be taken.
pub data Event : Type 0 where
  submits : ℕ → Event
  receives : Event
  finishes : ℕ → JobEnd → Event
  exits : Event
  closes : Event
  waits : Wait → Event

unfoldable pub step : Pool → Event → Option Pool
unfolding receive finish exit
step p (submits job) = some (submit p job).0
step p receives = receive p
step p (finishes i e) = finish p i e
step p exits = exit p
step p closes = some (close_start p)
step p (waits w) = elim (close_wait p w) [ none ↦ none | some (q, r) ↦ some q ]

unfoldable pub run : Pool → List Event → Option Pool
run p [] = some p
run p (e ∷ es) = elim (step p e) [ none ↦ none | some q ↦ run q es ]
