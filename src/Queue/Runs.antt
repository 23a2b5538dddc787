-- ===== src/Queue/Runs.antt =====
-- pkg/utils/queue/queue.go: runs of the queue, as sequences of the steps of its users and workers.
use clusterrouter.Base.{ℕ, ◌+◌, String, ◌≡◌, false, true, Option, ℤ, is_positive}
use clusterrouter.Queue.Items.{QueueItem}
use clusterrouter.Queue.Ops.{RateLimiter, Queue, Outcome, done, ◌>>=◌, forget_key}
use clusterrouter.Queue.View.{working, view}
use clusterrouter.Queue.Ops.{
  Failure, handle_result, enqueue, enqueue_without_rate_limit,
  enqueue_without_rate_limit_with_delay, next_round, start_run, end_run,
}

-- The steps: time passes; a user's calls; a worker's round, its receive from the channel, and the
-- return of its handler; the start of `Run` with a number of workers, and its end.
pub data Op : Type 0 where
  passes : ℕ → Op
  enqueues enqueues_unlimited : String → Op
  enqueues_delayed : String → ℤ → Op
  forgets : String → Op
  takes wakes : Op
  returns : String → Option Failure → ℕ → Op
  runs : ℤ → Op
  stops : Op

module _ {L : RateLimiter} where
  unfoldable pub perform : Queue L → Op → Outcome (Queue L)
  perform q (passes t) = done (record q { clock = q.clock + t })
  perform q (enqueues k) = enqueue q k
  perform q (enqueues_unlimited k) = enqueue_without_rate_limit q k
  perform q (enqueues_delayed k d) = enqueue_without_rate_limit_with_delay q k d
  perform q (forgets k) = done (forget_key q k)
  perform q takes = done (next_round q).1
  perform q wakes = done (record q { wakeup = false })
  perform q (returns k err lapse) = handle_result q k err lapse >>= λ r. done r.0
  perform q (runs workers) = start_run q workers
  perform q stops = done (end_run q)

  -- A handler returns for a key that a worker has taken; `Run` is called with workers and while it
  -- does not run.
  abbrev pub Legal : Queue L → Op → Type 0
  Legal q (returns k err lapse) = (qi : QueueItem) × (view q k ≡ working qi)
  Legal q (runs workers) = (is_positive workers ≡ true) × (q.running ≡ false)
  Legal q _ = Unit

  pub data Reach (q0 : Queue L) : Queue L → Type 0 where
    start : Reach q0 q0
    later :
        {q q' : Queue L} (op : Op) → Reach q0 q → Legal q op → perform q op ≡ done q' → Reach q0 q'
