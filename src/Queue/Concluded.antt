-- ===== src/Queue/Concluded.antt =====
-- pkg/utils/queue/queue.go: what the end of an item's processing means for the entry of its key.
use clusterrouter.Base.{
  ℕ, ◌+◌, String, true, Option, none, some, ltb, if◌then◌else◌, ℤ, shift, sub_ℕ, ◌==◌,
}
use clusterrouter.Queue.Items.{QueueItem}
use clusterrouter.Queue.Ops.{RateLimiter, Outcome, done, panicked, new_item}
use clusterrouter.Queue.View.{Entry, idle, waiting, working}
use clusterrouter.Queue.Refine.{fresh_entry}
use clusterrouter.Queue.Ops.{Failure, max_retries, max_retries_reached}

-- The entry of a key that is put back after an error: the item is new but for its history.
abbrev pub requeued : String → ℕ → ℤ → QueueItem → Entry
requeued k now limited qi = waiting (record (new_item k now) {
  planned_to_start_work_at = shift now limited;
  delayed_via_rate_limit = some limited;
  requeues = qi.requeues + 1;
  originally_added = qi.originally_added;
})

abbrev pub write_fresh : (QueueItem → QueueItem) → Outcome Entry → Outcome Entry
write_fresh f (done (waiting qi)) = done (waiting (f qi))
write_fresh f (done idle) = panicked
write_fresh f (done (working qi)) = panicked
write_fresh f panicked = panicked

-- The entry of a key whose item is not put back: none, or one for what came while it was handled.
abbrev pub settled : String → ℕ → ℕ → ℤ → QueueItem → Outcome Entry
settled k now lapse limited qi =
    if qi.redirtied_at == 0
    then done idle
    else write_fresh (λ n. record n { added_via_redirty = true })
        (fresh_entry k (now + lapse) limited qi.redirtied_with_ratelimit
          (sub_ℕ qi.redirtied_at now))

-- The entry and the error that is returned, for an item that was not forgotten meanwhile.
abbrev pub unforgotten :
    (L : RateLimiter)
    → L.State
    → String
    → ℕ
    → ℕ
    → QueueItem
    → Option Failure
    → Outcome Entry × Option Failure
unforgotten L limiter k now lapse qi none =
    (settled k now lapse (L.when (L.forget limiter k) k).0 qi, none)
unforgotten L limiter k now lapse qi (some e) =
    if ltb (qi.requeues + 1) max_retries
    then (done (requeued k now (L.when limiter k).0 qi), none)
    else (settled k now lapse (L.when (L.forget limiter k) k).0 qi, some (max_retries_reached k e))

-- The entry and the error that is returned, when the handler has returned.
abbrev pub concluded :
    (L : RateLimiter)
    → L.State
    → String
    → ℕ
    → ℕ
    → QueueItem
    → Option Failure
    → Outcome Entry × Option Failure
concluded L limiter k now lapse qi err =
    if qi.forget then (done idle, none) else unforgotten L limiter k now lapse qi err
