-- ===== src/Queue/Ops.antt =====
-- pkg/utils/queue/queue.go: `Queue` and its methods. An operation under the lock is one step;
-- `clock` is the reading of the clock at that step.
use clusterrouter.Base.{
  ℕ, ◌+◌, ◌-◌, String, Bool, true, false, Option, none, some, List, [], ◌∷◌, ℤ, pos, sub_ℕ, shift,
  is_positive, Map, lookup, insert, delete, length, if◌then◌else◌, ltb, ◌==◌,
}
use clusterrouter.Queue.Items
use clusterrouter.Queue.Items.{QueueItem, insert_behind, rev_onto, split_from}

-- `workqueue.RateLimiter`, which the repository does not implement.
pub record RateLimiter : Type 1 where
  pub State : Type 0
  pub when : State → String → ℤ × State
  pub forget : State → String → State

abbrev pub max_retries : ℕ
max_retries = 20

pub record Queue (L : RateLimiter) : Type 0 where
  pub clock : ℕ
  pub running : Bool
  pub ratelimiter : L.State
  pub items : List QueueItem
  -- The keys of the map to list elements.
  pub items_in_queue : Map (Unit {0})
  pub items_being_processed : Map QueueItem
  -- Whether a value waits in the channel of capacity one.
  pub wakeup : Bool

-- A method returns, or panics.
pub data Outcome {ℓ} (A : Type ℓ) : Type ℓ where
  done : A → Outcome A
  panicked : Outcome A

infixl 5 ◌>>=◌
abbrev pub ◌>>=◌ {ℓ κ} : {A : Type ℓ} {B : Type κ} → Outcome A → (A → Outcome B) → Outcome B
done a >>= f = f a
panicked >>= f = panicked

pub data Failure : Type 0 where
  handler_error : String → Failure
  max_retries_reached : String → Failure → Failure

-- What the branch for an item being processed does to it.
unfoldable pub redirty : QueueItem → ℕ → Bool → QueueItem
redirty item when ratelimit =
    if item.redirtied_at == 0
    then record item { redirtied_at = when; redirtied_with_ratelimit = ratelimit; forget = false }
    else if ltb when item.redirtied_at
    then record item { redirtied_at = when; redirtied_with_ratelimit = ratelimit; forget = false }
    else record item { forget = false }

-- `adjustPosition`, on the list around the element.
unfoldable pub reposition : List QueueItem → QueueItem → List QueueItem → ℕ → List QueueItem
reposition before qi after when =
    if ltb qi.planned_to_start_work_at when
    then rev_onto before (qi ∷ after)
    else insert_behind (record qi { planned_to_start_work_at = when }) before after

unfoldable pub adjust_position : String → ℕ → List QueueItem → Outcome (List QueueItem)
adjust_position key when items = elim (split_from key [] items) [
  | none ↦ panicked
  | some (before, qi, after) ↦ done (reposition before qi after when)
]

-- A new item as it is before its delay is added.
unfoldable pub new_item : String → ℕ → QueueItem
new_item key now = record {
  key = key;
  planned_to_start_work_at = now;
  redirtied_at = 0;
  redirtied_with_ratelimit = false;
  forget = false;
  requeues = 0;
  originally_added = now;
  added_via_redirty = false;
  delayed_via_rate_limit = none;
}

module _ {L : RateLimiter} where
  unfoldable pub init : L.State → ℕ → Queue L
  init limiter now = record {
    clock = now;
    running = false;
    ratelimiter = limiter;
    items = [];
    items_in_queue = [];
    items_being_processed = [];
    wakeup = false;
  }

  -- The loop from the back, and the entry in the map.
  unfoldable pub add_item : Queue L → QueueItem → Queue L
  add_item q val = record q {
    items = insert_behind val (rev_onto q.items []) [];
    items_in_queue = insert val.key tt q.items_in_queue;
  }

  -- A new item with the delay that the rate limiter gives.
  unfoldable pub add_limited : Queue L → String → ℤ × L.State → Queue L
  add_limited q key (d, limiter) =
      add_item (record q { ratelimiter = limiter })
        (record (new_item key q.clock) {
          planned_to_start_work_at = shift q.clock d;
          delayed_via_rate_limit = some d;
        })

  -- The part of `insert` for a key that the queue does not know.
  unfoldable pub insert_new : Queue L → String → Bool → ℤ → Outcome (Queue L)
  insert_new q key true delay =
      if is_positive delay then panicked else done (add_limited q key (L.when q.ratelimiter key))
  insert_new q key false delay = done (
      add_item q (record (new_item key q.clock) { planned_to_start_work_at = shift q.clock delay }))

  -- The part of `insert` for a key that is not being processed.
  unfoldable pub insert_waiting : Queue L → String → Bool → ℤ → Outcome (Queue L)
  insert_waiting q key ratelimit delay = elim (lookup key q.items_in_queue) [
    | some _ ↦ adjust_position key (shift q.clock delay) q.items >>= λ moved.
        done (record q { items = moved })
    | none ↦ insert_new q key ratelimit delay
  ]

  -- `insert`. The deferred send to `wakeupCh` comes last.
  unfoldable pub insert_key : Queue L → String → Bool → ℤ → Outcome (Queue L)
  insert_key q key ratelimit delay =
      (elim (lookup key q.items_being_processed) [
        | some item ↦ done (record q {
          items_being_processed =
              insert key (redirty item (shift q.clock delay) ratelimit) q.items_being_processed;
        })
        | none ↦ insert_waiting q key ratelimit delay
      ])
      >>= λ q'. done (record q' { wakeup = true })

  unfoldable pub enqueue : Queue L → String → Outcome (Queue L)
  enqueue q key = insert_key q key true (pos 0)

  unfoldable pub enqueue_without_rate_limit : Queue L → String → Outcome (Queue L)
  enqueue_without_rate_limit q key = insert_key q key false (pos 0)

  unfoldable pub enqueue_without_rate_limit_with_delay : Queue L → String → ℤ → Outcome (Queue L)
  enqueue_without_rate_limit_with_delay q key after = insert_key q key false after

  -- `Forget`.
  unfoldable pub forget_key : Queue L → String → Queue L
  forget_key q key = elim (lookup key q.items_in_queue) [
    | some _ ↦ record q {
      items = Items.remove key q.items;
      items_in_queue = delete key q.items_in_queue;
    }
    | none ↦ elim (lookup key q.items_being_processed) [
      | some qi ↦ record q {
        items_being_processed = insert key (record qi { forget = true }) q.items_being_processed;
      }
      | none ↦ q
    ]
  ]

  -- `Len`.
  unfoldable pub len : Queue L → Outcome ℕ
  len q =
      if length q.items == length q.items_in_queue
      then done (length q.items + length q.items_being_processed)
      else panicked

  -- `Empty`.
  unfoldable pub empty : Queue L → Outcome Bool
  empty q = len q >>= λ n. done (n == 0)

module _ {L : RateLimiter} where
  -- `Run` up to the start of the workers, and after their end.
  unfoldable pub start_run : Queue L → ℤ → Outcome (Queue L)
  start_run q workers =
      if is_positive workers
      then (if q.running then panicked else done (record q { running = true }))
      else panicked

  unfoldable pub end_run : Queue L → Queue L
  end_run q = record q { running = false }

-- What one round of the loop of `getNextItem` finds: nothing to do, an item whose time is still to
-- come, with the time to sleep, or an item to process.
pub data Round : Type 0 where
  wait_for_item : Round
  sleep_for : ℕ → Round
  got : QueueItem → Round

module _ {L : RateLimiter} where
  -- The head of the list moves to the items being processed.
  unfoldable pub take_front : Queue L → List QueueItem → Round × Queue L
  take_front q [] = (wait_for_item, q)
  take_front q (qi ∷ rest) =
      if ltb q.clock qi.planned_to_start_work_at
      then (sleep_for (qi.planned_to_start_work_at - q.clock), q)
      else (
        got qi,
        record q {
          items_being_processed = insert qi.key qi q.items_being_processed;
          items = rest;
          items_in_queue = delete qi.key q.items_in_queue;
        },
      )

  -- One round of the loop of `getNextItem`, under the lock.
  unfoldable pub next_round : Queue L → Round × Queue L
  next_round q = take_front q q.items

  -- The write through the pointer that `insert` returned.
  unfoldable pub modify_item : String → (QueueItem → QueueItem) → Queue L → Queue L
  modify_item key f q = elim (lookup key q.items_being_processed) [
    | some qi ↦ record q { items_being_processed = insert key (f qi) q.items_being_processed }
    | none ↦ record q { items = Items.modify key f q.items }
  ]

  -- The end of `handleQueueItemObject` for an item that is not put back after an error.
  -- `lapse` is the time between the two readings of the clock.
  unfoldable pub settle :
      Queue L → QueueItem → Option Failure → ℕ → Outcome (Queue L × Option Failure)
  settle q qi err lapse =
      let forgotten = record q { ratelimiter = L.forget q.ratelimiter qi.key } in
      if qi.redirtied_at == 0
      then done (forgotten, err)
      else (insert_key (record forgotten { clock = q.clock + lapse }) qi.key
            qi.redirtied_with_ratelimit (sub_ℕ qi.redirtied_at q.clock)
          >>= λ q'. done (modify_item qi.key (λ n. record n { added_via_redirty = true }) q', err))

  unfoldable pub requeue : Queue L → QueueItem → Outcome (Queue L × Option Failure)
  requeue q qi = insert_key q qi.key true (pos 0) >>= λ q'. done (
    modify_item qi.key
        (λ n. record n { requeues = qi.requeues + 1; originally_added = qi.originally_added }) q',
    none,
  )

  unfoldable pub conclude :
      Queue L → QueueItem → Option Failure → ℕ → Outcome (Queue L × Option Failure)
  conclude q qi none lapse = settle q qi none lapse
  conclude q qi (some e) lapse =
      if ltb (qi.requeues + 1) max_retries
      then requeue q qi
      else settle q qi (some (max_retries_reached qi.key e)) lapse

  -- `handleQueueItemObject` from the return of the handler on; the worker's item is the entry of
  -- its key among the items being processed.
  unfoldable pub handle_result :
      Queue L → String → Option Failure → ℕ → Outcome (Queue L × Option Failure)
  handle_result q key err lapse = elim (lookup key q.items_being_processed) [
    | none ↦ panicked
    | some qi ↦
        let q' = record q { items_being_processed = delete qi.key q.items_being_processed } in
        if qi.forget
        then done (record q' { ratelimiter = L.forget q.ratelimiter qi.key }, none)
        else conclude q' qi err lapse
  ]
