-- ===== src/Queue/Tests.antt =====
-- pkg/utils/queue/queue.go: a run of a queue with three keys, and the theorems at its states.
use clusterrouter.Base.{
  ℕ, ◌+◌, ◌≡◌, refl, true, false, none, some, [], ◌∷◌, arith, pos, lookup, insert, delete, text_dec,
  dec_lt,
}
use clusterrouter.Queue.Items.{QueueItem, find, rev_onto, insert_behind}
use clusterrouter.Queue.Ops.{
  RateLimiter, Queue, done, handler_error, redirty, new_item, init, add_item, insert_new,
  insert_waiting, insert_key, enqueue, enqueue_without_rate_limit,
  enqueue_without_rate_limit_with_delay, forget_key, take_front, next_round, got, handle_result,
  add_limited,
}
use clusterrouter.Queue.View.{waiting, working, view, Moves}
use clusterrouter.Queue.Refine.{insert_key-Matches, forget_key-Moves}
use clusterrouter.Queue.Take.{Finds, next_round-Finds}
use clusterrouter.Queue.Conclude.{Concludes, handle_result-Concludes}
use clusterrouter.Queue.Runs.{
  enqueues, enqueues_unlimited, enqueues_delayed, takes, returns, perform, Reach, start, later,
}
use clusterrouter.Queue.Drained.{IsAmong, rounds, rounds-IsAmong}
use clusterrouter.Queue.Safety.{Inv, Goes, init-Inv, Reach-Inv, Reach-Goes}

-- A limiter whose delay grows by five with each call, and which forgets all of it.
abbrev counting : RateLimiter
counting = record { State = ℕ; when = λ s k. (pos (5 + s), s + 5); forget = λ s k. 0 }

abbrev item_a : QueueItem
item_a = record {
  key = "a";
  planned_to_start_work_at = 15;
  redirtied_at = 0;
  redirtied_with_ratelimit = false;
  forget = false;
  requeues = 0;
  originally_added = 10;
  added_via_redirty = false;
  delayed_via_rate_limit = none;
}

abbrev item_b : QueueItem
item_b = record item_a { key = "b"; planned_to_start_work_at = 10 }

abbrev item_c : QueueItem
item_c = record item_a {
  key = "c";
  planned_to_start_work_at = 15;
  delayed_via_rate_limit = some (pos 5);
}

-- The limited key goes before the other one of the same time.
abbrev queued : Queue counting
queued = record {
  clock = 10;
  running = false;
  ratelimiter = 5;
  items = item_b ∷ item_c ∷ item_a ∷ [];
  items_in_queue = ("a", tt) ∷ ("b", tt) ∷ ("c", tt) ∷ [];
  items_being_processed = [];
  wakeup = true;
}

abbrev taken : Queue counting
taken = record queued {
  items = item_c ∷ item_a ∷ [];
  items_in_queue = ("a", tt) ∷ ("c", tt) ∷ [];
  items_being_processed = ("b", item_b) ∷ [];
}

abbrev item_b_dirty : QueueItem
item_b_dirty = record item_b { redirtied_at = 13 }

abbrev dirtied : Queue counting
dirtied = record taken { items_being_processed = ("b", item_b_dirty) ∷ [] }

abbrev delayed_a : Queue counting
delayed_a = record queued { ratelimiter = 0; items = item_a ∷ []; items_in_queue = ("a", tt) ∷ [] }

abbrev unlimited_b : Queue counting
unlimited_b = record delayed_a {
  items = item_b ∷ item_a ∷ [];
  items_in_queue = ("a", tt) ∷ ("b", tt) ∷ [];
}

delayed_a_lem : perform (init {L = counting} 0 10) (enqueues_delayed "a" (pos 5)) ≡ done delayed_a
unfolding init perform enqueue_without_rate_limit_with_delay insert_key insert_waiting insert_new
    add_item new_item lookup insert text_dec insert_behind rev_onto dec_lt
delayed_a_lem = refl

unlimited_b_lem : perform delayed_a (enqueues_unlimited "b") ≡ done unlimited_b
unfolding perform enqueue_without_rate_limit insert_key insert_waiting insert_new add_item new_item
    lookup insert text_dec insert_behind rev_onto dec_lt
unlimited_b_lem = refl

queued_lem : perform unlimited_b (enqueues "c") ≡ done queued
unfolding perform enqueue insert_key insert_waiting insert_new add_limited add_item new_item lookup
    insert text_dec insert_behind rev_onto dec_lt
queued_lem = refl

queued-Reach : Reach (init {L = counting} 0 10) queued
queued-Reach =
    later {q = unlimited_b} {q' = queued} (enqueues "c")
      (later {q = delayed_a} {q' = unlimited_b} (enqueues_unlimited "b")
        (later {q = init {L = counting} 0 10} {q' = delayed_a} (enqueues_delayed "a" (pos 5)) start
          tt delayed_a_lem)
        tt unlimited_b_lem)
      tt queued_lem

taken-Reach : Reach (init {L = counting} 0 10) taken
unfolding perform next_round take_front insert delete text_dec
taken-Reach = later {q = queued} {q' = taken} takes queued-Reach tt refl

dirtied-Reach : Reach (init {L = counting} 0 10) dirtied
unfolding perform enqueue_without_rate_limit_with_delay insert_key lookup insert text_dec redirty
dirtied-Reach = later {q = taken} {q' = dirtied} (enqueues_delayed "b" (pos 3)) taken-Reach tt refl

queued-Inv : Inv queued
queued-Inv = Reach-Inv (init-Inv 0 10) queued-Reach

dirtied-Inv : Inv dirtied
dirtied-Inv = Reach-Inv (init-Inv 0 10) dirtied-Reach

dirtied_working : view dirtied "b" ≡ working item_b_dirty
unfolding view lookup text_dec
dirtied_working = refl

Reach-Goes_example : Inv dirtied × Goes (perform dirtied (returns "b" (some (handler_error "e")) 2))
Reach-Goes_example =
    Reach-Goes {L = counting} 0 10 dirtied dirtied-Reach (returns "b" (some (handler_error "e")) 2)
      (item_b_dirty, dirtied_working)

insert_key-Matches_example : Moves taken "b" (working item_b_dirty) dirtied
unfolding view insert_key lookup insert text_dec redirty
insert_key-Matches_example =
    insert_key-Matches taken (Reach-Inv (init-Inv 0 10) taken-Reach).shape "b" false (pos 3)

forget_key-Moves_example :
    Moves dirtied "b" (working (record item_b_dirty { forget = true })) (forget_key dirtied "b")
unfolding view lookup text_dec
forget_key-Moves_example = forget_key-Moves dirtied dirtied-Inv.shape "b"

handle_result-Concludes_example :
    Concludes dirtied "b" (handle_result dirtied "b" (some (handler_error "e")) 2) (
      done (
          waiting (record (new_item "b" 10) {
            planned_to_start_work_at = 20;
            delayed_via_rate_limit = some (pos 10);
            requeues = 1;
          })),
      none,
    )
unfolding new_item
handle_result-Concludes_example =
    handle_result-Concludes dirtied dirtied-Inv.shape "b" item_b_dirty (some (handler_error "e")) 2
      dirtied_working refl

next_round-Finds_example : Finds queued (got item_b, taken)
unfolding next_round take_front insert delete text_dec
next_round-Finds_example = next_round-Finds queued queued-Inv.shape

rounds-IsAmong_example : IsAmong item_a (rounds 3 (record queued { clock = 15 }))
unfolding view lookup find text_dec
rounds-IsAmong_example = rounds-IsAmong queued queued-Inv.shape "a" item_a 15 refl (omega arith)
