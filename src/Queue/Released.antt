-- ===== src/Queue/Released.antt =====
-- pkg/utils/queue/queue.go: an item that is no longer being processed, and writes to items.
use clusterrouter.Base.{
  ℕ, ◌≤◌, String, ◌≡◌, none, some, arith, ◌∙◌, sym, lookup, delete, lookup-delete,
}
use clusterrouter.Queue.Items.{QueueItem, find, modify}
use clusterrouter.Queue.Order.{modify-Ordered}
use clusterrouter.Queue.Counts.{
  count-modify, length-modify, find-count, find-modify, count_key-delete, count_key-lookup,
}
use clusterrouter.Queue.Ops.{RateLimiter, Queue}
use clusterrouter.Queue.View.{Entry, idle, waiting, working, view, Shape, Moves}
use clusterrouter.Queue.Ops.{modify_item}

module _ {L : RateLimiter} where
  pub trans-Moves :
      (q q1 q2 : Queue L) (k : String) (e f : Entry)
      → Moves q k e q1
      → Moves q1 k f q2
      → Moves q k f q2
  trans-Moves q q1 q2 k e f m n = record {
    shape = n.shape;
    at_key = n.at_key;
    elsewhere = λ j ne. n.elsewhere j ne ∙ m.elsewhere j ne;
    clock_grows = omega (arith, m.clock_grows, n.clock_grows);
  }

  -- The worker's item leaves the map; the limiter and the clock may have moved.
  pub released-Moves :
      (q : Queue L) (s : Shape q) (k : String) (qi : QueueItem) (limiter : L.State) (now : ℕ)
      → view q k ≡ working qi
      → q.clock ≤ now
      → Moves q k idle (record q {
        items_being_processed = delete k q.items_being_processed;
        ratelimiter = limiter;
        clock = now;
      })
  unfolding view
  released-Moves q s k qi limiter now h later =
      let w : lookup k q.items_being_processed ≡ some qi = ground arith in
      let absent : find k q.items ≡ none =
        find-count k q.items
          (omega (arith, s.once k, count_key-lookup k q.items_being_processed qi w)) in
      record {
        shape = record {
          ordered = s.ordered;
          agree = s.agree;
          once = λ j. ground (arith, s.once j, count_key-delete k j q.items_being_processed);
          sizes = s.sizes;
        };
        at_key = ground (arith, absent, lookup-delete k k q.items_being_processed);
        elsewhere = λ j ne. ground (arith, lookup-delete k j q.items_being_processed);
        clock_grows = later;
      }

  pub modified-Moves :
      (q : Queue L) (s : Shape q) (k : String) (qi : QueueItem) (f : QueueItem → QueueItem)
      → ((x : QueueItem) → (f x).key ≡ x.key)
      → ((x : QueueItem) → (f x).planned_to_start_work_at ≡ x.planned_to_start_work_at)
      → lookup k q.items_being_processed ≡ none
      → find k q.items ≡ some qi
      → Moves q k (waiting (f qi)) (record q { items = modify k f q.items })
  unfolding view
  modified-Moves q s k qi f keyed timed free found = record {
    shape = record {
      ordered = modify-Ordered k f q.items timed s.ordered;
      agree = λ j. s.agree j ∙ sym (count-modify k j f q.items keyed);
      once = λ j. omega (arith, s.once j, count-modify k j f q.items keyed);
      sizes = s.sizes ∙ sym (length-modify k f q.items);
    };
    at_key = ground (arith, free, found, find-modify k k f q.items keyed);
    elsewhere = λ j ne. ground (arith, find-modify k j f q.items keyed);
    clock_grows = omega arith;
  }

  pub waiting_lookups :
      (q : Queue L) (k : String) (qi : QueueItem)
      → view q k ≡ waiting qi
      → (lookup k q.items_being_processed ≡ none) × (find k q.items ≡ some qi)
  unfolding view
  waiting_lookups q k qi h = ground arith

  -- A write to a waiting item that keeps its key and its time.
  pub modify_item-Moves :
      (q : Queue L) (s : Shape q) (k : String) (qi : QueueItem) (f : QueueItem → QueueItem)
      → ((x : QueueItem) → (f x).key ≡ x.key)
      → ((x : QueueItem) → (f x).planned_to_start_work_at ≡ x.planned_to_start_work_at)
      → view q k ≡ waiting qi
      → Moves q k (waiting (f qi)) (modify_item k f q)
  unfolding modify_item
  modify_item-Moves q s k qi f keyed timed h =
      let (free, found) = waiting_lookups q k qi h in
      rw (free, modify_item) (modified-Moves q s k qi f keyed timed free found)
