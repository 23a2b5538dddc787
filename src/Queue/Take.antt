-- ===== src/Queue/Take.antt =====
-- pkg/utils/queue/queue.go: what a round of `getNextItem` finds, and that it is the item to take.
use clusterrouter.Base.{
  ℕ, suc, ◌+◌, ◌≤◌, ◌<◌, String, ◌≡◌, ◌≢◌, refl, subst, ite, none, some, List, [], ◌∷◌, arith, ap,
  text_dec, ltb, if◌then◌else◌, inl, inr, Option-cases, Bool-cases, lookup, insert, delete, length,
  lookup-insert,
}
use clusterrouter.Queue.Items.{QueueItem, find}
use clusterrouter.Queue.Order.{Ordered, NotBefore-find}
use clusterrouter.Queue.Counts.{
  count, count_key-insert, count_key-delete, length-delete, lookup-count_key, count_key-lookup,
}
use clusterrouter.Queue.Ops.{RateLimiter, Queue}
use clusterrouter.Queue.View.{waiting, working, view, Shape, Moves}
use clusterrouter.Queue.Ops.{Round, wait_for_item, sleep_for, got, take_front, next_round}

module _ {L : RateLimiter} where
  -- Every waiting item is planned at the time or later.
  abbrev pub WaitsUntil : Queue L → ℕ → Type 0
  WaitsUntil q t =
      (k : String) (x : QueueItem) → view q k ≡ waiting x → t ≤ x.planned_to_start_work_at

  abbrev pub Finds : Queue L → Round × Queue L → Type 0
  Finds q (wait_for_item, q') = (q' ≡ q) × ((k : String) (x : QueueItem) → view q k ≢ waiting x)
  Finds q (sleep_for n, q') = (q' ≡ q) × (0 < n) × WaitsUntil q (q.clock + n)
  Finds q (got qi, q') =
      (qi.planned_to_start_work_at ≤ q.clock)
      × (view q qi.key ≡ waiting qi)
      × WaitsUntil q qi.planned_to_start_work_at
      × Moves q qi.key (working qi) q'

  pub waiting_found :
      (q : Queue L) (k : String) (x : QueueItem) → view q k ≡ waiting x → find k q.items ≡ some x
  unfolding view
  waiting_found q k x h = ground arith

  head_earliest :
      (q : Queue L) (s : Shape q) (qi : QueueItem) (rest : List QueueItem)
      → q.items ≡ qi ∷ rest
      → WaitsUntil q qi.planned_to_start_work_at
  unfolding find
  head_earliest q s qi rest e k x h =
      let o : Ordered (qi ∷ rest) = subst Ordered e s.ordered in
      let f : find k (qi ∷ rest) ≡ some x =
        subst (λ l. find k l ≡ some x) e (waiting_found q k x h) in
      ground (arith, NotBefore-find qi k rest x o.0)

  head_count :
      (q : Queue L) (qi : QueueItem) (rest : List QueueItem)
      → q.items ≡ qi ∷ rest
      → (j : String) → ite (text_dec qi.key j) 1 0 + count j rest ≡ count j q.items
  unfolding count
  head_count q qi rest e j = rw e

  head_find :
      (q : Queue L) (qi : QueueItem) (rest : List QueueItem)
      → q.items ≡ qi ∷ rest
      → (j : String) → find j q.items ≡ ite (text_dec qi.key j) (some qi) (find j rest)
  unfolding find
  head_find q qi rest e j = rw e

  head_free :
      (q : Queue L) (s : Shape q) (qi : QueueItem) (rest : List QueueItem)
      → q.items ≡ qi ∷ rest
      → lookup qi.key q.items_being_processed ≡ none
  head_free q s qi rest e = elim (Option-cases (lookup qi.key q.items_being_processed)) [
    | inl n ↦ n
    | inr (x, w) ↦ absurd (
        ground (
          arith,
          s.once qi.key,
          head_count q qi rest e qi.key,
          count_key-lookup qi.key q.items_being_processed x,
        ))
  ]

  taken-Moves :
      (q : Queue L) (s : Shape q) (qi : QueueItem) (rest : List QueueItem)
      → q.items ≡ qi ∷ rest
      → Moves q qi.key (working qi) (record q {
        items_being_processed = insert qi.key qi q.items_being_processed;
        items = rest;
        items_in_queue = delete qi.key q.items_in_queue;
      })
  unfolding view
  taken-Moves q s qi rest e =
      let processed = q.items_being_processed in
      let free = head_free q s qi rest e in
      let o : Ordered (qi ∷ rest) = subst Ordered e s.ordered in
      let unworked = lookup-count_key qi.key processed free in
      record {
        shape = record {
          ordered = o.1;
          agree = λ j. ground (
            arith,
            s.agree j,
            s.once j,
            head_count q qi rest e j,
            count_key-delete qi.key j q.items_in_queue,
          );
          once = λ j. ground (
            arith,
            unworked,
            s.once j,
            head_count q qi rest e j,
            count_key-insert qi.key j qi processed,
          );
          sizes =
              let l : length q.items ≡ suc (length rest) = ap length e in
              ground (
                arith,
                s.sizes,
                s.agree qi.key,
                s.once qi.key,
                head_count q qi rest e qi.key,
                length-delete qi.key q.items_in_queue,
              );
        };
        at_key = ground (arith, lookup-insert qi.key qi.key qi processed);
        elsewhere =
            λ j ne. ground (arith, head_find q qi rest e j, lookup-insert qi.key j qi processed);
        clock_grows = omega arith;
      }

  take_front-Finds :
      (q : Queue L) (s : Shape q) (l : List QueueItem) → q.items ≡ l → Finds q (take_front q l)
  unfolding take_front view find
  take_front-Finds q s [] e = (refl, λ k x h. ground (arith, waiting_found q k x h))
  take_front-Finds q s (qi ∷ rest) e =
      let free = head_free q s qi rest e in
      elim (Bool-cases (ltb q.clock qi.planned_to_start_work_at)) [
        | inl early ↦
            rw (early, if◌then◌else◌)
              (refl, ground arith, λ k x h. ground (arith, head_earliest q s qi rest e k x h))
        | inr due ↦
            rw (due, if◌then◌else◌)
              (
                ground arith,
                ground (arith, head_find q qi rest e qi.key),
                head_earliest q s qi rest e,
                taken-Moves q s qi rest e,
              )
      ]

  -- A round of the loop takes an item only at or after its time and only the earliest one, and
  -- then that item, still known under its key, is being processed and no other key is touched.
  -- Otherwise the queue is unchanged: it sleeps no longer than to the time of the earliest item,
  -- and waits for a signal only if no item waits.
  pub next_round-Finds : (q : Queue L) → Shape q → Finds q (next_round q)
  unfolding next_round
  next_round-Finds q s = take_front-Finds q s q.items refl
