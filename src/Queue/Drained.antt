-- ===== src/Queue/Drained.antt =====
-- pkg/utils/queue/queue.go: workers that call `getNextItem` again and again come to every due item.
use clusterrouter.Base.{
  ℕ, zero, suc, ◌≤◌, String, ◌≡◌, refl, ap, ite, insert, delete, some, List, [], ◌∷◌, ◌⊎◌, inl, inr,
  arith, text_dec, ltb, length, false, if_false, some_cancel, ◌∙◌,
}
use clusterrouter.Queue.Items.{QueueItem, find}
use clusterrouter.Queue.Order.{Ordered, NotBefore-find}
use clusterrouter.Queue.Ops.{
  RateLimiter, Queue, Round, wait_for_item, sleep_for, got, take_front, next_round,
}
use clusterrouter.Queue.View.{waiting, view, Shape}
use clusterrouter.Queue.Take.{waiting_found}

abbrev pub IsAmong : QueueItem → List QueueItem → Type 0
IsAmong x [] = ⊥
IsAmong x (y ∷ items) = (y ≡ x) ⊎ IsAmong x items

head_due :
    (k : String) (x qi : QueueItem) (rest : List QueueItem) (d : Dec (qi.key ≡ k))
    → Ordered (qi ∷ rest)
    → ite d (some qi) (find k rest) ≡ some x
    → qi.planned_to_start_work_at ≤ x.planned_to_start_work_at
head_due k x qi rest (yes p) o g =
    let same : qi ≡ x = some_cancel g in
    let times = ap (λ y. y.planned_to_start_work_at) same in omega (arith, times)
head_due k x qi rest (no p) o g = NotBefore-find qi k rest x o.0 g

here_or_later :
    (k : String) (x qi : QueueItem) (rest later : List QueueItem) (d : Dec (qi.key ≡ k))
    → ite d (some qi) (find k rest) ≡ some x
    → (find k rest ≡ some x → IsAmong x later)
    → IsAmong x (qi ∷ later)
here_or_later k x qi rest later (yes p) g h = inl (some_cancel g)
here_or_later k x qi rest later (no p) g h = inr (h g)

not_early : (clock t : ℕ) → t ≤ clock → ltb clock t ≡ false
not_early clock t h = ground arith

module _ {L : RateLimiter} where
  unfoldable pub collect : (Queue L → List QueueItem) → Round × Queue L → List QueueItem
  collect f (wait_for_item, q) = []
  collect f (sleep_for t, q) = []
  collect f (got x, q) = x ∷ f q

  -- The items that calls of `getNextItem` take one after the other, until one has to wait.
  unfoldable pub rounds : ℕ → Queue L → List QueueItem
  unfolding collect next_round
  rounds zero q = []
  rounds (suc n) q = collect (rounds n) (next_round q)

  -- The queue when its first item has been taken.
  after_front : Queue L → QueueItem → List QueueItem → Queue L
  after_front q qi rest = record q {
    items_being_processed = insert qi.key qi q.items_being_processed;
    items = rest;
    items_in_queue = delete qi.key q.items_in_queue;
  }

  round-due :
      (n : ℕ) (q : Queue L) (qi : QueueItem) (rest : List QueueItem)
      → q.items ≡ qi ∷ rest
      → ltb q.clock qi.planned_to_start_work_at ≡ false
      → rounds (suc n) q ≡ qi ∷ rounds n (after_front q qi rest)
  unfolding rounds collect next_round take_front after_front
  round-due n q qi rest e due =
      ap (λ l. collect (rounds n) (take_front q l)) e
      ∙ ap (collect (rounds n))
          (if_false (ltb q.clock qi.planned_to_start_work_at) (_, q) (got qi, _) due)

  found-IsAmong :
      (k : String) (x : QueueItem) (l : List QueueItem) (q : Queue L)
      → q.items ≡ l
      → Ordered l
      → find k l ≡ some x
      → x.planned_to_start_work_at ≤ q.clock
      → IsAmong x (rounds (length l) q)
  unfolding find after_front
  found-IsAmong k x [] q e o f due = cc
  found-IsAmong k x (qi ∷ rest) q e o f due =
      let d = text_dec qi.key k in
      let sooner = head_due k x qi rest d o f in
      let q' = after_front q qi rest in
      rw
        (round-due (length rest) q qi rest e
          (not_early q.clock qi.planned_to_start_work_at (omega arith)))
        (here_or_later k x qi rest (rounds (length rest) q') d f
          (λ g. found-IsAmong k x rest q' refl o.1 g due))

  -- In a well-formed queue every waiting item is taken once its time has come: calls of
  -- `getNextItem` then come to it after as many items at most as wait, without one of the calls
  -- having to wait.
  pub rounds-IsAmong :
      (q : Queue L)
      → Shape q
      → (k : String) (x : QueueItem) (t : ℕ) → view q k ≡ waiting x
      → x.planned_to_start_work_at ≤ t
      → IsAmong x (rounds (length q.items) (record q { clock = t }))
  rounds-IsAmong q s k x t w due =
      found-IsAmong k x q.items (record q { clock = t }) refl s.ordered (waiting_found q k x w) due
