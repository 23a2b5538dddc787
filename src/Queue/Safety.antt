-- ===== src/Queue/Safety.antt =====
-- pkg/utils/queue/queue.go: the invariant of every run.
use clusterrouter.Base.{
  ℕ, ◌+◌, ◌≤◌, String, ◌≡◌, refl, subst, Bool, true, false, Option, arith, ◌∙◌, sym, text_dec,
  lookup, ℤ, pos, is_positive,
}
use clusterrouter.Queue.Items.{QueueItem, find}
use clusterrouter.Queue.Counts.{count, count_key}
use clusterrouter.Queue.Ops.{
  RateLimiter, Queue, Outcome, done, panicked, ◌>>=◌, insert_key, forget_key,
}
use clusterrouter.Queue.View.{Entry, idle, waiting, working, view, Shape, Moves}
use clusterrouter.Queue.Refine.{forgotten, Matches, insert_key-Matches, forget_key-Moves}
use clusterrouter.Queue.Take.{Finds, next_round-Finds}
use clusterrouter.Queue.Conclude.{Concludes, handle_result-Concludes}
use clusterrouter.Queue.Concluded.{concluded}
use clusterrouter.Queue.Ops.{
  Failure, handle_result, init, enqueue, enqueue_without_rate_limit,
  enqueue_without_rate_limit_with_delay, next_round, Round, wait_for_item, sleep_for, got,
}
use clusterrouter.Queue.Entries.{EntryOk, EntryOk-mono, inserted-EntryOk, Good, concluded-Good}
use clusterrouter.Queue.Ops.{start_run, end_run}
use clusterrouter.Queue.Runs.{
  Op, passes, enqueues, enqueues_unlimited, enqueues_delayed, forgets, takes, wakes, returns, runs,
  stops, perform, Legal, Reach, start, later,
}

forgotten-EntryOk :
    (now : ℕ) (k : String) (e : Entry) → EntryOk now k e → EntryOk now k (forgotten e)
forgotten-EntryOk now k idle o = tt
forgotten-EntryOk now k (waiting qi) o = tt
forgotten-EntryOk now k (working qi) o = o

-- What holds of the queue in every run.
pub record Inv {L : RateLimiter} (q : Queue L) : Type 0 where
  pub shape : Shape q
  pub entries : (k : String) → EntryOk q.clock k (view q k)

module _ {L : RateLimiter} where
  Moves-Inv :
      (q q' : Queue L) (k : String) (e : Entry)
      → Inv q
      → Moves q k e q'
      → EntryOk q'.clock k e
      → Inv q'
  Moves-Inv q q' k e v m o = record {
    shape = m.shape;
    entries = λ j. elim (text_dec k j) [
      | yes same ↦ subst (λ i. EntryOk q'.clock i (view q' i)) same (rw (m.at_key) o)
      | no other ↦
          rw (m.elsewhere j other)
            (EntryOk-mono q.clock q'.clock j (view q j) m.clock_grows (v.entries j))
    ];
  }

  -- A step goes on, to a queue for which the invariant holds.
  abbrev pub Goes : Outcome (Queue L) → Type 0
  Goes o = (q' : Queue L) × (o ≡ done q') × Inv q'

  Matches-Goes :
      (q : Queue L) (k : String) (o : Outcome (Queue L)) (e : Entry)
      → Inv q
      → Matches q k o (done e)
      → EntryOk q.clock k e
      → Goes o
  Matches-Goes q k (done q') e v m o =
      (q', refl, Moves-Inv q q' k e v m (EntryOk-mono q.clock q'.clock k e m.clock_grows o))
  Matches-Goes q k panicked e v m o = absurd m

  insert_key-Goes :
      (q : Queue L) (k : String) (rl : Bool) (d : ℤ)
      → Inv q
      → (rl ≡ true → is_positive d ≡ false)
      → Goes (insert_key q k rl d)
  insert_key-Goes q k rl d v h =
      let l = (L.when q.ratelimiter k).0 in
      let (e, p, o) = inserted-EntryOk k q.clock l rl d (view q k) h (v.entries k) in
      Matches-Goes q k (insert_key q k rl d) e v
        (subst (Matches q k (insert_key q k rl d)) p (insert_key-Matches q v.shape k rl d)) o

  Concludes-Goes :
      (q : Queue L) (k : String) (r : Outcome (Queue L × Option Failure)) (e : Entry)
      (err : Option Failure)
      → Inv q
      → Concludes q k r (done e, err)
      → ((now' : ℕ) → EntryOk now' k e)
      → Goes (r >>= λ x. done x.0)
  Concludes-Goes q k (done (q', err')) e err v m o =
      (q', refl, Moves-Inv q q' k e v m.0 (o q'.clock))
  Concludes-Goes q k panicked e err v m o = absurd m

  -- A change of the clock, the channel or nothing.
  kept-Inv :
      (q : Queue L) (now : ℕ) (w r : Bool)
      → Inv q
      → q.clock ≤ now
      → Inv (record q { clock = now; wakeup = w; running = r })
  unfolding view
  kept-Inv q now w r v h = record {
    shape = record {
      ordered = v.shape.ordered;
      agree = v.shape.agree;
      once = v.shape.once;
      sizes = v.shape.sizes;
    };
    entries = λ k. EntryOk-mono q.clock now k _ h (v.entries k);
  }

  Finds-Inv : (q : Queue L) (r : Round × Queue L) → Inv q → Finds q r → Inv r.1
  Finds-Inv q (wait_for_item, q') v f = rw (f.0) v
  Finds-Inv q (sleep_for n, q') v f = rw (f.0) v
  Finds-Inv q (got qi, q') v f =
      let (due, h, _, m) = f in
      let o : EntryOk q.clock qi.key (waiting qi) =
        subst (EntryOk q.clock qi.key) h (v.entries qi.key) in
      Moves-Inv q q' qi.key (working qi) v m (o.0, λ r. cc (o.1), o.2)

  handle_result-Goes :
      (q : Queue L) (k : String) (qi : QueueItem) (err : Option Failure) (lapse : ℕ)
      → Inv q
      → view q k ≡ working qi
      → Goes (handle_result q k err lapse >>= λ r. done r.0)
  handle_result-Goes q k qi err lapse v h =
      let o : EntryOk q.clock k (working qi) = subst (EntryOk q.clock k) h (v.entries k) in
      go (concluded L q.ratelimiter k q.clock lapse qi err)
        (concluded-Good L q.ratelimiter k q.clock 0 lapse qi err o)
        (handle_result-Concludes q v.shape k qi err lapse h o.0)
    where
      go :
          (c : Outcome Entry × Option Failure)
          → Good 0 k c
          → Concludes q k (handle_result q k err lapse) c
          → Goes (handle_result q k err lapse >>= λ r. done r.0)
      go (c, e') (e, p, ok) m =
          Concludes-Goes q k (handle_result q k err lapse) e e' v
            (subst (λ x. Concludes q k (handle_result q k err lapse) (x, e')) p m)
            (λ now'. EntryOk-mono 0 now' k e (omega arith) ok)

  -- From a queue with the invariant, a legal step goes on, and keeps it: there is no panic, neither
  -- for a delay with a rate limit nor for the lost item of a key. That `Run` panics without a worker,
  -- or on a queue that runs, is left to what is legal.
  pub perform-Goes : (q : Queue L) (op : Op) → Inv q → Legal q op → Goes (perform q op)
  unfolding perform start_run end_run enqueue enqueue_without_rate_limit
      enqueue_without_rate_limit_with_delay
  perform-Goes q (passes t) v l =
      (_, refl, kept-Inv q (q.clock + t) q.wakeup q.running v (omega arith))
  perform-Goes q (enqueues k) v l = insert_key-Goes q k true (pos 0) v (λ _. refl)
  perform-Goes q (enqueues_unlimited k) v l = insert_key-Goes q k false (pos 0) v (λ e. cc)
  perform-Goes q (enqueues_delayed k d) v l = insert_key-Goes q k false d v (λ e. cc)
  perform-Goes q (runs workers) v l =
      (_, rw (l.0, l.1), kept-Inv q q.clock q.wakeup true v (omega arith))
  perform-Goes q stops v l = (_, refl, kept-Inv q q.clock q.wakeup false v (omega arith))
  perform-Goes q (forgets k) v l =
      let m = forget_key-Moves q v.shape k in
      (
        _,
        refl,
        Moves-Inv q (forget_key q k) k (forgotten (view q k)) v m (
            EntryOk-mono q.clock (forget_key q k).clock k (forgotten (view q k)) m.clock_grows
              (forgotten-EntryOk q.clock k (view q k) (v.entries k))),
      )
  perform-Goes q takes v l = (_, refl, Finds-Inv q (next_round q) v (next_round-Finds q v.shape))
  perform-Goes q wakes v l = (_, refl, kept-Inv q q.clock false q.running v (omega arith))
  perform-Goes q (returns k err lapse) v l = handle_result-Goes q k l.0 err lapse v l.1

  pub init-Inv : (limiter : L.State) (now : ℕ) → Inv (init {L = L} limiter now)
  unfolding init view lookup find count count_key
  init-Inv limiter now = record {
    shape = record { ordered = tt; agree = λ k. refl; once = λ k. omega arith; sizes = refl };
    entries = λ k. tt;
  }

  done-injective : (p q : Queue L) → done p ≡ done q → p ≡ q
  done-injective p q e = cc

  pub Reach-Inv : {q0 q : Queue L} → Inv q0 → Reach q0 q → Inv q
  Reach-Inv v start = v
  Reach-Inv v (later {q = q} {q' = q'} op r l e) =
      let (q1, e1, v1) = perform-Goes q op (Reach-Inv v r) l in
      subst Inv (done-injective q1 q' (sym e1 ∙ e)) v1

  -- In every queue that a run from an empty one reaches: the list is in the order of the times and
  -- agrees with both maps, no key has two entries, no item has used up its retries. A next step of
  -- its users or workers goes on without a panic and keeps this so, provided that `Run` is called with
  -- a worker at least and while the queue does not run, and that a handler returns only for a key that
  -- is being processed.
  pub Reach-Goes :
      (limiter : L.State) (now : ℕ) (q : Queue L)
      → Reach (init limiter now) q
      → (op : Op) → Legal q op
      → Inv q × Goes (perform q op)
  Reach-Goes limiter now q r op l =
      let v = Reach-Inv (init-Inv limiter now) r in (v, perform-Goes q op v l)
