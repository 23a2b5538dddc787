-- ===== src/Queue/Conclude.antt =====
-- pkg/utils/queue/queue.go: `handleQueueItemObject` once the handler has returned, against what
-- it does to the entry of the worker's key.
use clusterrouter.Base.{
  ℕ, ◌+◌, String, ◌≡◌, refl, subst, Bool, true, false, Option, none, some, arith, ltb,
  if◌then◌else◌, inl, inr, Bool-cases, lookup, delete, ℤ, pos, is_positive, sub_ℕ, ◌==◌,
}
use clusterrouter.Queue.Items.{QueueItem}
use clusterrouter.Queue.Ops.{RateLimiter, Queue, Outcome, done, panicked, ◌>>=◌, insert_key}
use clusterrouter.Queue.View.{Entry, idle, waiting, working, view, Shape, Moves}
use clusterrouter.Queue.Refine.{inserted, fresh_entry, Matches, insert_key-Matches}
use clusterrouter.Queue.Ops.{
  Failure, max_retries, max_retries_reached, modify_item, settle, requeue, conclude, handle_result,
}
use clusterrouter.Queue.Concluded.{requeued, write_fresh, settled, unforgotten, concluded}
use clusterrouter.Queue.Released.{trans-Moves, released-Moves, modify_item-Moves}

-- What `insert` makes of a key that has no entry.
abbrev IsFresh : Outcome Entry → Type 0
IsFresh (done (waiting qi)) = Unit
IsFresh panicked = Unit
IsFresh _ = ⊥

fresh_entry-IsFresh :
    (k : String) (now : ℕ) (l : ℤ) (rl : Bool) (d : ℤ) → IsFresh (fresh_entry k now l rl d)
fresh_entry-IsFresh k now l true d = elim (Bool-cases (is_positive d)) [
  | inl p ↦ rw (p, if◌then◌else◌) tt
  | inr p ↦ rw (p, if◌then◌else◌) tt
]
fresh_entry-IsFresh k now l false d = tt

module _ {L : RateLimiter} where
  abbrev pub Concludes :
      Queue L
      → String
      → Outcome (Queue L × Option Failure)
      → Outcome Entry × Option Failure
      → Type 0
  Concludes q k (done (q', err)) (done e, err') = Moves q k e q' × (err ≡ err')
  Concludes q k panicked (panicked, err') = Unit
  Concludes q k _ _ = ⊥

  write_fresh-Concludes :
      (q r : Queue L) (k : String) (f : QueueItem → QueueItem) (err : Option Failure)
      → ((x : QueueItem) → (f x).key ≡ x.key)
      → ((x : QueueItem) → (f x).planned_to_start_work_at ≡ x.planned_to_start_work_at)
      → Moves q k idle r
      → (o : Outcome (Queue L)) (e : Outcome Entry) → IsFresh e
      → Matches r k o e
      → Concludes q k (o >>= λ q'. done (modify_item k f q', err)) (write_fresh f e, err)
  write_fresh-Concludes q r k f err keyed timed m (done q') (done (waiting x)) i n = (
    trans-Moves q q' _ k (waiting x) (waiting (f x)) (trans-Moves q r q' k idle (waiting x) m n)
        (modify_item-Moves q' n.shape k x f keyed timed n.at_key),
    refl,
  )
  write_fresh-Concludes q r k f err keyed timed m panicked panicked i n = tt
  write_fresh-Concludes q r k f err keyed timed m (done q') panicked i n = n
  write_fresh-Concludes q r k f err keyed timed m panicked (done e) i n = absurd n
  write_fresh-Concludes q r k f err keyed timed m (done q') (done idle) i n = absurd i
  write_fresh-Concludes q r k f err keyed timed m (done q') (done (working x)) i n = absurd i

  reinserted-Concludes :
      (q r : Queue L) (k : String) (f : QueueItem → QueueItem) (err : Option Failure)
      → ((x : QueueItem) → (f x).key ≡ x.key)
      → ((x : QueueItem) → (f x).planned_to_start_work_at ≡ x.planned_to_start_work_at)
      → Moves q k idle r
      → (rl : Bool) (d : ℤ)
      → Concludes q k
          (insert_key r k rl d >>= λ q'. done (modify_item k f q', err))
          (write_fresh f (fresh_entry k r.clock (L.when r.ratelimiter k).0 rl d), err)
  reinserted-Concludes q r k f err keyed timed m rl d =
      write_fresh-Concludes q r k f err keyed timed m (insert_key r k rl d)
        (fresh_entry k r.clock (L.when r.ratelimiter k).0 rl d)
        (fresh_entry-IsFresh k r.clock (L.when r.ratelimiter k).0 rl d)
        (subst
          (λ e.
            Matches r k (insert_key r k rl d)
              (inserted k r.clock (L.when r.ratelimiter k).0 rl d e))
          m.at_key (insert_key-Matches r m.shape k rl d))

  settle-Concludes :
      (q : Queue L) (s : Shape q) (qi : QueueItem) (err : Option Failure) (lapse : ℕ)
      → view q qi.key ≡ working qi
      → Concludes q qi.key
          (settle
            (record q { items_being_processed = delete qi.key q.items_being_processed })
            qi
            err
            lapse)
          (settled qi.key q.clock lapse (L.when (L.forget q.ratelimiter qi.key) qi.key).0 qi, err)
  unfolding settle
  settle-Concludes q s qi err lapse h =
      let limiter = L.forget q.ratelimiter qi.key in
      elim (Bool-cases (qi.redirtied_at == 0)) [
        | inl clean ↦
            rw (clean, if◌then◌else◌)
              (released-Moves q s qi.key qi limiter q.clock h (omega arith), refl)
        | inr dirty ↦
            rw (dirty, if◌then◌else◌)
              (reinserted-Concludes q
                (record q {
                  items_being_processed = delete qi.key q.items_being_processed;
                  ratelimiter = limiter;
                  clock = q.clock + lapse;
                })
                qi.key (λ n. record n { added_via_redirty = true }) err (λ x. refl) (λ x. refl)
                (released-Moves q s qi.key qi limiter (q.clock + lapse) h (omega arith))
                qi.redirtied_with_ratelimit (sub_ℕ qi.redirtied_at q.clock))
      ]

  requeue-Concludes :
      (q : Queue L) (s : Shape q) (qi : QueueItem)
      → view q qi.key ≡ working qi
      → Concludes q qi.key
          (requeue (record q { items_being_processed = delete qi.key q.items_being_processed }) qi)
          (done (requeued qi.key q.clock (L.when q.ratelimiter qi.key).0 qi), none)
  unfolding requeue
  requeue-Concludes q s qi h =
      reinserted-Concludes q
        (record q { items_being_processed = delete qi.key q.items_being_processed }) qi.key
        (λ n. record n { requeues = qi.requeues + 1; originally_added = qi.originally_added }) none
        (λ x. refl) (λ x. refl) (released-Moves q s qi.key qi q.ratelimiter q.clock h (omega arith))
        true (pos 0)

  conclude-Concludes :
      (q : Queue L) (s : Shape q) (qi : QueueItem) (err : Option Failure) (lapse : ℕ)
      → view q qi.key ≡ working qi
      → Concludes q qi.key
          (conclude
            (record q { items_being_processed = delete qi.key q.items_being_processed })
            qi
            err
            lapse)
          (unforgotten L q.ratelimiter qi.key q.clock lapse qi err)
  unfolding conclude
  conclude-Concludes q s qi none lapse h = settle-Concludes q s qi none lapse h
  conclude-Concludes q s qi (some e) lapse h =
      elim (Bool-cases (ltb (qi.requeues + 1) max_retries)) [
        | inl again ↦ rw (again, if◌then◌else◌) (requeue-Concludes q s qi h)
        | inr over ↦
            rw (over, if◌then◌else◌)
              (settle-Concludes q s qi (some (max_retries_reached qi.key e)) lapse h)
      ]

  worker_lookup :
      (q : Queue L) (k : String) (qi : QueueItem)
      → view q k ≡ working qi
      → lookup k q.items_being_processed ≡ some qi
  unfolding view
  worker_lookup q k qi h = ground arith

  own_key-Concludes :
      (q : Queue L) (s : Shape q) (qi : QueueItem) (err : Option Failure) (lapse : ℕ)
      → view q qi.key ≡ working qi
      → Concludes q qi.key
          (handle_result q qi.key err lapse)
          (concluded L q.ratelimiter qi.key q.clock lapse qi err)
  unfolding handle_result
  own_key-Concludes q s qi err lapse h =
      let w = worker_lookup q qi.key qi h in
      elim (Bool-cases qi.forget) [
        | inl f ↦
            rw (w, handle_result)
              (simp f (
                released-Moves q s qi.key qi (L.forget q.ratelimiter qi.key) q.clock h
                    (omega arith),
                refl,
              ))
        | inr f ↦ rw (w, handle_result) (simp f (conclude-Concludes q s qi err lapse h))
      ]

  -- Once the handler has returned, its key has the specified entry and no other key is touched:
  -- a forgotten key is dropped; after an error the key is put back behind the rate limiter, with
  -- one more requeue, while that is below the limit of retries; and otherwise it is dropped, or
  -- inserted again if it was marked dirty meanwhile. The error returned is the specified one too,
  -- and it panics exactly where that is specified.
  pub handle_result-Concludes :
      (q : Queue L) (s : Shape q) (k : String) (qi : QueueItem) (err : Option Failure) (lapse : ℕ)
      → view q k ≡ working qi
      → qi.key ≡ k
      → Concludes q k
          (handle_result q k err lapse)
          (concluded L q.ratelimiter k q.clock lapse qi err)
  handle_result-Concludes q s k qi err lapse h e =
      subst
        (λ j.
          view q j ≡ working qi
          → Concludes q j (handle_result q j err lapse)
              (concluded L q.ratelimiter j q.clock lapse qi err))
        e (own_key-Concludes q s qi err lapse) h
