-- ===== src/Queue/Refine.antt =====
-- pkg/utils/queue/queue.go: `insert` and `Forget`, against what they do to the entry of one key.
use clusterrouter.Base.{
  ℕ, String, ◌≡◌, refl, subst, Bool, true, false, none, some, arith, ltb, if◌then◌else◌, inl, inr,
  Option-cases, Bool-cases, lookup, insert, ◌==◌, ◌||◌, ℤ, shift, is_positive,
}
use clusterrouter.Queue.Items.{QueueItem, remove, find}
use clusterrouter.Queue.Order.{place, adjust_position-place}
use clusterrouter.Queue.Counts.{
  count-find, find-count, find-key, lookup-count_key, count_key-lookup,
}
use clusterrouter.Queue.Ops.{
  RateLimiter, Queue, Outcome, done, panicked, ◌>>=◌, redirty, new_item, add_limited, insert_new,
  insert_waiting, insert_key, forget_key,
}
use clusterrouter.Queue.View.{
  Entry, idle, waiting, working, view, Shape, Moves, write_working-Moves, replace_item-Moves,
  drop_item-Moves, add_item-Moves,
}

-- The time of a waiting item is only ever brought forward.
abbrev pub sooner : QueueItem → ℕ → QueueItem
sooner qi when =
    if ltb qi.planned_to_start_work_at when
    then qi
    else record qi { planned_to_start_work_at = when }

-- A new entry: with a rate limit the limiter's delay `limited` counts, and no other may be asked.
abbrev pub fresh_entry : String → ℕ → ℤ → Bool → ℤ → Outcome Entry
fresh_entry k now limited true delay =
    if is_positive delay
    then panicked
    else done (
        waiting (record (new_item k now) {
          planned_to_start_work_at = shift now limited;
          delayed_via_rate_limit = some limited;
        }))
fresh_entry k now limited false delay =
    done (waiting (record (new_item k now) { planned_to_start_work_at = shift now delay }))

-- The key of an item being processed is inserted again: the item keeps the earliest of the times
-- that were asked for since it was taken, with the rate limit that was asked for then, and is no
-- longer to be forgotten. The time 0 stands for none.
abbrev pub asked_sooner : QueueItem → ℕ → Bool
asked_sooner item when = item.redirtied_at == 0 || ltb when item.redirtied_at

abbrev pub dirtied : QueueItem → ℕ → Bool → QueueItem
dirtied item when ratelimit = record item {
  redirtied_at = if asked_sooner item when then when else item.redirtied_at;
  redirtied_with_ratelimit =
      if asked_sooner item when then ratelimit else item.redirtied_with_ratelimit;
  forget = false;
}

redirty-dirtied :
    (item : QueueItem) (when : ℕ) (ratelimit : Bool)
    → redirty item when ratelimit ≡ dirtied item when ratelimit
unfolding redirty
redirty-dirtied item when ratelimit = elim (Bool-cases (item.redirtied_at == 0)) [
  | inl e ↦ rw (e, if◌then◌else◌) refl
  | inr e ↦ elim (Bool-cases (ltb when item.redirtied_at)) [
    | inl f ↦ rw (e, f, if◌then◌else◌) refl
    | inr f ↦ rw (e, f, if◌then◌else◌) refl
  ]
]

-- What inserting a key means for its entry.
abbrev pub inserted : String → ℕ → ℤ → Bool → ℤ → Entry → Outcome Entry
inserted k now limited ratelimit delay (working item) =
    done (working (dirtied item (shift now delay) ratelimit))
inserted k now limited ratelimit delay (waiting qi) = done (waiting (sooner qi (shift now delay)))
inserted k now limited ratelimit delay idle = fresh_entry k now limited ratelimit delay

-- What forgetting a key means for its entry.
abbrev pub forgotten : Entry → Entry
forgotten (working item) = working (record item { forget = true })
forgotten (waiting qi) = idle
forgotten idle = idle

module _ {L : RateLimiter} where
  -- A step of the queue does to one key what is specified, or panics where that is specified.
  abbrev pub Matches : Queue L → String → Outcome (Queue L) → Outcome Entry → Type 0
  Matches q k (done q') (done e) = Moves q k e q'
  Matches q k panicked panicked = Unit
  Matches q k _ _ = ⊥

  stay-Moves : (q : Queue L) → Shape q → (k : String) → Moves q k (view q k) q
  stay-Moves q s k = record {
    shape = s;
    at_key = refl;
    elsewhere = λ j ne. refl;
    clock_grows = omega arith;
  }

  woken-Moves :
      (q q' : Queue L) (k : String) (e : Entry)
      → Moves q k e q'
      → Moves q k e (record q' { wakeup = true })
  unfolding view
  woken-Moves q q' k e m = record {
    shape = record {
      ordered = m.shape.ordered;
      agree = m.shape.agree;
      once = m.shape.once;
      sizes = m.shape.sizes;
    };
    at_key = m.at_key;
    elsewhere = m.elsewhere;
    clock_grows = m.clock_grows;
  }

  woken-Matches :
      (q : Queue L) (k : String) (r : Outcome (Queue L)) (o : Outcome Entry)
      → Matches q k r o
      → Matches q k (r >>= λ q'. done (record q' { wakeup = true })) o
  woken-Matches q k (done q') (done e) m = woken-Moves q q' k e m
  woken-Matches q k panicked panicked m = tt
  woken-Matches q k (done q') panicked m = m
  woken-Matches q k panicked (done e) m = m

  add_limited-Moves :
      (q : Queue L) (s : Shape q) (k : String) (l : ℤ × L.State)
      → view q k ≡ idle
      → Moves q k
          (waiting (record (new_item k q.clock) {
            planned_to_start_work_at = shift q.clock l.0;
            delayed_via_rate_limit = some l.0;
          }))
          (add_limited q k l)
  unfolding view add_limited new_item
  add_limited-Moves q s k l h =
      let q2 : Queue L = record q { ratelimiter = l.1 } in
      let s2 : Shape q2 = record {
        ordered = s.ordered;
        agree = s.agree;
        once = s.once;
        sizes = s.sizes;
      } in
      let m =
        add_item-Moves q2 s2
          (record (new_item k q.clock) {
            planned_to_start_work_at = shift q.clock l.0;
            delayed_via_rate_limit = some l.0;
          })
          h in
      record {
        shape = m.shape;
        at_key = m.at_key;
        elsewhere = m.elsewhere;
        clock_grows = m.clock_grows;
      }

  insert_new-Matches :
      (q : Queue L) (s : Shape q) (k : String) (rl : Bool) (d : ℤ)
      → view q k ≡ idle
      → Matches q k (insert_new q k rl d) (fresh_entry k q.clock (L.when q.ratelimiter k).0 rl d)
  unfolding insert_new new_item
  insert_new-Matches q s k true d h = elim (Bool-cases (is_positive d)) [
    | inl p ↦ rw (p, if◌then◌else◌) tt
    | inr p ↦ rw (p, if◌then◌else◌) (add_limited-Moves q s k (L.when q.ratelimiter k) h)
  ]
  insert_new-Matches q s k false d h =
      add_item-Moves q s
        (record (new_item k q.clock) { planned_to_start_work_at = shift q.clock d }) h

  -- The map of elements has a key exactly when the list has its item.
  listed :
      (q : Queue L) (s : Shape q) (k : String) (u : Unit {0})
      → lookup k q.items_in_queue ≡ some u
      → lookup k q.items_being_processed ≡ none
      → (qi : QueueItem) × (find k q.items ≡ some qi) × (view q k ≡ waiting qi)
  unfolding view
  listed q s k u e free = elim (Option-cases (find k q.items)) [
    | inl n ↦
        absurd (
          omega (arith, count_key-lookup k q.items_in_queue u e, s.agree k, count-find k q.items n))
    | inr (qi, f) ↦ (qi, f, rw (free, f))
  ]

  unlisted :
      (q : Queue L) (s : Shape q) (k : String)
      → lookup k q.items_in_queue ≡ none
      → lookup k q.items_being_processed ≡ none
      → view q k ≡ idle
  unfolding view
  unlisted q s k e free =
      let f : find k q.items ≡ none =
        find-count k q.items (omega (arith, lookup-count_key k q.items_in_queue e, s.agree k)) in
      rw (free, f)

  adjusted-Moves :
      (q : Queue L) (s : Shape q) (k : String) (when : ℕ) (qi : QueueItem)
      → find k q.items ≡ some qi
      → view q k ≡ waiting qi
      → Moves q k (waiting (sooner qi when)) (record q {
        items =
            if ltb qi.planned_to_start_work_at when
            then q.items
            else place (record qi { planned_to_start_work_at = when }) (remove k q.items);
      })
  adjusted-Moves q s k when qi f h = elim (Bool-cases (ltb qi.planned_to_start_work_at when)) [
    | inl p ↦ rw p (subst (λ e. Moves q k e q) h (stay-Moves q s k))
    | inr p ↦ rw p (
        replace_item-Moves q s k qi (record qi { planned_to_start_work_at = when })
          (find-key k q.items qi f) h)
  ]

  insert_waiting-Matches :
      (q : Queue L) (s : Shape q) (k : String) (rl : Bool) (d : ℤ)
      → lookup k q.items_being_processed ≡ none
      → Matches q k
          (insert_waiting q k rl d)
          (inserted k q.clock (L.when q.ratelimiter k).0 rl d (view q k))
  unfolding insert_waiting
  insert_waiting-Matches q s k rl d free = elim (Option-cases (lookup k q.items_in_queue)) [
    | inl e ↦
        let h = unlisted q s k e free in rw (e, h, insert_waiting) (insert_new-Matches q s k rl d h)
    | inr (u, e) ↦
        let (qi, f, h) = listed q s k u e free in
        rw (e, h, adjust_position-place k (shift q.clock d) q.items qi s.ordered f, insert_waiting)
          (adjusted-Moves q s k (shift q.clock d) qi f h)
  ]

  working_view :
      (q : Queue L) (k : String) (item : QueueItem)
      → lookup k q.items_being_processed ≡ some item
      → view q k ≡ working item
  unfolding view
  working_view q k item e = rw e

  listed_free :
      (q : Queue L) (s : Shape q) (k : String) (u : Unit {0})
      → lookup k q.items_in_queue ≡ some u
      → lookup k q.items_being_processed ≡ none
  listed_free q s k u e = elim (Option-cases (lookup k q.items_being_processed)) [
    | inl n ↦ n
    | inr (item, w) ↦ absurd (
        omega (
          arith,
          s.agree k,
          s.once k,
          count_key-lookup k q.items_in_queue u e,
          count_key-lookup k q.items_being_processed item w,
        ))
  ]

  -- Inserting a key does to its entry what is specified, and nothing to any other: an item being
  -- processed is marked dirty, with its start time and limit unless an earlier time is marked, and is
  -- no longer to be forgotten; a waiting one is brought forward at most; only a key without an entry
  -- gets a new item. It panics exactly where that is specified.
  pub insert_key-Matches :
      (q : Queue L) (s : Shape q) (k : String) (rl : Bool) (d : ℤ)
      → Matches q k
          (insert_key q k rl d)
          (inserted k q.clock (L.when q.ratelimiter k).0 rl d (view q k))
  unfolding insert_key
  insert_key-Matches q s k rl d = elim (Option-cases (lookup k q.items_being_processed)) [
    | inl free ↦
        rw (free, insert_key)
          (woken-Matches q k (insert_waiting q k rl d)
            (inserted k q.clock (L.when q.ratelimiter k).0 rl d (view q k))
            (insert_waiting-Matches q s k rl d free))
    | inr (item, e) ↦
        rw (e, working_view q k item e, insert_key)
          (woken-Moves q _ k _ (
            subst
              (λ x. Moves q k (working x) (record q {
                items_being_processed =
                    insert k (redirty item (shift q.clock d) rl) q.items_being_processed;
              }))
              (redirty-dirtied item (shift q.clock d) rl)
              (write_working-Moves q s k item (redirty item (shift q.clock d) rl) e)))
  ]

  -- Forgetting a key drops its waiting item, or marks the item being processed, and touches no
  -- other key.
  pub forget_key-Moves :
      (q : Queue L) (s : Shape q) (k : String) → Moves q k (forgotten (view q k)) (forget_key q k)
  unfolding forget_key
  forget_key-Moves q s k = elim (Option-cases (lookup k q.items_in_queue)) [
    | inr (u, e) ↦
        let (qi, f, h) = listed q s k u e (listed_free q s k u e) in
        rw (e, h, forget_key) (drop_item-Moves q s k qi h)
    | inl e ↦ elim (Option-cases (lookup k q.items_being_processed)) [
      | inl free ↦
          let h = unlisted q s k e free in
          rw (e, free, h, forget_key) (subst (λ x. Moves q k x q) h (stay-Moves q s k))
      | inr (item, w) ↦
          rw (e, w, working_view q k item w, forget_key)
            (write_working-Moves q s k item (record item { forget = true }) w)
    ]
  ]
