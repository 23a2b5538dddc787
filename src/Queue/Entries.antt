-- ===== src/Queue/Entries.antt =====
-- pkg/utils/queue/queue.go: what every entry of the queue satisfies, and that the specified steps
-- keep it.
use clusterrouter.Base.{
  ℕ, ◌+◌, ◌≤◌, ◌<◌, String, ◌≡◌, refl, Bool, true, false, Option, none, some, arith, ◌∙◌, ltb,
  if◌then◌else◌, inl, inr, Bool-cases, ℤ, shift, is_positive, sub_ℕ, ◌==◌,
}
use clusterrouter.Queue.Items.{QueueItem}
use clusterrouter.Queue.Ops.{RateLimiter, Outcome, done, new_item}
use clusterrouter.Queue.View.{Entry, idle, waiting, working}
use clusterrouter.Queue.Refine.{inserted, dirtied, fresh_entry}
use clusterrouter.Queue.Concluded.{settled, write_fresh, unforgotten, concluded}
use clusterrouter.Queue.Ops.{Failure, max_retries}

-- An item is under its own key and below the limit of retries; one that waits is clean; and one
-- that is to be inserted again with a rate limit is due.
abbrev pub EntryOk : ℕ → String → Entry → Type 0
EntryOk now k idle = Unit
EntryOk now k (waiting qi) =
    (qi.key ≡ k) × (qi.redirtied_with_ratelimit ≡ false) × (qi.requeues < max_retries)
EntryOk now k (working qi) =
    (qi.key ≡ k)
    × (qi.redirtied_with_ratelimit ≡ true → qi.redirtied_at ≤ now)
    × (qi.requeues < max_retries)

pub EntryOk-mono :
    (now now' : ℕ) (k : String) (e : Entry) → now ≤ now' → EntryOk now k e → EntryOk now' k e
EntryOk-mono now now' k idle h o = tt
EntryOk-mono now now' k (waiting qi) h o = o
EntryOk-mono now now' k (working qi) h o = (o.0, λ r. omega (arith, o.1 r), o.2)

dirtied-EntryOk :
    (now : ℕ) (k : String) (item : QueueItem) (rl : Bool) (when : ℕ)
    → (rl ≡ true → when ≤ now)
    → EntryOk now k (working item)
    → EntryOk now k (working (dirtied item when rl))
dirtied-EntryOk now k item rl when h o =
    (ground (arith, o.0), λ r. ground (arith, h, o.1), ground (arith, o.2))

shift_back : (now : ℕ) (d : ℤ) → is_positive d ≡ false → shift now d ≤ now
shift_back now d h = ground arith

fresh_entry-EntryOk :
    (k : String) (now now' : ℕ) (l : ℤ) (rl : Bool) (d : ℤ)
    → (rl ≡ true → is_positive d ≡ false)
    → (qi : QueueItem) × (fresh_entry k now l rl d ≡ done (waiting qi))
      × EntryOk now' k (waiting qi)
unfolding new_item
fresh_entry-EntryOk k now now' l true d h =
    rw (h refl, if◌then◌else◌) (_, refl, (refl, refl, omega arith))
fresh_entry-EntryOk k now now' l false d h = (_, refl, (refl, refl, omega arith))

pub inserted-EntryOk :
    (k : String) (now : ℕ) (l : ℤ) (rl : Bool) (d : ℤ) (e : Entry)
    → (rl ≡ true → is_positive d ≡ false)
    → EntryOk now k e
    → (e' : Entry) × (inserted k now l rl d e ≡ done e') × EntryOk now k e'
inserted-EntryOk k now l rl d idle h o =
    let (qi, p, ok) = fresh_entry-EntryOk k now now l rl d h in (waiting qi, p, ok)
inserted-EntryOk k now l rl d (waiting qi) h o =
    (waiting _, refl, (ground (arith, o.0), ground (arith, o.1), ground (arith, o.2)))
inserted-EntryOk k now l rl d (working item) h o =
    (working _, refl, dirtied-EntryOk now k item rl (shift now d) (λ r. shift_back now d (h r)) o)

-- An entry that an insertion made, and the write to it.
written-EntryOk :
    (k : String) (now now' : ℕ) (l : ℤ) (rl : Bool) (d : ℤ) (f : QueueItem → QueueItem)
    → ((x : QueueItem) → (f x).key ≡ x.key)
    → ((x : QueueItem) → (f x).redirtied_with_ratelimit ≡ x.redirtied_with_ratelimit)
    → ((x : QueueItem) → x.requeues < max_retries → (f x).requeues < max_retries)
    → (rl ≡ true → is_positive d ≡ false)
    → (e : Entry) × (write_fresh f (fresh_entry k now l rl d) ≡ done e) × EntryOk now' k e
written-EntryOk k now now' l rl d f keyed clean few h =
    let (qi, p, ok) = fresh_entry-EntryOk k now now' l rl d h in
    (waiting (f qi), rw p, (keyed qi ∙ ok.0, clean qi ∙ ok.1, few qi ok.2))

due_back : (at now : ℕ) → at ≤ now → is_positive (sub_ℕ at now) ≡ false
due_back at now h = ground arith

settled-EntryOk :
    (k : String) (now now' lapse : ℕ) (l : ℤ) (qi : QueueItem)
    → EntryOk now k (working qi)
    → (e : Entry) × (settled k now lapse l qi ≡ done e) × EntryOk now' k e
settled-EntryOk k now now' lapse l qi o = elim (Bool-cases (qi.redirtied_at == 0)) [
  | inl clean ↦ (idle, rw (clean, if◌then◌else◌), tt)
  | inr dirty ↦
      rw (dirty, if◌then◌else◌)
        (written-EntryOk k (now + lapse) now' l qi.redirtied_with_ratelimit
          (sub_ℕ qi.redirtied_at now) (λ n. record n { added_via_redirty = true }) (λ x. refl)
          (λ x. refl) (λ x h. h) (λ r. due_back qi.redirtied_at now (o.1 r)))
]

abbrev pub Good : (now' : ℕ) (k : String) → Outcome Entry × Option Failure → Type 0
Good now' k (o, err) = (e : Entry) × (o ≡ done e) × EntryOk now' k e

unforgotten-Good :
    (L : RateLimiter) (limiter : L.State) (k : String) (now now' lapse : ℕ) (qi : QueueItem)
    (err : Option Failure)
    → EntryOk now k (working qi)
    → Good now' k (unforgotten L limiter k now lapse qi err)
unfolding new_item
unforgotten-Good L limiter k now now' lapse qi none o =
    settled-EntryOk k now now' lapse (L.when (L.forget limiter k) k).0 qi o
unforgotten-Good L limiter k now now' lapse qi (some x) o =
    elim (Bool-cases (ltb (qi.requeues + 1) max_retries)) [
      | inl again ↦ rw (again, if◌then◌else◌) (_, refl, (refl, refl, ground arith))
      | inr over ↦
          rw (over, if◌then◌else◌)
            (settled-EntryOk k now now' lapse (L.when (L.forget limiter k) k).0 qi o)
    ]

pub concluded-Good :
    (L : RateLimiter) (limiter : L.State) (k : String) (now now' lapse : ℕ) (qi : QueueItem)
    (err : Option Failure)
    → EntryOk now k (working qi)
    → Good now' k (concluded L limiter k now lapse qi err)
concluded-Good L limiter k now now' lapse qi err o = elim (Bool-cases qi.forget) [
  | inl f ↦ simp f (idle, refl, tt)
  | inr f ↦ simp f (unforgotten-Good L limiter k now now' lapse qi err o)
]
