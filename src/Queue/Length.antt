-- ===== src/Queue/Length.antt =====
-- pkg/utils/queue/queue.go: `Len` and `Empty`.
use clusterrouter.Base.{
  ◌+◌, ◌<◌, String, ◌≡◌, ◌≢◌, refl, true, false, some, List, [], ◌∷◌, arith, dec_lt, ap, inl, inr,
  ◌⊎◌, Map, lookup, length, ℕ_discrete,
}
use clusterrouter.Queue.Items.{QueueItem, find}
use clusterrouter.Queue.Counts.{count}
use clusterrouter.Queue.Ops.{RateLimiter, Queue, done}
use clusterrouter.Queue.View.{idle, view, Shape}
use clusterrouter.Queue.Ops.{len, empty}

count_head : (x : QueueItem) (xs : List QueueItem) → 0 < count x.key (x ∷ xs)
unfolding count
count_head x xs = ground arith

count_key_head {ℓ} : {V : Type ℓ} (k : String) (v : V) (m : Map V) → lookup k ((k, v) ∷ m) ≡ some v
unfolding lookup
count_key_head k v m = ground arith

module _ {L : RateLimiter} where
  -- Some key has an entry.
  abbrev pub HasEntry : Queue L → Type 0
  HasEntry q = (k : String) × (view q k ≢ idle)

  listed-HasEntry : (q : Queue L) (l : List QueueItem) → q.items ≡ l → 0 < length l → HasEntry q
  unfolding view find
  listed-HasEntry q [] e h = absurd (omega arith)
  listed-HasEntry q (x ∷ xs) e h = (x.key, ground (arith, ap (find x.key) e))

  worked-HasEntry :
      (q : Queue L) (m : Map QueueItem) → q.items_being_processed ≡ m → 0 < length m → HasEntry q
  unfolding view lookup
  worked-HasEntry q [] e h = absurd (omega arith)
  worked-HasEntry q ((k, x) ∷ m) e h = (k, ground (arith, ap (lookup k) e))

  none_idle :
      (q : Queue L) (l : List QueueItem) (m : Map QueueItem)
      → q.items ≡ l
      → q.items_being_processed ≡ m
      → length l + length m ≡ 0
      → (k : String) → view q k ≡ idle
  unfolding view lookup find
  none_idle q [] [] e f h k = rw (e, f)
  none_idle q (x ∷ l) m e f h k = absurd (omega arith)
  none_idle q [] (x ∷ m) e f h k = absurd (omega arith)

  some_entry : (q : Queue L) → length q.items + length q.items_being_processed ≢ 0 → HasEntry q
  some_entry q h = elim (dec_lt 0 (length q.items)) [
    | yes listed ↦ listed-HasEntry q q.items refl listed
    | no bare ↦ worked-HasEntry q q.items_being_processed refl (omega arith)
  ]

  -- `Empty` never panics, and it answers whether no key has an entry, waiting or being processed.
  pub empty-idle :
      (q : Queue L)
      → Shape q
      → ((empty q ≡ done true) × ((k : String) → view q k ≡ idle))
        ⊎ ((empty q ≡ done false) × HasEntry q)
  unfolding empty len
  empty-idle q s = elim (ℕ_discrete (length q.items + length q.items_being_processed) 0) [
    | yes nothing ↦
        inl (ground (arith, s.sizes), none_idle q q.items q.items_being_processed refl refl nothing)
    | no more ↦ inr (ground (arith, s.sizes), some_entry q more)
  ]
