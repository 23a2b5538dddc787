-- ===== src/Queue/Counts.antt =====
-- pkg/utils/queue/queue.go: how often a key stands in the list and in the two maps.
use mathlib.Core.Option
use clusterrouter.Base.{
  ℕ, ◌+◌, ◌≤◌, ◌<◌, String, ◌≡◌, ◌≢◌, subst, refl, ite, if_pos, if_neg, none, some, List, [], ◌∷◌,
  arith, dec_lt, ap, text_dec, Map, lookup, insert, delete, length,
}
use clusterrouter.Queue.Items.{QueueItem, remove, find, modify}
use clusterrouter.Queue.Order.{place}

unfoldable pub count : String → List QueueItem → ℕ
count k [] = 0
count k (x ∷ xs) = ite (text_dec x.key k) 1 0 + count k xs

unfoldable pub count_key {ℓ} : {V : Type ℓ} → String → Map V → ℕ
count_key k [] = 0
count_key k ((j, v) ∷ m) = ite (text_dec j k) 1 0 + count_key k m

pub count-place :
    (k : String) (v : QueueItem) (xs : List QueueItem)
    → count k (place v xs) ≡ ite (text_dec v.key k) 1 0 + count k xs
unfolding count place
count-place k v [] = refl
count-place k v (x ∷ xs) = ground (arith, count-place k v xs)

pub length-place : (v : QueueItem) (xs : List QueueItem) → length (place v xs) ≡ length xs + 1
unfolding place
length-place v [] = omega arith
length-place v (x ∷ xs) = ground (arith, length-place v xs)

pub count-remove_self :
    (k : String) (xs : List QueueItem) → 0 < count k xs → count k (remove k xs) + 1 ≡ count k xs
unfolding count remove
count-remove_self k [] h = absurd (omega arith)
count-remove_self k (x ∷ xs) h = ground (arith, count-remove_self k xs)

pub count-remove_ne :
    (k j : String) (xs : List QueueItem) → k ≢ j → count j (remove k xs) ≡ count j xs
unfolding count remove
count-remove_ne k j [] h = refl
count-remove_ne k j (x ∷ xs) h = elim (text_dec x.key k) [
  | yes e ↦ ground (arith, count-remove_ne k j xs h)
  | no e ↦ rw (if_neg _ e) (ap (◌+◌ (ite (text_dec x.key j) 1 0)) (count-remove_ne k j xs h))
]

pub count-remove :
    (k j : String) (xs : List QueueItem)
    → 0 < count k xs
    → count j (remove k xs) + ite (text_dec k j) 1 0 ≡ count j xs
count-remove k j xs h = elim (text_dec k j) [
  | yes e ↦
      rw (if_pos _ e)
        (subst (λ i. count i (remove k xs) + 1 ≡ count i xs) e (count-remove_self k xs h))
  | no n ↦ rw (if_neg _ n) (omega (arith, count-remove_ne k j xs n))
]

pub length-remove :
    (k : String) (xs : List QueueItem) → 0 < count k xs → length (remove k xs) + 1 ≡ length xs
unfolding count remove
length-remove k [] h = absurd (omega arith)
length-remove k (x ∷ xs) h = ground (arith, length-remove k xs)

pub count-modify :
    (k j : String) (f : QueueItem → QueueItem) (xs : List QueueItem)
    → ((x : QueueItem) → (f x).key ≡ x.key)
    → count j (modify k f xs) ≡ count j xs
unfolding count modify
count-modify k j f [] h = refl
count-modify k j f (x ∷ xs) h = ground (arith, count-modify k j f xs h, h x)

pub length-modify :
    (k : String) (f : QueueItem → QueueItem) (xs : List QueueItem)
    → length (modify k f xs) ≡ length xs
unfolding modify
length-modify k f [] = refl
length-modify k f (x ∷ xs) = ground (arith, length-modify k f xs)

pub count-find : (k : String) (xs : List QueueItem) → find k xs ≡ none → count k xs ≡ 0
unfolding count find
count-find k [] e = refl
count-find k (x ∷ xs) e = ground (arith, count-find k xs)

pub find-count : (k : String) (xs : List QueueItem) → count k xs ≡ 0 → find k xs ≡ none
unfolding count find
find-count k [] e = refl
find-count k (x ∷ xs) e = ground (arith, find-count k xs)

pub find-key :
    (k : String) (xs : List QueueItem) (qi : QueueItem) → find k xs ≡ some qi → qi.key ≡ k
unfolding find
find-key k [] qi e = cc
find-key k (x ∷ xs) qi e = ground (arith, find-key k xs qi)

pub find-place :
    (k : String) (v : QueueItem) (xs : List QueueItem)
    → count v.key xs ≡ 0
    → find k (place v xs) ≡ ite (text_dec v.key k) (some v) (find k xs)
unfolding count find place
find-place k v [] h = refl
find-place k v (x ∷ xs) h = ground (arith, find-place k v xs)

pub find-remove :
    (k j : String) (xs : List QueueItem)
    → count k xs ≤ 1
    → find j (remove k xs) ≡ ite (text_dec k j) none (find j xs)
unfolding count find remove
find-remove k j [] h = ground arith
find-remove k j (x ∷ xs) h = ground (arith, find-remove k j xs, find-count j xs)

pub find-modify :
    (k j : String) (f : QueueItem → QueueItem) (xs : List QueueItem)
    → ((x : QueueItem) → (f x).key ≡ x.key)
    → find j (modify k f xs) ≡ ite (text_dec k j) (Option.map f (find j xs)) (find j xs)
unfolding find modify
find-modify k j f [] h = ground arith
find-modify k j f (x ∷ xs) h = ground (arith, find-modify k j f xs h, h x)

module _ {ℓ} {V : Type ℓ} where
  pub count_key-insert :
      (k j : String) (v : V) (m : Map V)
      → count_key j (insert k v m)
        ≡ ite (text_dec k j) (ite (dec_lt 0 (count_key k m)) (count_key k m) 1) (count_key j m)
  unfolding count_key insert
  count_key-insert k j v [] = ground arith
  count_key-insert k j v ((i, w) ∷ m) = ground (arith, count_key-insert k j v m)

  pub length-insert :
      (k : String) (v : V) (m : Map V)
      → length (insert k v m) ≡ ite (dec_lt 0 (count_key k m)) (length m) (length m + 1)
  unfolding count_key insert
  length-insert k v [] = ground arith
  length-insert k v ((i, w) ∷ m) = ground (arith, length-insert k v m)

  pub count_key-delete :
      (k j : String) (m : Map V) → count_key j (delete k m) ≡ ite (text_dec k j) 0 (count_key j m)
  unfolding count_key delete
  count_key-delete k j [] = ground arith
  count_key-delete k j ((i, w) ∷ m) = ground (arith, count_key-delete k j m)

  pub length-delete : (k : String) (m : Map V) → length (delete k m) + count_key k m ≡ length m
  unfolding count_key delete
  length-delete k [] = refl
  length-delete k ((i, w) ∷ m) = ground (arith, length-delete k m)

  pub lookup-count_key : (k : String) (m : Map V) → lookup k m ≡ none → count_key k m ≡ 0
  unfolding count_key lookup
  lookup-count_key k [] e = refl
  lookup-count_key k ((i, w) ∷ m) e = ground (arith, lookup-count_key k m)

  pub count_key-lookup : (k : String) (m : Map V) (v : V) → lookup k m ≡ some v → 0 < count_key k m
  unfolding count_key lookup
  count_key-lookup k [] v e = cc
  count_key-lookup k ((i, w) ∷ m) v e = ground (arith, count_key-lookup k m v)
