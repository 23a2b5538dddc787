-- ===== src/Queue/Items.antt =====
-- pkg/utils/queue/queue.go: `queueItem`, and the list of items with the walk that finds the place
-- of an item. A `container/list` is a list from front to back; an element is reached by the key
-- of the item that it holds.
use clusterrouter.Base.{
  ℕ, String, ite, Bool, Option, none, some, List, [], ◌∷◌, dec_lt, ℤ, text_dec,
}

pub record QueueItem : Type 0 where
  pub key : String
  pub planned_to_start_work_at : ℕ
  pub redirtied_at : ℕ
  pub redirtied_with_ratelimit : Bool
  pub forget : Bool
  pub requeues : ℕ
  pub originally_added : ℕ
  pub added_via_redirty : Bool
  pub delayed_via_rate_limit : Option ℤ

-- A list in two parts: the items before a place, nearest first, and those from it on.
unfoldable pub rev_onto : List QueueItem → List QueueItem → List QueueItem
rev_onto [] after = after
rev_onto (x ∷ before) after = rev_onto before (x ∷ after)

-- The two loops over `Prev`: the item goes behind the nearest one that is planned strictly
-- earlier, and to the front where there is none.
unfoldable pub insert_behind : QueueItem → List QueueItem → List QueueItem → List QueueItem
insert_behind val [] after = val ∷ after
insert_behind val (item ∷ before) after =
    let further = insert_behind val before (item ∷ after) in
    ite (dec_lt item.planned_to_start_work_at val.planned_to_start_work_at)
      (rev_onto (item ∷ before) (val ∷ after)) further

-- The element of a key, with what stands before it (nearest first) and after it.
unfoldable pub split_from :
    String → List QueueItem → List QueueItem → Option (List QueueItem × QueueItem × List QueueItem)
split_from k before [] = none
split_from k before (x ∷ after) =
    ite (text_dec x.key k) (some (before, x, after)) (split_from k (x ∷ before) after)

-- `items.Remove(element)`.
unfoldable pub remove : String → List QueueItem → List QueueItem
remove k [] = []
remove k (x ∷ xs) = ite (text_dec x.key k) xs (x ∷ remove k xs)

unfoldable pub find : String → List QueueItem → Option QueueItem
find k [] = none
find k (x ∷ xs) = ite (text_dec x.key k) (some x) (find k xs)

-- A write through the pointer to the item of a key.
unfoldable pub modify : String → (QueueItem → QueueItem) → List QueueItem → List QueueItem
modify k f [] = []
modify k f (x ∷ xs) = ite (text_dec x.key k) (f x ∷ xs) (x ∷ modify k f xs)
