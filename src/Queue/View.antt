-- ===== src/Queue/View.antt =====
-- pkg/utils/queue/queue.go: the queue seen as a map from keys to entries, and the shape of the
-- representation that makes it one.
use clusterrouter.Base.{
  ◌+◌, ◌≤◌, ◌<◌, String, ◌≡◌, ◌≢◌, refl, Option, none, some, List, [], ◌∷◌, ◌++◌, append-nil, arith,
  ◌∙◌, ap, lookup, insert, delete, length, lookup-insert,
}
use clusterrouter.Queue.Items.{QueueItem, remove, find, rev_onto, insert_behind}
use clusterrouter.Queue.Order.{Ordered, place, place-Ordered, remove-Ordered, insert_behind-place}
use clusterrouter.Queue.Counts.{
  count, count_key, count-place, length-place, count-remove, length-remove, count-find, find-count,
  find-place, find-remove, count_key-insert, length-insert, count_key-delete, length-delete,
  lookup-count_key, count_key-lookup,
}
use clusterrouter.Queue.Ops.{RateLimiter, Queue, add_item}

-- What the queue knows of a key.
pub data Entry : Type 0 where
  idle : Entry
  waiting : QueueItem → Entry
  working : QueueItem → Entry

abbrev pub entry_of : Option QueueItem → Option QueueItem → Entry
entry_of (some qi) o = working qi
entry_of none (some qi) = waiting qi
entry_of none none = idle

module _ {L : RateLimiter} where
  unfoldable pub view : Queue L → String → Entry
  view q k = entry_of (lookup k q.items_being_processed) (find k q.items)

  -- The items are in order; the map of elements has the keys of the list, each once; and no key
  -- is both in the list and being processed.
  pub record Shape (q : Queue L) : Type 0 where
    pub ordered : Ordered q.items
    pub agree : (k : String) → count_key k q.items_in_queue ≡ count k q.items
    pub once : (k : String) → count k q.items + count_key k q.items_being_processed ≤ 1
    pub sizes : length q.items_in_queue ≡ length q.items

  -- One key has the given entry now; every other key has the entry that it had.
  pub record Moves (q : Queue L) (k : String) (e : Entry) (q' : Queue L) : Type 0 where
    pub shape : Shape q'
    pub at_key : view q' k ≡ e
    pub elsewhere : (j : String) → k ≢ j → view q' j ≡ view q j
    pub clock_grows : q.clock ≤ q'.clock

rev_onto-rev_onto :
    (xs ys zs : List QueueItem) → rev_onto (rev_onto xs ys) zs ≡ rev_onto ys (xs ++ zs)
unfolding rev_onto
rev_onto-rev_onto [] ys zs = refl
rev_onto-rev_onto (x ∷ xs) ys zs = rev_onto-rev_onto xs (x ∷ ys) zs

from_back :
    (val : QueueItem) (items : List QueueItem)
    → Ordered items
    → insert_behind val (rev_onto items []) [] ≡ place val items
unfolding rev_onto
from_back val items o =
    let e : rev_onto (rev_onto items []) [] ≡ items =
      rev_onto-rev_onto items [] [] ∙ append-nil items in
    insert_behind-place val (rev_onto items []) [] (rw e o) tt ∙ ap (place val) e

module _ {L : RateLimiter} (q : Queue L) (s : Shape q) (k : String) where
  -- A write to the item being processed.
  pub write_working-Moves :
      (item item' : QueueItem)
      → lookup k q.items_being_processed ≡ some item
      → Moves q k
          (working item')
          (record q { items_being_processed = insert k item' q.items_being_processed })
  unfolding view
  write_working-Moves item item' e = record {
    shape = record {
      ordered = s.ordered;
      agree = s.agree;
      once = λ j. ground (
        arith,
        s.once j,
        count_key-insert k j item' q.items_being_processed,
        count_key-lookup k q.items_being_processed item,
      );
      sizes = s.sizes;
    };
    at_key = ground (arith, lookup-insert k k item' q.items_being_processed);
    elsewhere = λ j ne. ground (arith, lookup-insert k j item' q.items_being_processed);
    clock_grows = omega arith;
  }

  idle_lookups :
      view q k ≡ idle → (lookup k q.items_being_processed ≡ none) × (find k q.items ≡ none)
  unfolding view
  idle_lookups h = ground arith

  -- A waiting item: its key is in the list once and is not being processed.
  waiting_counts :
      (qi : QueueItem)
      → view q k ≡ waiting qi
      → (lookup k q.items_being_processed ≡ none)
        × (find k q.items ≡ some qi)
        × (count k q.items ≡ 1)
  unfolding view
  waiting_counts qi h = ground (arith, find-count k q.items, s.once k)

  -- The waiting item goes to another place in the list.
  pub replace_item-Moves :
      (qi qi' : QueueItem)
      → qi'.key ≡ k
      → view q k ≡ waiting qi
      → Moves q k (waiting qi') (record q { items = place qi' (remove k q.items) })
  unfolding view
  replace_item-Moves qi qi' e h =
      let (free, found, one) = waiting_counts qi h in
      let some_listed : 0 < count k q.items = omega arith in
      record {
        shape = record {
          ordered = place-Ordered qi' (remove k q.items) (remove-Ordered k q.items s.ordered);
          agree = λ j. ground (
            arith,
            e,
            s.agree j,
            count-place j qi' (remove k q.items),
            count-remove k j q.items some_listed,
          );
          once = λ j. ground (
            arith,
            e,
            s.once j,
            count-place j qi' (remove k q.items),
            count-remove k j q.items some_listed,
          );
          sizes = omega (
            arith,
            s.sizes,
            length-place qi' (remove k q.items),
            length-remove k q.items some_listed,
          );
        };
        at_key = ground (
          arith,
          e,
          free,
          find-place k qi' (remove k q.items),
          count-remove k k q.items some_listed,
        );
        elsewhere = λ j ne. ground (
          arith,
          e,
          find-place j qi' (remove k q.items),
          count-remove k k q.items some_listed,
          find-remove k j q.items,
        );
        clock_grows = omega arith;
      }

  -- The waiting item leaves the list.
  pub drop_item-Moves :
      (qi : QueueItem)
      → view q k ≡ waiting qi
      → Moves q k idle
          (record q { items = remove k q.items; items_in_queue = delete k q.items_in_queue })
  unfolding view
  drop_item-Moves qi h =
      let (free, found, one) = waiting_counts qi h in
      let some_listed : 0 < count k q.items = omega arith in
      record {
        shape = record {
          ordered = remove-Ordered k q.items s.ordered;
          agree = λ j. ground (
            arith,
            s.agree j,
            count-remove k j q.items some_listed,
            count_key-delete k j q.items_in_queue,
          );
          once = λ j. ground (arith, s.once j, count-remove k j q.items some_listed);
          sizes = omega (
            arith,
            s.sizes,
            s.agree k,
            length-delete k q.items_in_queue,
            length-remove k q.items some_listed,
          );
        };
        at_key = ground (arith, free, find-remove k k q.items);
        elsewhere = λ j ne. ground (arith, find-remove k j q.items);
        clock_grows = omega arith;
      }

module _ {L : RateLimiter} (q : Queue L) (s : Shape q) where
  place_item-Moves :
      (val : QueueItem)
      → view q val.key ≡ idle
      → Moves q val.key (waiting val) (record q {
        items = place val q.items;
        items_in_queue = insert val.key tt q.items_in_queue;
      })
  unfolding view
  place_item-Moves val h =
      let (free, absent) = idle_lookups q s val.key h in
      let none_listed = count-find val.key q.items absent in
      let none_worked = lookup-count_key val.key q.items_being_processed free in
      record {
        shape = record {
          ordered = place-Ordered val q.items s.ordered;
          agree = λ j. ground (
            arith,
            none_listed,
            s.agree val.key,
            s.agree j,
            count-place j val q.items,
            count_key-insert val.key j tt q.items_in_queue,
          );
          once = λ j. ground (arith, none_listed, none_worked, s.once j, count-place j val q.items);
          sizes = ground (
            arith,
            none_listed,
            s.agree val.key,
            s.sizes,
            length-place val q.items,
            length-insert val.key tt q.items_in_queue,
          );
        };
        at_key = ground (arith, free, find-place val.key val q.items);
        elsewhere = λ j ne. ground (arith, none_listed, find-place j val q.items);
        clock_grows = omega arith;
      }

  -- A new item for a key that has none.
  pub add_item-Moves :
      (val : QueueItem) → view q val.key ≡ idle → Moves q val.key (waiting val) (add_item q val)
  unfolding add_item
  add_item-Moves val h = rw (from_back val q.items s.ordered) (place_item-Moves val h)
