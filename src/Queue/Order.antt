-- ===== src/Queue/Order.antt =====
-- pkg/utils/queue/queue.go: the walk from the back against an ordered insertion from the front.
use clusterrouter.Base.{
  ℕ, ◌≤◌, ◌<◌, String, ◌≡◌, refl, ite, if_pos, if_neg, none, some, List, [], ◌∷◌, arith, ◌∙◌,
  dec_lt, All, All-imp, sym, ap, text_dec, ltb, if◌then◌else◌, inl, inr, Bool-cases,
}
use clusterrouter.Queue.Items.{QueueItem, rev_onto, insert_behind, split_from, remove, find, modify}
use clusterrouter.Queue.Ops.{reposition, adjust_position, done}

-- The items are in the order of their times.
abbrev pub Ordered : List QueueItem → Type 0
Ordered [] = Unit
Ordered (x ∷ xs) =
    All (λ y. x.planned_to_start_work_at ≤ y.planned_to_start_work_at) xs × Ordered xs

-- Ordered insertion from the front, before the first item that is not earlier.
unfoldable pub place : QueueItem → List QueueItem → List QueueItem
place val [] = val ∷ []
place val (x ∷ xs) =
    ite (dec_lt x.planned_to_start_work_at val.planned_to_start_work_at) (x ∷ place val xs)
      (val ∷ x ∷ xs)

abbrev NotBefore : QueueItem → List QueueItem → Type 0
NotBefore v = All (λ x. v.planned_to_start_work_at ≤ x.planned_to_start_work_at)

abbrev Earlier : QueueItem → List QueueItem → Type 0
Earlier v = All (λ x. x.planned_to_start_work_at < v.planned_to_start_work_at)

NotBefore-mono :
    (v w : QueueItem) (xs : List QueueItem)
    → v.planned_to_start_work_at ≤ w.planned_to_start_work_at
    → NotBefore w xs
    → NotBefore v xs
NotBefore-mono v w [] h a = tt
NotBefore-mono v w (x ∷ xs) h a = (omega arith, NotBefore-mono v w xs h a.1)

NotBefore-place :
    (u v : QueueItem) (xs : List QueueItem)
    → u.planned_to_start_work_at ≤ v.planned_to_start_work_at
    → NotBefore u xs
    → NotBefore u (place v xs)
unfolding place
NotBefore-place u v [] h a = (h, tt)
NotBefore-place u v (x ∷ xs) h a = ground (arith, NotBefore-place u v xs h a.1)

pub place-Ordered : (v : QueueItem) (xs : List QueueItem) → Ordered xs → Ordered (place v xs)
unfolding place
place-Ordered v [] o = (tt, tt)
place-Ordered v (x ∷ xs) o =
    ground (arith, place-Ordered v xs o.1, NotBefore-place x v xs, NotBefore-mono v x xs)

place_first : (v : QueueItem) (xs : List QueueItem) → NotBefore v xs → place v xs ≡ v ∷ xs
unfolding place
place_first v [] a = refl
place_first v (x ∷ xs) a = ground arith

place_behind :
    (v : QueueItem) (before after : List QueueItem)
    → Earlier v before
    → place v (rev_onto before after) ≡ rev_onto before (place v after)
unfolding place rev_onto
place_behind v [] after e = refl
place_behind v (x ∷ before) after e = place_behind v before (x ∷ after) e.1 ∙ rw (if_pos _ e.0)

-- What stands before a place is not later than what stands after it.
abbrev Split : List QueueItem → List QueueItem → Type 0
Split before after = All (λ y. NotBefore y after) before × Ordered after

rev_onto-Split :
    (before after : List QueueItem) → Ordered (rev_onto before after) → Split before after
unfolding rev_onto
rev_onto-Split [] after o = (tt, o)
rev_onto-Split (x ∷ before) after o =
    let (ih, ox) = rev_onto-Split before (x ∷ after) o in
    (
      (
        ox.0,
        All-imp (λ y. NotBefore y (x ∷ after)) (λ y. NotBefore y after) (λ y h. h.1) before ih,
      ),
      ox.1,
    )

Split-Earlier :
    (v p : QueueItem) (before after : List QueueItem)
    → p.planned_to_start_work_at < v.planned_to_start_work_at
    → All (λ y. NotBefore y (p ∷ after)) before
    → Earlier v before
Split-Earlier v p [] after h a = tt
Split-Earlier v p (x ∷ before) after h a = (omega arith, Split-Earlier v p before after h a.1)

-- On an ordered list, and at a place with nothing earlier than the item behind it, the walk from the
-- back puts an item where ordered insertion from the front does.
pub insert_behind-place :
    (v : QueueItem) (before after : List QueueItem)
    → Ordered (rev_onto before after)
    → NotBefore v after
    → insert_behind v before after ≡ place v (rev_onto before after)
unfolding insert_behind rev_onto place
insert_behind-place v [] after o n = sym (place_first v after n)
insert_behind-place v (p ∷ before) after o n =
    elim (dec_lt p.planned_to_start_work_at v.planned_to_start_work_at) [
      | yes h ↦
          let split = rev_onto-Split before (p ∷ after) o in
          let behind =
            place_behind v before (p ∷ after) (Split-Earlier v p before after h split.0) in
          rw (if_pos _ h, behind, if_pos _ h, place_first v after n)
      | no h ↦ rw (if_neg _ h) (insert_behind-place v before (p ∷ after) o (omega arith, n))
    ]

NotBefore-modify :
    (v : QueueItem) (k : String) (f : QueueItem → QueueItem) (xs : List QueueItem)
    → ((x : QueueItem) → (f x).planned_to_start_work_at ≡ x.planned_to_start_work_at)
    → NotBefore v xs
    → NotBefore v (modify k f xs)
unfolding modify
NotBefore-modify v k f [] h a = tt
NotBefore-modify v k f (x ∷ xs) h a = ground (arith, h x, NotBefore-modify v k f xs h a.1)

-- A write that keeps the time keeps the order.
pub modify-Ordered :
    (k : String) (f : QueueItem → QueueItem) (xs : List QueueItem)
    → ((x : QueueItem) → (f x).planned_to_start_work_at ≡ x.planned_to_start_work_at)
    → Ordered xs
    → Ordered (modify k f xs)
unfolding modify
modify-Ordered k f [] h o = tt
modify-Ordered k f (x ∷ xs) h o = ground (
  arith,
  h x,
  modify-Ordered k f xs h o.1,
  NotBefore-modify x k f xs h o.0,
  NotBefore-mono (f x) x xs,
)

-- No item that is found is earlier than a bound on them all.
pub NotBefore-find :
    (v : QueueItem) (k : String) (xs : List QueueItem) (x : QueueItem)
    → All (λ y. v.planned_to_start_work_at ≤ y.planned_to_start_work_at) xs
    → find k xs ≡ some x
    → v.planned_to_start_work_at ≤ x.planned_to_start_work_at
unfolding find
NotBefore-find v k [] x a e = cc
NotBefore-find v k (y ∷ ys) x a e = ground (arith, NotBefore-find v k ys x a.1)

-- Splitting at a key: the three parts are the list, and without the item they are `remove`.
split_from-none :
    (k : String) (before xs : List QueueItem) → find k xs ≡ none → split_from k before xs ≡ none
unfolding find split_from
split_from-none k before [] e = refl
split_from-none k before (x ∷ xs) e = ground (arith, split_from-none k (x ∷ before) xs)

pub split_from-find :
    (k : String) (before xs : List QueueItem) (qi : QueueItem)
    → find k xs ≡ some qi
    → (front back : List QueueItem) × (split_from k before xs ≡ some (front, qi, back))
      × (rev_onto front (qi ∷ back) ≡ rev_onto before xs)
      × (rev_onto front back ≡ rev_onto before (remove k xs))
unfolding find split_from rev_onto remove
split_from-find k before [] qi e = cc
split_from-find k before (x ∷ xs) qi e = elim (text_dec x.key k) [
  | yes h ↦ (before, xs, ground arith, ground arith, ground arith)
  | no h ↦
      let (front, back, p, q, r) = split_from-find k (x ∷ before) xs qi (ground arith) in
      (front, back, ground arith, q, ground arith)
]

NotBefore-remove :
    (v : QueueItem) (k : String) (xs : List QueueItem) → NotBefore v xs → NotBefore v (remove k xs)
unfolding remove
NotBefore-remove v k [] a = tt
NotBefore-remove v k (x ∷ xs) a = ground (arith, NotBefore-remove v k xs a.1)

pub remove-Ordered : (k : String) (xs : List QueueItem) → Ordered xs → Ordered (remove k xs)
unfolding remove
remove-Ordered k [] o = tt
remove-Ordered k (x ∷ xs) o = ground (arith, remove-Ordered k xs o.1, NotBefore-remove x k xs o.0)

reposition-place :
    (when : ℕ) (qi : QueueItem) (front back items rest : List QueueItem)
    → rev_onto front (qi ∷ back) ≡ items
    → rev_onto front back ≡ rest
    → Ordered (rev_onto front back)
    → NotBefore qi back
    → reposition front qi back when ≡ (
        if ltb qi.planned_to_start_work_at when
        then items
        else place (record qi { planned_to_start_work_at = when }) rest)
unfolding reposition
reposition-place when qi front back items rest q r o n =
    let moved : QueueItem = record qi { planned_to_start_work_at = when } in
    elim (Bool-cases (ltb qi.planned_to_start_work_at when)) [
      | inl later ↦ rw (later, q)
      | inr sooner ↦
          rw (sooner, ← r)
            (insert_behind-place moved front back o (NotBefore-mono moved qi back (ground arith) n))
    ]

-- `adjustPosition`, on an ordered list that has an item of the key: for a later time the list stays
-- as it is, and otherwise the item is removed and inserted in order at the new time.
pub adjust_position-place :
    (k : String) (when : ℕ) (items : List QueueItem) (qi : QueueItem)
    → Ordered items
    → find k items ≡ some qi
    → adjust_position k when items
      ≡ done (
          if ltb qi.planned_to_start_work_at when
          then items
          else place (record qi { planned_to_start_work_at = when }) (remove k items))
unfolding adjust_position rev_onto
adjust_position-place k when items qi o e =
    let (front, back, p, q, r) = split_from-find k [] items qi e in
    let o' : Ordered (rev_onto front back) = rw r (remove-Ordered k items o) in
    let back_of : NotBefore qi back = (rev_onto-Split front (qi ∷ back) (rw q o)).1.0 in
    rw (p, adjust_position)
      (ap done (reposition-place when qi front back items (remove k items) q r o' back_of))
