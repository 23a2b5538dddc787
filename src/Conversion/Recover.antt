-- ===== src/Conversion/Recover.antt =====
-- pkg/utils/conversion.go: labels taken off a pod and put back.
use clusterrouter.Base.{
  String, ◌≡◌, ◌≢◌, refl, sym, ap, subst, ◌∙◌, Option, none, some, List, [], ◌∷◌, Map, lookup,
  insert, delete, for_range, updated, Distinct, lookup-insert, lookup-delete, insert-Distinct,
  lookup-for_range, text_dec, if_pos, if_neg, arith, All,
}
use clusterrouter.Conversion.{Json, or_blank, value_at, put_entry, tripped_labels}
use clusterrouter.Conversion.Entries.{value_at-put_entry}
use clusterrouter.Conversion.Labels.{trim_from, trim_labels, put_label, put_labels, recover_labels}
use clusterrouter.Conversion.Trim.{keep_tripped}

-- The labels with those taken off put back.
abbrev recovered : Map String → Map String → String → Option String
recovered labels tripped k = updated (λ _ v. some v) (lookup k labels) (lookup k tripped)

-- No label is in both maps.
abbrev Apart : Map String → Map String → Type 0
Apart labels tripped =
    (k : String) (v : String) → lookup k labels ≡ some v → lookup k tripped ≡ none

present : (o : Option String) → or_blank o ≢ "" → o ≡ some (or_blank o)
present none h = absurd (h refl)
present (some v) h = refl

step-recovered :
    (labels tripped : Map String) (key v k : String)
    → lookup key labels ≡ some v
    → Apart labels tripped
    → recovered (delete key labels) (insert key v tripped) k ≡ recovered labels tripped k
step-recovered labels tripped key v k e apart = elim (text_dec key k) [
  | yes same ↦
      let absent = apart key v e in
      ground (
        arith,
        same,
        lookup-insert key k v tripped,
        lookup-delete key k labels,
        ap (λ j. lookup j labels) same,
        ap (λ j. lookup j tripped) same,
      )
  | no other ↦ ground (arith, lookup-insert key k v tripped, lookup-delete key k labels)
]

step-Apart :
    (labels tripped : Map String) (key v : String)
    → Apart labels tripped
    → Apart (delete key labels) (insert key v tripped)
step-Apart labels tripped key v apart k w e =
    ground (arith, lookup-insert key k v tripped, lookup-delete key k labels, apart k w)

pub trim_from_blank :
    (labels tripped : Map String) (key : String) (keys : List String)
    → or_blank (lookup key labels) ≡ ""
    → trim_from labels tripped (key ∷ keys) ≡ trim_from labels tripped keys
unfolding trim_from
trim_from_blank labels tripped key keys h =
    if_pos (text_dec (or_blank (lookup key labels)) "") h (trim_from labels tripped keys)
      (trim_from (delete key labels) (insert key (or_blank (lookup key labels)) tripped) keys)

pub trim_from_full :
    (labels tripped : Map String) (key : String) (keys : List String)
    → or_blank (lookup key labels) ≢ ""
    → trim_from labels tripped (key ∷ keys)
      ≡ trim_from (delete key labels) (insert key (or_blank (lookup key labels)) tripped) keys
unfolding trim_from
trim_from_full labels tripped key keys h =
    if_neg (text_dec (or_blank (lookup key labels)) "") h (trim_from labels tripped keys)
      (trim_from (delete key labels) (insert key (or_blank (lookup key labels)) tripped) keys)

-- Put back, the labels are those of before.
abbrev Restores : Map String → Map String → Map String × Map String → Type 0
Restores labels tripped r =
    Distinct r.1 × ((k : String) → recovered r.0 r.1 k ≡ recovered labels tripped k)

trim_from-Restores :
    (keys : List String) (labels tripped : Map String)
    → Apart labels tripped
    → Distinct tripped
    → Restores labels tripped (trim_from labels tripped keys)
unfolding trim_from
trim_from-Restores [] labels tripped apart d = (d, λ k. refl)
trim_from-Restores (key ∷ keys) labels tripped apart d =
    elim (text_dec (or_blank (lookup key labels)) "") [
      | yes blank ↦
          subst (Restores labels tripped) (sym (trim_from_blank labels tripped key keys blank))
            (trim_from-Restores keys labels tripped apart d)
      | no full ↦
          let v = or_blank (lookup key labels) in
          let e = present (lookup key labels) full in
          let (d', same) =
            trim_from-Restores keys (delete key labels) (insert key v tripped)
              (step-Apart labels tripped key v apart) (insert-Distinct key v tripped d) in
          subst (Restores labels tripped) (sym (trim_from_full labels tripped key keys full))
            (d', λ k. same k ∙ step-recovered labels tripped key v k e apart)
    ]

-- A label that is not to be ignored keeps its value.
pub trim_from-other :
    (keys : List String) (labels tripped : Map String) (k : String)
    → All (λ key. key ≢ k) keys
    → lookup k (trim_from labels tripped keys).0 ≡ lookup k labels
unfolding trim_from
trim_from-other [] labels tripped k a = refl
trim_from-other (key ∷ keys) labels tripped k a =
    elim (text_dec (or_blank (lookup key labels)) "") [
      | yes blank ↦
          ap (λ r. lookup k r.0) (trim_from_blank labels tripped key keys blank)
          ∙ trim_from-other keys labels tripped k a.1
      | no full ↦
          ap (λ r. lookup k r.0) (trim_from_full labels tripped key keys full)
          ∙ trim_from-other keys (delete key labels) _ k a.1
          ∙ (lookup-delete key k labels ∙ rw (if_neg _ a.0))
    ]

put_labels-lookup :
    (labels tripped : Map String)
    → Distinct tripped
    → (k : String) → lookup k (for_range put_label labels tripped) ≡ recovered labels tripped k
unfolding put_label
put_labels-lookup labels tripped d k =
    lookup-for_range put_label (λ _ v. some v) (λ l k v j. lookup-insert k j v l) labels tripped d k

recover_labels_read :
    (J : Json) (labels : Map String) (annotations : Option (Map String)) (s : String)
    (n : Map String)
    → value_at tripped_labels annotations ≡ s
    → s ≢ ""
    → J.unmarshal s ≡ some n
    → recover_labels J (some labels) annotations ≡ some (some (for_range put_label labels n))
unfolding recover_labels put_labels
recover_labels_read J labels annotations s n e full read =
    if_neg (text_dec (value_at tripped_labels annotations) "") (λ blank. full (sym e ∙ blank))
      (some (some labels))
      (elim (J.unmarshal (value_at tripped_labels annotations)) [
        | none ↦ some (some labels)
        | some tripped ↦ put_labels (some labels) tripped
      ])
    ∙ ap
        (λ o. elim o [
          | none ↦ some (some labels)
          | some tripped ↦ put_labels (some labels) tripped
        ])
        (ap J.unmarshal e ∙ read)

-- Recovering labels from the annotation that was written gives back what was taken off: every label
-- has the value that it had.
pub recover_labels-trim_labels :
    (J : Json) (labels : Map String) (ignore_labels : List String)
    (annotations : Option (Map String))
    → let (kept, tripped) = trim_labels labels (some ignore_labels) in
      (restored : Map String) × (recover_labels J (some kept) (keep_tripped J tripped annotations)
        ≡ some (some restored))
      × ((k : String) → lookup k restored ≡ lookup k labels)
unfolding trim_labels keep_tripped lookup
recover_labels-trim_labels J labels ignore_labels annotations =
    let (d, same) = trim_from-Restores ignore_labels labels [] (λ k v e. refl) tt in
    let r = trim_from labels [] ignore_labels in
    let (s, n, written, full, read, dn, entries) = J.unmarshal-marshal r.1 d in
    (
      for_range put_label r.0 n,
      rw written (
          recover_labels_read J r.0 (put_entry tripped_labels s annotations) s n
            (value_at-put_entry tripped_labels s annotations) full read),
      λ k.
          put_labels-lookup r.0 n dn k
          ∙ ap (updated (λ _ v. some v) (lookup k r.0)) (entries k)
          ∙ same k,
    )
