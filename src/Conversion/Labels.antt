-- ===== src/Conversion/Labels.antt =====
-- pkg/utils/conversion.go: labels that are taken off a pod and put back.
use clusterrouter.Base.{
  String, Option, none, some, List, [], ◌∷◌, Map, lookup, insert, delete, for_range, text_dec, ite,
}
use clusterrouter.Conversion.{Json, or_blank, value_at, tripped_labels}

-- The loop of `TrimLabels`, with the labels and those taken off.
unfoldable pub trim_from : Map String → Map String → List String → Map String × Map String
trim_from labels tripped [] = (labels, tripped)
trim_from labels tripped (key ∷ keys) =
    let kept = trim_from labels tripped keys in
    let trimmed =
      trim_from (delete key labels) (insert key (or_blank (lookup key labels)) tripped) keys in
    ite (text_dec (or_blank (lookup key labels)) "") kept trimmed

-- `TrimLabels`: the labels afterwards, and the result. Neither reading nor deleting tells a nil map
-- from an empty one.
unfoldable pub trim_labels : Map String → Option (List String) → Map String × Option (Map String)
trim_labels labels none = (labels, none)
trim_labels labels (some ignore_labels) =
    let (kept, tripped) = trim_from labels [] ignore_labels in (kept, some tripped)

unfoldable pub put_label : Map String → String → String → Map String
put_label labels k v = insert k v labels

-- The loop of `RecoverLabels`; `none` is the panic of a write to a nil map.
unfoldable pub put_labels : Option (Map String) → Map String → Option (Option (Map String))
put_labels (some labels) tripped = some (some (for_range put_label labels tripped))
put_labels none [] = some none
put_labels none (e ∷ tripped) = none

-- `RecoverLabels`.
unfoldable pub recover_labels :
    Json → Option (Map String) → Option (Map String) → Option (Option (Map String))
recover_labels J labels annotations =
    ite (text_dec (value_at tripped_labels annotations) "") (some labels)
      (elim (J.unmarshal (value_at tripped_labels annotations)) [
        | none ↦ some labels
        | some tripped ↦ put_labels labels tripped
      ])
