-- ===== src/Environment/Fields.antt =====
-- pkg/utils/podutils/env.go: fields of a pod as values (the downward API).
use clusterrouter.Base.{
  ◌-◌, String, Bool, true, false, Option, none, some, List, [], ◌∷◌, ◌++◌, ite, get, if◌then◌else◌,
  length, take, drop, ltb, ◌==◌,
}
use clusterrouter.Expansion.{Bytes}
use clusterrouter.Environment.{
  bytes_dec, ascii, Env, unsupported_version, unsupported_field, invalid_subscript, Result, ok,
  error, ◌>>=◌, FieldRef, Pod,
}

-- `strings.HasPrefix`.
unfoldable pub has_prefix : Bytes → Bytes → Bool
has_prefix s [] = true
has_prefix [] (d ∷ p) = false
has_prefix (c ∷ s) (d ∷ p) = let rest = has_prefix s p in if c == d then rest else false

-- `strings.HasSuffix`.
unfoldable pub has_suffix : Bytes → Bytes → Bool
has_suffix s p = ite (bytes_dec (drop (length s - length p) s) p) true false

-- `strings.SplitN(s, sep, 2)`: the parts around the first separator.
unfoldable pub split_2 : Bytes → Bytes → Option (Bytes × Bytes)
split_2 sep [] = none
split_2 sep (c ∷ s) =
    let rest = split_2 sep s in
    if has_prefix (c ∷ s) sep
    then some ([], drop (length sep) (c ∷ s))
    else elim rest [ none ↦ none | some (a, b) ↦ some (c ∷ a, b) ]

abbrev pub subscript_opener : Bytes
subscript_opener = b'[' ∷ b'\'' ∷ []

abbrev pub subscript_closer : Bytes
subscript_closer = b'\'' ∷ b']' ∷ []

-- The parts of a path that has a subscript, if both separators are there and the path is not empty.
abbrev pub subscripted : Option (Bytes × Bytes) → Option (Bytes × Bytes)
subscripted none = none
subscripted (some ([], subscript)) = none
subscripted (some (c ∷ path, subscript)) = some (c ∷ path, subscript)

-- `SplitMaybeSubscriptedPath`; `none` stands for its third result false.
unfoldable pub split_maybe_subscripted_path : Bytes → Option (Bytes × Bytes)
split_maybe_subscripted_path field_path =
    if has_suffix field_path subscript_closer
    then subscripted (split_2 subscript_opener (take (length field_path - 2) field_path))
    else none

unfoldable pub is_one_of : Bytes → List String → Bool
is_one_of s [] = false
is_one_of s (t ∷ ts) = let rest = is_one_of s ts in ite (bytes_dec s (ascii t)) true rest

abbrev pub field_labels : List String
field_labels =
    "metadata.annotations" ∷ "metadata.labels" ∷ "metadata.name" ∷ "metadata.namespace"
    ∷ "metadata.uid" ∷ "spec.nodeName" ∷ "spec.restartPolicy" ∷ "spec.serviceAccountName"
    ∷ "spec.schedulerName" ∷ "status.phase" ∷ "status.hostIP" ∷ "status.podIP" ∷ "status.podIPs"
    ∷ []

-- `ConvertDownwardAPIFieldLabel`, without the value, which it passes on unchanged.
unfoldable pub convert_downward_api_field_label : Bytes → Bytes → Result Bytes
convert_downward_api_field_label version label =
    if is_one_of version ("v1" ∷ [])
    then elim (split_maybe_subscripted_path label) [
      | some (path, _) ↦
          if is_one_of path ("metadata.annotations" ∷ "metadata.labels" ∷ [])
          then ok label
          else error (unsupported_field label)
      | none ↦
          if is_one_of label field_labels
          then ok label
          else if is_one_of label ("spec.host" ∷ [])
          then ok (ascii "spec.nodeName")
          else error (unsupported_field label)
    ]
    else error (unsupported_version version)

-- A read of a map of texts, which gives the empty text for a key that is not there.
abbrev pub or_empty : Option Bytes → Bytes
or_empty none = []
or_empty (some v) = v

-- The check of a label's or an annotation's name (k8s.io/apimachinery), and `strings.ToLower` and
-- the verb `%q`, which follow the tables of Unicode.
pub record FieldLibrary : Type 0 where
  pub is_qualified_name : Bytes → Bool
  pub to_lower : Bytes → Bytes
  pub quote : Bytes → Bytes

-- The order of texts by their bytes.
unfoldable pub is_before : Bytes → Bytes → Bool
is_before s [] = false
is_before [] (d ∷ t) = true
is_before (c ∷ s) (d ∷ t) = let rest = is_before s t in if c == d then rest else ltb c d

unfoldable pub insert_sorted : Bytes × Bytes → Env → Env
insert_sorted e [] = e ∷ []
insert_sorted e (f ∷ m) =
    let rest = insert_sorted e m in if is_before f.0 e.0 then f ∷ rest else e ∷ f ∷ m

unfoldable pub sort_by_key : Env → Env
sort_by_key [] = []
sort_by_key (e ∷ m) = insert_sorted e (sort_by_key m)

-- `strings.TrimSuffix(s, "\n")`.
unfoldable pub trim_newline : Bytes → Bytes
trim_newline s = if has_suffix s (10 ∷ []) then take (length s - 1) s else s

unfoldable pub format_entries : (Bytes → Bytes) → Env → Bytes
format_entries quote [] = []
format_entries quote ((key, val) ∷ m) = key ++ b'=' ∷ (quote val ++ 10 ∷ format_entries quote m)

-- `FormatMap`.
unfoldable pub format_map : (Bytes → Bytes) → Env → Bytes
format_map quote m = trim_newline (format_entries quote (sort_by_key m))

module _ (F : FieldLibrary) where
  -- `ExtractFieldPathAsString`, for a pod.
  unfoldable pub extract_field_path_as_string : Pod → Bytes → Result Bytes
  extract_field_path_as_string pod field_path = elim (split_maybe_subscripted_path field_path) [
    | some (path, subscript) ↦
        if is_one_of path ("metadata.annotations" ∷ [])
        then (if F.is_qualified_name (F.to_lower subscript)
            then ok (or_empty (get bytes_dec subscript pod.annotations))
            else error (invalid_subscript field_path))
        else if is_one_of path ("metadata.labels" ∷ [])
        then (if F.is_qualified_name subscript
            then ok (or_empty (get bytes_dec subscript pod.labels))
            else error (invalid_subscript field_path))
        else error (unsupported_field field_path)
    | none ↦
        if is_one_of field_path ("metadata.annotations" ∷ [])
        then ok (format_map F.quote pod.annotations)
        else if is_one_of field_path ("metadata.labels" ∷ [])
        then ok (format_map F.quote pod.labels)
        else if is_one_of field_path ("metadata.name" ∷ [])
        then ok pod.name
        else if is_one_of field_path ("metadata.namespace" ∷ [])
        then ok pod.namespace
        else if is_one_of field_path ("metadata.uid" ∷ [])
        then ok pod.uid
        else error (unsupported_field field_path)
  ]

  -- `podFieldSelectorRuntimeValue`.
  unfoldable pub pod_field_selector_runtime_value : FieldRef → Pod → Result Bytes
  pod_field_selector_runtime_value fs pod =
      convert_downward_api_field_label fs.api_version fs.field_path >>= λ internal.
      if is_one_of internal ("spec.nodeName" ∷ [])
      then ok pod.node_name
      else if is_one_of internal ("spec.serviceAccountName" ∷ [])
      then ok pod.service_account_name
      else extract_field_path_as_string pod internal
