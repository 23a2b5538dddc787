-- ===== src/Environment/Paths.antt =====
-- pkg/utils/podutils/env.go: paths of fields with a subscript.
use clusterrouter.Base.{
  ℕ, ◌-◌, true, false, some, [], ◌∷◌, ◌++◌, get, ◌≡◌, refl, ap, ◌∙◌, ite, if_pos, if◌then◌else◌,
  length, length-append, take, drop, take-append, drop-append, arith, ℕ_discrete,
}
use clusterrouter.Expansion.{Bytes}
use clusterrouter.Expansion.Relation.{Lacks}
use clusterrouter.Environment.{bytes_dec, ascii, invalid_subscript, ok, error, Pod}
use clusterrouter.Environment.Fields.{
  has_prefix, has_suffix, split_2, subscript_opener, subscript_closer, subscripted,
  split_maybe_subscripted_path, is_one_of, convert_downward_api_field_label, or_empty, FieldLibrary,
  extract_field_path_as_string, pod_field_selector_runtime_value,
}

split_2-opener :
    (path subscript : Bytes)
    → Lacks b'[' path
    → split_2 subscript_opener (path ++ (subscript_opener ++ subscript)) ≡ some (path, subscript)
unfolding split_2 has_prefix
split_2-opener [] subscript l = refl
split_2-opener (c ∷ path) subscript l = ground (arith, split_2-opener path subscript l.1)

has_suffix-append : (s p : Bytes) → has_suffix (s ++ p) p ≡ true
unfolding has_suffix
has_suffix-append s p =
    let n : length (s ++ p) - length p ≡ length s = omega (arith, length-append s p) in
    ap (λ k. ite (bytes_dec (drop k (s ++ p)) p) true false) n ∙ rw (if_pos _ (drop-append s p))

-- A path with a subscript is split into the two, whatever the subscript is; the path must not be
-- empty and must lack an opening bracket.
pub split_maybe_subscripted_path-append :
    (c : ℕ) (path subscript : Bytes)
    → Lacks b'[' (c ∷ path)
    → split_maybe_subscripted_path
        (((c ∷ path) ++ (subscript_opener ++ subscript)) ++ subscript_closer)
      ≡ some (c ∷ path, subscript)
unfolding split_maybe_subscripted_path
split_maybe_subscripted_path-append c path subscript l =
    let s = (c ∷ path) ++ (subscript_opener ++ subscript) in
    let n : length (s ++ subscript_closer) - 2 ≡ length s =
      omega (arith, length-append s subscript_closer) in
    rw (has_suffix-append s subscript_closer) (
      ap (λ k. subscripted (split_2 subscript_opener (take k (s ++ subscript_closer)))) n
      ∙ ap (λ x. subscripted (split_2 subscript_opener x)) (take-append s subscript_closer)
      ∙ ap subscripted (split_2-opener (c ∷ path) subscript l))

-- `metadata.labels['subscript']`.
abbrev pub label_path : Bytes → Bytes
label_path subscript =
    (ascii "metadata.labels" ++ (subscript_opener ++ subscript)) ++ subscript_closer

label_path-split :
    (subscript : Bytes)
    → split_maybe_subscripted_path (label_path subscript)
      ≡ some (ascii "metadata.labels", subscript)
unfolding ascii
label_path-split subscript =
    split_maybe_subscripted_path-append b'm' (drop 1 (ascii "metadata.labels")) subscript
      (ground arith)

label_path-convert :
    (subscript : Bytes)
    → convert_downward_api_field_label (ascii "v1") (label_path subscript)
      ≡ ok (label_path subscript)
unfolding convert_downward_api_field_label is_one_of bytes_dec ascii ℕ_discrete
label_path-convert subscript = rw (label_path-split subscript) refl

label_path-extract :
    (F : FieldLibrary) (pod : Pod) (subscript : Bytes)
    → extract_field_path_as_string F pod (label_path subscript) ≡ (
        if F.is_qualified_name subscript
        then ok (or_empty (get bytes_dec subscript pod.labels))
        else error (invalid_subscript (label_path subscript)))
unfolding extract_field_path_as_string is_one_of bytes_dec ascii ℕ_discrete
label_path-extract F pod subscript =
    rw (label_path-split subscript, extract_field_path_as_string) refl

label_path-other :
    (subscript : Bytes)
    → (is_one_of (label_path subscript) ("spec.nodeName" ∷ []) ≡ false)
      × (is_one_of (label_path subscript) ("spec.serviceAccountName" ∷ []) ≡ false)
unfolding is_one_of bytes_dec ascii ℕ_discrete
label_path-other subscript = (refl, refl)

-- A field of labels with a name in brackets gives the pod's label of that name, and the empty text
-- where the pod has none; a name that is not a qualified name is refused.
pub pod_field_selector_runtime_value-label_path :
    (F : FieldLibrary) (pod : Pod) (subscript : Bytes)
    → pod_field_selector_runtime_value F
        (record { api_version = ascii "v1"; field_path = label_path subscript })
        pod
      ≡ (if F.is_qualified_name subscript
          then ok (or_empty (get bytes_dec subscript pod.labels))
          else error (invalid_subscript (label_path subscript)))
unfolding pod_field_selector_runtime_value
pod_field_selector_runtime_value-label_path F pod subscript =
    let (p, q) = label_path-other subscript in
    rw (label_path-convert subscript, p, q) (label_path-extract F pod subscript)
