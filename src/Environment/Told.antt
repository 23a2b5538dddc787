-- ===== src/Environment/Told.antt =====
-- pkg/utils/podutils/env.go: the error of a field is what the description of the refused ones says.
use clusterrouter.Base.{
  Bool, true, false, Option, none, some, [], ◌∷◌, ◌≡◌, ◌≢◌, refl, sym, subst, ap, ap₂, ◌∙◌, ite,
  if_pos, if_neg, if◌then◌else◌, ℕ_discrete, Bool-cases, Option-cases, inl, inr,
}
use clusterrouter.Expansion.{Bytes}
use clusterrouter.Environment.{
  bytes_dec, ascii, EnvError, unsupported_field, ok, error, FieldRef, Pod,
}
use clusterrouter.Environment.Fields.{
  has_suffix, split_maybe_subscripted_path, is_one_of, field_labels, FieldLibrary,
  convert_downward_api_field_label, extract_field_path_as_string, pod_field_selector_runtime_value,
}
use clusterrouter.Environment.Bracketed.{key_of}
use clusterrouter.Environment.Problems.{error_of}
use clusterrouter.Environment.Refused.{
  readable, name_problem, keyed_problem, path_problem, field_problem,
}
use clusterrouter.Environment.Keyed.{
  is_one_of-All, unread, unnamed, annotations-split, labels-split, not_key, other_key, split-key,
  names_differ,
}

module _ (F : FieldLibrary) (pod : Pod) where
  abbrev IsTold : Bytes → Type 0
  IsTold path =
      error_of (
        pod_field_selector_runtime_value F (record { api_version = ascii "v1"; field_path = path })
          pod)
      ≡ path_problem F path

  known-IsTold : (path : Bytes) → is_one_of path field_labels ≡ true → IsTold path
  unfolding pod_field_selector_runtime_value convert_downward_api_field_label
      extract_field_path_as_string split_maybe_subscripted_path is_one_of has_suffix bytes_dec ascii
      ℕ_discrete
  known-IsTold path = is_one_of-All IsTold path field_labels (
    refl,
    (
      refl,
      (refl, (refl, (refl, (refl, (refl, (refl, (refl, (refl, (refl, (refl, (refl, tt))))))))))),
    ),
  )

  host-IsTold : (path : Bytes) → is_one_of path ("spec.host" ∷ []) ≡ true → IsTold path
  unfolding pod_field_selector_runtime_value convert_downward_api_field_label
      split_maybe_subscripted_path is_one_of has_suffix bytes_dec ascii ℕ_discrete
  host-IsTold path = is_one_of-All IsTold path ("spec.host" ∷ []) (refl, tt)

  told :
      (b : Bool) (v : Bytes) (e : EnvError)
      → error_of (if b then ok v else error e) ≡ (if b then none else some e)
  told true v e = refl
  told false v e = refl

  neither :
      (path : Bytes)
      → is_one_of path readable ≡ false
      → key_of "metadata.annotations" path ≡ none
      → key_of "metadata.labels" path ≡ none
      → some (unsupported_field path) ≡ path_problem F path
  neither path u a l = sym (ap₂ (keyed_problem F path) a l ∙ rw u refl)

  refused :
      (path : Bytes)
      → is_one_of path field_labels ≡ false
      → is_one_of path ("spec.host" ∷ []) ≡ false
      → split_maybe_subscripted_path path ≡ none
      → error_of (
          pod_field_selector_runtime_value F
            (record { api_version = ascii "v1"; field_path = path })
            pod)
        ≡ some (unsupported_field path)
  unfolding pod_field_selector_runtime_value convert_downward_api_field_label is_one_of ascii
      bytes_dec ℕ_discrete
  refused path f g e =
      rw (e, f, g, convert_downward_api_field_label, pod_field_selector_runtime_value) refl

  -- A path that is passed on is left to the extraction.
  passed :
      (path : Bytes)
      → is_one_of path field_labels ≡ false
      → convert_downward_api_field_label (ascii "v1") path ≡ ok path
      → error_of (
          pod_field_selector_runtime_value F
            (record { api_version = ascii "v1"; field_path = path })
            pod)
        ≡ error_of (extract_field_path_as_string F pod path)
  unfolding pod_field_selector_runtime_value is_one_of ascii bytes_dec ℕ_discrete
  passed path f e =
      let n = unnamed "spec.nodeName" path refl f in
      let a = unnamed "spec.serviceAccountName" path refl f in
      rw (e, n, a, pod_field_selector_runtime_value) refl

  annotation-convert :
      (path k : Bytes)
      → split_maybe_subscripted_path path ≡ some (ascii "metadata.annotations", k)
      → convert_downward_api_field_label (ascii "v1") path ≡ ok path
  unfolding convert_downward_api_field_label is_one_of ascii bytes_dec ℕ_discrete
  annotation-convert path k e = rw (e, convert_downward_api_field_label) refl

  annotation-extract :
      (path k : Bytes)
      → split_maybe_subscripted_path path ≡ some (ascii "metadata.annotations", k)
      → error_of (extract_field_path_as_string F pod path) ≡ name_problem F path (F.to_lower k)
  unfolding extract_field_path_as_string is_one_of ascii bytes_dec ℕ_discrete
  annotation-extract path k e =
      rw (e, extract_field_path_as_string) (told (F.is_qualified_name (F.to_lower k)) _ _)

  label-convert :
      (path k : Bytes)
      → split_maybe_subscripted_path path ≡ some (ascii "metadata.labels", k)
      → convert_downward_api_field_label (ascii "v1") path ≡ ok path
  unfolding convert_downward_api_field_label is_one_of ascii bytes_dec ℕ_discrete
  label-convert path k e = rw (e, convert_downward_api_field_label) refl

  label-extract :
      (path k : Bytes)
      → split_maybe_subscripted_path path ≡ some (ascii "metadata.labels", k)
      → error_of (extract_field_path_as_string F pod path) ≡ name_problem F path k
  unfolding extract_field_path_as_string is_one_of ascii bytes_dec ℕ_discrete
  label-extract path k e = rw (e, extract_field_path_as_string) (told (F.is_qualified_name k) _ _)

  foreign-refused :
      (path p k : Bytes)
      → split_maybe_subscripted_path path ≡ some (p, k)
      → p ≢ ascii "metadata.annotations"
      → p ≢ ascii "metadata.labels"
      → error_of (
          pod_field_selector_runtime_value F
            (record { api_version = ascii "v1"; field_path = path })
            pod)
        ≡ some (unsupported_field path)
  unfolding pod_field_selector_runtime_value convert_downward_api_field_label is_one_of ascii
      bytes_dec ℕ_discrete
  foreign-refused path p k e a l =
      let none_of =
        if_neg (bytes_dec p (ascii "metadata.annotations")) a true
          (ite (bytes_dec p (ascii "metadata.labels")) true false)
        ∙ if_neg (bytes_dec p (ascii "metadata.labels")) l true false in
      rw (e, none_of, convert_downward_api_field_label, pod_field_selector_runtime_value) refl

  annotation-IsTold :
      (path k : Bytes)
      → is_one_of path field_labels ≡ false
      → split_maybe_subscripted_path path ≡ some (ascii "metadata.annotations", k)
      → IsTold path
  annotation-IsTold path k f e =
      passed path f (annotation-convert path k e)
      ∙ annotation-extract path k e
      ∙ sym (
          ap (λ o. keyed_problem F path o (key_of "metadata.labels" path))
            (split-key "metadata.annotations" path k e))

  label-IsTold :
      (path k : Bytes)
      → is_one_of path field_labels ≡ false
      → split_maybe_subscripted_path path ≡ some (ascii "metadata.labels", k)
      → IsTold path
  label-IsTold path k f e =
      passed path f (label-convert path k e)
      ∙ label-extract path k e
      ∙ sym (
          ap₂ (keyed_problem F path)
            (other_key "metadata.annotations" path (ascii "metadata.labels") k annotations-split
              names_differ e)
            (split-key "metadata.labels" path k e))

  foreign-IsTold :
      (path p k : Bytes)
      → is_one_of path readable ≡ false
      → split_maybe_subscripted_path path ≡ some (p, k)
      → p ≢ ascii "metadata.annotations"
      → p ≢ ascii "metadata.labels"
      → IsTold path
  foreign-IsTold path p k u e a l =
      foreign-refused path p k e a l
      ∙ neither path u (other_key "metadata.annotations" path p k annotations-split a e)
          (other_key "metadata.labels" path p k labels-split l e)

  bracketed-IsTold :
      (path p k : Bytes)
      → is_one_of path field_labels ≡ false
      → is_one_of path readable ≡ false
      → split_maybe_subscripted_path path ≡ some (p, k)
      → IsTold path
  bracketed-IsTold path p k f u e = elim (bytes_dec p (ascii "metadata.annotations")) [
    | yes a ↦ annotation-IsTold path k f (subst (Split k) a e)
    | no a ↦ elim (bytes_dec p (ascii "metadata.labels")) [
      | yes l ↦ label-IsTold path k f (subst (Split k) l e)
      | no l ↦ foreign-IsTold path p k u e a l
    ]
  ]
    where
      Split : Bytes → Bytes → Type 0
      Split j q = ◌≡◌ {A = Option (Bytes × Bytes)} (split_maybe_subscripted_path path) (some (q, j))

  other-IsTold :
      (path : Bytes)
      → is_one_of path field_labels ≡ false
      → is_one_of path ("spec.host" ∷ []) ≡ false
      → IsTold path
  other-IsTold path f g = elim (Option-cases (split_maybe_subscripted_path path)) [
    | inr ((p, k), e) ↦ bracketed-IsTold path p k f (unread path f g) e
    | inl e ↦
        refused path f g e
        ∙ neither path (unread path f g) (not_key "metadata.annotations" path annotations-split e)
            (not_key "metadata.labels" path labels-split e)
  ]

  any-IsTold : (path : Bytes) → IsTold path
  any-IsTold path = elim (Bool-cases (is_one_of path field_labels)) [
    | inl known ↦ known-IsTold path known
    | inr f ↦ elim (Bool-cases (is_one_of path ("spec.host" ∷ []))) [
      | inl host ↦ host-IsTold path host
      | inr g ↦ other-IsTold path f g
    ]
  ]

  version-IsTold :
      (path : Bytes)
      → error_of (
          pod_field_selector_runtime_value F
            (record { api_version = ascii "v1"; field_path = path })
            pod)
        ≡ field_problem F (record { api_version = ascii "v1"; field_path = path })
  version-IsTold path =
      any-IsTold path
      ∙ sym (if_pos (bytes_dec (ascii "v1") (ascii "v1")) refl (path_problem F path) _)

  -- The error of a field is what the description says.
  pub pod_field_selector_runtime_value-field_problem :
      (vf : FieldRef) → error_of (pod_field_selector_runtime_value F vf pod) ≡ field_problem F vf
  unfolding pod_field_selector_runtime_value convert_downward_api_field_label is_one_of
  pod_field_selector_runtime_value-field_problem vf = elim (bytes_dec vf.api_version (ascii "v1")) [
    | yes e ↦
        subst
          (λ v.
            error_of (
              pod_field_selector_runtime_value F
                (record { api_version = v; field_path = vf.field_path }) pod)
            ≡ field_problem F (record { api_version = v; field_path = vf.field_path }))
          (sym e) (version-IsTold vf.field_path)
    | no n ↦
        rw
          (
            if_neg (bytes_dec vf.api_version (ascii "v1")) n true false,
            pod_field_selector_runtime_value,
            convert_downward_api_field_label,
          )
          (sym (if_neg (bytes_dec vf.api_version (ascii "v1")) n (path_problem F vf.field_path) _))
  ]
