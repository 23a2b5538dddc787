-- ===== src/Environment/References.antt =====
-- pkg/utils/podutils/env.go: references to variables in the value of a variable.
use clusterrouter.Base.{
  Option, none, some, [], ◌++◌, append-nil, get, ◌≡◌, sym, ap, ◌∙◌, some_cancel, Option-cases, inl,
  inr,
}
use clusterrouter.Expansion.{
  Bytes, operator, reference_closer, syntax_wrap, expand, mapping_func_for,
}
use clusterrouter.Expansion.Relation.{Lacks}
use clusterrouter.Expansion.Texts.{expand-syntax_wrap, expand_empty}
use clusterrouter.Environment.{bytes_dec, Env, ok, EnvVar, Pod}
use clusterrouter.Environment.Fields.{FieldLibrary}
use clusterrouter.Environment.Values.{ResourceManager, environment_variable_value, mapping_of}
use clusterrouter.Environment.Precedence.{or_else}

-- What a reference stands for: a variable of the environment, one of the services, or itself.
abbrev pub or_wrapped : Bytes → Option Bytes → Bytes
or_wrapped name none = syntax_wrap name
or_wrapped name (some v) = v

mapping_of-get :
    (svc_env so_far : Env) (name : Bytes)
    → mapping_of svc_env so_far name
      ≡ or_wrapped name (or_else (get bytes_dec name so_far) (get bytes_dec name svc_env))
unfolding mapping_func_for
mapping_of-get svc_env so_far name = elim (Option-cases (get bytes_dec name so_far)) [
  | inr (v, s) ↦ rw (s, mapping_func_for)
  | inl n ↦ elim (Option-cases (get bytes_dec name svc_env)) [
    | inr (v, s) ↦ rw (n, s, mapping_func_for)
    | inl m ↦ rw (n, m, mapping_func_for)
  ]
]

-- A value that ends in a reference, and is plain before it, gets what the name stands for: a
-- variable declared before or from `envFrom`, else one of the services, else the reference itself.
pub environment_variable_value-syntax_wrap :
    (F : FieldLibrary) (rm : ResourceManager) (pod : Pod) (svc_env so_far : Env) (x : EnvVar)
    (pre name : Bytes)
    → x.value_from ≡ none
    → x.value ≡ pre ++ syntax_wrap name
    → Lacks operator pre
    → Lacks reference_closer name
    → environment_variable_value F rm pod (mapping_of svc_env so_far) x
      ≡ ok (
          some (
            pre
            ++ or_wrapped name (or_else (get bytes_dec name so_far) (get bytes_dec name svc_env))))
unfolding environment_variable_value
environment_variable_value-syntax_wrap F rm pod svc_env so_far x pre name d e l k =
    let m = mapping_of svc_env so_far in
    let (t, empty, whole) = expand-syntax_wrap m pre name [] l k in
    let nothing : t ≡ [] = some_cancel (sym empty ∙ expand_empty m) in
    let read : expand x.value m ≡ some (pre ++ m name) =
      ap (λ s. expand s m) (e ∙ ap (λ s. pre ++ s) (sym (append-nil (syntax_wrap name))))
      ∙ whole
      ∙ ap (λ s. some (pre ++ (m name ++ s))) nothing
      ∙ ap (λ s. some (pre ++ s)) (append-nil (m name)) in
    simp (environment_variable_value, d, read)
      (ap (λ s. ok (some (pre ++ s))) (mapping_of-get svc_env so_far name))
