-- ===== src/Environment/Failures.antt =====
-- pkg/utils/podutils/env.go: which errors end the making of an environment.
use clusterrouter.Base.{
  Bool, Option, none, some, List, [], ◌∷◌, get, ◌≡◌, refl, subst, ap, some_cancel, Option-cases,
  inl, inr,
}
use clusterrouter.Expansion.{Bytes}
use clusterrouter.Expansion.Correct.{expand-Expands}
use clusterrouter.Environment.{
  bytes_dec, Env, Fetched, found, not_found, failed, EnvError, config_map_not_found,
  secret_not_found, config_map_unread, secret_unread, config_map_key_missing, secret_key_missing,
  Result, ok, error, ◌>>=◌, KeyRef, ValueFrom, EnvVar, EnvFromSource, Container, Pod,
}
use clusterrouter.Environment.Fields.{FieldLibrary, pod_field_selector_runtime_value}
use clusterrouter.Environment.Values.{
  ResourceManager, unless_optional, add_data, add_source, add_sources,
  make_environment_map_based_on_env_from, key_value, value_from_config_map_key_ref,
  value_from_secret_key_ref, value_from_field_ref, value_with_value_from,
  environment_variable_value, mapping_of, put_value, add_variables, append_services,
}
use clusterrouter.Environment.Services.{Service}
use clusterrouter.Environment.Populate.{service_env, make_environment_map, environment_of}
use clusterrouter.Environment.Refused.{field_problem}
use clusterrouter.Environment.Told.{pod_field_selector_runtime_value-field_problem}
use clusterrouter.Environment.Portless.{services_problem, service_env-Ends}
use clusterrouter.Environment.Precedence.{or_else}
use clusterrouter.Environment.Problems.{
  fetch_problem, missing_problem, key_problem, error_of, Ends, unless_optional-Ends, fetch-Ends,
  step-Ends,
}

module _ (rm : ResourceManager) (namespace : Bytes) where
  -- The first of the references that counts is a config map's.
  abbrev pub source_problem : EnvFromSource → Option EnvError
  source_problem source = elim source.config_map_ref [
    | some ef ↦
        fetch_problem ef.optional (config_map_not_found ef.name) (config_map_unread ef.name)
          (rm.get_config_map ef.name namespace)
    | none ↦ elim source.secret_ref [
      | some ef ↦
          fetch_problem ef.optional (secret_not_found ef.name) (secret_unread ef.name)
            (rm.get_secret ef.name namespace)
      | none ↦ none
    ]
  ]

  abbrev pub sources_problem : List EnvFromSource → Option EnvError
  sources_problem [] = none
  sources_problem (source ∷ sources) = or_else (source_problem source) (sources_problem sources)

module _ (valid : Bytes → Bool) (rm : ResourceManager) (namespace : Bytes) where
  add_source-Ends :
      (source : EnvFromSource) (res : Env)
      → Ends (source_problem rm namespace source) (add_source valid rm namespace source res)
  unfolding add_source
  add_source-Ends source res = elim (Option-cases source.config_map_ref) [
    | inr (ef, s) ↦
        rw (s, add_source)
          (fetch-Ends (λ m. ok (add_data valid source.prefix m res)) ef.optional res
            (config_map_not_found ef.name) (config_map_unread ef.name) (λ m. (_, refl))
            (rm.get_config_map ef.name namespace))
    | inl n ↦ elim (Option-cases source.secret_ref) [
      | inr (ef, s) ↦
          rw (n, s, add_source)
            (fetch-Ends (λ m. ok (add_data valid source.prefix m res)) ef.optional res
              (secret_not_found ef.name) (secret_unread ef.name) (λ m. (_, refl))
              (rm.get_secret ef.name namespace))
      | inl m ↦ rw (n, m, add_source) (res, refl)
    ]
  ]

  add_sources-Ends :
      (sources : List EnvFromSource) (res : Env)
      → Ends (sources_problem rm namespace sources) (add_sources valid rm namespace sources res)
  unfolding add_sources
  add_sources-Ends [] res = (res, refl)
  add_sources-Ends (source ∷ sources) res =
      step-Ends (source_problem rm namespace source) (sources_problem rm namespace sources)
        (add_source valid rm namespace source res) (add_sources valid rm namespace sources)
        (add_source-Ends source res) (add_sources-Ends sources)

present-Ends :
    (optional : Option Bool) (no_key : EnvError) (o : Option Bytes)
    → Ends (missing_problem optional no_key o) (elim o [
      | some v ↦ ok (some v)
      | none ↦ unless_optional {A = Option Bytes} optional none no_key
    ])
present-Ends optional no_key none = unless_optional-Ends optional none no_key
present-Ends optional no_key (some v) = (some v, refl)

key_value-Ends :
    (vf : KeyRef) (missing unread no_key : EnvError) (fetched : Fetched Env)
    → Ends (key_problem vf missing unread no_key fetched) (elim fetched [
      | found m ↦ key_value vf no_key m
      | not_found ↦ unless_optional {A = Option Bytes} vf.optional none missing
      | failed ↦ unless_optional vf.optional none unread
    ])
unfolding key_value
key_value-Ends vf missing unread no_key not_found = unless_optional-Ends vf.optional none missing
key_value-Ends vf missing unread no_key failed = unless_optional-Ends vf.optional none unread
key_value-Ends vf missing unread no_key (found m) =
    present-Ends vf.optional no_key (get bytes_dec vf.key m)

result-Ends :
    {A B : Type 0} (o : Option EnvError) (r : Result A) (f : A → B)
    → error_of r ≡ o
    → Ends o (r >>= λ a. ok (f a))
result-Ends none (ok a) f e = (f a, refl)
result-Ends none (error x) f e = cc
result-Ends (some y) (ok a) f e = cc
result-Ends (some y) (error x) f e = ap error (some_cancel e)

module _ (F : FieldLibrary) (rm : ResourceManager) (pod : Pod) where
  abbrev pub value_from_problem : ValueFrom → Option EnvError
  value_from_problem from = elim from.config_map_key_ref [
    | some vf ↦
        key_problem vf (config_map_not_found vf.name) (config_map_unread vf.name)
          (config_map_key_missing vf.name vf.key) (rm.get_config_map vf.name pod.namespace)
    | none ↦ elim from.secret_key_ref [
      | some vf ↦
          key_problem vf (secret_not_found vf.name) (secret_unread vf.name)
            (secret_key_missing vf.name vf.key) (rm.get_secret vf.name pod.namespace)
      | none ↦ elim from.field_ref [ some vf ↦ field_problem F vf | none ↦ none ]
    ]
  ]

  -- A value that is written out has no problem.
  abbrev pub variable_problem : EnvVar → Option EnvError
  variable_problem env = elim env.value_from [ some from ↦ value_from_problem from | none ↦ none ]

  abbrev pub variables_problem : List EnvVar → Option EnvError
  variables_problem [] = none
  variables_problem (env ∷ envs) = or_else (variable_problem env) (variables_problem envs)

  value_with_value_from-Ends :
      (from : ValueFrom) → Ends (value_from_problem from) (value_with_value_from F rm pod from)
  unfolding value_with_value_from value_from_config_map_key_ref value_from_secret_key_ref
      value_from_field_ref
  value_with_value_from-Ends from = elim (Option-cases from.config_map_key_ref) [
    | inr (vf, s) ↦
        rw (s, value_with_value_from)
          (key_value-Ends vf _ _ _ (rm.get_config_map vf.name pod.namespace))
    | inl n ↦ elim (Option-cases from.secret_key_ref) [
      | inr (vf, s) ↦
          rw (n, s, value_with_value_from)
            (key_value-Ends vf _ _ _ (rm.get_secret vf.name pod.namespace))
      | inl m ↦ elim (Option-cases from.field_ref) [
        | inr (vf, s) ↦
            rw (n, m, s, value_with_value_from)
              (result-Ends (field_problem F vf) (pod_field_selector_runtime_value F vf pod) some
                (pod_field_selector_runtime_value-field_problem F pod vf))
        | inl l ↦ rw (n, m, l, value_with_value_from) (none, refl)
      ]
    ]
  ]

  environment_variable_value-Ends :
      (mapping : Bytes → Bytes) (env : EnvVar)
      → Ends (variable_problem env) (environment_variable_value F rm pod mapping env)
  unfolding environment_variable_value
  environment_variable_value-Ends mapping env = elim (Option-cases env.value_from) [
    | inr (from, s) ↦ rw (s, environment_variable_value) (value_with_value_from-Ends from)
    | inl n ↦
        let (t, e, _, _) = expand-Expands env.value mapping in
        rw (n, environment_variable_value) (some t, rw e)
  ]

  add_variables-Ends :
      (svc_env : Env) (envs : List EnvVar) (res : Env)
      → Ends (variables_problem envs) (add_variables F rm pod svc_env envs res)
  unfolding add_variables
  add_variables-Ends svc_env [] res = (res, refl)
  add_variables-Ends svc_env (env ∷ envs) res =
      step-Ends (variable_problem env) (variables_problem envs)
        (environment_variable_value F rm pod (mapping_of svc_env res) env)
        (λ v. add_variables F rm pod svc_env envs (put_value env.name v res))
        (environment_variable_value-Ends (mapping_of svc_env res) env)
        (λ v. add_variables-Ends svc_env envs (put_value env.name v res))

module _ (F : FieldLibrary) (valid : Bytes → Bool) (rm : ResourceManager)
    (services : Option (List Service)) where
  -- The problems in the order in which the code meets them.
  abbrev pub container_problem : Pod → Container → Option EnvError
  container_problem pod c =
      or_else (sources_problem rm pod.namespace c.env_from)
        (or_else (services_problem services pod) (variables_problem F rm pod c.env))

  or_else-none : {A : Type 0} (o : Option A) → or_else o none ≡ o
  or_else-none none = refl
  or_else-none (some a) = refl

  -- The environment of a container is made exactly if it has no problem, and otherwise the first
  -- problem is the error: a reference of `envFrom` that is not optional and cannot be read; services
  -- that cannot be listed, or (a panic) a chosen one with an address and no port; a variable's
  -- reference that is not optional and cannot be read or lacks the key, or a field with another version
  -- than `v1`, that cannot be read, or whose key in brackets is no qualified name. A value that is
  -- written out never fails.
  pub environment_of-Ends :
      (pod : Pod) (c : Container)
      → Ends (container_problem pod c) (environment_of F valid rm services pod c)
  unfolding environment_of make_environment_map_based_on_env_from make_environment_map
  environment_of-Ends pod c =
      step-Ends (sources_problem rm pod.namespace c.env_from)
        (or_else (services_problem services pod) (variables_problem F rm pod c.env))
        (add_sources valid rm pod.namespace c.env_from [])
        (make_environment_map F valid rm services pod c)
        (add_sources-Ends valid rm pod.namespace c.env_from [])
        (λ base.
          step-Ends (services_problem services pod) (variables_problem F rm pod c.env)
            (service_env F valid rm services pod) _ (service_env-Ends F valid rm services pod)
            (λ svc_env.
              subst
                (λ o. Ends o (
                  add_variables F rm pod svc_env c.env base >>= λ r.
                  ok (append_services svc_env r)))
                (or_else-none (variables_problem F rm pod c.env))
                (step-Ends (variables_problem F rm pod c.env) none
                  (add_variables F rm pod svc_env c.env base) (λ r. ok (append_services svc_env r))
                  (add_variables-Ends F rm pod svc_env c.env base)
                  (λ r. (append_services svc_env r, refl)))))
