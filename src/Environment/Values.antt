-- ===== src/Environment/Values.antt =====
-- pkg/utils/podutils/env.go: what `envFrom` and `env` of a container give.
use clusterrouter.Base.{Bool, Option, none, some, List, [], ◌∷◌, ◌++◌, get, put, if◌then◌else◌}
use clusterrouter.Expansion.{Bytes, expand, mapping_func_for}
use clusterrouter.Environment.{
  bytes_dec, Env, Fetched, found, not_found, failed, EnvError, config_map_not_found,
  secret_not_found, config_map_unread, secret_unread, config_map_key_missing, secret_key_missing,
  panicked, Result, ok, error, ◌>>=◌, is_optional, KeyRef, FieldRef, ValueFrom, EnvVar,
  EnvFromSource, Container, Pod,
}
use clusterrouter.Environment.Fields.{FieldLibrary, pod_field_selector_runtime_value}

-- `ResourceManager`, whose listers are the client library's: the data of config maps and secrets by
-- name and namespace.
pub record ResourceManager : Type 0 where
  pub get_config_map : Bytes → Bytes → Fetched Env
  pub get_secret : Bytes → Bytes → Fetched Env

-- The loop over the data of a config map or a secret; `valid` is the check of names of variables of
-- k8s.io/apimachinery.
unfoldable pub add_data : (Bytes → Bool) → Bytes → Env → Env → Env
add_data valid prefix [] res = res
add_data valid prefix ((key, val) ∷ entries) res =
    add_data valid prefix entries
      (if valid (prefix ++ key) then put bytes_dec (prefix ++ key) val res else res)

-- A reference that could not be read ends the loop, unless it is optional.
unfoldable pub unless_optional : {A : Type 0} → Option Bool → A → EnvError → Result A
unless_optional optional skipped e = if is_optional optional then ok skipped else error e

module _ (valid : Bytes → Bool) (rm : ResourceManager) (namespace : Bytes) where
  -- One reference of `envFrom`.
  unfoldable pub add_source : EnvFromSource → Env → Result Env
  add_source source res = elim source.config_map_ref [
    | some ef ↦ elim (rm.get_config_map ef.name namespace) [
      | found m ↦ ok (add_data valid source.prefix m res)
      | not_found ↦ unless_optional ef.optional res (config_map_not_found ef.name)
      | failed ↦ unless_optional ef.optional res (config_map_unread ef.name)
    ]
    | none ↦ elim source.secret_ref [
      | some ef ↦ elim (rm.get_secret ef.name namespace) [
        | found s ↦ ok (add_data valid source.prefix s res)
        | not_found ↦ unless_optional ef.optional res (secret_not_found ef.name)
        | failed ↦ unless_optional ef.optional res (secret_unread ef.name)
      ]
      | none ↦ ok res
    ]
  ]

  unfoldable pub add_sources : List EnvFromSource → Env → Result Env
  add_sources [] res = ok res
  add_sources (source ∷ sources) res = add_source source res >>= λ res'. add_sources sources res'

  -- `makeEnvironmentMapBasedOnEnvFrom`.
  unfoldable pub make_environment_map_based_on_env_from : Container → Result Env
  make_environment_map_based_on_env_from container = add_sources container.env_from []

-- A key of a config map or a secret that was read.
unfoldable pub key_value : KeyRef → EnvError → Env → Result (Option Bytes)
key_value vf missing entries = elim (get bytes_dec vf.key entries) [
  | some v ↦ ok (some v)
  | none ↦ unless_optional vf.optional none missing
]

abbrev pub put_value : Bytes → Option Bytes → Env → Env
put_value name none res = res
put_value name (some v) res = put bytes_dec name v res

-- The references of a value are looked up in the environment so far, then in the services'.
abbrev pub mapping_of : Env → Env → Bytes → Bytes
mapping_of svc_env res =
    mapping_func_for ((λ k. get bytes_dec k res) ∷ (λ k. get bytes_dec k svc_env) ∷ [])

module _ (F : FieldLibrary) (rm : ResourceManager) (pod : Pod) where
  -- `getEnvironmentVariableValueWithValueFromConfigMapKeyRef`.
  unfoldable pub value_from_config_map_key_ref : KeyRef → Result (Option Bytes)
  value_from_config_map_key_ref vf = elim (rm.get_config_map vf.name pod.namespace) [
    | found m ↦ key_value vf (config_map_key_missing vf.name vf.key) m
    | not_found ↦ unless_optional vf.optional none (config_map_not_found vf.name)
    | failed ↦ unless_optional vf.optional none (config_map_unread vf.name)
  ]

  -- `getEnvironmentVariableValueWithValueFromSecretKeyRef`.
  unfoldable pub value_from_secret_key_ref : KeyRef → Result (Option Bytes)
  value_from_secret_key_ref vf = elim (rm.get_secret vf.name pod.namespace) [
    | found s ↦ key_value vf (secret_key_missing vf.name vf.key) s
    | not_found ↦ unless_optional vf.optional none (secret_not_found vf.name)
    | failed ↦ unless_optional vf.optional none (secret_unread vf.name)
  ]

  -- `getEnvironmentVariableValueWithValueFromFieldRef`.
  unfoldable pub value_from_field_ref : FieldRef → Result (Option Bytes)
  value_from_field_ref vf = pod_field_selector_runtime_value F vf pod >>= λ v. ok (some v)

  -- `getEnvironmentVariableValueWithValueFrom`: a reference of another kind gives no value.
  unfoldable pub value_with_value_from : ValueFrom → Result (Option Bytes)
  value_with_value_from from = elim from.config_map_key_ref [
    | some vf ↦ value_from_config_map_key_ref vf
    | none ↦ elim from.secret_key_ref [
      | some vf ↦ value_from_secret_key_ref vf
      | none ↦ elim from.field_ref [ some vf ↦ value_from_field_ref vf | none ↦ ok none ]
    ]
  ]

  -- `getEnvironmentVariableValue`.
  unfoldable pub environment_variable_value : (Bytes → Bytes) → EnvVar → Result (Option Bytes)
  environment_variable_value mapping env = elim env.value_from [
    | some from ↦ value_with_value_from from
    | none ↦ elim (expand env.value mapping) [ some v ↦ ok (some v) | none ↦ error panicked ]
  ]

  -- The loop over `env`.
  unfoldable pub add_variables : Env → List EnvVar → Env → Result Env
  add_variables svc_env [] res = ok res
  add_variables svc_env (env ∷ envs) res =
      environment_variable_value (mapping_of svc_env res) env >>= λ v.
      add_variables svc_env envs (put_value env.name v res)

-- The loop that appends the services' variables.
unfoldable pub append_services : Env → Env → Env
append_services [] res = res
append_services ((k, v) ∷ svc_env) res =
    append_services svc_env
      (elim (get bytes_dec k res) [ some _ ↦ res | none ↦ put bytes_dec k v res ])
