-- ===== src/Environment/Tests.antt =====
-- pkg/utils/podutils/env.go: the environment of a container with a config map, two variables and a
-- service.
use clusterrouter.Base.{
  Bool, true, false, Option, none, some, [], ◌∷◌, get, ◌≡◌, ◌≢◌, refl, All, ℕ_discrete, arith,
}
use clusterrouter.Expansion.{Bytes}
use clusterrouter.Environment.{
  bytes_dec, Env, found, not_found, failed, ok, error, EnvVar, EnvFromSource, Container, Pod,
  config_map_key_missing,
}
use clusterrouter.Environment.Fields.{FieldLibrary}
use clusterrouter.Environment.Values.{
  ResourceManager, make_environment_map_based_on_env_from, environment_variable_value, mapping_of,
  add_variables,
}
use clusterrouter.Environment.Services.{
  Service, select_services, values_of, from_services, put_all, get_service_env_var_map,
}
use clusterrouter.Environment.Populate.{service_env, environment_of, populate_environment_variables}
use clusterrouter.Environment.Precedence.{
  IsOk, or_else, environment_of-Undeclared, environment_of-declared,
}
use clusterrouter.Environment.Failures.{environment_of-Ends}
use clusterrouter.Environment.All.{PodPopulated, populate_environment_variables-PodPopulated}
use clusterrouter.Environment.Visible.{IsSeen, Holds, select_services-IsSeen}

abbrev library : FieldLibrary
library = record {
  is_qualified_name = λ s. elim s [ [] ↦ false | c ∷ t ↦ true ];
  to_lower = λ s. s;
  quote = λ s. s;
}

-- There is one config map, `c`, with the key `A`.
abbrev cluster : ResourceManager
cluster = record {
  get_config_map = λ name namespace. elim (bytes_dec name (b'c' ∷ [])) [
    | yes e ↦ found ((b'A' ∷ [], b'1' ∷ []) ∷ [])
    | no n ↦ not_found
  ];
  get_secret = λ name namespace. failed;
}

abbrev written : Bytes → Bytes → EnvVar
written name value = record { name = name; value = value; value_from = none }

-- `B` is `x$(A)`, and `D` comes from a key that the config map does not have.
abbrev reference_a : EnvVar
reference_a = written (b'B' ∷ []) (b'x' ∷ b'$' ∷ b'(' ∷ b'A' ∷ b')' ∷ [])

abbrev missing_key : EnvVar
missing_key = record (written (b'D' ∷ []) []) {
  value_from = some (record {
    config_map_key_ref = some (record { name = b'c' ∷ []; key = b'Z' ∷ []; optional = some false });
    secret_key_ref = none;
    field_ref = none;
  });
}

abbrev from_c : EnvFromSource
from_c = record {
  prefix = [];
  config_map_ref = some (record { name = b'c' ∷ []; optional = none });
  secret_ref = none;
}

abbrev container : Container
container = record { env_from = from_c ∷ []; env = reference_a ∷ [] }

abbrev broken : Container
broken = record container { env = reference_a ∷ missing_key ∷ [] }

abbrev pod : Pod
pod = record {
  name = b'p' ∷ [];
  namespace = b'n' ∷ [];
  uid = [];
  labels = (b'k' ∷ [], b'v' ∷ []) ∷ [];
  annotations = [];
  node_name = [];
  service_account_name = [];
  enable_service_links = none;
  init_containers = [];
  containers = container ∷ [];
}

abbrev service : Service
service = record {
  name = b's' ∷ [];
  namespace = b'n' ∷ [];
  cluster_ip = b'9' ∷ [];
  ports = record { name = []; protocol = []; port = 80 } ∷ [];
}

abbrev valid : Bytes → Bool
valid s = true

environment_of-Ends_example :
    environment_of library valid cluster (some []) pod broken
    ≡ error (config_map_key_missing (b'c' ∷ []) (b'Z' ∷ []))
unfolding service_env get_service_env_var_map from_services values_of select_services put_all
    bytes_dec ℕ_discrete get
environment_of-Ends_example = environment_of-Ends library valid cluster (some []) pod broken

select_services-IsSeen_example :
    Holds (IsSeen (b'n' ∷ []) true) (select_services (b'n' ∷ []) true (service ∷ []) [])
    × All
        (λ s.
          IsSeen (b'n' ∷ []) true s
          → get bytes_dec s.name (select_services (b'n' ∷ []) true (service ∷ []) []) ≢ none)
        (service ∷ [])
select_services-IsSeen_example = select_services-IsSeen (b'n' ∷ []) true (service ∷ [])

made : IsOk (environment_of library valid cluster (some []) pod container)
unfolding service_env get_service_env_var_map from_services values_of select_services put_all
    bytes_dec ℕ_discrete get
made = environment_of-Ends library valid cluster (some []) pod container

environment_of-Undeclared_example :
    (base svc_env : Env) × (make_environment_map_based_on_env_from valid cluster
        (b'n' ∷ [])
        container
      ≡ ok base)
    × (service_env library valid cluster (some []) pod ≡ ok svc_env)
    × (get bytes_dec (b'A' ∷ []) made.0
        ≡ or_else (get bytes_dec (b'A' ∷ []) base) (get bytes_dec (b'A' ∷ []) svc_env))
environment_of-Undeclared_example =
    environment_of-Undeclared library valid cluster (some []) pod container made.0 made.1
      (b'A' ∷ []) (λ e. ground arith, tt)

environment_of-declared_example :
    (base svc_env so_far : Env) × (v : Option Bytes) × (make_environment_map_based_on_env_from valid
        cluster
        (b'n' ∷ [])
        container
      ≡ ok base)
    × (service_env library valid cluster (some []) pod ≡ ok svc_env)
    × (add_variables library cluster pod svc_env [] base ≡ ok so_far)
    × (environment_variable_value library cluster pod (mapping_of svc_env so_far) reference_a
        ≡ ok v)
    × (get bytes_dec (b'B' ∷ []) made.0
        ≡ or_else v
            (or_else (get bytes_dec (b'B' ∷ []) so_far) (get bytes_dec (b'B' ∷ []) svc_env)))
environment_of-declared_example =
    environment_of-declared library valid cluster (some []) pod container made.0 made.1 []
      reference_a [] refl tt

populate_environment_variables-PodPopulated_example :
    PodPopulated library valid cluster
      (some [])
      pod
      none
      (populate_environment_variables library valid cluster (some []) pod)
unfolding service_env get_service_env_var_map from_services values_of select_services put_all
    bytes_dec ℕ_discrete get
populate_environment_variables-PodPopulated_example =
    populate_environment_variables-PodPopulated library valid cluster (some []) pod
