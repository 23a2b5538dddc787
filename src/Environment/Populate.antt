-- ===== src/Environment/Populate.antt =====
-- pkg/utils/podutils/env.go: the environments of all containers of a pod.
use clusterrouter.Base.{Bool, true, Option, none, some, List, [], ◌∷◌}
use clusterrouter.Expansion.{Bytes}
use clusterrouter.Environment.{
  Env, EnvError, services_unlisted, panicked, Result, ok, error, ◌>>=◌, EnvVar, Container, Pod,
}
use clusterrouter.Environment.Fields.{FieldLibrary}
use clusterrouter.Environment.Values.{
  ResourceManager, make_environment_map_based_on_env_from, add_variables, append_services,
}
use clusterrouter.Environment.Services.{Service, get_service_env_var_map}

unfoldable pub variables_of : Env → List EnvVar
variables_of [] = []
variables_of ((key, val) ∷ m) =
    record { name = key; value = val; value_from = none } ∷ variables_of m

abbrev pub links_enabled : Option Bool → Bool
links_enabled none = true
links_enabled (some b) = b

-- `valid` is the check of names of variables; `services` what the lister answers, if it does.
module _ (F : FieldLibrary) (valid : Bytes → Bool) (rm : ResourceManager)
    (services : Option (List Service)) where
  unfoldable pub service_env : Pod → Result Env
  service_env pod = elim services [
    | none ↦ error services_unlisted
    | some listed ↦
        elim (get_service_env_var_map listed pod.namespace
          (links_enabled pod.enable_service_links)) [ some m ↦ ok m | none ↦ error panicked ]
  ]

  -- `makeEnvironmentMap`, on the environment that `envFrom` gave.
  unfoldable pub make_environment_map : Pod → Container → Env → Result Env
  make_environment_map pod container res = service_env pod >>= λ svc_env.
      add_variables F rm pod svc_env container.env res >>= λ res'. ok (append_services svc_env res')

  unfoldable pub environment_of : Pod → Container → Result Env
  environment_of pod container =
      make_environment_map_based_on_env_from valid rm pod.namespace container >>= λ tmp_env.
      make_environment_map pod container tmp_env

  -- `populateContainerEnvironment`.
  unfoldable pub populate_container_environment : Pod → Container → Result Container
  populate_container_environment pod container =
      environment_of pod container >>= λ env. ok (record { env_from = []; env = variables_of env })

  -- A loop over containers: those before the error are already changed.
  unfoldable pub populate_all : Pod → List Container → List Container × Option EnvError
  populate_all pod [] = ([], none)
  populate_all pod (c ∷ cs) =
      let (rest, e) = populate_all pod cs in
      elim (populate_container_environment pod c) [
        | ok c' ↦ (c' ∷ rest, e)
        | error e' ↦ (c ∷ cs, some e')
      ]

  -- `PopulateEnvironmentVariables`.
  unfoldable pub populate_environment_variables : Pod → Pod × Option EnvError
  populate_environment_variables pod =
      let (inits, e) = populate_all pod pod.init_containers in
      let (cs, e') = populate_all pod pod.containers in
      elim e [
        | some err ↦ (record pod { init_containers = inits }, some err)
        | none ↦ (record pod { init_containers = inits; containers = cs }, e')
      ]
