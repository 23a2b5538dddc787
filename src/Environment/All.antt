-- ===== src/Environment/All.antt =====
-- pkg/utils/podutils/env.go: the environments of all containers of a pod.
use clusterrouter.Base.{Bool, Option, none, some, List, [], ◌∷◌, ◌≡◌, refl}
use clusterrouter.Expansion.{Bytes}
use clusterrouter.Environment.{Env, EnvError, Result, ok, error, ◌>>=◌, Container, Pod}
use clusterrouter.Environment.Fields.{FieldLibrary}
use clusterrouter.Environment.Values.{ResourceManager}
use clusterrouter.Environment.Services.{Service}
use clusterrouter.Environment.Populate.{
  variables_of, environment_of, populate_container_environment, populate_all,
  populate_environment_variables,
}
use clusterrouter.Environment.Precedence.{or_else}
use clusterrouter.Environment.Failures.{container_problem, environment_of-Ends}
use clusterrouter.Environment.Problems.{Ends}

module _ (F : FieldLibrary) (valid : Bytes → Bool) (rm : ResourceManager)
    (services : Option (List Service)) where
  abbrev pub first_problem : Pod → List Container → Option EnvError
  first_problem pod [] = none
  first_problem pod (c ∷ cs) =
      or_else (container_problem F valid rm services pod c) (first_problem pod cs)

  -- A container whose references have all been resolved.
  abbrev pub Resolved : Pod → Container → Container → Type 0
  Resolved pod c c' =
      (env : Env) × (environment_of F valid rm services pod c ≡ ok env)
      × (c' ≡ record { env_from = []; env = variables_of env })

  abbrev pub AllResolved : Pod → List Container → List Container → Type 0
  AllResolved pod [] [] = Unit
  AllResolved pod (c ∷ cs) (c' ∷ cs') = Resolved pod c c' × AllResolved pod cs cs'
  AllResolved pod _ _ = ⊥

  abbrev Populated :
      Pod → List Container → Option EnvError → List Container × Option EnvError → Type 0
  Populated pod cs none (cs', e) = (e ≡ none) × AllResolved pod cs cs'
  Populated pod cs (some x) (cs', e) = e ≡ some x

  extend :
      (pod : Pod) (c : Container) (cs : List Container) (o : Option EnvError) (r : Result Env)
      → environment_of F valid rm services pod c ≡ r
      → Ends o r
      → (p : Option EnvError) (rest : List Container × Option EnvError) → Populated pod cs p rest
      → Populated pod
          (c ∷ cs)
          (or_else o p)
          (elim (r >>= λ env. ok (record { env_from = []; env = variables_of env })) [
            | ok c' ↦ (c' ∷ rest.0, rest.1)
            | error e ↦ (c ∷ cs, some e)
          ])
  extend pod c cs none (ok env) h e none (cs', x) (n, q) = (n, ((env, h, refl), q))
  extend pod c cs none (ok env) h e (some y) (cs', x) q = q
  extend pod c cs none (error x) h (a, e) p rest q = absurd cc
  extend pod c cs (some x) (ok a) h e p rest q = absurd cc
  extend pod c cs (some x) (error y) h e p rest q = cc

  populate_all-Populated :
      (pod : Pod) (cs : List Container)
      → Populated pod cs (first_problem pod cs) (populate_all F valid rm services pod cs)
  unfolding populate_all populate_container_environment
  populate_all-Populated pod [] = (refl, tt)
  populate_all-Populated pod (c ∷ cs) =
      extend pod c cs (container_problem F valid rm services pod c)
        (environment_of F valid rm services pod c) refl
        (environment_of-Ends F valid rm services pod c) (first_problem pod cs)
        (populate_all F valid rm services pod cs) (populate_all-Populated pod cs)

  -- What `PopulateEnvironmentVariables` must do with a pod, by its first problem.
  abbrev pub PodPopulated : Pod → Option EnvError → Pod × Option EnvError → Type 0
  PodPopulated pod none (pod', e) =
      (e ≡ none)
      × AllResolved pod pod.init_containers pod'.init_containers
      × AllResolved pod pod.containers pod'.containers
  PodPopulated pod (some x) (pod', e) = e ≡ some x

  both :
      (pod : Pod) (o p : Option EnvError) (inits cs : List Container × Option EnvError)
      → Populated pod pod.init_containers o inits
      → Populated pod pod.containers p cs
      → PodPopulated pod (or_else o p) (elim inits.1 [
        | some err ↦ (record pod { init_containers = inits.0 }, some err)
        | none ↦ (record pod { init_containers = inits.0; containers = cs.0 }, cs.1)
      ])
  both pod none none (is, none) (cs, e) (h, q) (k, r) = (k, q, r)
  both pod none (some x) (is, none) (cs, e) (h, q) k = k
  both pod none p (is, some y) (cs, e) (h, q) k = absurd cc
  both pod (some x) p (is, some y) (cs, e) h k = h
  both pod (some x) p (is, none) (cs, e) h k = absurd cc

  -- The environments of a pod are made exactly if none of its containers has a problem: then each
  -- has the variables of its environment, without references, and nothing in `envFrom`. Otherwise
  -- the error is the first problem, the init containers coming before the others.
  pub populate_environment_variables-PodPopulated :
      (pod : Pod)
      → PodPopulated pod
          (or_else (first_problem pod pod.init_containers) (first_problem pod pod.containers))
          (populate_environment_variables F valid rm services pod)
  unfolding populate_environment_variables
  populate_environment_variables-PodPopulated pod =
      both pod (first_problem pod pod.init_containers) (first_problem pod pod.containers)
        (populate_all F valid rm services pod pod.init_containers)
        (populate_all F valid rm services pod pod.containers)
        (populate_all-Populated pod pod.init_containers) (populate_all-Populated pod pod.containers)
