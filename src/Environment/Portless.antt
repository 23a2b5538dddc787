-- ===== src/Environment/Portless.antt =====
-- pkg/utils/podutils/env.go: when the variables of the services cannot be had.
use clusterrouter.Base.{
  Bool, true, false, not, ◌&&◌, Option, none, some, List, [], ◌∷◌, ◌++◌, ◌≡◌, refl, ite,
  if◌then◌else◌, ◌⊎◌, inl, inr, Bool-cases,
}
use clusterrouter.Expansion.{Bytes}
use clusterrouter.Environment.{
  bytes_dec, ascii, Env, EnvError, services_unlisted, panicked, Pod, ok, error,
}
use clusterrouter.Environment.Fields.{FieldLibrary}
use clusterrouter.Environment.Values.{ResourceManager}
use clusterrouter.Environment.Services.{
  Service, ServicePort, is_service_ip_set, from_service, from_services, select_services, values_of,
  get_service_env_var_map, put_all,
}
use clusterrouter.Environment.Populate.{links_enabled, service_env}
use clusterrouter.Environment.Problems.{Ends}

-- The service has an address and no port.
abbrev pub is_portless : Service → Bool
is_portless s = elim s.ports [
  | sp ∷ ports ↦ false
  | [] ↦
      ite (bytes_dec s.cluster_ip []) false (ite (bytes_dec s.cluster_ip (ascii "None")) false true)
]

abbrev pub any_portless : List Service → Bool
any_portless [] = false
any_portless (s ∷ services) = if is_portless s then true else any_portless services

-- Links are on unless the pod turns them off.
abbrev pub wants_links : Pod → Bool
wants_links pod = elim pod.enable_service_links [ some false ↦ false | _ ↦ true ]

-- The services cannot be listed, or one that is chosen has no port.
abbrev pub services_problem : Option (List Service) → Pod → Option EnvError
services_problem none pod = some services_unlisted
services_problem (some listed) pod =
    if any_portless (values_of (select_services pod.namespace (wants_links pod) listed []))
    then some panicked
    else none

abbrev Panics : Bool → Option Env → Type 0
Panics true o = o ≡ none
Panics false o = (e : Env) × (o ≡ some e)

ports-cases :
    (ports : List ServicePort)
    → (ports ≡ []) ⊎ ((sp : ServicePort) × (rest : List ServicePort) × (ports ≡ sp ∷ rest))
ports-cases [] = inl refl
ports-cases (sp ∷ rest) = inr (sp, rest, refl)

bare-is_portless : (s : Service) → s.ports ≡ [] → is_portless s ≡ is_service_ip_set s
unfolding is_service_ip_set
bare-is_portless s e =
    rw e (blank (bytes_dec s.cluster_ip []) (bytes_dec s.cluster_ip (ascii "None")))
  where
    blank :
        {P Q : Type 0} (p : Dec P) (q : Dec Q)
        → ite p false (ite q false true) ≡ not (ite q true false) && not (ite p true false)
    blank (yes p) (yes q) = refl
    blank (yes p) (no n) = refl
    blank (no m) (yes q) = refl
    blank (no m) (no n) = refl

full-is_portless :
    (s : Service) (sp : ServicePort) (rest : List ServicePort)
    → s.ports ≡ sp ∷ rest
    → is_portless s ≡ false
full-is_portless s sp rest full = rw full refl

full-from_service :
    (s : Service) (sp : ServicePort) (rest : List ServicePort)
    → s.ports ≡ sp ∷ rest
    → (e : Env) × (from_service s ≡ some e)
unfolding from_service
full-from_service s sp rest full = rw (full, from_service) (_, refl)

more-Panics :
    (b : Bool) (o : Option Env) (f : Env → Env)
    → Panics b o
    → Panics b (elim o [ none ↦ none | some e ↦ some (f e) ])
more-Panics true o f p = rw p refl
more-Panics false o f (e, p) = rw p (f e, refl)

from_services-Panics :
    (services : List Service) → Panics (any_portless services) (from_services services)
unfolding from_services from_service
from_services-Panics [] = ([], refl)
from_services-Panics (s ∷ services) = elim (ports-cases s.ports) [
  | inl bare ↦ elim (Bool-cases (is_service_ip_set s)) [
    | inl set ↦ rw (bare-is_portless s bare, bare, set, from_services, from_service) refl
    | inr unset ↦ rw (bare-is_portless s bare, unset, from_services) (from_services-Panics services)
  ]
  | inr (sp, rest, full) ↦ elim (Bool-cases (is_service_ip_set s)) [
    | inl set ↦
        let (e, made) = full-from_service s sp rest full in
        rw (full-is_portless s sp rest full, set, made, from_services)
          (more-Panics (any_portless services) (from_services services) (λ es. e ++ es)
            (from_services-Panics services))
    | inr unset ↦
        rw (full-is_portless s sp rest full, unset, from_services) (from_services-Panics services)
  ]
]

mapped-Ends :
    (b : Bool) (o : Option Env)
    → Panics b o
    → Ends (if b then some panicked else none) (elim o [ some m ↦ ok m | none ↦ error panicked ])
mapped-Ends true o p = rw p refl
mapped-Ends false o (e, p) = rw p (e, refl)

wants_links_lem : (pod : Pod) → links_enabled pod.enable_service_links ≡ wants_links pod
wants_links_lem pod = by_value pod.enable_service_links
  where
    by_value : (o : Option Bool) → links_enabled o ≡ elim o [ some false ↦ false | _ ↦ true ]
    by_value none = refl
    by_value (some true) = refl
    by_value (some false) = refl

module _ (F : FieldLibrary) (valid : Bytes → Bool) (rm : ResourceManager) where
  pub service_env-Ends :
      (services : Option (List Service)) (pod : Pod)
      → Ends (services_problem services pod) (service_env F valid rm services pod)
  unfolding service_env get_service_env_var_map
  service_env-Ends none pod = refl
  service_env-Ends (some listed) pod =
      rw (wants_links_lem pod, service_env, get_service_env_var_map)
        (mapped-Ends
          (any_portless (values_of (select_services pod.namespace (wants_links pod) listed []))) _
          (more-Panics _ _ (λ es. put_all es [])
            (from_services-Panics
              (values_of (select_services pod.namespace (wants_links pod) listed [])))))
