-- ===== src/Resource/Requests.antt =====
-- pkg/utils/util.go: the resources that a pod asks for.
use clusterrouter.Base.{
  String, ◌≡◌, inl, inr, refl, ap, ◌∙◌, Bool, true, false, not, Option, none, some, List, [], ◌∷◌,
  Map, lookup, insert, for_range, text_dec, ite, if◌then◌else◌, arith, Distinct, lookup-insert,
  updated, lookup-for_range, Option-cases, All, insert-Distinct, for_range-Distinct, Bool-cases,
}
use clusterrouter.Resource.{Quantities, Resource, convert_resource}

module _ (U : Quantities) where
  open U use {Quantity}

  pub record Container : Type 0 where
    pub requests : Map Quantity
    pub limits : Map Quantity

  pub record PodSpec : Type 0 where
    pub containers : List Container
    pub init_containers : List Container
    pub overhead : Option (Map Quantity)

  -- The bodies of the loops of `addResourceList` and `maxResourceList`.
  add_one : Map Quantity → String → Quantity → Map Quantity
  add_one list name quantity = elim (lookup name list) [
    | none ↦ insert name quantity list
    | some value ↦ insert name (U.add value quantity) list
  ]

  max_one : Map Quantity → String → Quantity → Map Quantity
  max_one list name quantity = elim (lookup name list) [
    | none ↦ insert name quantity list
    | some value ↦ if U.exceeds quantity value then insert name quantity list else list
  ]

  pub add_resource_list : Map Quantity → Map Quantity → Map Quantity
  add_resource_list list new_list = for_range add_one list new_list

  pub max_resource_list : Map Quantity → Map Quantity → Map Quantity
  max_resource_list list new = for_range max_one list new

  -- The body of the loop over the overhead, for the limits.
  overhead_one : Map Quantity → String → Quantity → Map Quantity
  overhead_one limits name quantity = elim (lookup name limits) [
    | none ↦ limits
    | some value ↦
        if not (U.is_zero value) then insert name (U.add value quantity) limits else limits
  ]

  -- A loop over containers, for the requests or for the limits.
  pub over :
      (Map Quantity → Map Quantity → Map Quantity)
      → Map Quantity
      → List (Map Quantity)
      → Map Quantity
  over step list [] = list
  over step list (m ∷ ms) = over step (step list m) ms

  unfoldable pub requests_of : List Container → List (Map Quantity)
  requests_of [] = []
  requests_of (c ∷ cs) = c.requests ∷ requests_of cs

  unfoldable pub limits_of : List Container → List (Map Quantity)
  limits_of [] = []
  limits_of (c ∷ cs) = c.limits ∷ limits_of cs

  -- The last part of `PodRequestsAndLimits`; the feature gate is the first argument.
  add_overhead :
      Bool → Option (Map Quantity) → Map Quantity × Map Quantity → Map Quantity × Map Quantity
  add_overhead enabled none (reqs, limits) = (reqs, limits)
  add_overhead false (some overhead) (reqs, limits) = (reqs, limits)
  add_overhead true (some overhead) (reqs, limits) =
      (add_resource_list reqs overhead, for_range overhead_one limits overhead)

  -- `PodRequestsAndLimits`. The two lists change independently, so each is a loop of its own.
  pub pod_requests_and_limits : Bool → PodSpec → Map Quantity × Map Quantity
  unfolding add_overhead requests_of limits_of
  pod_requests_and_limits enabled pod = add_overhead enabled pod.overhead (
    over max_resource_list (over add_resource_list [] (requests_of pod.containers))
        (requests_of pod.init_containers),
    over max_resource_list (over add_resource_list [] (limits_of pod.containers))
        (limits_of pod.init_containers),
  )

  -- `GetRequestFromPod`.
  unfoldable pub get_request_from_pod : Bool → Option PodSpec → Option (Resource U)
  get_request_from_pod enabled none = none
  get_request_from_pod enabled (some pod) =
      some (convert_resource U (pod_requests_and_limits enabled pod).0)

  abbrev pub prepend : Option Quantity → List Quantity → List Quantity
  prepend none qs = qs
  prepend (some q) qs = q ∷ qs

  -- What is asked of one name, in the order of the containers.
  abbrev pub asked : String → List (Map Quantity) → List Quantity
  asked name [] = []
  asked name (m ∷ ms) = prepend (lookup name m) (asked name ms)

  abbrev pub plus : Option Quantity → Quantity → Option Quantity
  plus none q = some q
  plus (some value) q = some (U.add value q)

  abbrev pub larger : Option Quantity → Quantity → Option Quantity
  larger none q = some q
  larger (some value) q = if U.exceeds q value then some q else some value

  abbrev pub accumulate :
      (Option Quantity → Quantity → Option Quantity)
      → Option Quantity
      → List Quantity
      → Option Quantity
  accumulate f o [] = o
  accumulate f o (q ∷ qs) = accumulate f (f o q) qs

  add_one-lookup :
      (l : Map Quantity) (k : String) (v : Quantity) (j : String)
      → lookup j (add_one l k v) ≡ ite (text_dec k j) (plus (lookup k l) v) (lookup j l)
  unfolding add_one
  add_one-lookup l k v j = elim (Option-cases (lookup k l)) [
    | inl n ↦ rw (n, add_one) (lookup-insert k j v l)
    | inr (q, s) ↦ rw (s, add_one) (lookup-insert k j (U.add q v) l)
  ]

  max_one-lookup :
      (l : Map Quantity) (k : String) (v : Quantity) (j : String)
      → lookup j (max_one l k v) ≡ ite (text_dec k j) (larger (lookup k l) v) (lookup j l)
  unfolding max_one
  max_one-lookup l k v j = elim (Option-cases (lookup k l)) [
    | inl n ↦ rw (n, max_one) (lookup-insert k j v l)
    | inr (q, s) ↦ rw (s, max_one) (ground (arith, s, lookup-insert k j v l))
  ]

  over-lookup :
      (f : Option Quantity → Quantity → Option Quantity)
      (body : Map Quantity → String → Quantity → Map Quantity)
      → ((l : Map Quantity) (k : String) (v : Quantity) (j : String)
          → lookup j (body l k v) ≡ ite (text_dec k j) (f (lookup k l) v) (lookup j l))
      → (l : Map Quantity) (ms : List (Map Quantity)) → All Distinct ms
      → (j : String)
      → lookup j (over (for_range body) l ms) ≡ accumulate f (lookup j l) (asked j ms)
  unfolding over
  over-lookup f body h l [] d j = refl
  over-lookup f body h l (m ∷ ms) d j =
      let ih = over-lookup f body h (for_range body l m) ms d.1 j in
      let step = lookup-for_range body f h l m d.0 j in
      elim (Option-cases (lookup j m)) [
        | inl n ↦ ih ∙ rw (step, n)
        | inr (q, s) ↦ ih ∙ rw (step, s)
      ]

  -- The sum over the containers, and the largest of it and what each init container asks.
  abbrev pub needed : String → List (Map Quantity) → List (Map Quantity) → Option Quantity
  needed j containers inits =
      accumulate larger (accumulate plus none (asked j containers)) (asked j inits)

  -- The overhead of a pod for one name, where the feature is enabled.
  abbrev pub overhead_of : Bool → Option (Map Quantity) → String → Option Quantity
  overhead_of true (some m) j = lookup j m
  overhead_of true none j = none
  overhead_of false o j = none

  -- A limit is raised by the overhead only if there is one and it is not zero.
  abbrev pub raised : Option Quantity → Quantity → Option Quantity
  raised none q = none
  raised (some value) q = if not (U.is_zero value) then some (U.add value q) else some value

  overhead_one-lookup :
      (l : Map Quantity) (k : String) (v : Quantity) (j : String)
      → lookup j (overhead_one l k v) ≡ ite (text_dec k j) (raised (lookup k l) v) (lookup j l)
  unfolding overhead_one
  overhead_one-lookup l k v j = elim (Option-cases (lookup k l)) [
    | inl n ↦ rw (n, overhead_one) (ground (arith, n))
    | inr (q, s) ↦ rw (s, overhead_one) (ground (arith, s, lookup-insert k j (U.add q v) l))
  ]

  needed-lookup :
      (containers inits : List (Map Quantity))
      → All Distinct containers
      → All Distinct inits
      → (j : String)
      → lookup j (over max_resource_list (over add_resource_list [] containers) inits)
        ≡ needed j containers inits
  unfolding max_resource_list add_resource_list lookup
  needed-lookup containers inits c d j =
      over-lookup larger max_one max_one-lookup (over (for_range add_one) [] containers) inits d j
      ∙ ap (λ o. accumulate larger o (asked j inits))
          (over-lookup plus add_one add_one-lookup [] containers c j)

  add_overhead-lookup :
      (enabled : Bool) (o : Option (Map Quantity)) (reqs limits : Map Quantity)
      → ((m : Map Quantity) → o ≡ some m → Distinct m)
      → (j : String)
      → (lookup j (add_overhead enabled o (reqs, limits)).0
          ≡ updated plus (lookup j reqs) (overhead_of enabled o j))
        × (lookup j (add_overhead enabled o (reqs, limits)).1
            ≡ updated raised (lookup j limits) (overhead_of enabled o j))
  unfolding add_overhead add_resource_list
  add_overhead-lookup true none reqs limits d j = (refl, refl)
  add_overhead-lookup false none reqs limits d j = (refl, refl)
  add_overhead-lookup false (some m) reqs limits d j = (refl, refl)
  add_overhead-lookup true (some m) reqs limits d j = (
    lookup-for_range add_one plus add_one-lookup reqs m (d m refl) j,
    lookup-for_range overhead_one raised overhead_one-lookup limits m (d m refl) j,
  )

  -- Every map of the pod has each name once.
  pub record IsProper (pod : PodSpec) : Type 0 where
    pub containers_requests : All Distinct (requests_of pod.containers)
    pub containers_limits : All Distinct (limits_of pod.containers)
    pub inits_requests : All Distinct (requests_of pod.init_containers)
    pub inits_limits : All Distinct (limits_of pod.init_containers)
    pub overhead_names : (m : Map Quantity) → pod.overhead ≡ some m → Distinct m

  -- For each name alone: a pod requests the larger of the sum over its containers and what any
  -- init container requests, and the overhead; its limit is formed so too, but the overhead is
  -- added only to a limit that is there and not zero. A name that nothing asks for stays out.
  pub pod_requests_and_limits-lookup :
      (enabled : Bool) (pod : PodSpec)
      → IsProper pod
      → (j : String)
      → let (reqs, limits) = pod_requests_and_limits enabled pod in
        (lookup j reqs
          ≡ updated plus
              (needed j (requests_of pod.containers) (requests_of pod.init_containers))
              (overhead_of enabled pod.overhead j))
        × (lookup j limits
            ≡ updated raised
                (needed j (limits_of pod.containers) (limits_of pod.init_containers))
                (overhead_of enabled pod.overhead j))
  unfolding pod_requests_and_limits
  pod_requests_and_limits-lookup enabled pod p j =
      let (r, l) = add_overhead-lookup enabled pod.overhead _ _ p.overhead_names j in
      (
        r
            ∙ ap (λ o. updated plus o (overhead_of enabled pod.overhead j))
                (needed-lookup (requests_of pod.containers) (requests_of pod.init_containers)
                  p.containers_requests p.inits_requests j),
        l
            ∙ ap (λ o. updated raised o (overhead_of enabled pod.overhead j))
                (needed-lookup (limits_of pod.containers) (limits_of pod.init_containers)
                  p.containers_limits p.inits_limits j),
      )

  add_one-Distinct :
      (l : Map Quantity) (k : String) (v : Quantity) → Distinct l → Distinct (add_one l k v)
  unfolding add_one
  add_one-Distinct l k v d = elim (Option-cases (lookup k l)) [
    | inl n ↦ rw (n, add_one) (insert-Distinct k v l d)
    | inr (q, s) ↦ rw (s, add_one) (insert-Distinct k (U.add q v) l d)
  ]

  max_one-Distinct :
      (l : Map Quantity) (k : String) (v : Quantity) → Distinct l → Distinct (max_one l k v)
  unfolding max_one
  max_one-Distinct l k v d = elim (Option-cases (lookup k l)) [
    | inl n ↦ rw (n, max_one) (insert-Distinct k v l d)
    | inr (q, s) ↦ elim (Bool-cases (U.exceeds v q)) [
      | inl larger ↦ rw (s, larger, max_one) (insert-Distinct k v l d)
      | inr smaller ↦ rw (s, smaller, max_one) d
    ]
  ]

  over-Distinct :
      (body : Map Quantity → String → Quantity → Map Quantity)
      → ((l : Map Quantity) (k : String) (v : Quantity) → Distinct l → Distinct (body l k v))
      → (l : Map Quantity) (ms : List (Map Quantity)) → Distinct l
      → Distinct (over (for_range body) l ms)
  unfolding over
  over-Distinct body h l [] d = d
  over-Distinct body h l (m ∷ ms) d =
      over-Distinct body h (for_range body l m) ms (for_range-Distinct body h l m d)

  add_overhead-Distinct :
      (enabled : Bool) (o : Option (Map Quantity)) (reqs limits : Map Quantity)
      → Distinct reqs
      → Distinct (add_overhead enabled o (reqs, limits)).0
  unfolding add_overhead add_resource_list
  add_overhead-Distinct true none reqs limits d = d
  add_overhead-Distinct false none reqs limits d = d
  add_overhead-Distinct false (some m) reqs limits d = d
  add_overhead-Distinct true (some m) reqs limits d =
      for_range-Distinct add_one add_one-Distinct reqs m d

  -- The requests have each name once.
  pub pod_requests_and_limits-Distinct :
      (enabled : Bool) (pod : PodSpec) → Distinct (pod_requests_and_limits enabled pod).0
  unfolding pod_requests_and_limits max_resource_list add_resource_list
  pod_requests_and_limits-Distinct enabled pod = add_overhead-Distinct enabled pod.overhead _ _ (
      over-Distinct max_one max_one-Distinct _ (requests_of pod.init_containers)
        (over-Distinct add_one add_one-Distinct [] (requests_of pod.containers) tt))
