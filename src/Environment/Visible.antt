-- ===== src/Environment/Visible.antt =====
-- pkg/utils/podutils/env.go: the services whose variables a pod gets.
use clusterrouter.Base.{
  All-imp, not, ite_iff, not-ite_iff, and_iff, ◌↔◌, Bool, true, false, none, some, List, [], ◌∷◌,
  get, put, get-put, ◌≢◌, ◌≡◌, sym, subst, some_cancel, if_pos, if_neg, ◌∙◌, ◌⊎◌, inl, inr, All,
  Option-cases, Bool-cases, arith,
}
use clusterrouter.Expansion.{Bytes}
use clusterrouter.Environment.{bytes_dec, ascii}
use clusterrouter.Environment.Services.{
  Service, equals, is_service_ip_set, is_master_service, add_service, select_services,
}

-- A service is seen by a pod of the namespace: it has an address, and is the master service, which
-- is `kubernetes` of the namespace `default`, or stands in the pod's namespace while links are
-- enabled.
abbrev pub HasAddress : Service → Type 0
HasAddress s = (s.cluster_ip ≢ []) × (s.cluster_ip ≢ ascii "None")

abbrev pub IsMaster : Service → Type 0
IsMaster s = (s.namespace ≡ ascii "default") × (s.name ≡ ascii "kubernetes")

abbrev pub IsSeen : Bytes → Bool → Service → Type 0
IsSeen ns links s = HasAddress s × (IsMaster s ⊎ ((s.namespace ≡ ns) × (links ≡ true)))

-- The same by the tests of the code.
abbrev IsTested : Bytes → Bool → Service → Type 0
IsTested ns links s =
    (is_service_ip_set s ≡ true)
    × ((is_master_service s ≡ true) ⊎ ((equals s.namespace ns ≡ true) × (links ≡ true)))

is_service_ip_set-HasAddress : (s : Service) → (is_service_ip_set s ≡ true) ↔ HasAddress s
unfolding is_service_ip_set
is_service_ip_set-HasAddress s =
    let none = ascii "None" in
    let both = and_iff (not (equals s.cluster_ip none)) (not (equals s.cluster_ip [])) in
    let named = not-ite_iff (bytes_dec s.cluster_ip none) in
    let blank = not-ite_iff (bytes_dec s.cluster_ip []) in
    (λ h. (blank.0 (both.0 h).1, named.0 (both.0 h).0), λ a. both.1 (named.1 a.1, blank.1 a.0))

is_master_service-IsMaster : (s : Service) → (is_master_service s ≡ true) ↔ IsMaster s
unfolding is_master_service
is_master_service-IsMaster s =
    let default = ascii "default" in
    let kubernetes = ascii "kubernetes" in
    let both = and_iff (equals s.namespace default) (equals s.name kubernetes) in
    let there = ite_iff (bytes_dec s.namespace default) in
    let named = ite_iff (bytes_dec s.name kubernetes) in
    (λ h. (there.0 (both.0 h).0, named.0 (both.0 h).1), λ m. both.1 (there.1 m.0, named.1 m.1))

IsTested-IsSeen :
    (ns : Bytes) (links : Bool) (s : Service) → IsTested ns links s ↔ IsSeen ns links s
IsTested-IsSeen ns links s =
    let address = is_service_ip_set-HasAddress s in
    let master = is_master_service-IsMaster s in
    let here = ite_iff (bytes_dec s.namespace ns) in
    (
      λ t. (address.0 t.0, elim t.1 [ inl m ↦ inl (master.0 m) | inr l ↦ inr (here.0 l.0, l.1) ]),
      λ v. (address.1 v.0, elim v.1 [ inl m ↦ inl (master.1 m) | inr l ↦ inr (here.1 l.0, l.1) ]),
    )

abbrev pub Holds : (Service → Type 0) → List (Bytes × Service) → Type 0
Holds P m = (j : Bytes) (s : Service) → get bytes_dec j m ≡ some s → P s

put-Holds :
    (P : Service → Type 0) (k : Bytes) (s : Service) (m : List (Bytes × Service))
    → P s
    → Holds P m
    → Holds P (put bytes_dec k s m)
put-Holds P k s m p h j t e = elim (bytes_dec k j) [
  | yes q ↦ subst P (some_cancel (sym (get-put bytes_dec k j s m ∙ rw (if_pos _ q)) ∙ e)) p
  | no n ↦ h j t (sym (get-put bytes_dec k j s m ∙ rw (if_neg _ n)) ∙ e)
]

add_service-Holds :
    (ns : Bytes) (links : Bool) (s : Service) (m : List (Bytes × Service))
    → Holds (IsTested ns links) m
    → Holds (IsTested ns links) (add_service ns links s m)
unfolding add_service
add_service-Holds ns links s m h = elim (Bool-cases (is_service_ip_set s)) [
  | inr unset ↦ rw (unset, add_service) h
  | inl set ↦ elim (Bool-cases (is_master_service s)) [
    | inl master ↦ elim (Option-cases (get bytes_dec s.name m)) [
      | inr (t, there) ↦ rw (set, master, there, add_service) h
      | inl absent ↦
          rw (set, master, absent, add_service)
            (put-Holds (IsTested ns links) s.name s m (set, inl master) h)
    ]
    | inr other ↦ elim (Bool-cases (equals s.namespace ns)) [
      | inr elsewhere ↦ rw (set, other, elsewhere, add_service) h
      | inl here ↦ elim (Bool-cases links) [
        | inr off ↦ subst (λ b. Holds (IsTested ns links) b) (sym (unlinked set other here off)) h
        | inl on ↦
            subst (λ b. Holds (IsTested ns links) b) (sym (linked set other here on))
              (put-Holds (IsTested ns links) s.name s m (set, inr (here, on)) h)
      ]
    ]
  ]
]
  where
    linked :
        is_service_ip_set s ≡ true
        → is_master_service s ≡ false
        → equals s.namespace ns ≡ true
        → links ≡ true
        → add_service ns links s m ≡ put bytes_dec s.name s m
    linked set other here on = simp (set, other, here, on, add_service)

    unlinked :
        is_service_ip_set s ≡ true
        → is_master_service s ≡ false
        → equals s.namespace ns ≡ true
        → links ≡ false
        → add_service ns links s m ≡ m
    unlinked set other here off = simp (set, other, here, off, add_service)

select_services-Holds :
    (ns : Bytes) (links : Bool) (services : List Service) (m : List (Bytes × Service))
    → Holds (IsTested ns links) m
    → Holds (IsTested ns links) (select_services ns links services m)
unfolding select_services
select_services-Holds ns links [] m h = h
select_services-Holds ns links (s ∷ services) m h =
    select_services-Holds ns links services (add_service ns links s m)
      (add_service-Holds ns links s m h)

-- A name that is there stays there.
add_service-kept :
    (ns : Bytes) (links : Bool) (s : Service) (m : List (Bytes × Service)) (k : Bytes)
    → get bytes_dec k m ≢ none
    → get bytes_dec k (add_service ns links s m) ≢ none
unfolding add_service
add_service-kept ns links s m k h = ground (arith, get-put bytes_dec s.name k s m)

select_services-kept :
    (ns : Bytes) (links : Bool) (services : List Service) (m : List (Bytes × Service)) (k : Bytes)
    → get bytes_dec k m ≢ none
    → get bytes_dec k (select_services ns links services m) ≢ none
unfolding select_services
select_services-kept ns links [] m k h = h
select_services-kept ns links (s ∷ services) m k h =
    select_services-kept ns links services (add_service ns links s m) k
      (add_service-kept ns links s m k h)

add_service-added :
    (ns : Bytes) (links : Bool) (s : Service) (m : List (Bytes × Service))
    → IsTested ns links s
    → get bytes_dec s.name (add_service ns links s m) ≢ none
unfolding add_service
add_service-added ns links s m v = ground (arith, v, get-put bytes_dec s.name s.name s m)

select_services-added :
    (ns : Bytes) (links : Bool) (services : List Service) (m : List (Bytes × Service))
    → All
        (λ s.
          IsTested ns links s → get bytes_dec s.name (select_services ns links services m) ≢ none)
        services
unfolding select_services
select_services-added ns links [] m = tt
select_services-added ns links (s ∷ services) m = (
  λ v.
      select_services-kept ns links services (add_service ns links s m) s.name
        (add_service-added ns links s m v),
  select_services-added ns links services (add_service ns links s m),
)

-- The services chosen for a pod are such as the pod sees: they have an address, which is neither blank
-- nor `None`, and are the master service, which is `kubernetes` of the namespace `default`, or stand in
-- the namespace of the pod while its links are enabled. And of every service
-- listed that the pod sees there is one of the same name among them.
pub select_services-IsSeen :
    (ns : Bytes) (links : Bool) (services : List Service)
    → Holds (IsSeen ns links) (select_services ns links services [])
      × All
          (λ s.
            IsSeen ns links s → get bytes_dec s.name (select_services ns links services []) ≢ none)
          services
unfolding get
select_services-IsSeen ns links services = (
  λ j s e.
      (IsTested-IsSeen ns links s).0
        (select_services-Holds ns links services [] (λ i t f. absurd (ground arith)) j s e),
  All-imp
      (λ s.
        IsTested ns links s → get bytes_dec s.name (select_services ns links services []) ≢ none)
      (λ s. IsSeen ns links s → get bytes_dec s.name (select_services ns links services []) ≢ none)
      (λ s h v. h ((IsTested-IsSeen ns links s).1 v)) services
      (select_services-added ns links services []),
)
