-- ===== src/Resource/Capacity.antt =====
-- pkg/common/resource.go and pkg/common/node.go: the capacity of a node.
use clusterrouter.Base.{
  String, ◌≡◌, inl, inr, refl, sym, ap, subst, ◌∙◌, Option, none, some, [], ◌∷◌, Map, lookup,
  text_dec, if_pos, if_neg, arith, Distinct, lookup-insert, insert-Distinct, updated,
  lookup-for_range, for_range-Distinct, Bool-cases,
}
use clusterrouter.Resource.{
  Quantities, resource_cpu, resource_memory, resource_pods, resource_ephemeral_storage, Resource,
  new_resource, or_zero, amount, convert_one, convert_from, convert_resource, nonzero, write_quota,
  node_capacity,
}
use clusterrouter.Resource.Amounts.{quantity_of, convert_one-quantity_of}

module _ (U : Quantities) where
  open U use {Quantity, zero_quantity}

  -- The custom resources have each name once, and none that a field stands for.
  pub record IsPlain (r : Resource U) : Type 0 where
    pub distinct : Distinct r.custom
    pub no_cpu : lookup resource_cpu r.custom ≡ none
    pub no_memory : lookup resource_memory r.custom ≡ none
    pub no_pods : lookup resource_pods r.custom ≡ none
    pub no_ephemeral_storage : lookup resource_ephemeral_storage r.custom ≡ none

  convert_one-IsPlain :
      (r : Resource U) (k : String) (v : Quantity) → IsPlain r → IsPlain (convert_one U r k v)
  unfolding convert_one
  convert_one-IsPlain r k v p = record {
    distinct = ground (arith, p.distinct, insert-Distinct k v r.custom p.distinct);
    no_cpu = ground (arith, p.no_cpu, lookup-insert k resource_cpu v r.custom);
    no_memory = ground (arith, p.no_memory, lookup-insert k resource_memory v r.custom);
    no_pods = ground (arith, p.no_pods, lookup-insert k resource_pods v r.custom);
    no_ephemeral_storage =
        ground
          (arith, p.no_ephemeral_storage, lookup-insert k resource_ephemeral_storage v r.custom);
  }

  convert_from-IsPlain :
      (r : Resource U) (m : Map Quantity) → IsPlain r → IsPlain (convert_from U r m)
  unfolding convert_from
  convert_from-IsPlain r [] p = p
  convert_from-IsPlain r ((k, v) ∷ m) p =
      convert_from-IsPlain (convert_one U r k v) m (convert_one-IsPlain r k v p)

  pub convert_resource-IsPlain : (m : Map Quantity) → IsPlain (convert_resource U m)
  unfolding convert_resource new_resource lookup
  convert_resource-IsPlain m = convert_from-IsPlain (new_resource U) m (record {
    distinct = tt;
    no_cpu = refl;
    no_memory = refl;
    no_pods = refl;
    no_ephemeral_storage = refl;
  })

  abbrev or_quantity : Option Quantity → Quantity → Quantity
  or_quantity none q = q
  or_quantity (some v) q = v

  convert_from-quantity_of :
      (r : Resource U) (m : Map Quantity)
      → Distinct m
      → (name : String)
      → quantity_of U (convert_from U r m) name ≡ or_quantity (lookup name m) (quantity_of U r name)
  unfolding convert_from lookup
  convert_from-quantity_of r [] d name = refl
  convert_from-quantity_of r ((k, v) ∷ m) d name =
      let ih = convert_from-quantity_of (convert_one U r k v) m d.1 name in
      let one = convert_one-quantity_of U r k v name in
      elim (text_dec k name) [
        | yes e ↦
            let absent : lookup name m ≡ none = subst (λ i. lookup i m ≡ none) e d.0 in
            rw (if_pos _ e) (ih ∙ rw absent (one ∙ rw (if_pos _ e)))
        | no n ↦ rw (if_neg _ n) (ih ∙ ap (or_quantity (lookup name m)) (one ∙ rw (if_neg _ n)))
      ]

  new_resource-zero : (name : String) → quantity_of U (new_resource U) name ≡ zero_quantity
  unfolding quantity_of new_resource lookup
  new_resource-zero name = ground arith

  -- `ConvertResource` loses no name: each has the quantity that the list gives it.
  pub convert_resource-amount :
      (m : Map Quantity)
      → Distinct m
      → (name : String) → quantity_of U (convert_resource U m) name ≡ amount U name m
  unfolding convert_resource
  convert_resource-amount m d name =
      convert_from-quantity_of (new_resource U) m d name
      ∙ cases (lookup name m) (new_resource-zero name)
    where
      cases :
          (o : Option Quantity)
          → quantity_of U (new_resource U) name ≡ zero_quantity
          → or_quantity o (quantity_of U (new_resource U) name) ≡ or_zero U o
      cases none e = e
      cases (some v) e = refl

  nonzero_lem : (q : Quantity) → nonzero U q ≡ q
  unfolding nonzero
  nonzero_lem q = elim (Bool-cases (U.is_zero q)) [
    | inl z ↦ rw z (sym ((U.is_zero_iff q).0 z))
    | inr n ↦ rw n
  ]

  abbrev fields_of : Resource U → Map Quantity
  fields_of r =
      (resource_cpu, nonzero U r.cpu)
      ∷ (resource_memory, nonzero U r.memory)
      ∷ (resource_pods, nonzero U r.pods)
      ∷ (resource_ephemeral_storage, nonzero U r.ephemeral_storage)
      ∷ []

  written-amount :
      (r : Resource U)
      → IsPlain r
      → (name : String)
      → or_zero U (updated (λ _ v. some v) (lookup name (fields_of r)) (lookup name r.custom))
        ≡ quantity_of U r name
  unfolding quantity_of lookup
  written-amount r p name = ground (
    arith,
    nonzero_lem r.cpu,
    nonzero_lem r.memory,
    nonzero_lem r.pods,
    nonzero_lem r.ephemeral_storage,
    p.no_cpu,
    p.no_memory,
    p.no_pods,
    p.no_ephemeral_storage,
  )

  -- Each name has its quantity in the capacity that is written to a node.
  pub node_capacity-amount :
      (r : Resource U)
      → IsPlain r
      → (name : String) → amount U name (node_capacity U r) ≡ quantity_of U r name
  unfolding node_capacity write_quota
  node_capacity-amount r p name =
      let e =
        lookup-for_range (write_quota U) (λ _ v. some v) (λ l k v j. lookup-insert k j v l)
          (fields_of r) r.custom p.distinct name in
      ap (or_zero U) e ∙ written-amount r p name

  fields-Distinct : (r : Resource U) → Distinct (fields_of r)
  unfolding lookup text_dec
  fields-Distinct r = (refl, (refl, (refl, (refl, tt))))

  pub node_capacity-Distinct : (r : Resource U) → Distinct (node_capacity U r)
  unfolding node_capacity write_quota
  node_capacity-Distinct r =
      for_range-Distinct (write_quota U) (λ l k v d. insert-Distinct k v l d) (fields_of r) r.custom
        (fields-Distinct r)
