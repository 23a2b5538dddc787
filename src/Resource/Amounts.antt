-- ===== src/Resource/Amounts.antt =====
-- pkg/common/resource.go: a resource read as one quantity for each name.
use clusterrouter.Base.{
  String, ◌≡◌, ◌⊎◌, refl, sym, ap, ◌∙◌, Option, none, some, Map, lookup, for_range, text_dec, ite,
  arith, Distinct, lookup-insert, updated, lookup-for_range,
}
use clusterrouter.Resource.{
  Quantities, resource_cpu, resource_memory, resource_pods, resource_ephemeral_storage, Resource,
  or_zero, amount, add_custom, sub_custom, add, sub, convert_one,
}

module _ (U : Quantities) where
  open U use {Quantity, zero_quantity}

  -- The quantity of a name: a field, or an entry of the custom resources.
  unfoldable pub quantity_of : Resource U → String → Quantity
  quantity_of r name = ite (text_dec name resource_cpu) r.cpu (
      ite (text_dec name resource_memory) r.memory (
        ite (text_dec name resource_pods) r.pods (
          ite (text_dec name resource_ephemeral_storage) r.ephemeral_storage
            (amount U name r.custom))))

  abbrev pub IsStandard : String → Type 0
  IsStandard name =
      (name ≡ resource_cpu)
      ⊎ (name ≡ resource_memory)
      ⊎ (name ≡ resource_pods)
      ⊎ (name ≡ resource_ephemeral_storage)

  amount-for_range :
      (op : Quantity → Quantity → Quantity) (body : Map Quantity → String → Quantity → Map Quantity)
      → ((a : Quantity) → op a zero_quantity ≡ a)
      → ((l : Map Quantity) (k : String) (v : Quantity) (j : String)
          → lookup j (body l k v) ≡ ite (text_dec k j) (some (op (amount U k l) v)) (lookup j l))
      → (l m : Map Quantity) → Distinct m
      → (j : String) → amount U j (for_range body l m) ≡ op (amount U j l) (amount U j m)
  amount-for_range op body unit h l m d j =
      let e = lookup-for_range body (λ o v. some (op (or_zero U o) v)) h l m d j in
      rw e (cases (lookup j l) (lookup j m))
    where
      cases :
          (o p : Option Quantity)
          → or_zero U (updated (λ q v. some (op (or_zero U q) v)) o p)
            ≡ op (or_zero U o) (or_zero U p)
      cases o none = sym (unit (or_zero U o))
      cases o (some v) = refl

  -- `Add` adds the quantities of every name.
  pub quantity_of-add :
      (r nc : Resource U)
      → Distinct nc.custom
      → (name : String)
      → quantity_of (add U r nc) name ≡ U.add (quantity_of r name) (quantity_of nc name)
  unfolding quantity_of add add_custom
  quantity_of-add r nc d name = ground (
    arith,
    amount-for_range U.add (add_custom U) U.add_zero (λ l k v j. lookup-insert k j _ l) r.custom
        nc.custom d name,
  )

  pub quantity_of-sub :
      (r nc : Resource U)
      → Distinct nc.custom
      → (name : String)
      → quantity_of (sub U r nc) name ≡ U.sub (quantity_of r name) (quantity_of nc name)
  unfolding quantity_of sub sub_custom
  quantity_of-sub r nc d name = ground (
    arith,
    amount-for_range U.sub (sub_custom U) U.sub_zero (λ l k v j. lookup-insert k j _ l) r.custom
        nc.custom d name,
  )

  -- What was added can be taken away again: every name has its old quantity.
  pub sub_add_cancel :
      (r nc : Resource U)
      → Distinct nc.custom
      → (name : String) → quantity_of (sub U (add U r nc) nc) name ≡ quantity_of r name
  sub_add_cancel r nc d name =
      quantity_of-sub (add U r nc) nc d name
      ∙ ap (λ q. U.sub q (quantity_of nc name)) (quantity_of-add r nc d name)
      ∙ U.sub-add (quantity_of r name) (quantity_of nc name)

  pub convert_one-quantity_of :
      (r : Resource U) (k : String) (v : Quantity) (name : String)
      → quantity_of (convert_one U r k v) name ≡ ite (text_dec k name) v (quantity_of r name)
  unfolding quantity_of convert_one
  convert_one-quantity_of r k v name = ground (arith, lookup-insert k name v r.custom)
