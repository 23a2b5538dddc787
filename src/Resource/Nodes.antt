-- ===== src/Resource/Nodes.antt =====
-- pkg/common/node.go: adding resources to a node and taking them away.
use clusterrouter.Base.{
  String, ◌≡◌, refl, ap, ◌∙◌, Option, none, some, Map, lookup, insert, for_range, text_dec, ite,
  Distinct, lookup-insert, insert-Distinct, lookup-for_range, for_range-Distinct,
}
use clusterrouter.Resource.{
  Quantities, resource_cpu, resource_memory, resource_pods, resource_ephemeral_storage, Resource,
  or_zero, amount, add_custom, sub_custom, add, sub, convert_resource, NodeStatus,
  set_capacity_to_node, add_resource, sub_resource,
}
use clusterrouter.Resource.Amounts.{quantity_of, quantity_of-add, quantity_of-sub}
use clusterrouter.Resource.Capacity.{
  IsPlain, convert_resource-IsPlain, convert_resource-amount, node_capacity-amount,
  node_capacity-Distinct,
}

module _ (U : Quantities) where
  open U use {Quantity, zero_quantity}

  absent_after :
      (f : Option Quantity → Quantity → Option Quantity)
      (body : Map Quantity → String → Quantity → Map Quantity)
      → ((l : Map Quantity) (k : String) (v : Quantity) (j : String)
          → lookup j (body l k v) ≡ ite (text_dec k j) (f (lookup k l) v) (lookup j l))
      → (l m : Map Quantity) → Distinct m
      → (j : String) → lookup j l ≡ none
      → lookup j m ≡ none
      → lookup j (for_range body l m) ≡ none
  absent_after f body h l m d j a b = lookup-for_range body f h l m d j ∙ rw b a

  looped-IsPlain :
      (op : Quantity → Quantity → Quantity) (body : Map Quantity → String → Quantity → Map Quantity)
      → ((l : Map Quantity) (k : String) (v : Quantity)
          → body l k v ≡ insert k (op (amount U k l) v) l)
      → (r nc : Resource U) → IsPlain U r
      → IsPlain U nc
      → IsPlain U (record r { custom = for_range body r.custom nc.custom })
  looped-IsPlain op body h r nc p q = record {
    distinct =
        for_range-Distinct body (λ l k v d. rw (h l k v) (insert-Distinct k _ l d)) r.custom
          nc.custom p.distinct;
    no_cpu = gone resource_cpu p.no_cpu q.no_cpu;
    no_memory = gone resource_memory p.no_memory q.no_memory;
    no_pods = gone resource_pods p.no_pods q.no_pods;
    no_ephemeral_storage =
        gone resource_ephemeral_storage p.no_ephemeral_storage q.no_ephemeral_storage;
  }
    where
      gone :
          (j : String)
          → lookup j r.custom ≡ none
          → lookup j nc.custom ≡ none
          → lookup j (for_range body r.custom nc.custom) ≡ none
      gone j =
          absent_after (λ o v. some (op (or_zero U o) v)) body
            (λ l k v j. rw (h l k v) (lookup-insert k j _ l)) r.custom nc.custom q.distinct j

  pub add-IsPlain : (r nc : Resource U) → IsPlain U r → IsPlain U nc → IsPlain U (add U r nc)
  unfolding add add_custom
  add-IsPlain r nc p q =
      let v = looped-IsPlain U.add (add_custom U) (λ l k v. refl) r nc p q in
      record {
        distinct = v.distinct;
        no_cpu = v.no_cpu;
        no_memory = v.no_memory;
        no_pods = v.no_pods;
        no_ephemeral_storage = v.no_ephemeral_storage;
      }

  pub sub-IsPlain : (r nc : Resource U) → IsPlain U r → IsPlain U nc → IsPlain U (sub U r nc)
  unfolding sub sub_custom
  sub-IsPlain r nc p q =
      let v = looped-IsPlain U.sub (sub_custom U) (λ l k v. refl) r nc p q in
      record {
        distinct = v.distinct;
        no_cpu = v.no_cpu;
        no_memory = v.no_memory;
        no_pods = v.no_pods;
        no_ephemeral_storage = v.no_ephemeral_storage;
      }

  -- Adding to a node that is set adds the resource's quantity of each name to what the capacity
  -- had; the allocatable resources are the capacity, and the names stay distinct.
  pub add_resource-amount :
      (n : NodeStatus U) (x : Resource U)
      → Distinct n.capacity
      → IsPlain U x
      → (n' : NodeStatus U) × (add_resource U (some n) x ≡ some n')
        × ((name : String)
            → amount U name n'.capacity ≡ U.add (amount U name n.capacity) (quantity_of U x name))
        × (n'.allocatable ≡ n'.capacity)
        × Distinct n'.capacity
  unfolding add_resource set_capacity_to_node
  add_resource-amount n x d p =
      let r = convert_resource U n.capacity in
      (
        _,
        refl,
        λ name.
            node_capacity-amount U (add U r x)
              (add-IsPlain r x (convert_resource-IsPlain U n.capacity) p) name
            ∙ quantity_of-add U r x p.distinct name
            ∙ ap (λ q. U.add q (quantity_of U x name))
                (convert_resource-amount U n.capacity d name),
        refl,
        node_capacity-Distinct U (add U r x),
      )

  pub sub_resource-amount :
      (n : NodeStatus U) (x : Resource U)
      → Distinct n.capacity
      → IsPlain U x
      → (n' : NodeStatus U) × (sub_resource U (some n) x ≡ some n')
        × ((name : String)
            → amount U name n'.capacity ≡ U.sub (amount U name n.capacity) (quantity_of U x name))
        × (n'.allocatable ≡ n'.capacity)
        × Distinct n'.capacity
  unfolding sub_resource set_capacity_to_node
  sub_resource-amount n x d p =
      let r = convert_resource U n.capacity in
      (
        _,
        refl,
        λ name.
            node_capacity-amount U (sub U r x)
              (sub-IsPlain r x (convert_resource-IsPlain U n.capacity) p) name
            ∙ quantity_of-sub U r x p.distinct name
            ∙ ap (λ q. U.sub q (quantity_of U x name))
                (convert_resource-amount U n.capacity d name),
        refl,
        node_capacity-Distinct U (sub U r x),
      )

  -- Taking away what was added leaves a node with the quantity that it had of every name, and
  -- neither of the two calls fails.
  pub sub_resource-add_resource :
      (n : NodeStatus U) (x : Resource U)
      → Distinct n.capacity
      → IsPlain U x
      → (n' n'' : NodeStatus U) × (add_resource U (some n) x ≡ some n')
        × (sub_resource U (some n') x ≡ some n'')
        × ((name : String) → amount U name n''.capacity ≡ amount U name n.capacity)
  sub_resource-add_resource n x d p =
      let (n', e', h', _, d') = add_resource-amount n x d p in
      let (n'', e'', h'', _, _) = sub_resource-amount n' x d' p in
      (
        n',
        n'',
        e',
        e'',
        λ name.
            h'' name
            ∙ ap (λ q. U.sub q (quantity_of U x name)) (h' name)
            ∙ U.sub-add (amount U name n.capacity) (quantity_of U x name),
      )
