-- ===== src/Provider/Sums.antt =====
-- pkg/plugins/virtualk8s/node.go: what the sums over nodes and pods have of each name.
use clusterrouter.Base.{
  ℕ, String, Map, ◌≡◌, refl, subst, ap₂, lookup, ap, ◌∙◌, Bool, true, false, Option, none, some,
  List, [], ◌∷◌, All, Distinct, if◌then◌else◌, arith,
}
use clusterrouter.Resource.{
  Quantities, Resource, NodeStatus, new_resource, amount, add, sub, convert_from, convert_resource,
  set_capacity_to_node,
}
use clusterrouter.Resource.Amounts.{quantity_of, quantity_of-add, quantity_of-sub}
use clusterrouter.Resource.Requests.{get_request_from_pod, pod_requests_and_limits}
use clusterrouter.Resource.Capacity.{
  IsPlain, convert_resource-IsPlain, convert_resource-amount, node_capacity-amount,
}
use clusterrouter.Resource.Nodes.{add-IsPlain, sub-IsPlain}
use clusterrouter.Controllers.Api.{Answer}
use clusterrouter.Provider.Members.{LowerNode, LowerPod}
use clusterrouter.Provider.Capacity.{
  pod_request, pod_resource, is_usable, takes_capacity, sum_pods, is_local, get_resource_from_pods,
  get_resource_from_pods_by_node_name, sum_nodes, Surroundings, VirtualNode, changed, described,
  configure_node,
}

module _ (U : Quantities) (enabled : Bool) (one : U.Quantity) where
  open U use {Quantity, zero_quantity}

  pub pod_request-IsPlain : (pod : LowerPod U) → IsPlain U (pod_request U enabled one pod)
  unfolding pod_request get_request_from_pod
  pod_request-IsPlain pod =
      convert_resource-IsPlain U (pod_requests_and_limits U enabled pod.spec).0

  pub pod_resource-IsPlain : (pod : LowerPod U) → IsPlain U (pod_resource U enabled one pod)
  unfolding pod_resource
  pod_resource-IsPlain pod =
      let p = pod_request-IsPlain pod in
      record {
        distinct = p.distinct;
        no_cpu = p.no_cpu;
        no_memory = p.no_memory;
        no_pods = p.no_pods;
        no_ephemeral_storage = p.no_ephemeral_storage;
      }

  pub new_resource-IsPlain : IsPlain U (new_resource U)
  unfolding convert_resource convert_from
  new_resource-IsPlain = convert_resource-IsPlain U []

  pub sum_pods-IsPlain :
      (counts : LowerPod U → Bool) (total : Resource U) (pods : List (LowerPod U))
      → IsPlain U total
      → IsPlain U (sum_pods U enabled one counts total pods)
  unfolding sum_pods
  sum_pods-IsPlain counts total [] p = p
  sum_pods-IsPlain counts total (pod ∷ pods) p =
      sum_pods-IsPlain counts
        (if counts pod then add U total (pod_resource U enabled one pod) else total) pods
        (one_more (counts pod))
    where
      one_more :
          (b : Bool) → IsPlain U (if b then add U total (pod_resource U enabled one pod) else total)
      one_more true =
          add-IsPlain U total (pod_resource U enabled one pod) p (pod_resource-IsPlain pod)
      one_more false = p

  pub by_node_name-IsPlain :
      (pods : Option (List (LowerPod U)))
      → IsPlain U (get_resource_from_pods_by_node_name U enabled one pods)
  unfolding get_resource_from_pods_by_node_name
  by_node_name-IsPlain none = new_resource-IsPlain
  by_node_name-IsPlain (some pods) =
      sum_pods-IsPlain (is_local U enabled one) (new_resource U) pods new_resource-IsPlain

  -- What is counted of one name.
  abbrev pub plus_if : Bool → Quantity → Quantity → Quantity
  plus_if b q total = if b then U.add total q else total

  abbrev pub pods_total : (LowerPod U → Bool) → String → Quantity → List (LowerPod U) → Quantity
  pods_total counts name total [] = total
  pods_total counts name total (pod ∷ pods) =
      pods_total counts name
        (plus_if (counts pod) (quantity_of U (pod_resource U enabled one pod) name) total) pods

  abbrev pub nodes_total : String → Quantity → List (LowerNode U) → Quantity
  nodes_total name total [] = total
  nodes_total name total (n ∷ nodes) =
      nodes_total name (plus_if (is_usable U enabled one n) (amount U name n.capacity) total) nodes

  pod_plus :
      (total : Resource U) (pod : LowerPod U) (name : String) (b : Bool)
      → quantity_of U (if b then add U total (pod_resource U enabled one pod) else total) name
        ≡ plus_if b (quantity_of U (pod_resource U enabled one pod) name) (quantity_of U total name)
  pod_plus total pod name true =
      quantity_of-add U total (pod_resource U enabled one pod) (pod_resource-IsPlain pod).distinct
        name
  pod_plus total pod name false = refl

  pub sum_pods-total :
      (counts : LowerPod U → Bool) (total : Resource U) (pods : List (LowerPod U)) (name : String)
      → quantity_of U (sum_pods U enabled one counts total pods) name
        ≡ pods_total counts name (quantity_of U total name) pods
  unfolding sum_pods
  sum_pods-total counts total [] name = refl
  sum_pods-total counts total (pod ∷ pods) name =
      sum_pods-total counts
        (if counts pod then add U total (pod_resource U enabled one pod) else total) pods name
      ∙ ap (λ q. pods_total counts name q pods) (pod_plus total pod name (counts pod))

  abbrev pub HasDistinct : LowerNode U → Type 0
  HasDistinct n = Distinct n.capacity

  node_plus :
      (total : Resource U) (n : LowerNode U) (name : String) (b : Bool)
      → Distinct n.capacity
      → quantity_of U (if b then add U total (convert_resource U n.capacity) else total) name
        ≡ plus_if b (amount U name n.capacity) (quantity_of U total name)
  node_plus total n name true d =
      quantity_of-add U total (convert_resource U n.capacity)
        (convert_resource-IsPlain U n.capacity).distinct name
      ∙ ap (U.add (quantity_of U total name)) (convert_resource-amount U n.capacity d name)
  node_plus total n name false d = refl

  pub sum_nodes-total :
      (total : Resource U) (nodes : List (LowerNode U)) (name : String)
      → All HasDistinct nodes
      → quantity_of U (sum_nodes U enabled one total nodes) name
        ≡ nodes_total name (quantity_of U total name) nodes
  unfolding sum_nodes
  sum_nodes-total total [] name d = refl
  sum_nodes-total total (n ∷ nodes) name d =
      sum_nodes-total
        (if is_usable U enabled one n then add U total (convert_resource U n.capacity) else total)
        nodes name d.1
      ∙ ap (λ q. nodes_total name q nodes) (node_plus total n name (is_usable U enabled one n) d.0)

  pub sum_nodes-IsPlain :
      (total : Resource U) (nodes : List (LowerNode U))
      → IsPlain U total
      → IsPlain U (sum_nodes U enabled one total nodes)
  unfolding sum_nodes
  sum_nodes-IsPlain total [] p = p
  sum_nodes-IsPlain total (n ∷ nodes) p =
      sum_nodes-IsPlain
        (if is_usable U enabled one n then add U total (convert_resource U n.capacity) else total)
        nodes (one_more (is_usable U enabled one n))
    where
      one_more :
          (b : Bool) → IsPlain U (if b then add U total (convert_resource U n.capacity) else total)
      one_more true =
          add-IsPlain U total (convert_resource U n.capacity) p
            (convert_resource-IsPlain U n.capacity)
      one_more false = p

  new_resource-quantity_of : (name : String) → quantity_of U (new_resource U) name ≡ zero_quantity
  unfolding quantity_of new_resource lookup
  new_resource-quantity_of name = ground arith

  -- The lists of pods that could be had.
  abbrev pub listed : {A : Type 0} → Option (List A) → List A
  listed none = []
  listed (some xs) = xs

  from_pods-IsPlain :
      (nodes : String → Answer (LowerNode U)) (pods : Option (List (LowerPod U)))
      → IsPlain U (get_resource_from_pods U enabled one nodes pods)
  unfolding get_resource_from_pods
  from_pods-IsPlain nodes none = new_resource-IsPlain
  from_pods-IsPlain nodes (some pods) =
      sum_pods-IsPlain (takes_capacity U enabled one nodes) (new_resource U) pods
        new_resource-IsPlain

  from_pods-total :
      (nodes : String → Answer (LowerNode U)) (pods : Option (List (LowerPod U))) (name : String)
      → quantity_of U (get_resource_from_pods U enabled one nodes pods) name
        ≡ pods_total (takes_capacity U enabled one nodes) name zero_quantity (listed pods)
  unfolding get_resource_from_pods
  from_pods-total nodes none name = new_resource-quantity_of name
  from_pods-total nodes (some pods) name =
      sum_pods-total (takes_capacity U enabled one nodes) (new_resource U) pods name
      ∙ ap (λ q. pods_total (takes_capacity U enabled one nodes) name q pods)
          (new_resource-quantity_of name)

  described-status :
      (env : Surroundings U enabled one) (version : String) (port : ℕ) (status : NodeStatus U)
      (node' : VirtualNode U enabled one) (labels : Option (Map String))
      → described U enabled one env version port status labels ≡ changed node'
      → status ≡ node'.status
  unfolding described
  described-status env version port status node' none e = cc
  described-status env version port status node' (some labels) e =
      ap (λ (n : VirtualNode U enabled one). n.status) (changed_cancel e)
    where
      changed_cancel : {a b : VirtualNode U enabled one} → changed a ≡ changed b → a ≡ b
      changed_cancel f = cc

  -- The capacity of the node that stands for the member cluster, by the totals of the loops.
  pub configure_node-totals :
      (env : Surroundings U enabled one) (version : String) (port : ℕ) (lower : List (LowerNode U))
      (nodes : String → Answer (LowerNode U)) (pods : Option (List (LowerPod U)))
      (node node' : VirtualNode U enabled one)
      → All HasDistinct lower
      → configure_node U enabled one env version port (some lower) nodes pods node ≡ changed node'
      → (name : String)
      → (amount U name node'.status.capacity
          ≡ U.sub
              (nodes_total name zero_quantity lower)
              (pods_total (takes_capacity U enabled one nodes) name zero_quantity (listed pods)))
        × (node'.status.allocatable ≡ node'.status.capacity)
  unfolding configure_node set_capacity_to_node
  configure_node-totals env version port lower nodes pods node node' d e name =
      let total = sum_nodes U enabled one (new_resource U) lower in
      let used = get_resource_from_pods U enabled one nodes pods in
      let used_plain = from_pods-IsPlain nodes pods in
      let total_plain = sum_nodes-IsPlain (new_resource U) lower new_resource-IsPlain in
      subst
        (λ n.
          (amount U name n.capacity
            ≡ U.sub (nodes_total name zero_quantity lower)
                (pods_total (takes_capacity U enabled one nodes) name zero_quantity (listed pods)))
          × (n.allocatable ≡ n.capacity))
        (described-status env version port _ node' node.labels e)
        (
          node_capacity-amount U (sub U total used)
                (sub-IsPlain U total used total_plain used_plain) name
              ∙ quantity_of-sub U total used used_plain.distinct name
              ∙ ap₂ U.sub
                  (sum_nodes-total (new_resource U) lower name d
                    ∙ ap (λ q. nodes_total name q lower) (new_resource-quantity_of name))
                  (from_pods-total nodes pods name),
          refl,
        )
