-- ===== src/Provider/Remaining.antt =====
-- pkg/plugins/virtualk8s/node.go: the capacity that the node for the member cluster gets, as a sum over
-- the nodes and the pods that count.
use clusterrouter.Base.{
  ℕ, String, ◌≡◌, ◌⊎◌, ◌↔◌, inl, inr, refl, subst, Bool, true, false, Option, some, List, [], ◌∷◌,
  All,
}
use clusterrouter.Resource.{Quantities, amount}
use clusterrouter.Resource.Amounts.{quantity_of}
use clusterrouter.Controllers.Api.{Answer}
use clusterrouter.Provider.Members.{LowerNode, LowerPod}
use clusterrouter.Provider.Capacity.{
  pod_resource, is_usable, takes_capacity, Surroundings, VirtualNode, changed, configure_node,
}
use clusterrouter.Provider.Sums.{
  plus_if, pods_total, nodes_total, listed, HasDistinct, configure_node-totals,
}
use clusterrouter.Provider.Placed.{
  IsUsable, TakesCapacity, is_usable-IsUsable, takes_capacity-TakesCapacity, asks,
  pod_resource-asks,
}

module _ (U : Quantities) (enabled : Bool) (one : U.Quantity) where
  open U use {Quantity, zero_quantity}

  -- The sum of the amounts of a name over the nodes that are usable, from a first quantity.
  abbrev pub NodesSum : String → Quantity → List (LowerNode U) → Quantity → Type 0
  NodesSum name q [] r = r ≡ q
  NodesSum name q (node ∷ nodes) r =
      (IsUsable U node × NodesSum name (U.add q (amount U name node.capacity)) nodes r)
      ⊎ ((IsUsable U node → ⊥) × NodesSum name q nodes r)

  -- The sum of what the pods take that count.
  abbrev pub PodsSum :
      (String → Answer (LowerNode U)) → String → Quantity → List (LowerPod U) → Quantity → Type 0
  PodsSum nodes name q [] r = r ≡ q
  PodsSum nodes name q (pod ∷ pods) r =
      (TakesCapacity U nodes pod
        × PodsSum nodes name (U.add q (asks U enabled one pod name)) pods r)
      ⊎ ((TakesCapacity U nodes pod → ⊥) × PodsSum nodes name q pods r)

  nodes_total-NodesSum :
      (name : String) (q : Quantity) (nodes : List (LowerNode U))
      → NodesSum name q nodes (nodes_total U enabled one name q nodes)
  nodes_total-NodesSum name q [] = refl
  nodes_total-NodesSum name q (node ∷ nodes) =
      counted (is_usable U enabled one node) (is_usable-IsUsable U enabled one node)
        (λ p. nodes_total-NodesSum name p nodes)
    where
      counted :
          (b : Bool)
          → (b ≡ true) ↔ IsUsable U node
          → ((p : Quantity) → NodesSum name p nodes (nodes_total U enabled one name p nodes))
          → NodesSum name q (node ∷ nodes) (
              nodes_total U enabled one name
                (plus_if U enabled one b (amount U name node.capacity) q)
                nodes)
      counted true u ih = inl (u.0 refl, ih _)
      counted false u ih = inr (λ p. cc (u.1 p), ih q)

  pods_total-PodsSum :
      (nodes : String → Answer (LowerNode U)) (name : String) (q : Quantity)
      (pods : List (LowerPod U))
      → PodsSum nodes name q pods
          (pods_total U enabled one (takes_capacity U enabled one nodes) name q pods)
  pods_total-PodsSum nodes name q [] = refl
  pods_total-PodsSum nodes name q (pod ∷ pods) =
      counted (takes_capacity U enabled one nodes pod)
        (takes_capacity-TakesCapacity U enabled one nodes pod)
        (λ p. pods_total-PodsSum nodes name p pods)
    where
      counted :
          (b : Bool)
          → (b ≡ true) ↔ TakesCapacity U nodes pod
          → ((p : Quantity)
              → PodsSum nodes name p pods
                  (pods_total U enabled one (takes_capacity U enabled one nodes) name p pods))
          → PodsSum nodes name q (pod ∷ pods) (
              pods_total U enabled one
                (takes_capacity U enabled one nodes)
                name
                (plus_if U enabled one b (quantity_of U (pod_resource U enabled one pod) name) q)
                pods)
      counted true t ih =
          let whole = U.add q (quantity_of U (pod_resource U enabled one pod) name) in
          inl (
            t.0 refl,
            subst
                (λ p.
                  PodsSum nodes name (U.add q p) pods
                    (pods_total U enabled one (takes_capacity U enabled one nodes) name whole pods))
                (pod_resource-asks U enabled one pod name) (ih whole),
          )
      counted false t ih = inr (λ p. cc (t.1 p), ih q)

  -- The node that stands for the member cluster gets, of each name, the capacity of the listed nodes
  -- that are ready and can be scheduled to, less what the listed pods ask for that are running, or
  -- pending with a node, where the node of that name is found and usable; each such pod counts one of
  -- `pods`. What can be allocated is the same. A list of pods that could not be had counts as empty.
  -- The capacity of each listed node has each name once.
  pub configure_node-capacity :
      (env : Surroundings U enabled one) (version : String) (port : ℕ) (lower : List (LowerNode U))
      (nodes : String → Answer (LowerNode U)) (pods : Option (List (LowerPod U)))
      (node node' : VirtualNode U enabled one)
      → All (HasDistinct U enabled one) lower
      → configure_node U enabled one env version port (some lower) nodes pods node ≡ changed node'
      → (name : String)
      → ((free taken : Quantity) × NodesSum name zero_quantity lower free
          × PodsSum nodes name zero_quantity (listed U enabled one pods) taken
          × (amount U name node'.status.capacity ≡ U.sub free taken))
        × (node'.status.allocatable ≡ node'.status.capacity)
  configure_node-capacity env version port lower nodes pods node node' d e name =
      let totals =
        configure_node-totals U enabled one env version port lower nodes pods node node' d e name in
      (
        (
          nodes_total U enabled one name zero_quantity lower,
          pods_total U enabled one (takes_capacity U enabled one nodes) name zero_quantity
              (listed U enabled one pods),
          nodes_total-NodesSum name zero_quantity lower,
          pods_total-PodsSum nodes name zero_quantity (listed U enabled one pods),
          totals.0,
        ),
        totals.1,
      )
