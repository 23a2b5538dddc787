-- ===== src/Provider/Capacity.antt =====
-- pkg/plugins/virtualk8s/node.go: the capacity that the member cluster has left, and the node that
-- stands for it. The logs are left out.
use clusterrouter.Base.{
  ℕ, String, Bool, false, not, ◌&&◌, ◌||◌, Option, none, some, List, [], ◌∷◌, ◌++◌, Map, insert,
  if◌then◌else◌,
}
use clusterrouter.Resource.{
  Quantities, Resource, new_resource, add, sub, convert_resource, NodeStatus, set_capacity_to_node,
}
use clusterrouter.Resource.Requests.{get_request_from_pod}
use clusterrouter.Controllers.Api.{Answer, ok, err}
use clusterrouter.Provider.Members.{
  is_text, LowerNode, LowerPod, is_virtual_pod, check_node_status_ready,
}

-- `enabled` is the feature gate of the overhead of pods, and `one` the quantity that the text "1" is
-- parsed to.
module _ (U : Quantities) (enabled : Bool) (one : U.Quantity) where
  -- What a pod asks for, and the same with the pod itself counted.
  unfoldable pub pod_request : LowerPod U → Resource U
  unfolding get_request_from_pod
  pod_request pod = elim (get_request_from_pod U enabled (some pod.spec)) [
    | none ↦ new_resource U
    | some res ↦ res
  ]

  unfoldable pub pod_resource : LowerPod U → Resource U
  unfolding pod_request
  pod_resource pod = record (pod_request pod) { pods = one }

  unfoldable pub is_usable : LowerNode U → Bool
  unfolding check_node_status_ready
  is_usable node = not node.unschedulable && check_node_status_ready U node

  -- Whether the pod is placed on a node that is usable, and pending or running there.
  unfoldable pub takes_capacity : (String → Answer (LowerNode U)) → LowerPod U → Bool
  unfolding is_text is_usable
  takes_capacity nodes pod =
      (is_text pod.phase "Pending" && not (is_text pod.node_name "") || is_text pod.phase "Running")
      && elim (nodes pod.node_name) [ err _ ↦ false | ok node ↦ is_usable node ]

  unfoldable pub sum_pods : (LowerPod U → Bool) → Resource U → List (LowerPod U) → Resource U
  unfolding pod_resource
  sum_pods counts total [] = total
  sum_pods counts total (pod ∷ pods) =
      sum_pods counts (if counts pod then add U total (pod_resource pod) else total) pods

  -- `getResourceFromPods`; the lists are `none` where they could not be had.
  unfoldable pub get_resource_from_pods :
      (String → Answer (LowerNode U)) → Option (List (LowerPod U)) → Resource U
  unfolding sum_pods takes_capacity
  get_resource_from_pods nodes none = new_resource U
  get_resource_from_pods nodes (some pods) = sum_pods (takes_capacity nodes) (new_resource U) pods

  -- Whether a pod of the node counts, which the provider did not make.
  unfoldable pub is_local : LowerPod U → Bool
  unfolding is_virtual_pod is_text
  is_local pod =
      not (is_virtual_pod U pod) && (is_text pod.phase "Pending" || is_text pod.phase "Running")

  -- `getResourceFromPodsByNodeName`, with the pods that the member cluster lists for the node.
  unfoldable pub get_resource_from_pods_by_node_name : Option (List (LowerPod U)) → Resource U
  unfolding sum_pods is_local
  get_resource_from_pods_by_node_name none = new_resource U
  get_resource_from_pods_by_node_name (some pods) = sum_pods is_local (new_resource U) pods

  -- The loop of `ConfigureNode`.
  unfoldable pub sum_nodes : Resource U → List (LowerNode U) → Resource U
  unfolding is_usable
  sum_nodes total [] = total
  sum_nodes total (n ∷ nodes) =
      sum_nodes (if is_usable n then add U total (convert_resource U n.capacity) else total) nodes

  -- The node that stands for the member cluster.
  pub record VirtualNode : Type 0 where
    pub status : NodeStatus U
    pub labels : Option (Map String)
    pub kubelet_version : String
    pub operating_system : String
    pub architecture : String
    pub addresses : List (String × String)
    pub conditions : List (String × String)
    pub daemon_port : ℕ

  -- What the code reads of its environment: the custom label's two parts, if it has two, and the
  -- two addresses, of which the second may be blank.
  pub record Surroundings : Type 0 where
    pub custom_label : Option (String × String)
    pub pod_ip : String
    pub external_pod_ip : String

  unfoldable pub node_custom_label : Option (String × String) → Map String → Map String
  node_custom_label none labels = labels
  node_custom_label (some (k, v)) labels = insert k v labels

  abbrev pub node_conditions : List (String × String)
  node_conditions =
      ("Ready", "True")
      ∷ ("MemoryPressure", "False")
      ∷ ("DiskPressure", "False")
      ∷ ("PIDPressure", "False")
      ∷ []

  unfoldable pub node_addresses : Surroundings → List (String × String)
  unfolding is_text
  node_addresses env =
      let internal = ("InternalIP", env.pod_ip) ∷ [] in
      if is_text env.external_pod_ip ""
      then internal
      else internal ++ (("ExternalIP", env.external_pod_ip) ∷ [])

  unfoldable pub node_labels : Surroundings → Map String → Map String
  unfolding node_custom_label
  node_labels env labels = node_custom_label env.custom_label (
      insert "beta.kubernetes.io/os" "linux"
        (insert "kubernetes.io/os" "linux" (insert "kubernetes.io/arch" "amd64" labels)))

  -- What `ConfigureNode` does to the node: nothing where the nodes could not be listed, a panic where
  -- the map of labels that it writes to is nil, or the change.
  pub data NodeChange : Type 0 where
    kept panicked : NodeChange
    changed : VirtualNode → NodeChange

  -- The part of `ConfigureNode` after the capacity, with the status that has it.
  unfoldable pub described :
      Surroundings → String → ℕ → NodeStatus U → Option (Map String) → NodeChange
  unfolding node_labels node_addresses
  described env version port status none = panicked
  described env version port status (some labels) = changed (record {
    status = status;
    labels = some (node_labels env labels);
    kubelet_version = version;
    operating_system = "linux";
    architecture = "amd64";
    addresses = node_addresses env;
    conditions = node_conditions;
    daemon_port = port;
  })

  -- `ConfigureNode`, up to the provider's own fields.
  unfoldable pub configure_node :
      Surroundings
      → String
      → ℕ
      → Option (List (LowerNode U))
      → (String → Answer (LowerNode U))
      → Option (List (LowerPod U))
      → VirtualNode
      → NodeChange
  unfolding sum_nodes get_resource_from_pods described
  configure_node env version port none nodes pods node = kept
  configure_node env version port (some listed) nodes pods node =
      let free = sub U (sum_nodes (new_resource U) listed) (get_resource_from_pods nodes pods) in
      described env version port (set_capacity_to_node U free node.status) node.labels
