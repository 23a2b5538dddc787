-- ===== src/Provider/Informers.antt =====
-- pkg/plugins/virtualk8s/virtualk8s.go: what the informers of nodes and pods of the member cluster do
-- to the capacity of the virtual node and to the channels of the provider. The logs are left out, and
-- a channel is the list of what was sent.
use clusterrouter.Base.{
  Bool, true, false, not, ◌&&◌, ◌||◌, Option, none, some, List, [], ◌∷◌, ◌++◌, Map, if◌then◌else◌,
}
use clusterrouter.Conversion.{trim_object_meta}
use clusterrouter.Resource.{
  Quantities, Resource, convert_resource, NodeStatus, add_resource, sub_resource,
}
use clusterrouter.Resource.Equality.{resource_equal}
use clusterrouter.Provider.Members.{
  is_text, LowerNode, LowerPod, is_virtual_pod, check_node_status_ready, pod_stopped,
}
use clusterrouter.Provider.Capacity.{
  NodeChange, kept, panicked, changed, pod_request, pod_resource,
  get_resource_from_pods_by_node_name,
}

-- The provider: whether it is configured, the node, which may not be set, and what was sent.
pub record Provider (U : Quantities) : Type 0 where
  pub configured : Bool
  pub node : Option (NodeStatus U)
  pub updated_node : List (NodeStatus U)
  pub updated_pod : List (LowerPod U)

-- `same_node` and `same_list` are `reflect.DeepEqual` on nodes and on lists of resources.
module _ (U : Quantities) (enabled : Bool) (one : U.Quantity)
    (same_node : NodeStatus U → NodeStatus U → Bool)
    (same_list : Map U.Quantity → Map U.Quantity → Bool) where
  -- Calls whose error is not looked at.
  unfoldable pub add_to : Option (NodeStatus U) → Resource U → Option (NodeStatus U)
  unfolding add_resource
  add_to node resource = add_resource U node resource

  unfoldable pub sub_from : Option (NodeStatus U) → Resource U → Option (NodeStatus U)
  unfolding sub_resource
  sub_from node resource = sub_resource U node resource

  unfoldable pub send_node : Provider U → NodeStatus U → Provider U
  send_node p node = record p { updated_node = p.updated_node ++ (node ∷ []) }

  unfoldable pub send_pod : Provider U → LowerPod U → Provider U
  send_pod p pod = record p { updated_pod = p.updated_pod ++ (pod ∷ []) }

  -- The node is sent if it is another than before; it is not if it is not set.
  unfoldable pub send_if_changed :
      Provider U → Option (NodeStatus U) → Option (NodeStatus U) → Provider U
  unfolding send_node
  send_if_changed p before none = p
  send_if_changed p none (some after) = send_node p after
  send_if_changed p (some before) (some after) =
      if same_node before after then p else send_node p after

  unfoldable pub with_node : Provider U → Option (NodeStatus U) → Provider U
  unfolding send_if_changed
  with_node p after = send_if_changed (record p { node = after }) p.node after

  -- The end of `ConfigureNode`: the provider has the node, and is configured.
  unfoldable pub configured_with : Provider U → NodeChange U enabled one → Provider U
  configured_with p kept = p
  configured_with p panicked = p
  configured_with p (changed node) = record p { configured = true; node = some node.status }

  -- `AddFunc` of nodes, with the pods that are listed for the node; `none` is the error.
  unfoldable pub node_added_to :
      Provider U → Option (List (LowerPod U)) → Option (NodeStatus U) → Provider U
  unfolding with_node sub_from get_resource_from_pods_by_node_name
  node_added_to p pods none = p
  node_added_to p pods (some n) =
      with_node p (sub_from (some n) (get_resource_from_pods_by_node_name U enabled one pods))

  unfoldable pub node_added : Provider U → Option (List (LowerPod U)) → LowerNode U → Provider U
  unfolding node_added_to
  node_added p pods node =
      if p.configured
      then node_added_to p pods (add_resource U p.node (convert_resource U node.capacity))
      else p

  -- `DeleteFunc` of nodes.
  unfoldable pub node_deleted_from :
      Provider U → Option (List (LowerPod U)) → Option (NodeStatus U) → Provider U
  unfolding with_node add_to get_resource_from_pods_by_node_name
  node_deleted_from p pods none = p
  node_deleted_from p pods (some n) =
      with_node p (add_to (some n) (get_resource_from_pods_by_node_name U enabled one pods))

  unfoldable pub node_deleted : Provider U → Option (List (LowerPod U)) → LowerNode U → Provider U
  unfolding node_deleted_from
  node_deleted p pods node =
      if p.configured
      then node_deleted_from p pods (sub_resource U p.node (convert_resource U node.capacity))
      else p

  unfoldable pub applied_if :
      Bool
      → (Option (NodeStatus U) → Option (NodeStatus U))
      → Option (NodeStatus U)
      → Option (NodeStatus U)
  applied_if true f n = f n
  applied_if false f n = n

  -- The three tests of `updateVKCapacityFromNode`, and what each does.
  unfoldable pub comes_back : LowerNode U → LowerNode U → Bool
  unfolding check_node_status_ready
  comes_back old new =
      old.unschedulable && not new.unschedulable
      || check_node_status_ready U new && not (check_node_status_ready U old)

  unfoldable pub goes_away : LowerNode U → LowerNode U → Bool
  unfolding check_node_status_ready
  goes_away old new =
      not old.unschedulable && new.unschedulable
      || check_node_status_ready U old && not (check_node_status_ready U new)

  unfoldable pub resizes : LowerNode U → LowerNode U → Bool
  resizes old new =
      not (same_list old.allocatable new.allocatable) || not (same_list old.capacity new.capacity)

  unfoldable pub updated_capacity :
      Option (List (LowerPod U))
      → LowerNode U
      → LowerNode U
      → Option (NodeStatus U)
      → Option (NodeStatus U)
  unfolding add_to sub_from comes_back goes_away resizes applied_if
      get_resource_from_pods_by_node_name
  updated_capacity pods old new n =
      let pod_sum = get_resource_from_pods_by_node_name U enabled one pods in
      let to_remove = convert_resource U old.capacity in
      let to_add = convert_resource U new.capacity in
      applied_if (resizes old new) (λ m. sub_from (add_to m to_add) to_remove)
        (applied_if (goes_away old new) (λ m. sub_from (add_to m pod_sum) to_remove)
          (applied_if (comes_back old new) (λ m. sub_from (add_to m to_add) pod_sum) n))

  -- `updateVKCapacityFromNode`.
  unfoldable pub update_vk_capacity_from_node :
      Provider U → Option (List (LowerPod U)) → LowerNode U → LowerNode U → Provider U
  unfolding check_node_status_ready updated_capacity with_node
  update_vk_capacity_from_node p pods old new =
      if not (check_node_status_ready U old) && not (check_node_status_ready U new)
      then p
      else with_node p (updated_capacity pods old new p.node)

  -- `UpdateFunc` of nodes.
  unfoldable pub node_updated :
      Provider U → Option (List (LowerPod U)) → LowerNode U → LowerNode U → Provider U
  unfolding update_vk_capacity_from_node
  node_updated p pods old new =
      if p.configured then update_vk_capacity_from_node p pods old new else p

  -- The node is sent, if it is set.
  unfoldable pub send_set : Provider U → Option (NodeStatus U) → Provider U
  unfolding send_node
  send_set p none = record p { node = none }
  send_set p (some n) = send_node (record p { node = some n }) n

  unfoldable pub trimmed : LowerPod U → LowerPod U
  unfolding trim_object_meta
  trimmed pod = record pod { meta = trim_object_meta pod.meta }

  unfoldable pub local_added : Provider U → LowerPod U → Option (NodeStatus U) → Provider U
  unfolding is_text sub_from send_set pod_resource
  local_added p pod none = p
  local_added p pod (some n) =
      if is_text pod.node_name ""
      then p
      else send_set p (sub_from (some n) (pod_resource U enabled one pod))

  -- `addPod`.
  unfoldable pub add_pod : Provider U → LowerPod U → Provider U
  unfolding is_virtual_pod send_pod trimmed local_added
  add_pod p pod =
      if p.configured
      then (if is_virtual_pod U pod then send_pod p (trimmed pod) else local_added p pod p.node)
      else p

  unfoldable pub local_deleted : Provider U → LowerPod U → Option (NodeStatus U) → Provider U
  unfolding is_text add_to send_set pod_resource pod_stopped
  local_deleted p pod none = p
  local_deleted p pod (some n) =
      if pod_stopped U pod || is_text pod.node_name ""
      then p
      else send_set p (add_to (some n) (pod_resource U enabled one pod))

  -- `deletePod`.
  unfoldable pub delete_pod : Provider U → LowerPod U → Provider U
  unfolding is_virtual_pod send_pod trimmed local_deleted
  delete_pod p pod =
      if p.configured
      then (if is_virtual_pod U pod then send_pod p (trimmed pod) else local_deleted p pod p.node)
      else p

  unfoldable pub counted : Bool → Resource U → Resource U
  counted true r = record r { pods = one }
  counted false r = r

  unfoldable pub is_placed : LowerPod U → LowerPod U → Bool
  unfolding is_text
  is_placed old new = is_text old.node_name "" && not (is_text new.node_name "")

  unfoldable pub is_over : LowerPod U → LowerPod U → Bool
  unfolding is_text pod_stopped
  is_over old new = is_text old.phase "Running" && pod_stopped U new

  unfoldable pub is_changed : LowerPod U → LowerPod U → Bool
  unfolding is_text
  is_changed old new = is_text new.phase "Running" && not (is_text old.containers new.containers)

  -- The last branch of `updateVKCapacityFromPod`, and the end; if the requests are equal nothing is
  -- sent.
  unfoldable pub resize_pod :
      Bool → Provider U → Resource U → Resource U → Option (NodeStatus U) → Provider U
  unfolding add_to sub_from send_set resource_equal
  resize_pod false p old_resource new_resource n = send_set p n
  resize_pod true p old_resource new_resource n =
      if resource_equal U old_resource new_resource
      then record p { node = n }
      else send_set p (sub_from (add_to n old_resource) new_resource)

  -- `updateVKCapacityFromPod`; the branches share the new request, and so the count of the pod.
  unfoldable pub update_vk_capacity_from_pod : Provider U → LowerPod U → LowerPod U → Provider U
  unfolding pod_request counted is_placed is_over is_changed applied_if add_to sub_from resize_pod
  update_vk_capacity_from_pod p old new =
      let placed = counted (is_placed old new) (pod_request U enabled one new) in
      let over = counted (is_over old new) placed in
      resize_pod (is_changed old new) p (pod_request U enabled one old) over (
        applied_if (is_over old new) (λ m. add_to m over)
          (applied_if (is_placed old new) (λ m. sub_from m placed) p.node))

  unfoldable pub local_updated :
      Provider U → LowerPod U → LowerPod U → Option (NodeStatus U) → Provider U
  unfolding update_vk_capacity_from_pod
  local_updated p old new none = p
  local_updated p old new (some n) = update_vk_capacity_from_pod p old new

  -- A pod of the provider is passed on if its state has changed or it is being deleted.
  unfoldable pub virtual_updated : Provider U → LowerPod U → LowerPod U → Provider U
  unfolding is_text send_pod trimmed
  virtual_updated p old new =
      let kept = if new.is_deleting then record new { grace_period = none } else new in
      if not (is_text old.status new.status) || new.is_deleting
      then send_pod p (trimmed kept)
      else p

  -- `updatePod`.
  unfoldable pub update_pod : Provider U → LowerPod U → LowerPod U → Provider U
  unfolding is_virtual_pod local_updated virtual_updated
  update_pod p old new =
      if p.configured
      then (if is_virtual_pod U new
          then virtual_updated p old new
          else local_updated p old new p.node)
      else p
