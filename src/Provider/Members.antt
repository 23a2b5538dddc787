-- ===== src/Provider/Members.antt =====
-- pkg/plugins/virtualk8s/help.go and the marks of pkg/utils/k8s.go: nodes and pods of the member
-- cluster. Records have the fields that the code reads or writes; equality of quantities and of
-- containers is that of their texts.
use clusterrouter.Base.{
  ℕ, String, Bool, true, false, ◌&&◌, ◌||◌, Option, List, [], ◌∷◌, Map, text_dec, ite,
}
use clusterrouter.Conversion.{ObjectMeta, value_at, virtual_pod_label}
use clusterrouter.Resource.{Quantities}
use clusterrouter.Resource.Requests.{PodSpec}

unfoldable pub is_text : String → String → Bool
is_text s t = ite (text_dec s t) true false

module _ (U : Quantities) where
  open U use {Quantity}

  -- The conditions of a node by type and status.
  pub record LowerNode : Type 0 where
    pub name : String
    pub unschedulable : Bool
    pub conditions : List (String × String)
    pub capacity : Map Quantity
    pub allocatable : Map Quantity

  pub record LowerPod : Type 0 where
    pub meta : ObjectMeta
    pub node_name : String
    pub phase : String
    pub restart_policy : String
    pub is_deleting : Bool
    pub grace_period : Option ℕ
    pub spec : PodSpec U
    pub containers : String
    pub status : String

  -- `IsVirtualPod`.
  unfoldable pub is_virtual_pod : LowerPod → Bool
  unfolding is_text
  is_virtual_pod pod = is_text (value_at virtual_pod_label pod.meta.labels) "true"

  unfoldable pub has_ready : List (String × String) → Bool
  unfolding is_text
  has_ready [] = false
  has_ready ((kind, status) ∷ conditions) =
      is_text kind "Ready" && is_text status "True" || has_ready conditions

  -- `checkNodeStatusReady`.
  unfoldable pub check_node_status_ready : LowerNode → Bool
  unfolding has_ready
  check_node_status_ready node = has_ready node.conditions

  unfoldable pub compare_node_status_ready : LowerNode → LowerNode → Bool × Bool
  unfolding check_node_status_ready
  compare_node_status_ready old new = (check_node_status_ready old, check_node_status_ready new)

  -- `podStopped`.
  unfoldable pub pod_stopped : LowerPod → Bool
  unfolding is_text
  pod_stopped pod =
      (is_text pod.phase "Succeeded" || is_text pod.phase "Failed")
      && is_text pod.restart_policy "Never"
