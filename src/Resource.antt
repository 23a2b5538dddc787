-- ===== src/Resource.antt =====
-- pkg/common/resource.go, pkg/common/node.go and pkg/utils/util.go: resources of pods and nodes.
-- A quantity of k8s.io/apimachinery is a parameter: its value, without its format.
pub mod Amounts
pub mod Capacity
pub mod Nodes
pub mod Requests
pub mod Equality
pub mod Integers
mod Tests
use clusterrouter.Base.{
  String, ◌≡◌, ◌↔◌, Bool, true, not, Option, none, some, [], ◌∷◌, Map, lookup, insert, for_range,
  text_dec, ite, if◌then◌else◌,
}

-- `resource.Quantity`: a commutative group with an order, which is compared by value.
pub record Quantities : Type 1 where
  pub Quantity : Type 0
  pub zero_quantity : Quantity
  pub add : Quantity → Quantity → Quantity
  pub sub : Quantity → Quantity → Quantity
  pub is_zero : Quantity → Bool
  pub equal : Quantity → Quantity → Bool
  -- `Cmp` above zero.
  pub exceeds : Quantity → Quantity → Bool
  pub add_comm : (a b : Quantity) → add a b ≡ add b a
  pub add_zero : (a : Quantity) → add a zero_quantity ≡ a
  pub sub_zero : (a : Quantity) → sub a zero_quantity ≡ a
  pub sub-add : (a b : Quantity) → sub (add a b) b ≡ a
  pub is_zero_iff : (a : Quantity) → (is_zero a ≡ true) ↔ (a ≡ zero_quantity)
  pub equal_iff : (a b : Quantity) → (equal a b ≡ true) ↔ (a ≡ b)

-- The names of k8s.io/api/core/v1.
abbrev pub resource_cpu : String
resource_cpu = "cpu"

abbrev pub resource_memory : String
resource_memory = "memory"

abbrev pub resource_pods : String
resource_pods = "pods"

abbrev pub resource_ephemeral_storage : String
resource_ephemeral_storage = "ephemeral-storage"

module _ (U : Quantities) where
  open U use {Quantity, zero_quantity}

  pub record Resource : Type 0 where
    pub cpu : Quantity
    pub memory : Quantity
    pub pods : Quantity
    pub ephemeral_storage : Quantity
    pub custom : Map Quantity

  -- `NewResource`.
  unfoldable pub new_resource : Resource
  new_resource = record {
    cpu = zero_quantity;
    memory = zero_quantity;
    pods = zero_quantity;
    ephemeral_storage = zero_quantity;
    custom = [];
  }

  -- A read of a map, which gives the zero quantity for a name that is not there.
  abbrev pub or_zero : Option Quantity → Quantity
  or_zero none = zero_quantity
  or_zero (some q) = q

  abbrev pub amount : String → Map Quantity → Quantity
  amount k m = or_zero (lookup k m)

  -- The bodies of the loops of `Add` and `Sub`.
  unfoldable pub add_custom : Map Quantity → String → Quantity → Map Quantity
  add_custom l name quota = insert name (U.add (amount name l) quota) l

  unfoldable pub sub_custom : Map Quantity → String → Quantity → Map Quantity
  sub_custom l name quota = insert name (U.sub (amount name l) quota) l

  unfoldable pub add : Resource → Resource → Resource
  add r nc = record {
    cpu = U.add r.cpu nc.cpu;
    memory = U.add r.memory nc.memory;
    pods = U.add r.pods nc.pods;
    ephemeral_storage = U.add r.ephemeral_storage nc.ephemeral_storage;
    custom = for_range add_custom r.custom nc.custom;
  }

  unfoldable pub sub : Resource → Resource → Resource
  sub r nc = record {
    cpu = U.sub r.cpu nc.cpu;
    memory = U.sub r.memory nc.memory;
    pods = U.sub r.pods nc.pods;
    ephemeral_storage = U.sub r.ephemeral_storage nc.ephemeral_storage;
    custom = for_range sub_custom r.custom nc.custom;
  }

  -- One name of the loop of `ConvertResource`, with its `switch`.
  unfoldable pub convert_one : Resource → String → Quantity → Resource
  convert_one r name quota =
      ite (text_dec name resource_cpu) (record r { cpu = quota })
        (ite (text_dec name resource_memory) (record r { memory = quota })
          (ite (text_dec name resource_pods) (record r { pods = quota })
            (ite (text_dec name resource_ephemeral_storage) (record r { ephemeral_storage = quota })
              (record r { custom = insert name quota r.custom }))))

  unfoldable pub convert_from : Resource → Map Quantity → Resource
  convert_from r [] = r
  convert_from r ((name, quota) ∷ m) = convert_from (convert_one r name quota) m

  -- `ConvertResource`.
  unfoldable pub convert_resource : Map Quantity → Resource
  convert_resource resources = convert_from new_resource resources

  -- A field of the resource, copied unless it is zero.
  unfoldable pub nonzero : Quantity → Quantity
  nonzero q = if not (U.is_zero q) then q else zero_quantity

  unfoldable pub write_quota : Map Quantity → String → Quantity → Map Quantity
  write_quota l name quota = insert name quota l

  -- The capacity that `SetCapacityToNode` writes.
  unfoldable pub node_capacity : Resource → Map Quantity
  node_capacity r =
      for_range write_quota
        ((resource_cpu, nonzero r.cpu)
          ∷ (resource_memory, nonzero r.memory)
          ∷ (resource_pods, nonzero r.pods)
          ∷ (resource_ephemeral_storage, nonzero r.ephemeral_storage)
          ∷ [])
        r.custom

  pub record NodeStatus : Type 0 where
    pub capacity : Map Quantity
    pub allocatable : Map Quantity

  -- `SetCapacityToNode`.
  unfoldable pub set_capacity_to_node : Resource → NodeStatus → NodeStatus
  set_capacity_to_node r node =
      let c = node_capacity r in record node { capacity = c; allocatable = c }

  -- `ProviderNode.AddResource` and `SubResource`; `none` is the error for a node that is not set,
  -- and the result is the new node. The mutex makes each one step.
  unfoldable pub add_resource : Option NodeStatus → Resource → Option NodeStatus
  add_resource none resource = none
  add_resource (some n) resource =
      some (set_capacity_to_node (add (convert_resource n.capacity) resource) n)

  unfoldable pub sub_resource : Option NodeStatus → Resource → Option NodeStatus
  sub_resource none resource = none
  sub_resource (some n) resource =
      some (set_capacity_to_node (sub (convert_resource n.capacity) resource) n)
