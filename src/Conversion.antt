-- ===== src/Conversion.antt =====
-- pkg/utils/conversion.go and the marks of pkg/controllers/utils.go: pods and other objects made
-- ready for the member cluster. The records have the fields that the code reads or writes.
pub mod Labels
pub mod Selectors
pub mod Trim
pub mod Recover
pub mod Affinities
pub mod Trimmed
pub mod Sent
pub mod Filters
pub mod Filtered
pub mod Entries
pub mod Codec
pub mod Samples
mod Tests
use clusterrouter.Base.{
  ℕ, String, ◌≡◌, ◌≢◌, Bool, true, false, Option, none, some, List, [], Map, lookup, insert,
  Distinct, text_dec, ite,
}

-- The keys and values of pkg/utils/k8s.go.
abbrev pub global_label : String
global_label = "global"

abbrev pub selector_key : String
selector_key = "clusterSelector"

abbrev pub virtual_pod_label : String
virtual_pod_label = "virtual-pod"

abbrev pub tripped_labels : String
tripped_labels = "tripped-labels"

-- A nil map is `none`.
pub record ObjectMeta : Type 0 where
  pub uid : String
  pub resource_version : String
  pub self_link : String
  pub owner_references : List String
  pub labels : Option (Map String)
  pub annotations : Option (Map String)

-- The terms of an affinity, by their texts; a nil slice or pointer is `none`.
pub record NodeAffinity : Type 0 where
  pub required : Option String
  pub preferred : Option (List String)

pub record Affinity : Type 0 where
  pub node_affinity : Option NodeAffinity
  pub pod_affinity : Option String
  pub pod_anti_affinity : Option String

-- `ClustersNodeSelection`.
pub record ClustersNodeSelection : Type 0 where
  pub node_selector : Option (Map String)
  pub affinity : Option Affinity
  pub tolerations : List String

pub record VolumeMount : Type 0 where
  pub name : String
  pub mount_path : String

pub record Container : Type 0 where
  pub name : String
  pub image : String
  pub volume_mounts : List VolumeMount

pub record Volume : Type 0 where
  pub name : String
  pub source : String

pub record PodSpec : Type 0 where
  pub volumes : List Volume
  pub containers : List Container
  pub init_containers : List Container
  pub node_name : String
  pub scheduler_name : String
  pub node_selector : Option (Map String)
  pub tolerations : List String
  pub affinity : Option Affinity
  pub active_deadline_seconds : Option ℕ

-- `status` is `none` when it is empty.
pub record Pod : Type 0 where
  pub meta : ObjectMeta
  pub spec : PodSpec
  pub status : Option String

-- `encoding/json` on maps of texts and on the selection of nodes: a map that is written is read back
-- with the same entries, and is not written as the empty text.
pub record Json : Type 1 where
  pub marshal : Map String → Option String
  pub unmarshal : String → Option (Map String)
  pub unmarshal_selection : String → Option ClustersNodeSelection
  pub unmarshal-marshal :
      (m : Map String)
      → Distinct m
      → (s : String) × (n : Map String) × (marshal m ≡ some s)
        × (s ≢ "")
        × (unmarshal s ≡ some n)
        × Distinct n
        × ((k : String) → lookup k n ≡ lookup k m)

-- A read of a map, which gives the empty text for a key that is not there.
abbrev pub or_blank : Option String → String
or_blank none = ""
or_blank (some s) = s

abbrev pub or_no_entries : Option (Map String) → Map String
or_no_entries none = []
or_no_entries (some m) = m

abbrev pub value_at : String → Option (Map String) → String
value_at k m = or_blank (lookup k (or_no_entries m))

-- A write to a map that is made first where it is nil.
abbrev pub put_entry : String → String → Option (Map String) → Option (Map String)
put_entry k v m = some (insert k v (or_no_entries m))

-- `TrimObjectMeta`.
unfoldable pub trim_object_meta : ObjectMeta → ObjectMeta
trim_object_meta meta = record meta {
  uid = "";
  resource_version = "";
  self_link = "";
  owner_references = [];
}

-- `IsObjectGlobal`, `SetObjectGlobal` and `CheckGlobalLabelEqual`.
unfoldable pub is_object_global : ObjectMeta → Bool
is_object_global obj = ite (text_dec (value_at global_label obj.annotations) "true") true false

unfoldable pub set_object_global : ObjectMeta → ObjectMeta
set_object_global obj = record obj { annotations = put_entry global_label "true" obj.annotations }

unfoldable pub check_global_label_equal : ObjectMeta → ObjectMeta → Bool
check_global_label_equal obj clone = elim (is_object_global obj) [
  | false ↦ false
  | true ↦ is_object_global clone
]
