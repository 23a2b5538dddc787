-- ===== src/Provider/Tests.antt =====
-- The provider at inputs, with quantities that are integers and clusters in memory.
use clusterrouter.Base.{
  String, ◌≡◌, refl, Bool, true, false, none, some, List, [], ◌∷◌, Map, Distinct, ℤ, pos, lookup,
  text_dec,
}
use clusterrouter.Conversion.{ObjectMeta}
use clusterrouter.Resource.{amount, convert_resource, NodeStatus}
use clusterrouter.Resource.Amounts.{quantity_of}
use clusterrouter.Resource.Integers.{integers, plus_ℤ, negate, plus_minus}
use clusterrouter.Controllers.Api.{Answer, ok}
use clusterrouter.Provider.Members.{
  is_text, LowerNode, LowerPod, is_virtual_pod, check_node_status_ready, pod_stopped,
}
use clusterrouter.Provider.Capacity.{
  get_resource_from_pods_by_node_name, VirtualNode, NodeChange, changed, Surroundings,
  configure_node,
}
use clusterrouter.Provider.Remaining.{NodesSum, PodsSum, configure_node-capacity}
use clusterrouter.Provider.Informers.{Provider, node_added, node_updated, add_pod, delete_pod}
use clusterrouter.Provider.Joined.{
  Tracks, BecomesReady, IsLocal, node_updated-node_added, delete_pod-add_pod,
}

abbrev plain_meta : ObjectMeta
plain_meta = record {
  uid = "";
  resource_version = "";
  self_link = "";
  owner_references = [];
  labels = none;
  annotations = none;
}

abbrev conditions : String → List (String × String)
conditions status = ("Ready", status) ∷ []

abbrev worker : String → LowerNode integers
worker status = record {
  name = "worker";
  unschedulable = false;
  conditions = conditions status;
  capacity = ("cpu", pos 8) ∷ [];
  allocatable = ("cpu", pos 8) ∷ [];
}

abbrev job : LowerPod integers
job = record {
  meta = plain_meta;
  node_name = "worker";
  phase = "Running";
  restart_policy = "Always";
  is_deleting = false;
  grace_period = none;
  spec = record {
    containers = record { requests = ("cpu", pos 2) ∷ []; limits = [] } ∷ [];
    init_containers = [];
    overhead = none;
  };
  containers = "";
  status = "";
}

abbrev no_node : NodeStatus integers → NodeStatus integers → Bool
no_node a b = false

abbrev all_same : Map ℤ → Map ℤ → Bool
all_same a b = true

abbrev status : NodeStatus integers
status = record { capacity = ("cpu", pos 16) ∷ []; allocatable = [] }

abbrev provider : Provider integers
provider = record { configured = true; node = some status; updated_node = []; updated_pod = [] }

one_name : Distinct status.capacity
unfolding lookup
one_name = (refl, tt)

abbrev has : String → ℤ
has name = amount integers name status.capacity

provider-Tracks : Tracks integers false (pos 1) no_node all_same provider has
provider-Tracks = record {
  is_configured = refl;
  holds = record { status = status; is_set = refl; distinct = one_name; amounts = λ name. refl };
}

ready : BecomesReady integers false (pos 1) no_node all_same (worker "False") (worker "True")
unfolding check_node_status_ready text_dec
ready = record {
  was_unready = refl;
  is_ready = refl;
  schedulable = refl;
  still_schedulable = refl;
  same_allocatable = refl;
  same_capacity = refl;
}

node_updated-node_added_example :
    Tracks integers false
      (pos 1)
      no_node
      all_same
      (node_updated integers false
        (pos 1)
        no_node
        all_same
        (node_added integers false (pos 1) no_node all_same provider (some []) (worker "False"))
        (some [])
        (worker "False")
        (worker "True"))
      (λ name.
        let x = quantity_of integers (convert_resource integers (worker "False").capacity) name in
        let taken_by =
          quantity_of integers
            (get_resource_from_pods_by_node_name integers false (pos 1) (some []))
            name in
        plus_ℤ (plus_ℤ (plus_ℤ (plus_ℤ (has name) x) (negate taken_by)) x) (negate taken_by))
node_updated-node_added_example =
    node_updated-node_added integers false (pos 1) no_node all_same provider (some []) (some [])
      (worker "False") (worker "True") has ready refl provider-Tracks

job-IsLocal : IsLocal integers false (pos 1) no_node all_same job
unfolding is_virtual_pod is_text lookup text_dec
job-IsLocal = record { not_virtual = refl; has_node = refl }

job_runs : pod_stopped integers job ≡ false
unfolding pod_stopped text_dec
job_runs = refl

delete_pod-add_pod_example :
    Tracks integers false
      (pos 1)
      no_node
      all_same
      (delete_pod integers false
        (pos 1)
        no_node
        all_same
        (add_pod integers false (pos 1) no_node all_same provider job)
        job)
      has
delete_pod-add_pod_example =
    delete_pod-add_pod integers false (pos 1) no_node all_same plus_minus provider job has
      job-IsLocal job_runs provider-Tracks

abbrev env : Surroundings integers false (pos 1)
env = record { custom_label = none; pod_ip = "10.0.0.1"; external_pod_ip = "" }

abbrev virtual : VirtualNode integers false (pos 1)
virtual = record {
  status = status;
  labels = some [];
  kubelet_version = "";
  operating_system = "";
  architecture = "";
  addresses = [];
  conditions = [];
  daemon_port = 10250;
}

abbrev find_worker : String → Answer (LowerNode integers)
find_worker name = ok (worker "True")

abbrev or_same : NodeChange integers false (pos 1) → VirtualNode integers false (pos 1)
or_same (changed node) = node
or_same _ = virtual

abbrev configured : NodeChange integers false (pos 1)
configured =
    configure_node integers false (pos 1) env "v1" 10250 (some (worker "True" ∷ [])) find_worker
      (some (job ∷ [])) virtual

was_configured : configured ≡ changed (or_same configured)
unfolding configure_node
was_configured = refl

worker_names : Distinct (worker "True").capacity
unfolding lookup
worker_names = (refl, tt)

configure_node-capacity_example :
    ((free taken : ℤ) × NodesSum integers false (pos 1) "cpu" (pos 0) (worker "True" ∷ []) free
      × PodsSum integers false (pos 1) find_worker "cpu" (pos 0) (job ∷ []) taken
      × (amount integers "cpu" (or_same configured).status.capacity ≡ plus_ℤ free (negate taken)))
    × ((or_same configured).status.allocatable ≡ (or_same configured).status.capacity)
configure_node-capacity_example =
    configure_node-capacity integers false (pos 1) env "v1" 10250 (worker "True" ∷ []) find_worker
      (some (job ∷ [])) virtual (or_same configured) (worker_names, tt) was_configured "cpu"
