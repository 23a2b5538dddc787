-- ===== src/Resource/Tests.antt =====
-- pkg/common and pkg/utils/util.go: the theorems for quantities that are integers.
use clusterrouter.Base.{
  String, ◌≡◌, ◌↔◌, refl, subst, some_cancel, true, some, [], ◌∷◌, ℤ, pos, Map, lookup, text_dec,
  Distinct,
}
use clusterrouter.Resource.{Resource, add, amount, NodeStatus, add_resource, sub_resource}
use clusterrouter.Resource.Integers.{integers}
use clusterrouter.Resource.Equality.{resource_equal, resource_equal-lookup}
use clusterrouter.Resource.Amounts.{quantity_of, quantity_of-add}
use clusterrouter.Resource.Capacity.{IsPlain}
use clusterrouter.Resource.Nodes.{sub_resource-add_resource}
use clusterrouter.Resource.Requests.{
  PodSpec, requests_of, limits_of, pod_requests_and_limits, IsProper,
  pod_requests_and_limits-lookup,
}

abbrev small : Resource integers
small = record {
  cpu = pos 2;
  memory = pos 10;
  pods = pos 1;
  ephemeral_storage = pos 0;
  custom = ("gpu", pos 1) ∷ [];
}

abbrev capacity : Map ℤ
capacity = ("cpu", pos 8) ∷ ("memory", pos 64) ∷ ("gpu", pos 3) ∷ ("disk", pos 5) ∷ []

capacity-Distinct : Distinct capacity
unfolding lookup text_dec
capacity-Distinct = (refl, (refl, (refl, (refl, tt))))

abbrev node : NodeStatus integers
node = record { capacity = capacity; allocatable = [] }

custom-Distinct : Distinct small.custom
unfolding lookup
custom-Distinct = (refl, tt)

small-IsPlain : IsPlain integers small
unfolding lookup text_dec
small-IsPlain = record {
  distinct = custom-Distinct;
  no_cpu = refl;
  no_memory = refl;
  no_pods = refl;
  no_ephemeral_storage = refl;
}

quantity_of-add_example : quantity_of integers (add integers small small) "gpu" ≡ pos 2
unfolding quantity_of lookup text_dec
quantity_of-add_example = quantity_of-add integers small small custom-Distinct "gpu"

sub_resource-add_resource_example :
    (n n' : NodeStatus integers) × (add_resource integers (some node) small ≡ some n)
    × (sub_resource integers (some n) small ≡ some n')
    × ((name : String) → amount integers name n'.capacity ≡ amount integers name capacity)
sub_resource-add_resource_example =
    sub_resource-add_resource integers node small capacity-Distinct small-IsPlain

abbrev pod : PodSpec integers
pod = record {
  containers =
      record { requests = ("cpu", pos 2) ∷ []; limits = ("cpu", pos 3) ∷ [] }
      ∷ record { requests = ("cpu", pos 1) ∷ []; limits = [] }
      ∷ [];
  init_containers = record { requests = ("cpu", pos 7) ∷ []; limits = [] } ∷ [];
  overhead = some (("cpu", pos 1) ∷ []);
}

one-Distinct : (n : ℤ) → Distinct (("cpu", n) ∷ [])
unfolding lookup
one-Distinct n = (refl, tt)

pod-IsProper : IsProper integers pod
unfolding requests_of limits_of
pod-IsProper = record {
  containers_requests = (one-Distinct (pos 2), (one-Distinct (pos 1), tt));
  containers_limits = (one-Distinct (pos 3), (tt, tt));
  inits_requests = (one-Distinct (pos 7), tt);
  inits_limits = (tt, tt);
  overhead_names = λ m e. subst Distinct (some_cancel e) (one-Distinct (pos 1));
}

pod_requests_and_limits-lookup_example :
    let (reqs, limits) = pod_requests_and_limits integers true pod in
    (lookup "cpu" reqs ≡ some (pos 8)) × (lookup "cpu" limits ≡ some (pos 4))
unfolding requests_of limits_of lookup text_dec
pod_requests_and_limits-lookup_example =
    pod_requests_and_limits-lookup integers true pod pod-IsProper "cpu"

resource_equal-lookup_example :
    (resource_equal integers small (record small { cpu = pos 3 }) ≡ true) ↔ (
      (pos 2 ≡ pos 3)
      × (pos 10 ≡ pos 10)
      × (pos 1 ≡ pos 1)
      × (pos 0 ≡ pos 0)
      × ((j : String) → lookup j small.custom ≡ lookup j small.custom))
resource_equal-lookup_example =
    resource_equal-lookup integers small (record small { cpu = pos 3 }) custom-Distinct
      custom-Distinct
