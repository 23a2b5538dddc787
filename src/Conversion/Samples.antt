-- ===== src/Conversion/Samples.antt =====
-- A pod, a selection of nodes and an encoding of maps, for the tests.
use clusterrouter.Base.{refl, ap, none, some, [], ◌∷◌}
use clusterrouter.Conversion.{Container, Pod, ClustersNodeSelection, Json}
use clusterrouter.Conversion.Codec.{write_map, read_map, write_map-full, read_map-write_map}

abbrev pub container : Container
container = record { name = "c"; image = "old"; volume_mounts = [] }

abbrev pub pod : Pod
pod = record {
  meta = record {
    uid = "1";
    resource_version = "2";
    self_link = "";
    owner_references = [];
    labels = some (("app", "web") ∷ ("zone", "a") ∷ []);
    annotations = none;
  };
  spec = record {
    volumes = record { name = "default-token-x"; source = "s" } ∷ [];
    containers = container ∷ [];
    init_containers = [];
    node_name = "n";
    scheduler_name = "main";
    node_selector = none;
    tolerations = [];
    affinity = some (record {
      node_affinity = some (record { required = some "own"; preferred = none });
      pod_affinity = some "near";
      pod_anti_affinity = none;
    });
    active_deadline_seconds = none;
  };
  status = some "Running";
}

abbrev pub newer : Pod
newer = record pod {
  spec = record pod.spec { containers = record container { image = "new" } ∷ [] };
}

abbrev pub selection : ClustersNodeSelection
selection = record {
  node_selector = some (("disk", "ssd") ∷ []);
  affinity = some (record {
    node_affinity = some (record { required = some "selected"; preferred = none });
    pod_affinity = none;
    pod_anti_affinity = none;
  });
  tolerations = "t" ∷ [];
}

abbrev pub json : Json
json = record {
  marshal = λ m. some (write_map m);
  unmarshal = λ s. some (read_map s);
  unmarshal_selection = λ s. some selection;
  unmarshal-marshal =
      λ m d. (write_map m, m, refl, write_map-full m, ap some (read_map-write_map m), d, λ k. refl);
}
