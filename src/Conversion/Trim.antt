-- ===== src/Conversion/Trim.antt =====
-- pkg/utils/conversion.go: the pod that is sent to the member cluster, and its update.
use text.Mathlib.Text.{starts_with}
use clusterrouter.Base.{
  String, Bool, Option, none, some, List, [], ◌∷◌, Map, text_dec, ite, if◌then◌else◌,
}
use clusterrouter.Conversion.{
  VolumeMount, Container, Volume, Pod, Json, selector_key, virtual_pod_label, tripped_labels,
  or_no_entries, value_at, put_entry, trim_object_meta,
}
use clusterrouter.Conversion.Labels.{trim_labels}
use clusterrouter.Conversion.Selectors.{convert_annotations, recover_selectors}

-- The volume that Kubernetes adds for the token of a service account.
abbrev pub is_default_token : String → Bool
is_default_token name = starts_with name "default-token"

unfoldable pub trim_mounts : List VolumeMount → List VolumeMount
trim_mounts [] = []
trim_mounts (v ∷ mounts) =
    let rest = trim_mounts mounts in if is_default_token v.name then rest else v ∷ rest

-- `trimContainers`.
unfoldable pub trim_containers : List Container → List Container
trim_containers [] = []
trim_containers (c ∷ containers) =
    record c { volume_mounts = trim_mounts c.volume_mounts } ∷ trim_containers containers

unfoldable pub trim_volumes : List Volume → List Volume
trim_volumes [] = []
trim_volumes (v ∷ volumes) =
    let rest = trim_volumes volumes in if is_default_token v.name then rest else v ∷ rest

-- The labels taken off are kept in an annotation, if they can be written.
unfoldable pub keep_tripped : Json → Option (Map String) → Option (Map String) → Option (Map String)
keep_tripped J none annotations = annotations
keep_tripped J (some tripped) annotations = elim (J.marshal tripped) [
  | none ↦ annotations
  | some s ↦ put_entry tripped_labels s annotations
]

-- `TrimPod`, on the copy of the pod.
unfoldable pub trim_pod : Json → Pod → Option (List String) → Pod
trim_pod J pod ignore_labels =
    let (labels, tripped) =
      trim_labels (or_no_entries (put_entry virtual_pod_label "true" pod.meta.labels))
        ignore_labels in
    record {
      meta = record (trim_object_meta pod.meta) {
        labels = some labels;
        annotations = keep_tripped J tripped (some (or_no_entries pod.meta.annotations));
      };
      spec = record (recover_selectors pod.spec (convert_annotations J pod.meta.annotations)) {
        containers = trim_containers pod.spec.containers;
        init_containers = trim_containers pod.spec.init_containers;
        volumes = trim_volumes pod.spec.volumes;
        node_name = "";
        scheduler_name = "";
      };
      status = none;
    }

-- The images of an update; `none` is the panic for an update with fewer containers.
unfoldable pub update_images : List Container → List Container → Option (List Container)
update_images [] update = some []
update_images (c ∷ orig) [] = none
update_images (c ∷ orig) (d ∷ update) = elim (update_images orig update) [
  | none ↦ none
  | some rest ↦ some (record c { image = d.image } ∷ rest)
]

-- The tolerations of an update whose selection of nodes differs and can be read.
unfoldable pub updated_tolerations : Json → Pod → Pod → List String
updated_tolerations J orig update =
    ite
      (text_dec (value_at selector_key orig.meta.annotations)
        (value_at selector_key update.meta.annotations))
      orig.spec.tolerations
      (elim (convert_annotations J update.meta.annotations) [
        | some cns ↦ cns.tolerations
        | none ↦ orig.spec.tolerations
      ])

abbrev pub trimmed_labels : Option (Map String) → Option (List String) → Option (Map String)
trimmed_labels none ignore_labels = none
trimmed_labels (some labels) ignore_labels = some (trim_labels labels ignore_labels).0

-- Both pods after an update, given the new containers: the original takes over the maps of the
-- update, whose labels are then trimmed too.
unfoldable pub updated_pods :
    Json → Pod → Pod → Option (List String) → List Container → List Container → Pod × Pod
updated_pods J orig update ignore_labels inits containers =
    let labels = trimmed_labels update.meta.labels ignore_labels in
    let annotations = some (or_no_entries update.meta.annotations) in
    (
      record orig {
        meta = record orig.meta { labels = labels; annotations = annotations };
        spec = record orig.spec {
          init_containers = inits;
          containers = containers;
          tolerations = updated_tolerations J orig update;
          active_deadline_seconds = update.spec.active_deadline_seconds;
        };
      },
      record update { meta = record update.meta { labels = labels; annotations = annotations } },
    )

-- `GetUpdatedPod`.
unfoldable pub get_updated_pod : Json → Pod → Pod → Option (List String) → Option (Pod × Pod)
get_updated_pod J orig update ignore_labels =
    elim (update_images orig.spec.init_containers update.spec.init_containers) [
      | none ↦ none
      | some inits ↦ elim (update_images orig.spec.containers update.spec.containers) [
        | none ↦ none
        | some containers ↦ some (updated_pods J orig update ignore_labels inits containers)
      ]
    ]
