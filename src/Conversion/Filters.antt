-- ===== src/Conversion/Filters.antt =====
-- pkg/controllers/utils.go: services and volumes made ready for the member cluster.
use clusterrouter.Base.{String, Option, none, some, List, [], ◌∷◌, Map, text_dec, ite}
use clusterrouter.Conversion.{
  ObjectMeta, Json, or_no_entries, value_at, put_entry, trim_object_meta, set_object_global,
}

-- `SelectedNodeKey`, `HostNameKey` and `BetaHostNameKey` of pkg/utils/k8s.go.
abbrev pub selected_node_key : String
selected_node_key = "volume.kubernetes.io/selected-node"

abbrev pub host_name_key : String
host_name_key = "kubernetes.io/hostname"

abbrev pub beta_host_name_key : String
beta_host_name_key = "beta.kubernetes.io/hostname"

-- The annotation that keeps the selector.
abbrev pub label_selector : String
label_selector = "labelSelector"

pub record Service : Type 0 where
  pub meta : ObjectMeta
  pub selector : Option (Map String)
  pub cluster_ip : String
  pub cluster_ips : List String

-- `filterCommon`, which never fails.
unfoldable pub filter_common : ObjectMeta → ObjectMeta
filter_common meta = set_object_global (trim_object_meta meta)

-- The service without what belongs to the cluster.
unfoldable pub detached : Service → Service
detached service = record {
  meta = set_object_global (trim_object_meta service.meta);
  selector = none;
  cluster_ip = ite (text_dec service.cluster_ip "None") service.cluster_ip "";
  cluster_ips = [];
}

unfoldable pub with_annotation : String → String → ObjectMeta → ObjectMeta
with_annotation k v meta = record meta { annotations = put_entry k v meta.annotations }

-- `filterService`; `none` is the error of `json.Marshal`.
unfoldable pub filter_service : Json → Service → Option Service
filter_service J service = elim service.selector [
  | none ↦ some (detached service)
  | some selector ↦ elim (J.marshal selector) [
    | none ↦ none
    | some s ↦ some (record (detached service) {
      meta = with_annotation label_selector s (detached service).meta;
    })
  ]
]

-- A selector of volumes is kept by its text.
pub record PersistentVolumeClaim : Type 0 where
  pub meta : ObjectMeta
  pub selector : Option String

unfoldable pub moved_to_host : String → ObjectMeta → ObjectMeta
moved_to_host host_ip meta =
    ite (text_dec (value_at selected_node_key meta.annotations) "") meta
      (with_annotation selected_node_key host_ip meta)

-- `filterPVC`; `marshal_selector` is `json.Marshal` on a selector.
unfoldable pub filter_pvc :
    (String → Option String) → PersistentVolumeClaim → String → Option PersistentVolumeClaim
filter_pvc marshal_selector pvc host_ip =
    let meta = set_object_global (trim_object_meta pvc.meta) in
    elim pvc.selector [
      | none ↦ some (record { meta = moved_to_host host_ip meta; selector = none })
      | some selector ↦ elim (marshal_selector selector) [
        | none ↦ none
        | some s ↦ some (record {
          meta = moved_to_host host_ip (with_annotation label_selector s meta);
          selector = none;
        })
      ]
    ]

pub record Requirement : Type 0 where
  pub key : String
  pub operator : String
  pub values : List String

pub record NodeSelectorTerm : Type 0 where
  pub match_fields : List Requirement
  pub match_expressions : List Requirement

-- The node affinity of a volume, if there is one, has terms that are required, if any.
pub record PersistentVolume : Type 0 where
  pub meta : ObjectMeta
  pub node_affinity : Option (Option (List NodeSelectorTerm))

unfoldable pub on_host : String → Requirement → Requirement
on_host host_ip val =
    ite (text_dec val.key host_name_key) (record val { values = host_ip ∷ [] })
      (ite (text_dec val.key beta_host_name_key) (record val { values = host_ip ∷ [] }) val)

unfoldable pub all_on_host : String → List Requirement → List Requirement
all_on_host host_ip [] = []
all_on_host host_ip (val ∷ vals) = on_host host_ip val ∷ all_on_host host_ip vals

unfoldable pub terms_on_host : String → List NodeSelectorTerm → List NodeSelectorTerm
terms_on_host host_ip [] = []
terms_on_host host_ip (v ∷ terms) =
    record {
      match_fields = all_on_host host_ip v.match_fields;
      match_expressions = all_on_host host_ip v.match_expressions;
    }
    ∷ terms_on_host host_ip terms

abbrev pub affinity_on_host :
    String → Option (Option (List NodeSelectorTerm)) → Option (Option (List NodeSelectorTerm))
affinity_on_host host_ip none = none
affinity_on_host host_ip (some none) = some none
affinity_on_host host_ip (some (some terms)) = some (some (terms_on_host host_ip terms))

-- `filterPV`.
unfoldable pub filter_pv : PersistentVolume → String → PersistentVolume
filter_pv pv host_ip = record {
  meta = record (trim_object_meta pv.meta) {
    annotations = some (or_no_entries pv.meta.annotations);
  };
  node_affinity = affinity_on_host host_ip pv.node_affinity;
}
