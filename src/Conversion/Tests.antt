-- ===== src/Conversion/Tests.antt =====
-- pkg/utils/conversion.go: a pod with a label to be ignored, an affinity and the token's volume.
use clusterrouter.Base.{
  ◌≤◌, ◌<◌, String, ◌≡◌, ◌↔◌, refl, ◌⊎◌, true, none, some, List, Distinct, [], ◌∷◌, Map, lookup,
  text_dec, ite,
}
use clusterrouter.Conversion.Samples.{pod, newer, selection, json}
use clusterrouter.Conversion.{Pod, virtual_pod_label, value_at, is_object_global}
use clusterrouter.Conversion.Labels.{recover_labels}
use clusterrouter.Conversion.Selectors.{recover_selectors}
use clusterrouter.Conversion.Trim.{trim_pod, get_updated_pod}
use clusterrouter.Conversion.Affinities.{
  required_of, pod_affinity_of, pod_anti_affinity_of, IsFilled, recover_selectors-selection_of,
}
use clusterrouter.Conversion.Filters.{
  label_selector, Service, filter_service, NodeSelectorTerm, PersistentVolume, filter_pv,
}
use clusterrouter.Conversion.Filtered.{TermsMoved, filter_service-selector, filter_pv-TermsMoved}
use clusterrouter.Conversion.Trimmed.{HaveTrimmed}
use clusterrouter.Conversion.Sent.{recover_labels-trim_pod, HaveImages, get_updated_pod-HaveImages}

recover_labels-trim_pod_example :
    let sent = trim_pod json pod (some ("zone" ∷ [])) in
    (restored : Map String) × (recover_labels json sent.meta.labels sent.meta.annotations
      ≡ some (some restored))
    × ((k : String)
        → lookup k restored
          ≡ ite
              (text_dec virtual_pod_label k)
              (some "true")
              (lookup k (("app", "web") ∷ ("zone", "a") ∷ [])))
recover_labels-trim_pod_example = recover_labels-trim_pod json pod ("zone" ∷ [])

recover_selectors-selection_of_example :
    let after = recover_selectors pod.spec (some selection) in
    (after.node_selector ≡ some (("disk", "ssd") ∷ []))
    × (after.tolerations ≡ "t" ∷ [])
    × (required_of after.affinity ≡ some "selected")
    × (pod_affinity_of after.affinity ≡ some "near")
    × (pod_anti_affinity_of after.affinity ≡ none)
    × IsFilled after.affinity
recover_selectors-selection_of_example = recover_selectors-selection_of pod.spec (some selection)

get_updated_pod-HaveImages_example :
    ((0 ≤ 0)
      × (1 ≤ 1)
      × ((after : Pod) × (update' : Pod) × (get_updated_pod json pod newer (some ("zone" ∷ []))
            ≡ some (after, update'))
          × HaveImages [] [] after.spec.init_containers
          × HaveImages pod.spec.containers newer.spec.containers after.spec.containers
          × HaveTrimmed (some ("zone" ∷ [])) newer.meta.labels after.meta.labels
          × (update'.meta.labels ≡ after.meta.labels)))
    ⊎ (((0 < 0) ⊎ (1 < 1)) × (get_updated_pod json pod newer (some ("zone" ∷ [])) ≡ none))
get_updated_pod-HaveImages_example = get_updated_pod-HaveImages json pod newer (some ("zone" ∷ []))

abbrev headless : Service
headless = record {
  meta = pod.meta;
  selector = some (("app", "web") ∷ []);
  cluster_ip = "None";
  cluster_ips = "None" ∷ [];
}

selector-Distinct : Distinct {V = String} (("app", "web") ∷ [])
unfolding lookup
selector-Distinct = (refl, tt)

filter_service-selector_example :
    (sent : Service) × (n : Map String) × (filter_service json headless ≡ some sent)
    × (sent.selector ≡ none)
    × (is_object_global sent.meta ≡ true)
    × (json.unmarshal (value_at label_selector sent.meta.annotations) ≡ some n)
    × ((k : String) → lookup k n ≡ lookup k (("app", "web") ∷ []))
    × ((sent.cluster_ip ≡ "None") ↔ (headless.cluster_ip ≡ "None"))
filter_service-selector_example =
    filter_service-selector json headless (("app", "web") ∷ []) refl selector-Distinct

abbrev on_node : List NodeSelectorTerm
on_node =
    record {
      match_fields = [];
      match_expressions =
          record { key = "kubernetes.io/hostname"; operator = "In"; values = "n" ∷ [] } ∷ [];
    }
    ∷ []

abbrev volume : PersistentVolume
volume = record { meta = pod.meta; node_affinity = some (some on_node) }

filter_pv-TermsMoved_example :
    (sent : List NodeSelectorTerm) × ((filter_pv volume "h").node_affinity ≡ some (some sent))
    × TermsMoved "h" on_node sent
filter_pv-TermsMoved_example = filter_pv-TermsMoved volume "h" on_node refl
