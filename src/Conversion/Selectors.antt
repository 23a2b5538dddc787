-- ===== src/Conversion/Selectors.antt =====
-- pkg/utils/conversion.go: the selection of nodes that a pod has in the member cluster.
use clusterrouter.Base.{String, Option, none, some, [], Map, text_dec, ite}
use clusterrouter.Conversion.{
  NodeAffinity, Affinity, ClustersNodeSelection, PodSpec, Json, selector_key, value_at,
}

-- `ConvertAnnotations`.
unfoldable pub convert_annotations : Json → Option (Map String) → Option ClustersNodeSelection
convert_annotations J annotation =
    ite (text_dec (value_at selector_key annotation) "") none
      (J.unmarshal_selection (value_at selector_key annotation))

-- The node affinity of a pod that has an affinity, with a selection.
abbrev pub selected_node_affinity : Option Affinity → Option NodeAffinity → Option NodeAffinity
selected_node_affinity none own = none
selected_node_affinity (some a) own = elim a.node_affinity [
  | none ↦ none
  | some selected ↦ elim own [
    | some n ↦ some (record n { required = selected.required })
    | none ↦ some selected
  ]
]

abbrev pub selected_affinity : Option Affinity → Option Affinity → Option Affinity
selected_affinity selected none = selected
selected_affinity selected (some own) =
    some (record own { node_affinity = selected_node_affinity selected own.node_affinity })

-- Without a selection, only the node affinity that is required goes.
abbrev pub unselected_affinity : Option Affinity → Option Affinity
unselected_affinity none = none
unselected_affinity (some own) = some (record own {
  node_affinity = elim own.node_affinity [
    | none ↦ none
    | some n ↦ some (record n { required = none })
  ];
})

-- The end of `recoverSelectors`, where what is empty goes.
abbrev pub without_empty_node_affinity : Option NodeAffinity → Option NodeAffinity
without_empty_node_affinity none = none
without_empty_node_affinity (some n) = elim n.required [
  | some r ↦ some n
  | none ↦ elim n.preferred [ some p ↦ some n | none ↦ none ]
]

abbrev pub unless_empty : Affinity → Option Affinity
unless_empty a = elim a.node_affinity [
  | some n ↦ some a
  | none ↦ elim a.pod_affinity [
    | some p ↦ some a
    | none ↦ elim a.pod_anti_affinity [ some p ↦ some a | none ↦ none ]
  ]
]

unfoldable pub without_empty : Option Affinity → Option Affinity
without_empty none = none
without_empty (some a) =
    unless_empty (record a { node_affinity = without_empty_node_affinity a.node_affinity })

-- `recoverSelectors`.
unfoldable pub recover_selectors : PodSpec → Option ClustersNodeSelection → PodSpec
recover_selectors spec (some cns) = record spec {
  node_selector = cns.node_selector;
  tolerations = cns.tolerations;
  affinity = without_empty (selected_affinity cns.affinity spec.affinity);
}
recover_selectors spec none = record spec {
  node_selector = none;
  tolerations = [];
  affinity = without_empty (unselected_affinity spec.affinity);
}
