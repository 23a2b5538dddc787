-- ===== src/Conversion/Affinities.antt =====
-- pkg/utils/conversion.go: where a pod may run in the member cluster.
use clusterrouter.Base.{
  String, ◌≡◌, ◌≢◌, refl, ◌∙◌, ◌⊎◌, inl, inr, Option, none, some, List, [], arith,
}
use clusterrouter.Conversion.{NodeAffinity, Affinity, ClustersNodeSelection, PodSpec}
use clusterrouter.Conversion.Selectors.{
  selected_affinity, unselected_affinity, without_empty_node_affinity, without_empty,
  recover_selectors,
}

abbrev pub node_affinity_of : Option Affinity → Option NodeAffinity
node_affinity_of none = none
node_affinity_of (some a) = a.node_affinity

abbrev pub required_of_node : Option NodeAffinity → Option String
required_of_node none = none
required_of_node (some n) = n.required

-- The terms that a node must satisfy.
abbrev pub required_of : Option Affinity → Option String
required_of o = required_of_node (node_affinity_of o)

abbrev pub pod_affinity_of : Option Affinity → Option String
pod_affinity_of none = none
pod_affinity_of (some a) = a.pod_affinity

abbrev pub pod_anti_affinity_of : Option Affinity → Option String
pod_anti_affinity_of none = none
pod_anti_affinity_of (some a) = a.pod_anti_affinity

-- Neither the affinity nor its part on nodes is there without any content.
abbrev pub IsFilledNode : Option NodeAffinity → Type 0
IsFilledNode none = Unit
IsFilledNode (some n) = (n.required ≢ none) ⊎ (n.preferred ≢ none)

abbrev pub IsFilled : Option Affinity → Type 0
IsFilled none = Unit
IsFilled (some a) =
    IsFilledNode a.node_affinity
    × ((a.node_affinity ≢ none) ⊎ (a.pod_affinity ≢ none) ⊎ (a.pod_anti_affinity ≢ none))

filled_node :
    (n : NodeAffinity) (r : Option String) (p : Option (List String))
    → n.required ≡ r
    → n.preferred ≡ p
    → IsFilledNode (elim r [ some _ ↦ some n | none ↦ elim p [ some _ ↦ some n | none ↦ none ] ])
filled_node n (some r) p e f = inl (λ z. cc)
filled_node n none (some p) e f = inr (λ z. cc)
filled_node n none none e f = tt

without_empty_node_affinity-IsFilledNode :
    (o : Option NodeAffinity) → IsFilledNode (without_empty_node_affinity o)
without_empty_node_affinity-IsFilledNode none = tt
without_empty_node_affinity-IsFilledNode (some n) = filled_node n n.required n.preferred refl refl

filled :
    (a : Affinity) (n : Option NodeAffinity) (p q : Option String)
    → a.node_affinity ≡ n
    → a.pod_affinity ≡ p
    → a.pod_anti_affinity ≡ q
    → IsFilledNode a.node_affinity
    → IsFilled (elim n [
      | some _ ↦ some a
      | none ↦ elim p [ some _ ↦ some a | none ↦ elim q [ some _ ↦ some a | none ↦ none ] ]
    ])
filled a (some n) p q e f g h = (h, inl (λ z. cc))
filled a none (some p) q e f g h = (h, inr (inl (λ z. cc)))
filled a none none (some q) e f g h = (h, inr (inr (λ z. cc)))
filled a none none none e f g h = tt

without_empty-IsFilled : (o : Option Affinity) → IsFilled (without_empty o)
unfolding without_empty
without_empty-IsFilled none = tt
without_empty-IsFilled (some a) =
    let n = without_empty_node_affinity a.node_affinity in
    filled (record a { node_affinity = n }) n a.pod_affinity a.pod_anti_affinity refl refl refl
      (without_empty_node_affinity-IsFilledNode a.node_affinity)

without_empty-required : (o : Option Affinity) → required_of (without_empty o) ≡ required_of o
unfolding without_empty
without_empty-required none = refl
without_empty-required (some a) = ground arith

without_empty-pods :
    (o : Option Affinity)
    → (pod_affinity_of (without_empty o) ≡ pod_affinity_of o)
      × (pod_anti_affinity_of (without_empty o) ≡ pod_anti_affinity_of o)
unfolding without_empty
without_empty-pods none = (refl, refl)
without_empty-pods (some a) = (ground arith, ground arith)

selected-required :
    (selected own : Option Affinity)
    → required_of (selected_affinity selected own) ≡ required_of selected
selected-required selected none = refl
selected-required none (some own) = refl
selected-required (some a) (some own) = ground arith

unselected-required : (own : Option Affinity) → required_of (unselected_affinity own) ≡ none
unselected-required none = refl
unselected-required (some own) = ground arith

-- The affinity of a pod that has one, and else that of the selection.
abbrev pub own_or : Option Affinity → Option Affinity → Option Affinity
own_or selected none = selected
own_or selected (some a) = some a

selected_pods :
    (selected own : Option Affinity)
    → (pod_affinity_of (selected_affinity selected own) ≡ pod_affinity_of (own_or selected own))
      × (pod_anti_affinity_of (selected_affinity selected own)
          ≡ pod_anti_affinity_of (own_or selected own))
selected_pods selected none = (refl, refl)
selected_pods selected (some a) = (refl, refl)

unselected_pods :
    (own : Option Affinity)
    → (pod_affinity_of (unselected_affinity own) ≡ pod_affinity_of (own_or none own))
      × (pod_anti_affinity_of (unselected_affinity own) ≡ pod_anti_affinity_of (own_or none own))
unselected_pods none = (refl, refl)
unselected_pods (some a) = (refl, refl)

-- The nodes that a selection asks for, all of it; without one, nothing.
abbrev pub selection_of : Option ClustersNodeSelection → ClustersNodeSelection
selection_of (some cns) = cns
selection_of none = record { node_selector = none; affinity = none; tolerations = [] }

-- In the member cluster, the node selector, the tolerations and the terms that a node must satisfy
-- are those of the selection of nodes, and none without one, whatever the pod has itself; the terms
-- on other pods are those of the pod's own affinity, and the selection's where it has none; and
-- nothing is left that has no content.
pub recover_selectors-selection_of :
    (spec : PodSpec) (cns : Option ClustersNodeSelection)
    → let after = recover_selectors spec cns in
      let selected = selection_of cns in
      (after.node_selector ≡ selected.node_selector)
      × (after.tolerations ≡ selected.tolerations)
      × (required_of after.affinity ≡ required_of selected.affinity)
      × (pod_affinity_of after.affinity ≡ pod_affinity_of (own_or selected.affinity spec.affinity))
      × (pod_anti_affinity_of after.affinity
          ≡ pod_anti_affinity_of (own_or selected.affinity spec.affinity))
      × IsFilled after.affinity
unfolding recover_selectors
recover_selectors-selection_of spec none =
    let o = unselected_affinity spec.affinity in
    let (p, q) = without_empty-pods o in
    (
      refl,
      refl,
      without_empty-required o ∙ unselected-required spec.affinity,
      p ∙ (unselected_pods spec.affinity).0,
      q ∙ (unselected_pods spec.affinity).1,
      without_empty-IsFilled o,
    )
recover_selectors-selection_of spec (some cns) =
    let o = selected_affinity cns.affinity spec.affinity in
    let (p, q) = without_empty-pods o in
    (
      refl,
      refl,
      without_empty-required o ∙ selected-required cns.affinity spec.affinity,
      p ∙ (selected_pods cns.affinity spec.affinity).0,
      q ∙ (selected_pods cns.affinity spec.affinity).1,
      without_empty-IsFilled o,
    )
