-- ===== src/Provider/Placed.antt =====
-- pkg/plugins/virtualk8s/node.go: which nodes and pods count for the capacity that is left.
use clusterrouter.Base.{
  String, ◌≡◌, ◌≢◌, ◌⊎◌, ◌↔◌, inl, inr, refl, sym, subst, ap, ◌∙◌, Bool, true, false, not, ◌&&◌,
  List, [], ◌∷◌, text_dec, ite, ite_iff, not-ite_iff, and_iff, or_iff, not_iff, text_differs,
}
use clusterrouter.Resource.{Quantities, Resource, amount, convert_resource}
use clusterrouter.Resource.Amounts.{quantity_of}
use clusterrouter.Resource.Capacity.{convert_resource-amount}
use clusterrouter.Resource.Requests.{
  get_request_from_pod, pod_requests_and_limits, pod_requests_and_limits-Distinct,
}
use clusterrouter.Controllers.Api.{Answer, ok, err}
use clusterrouter.Provider.Members.{
  LowerNode, LowerPod, is_text, has_ready, check_node_status_ready,
}
use clusterrouter.Provider.Capacity.{pod_request, pod_resource, is_usable, takes_capacity}

-- Some condition of type `Ready` has the status `True`.
abbrev pub HasReady : List (String × String) → Type 0
HasReady [] = ⊥
HasReady ((kind, status) ∷ conditions) =
    ((kind ≡ "Ready") × (status ≡ "True")) ⊎ HasReady conditions

module _ (U : Quantities) where
  has_ready-HasReady :
      (conditions : List (String × String)) → (has_ready U conditions ≡ true) ↔ HasReady conditions
  unfolding has_ready is_text
  has_ready-HasReady [] = (λ h. cc, λ h. absurd h)
  has_ready-HasReady ((kind, status) ∷ conditions) =
      let rest = has_ready-HasReady conditions in
      let k = ite_iff (text_dec kind "Ready") in
      let s = ite_iff (text_dec status "True") in
      let both = and_iff (is_text kind "Ready") (is_text status "True") in
      let any = or_iff (is_text kind "Ready" && is_text status "True") (has_ready U conditions) in
      (
        λ h. elim (any.0 h) [
          | inl e ↦ inl (k.0 (both.0 e).0, s.0 (both.0 e).1)
          | inr r ↦ inr (rest.0 r)
        ],
        λ h. any.1 (elim h [ inl e ↦ inl (both.1 (k.1 e.0, s.1 e.1)) | inr r ↦ inr (rest.1 r) ]),
      )

  -- The node is ready, and pods can be scheduled to it.
  abbrev pub IsUsable : LowerNode U → Type 0
  IsUsable node = (node.unschedulable ≡ false) × HasReady node.conditions

  -- The pod is running, or placed and pending, and the node of its name is found and usable.
  abbrev pub TakesCapacity : (String → Answer (LowerNode U)) → LowerPod U → Type 0
  TakesCapacity nodes pod =
      (((pod.phase ≡ "Pending") × (pod.node_name ≢ "")) ⊎ (pod.phase ≡ "Running"))
      × ((node : LowerNode U) × (nodes pod.node_name ≡ ok node) × IsUsable node)

module _ (U : Quantities) (enabled : Bool) (one : U.Quantity) where
  open U use {Quantity, zero_quantity}

  pub is_usable-IsUsable :
      (node : LowerNode U) → (is_usable U enabled one node ≡ true) ↔ IsUsable U node
  unfolding is_usable check_node_status_ready
  is_usable-IsUsable node =
      let both = and_iff (not node.unschedulable) (has_ready U node.conditions) in
      let open_ = not_iff node.unschedulable in
      let ready = has_ready-HasReady U node.conditions in
      (λ h. (open_.0 (both.0 h).0, ready.0 (both.0 h).1), λ u. both.1 (open_.1 u.0, ready.1 u.1))

  found-IsUsable :
      (x : Answer (LowerNode U))
      → (elim x [ err _ ↦ false | ok node ↦ is_usable U enabled one node ] ≡ true)
        ↔ ((node : LowerNode U) × (x ≡ ok node) × IsUsable U node)
  found-IsUsable (err e) = (λ h. cc, λ h. cc (h.1))
  found-IsUsable (ok node) =
      let usable = is_usable-IsUsable node in
      (λ h. (node, refl, usable.0 h), λ h. usable.1 (subst (IsUsable U) (sym (ok_cancel h.1)) h.2))
    where
      ok_cancel : {a b : LowerNode U} → ok a ≡ ok b → a ≡ b
      ok_cancel e = cc

  pub takes_capacity-TakesCapacity :
      (nodes : String → Answer (LowerNode U)) (pod : LowerPod U)
      → (takes_capacity U enabled one nodes pod ≡ true) ↔ TakesCapacity U nodes pod
  unfolding takes_capacity is_text
  takes_capacity-TakesCapacity nodes pod =
      let pending = ite_iff (text_dec pod.phase "Pending") in
      let placed = not-ite_iff (text_dec pod.node_name "") in
      let running = ite_iff (text_dec pod.phase "Running") in
      let waits = and_iff (is_text pod.phase "Pending") (not (is_text pod.node_name "")) in
      let phase =
        or_iff (is_text pod.phase "Pending" && not (is_text pod.node_name ""))
          (is_text pod.phase "Running") in
      let found = found-IsUsable (nodes pod.node_name) in
      let both = and_iff _ _ in
      (
        λ h. (
          elim (phase.0 (both.0 h).0) [
            | inl e ↦ inl (pending.0 (waits.0 e).0, placed.0 (waits.0 e).1)
            | inr r ↦ inr (running.0 r)
          ],
          found.0 (both.0 h).1,
        ),
        λ t. both.1 (
          phase.1 (elim t.0 [
            | inl e ↦ inl (waits.1 (pending.1 e.0, placed.1 e.1))
            | inr r ↦ inr (running.1 r)
          ]),
          found.1 t.1,
        ),
      )

  -- What a pod takes of a name: itself of `pods`, and else what it requests.
  abbrev pub asks : LowerPod U → String → Quantity
  asks pod name =
      ite (text_dec name "pods") one (amount U name (pod_requests_and_limits U enabled pod.spec).0)

  -- A test that the tests before it exclude can come first.
  third_first :
      {P Q R : Type 0} (p : Dec P) (q : Dec Q) (r : Dec R) (a b c d e : Quantity)
      → (P → R → ⊥)
      → (Q → R → ⊥)
      → ite p a (ite q b (ite r c e)) ≡ ite r c (ite p a (ite q b (ite r d e)))
  third_first (yes p) q (yes r) a b c d e f g = absurd (f p r)
  third_first (no p) (yes q) (yes r) a b c d e f g = absurd (g q r)
  third_first (no p) (no q) (yes r) a b c d e f g = refl
  third_first (yes p) q (no r) a b c d e f g = refl
  third_first (no p) (yes q) (no r) a b c d e f g = refl
  third_first (no p) (no q) (no r) a b c d e f g = refl

  with_pods-quantity_of :
      (r : Resource U) (name : String)
      → quantity_of U (record r { pods = one }) name
        ≡ ite (text_dec name "pods") one (quantity_of U r name)
  unfolding quantity_of
  with_pods-quantity_of r name =
      third_first (text_dec name "cpu") (text_dec name "memory") (text_dec name "pods") r.cpu
        r.memory one r.pods _ (λ e f. text_differs "cpu" "pods" refl (sym e ∙ f))
        (λ e f. text_differs "memory" "pods" refl (sym e ∙ f))

  pub pod_resource-asks :
      (pod : LowerPod U) (name : String)
      → quantity_of U (pod_resource U enabled one pod) name ≡ asks pod name
  unfolding pod_resource pod_request get_request_from_pod
  pod_resource-asks pod name =
      let reqs = (pod_requests_and_limits U enabled pod.spec).0 in
      with_pods-quantity_of (convert_resource U reqs) name
      ∙ ap (ite (text_dec name "pods") one) (
          convert_resource-amount U reqs (pod_requests_and_limits-Distinct U enabled pod.spec) name)
