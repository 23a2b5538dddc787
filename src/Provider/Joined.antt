-- ===== src/Provider/Joined.antt =====
-- pkg/plugins/virtualk8s/virtualk8s.go: what the capacity of the virtual node becomes as nodes and
-- pods of the member cluster come and go.
use mathlib.Core.Path.{fun_ext}
use clusterrouter.Base.{
  String, ◌≡◌, refl, sym, ap, subst, ◌∙◌, Bool, true, false, not, ◌&&◌, ◌||◌, Option, none, some,
  List, Map, Distinct, if◌then◌else◌,
}
use clusterrouter.Resource.{
  Quantities, Resource, amount, convert_resource, NodeStatus, add_resource,
}
use clusterrouter.Resource.Amounts.{quantity_of}
use clusterrouter.Resource.Capacity.{IsPlain, convert_resource-IsPlain}
use clusterrouter.Resource.Nodes.{add_resource-amount, sub_resource-amount}
use clusterrouter.Provider.Members.{
  LowerNode, LowerPod, is_virtual_pod, check_node_status_ready, pod_stopped, is_text,
}
use clusterrouter.Provider.Capacity.{pod_resource, get_resource_from_pods_by_node_name}
use clusterrouter.Provider.Sums.{pod_resource-IsPlain, by_node_name-IsPlain}
use clusterrouter.Provider.Informers.{
  Provider, add_to, sub_from, send_node, send_if_changed, with_node, node_added_to, node_added,
  applied_if, comes_back, goes_away, resizes, updated_capacity, update_vk_capacity_from_node,
  node_updated, send_set, local_added, add_pod, local_deleted, delete_pod,
}

module _ (U : Quantities) where
  open U use {Quantity, zero_quantity}

  -- A node that is set has distinct names, and of each name the given quantity.
  pub record Holds (node : Option (NodeStatus U)) (has : String → Quantity) : Type 0 where
    pub status : NodeStatus U
    pub is_set : node ≡ some status
    pub distinct : Distinct status.capacity
    pub amounts : (name : String) → amount U name status.capacity ≡ has name

module _ (U : Quantities) (enabled : Bool) (one : U.Quantity)
    (same_node : NodeStatus U → NodeStatus U → Bool)
    (same_list : Map U.Quantity → Map U.Quantity → Bool) where
  open U use {Quantity, zero_quantity}

  add_to-Holds :
      (n : Option (NodeStatus U)) (x : Resource U) (has : String → Quantity)
      → IsPlain U x
      → Holds U n has
      → Holds U
          (add_to U enabled one same_node same_list n x)
          (λ name. U.add (has name) (quantity_of U x name))
  unfolding add_to
  add_to-Holds n x has p h =
      let (n', e, amounts, _, d) = add_resource-amount U h.status x h.distinct p in
      record {
        status = n';
        is_set = ap (λ m. add_to U enabled one same_node same_list m x) h.is_set ∙ e;
        distinct = d;
        amounts = λ name. amounts name ∙ ap (λ q. U.add q (quantity_of U x name)) (h.amounts name);
      }

  sub_from-Holds :
      (n : Option (NodeStatus U)) (x : Resource U) (has : String → Quantity)
      → IsPlain U x
      → Holds U n has
      → Holds U
          (sub_from U enabled one same_node same_list n x)
          (λ name. U.sub (has name) (quantity_of U x name))
  unfolding sub_from
  sub_from-Holds n x has p h =
      let (n', e, amounts, _, d) = sub_resource-amount U h.status x h.distinct p in
      record {
        status = n';
        is_set = ap (λ m. sub_from U enabled one same_node same_list m x) h.is_set ∙ e;
        distinct = d;
        amounts = λ name. amounts name ∙ ap (λ q. U.sub q (quantity_of U x name)) (h.amounts name);
      }

  -- Sending keeps the rest of the provider.
  abbrev Keeps : Provider U → Provider U → Type 0
  Keeps p q = (q.node ≡ p.node) × (q.configured ≡ p.configured)

  sent-Keeps :
      (p : Provider U) (before after : Option (NodeStatus U))
      → Keeps p (send_if_changed U enabled one same_node same_list p before after)
  unfolding send_if_changed send_node
  sent-Keeps p before none = (refl, refl)
  sent-Keeps p none (some a) = (refl, refl)
  sent-Keeps p (some b) (some a) = same (same_node b a)
    where
      same : (c : Bool) → Keeps p (if c then p else send_node U enabled one same_node same_list p a)
      same true = (refl, refl)
      same false = (refl, refl)

  -- The provider is configured, and its node has the given quantities.
  pub record Tracks (p : Provider U) (has : String → Quantity) : Type 0 where
    pub is_configured : p.configured ≡ true
    pub holds : Holds U p.node has

  at_true :
      (b : Bool) (p q : Provider U) (has : String → Quantity)
      → b ≡ true
      → Tracks p has
      → Tracks (if b then p else q) has
  at_true true p q has e t = t
  at_true false p q has e t = cc

  at_false :
      (b : Bool) (p q : Provider U) (has : String → Quantity)
      → b ≡ false
      → Tracks q has
      → Tracks (if b then p else q) has
  at_false false p q has e t = t
  at_false true p q has e t = cc

  with_node-Tracks :
      (p : Provider U) (after : Option (NodeStatus U)) (has : String → Quantity)
      → p.configured ≡ true
      → Holds U after has
      → Tracks (with_node U enabled one same_node same_list p after) has
  unfolding with_node
  with_node-Tracks p after has c h =
      let (n, k) = sent-Keeps (record p { node = after }) p.node after in
      record { is_configured = k ∙ c; holds = subst (λ m. Holds U m has) (sym n) h }

  node_added_to-Tracks :
      (p : Provider U) (pods : Option (List (LowerPod U))) (o : Option (NodeStatus U))
      (has : String → Quantity)
      → p.configured ≡ true
      → Holds U o has
      → Tracks (node_added_to U enabled one same_node same_list p pods o) (λ name.
        U.sub
          (has name)
          (quantity_of U (get_resource_from_pods_by_node_name U enabled one pods) name))
  unfolding node_added_to
  node_added_to-Tracks p pods none has c h = cc (h.is_set)
  node_added_to-Tracks p pods (some n) has c h =
      let x = get_resource_from_pods_by_node_name U enabled one pods in
      with_node-Tracks p (sub_from U enabled one same_node same_list (some n) x)
        (λ name. U.sub (has name) (quantity_of U x name)) c
        (sub_from-Holds (some n) x has (by_node_name-IsPlain U enabled one pods) h)

  -- A node that is added adds its capacity, less what its own pods ask for, whether it is ready or
  -- not.
  node_added-Tracks :
      (p : Provider U) (pods : Option (List (LowerPod U))) (node : LowerNode U)
      (has : String → Quantity)
      → Tracks p has
      → Tracks (node_added U enabled one same_node same_list p pods node) (λ name.
        U.sub
          (U.add (has name) (quantity_of U (convert_resource U node.capacity) name))
          (quantity_of U (get_resource_from_pods_by_node_name U enabled one pods) name))
  unfolding node_added add_to
  node_added-Tracks p pods node has t =
      let x = convert_resource U node.capacity in
      let o = add_resource U p.node x in
      at_true p.configured (node_added_to U enabled one same_node same_list p pods o) p _
        t.is_configured
        (node_added_to-Tracks p pods o (λ name. U.add (has name) (quantity_of U x name))
          t.is_configured
          (add_to-Holds p.node x has (convert_resource-IsPlain U node.capacity) t.holds))

  applied_if-true :
      (b : Bool) (f : Option (NodeStatus U) → Option (NodeStatus U)) (n : Option (NodeStatus U))
      → b ≡ true
      → applied_if U enabled one same_node same_list b f n ≡ f n
  unfolding applied_if
  applied_if-true true f n e = refl
  applied_if-true false f n e = cc

  applied_if-false :
      (b : Bool) (f : Option (NodeStatus U) → Option (NodeStatus U)) (n : Option (NodeStatus U))
      → b ≡ false
      → applied_if U enabled one same_node same_list b f n ≡ n
  unfolding applied_if
  applied_if-false false f n e = refl
  applied_if-false true f n e = cc

  -- A node that was not ready and is, and can be scheduled to as before, with the same resources.
  pub record BecomesReady (old new : LowerNode U) : Type 0 where
    pub was_unready : check_node_status_ready U old ≡ false
    pub is_ready : check_node_status_ready U new ≡ true
    pub schedulable : old.unschedulable ≡ false
    pub still_schedulable : new.unschedulable ≡ false
    pub same_allocatable : same_list old.allocatable new.allocatable ≡ true
    pub same_capacity : same_list old.capacity new.capacity ≡ true

  ready-comes_back :
      (old new : LowerNode U)
      → BecomesReady old new
      → comes_back U enabled one same_node same_list old new ≡ true
  unfolding comes_back
  ready-comes_back old new r = simp (r.schedulable, r.still_schedulable, r.is_ready, r.was_unready)

  ready-goes_away :
      (old new : LowerNode U)
      → BecomesReady old new
      → goes_away U enabled one same_node same_list old new ≡ false
  unfolding goes_away
  ready-goes_away old new r = simp (r.schedulable, r.still_schedulable, r.is_ready, r.was_unready)

  ready-resizes :
      (old new : LowerNode U)
      → BecomesReady old new
      → resizes U enabled one same_node same_list old new ≡ false
  unfolding resizes
  ready-resizes old new r = simp (r.same_allocatable, r.same_capacity)

  ready-updated_capacity :
      (pods : Option (List (LowerPod U))) (old new : LowerNode U) (n : Option (NodeStatus U))
      → BecomesReady old new
      → updated_capacity U enabled one same_node same_list pods old new n
        ≡ sub_from U enabled one same_node same_list
            (add_to U enabled one same_node same_list n (convert_resource U new.capacity))
            (get_resource_from_pods_by_node_name U enabled one pods)
  unfolding updated_capacity
  ready-updated_capacity pods old new n r =
      applied_if-false (resizes U enabled one same_node same_list old new) _ _
        (ready-resizes old new r)
      ∙ applied_if-false (goes_away U enabled one same_node same_list old new) _ _
          (ready-goes_away old new r)
      ∙ applied_if-true (comes_back U enabled one same_node same_list old new) _ _
          (ready-comes_back old new r)

  -- A node that becomes ready adds its capacity again.
  node_updated-Tracks :
      (p : Provider U) (pods : Option (List (LowerPod U))) (old new : LowerNode U)
      (has : String → Quantity)
      → BecomesReady old new
      → Tracks p has
      → Tracks (node_updated U enabled one same_node same_list p pods old new) (λ name.
        U.sub
          (U.add (has name) (quantity_of U (convert_resource U new.capacity) name))
          (quantity_of U (get_resource_from_pods_by_node_name U enabled one pods) name))
  unfolding node_updated update_vk_capacity_from_node
  node_updated-Tracks p pods old new has r t =
      let x = convert_resource U new.capacity in
      let y = get_resource_from_pods_by_node_name U enabled one pods in
      let after = updated_capacity U enabled one same_node same_list pods old new p.node in
      let left : String → Quantity =
        λ name. U.sub (U.add (has name) (quantity_of U x name)) (quantity_of U y name) in
      let unready = not (check_node_status_ready U old) && not (check_node_status_ready U new) in
      let then_sent = with_node U enabled one same_node same_list p after in
      at_true p.configured (if unready then p else then_sent) p _ t.is_configured (
        at_false unready p then_sent _ (simp (r.was_unready, r.is_ready)) (
          with_node-Tracks p after _ t.is_configured (
            subst (λ m. Holds U m left) (sym (ready-updated_capacity pods old new p.node r))
              (sub_from-Holds (add_to U enabled one same_node same_list p.node x) y
                (λ name. U.add (has name) (quantity_of U x name))
                (by_node_name-IsPlain U enabled one pods)
                (add_to-Holds p.node x has (convert_resource-IsPlain U new.capacity) t.holds)))))

  -- A node that joins before it is ready is counted twice: once as it is added, and again as it
  -- becomes ready with the same resources. Of each name the virtual node then has its capacity two
  -- times, and less the pods of the node as they were listed both times.
  pub node_updated-node_added :
      (p : Provider U) (pods later : Option (List (LowerPod U))) (node new : LowerNode U)
      (has : String → Quantity)
      → BecomesReady node new
      → new.capacity ≡ node.capacity
      → Tracks p has
      → Tracks
          (node_updated U enabled one same_node same_list
            (node_added U enabled one same_node same_list p pods node)
            later
            node
            new)
          (λ name.
            let x = quantity_of U (convert_resource U node.capacity) name in
            let taken_by = λ (l : Option (List (LowerPod U))).
              quantity_of U (get_resource_from_pods_by_node_name U enabled one l) name in
            U.sub (U.add (U.sub (U.add (has name) x) (taken_by pods)) x) (taken_by later))
  node_updated-node_added p pods later node new has r same t =
      let once = node_added-Tracks p pods node has t in
      subst
        (λ (c : Map Quantity).
          Tracks
            (node_updated U enabled one same_node same_list
              (node_added U enabled one same_node same_list p pods node) later node new)
            (λ name.
              let x = quantity_of U (convert_resource U node.capacity) name in
              let taken_by = λ (l : Option (List (LowerPod U))).
                quantity_of U (get_resource_from_pods_by_node_name U enabled one l) name in
              U.sub
                (U.add (U.sub (U.add (has name) x) (taken_by pods))
                  (quantity_of U (convert_resource U c) name))
                (taken_by later)))
        same
        (node_updated-Tracks (node_added U enabled one same_node same_list p pods node) later node
          new
          (λ name.
            U.sub (U.add (has name) (quantity_of U (convert_resource U node.capacity) name))
              (quantity_of U (get_resource_from_pods_by_node_name U enabled one pods) name))
          r once)

  set-Tracks :
      (p : Provider U) (n : Option (NodeStatus U)) (has : String → Quantity)
      → p.configured ≡ true
      → Holds U n has
      → Tracks (send_set U enabled one same_node same_list p n) has
  unfolding send_set send_node
  set-Tracks p none has c h = cc (h.is_set)
  set-Tracks p (some n) has c h = record { is_configured = c; holds = h }

  -- A pod that only the member cluster knows, and that has a node there.
  pub record IsLocal (pod : LowerPod U) : Type 0 where
    pub not_virtual : is_virtual_pod U pod ≡ false
    pub has_node : is_text pod.node_name "" ≡ false

  local_added-Tracks :
      (p : Provider U) (pod : LowerPod U) (n : Option (NodeStatus U)) (has : String → Quantity)
      → IsLocal pod
      → p.configured ≡ true
      → Holds U n has
      → Tracks
          (local_added U enabled one same_node same_list p pod n)
          (λ name. U.sub (has name) (quantity_of U (pod_resource U enabled one pod) name))
  unfolding local_added
  local_added-Tracks p pod none has l c h = cc (h.is_set)
  local_added-Tracks p pod (some n) has l c h =
      let x = pod_resource U enabled one pod in
      let m = sub_from U enabled one same_node same_list (some n) x in
      at_false (is_text pod.node_name "") p (send_set U enabled one same_node same_list p m) _
        l.has_node
        (set-Tracks p m _ c
          (sub_from-Holds (some n) x has (pod_resource-IsPlain U enabled one pod) h))

  add_pod-Tracks :
      (p : Provider U) (pod : LowerPod U) (has : String → Quantity)
      → IsLocal pod
      → Tracks p has
      → Tracks
          (add_pod U enabled one same_node same_list p pod)
          (λ name. U.sub (has name) (quantity_of U (pod_resource U enabled one pod) name))
  unfolding add_pod
  add_pod-Tracks p pod has l t = at_true p.configured _ p _ t.is_configured (
      at_false (is_virtual_pod U pod) _ (local_added U enabled one same_node same_list p pod p.node)
        _ l.not_virtual (local_added-Tracks p pod p.node has l t.is_configured t.holds))

  local_deleted-Tracks :
      (p : Provider U) (pod : LowerPod U) (n : Option (NodeStatus U)) (has : String → Quantity)
      → IsLocal pod
      → pod_stopped U pod ≡ false
      → p.configured ≡ true
      → Holds U n has
      → Tracks
          (local_deleted U enabled one same_node same_list p pod n)
          (λ name. U.add (has name) (quantity_of U (pod_resource U enabled one pod) name))
  unfolding local_deleted
  local_deleted-Tracks p pod none has l s c h = cc (h.is_set)
  local_deleted-Tracks p pod (some n) has l s c h =
      let x = pod_resource U enabled one pod in
      let m = add_to U enabled one same_node same_list (some n) x in
      at_false (pod_stopped U pod || is_text pod.node_name "") p
        (send_set U enabled one same_node same_list p m) _ (simp (s, l.has_node))
        (set-Tracks p m _ c
          (add_to-Holds (some n) x has (pod_resource-IsPlain U enabled one pod) h))

  delete_pod-Tracks :
      (p : Provider U) (pod : LowerPod U) (has : String → Quantity)
      → IsLocal pod
      → pod_stopped U pod ≡ false
      → Tracks p has
      → Tracks
          (delete_pod U enabled one same_node same_list p pod)
          (λ name. U.add (has name) (quantity_of U (pod_resource U enabled one pod) name))
  unfolding delete_pod
  delete_pod-Tracks p pod has l s t = at_true p.configured _ p _ t.is_configured (
      at_false (is_virtual_pod U pod) _
        (local_deleted U enabled one same_node same_list p pod p.node) _ l.not_virtual
        (local_deleted-Tracks p pod p.node has l s t.is_configured t.holds))

  -- A local pod that comes and goes, and was not stopped before, leaves of every name what the
  -- virtual node had, if quantities that were taken away can be added again.
  pub delete_pod-add_pod :
      ((a b : Quantity) → U.add (U.sub a b) b ≡ a)
      → (p : Provider U) (pod : LowerPod U) (has : String → Quantity) → IsLocal pod
      → pod_stopped U pod ≡ false
      → Tracks p has
      → Tracks
          (delete_pod U enabled one same_node same_list
            (add_pod U enabled one same_node same_list p pod)
            pod)
          has
  delete_pod-add_pod back p pod has l s t =
      let x : String → Quantity = λ name. quantity_of U (pod_resource U enabled one pod) name in
      subst
        (λ (h : String → Quantity).
          Tracks
            (delete_pod U enabled one same_node same_list
              (add_pod U enabled one same_node same_list p pod) pod)
            h)
        (fun_ext (λ name. back (has name) (x name)))
        (delete_pod-Tracks (add_pod U enabled one same_node same_list p pod) pod
          (λ name. U.sub (has name) (x name)) l s (add_pod-Tracks p pod has l t))
