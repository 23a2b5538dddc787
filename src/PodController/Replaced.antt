-- ===== src/PodController/Replaced.antt =====
-- pkg/controllers/pod.go: where the handler of status panics.
use clusterrouter.Base.{
  ℕ, ◌≡◌, ◌↔◌, refl, sym, ap, ◌∙◌, false, Option, none, some, List, if_false, some_cancel,
}
use clusterrouter.Controllers.Api.{Key, Answer, ok, err, Cache}
use clusterrouter.PodController.Watched.{WatchedPod, Comparing, should_skip_pod_status_update}
use clusterrouter.PodController.Known.{
  Lifecycle, PodsClient, PodKeys, KnownPod, new_known_pod, PodController, with_call, with_known,
  Deletion, pod_added, pod_deleted,
}
use clusterrouter.PodController.Status.{
  update_received, update_known, update_pod_status, status_listed, status_key,
  sync_pod_status_from_provider_handler,
}
use clusterrouter.PodController.Repeated.{write_known-here}

module _ (P : Lifecycle) (C : PodsClient) (E : Comparing) (now : ℕ) where
  received-panics :
      (w : PodController P C) (pod : WatchedPod) (o : Option WatchedPod)
      → (update_received P C E now w pod o ≡ none) ↔ (o ≡ none)
  unfolding update_received
  received-panics w pod none = (λ e. refl, λ e. refl)
  received-panics w pod (some last) = (λ e. cc, λ e. cc)

  -- The pod is known, and the provider has not sent it.
  abbrev pub IsUnheard : Option KnownPod → Type 0
  IsUnheard none = ⊥
  IsUnheard (some k) = k.last_pod_status_received_from_provider ≡ none

  known-panics :
      (w : PodController P C) (pod : WatchedPod) (o : Option KnownPod)
      → (update_known P C E now w pod o ≡ none) ↔ IsUnheard o
  unfolding update_known
  known-panics w pod none = (λ e. cc, λ e. absurd e)
  known-panics w pod (some k) = received-panics w pod k.last_pod_status_received_from_provider

  -- Writing the status of a pod that has not ended panics exactly if the pod is known and the
  -- provider has not sent it since it became so.
  pub update_pod_status-panics :
      (w : PodController P C) (pod : WatchedPod) (key : List ℕ)
      → should_skip_pod_status_update pod ≡ false
      → (update_pod_status P C E now w pod key ≡ none) ↔ IsUnheard (w.known_pods key)
  unfolding update_pod_status
  update_pod_status-panics w pod key h =
      let same =
        if_false (should_skip_pod_status_update pod) (some (w, none))
          (update_known P C E now w pod (w.known_pods key)) h in
      let iff = known-panics w pod (w.known_pods key) in
      (λ e. iff.0 (sym same ∙ e), λ u. same ∙ iff.1 u)

  module _ (N : PodKeys) (lister : Cache WatchedPod) (w : PodController P C) (key : List ℕ)
      (k : Key) (pod : WatchedPod) (going : should_skip_pod_status_update pod ≡ false) where
    added-here :
        (v : PodController P C) → (pod_added P C v (some key)).known_pods key ≡ some new_known_pod
    unfolding pod_added with_call with_known
    added-here v = write_known-here key (some new_known_pod) v.known_pods

    listed-panics :
        (v : PodController P C) (answer : Answer WatchedPod)
        → answer ≡ ok pod
        → IsUnheard (v.known_pods key)
        → status_listed P C E now v key answer ≡ none
    unfolding status_listed
    listed-panics v (ok a) e u =
        let same : a ≡ pod = cc e in rw same ((update_pod_status-panics v pod key going).1 u)
    listed-panics v (err x) e u = cc

    split-panics :
        (v : PodController P C) (o : Option Key)
        → o ≡ some k
        → lister k ≡ ok pod
        → IsUnheard (v.known_pods key)
        → status_key P C E now lister v key o ≡ none
    unfolding status_key
    split-panics v none e l u = cc
    split-panics v (some i) e l u = listed-panics v (lister i) (ap lister (some_cancel e) ∙ l) u

    -- If a pod is deleted and made again under its name while its key waits for its status to be
    -- written, and the new pod has neither succeeded nor failed, the handler of the status panics, as
    -- the provider has not sent the new pod yet.
    pub sync_pod_status_from_provider_handler-replaced :
        (d : Deletion)
        → N.split key ≡ some k
        → lister k ≡ ok pod
        → sync_pod_status_from_provider_handler P C E now N lister
            (pod_added P C (pod_deleted P C w (some key) d) (some key))
            key
          ≡ none
    unfolding sync_pod_status_from_provider_handler
    sync_pod_status_from_provider_handler-replaced d s l =
        split-panics (pod_added P C (pod_deleted P C w (some key) d) (some key)) (N.split key) s l
          (rw (added-here (pod_deleted P C w (some key) d)) refl)
