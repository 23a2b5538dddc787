-- ===== src/PodController/Repeated.antt =====
-- pkg/controllers/pod.go: a pod that was brought to the provider is not brought there again.
use clusterrouter.Base.{
  ℕ, ◌≡◌, refl, sym, ap, ◌∙◌, String, Bool, true, false, Option, none, some, List, ◌⊎◌, if_pos,
  if_true, if_false, if◌then◌else◌, some_cancel,
}
use clusterrouter.PodController.Names.{bytes_dec}
use clusterrouter.PodController.Watched.{
  WatchedPod, Comparing, pods_effectively_equal, without_state,
}
use clusterrouter.PodController.Known.{
  Lifecycle, PodsClient, KnownPod, PodController, with_known, write_known,
}
use clusterrouter.PodController.Sync.{
  is_forced, Handled, brought, remembered, is_used, sync_known, sync_pod_in_provider,
}

pub write_known-here :
    (key : List ℕ) (entry : Option KnownPod) (known : List ℕ → Option KnownPod)
    → write_known key entry known key ≡ entry
unfolding write_known
write_known-here key entry known = if_pos (bytes_dec key key) refl _ _

module _ (P : Lifecycle) (C : PodsClient) (E : Comparing)
    (populate : WatchedPod → WatchedPod ⊎ String) (same : (p : WatchedPod) → E.same_pod p p ≡ true)
    (pod : WatchedPod) (key : List ℕ) (w' : PodController P C) where
  remembered-known :
      (k : KnownPod) (o : Option (Handled P C E populate))
      → remembered P C E populate key k pod o ≡ some (w', none)
      → w'.known_pods key ≡ some (record k { last_pod_used = some pod })
  unfolding remembered with_known
  remembered-known k none h = cc
  remembered-known k (some (w, some e)) h = cc
  remembered-known k (some (w, none)) h =
      ap (λ r. r.0.known_pods key) (sym (some_cancel h))
      ∙ write_known-here key (some (record k { last_pod_used = some pod })) w.known_pods

  used-again :
      (k : KnownPod)
      → w'.known_pods key ≡ some k
      → is_used P C E populate k.last_pod_used pod ≡ true
      → sync_known P C E populate w' pod key (w'.known_pods key) ≡ some (w', none)
  unfolding sync_known
  used-again k e u = rw e (if_true (is_used P C E populate k.last_pod_used pod) _ _ u)

  pod-is_used : is_used P C E populate (some pod) pod ≡ true
  unfolding is_used pods_effectively_equal
  pod-is_used = same (without_state pod)

  tested-again :
      (w : PodController P C) (k : KnownPod) (b : Bool)
      → is_used P C E populate k.last_pod_used pod ≡ b
      → w.known_pods key ≡ some k
      → (if b
          then some (w, none)
          else remembered P C E populate key k pod (brought P C E populate w pod key))
        ≡ some (w', none)
      → sync_known P C E populate w' pod key (w'.known_pods key) ≡ some (w', none)
  tested-again w k true u e h =
      used-again k (ap (λ r. r.0.known_pods key) (sym (some_cancel h)) ∙ e) u
  tested-again w k false u e h =
      used-again (record k { last_pod_used = some pod })
        (remembered-known k (brought P C E populate w pod key) h) pod-is_used

  known-again :
      (w : PodController P C) (o : Option KnownPod)
      → w.known_pods key ≡ o
      → sync_known P C E populate w pod key o ≡ some (w', none)
      → sync_known P C E populate w' pod key (w'.known_pods key) ≡ some (w', none)
  unfolding sync_known
  known-again w none e h = rw (ap (λ r. r.0.known_pods key) (sym (some_cancel h)) ∙ e) refl
  known-again w (some k) e h =
      tested-again w k (is_used P C E populate k.last_pod_used pod) refl e h

  -- If `syncPodInProvider` has ended without an error, for a pod that is not to be taken from the
  -- master cluster at once, then the same pod again changes nothing: the provider is not called and
  -- nothing is put in a queue. A pod is assumed to be the same as itself.
  pub sync_pod_in_provider-again :
      (w : PodController P C)
      → is_forced pod ≡ false
      → sync_pod_in_provider P C E populate w pod key ≡ some (w', none)
      → sync_pod_in_provider P C E populate w' pod key ≡ some (w', none)
  unfolding sync_pod_in_provider
  sync_pod_in_provider-again w f h =
      if_false (is_forced pod) _ _ f
      ∙ known-again w (w.known_pods key) refl (sym (if_false (is_forced pod) _ _ f) ∙ h)
