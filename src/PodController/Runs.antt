-- ===== src/PodController/Runs.antt =====
-- pkg/controllers/pod.go: runs of the controller, as any sequence of events of pods, of keys from its
-- queues and of pods that the provider sends.
use clusterrouter.Base.{
  ℕ, ◌≡◌, refl, String, Bool, true, false, Option, none, some, List, ◌⊎◌, if◌then◌else◌,
}
use clusterrouter.Controllers.Api.{Key, not_found, already_exists, other, Answer, ok, err, Cache}
use clusterrouter.PodController.Watched.{WatchedPod, Comparing}
use clusterrouter.PodController.Known.{
  ProviderError, Lifecycle, PodsClient, PodCall, KnownPod, PodController, with_call, with_known,
}
use clusterrouter.PodController.Sync.{
  Handled, brought, remembered, is_used, sync_known, sync_pod_in_provider, leftover_deleted,
  leftover, pod_listed, pod_split, is_forced,
}
use clusterrouter.PodController.Status.{is_received, status_received}
use clusterrouter.PodController.Sound.{IsHeard, IsSound, with_known-IsSound}
use clusterrouter.PodController.Kept.{Keeps, brought-Keeps}

module _ (P : Lifecycle) (C : PodsClient) (E : Comparing)
    (populate : WatchedPod → WatchedPod ⊎ String) where
  -- The known pods after a handler, if it did not panic.
  abbrev pub LeavesSound : Option (Handled P C E populate) → Type 0
  LeavesSound none = Unit
  LeavesSound (some (w, e)) = IsSound w.known_pods

  remembered-LeavesSound :
      (known : List ℕ → Option KnownPod) (key : List ℕ) (k : KnownPod) (pod : WatchedPod)
      (o : Option (Handled P C E populate))
      → IsHeard (some k)
      → IsSound known
      → Keeps P C E populate known o
      → LeavesSound (remembered P C E populate key k pod o)
  unfolding remembered
  remembered-LeavesSound known key k pod none heard h e = tt
  remembered-LeavesSound known key k pod (some (w, some f)) heard h e = rw e h
  remembered-LeavesSound known key k pod (some (w, none)) heard h e =
      with_known-IsSound P C w key _ heard (rw e h)

  if-LeavesSound :
      (b : Bool) (x y : Option (Handled P C E populate))
      → LeavesSound x
      → LeavesSound y
      → LeavesSound (if b then x else y)
  if-LeavesSound true x y hx hy = hx
  if-LeavesSound false x y hx hy = hy

  known-LeavesSound :
      (w : PodController P C) (pod : WatchedPod) (key : List ℕ) (o : Option KnownPod)
      → IsHeard o
      → IsSound w.known_pods
      → LeavesSound (sync_known P C E populate w pod key o)
  unfolding sync_known
  known-LeavesSound w pod key none heard h = h
  known-LeavesSound w pod key (some k) heard h =
      if-LeavesSound (is_used P C E populate k.last_pod_used pod) (some (w, none)) _ h (
        remembered-LeavesSound w.known_pods key k pod (brought P C E populate w pod key) heard h
          (brought-Keeps P C E populate w pod key))

  synced-LeavesSound :
      (w : PodController P C) (pod : WatchedPod) (key : List ℕ)
      → IsSound w.known_pods
      → LeavesSound (sync_pod_in_provider P C E populate w pod key)
  unfolding sync_pod_in_provider with_call
  synced-LeavesSound w pod key h =
      if-LeavesSound (is_forced pod) (some (_, none)) _ h
        (known-LeavesSound w pod key (w.known_pods key) (h key) h)

  leftover-LeavesSound :
      (w : PodController P C) (r : Option WatchedPod × Option ProviderError)
      → IsSound w.known_pods
      → LeavesSound (some (leftover P C E populate w r))
  unfolding leftover leftover_deleted
  leftover-LeavesSound w (found, some e) h = h
  leftover-LeavesSound w (none, none) h = h
  leftover-LeavesSound w (some pod, none) h =
      leftover_deleted-LeavesSound (P.delete_pod w.provider pod)
    where
      leftover_deleted-LeavesSound :
          (r : P.State × Option ProviderError)
          → LeavesSound (some (leftover_deleted P C E populate w r))
      leftover_deleted-LeavesSound (s, none) = h
      leftover_deleted-LeavesSound (s, some e) = h

  listed-LeavesSound :
      (w : PodController P C) (key : List ℕ) (k : Key) (answer : Answer WatchedPod)
      → IsSound w.known_pods
      → LeavesSound (pod_listed P C E populate w key k answer)
  unfolding pod_listed
  listed-LeavesSound w key k (ok pod) h = synced-LeavesSound w pod key h
  listed-LeavesSound w key k (err not_found) h = leftover-LeavesSound w (P.get_pod w.provider k) h
  listed-LeavesSound w key k (err already_exists) h = h
  listed-LeavesSound w key k (err other) h = h

  pub split-LeavesSound :
      (lister : Cache WatchedPod) (w : PodController P C) (key : List ℕ) (o : Option Key)
      → IsSound w.known_pods
      → LeavesSound (pod_split P C E populate lister w key o)
  unfolding pod_split
  split-LeavesSound lister w key none h = h
  split-LeavesSound lister w key (some k) h = listed-LeavesSound w key k (lister k) h

  pub received-IsSound :
      (w : PodController P C) (pod : WatchedPod) (key : List ℕ) (k : KnownPod)
      → IsSound w.known_pods
      → IsSound (status_received P C E w pod key k).known_pods
  unfolding status_received is_received with_call
  received-IsSound w pod key k h = went k.last_pod_status_received_from_provider refl
    where
      went :
          (o : Option WatchedPod)
          → k.last_pod_status_received_from_provider ≡ o
          → IsSound
              (if is_received P C E o pod
                then with_known P C w key
                    (some (record k { last_pod_status_update_skipped = true }))
                else with_call P C
                    (with_known P C w key (
                      some (record k {
                        last_pod_status_update_skipped = false;
                        last_pod_status_received_from_provider = some pod;
                      })))
                    (PodCall.sync_status key)).known_pods
      went none e = with_known-IsSound P C w key _ (λ i. cc) h
      went (some last) e =
          elim (E.same_pod last pod)
            as (λ b.
              IsSound
                (if b
                  then with_known P C w key
                      (some (record k { last_pod_status_update_skipped = true }))
                  else with_call P C
                      (with_known P C w key (
                        some (record k {
                          last_pod_status_update_skipped = false;
                          last_pod_status_received_from_provider = some pod;
                        })))
                      (PodCall.sync_status key)).known_pods) [
                        | true ↦ with_known-IsSound P C w key _ (λ i n. cc) h
                        | false ↦ with_known-IsSound P C w key _ (λ i. cc) h
                      ]
