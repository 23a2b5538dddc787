-- ===== src/PodController/Sync.antt =====
-- pkg/controllers/pod.go: pods of the master cluster are brought to the provider. Events that the
-- environment of containers records are left out, and so are the texts that errors are wrapped in.
-- Errors of `GetPod` have no effect on `createOrUpdatePod`.
use clusterrouter.Base.{
  ℕ, String, Bool, true, false, not, ◌&&◌, ◌||◌, Option, none, some, List, [], ◌∷◌, text_dec, ite,
  if◌then◌else◌, ◌⊎◌, inl, inr,
}
use clusterrouter.Controllers.Api.{Key, ApiError, not_found, Answer, ok, err, Cache}
use clusterrouter.PodController.Names.{uid_key}
use clusterrouter.PodController.Watched.{
  WatchedPod, Comparing, is_running, is_phase, pods_effectively_equal, pods_equal,
}
use clusterrouter.PodController.Known.{
  ProviderError, Lifecycle, PodsClient, PodKeys, delete_pod_now, delete_pod_after, event, KnownPod,
  PodController, with_call, with_known,
}

-- The error of a handler, by where it comes from.
pub data SyncError : Type 0 where
  from_lister : ApiError → SyncError
  from_provider : ProviderError → SyncError
  from_environment : String → SyncError

abbrev pub pod_key : WatchedPod → Key
pod_key pod = (pod.namespace, pod.name)

-- The pod whose status tells of the provider's error.
unfoldable pub failed_pod : WatchedPod → ProviderError → WatchedPod
failed_pod pod e = record pod {
  resource_version = "";
  status = record pod.status {
    phase = ite (text_dec pod.restart_policy "Never") "Failed" "Pending";
    reason = "ProviderFailed";
    message = e.message;
  };
}

unfoldable pub is_deleted : WatchedPod → Bool
is_deleted pod = elim pod.deletion_timestamp [ none ↦ false | some t ↦ true ]

unfoldable pub is_forced : WatchedPod → Bool
unfolding is_deleted is_running
is_forced pod = is_deleted pod && not (is_running pod.status.container_statuses)

module _ (P : Lifecycle) (C : PodsClient) (E : Comparing)
    (populate : WatchedPod → WatchedPod ⊎ String) where
  -- What a handler leaves: the state and its error; `none` is a panic.
  abbrev pub Handled : Type 0
  Handled = PodController P C × Option SyncError

  -- `handleProviderError`; what `UpdateStatus` answers is only logged.
  unfoldable pub handle_provider_error :
      PodController P C → ProviderError → WatchedPod → PodController P C
  unfolding failed_pod
  handle_provider_error w e pod = record w { api = (C.update_status w.api (failed_pod pod e)).0 }

  -- The answer of the provider to a creation or an update, with the reasons of the events.
  unfoldable pub provided :
      PodController P C → WatchedPod → String → String → P.State × Option ProviderError → Handled
  unfolding handle_provider_error with_call
  provided w pod success failed (s, none) =
      (with_call P C (record w { provider = s }) (event success), none)
  provided w pod success failed (s, some e) = (
    with_call P C (handle_provider_error (record w { provider = s }) e pod) (event failed),
    some (from_provider e),
  )

  -- `createOrUpdatePod`, by the pod that the provider has.
  unfoldable pub found_or_not : PodController P C → WatchedPod → Option WatchedPod → Handled
  unfolding provided pods_equal
  found_or_not w pod none =
      provided w pod "ProviderCreateSuccess" "ProviderCreateFailed" (P.create_pod w.provider pod)
  found_or_not w pod (some there) =
      if pods_equal E there pod
      then (w, none)
      else provided w pod "ProviderUpdateSuccess" "ProviderUpdateFailed"
          (P.update_pod w.provider pod)

  unfoldable pub populated : PodController P C → WatchedPod ⊎ String → Handled
  unfolding found_or_not
  populated w (inr e) = (w, some (from_environment e))
  populated w (inl pod) = found_or_not w pod (P.get_pod w.provider (pod_key pod)).0

  unfoldable pub create_or_update_pod : PodController P C → WatchedPod → Handled
  unfolding populated
  create_or_update_pod w pod = populated w (populate pod)

  -- `deletePod`, by the provider's answer.
  unfoldable pub pod_was_deleted :
      PodController P C → P.State × Option ProviderError → PodController P C × Option ProviderError
  unfolding with_call
  pod_was_deleted w (s, none) =
      (with_call P C (record w { provider = s }) (event "ProviderDeleteSuccess"), none)
  pod_was_deleted w (s, some e) =
      (with_call P C (record w { provider = s }) (event "ProviderDeleteFailed"), some e)

  -- After the grace period the pod is to be deleted from the master cluster; a pod without one
  -- panics.
  unfoldable pub after_grace : PodController P C → List ℕ → WatchedPod → Option ℕ → Option Handled
  unfolding with_call uid_key
  after_grace w key pod none = none
  after_grace w key pod (some seconds) =
      some (with_call P C w (delete_pod_after (uid_key key pod.uid) seconds), none)

  unfoldable pub after_deletion :
      List ℕ → WatchedPod → PodController P C × Option ProviderError → Option Handled
  unfolding after_grace
  after_deletion key pod (w, none) = after_grace w key pod pod.deletion_grace_period_seconds
  after_deletion key pod (w, some e) =
      if e.is_missing
      then after_grace w key pod pod.deletion_grace_period_seconds
      else some (w, some (from_provider e))

  -- `syncPodInProvider`, once the pod is not the one that was used last.
  unfoldable pub brought : PodController P C → WatchedPod → List ℕ → Option Handled
  unfolding after_deletion pod_was_deleted is_deleted is_phase create_or_update_pod
  brought w pod key =
      if is_deleted pod
      then after_deletion key pod (pod_was_deleted w (P.delete_pod w.provider pod))
      else (if is_phase pod "Failed" || is_phase pod "Succeeded"
          then some (w, none)
          else some (create_or_update_pod w pod))

  -- The deferred function.
  unfoldable pub remembered : List ℕ → KnownPod → WatchedPod → Option Handled → Option Handled
  unfolding with_known
  remembered key k pod none = none
  remembered key k pod (some (w, some e)) = some (w, some e)
  remembered key k pod (some (w, none)) =
      some (with_known P C w key (some (record k { last_pod_used = some pod })), none)

  unfoldable pub is_used : Option WatchedPod → WatchedPod → Bool
  unfolding pods_effectively_equal
  is_used none pod = false
  is_used (some last) pod = pods_effectively_equal E last pod

  unfoldable pub sync_known :
      PodController P C → WatchedPod → List ℕ → Option KnownPod → Option Handled
  unfolding is_used remembered brought
  sync_known w pod key none = some (w, none)
  sync_known w pod key (some k) =
      if is_used k.last_pod_used pod
      then some (w, none)
      else remembered key k pod (brought w pod key)

  -- `syncPodInProvider`.
  unfoldable pub sync_pod_in_provider : PodController P C → WatchedPod → List ℕ → Option Handled
  unfolding is_forced with_call uid_key sync_known
  sync_pod_in_provider w pod key =
      if is_forced pod
      then some (
        with_call P C (with_call P C w (delete_pod_now key)) (delete_pod_now (uid_key key pod.uid)),
        none,
      )
      else sync_known w pod key (w.known_pods key)

  -- The answer of the provider to the deletion of a pod that the master cluster has not.
  unfoldable pub leftover_deleted : PodController P C → P.State × Option ProviderError → Handled
  leftover_deleted w (s, none) = (record w { provider = s }, none)
  leftover_deleted w (s, some e) =
      (record w { provider = s }, if e.is_missing then none else some (from_provider e))

  -- `syncPodFromKubernetesHandler`, for a pod that the master cluster has not, by the provider's.
  unfoldable pub leftover : PodController P C → Option WatchedPod × Option ProviderError → Handled
  unfolding leftover_deleted
  leftover w (found, some e) = (w, if e.is_missing then none else some (from_provider e))
  leftover w (none, none) = (w, none)
  leftover w (some pod, none) = leftover_deleted w (P.delete_pod w.provider pod)

  unfoldable pub pod_listed : PodController P C → List ℕ → Key → Answer WatchedPod → Option Handled
  unfolding leftover sync_pod_in_provider
  pod_listed w key k (ok pod) = sync_pod_in_provider w pod key
  pod_listed w key k (err not_found) = some (leftover w (P.get_pod w.provider k))
  pod_listed w key k (err e) = some (w, some (from_lister e))

  unfoldable pub pod_split :
      Cache WatchedPod → PodController P C → List ℕ → Option Key → Option Handled
  unfolding pod_listed
  pod_split lister w key none = some (w, none)
  pod_split lister w key (some k) = pod_listed w key k (lister k)

  -- `syncPodFromKubernetesHandler`.
  unfoldable pub sync_pod_from_kubernetes_handler :
      PodKeys → Cache WatchedPod → PodController P C → List ℕ → Option Handled
  unfolding pod_split
  sync_pod_from_kubernetes_handler N lister w key = pod_split lister w key (N.split key)

  -- `deleteDanglingPods`: the pods to delete, if the lister fails for none.
  unfoldable pub if_dangling :
      WatchedPod → Answer WatchedPod → Option (List WatchedPod) → Option (List WatchedPod)
  if_dangling pod (ok _) rest = rest
  if_dangling pod (err not_found) (some pods) = some (pod ∷ pods)
  if_dangling pod (err not_found) none = none
  if_dangling pod (err _) rest = none

  unfoldable pub dangling_pods : Cache WatchedPod → List WatchedPod → Option (List WatchedPod)
  unfolding if_dangling
  dangling_pods lister [] = some []
  dangling_pods lister (pod ∷ pods) =
      if_dangling pod (lister (pod_key pod)) (dangling_pods lister pods)

  unfoldable pub delete_each : P.State → List WatchedPod → P.State
  delete_each s [] = s
  delete_each s (pod ∷ pods) = delete_each (P.delete_pod s pod).0 pods

  unfoldable pub delete_dangling :
      (List WatchedPod → List WatchedPod)
      → PodController P C
      → Option (List WatchedPod)
      → PodController P C
  unfolding delete_each
  delete_dangling order w none = w
  delete_dangling order w (some pods) = record w { provider = delete_each w.provider (order pods) }

  unfoldable pub dangling_of :
      (List WatchedPod → List WatchedPod)
      → Cache WatchedPod
      → PodController P C
      → List WatchedPod × Option ProviderError
      → PodController P C
  unfolding dangling_pods delete_dangling
  dangling_of order lister w (pods, some e) = w
  dangling_of order lister w (pods, none) = delete_dangling order w (dangling_pods lister pods)

  -- The whole, with the order that the goroutines come to run in.
  unfoldable pub delete_dangling_pods :
      (List WatchedPod → List WatchedPod) → Cache WatchedPod → PodController P C → PodController P C
  unfolding dangling_of
  delete_dangling_pods order lister w = dangling_of order lister w (P.get_pods w.provider)
