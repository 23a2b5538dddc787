-- ===== src/PodController/Wrapper.antt =====
-- pkg/controllers/sync.go: `syncProviderWrapper`, which gives a provider without notifications some.
-- Each operation returns the pods that it notifies of; the loop of `run` repeats
-- `sync_pod_statuses`.
use clusterrouter.Base.{
  ℕ, ◌-◌, Bool, true, false, ◌&&◌, not, Option, none, some, List, [], ◌∷◌, ◌++◌, ite, leb,
  if◌then◌else◌, pos, negsuc, map,
}
use clusterrouter.Controllers.Api.{Answer, ok, err}
use clusterrouter.PodController.Names.{bytes_dec}
use clusterrouter.PodController.Watched.{
  WatchedPod, PodState, ContainerStatus, is_phase, should_skip_pod_status_update,
}
use clusterrouter.PodController.Known.{ProviderError, Lifecycle, PodKeys}
use clusterrouter.PodController.Sync.{pod_key}

-- The time since when a container runs, or the zero time.
abbrev pub start_of : Option ℕ → ℕ
start_of none = 0
start_of (some t) = t

unfoldable pub terminate : ℕ → ContainerStatus → ContainerStatus
terminate now c = record c {
  terminated = some (record {
    exit_code = pos 0;
    reason = "Terminated";
    message = "Container was terminated. The exit code may not reflect the real exit code";
    started_at = start_of c.running;
    finished_at = now;
    container_id = "";
  });
}

-- The pod that `DeletePod` notifies of.
unfoldable pub terminated_pod : ℕ → WatchedPod → WatchedPod
unfolding terminate
terminated_pod now pod = record pod {
  status = record pod.status {
    phase = "Succeeded";
    reason = "Terminated";
    container_statuses = map (terminate now) pod.status.container_statuses;
  };
}

unfoldable pub lose : ℕ → ContainerStatus → ContainerStatus
lose now c = elim c.running [
  | none ↦ c
  | some t ↦ record c {
    running = none;
    terminated = some (record {
      exit_code = negsuc 136;
      reason = "NotFound";
      message = "Container was not found and was likely deleted";
      started_at = t;
      finished_at = now;
      container_id = c.container_id;
    });
  }
]

-- The pod that `updatePodStatus` notifies of where the provider has none.
unfoldable pub lost_pod : ℕ → WatchedPod → WatchedPod
unfolding lose
lost_pod now pod = record pod {
  status = record pod.status {
    phase = "Failed";
    reason = "NotFound";
    message = "The pod status was not found and may have been deleted from the provider";
    container_statuses = map (lose now) pod.status.container_statuses;
  };
}

-- The errors of the wrapper: those of the provider, and that of a key.
pub data WrapperError : Type 0 where
  provider_failed : ProviderError → WrapperError
  key_failed : WrapperError

-- `Store` and `Delete` on the keys of deleted pods.
unfoldable pub mark_key : List ℕ → Bool → (List ℕ → Bool) → List ℕ → Bool
unfolding bytes_dec
mark_key key b deleted j = ite (bytes_dec key j) b (deleted j)

module _ (P : Lifecycle) (N : PodKeys) (now : ℕ) where
  -- The keys of deleted pods, the provider, the pods notified of and the error.
  abbrev pub Wrapped : Type 0
  Wrapped = (List ℕ → Bool) × P.State × List WatchedPod × Option WrapperError

  unfoldable pub wrapped_deletion :
      (List ℕ → Bool) → WatchedPod → List ℕ → P.State × Option ProviderError → Wrapped
  unfolding mark_key terminated_pod should_skip_pod_status_update
  wrapped_deletion deleted pod key (s, some e) =
      (mark_key key false deleted, s, [], some (provider_failed e))
  wrapped_deletion deleted pod key (s, none) = (
    deleted,
    s,
    if should_skip_pod_status_update pod then [] else terminated_pod now pod ∷ [],
    none,
  )

  unfoldable pub wrapped_key : (List ℕ → Bool) → P.State → WatchedPod → Option (List ℕ) → Wrapped
  unfolding mark_key wrapped_deletion
  wrapped_key deleted s pod none = (deleted, s, [], some key_failed)
  wrapped_key deleted s pod (some key) =
      wrapped_deletion (mark_key key true deleted) pod key (P.delete_pod s pod)

  -- `syncProviderWrapper.DeletePod`.
  unfoldable pub wrapped_delete_pod : (List ℕ → Bool) → P.State → WatchedPod → Wrapped
  unfolding wrapped_key
  wrapped_delete_pod deleted s pod = wrapped_key deleted s pod (N.key_func pod)

  abbrev pub Notified : Type 0
  Notified = List WatchedPod × Option WrapperError

  -- A minute after its creation a pod that does not run is taken for lost too.
  unfoldable pub is_young : WatchedPod → Bool
  unfolding is_phase
  is_young pod = not (is_phase pod "Running") && leb (now - pod.creation_timestamp) 60000000000

  unfoldable pub status_missing :
      (List ℕ → Bool) → WatchedPod → Option WrapperError → Option (List ℕ) → Notified
  unfolding is_young lost_pod
  status_missing deleted pod e none = ([], some key_failed)
  status_missing deleted pod e (some key) =
      if deleted key
      then ([], none)
      else (if is_young pod then ([], e) else (lost_pod now pod ∷ [], none))

  unfoldable pub status_found :
      (List ℕ → Bool) → WatchedPod → Option WrapperError → Option PodState → Notified
  unfolding status_missing
  status_found deleted pod e (some s) = (record pod { status = s } ∷ [], none)
  status_found deleted pod e none = status_missing deleted pod e (N.key_func pod)

  unfoldable pub status_answered :
      (List ℕ → Bool) → WatchedPod → Option PodState × Option ProviderError → Notified
  unfolding status_found
  status_answered deleted pod (found, none) = status_found deleted pod none found
  status_answered deleted pod (found, some e) =
      if e.is_missing
      then status_found deleted pod (some (provider_failed e)) found
      else ([], some (provider_failed e))

  -- `syncProviderWrapper.updatePodStatus`.
  unfoldable pub wrapped_update_pod_status : (List ℕ → Bool) → P.State → WatchedPod → Notified
  unfolding status_answered
  wrapped_update_pod_status deleted s pod =
      status_answered deleted pod (P.get_pod_status s (pod_key pod))

  unfoldable pub sync_each : (List ℕ → Bool) → P.State → List WatchedPod → List WatchedPod
  unfolding wrapped_update_pod_status should_skip_pod_status_update
  sync_each deleted s [] = []
  sync_each deleted s (pod ∷ pods) =
      let rest = sync_each deleted s pods in
      if should_skip_pod_status_update pod
      then rest
      else (wrapped_update_pod_status deleted s pod).0 ++ rest

  -- `syncPodStatuses`: the pods notified of, in order; errors are only logged.
  unfoldable pub sync_pod_statuses :
      (List ℕ → Bool) → P.State → Answer (List WatchedPod) → List WatchedPod
  unfolding sync_each
  sync_pod_statuses deleted s (ok pods) = sync_each deleted s pods
  sync_pod_statuses deleted s (err e) = []
