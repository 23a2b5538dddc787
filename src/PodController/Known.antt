-- ===== src/PodController/Known.antt =====
-- pkg/controllers/pod.go: the state of the controller, what it uses of its provider, of the master
-- cluster and of its queues, and the handlers of events of pods. `none` is a panic.
use clusterrouter.Base.{
  ℕ, String, Bool, true, false, Option, none, some, List, [], ◌∷◌, ◌++◌, ite, if◌then◌else◌,
}
use clusterrouter.Controllers.Api.{Key}
use clusterrouter.PodController.Names.{bytes_dec, uid_key}
use clusterrouter.PodController.Watched.{
  WatchedPod, PodState, Comparing, pod_should_enqueue, has_drifted,
}

-- An error of the provider: whether `errdefs.IsNotFound` holds of it, and its text.
pub record ProviderError : Type 0 where
  pub is_missing : Bool
  pub message : String

-- `PodLifecycleHandler`, over the provider's state.
pub record Lifecycle : Type 1 where
  pub State : Type 0
  pub create_pod : State → WatchedPod → State × Option ProviderError
  pub update_pod : State → WatchedPod → State × Option ProviderError
  pub delete_pod : State → WatchedPod → State × Option ProviderError
  pub get_pod : State → Key → Option WatchedPod × Option ProviderError
  pub get_pod_status : State → Key → Option PodState × Option ProviderError
  pub get_pods : State → List WatchedPod × Option ProviderError

-- Errors of the API as `IsNotFound` and `IsConflict` tell them apart.
pub data Refusal : Type 0 where
  gone conflict refused : Refusal

pub record DeleteOptions : Type 0 where
  pub grace_period_seconds : Option ℕ
  -- The UID that the pod must have.
  pub preconditions : Option (List ℕ)

-- The pods of the master cluster.
pub record PodsClient : Type 1 where
  pub State : Type 0
  pub update_status : State → WatchedPod → State × Option Refusal
  pub delete : State → Key → DeleteOptions → State × Option Refusal

-- `MetaNamespaceKeyFunc` and `SplitMetaNamespaceKey`.
pub record PodKeys : Type 0 where
  pub key_func : WatchedPod → Option (List ℕ)
  pub split : List ℕ → Option Key

-- The calls on the three queues and on the recorder of events.
pub data PodCall : Type 0 where
  sync_pod delete_pod_now forget_deletion sync_status : List ℕ → PodCall
  delete_pod_after : List ℕ → ℕ → PodCall
  event : String → PodCall

-- `knownPod`.
pub record KnownPod : Type 0 where
  pub last_pod_status_received_from_provider : Option WatchedPod
  pub last_pod_used : Option WatchedPod
  pub last_pod_status_update_skipped : Bool

abbrev pub new_known_pod : KnownPod
new_known_pod = record {
  last_pod_status_received_from_provider = none;
  last_pod_used = none;
  last_pod_status_update_skipped = false;
}

pub record PodController (P : Lifecycle) (C : PodsClient) : Type 0 where
  pub known_pods : List ℕ → Option KnownPod
  pub provider : P.State
  pub api : C.State
  pub calls : List PodCall
  -- The keys of deleted pods, if the provider is wrapped.
  pub deleted_pods : Option (List ℕ → Bool)

-- `Store`, or `Delete` for `none`, on a map of known pods.
unfoldable pub write_known :
    List ℕ → Option KnownPod → (List ℕ → Option KnownPod) → List ℕ → Option KnownPod
write_known key entry known j = ite (bytes_dec key j) entry (known j)

-- What the informer gives for a deletion: a pod, or a tombstone with a key.
pub data Deletion : Type 0 where
  deleted : WatchedPod → Deletion
  tombstone : List ℕ → Deletion

module _ (P : Lifecycle) (C : PodsClient) where
  unfoldable pub with_call : PodController P C → PodCall → PodController P C
  with_call w c = record w { calls = w.calls ++ c ∷ [] }

  unfoldable pub with_known : PodController P C → List ℕ → Option KnownPod → PodController P C
  unfolding write_known
  with_known w key entry = record w { known_pods = write_known key entry w.known_pods }

  -- `AddFunc`.
  unfoldable pub pod_added : PodController P C → Option (List ℕ) → PodController P C
  unfolding with_call with_known
  pod_added w none = w
  pod_added w (some key) = with_call (with_known w key (some new_known_pod)) (sync_pod key)

  -- `DeleteFunc`.
  unfoldable pub pod_deleted : PodController P C → Option (List ℕ) → Deletion → PodController P C
  unfolding with_call with_known uid_key
  pod_deleted w none pod = w
  pod_deleted w (some key) (tombstone _) = w
  pod_deleted w (some key) (deleted pod) =
      with_call (with_call (with_known w key none) (sync_pod key))
        (forget_deletion (uid_key key pod.uid))

  module _ (E : Comparing) where
    -- Whether the last update was skipped, and the pod that the provider sent last.
    unfoldable pub status_checked :
        PodController P C
        → List ℕ
        → KnownPod
        → WatchedPod
        → Bool
        → Option WatchedPod
        → Option (PodController P C)
    unfolding with_call with_known has_drifted
    status_checked w key k new false last = some w
    status_checked w key k new true none = none
    status_checked w key k new true (some last) = some (
        if has_drifted E new last
        then with_known (with_call w (sync_status key)) key
            (some (record k { last_pod_status_update_skipped = false }))
        else w)

    unfoldable pub enqueue_changed :
        List ℕ → Bool → Option (PodController P C) → Option (PodController P C)
    unfolding with_call
    enqueue_changed key changed none = none
    enqueue_changed key changed (some w) = some (if changed then with_call w (sync_pod key) else w)

    unfoldable pub known_updated :
        PodController P C
        → List ℕ
        → WatchedPod
        → WatchedPod
        → Option KnownPod
        → Option (PodController P C)
    unfolding status_checked enqueue_changed pod_should_enqueue
    known_updated w key old new none = none
    known_updated w key old new (some k) = enqueue_changed key (pod_should_enqueue E old new) (
        status_checked w key k new k.last_pod_status_update_skipped
          k.last_pod_status_received_from_provider)

    -- `UpdateFunc`.
    unfoldable pub pod_updated :
        PodController P C → Option (List ℕ) → WatchedPod → WatchedPod → Option (PodController P C)
    unfolding known_updated
    pod_updated w none old new = some w
    pod_updated w (some key) old new = known_updated w key old new (w.known_pods key)
