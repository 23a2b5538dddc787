-- ===== src/PodController/Status.antt =====
-- pkg/controllers/pod.go: the status that the provider sends is written to the master cluster, and
-- deleted pods are taken from it. `none` is a panic; texts that errors are wrapped in are left out.
use clusterrouter.Base.{
  ℕ, Bool, true, false, ◌&&◌, Option, none, some, List, [], ◌∷◌, ite, ltb, if◌then◌else◌,
}
use clusterrouter.Controllers.Api.{Key, ApiError, not_found, Answer, ok, err, Cache}
use clusterrouter.PodController.Names.{bytes_dec, get_uid_and_meta_namespace_key}
use clusterrouter.PodController.Watched.{WatchedPod, Comparing, should_skip_pod_status_update}
use clusterrouter.PodController.Known.{
  Lifecycle, Refusal, gone, refused, PodsClient, PodKeys, sync_status, KnownPod, PodController,
  with_call, with_known,
}
use clusterrouter.PodController.Sync.{pod_key, is_deleted}

pub data StatusError : Type 0 where
  of_lister : ApiError → StatusError
  of_deletion of_update : Refusal → StatusError
  of_key : StatusError

-- What a call of the API refuses, unless the pod is gone.
unfoldable pub refusal : (Refusal → StatusError) → Option Refusal → Option StatusError
refusal f none = none
refusal f (some gone) = none
refusal f (some e) = some (f e)

-- The period of a deletion, by the time at which the provider's pod is deleted.
unfoldable pub grace_at : ℕ → WatchedPod → Option ℕ
grace_at now pod = elim pod.deletion_timestamp [
  | none ↦ pod.deletion_grace_period_seconds
  | some t ↦ if ltb t now then some 0 else pod.deletion_grace_period_seconds
]

-- The UIDs are compared as bytes.
unfoldable pub has_uid : WatchedPod → List ℕ → Bool
unfolding bytes_dec
has_uid pod uid = ite (bytes_dec pod.uid uid) true false

module _ (P : Lifecycle) (C : PodsClient) where
  abbrev pub Updated : Type 0
  Updated = PodController P C × Option StatusError

  module _ (E : Comparing) (now : ℕ) where
    -- The end of `updatePodStatus`.
    unfoldable pub update_sent : PodController P C → WatchedPod → Updated
    unfolding refusal
    update_sent w from_provider =
        let (s, e) = C.update_status w.api (record from_provider { resource_version = "0" }) in
        (record w { api = s }, refusal of_update e)

    unfoldable pub after_status_deletion :
        PodController P C → WatchedPod → C.State × Option Refusal → Updated
    unfolding refusal update_sent
    after_status_deletion w from_provider (s, e) = elim (refusal of_deletion e) [
      | none ↦ update_sent (record w { api = s }) from_provider
      | some f ↦ (record w { api = s }, some f)
    ]

    -- `updatePodStatus`, by the pod that the provider sent last.
    unfoldable pub update_received :
        PodController P C → WatchedPod → Option WatchedPod → Option Updated
    unfolding is_deleted grace_at after_status_deletion update_sent
    update_received w from_kubernetes none = none
    update_received w from_kubernetes (some from_provider) = some (
        if is_deleted from_provider
          && elim (is_deleted from_kubernetes) [ true ↦ false | false ↦ true ]
          && E.same_state from_kubernetes.status from_provider.status
        then after_status_deletion w from_provider (
            C.delete w.api (pod_key from_kubernetes)
              (record { grace_period_seconds = grace_at now from_provider; preconditions = none }))
        else update_sent w from_provider)

    unfoldable pub update_known : PodController P C → WatchedPod → Option KnownPod → Option Updated
    unfolding update_received
    update_known w from_kubernetes none = some (w, none)
    update_known w from_kubernetes (some k) =
        update_received w from_kubernetes k.last_pod_status_received_from_provider

    -- `updatePodStatus`.
    unfoldable pub update_pod_status : PodController P C → WatchedPod → List ℕ → Option Updated
    unfolding update_known should_skip_pod_status_update
    update_pod_status w from_kubernetes key =
        if should_skip_pod_status_update from_kubernetes
        then some (w, none)
        else update_known w from_kubernetes (w.known_pods key)

    unfoldable pub status_listed : PodController P C → List ℕ → Answer WatchedPod → Option Updated
    unfolding update_pod_status
    status_listed w key (ok pod) = update_pod_status w pod key
    status_listed w key (err not_found) = some (w, none)
    status_listed w key (err e) = some (w, some (of_lister e))

    unfoldable pub status_key :
        Cache WatchedPod → PodController P C → List ℕ → Option Key → Option Updated
    unfolding status_listed
    status_key lister w key none = some (w, some of_key)
    status_key lister w key (some k) = status_listed w key (lister k)

    -- `syncPodStatusFromProviderHandler`.
    unfoldable pub sync_pod_status_from_provider_handler :
        PodKeys → Cache WatchedPod → PodController P C → List ℕ → Option Updated
    unfolding status_key
    sync_pod_status_from_provider_handler N lister w key = status_key lister w key (N.split key)

  module _ (E : Comparing) where
    unfoldable pub is_received : Option WatchedPod → WatchedPod → Bool
    is_received none pod = false
    is_received (some last) pod = E.same_pod last pod

    -- `enqueuePodStatusUpdate`, once the pod is known.
    unfoldable pub status_received :
        PodController P C → WatchedPod → List ℕ → KnownPod → PodController P C
    unfolding is_received with_known with_call
    status_received w pod key k =
        if is_received k.last_pod_status_received_from_provider pod
        then with_known P C w key (some (record k { last_pod_status_update_skipped = true }))
        else with_call P C
            (with_known P C w key (
              some (record k {
                last_pod_status_update_skipped = false;
                last_pod_status_received_from_provider = some pod;
              })))
            (sync_status key)

    -- A round of the poll ends with the state that the call leaves, or is to be repeated.
    unfoldable pub poll_round :
        PodController P C
        → WatchedPod
        → List ℕ
        → Option KnownPod
        → Answer WatchedPod
        → Option (PodController P C)
    unfolding status_received
    poll_round w pod key (some k) answer = some (status_received w pod key k)
    poll_round w pod key none (ok _) = none
    poll_round w pod key none (err e) = some w

    abbrev pub or_state : PodController P C → Option (PodController P C) → PodController P C
    or_state w none = w
    or_state w (some w') = w'

    -- The rounds of the poll: the states that they find, with the lister's answers. The time is up
    -- after the last, which leaves the state as it is.
    unfoldable pub poll_known :
        WatchedPod
        → List ℕ
        → PodController P C
        → Answer WatchedPod
        → List (PodController P C × Answer WatchedPod)
        → PodController P C
    unfolding poll_round
    poll_known pod key w answer [] = or_state w (poll_round w pod key (w.known_pods key) answer)
    poll_known pod key w answer ((next, next_answer) ∷ rounds) =
        or_state (poll_known pod key next next_answer rounds)
          (poll_round w pod key (w.known_pods key) answer)

    unfoldable pub enqueue_status :
        PodController P C
        → WatchedPod
        → Answer WatchedPod
        → List (PodController P C × Answer WatchedPod)
        → Option (List ℕ)
        → PodController P C
    unfolding poll_known
    enqueue_status w pod answer rounds none = w
    enqueue_status w pod answer rounds (some key) = poll_known pod key w answer rounds

    -- `enqueuePodStatusUpdate`.
    unfoldable pub enqueue_pod_status_update :
        PodKeys
        → PodController P C
        → WatchedPod
        → Answer WatchedPod
        → List (PodController P C × Answer WatchedPod)
        → PodController P C
    unfolding enqueue_status
    enqueue_pod_status_update N w pod answer rounds =
        enqueue_status w pod answer rounds (N.key_func pod)

  -- The deferred function of `deletePodsFromKubernetesHandler`, with `_deletePodKey`.
  unfoldable pub with_deleted_key : List ℕ → Updated → Updated
  unfolding bytes_dec
  with_deleted_key key (w, some e) = (w, some e)
  with_deleted_key key (w, none) = (
    record w {
      deleted_pods = elim w.deleted_pods [
        | none ↦ none
        | some d ↦ some (λ j. ite (bytes_dec key j) false (d j))
      ];
    },
    none,
  )

  -- The answer of the API to the deletion; that the pod is another one is no error.
  unfoldable pub deletion_answered : PodController P C → C.State × Option Refusal → Updated
  deletion_answered w (s, none) = (record w { api = s }, none)
  deletion_answered w (s, some refused) = (record w { api = s }, some (of_deletion refused))
  deletion_answered w (s, some e) = (record w { api = s }, none)

  unfoldable pub delete_listed_pod : PodController P C → Key → List ℕ → Answer WatchedPod → Updated
  unfolding has_uid deletion_answered
  delete_listed_pod w k uid (ok pod) =
      if has_uid pod uid
      then deletion_answered w
          (C.delete w.api k (record { grace_period_seconds = some 0; preconditions = some uid }))
      else (w, none)
  delete_listed_pod w k uid (err not_found) = (w, none)
  delete_listed_pod w k uid (err e) = (w, some (of_lister e))

  unfoldable pub delete_split :
      Cache WatchedPod → PodController P C → List ℕ → List ℕ → Option Key → Updated
  unfolding with_deleted_key delete_listed_pod
  delete_split lister w key uid none = (w, none)
  delete_split lister w key uid (some k) =
      with_deleted_key key (delete_listed_pod w k uid (lister k))

  unfoldable pub delete_cut :
      PodKeys
      → Cache WatchedPod
      → PodController P C
      → List ℕ
      → Option (List ℕ × List ℕ)
      → Option Updated
  unfolding delete_split
  delete_cut N lister w key none = none
  delete_cut N lister w key (some (uid, meta_key)) =
      some (delete_split lister w key uid (N.split meta_key))

  -- `deletePodsFromKubernetesHandler`.
  unfoldable pub delete_pods_from_kubernetes_handler :
      PodKeys → Cache WatchedPod → PodController P C → List ℕ → Option Updated
  unfolding delete_cut get_uid_and_meta_namespace_key
  delete_pods_from_kubernetes_handler N lister w key =
      delete_cut N lister w key (get_uid_and_meta_namespace_key key)
