-- ===== src/PodController/Reached.antt =====
-- pkg/controllers/pod.go: the states that the controller reaches, and when an event of a pod panics.
use clusterrouter.Base.{ℕ, ◌≡◌, ◌↔◌, subst, String, Option, none, some, List, [], ◌⊎◌, some_cancel}
use clusterrouter.Controllers.Api.{Answer, ok, err, Cache}
use clusterrouter.PodController.Names.{get_uid_and_meta_namespace_key}
use clusterrouter.PodController.Watched.{WatchedPod, Comparing}
use clusterrouter.PodController.Known.{
  Lifecycle, PodsClient, PodKeys, KnownPod, PodController, Deletion, pod_added, pod_deleted,
  pod_updated,
}
use clusterrouter.PodController.Sync.{sync_pod_from_kubernetes_handler, SyncError, Handled}
use clusterrouter.PodController.Status.{
  StatusError, Updated, sync_pod_status_from_provider_handler, poll_round, or_state, or_state,
  enqueue_status, poll_known, enqueue_status, enqueue_pod_status_update,
  delete_pods_from_kubernetes_handler,
}
use clusterrouter.PodController.Sound.{
  IsHeard, IsSound, pod_added-IsSound, pod_deleted-IsSound, pod_updated-IsSound,
  known_updated-panics,
}
use clusterrouter.PodController.Runs.{LeavesSound, split-LeavesSound, received-IsSound}
use clusterrouter.PodController.Untouched.{Holds, status_key-Holds, delete_cut-Holds}

module _ (P : Lifecycle) (C : PodsClient) (E : Comparing)
    (populate : WatchedPod → WatchedPod ⊎ String) (N : PodKeys) where
  -- A handler ran to its end. A notification that finds its pod unknown is polled again, which is
  -- one more step.
  pub data Step : PodController P C → PodController P C → Type 0 where
    added : {w : PodController P C} (key : Option (List ℕ)) → Step w (pod_added P C w key)
    removed :
        {w : PodController P C} (key : Option (List ℕ)) (d : Deletion)
        → Step w (pod_deleted P C w key d)
    updated :
        {w w' : PodController P C} (key : Option (List ℕ)) (old new : WatchedPod)
        → pod_updated P C E w key old new ≡ some w'
        → Step w w'
    synced :
        {w w' : PodController P C} (lister : Cache WatchedPod) (key : List ℕ) (e : Option SyncError)
        → sync_pod_from_kubernetes_handler P C E populate N lister w key ≡ some (w', e)
        → Step w w'
    told :
        {w w' : PodController P C} (now : ℕ) (lister : Cache WatchedPod) (key : List ℕ)
        (e : Option StatusError)
        → sync_pod_status_from_provider_handler P C E now N lister w key ≡ some (w', e)
        → Step w w'
    erased :
        {w w' : PodController P C} (lister : Cache WatchedPod) (key : List ℕ)
        (e : Option StatusError)
        → delete_pods_from_kubernetes_handler P C N lister w key ≡ some (w', e)
        → Step w w'
    notified :
        {w : PodController P C} (pod : WatchedPod) (answer : Answer WatchedPod)
        → Step w (enqueue_pod_status_update P C E N w pod answer [])

  -- From the start, when no pod is known.
  pub data Reach : PodController P C → Type 0 where
    start : (w : PodController P C) → ((j : List ℕ) → w.known_pods j ≡ none) → Reach w
    step : {w w' : PodController P C} → Reach w → Step w w' → Reach w'

  round-IsSound :
      (w : PodController P C) (pod : WatchedPod) (key : List ℕ) (o : Option KnownPod)
      (answer : Answer WatchedPod)
      → IsSound w.known_pods
      → IsSound (or_state P C E w (poll_round P C E w pod key o answer)).known_pods
  unfolding poll_round
  round-IsSound w pod key (some k) answer h = received-IsSound P C E populate w pod key k h
  round-IsSound w pod key none (ok a) h = h
  round-IsSound w pod key none (err e) h = h

  enqueued-IsSound :
      (w : PodController P C) (pod : WatchedPod) (o : Option (List ℕ)) (answer : Answer WatchedPod)
      → IsSound w.known_pods
      → IsSound (enqueue_status P C E w pod answer [] o).known_pods
  unfolding poll_known enqueue_status
  enqueued-IsSound w pod none answer h = h
  enqueued-IsSound w pod (some key) answer h = round-IsSound w pod key (w.known_pods key) answer h

  left-IsSound :
      (o : Option (Handled P C E populate)) (w : PodController P C) (e : Option SyncError)
      → LeavesSound P C E populate o
      → o ≡ some (w, e)
      → IsSound w.known_pods
  left-IsSound none w e h i = cc
  left-IsSound (some r) w e h i =
      subst (λ (x : Handled P C E populate). IsSound x.0.known_pods) (some_cancel i) h

  held-IsSound :
      (known : List ℕ → Option KnownPod) (o : Option (Updated P C)) (w : PodController P C)
      (e : Option StatusError)
      → Holds P C known o
      → o ≡ some (w, e)
      → IsSound known
      → IsSound w.known_pods
  held-IsSound known none w e h i s = cc
  held-IsSound known (some r) w e h i s =
      subst (λ (x : Updated P C). IsSound x.0.known_pods) (some_cancel i) (rw h s)

  Step-IsSound :
      (w w' : PodController P C) → Step w w' → IsSound w.known_pods → IsSound w'.known_pods
  unfolding sync_pod_from_kubernetes_handler sync_pod_status_from_provider_handler
      delete_pods_from_kubernetes_handler enqueue_pod_status_update
  Step-IsSound w _ (added key) h = pod_added-IsSound P C w key h
  Step-IsSound w _ (removed key d) h = pod_deleted-IsSound P C w key d h
  Step-IsSound w w' (updated key old new e) h = pod_updated-IsSound P C E w key old new w' h e
  Step-IsSound w w' (synced lister key f e) h =
      left-IsSound _ w' f (split-LeavesSound P C E populate lister w key (N.split key) h) e
  Step-IsSound w w' (told now lister key f e) h =
      held-IsSound w.known_pods _ w' f (status_key-Holds P C E now lister w key (N.split key)) e h
  Step-IsSound w w' (erased lister key f e) h =
      held-IsSound w.known_pods _ w' f
        (delete_cut-Holds P C N lister w key (get_uid_and_meta_namespace_key key)) e h
  Step-IsSound w _ (notified pod answer) h = enqueued-IsSound w pod (N.key_func pod) answer h

  unknown-IsHeard : (o : Option KnownPod) → o ≡ none → IsHeard o
  unknown-IsHeard none e = tt
  unknown-IsHeard (some k) e = cc

  Reach-IsSound : (w : PodController P C) → Reach w → IsSound w.known_pods
  Reach-IsSound w (start _ h) = λ j. unknown-IsHeard (w.known_pods j) (h j)
  Reach-IsSound w (step r s) = Step-IsSound _ w s (Reach-IsSound _ r)

  -- In every state that the controller reaches from a start without known pods, the event of an
  -- updated pod panics exactly if its key is not known: where the last update was skipped, the pod
  -- that it is compared with is there.
  pub Reach-panics :
      (w : PodController P C)
      → Reach w
      → (key : List ℕ) (old new : WatchedPod)
      → (pod_updated P C E w (some key) old new ≡ none) ↔ (w.known_pods key ≡ none)
  unfolding pod_updated
  Reach-panics w r key old new =
      known_updated-panics P C E w key old new (w.known_pods key) (Reach-IsSound w r key)
