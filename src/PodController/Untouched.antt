-- ===== src/PodController/Untouched.antt =====
-- pkg/controllers/pod.go: the handlers of status and of deletions leave the known pods as they are.
use clusterrouter.Base.{
  ℕ, ◌≡◌, refl, ◌∙◌, Bool, true, false, Option, none, some, List, if◌then◌else◌, ◌&&◌,
}
use clusterrouter.Controllers.Api.{Key, not_found, already_exists, other, Answer, ok, err, Cache}
use clusterrouter.PodController.Watched.{WatchedPod, Comparing, should_skip_pod_status_update}
use clusterrouter.PodController.Known.{
  Lifecycle, Refusal, gone, conflict, refused, PodsClient, PodKeys, KnownPod, PodController,
}
use clusterrouter.PodController.Sync.{is_deleted}
use clusterrouter.PodController.Status.{
  Updated, refusal, update_sent, after_status_deletion, update_received, update_known,
  update_pod_status, status_listed, status_key, with_deleted_key, deletion_answered, has_uid,
  delete_listed_pod, delete_split, delete_cut,
}

-- The handlers of the other two queues leave the known pods as they are.
module _ (P : Lifecycle) (C : PodsClient) where
  abbrev pub Holds : (List ℕ → Option KnownPod) → Option (Updated P C) → Type 0
  Holds known none = Unit
  Holds known (some (w, e)) = w.known_pods ≡ known

  module _ (E : Comparing) (now : ℕ) where
    deletion-known :
        (w : PodController P C) (pod : WatchedPod) (r : C.State × Option Refusal)
        → (after_status_deletion P C E now w pod r).0.known_pods ≡ w.known_pods
    unfolding after_status_deletion refusal update_sent
    deletion-known w pod (s, none) = refl
    deletion-known w pod (s, some gone) = refl
    deletion-known w pod (s, some conflict) = refl
    deletion-known w pod (s, some refused) = refl

    if-known :
        (known : List ℕ → Option KnownPod) (b : Bool) (x y : Updated P C)
        → x.0.known_pods ≡ known
        → y.0.known_pods ≡ known
        → (if b then x else y).0.known_pods ≡ known
    if-known known true x y hx hy = hx
    if-known known false x y hx hy = hy

    sent-known :
        (w : PodController P C) (pod : WatchedPod)
        → (update_sent P C E now w pod).0.known_pods ≡ w.known_pods
    unfolding update_sent
    sent-known w pod = refl

    received-Holds :
        (w : PodController P C) (pod : WatchedPod) (o : Option WatchedPod)
        → Holds w.known_pods (update_received P C E now w pod o)
    unfolding update_received
    received-Holds w pod none = tt
    received-Holds w pod (some from_provider) =
        if-known w.known_pods
          (is_deleted from_provider
            && elim (is_deleted pod) [ true ↦ false | false ↦ true ]
            && E.same_state pod.status from_provider.status)
          _ _ (deletion-known w from_provider _) (sent-known w from_provider)

    known-Holds :
        (w : PodController P C) (pod : WatchedPod) (o : Option KnownPod)
        → Holds w.known_pods (update_known P C E now w pod o)
    unfolding update_known
    known-Holds w pod none = refl
    known-Holds w pod (some k) = received-Holds w pod k.last_pod_status_received_from_provider

    updated-Holds :
        (w : PodController P C) (pod : WatchedPod) (key : List ℕ)
        → Holds w.known_pods (update_pod_status P C E now w pod key)
    unfolding update_pod_status
    updated-Holds w pod key =
        elim (should_skip_pod_status_update pod)
          as (λ b.
            Holds w.known_pods
              (if b then some (w, none) else update_known P C E now w pod (w.known_pods key))) [
                | true ↦ refl
                | false ↦ known-Holds w pod (w.known_pods key)
              ]

    listed-Holds :
        (w : PodController P C) (key : List ℕ) (answer : Answer WatchedPod)
        → Holds w.known_pods (status_listed P C E now w key answer)
    unfolding status_listed
    listed-Holds w key (ok pod) = updated-Holds w pod key
    listed-Holds w key (err not_found) = refl
    listed-Holds w key (err already_exists) = refl
    listed-Holds w key (err other) = refl

    pub status_key-Holds :
        (lister : Cache WatchedPod) (w : PodController P C) (key : List ℕ) (o : Option Key)
        → Holds w.known_pods (status_key P C E now lister w key o)
    unfolding status_key
    status_key-Holds lister w key none = refl
    status_key-Holds lister w key (some k) = listed-Holds w key (lister k)

  deleted_key-known :
      (key : List ℕ) (r : Updated P C) → (with_deleted_key P C key r).0.known_pods ≡ r.0.known_pods
  unfolding with_deleted_key
  deleted_key-known key (w, none) = refl
  deleted_key-known key (w, some e) = refl

  answered-known :
      (w : PodController P C) (r : C.State × Option Refusal)
      → (deletion_answered P C w r).0.known_pods ≡ w.known_pods
  unfolding deletion_answered
  answered-known w (s, none) = refl
  answered-known w (s, some gone) = refl
  answered-known w (s, some conflict) = refl
  answered-known w (s, some refused) = refl

  delete_listed-known :
      (w : PodController P C) (k : Key) (uid : List ℕ) (answer : Answer WatchedPod)
      → (delete_listed_pod P C w k uid answer).0.known_pods ≡ w.known_pods
  unfolding delete_listed_pod
  delete_listed-known w k uid (ok pod) =
      elim (has_uid pod uid)
        as (λ b.
          (if b
            then deletion_answered P C w (
                C.delete w.api k
                  (record { grace_period_seconds = some 0; preconditions = some uid }))
            else (w, none)).0.known_pods
          ≡ w.known_pods) [ true ↦ answered-known w _ | false ↦ refl ]
  delete_listed-known w k uid (err not_found) = refl
  delete_listed-known w k uid (err already_exists) = refl
  delete_listed-known w k uid (err other) = refl

  delete_split-known :
      (lister : Cache WatchedPod) (w : PodController P C) (key uid : List ℕ) (o : Option Key)
      → (delete_split P C lister w key uid o).0.known_pods ≡ w.known_pods
  unfolding delete_split
  delete_split-known lister w key uid none = refl
  delete_split-known lister w key uid (some k) =
      deleted_key-known key (delete_listed_pod P C w k uid (lister k))
      ∙ delete_listed-known w k uid (lister k)

  pub delete_cut-Holds :
      (N : PodKeys) (lister : Cache WatchedPod) (w : PodController P C) (key : List ℕ)
      (o : Option (List ℕ × List ℕ))
      → Holds w.known_pods (delete_cut P C N lister w key o)
  unfolding delete_cut
  delete_cut-Holds N lister w key none = tt
  delete_cut-Holds N lister w key (some (uid, meta_key)) =
      delete_split-known lister w key uid (N.split meta_key)
