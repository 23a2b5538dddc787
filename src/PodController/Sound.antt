-- ===== src/PodController/Sound.antt =====
-- pkg/controllers/pod.go: runs of the controller, and the known pods whose last update was skipped.
use clusterrouter.Base.{
  ℕ, ◌≡◌, ◌≢◌, ◌↔◌, refl, subst, Bool, true, false, Option, none, some, List, ite, if◌then◌else◌,
  some_cancel,
}
use clusterrouter.PodController.Names.{bytes_dec}
use clusterrouter.PodController.Watched.{WatchedPod, Comparing, has_drifted, pod_should_enqueue}
use clusterrouter.PodController.Known.{
  Lifecycle, PodsClient, PodCall, KnownPod, PodController, with_call, with_known, write_known,
  Deletion, deleted, tombstone, pod_added, pod_deleted, status_checked, enqueue_changed,
  known_updated, pod_updated,
}

-- If an update of the pod was skipped, the provider has sent the pod.
abbrev pub IsHeard : Option KnownPod → Type 0
IsHeard none = Unit
IsHeard (some k) =
    k.last_pod_status_update_skipped ≡ true → k.last_pod_status_received_from_provider ≢ none

abbrev pub IsSound : (List ℕ → Option KnownPod) → Type 0
IsSound known = (j : List ℕ) → IsHeard (known j)

pub write_known-IsSound :
    (key : List ℕ) (entry : Option KnownPod) (known : List ℕ → Option KnownPod)
    → IsHeard entry
    → IsSound known
    → IsSound (write_known key entry known)
unfolding write_known
write_known-IsSound key entry known e h j =
    elim (bytes_dec key j) as (λ d. IsHeard (ite d entry (known j))) [ yes p ↦ e | no n ↦ h j ]

module _ (P : Lifecycle) (C : PodsClient) where
  pub with_known-IsSound :
      (w : PodController P C) (key : List ℕ) (entry : Option KnownPod)
      → IsHeard entry
      → IsSound w.known_pods
      → IsSound (with_known P C w key entry).known_pods
  unfolding with_known
  with_known-IsSound w key entry e h = write_known-IsSound key entry w.known_pods e h

  pub pod_added-IsSound :
      (w : PodController P C) (key : Option (List ℕ))
      → IsSound w.known_pods
      → IsSound (pod_added P C w key).known_pods
  unfolding pod_added with_call
  pod_added-IsSound w none h = h
  pod_added-IsSound w (some key) h = with_known-IsSound w key _ (λ e. cc) h

  pub pod_deleted-IsSound :
      (w : PodController P C) (key : Option (List ℕ)) (d : Deletion)
      → IsSound w.known_pods
      → IsSound (pod_deleted P C w key d).known_pods
  unfolding pod_deleted with_call
  pod_deleted-IsSound w none d h = h
  pod_deleted-IsSound w (some key) (tombstone _) h = h
  pod_deleted-IsSound w (some key) (deleted pod) h = with_known-IsSound w key none tt h

  module _ (E : Comparing) where
    checked-IsSound :
        (w : PodController P C) (key : List ℕ) (k : KnownPod) (new : WatchedPod) (skipped : Bool)
        (last : Option WatchedPod) (w' : PodController P C)
        → IsSound w.known_pods
        → status_checked P C E w key k new skipped last ≡ some w'
        → IsSound w'.known_pods
    unfolding status_checked with_call
    checked-IsSound w key k new false last w' h e =
        subst (λ (x : PodController P C). IsSound x.known_pods) (some_cancel e) h
    checked-IsSound w key k new true none w' h e = cc
    checked-IsSound w key k new true (some last) w' h e =
        subst (λ (x : PodController P C). IsSound x.known_pods) (some_cancel e)
          (elim (has_drifted E new last)
            as (λ b.
              IsSound
                (if b
                  then with_known P C (with_call P C w (PodCall.sync_status key)) key
                      (some (record k { last_pod_status_update_skipped = false }))
                  else w).known_pods) [
                    | true ↦
                        with_known-IsSound (with_call P C w (PodCall.sync_status key)) key _
                          (λ i. cc) h
                    | false ↦ h
                  ])

    changed-IsSound :
        (key : List ℕ) (b : Bool) (o : Option (PodController P C)) (w' : PodController P C)
        → ((x : PodController P C) → o ≡ some x → IsSound x.known_pods)
        → enqueue_changed P C E key b o ≡ some w'
        → IsSound w'.known_pods
    unfolding enqueue_changed with_call
    changed-IsSound key b none w' h e = cc
    changed-IsSound key true (some w) w' h e =
        subst (λ (x : PodController P C). IsSound x.known_pods) (some_cancel e) (h w refl)
    changed-IsSound key false (some w) w' h e =
        subst (λ (x : PodController P C). IsSound x.known_pods) (some_cancel e) (h w refl)

    known_updated-IsSound :
        (w : PodController P C) (key : List ℕ) (old new : WatchedPod) (o : Option KnownPod)
        (w' : PodController P C)
        → IsSound w.known_pods
        → known_updated P C E w key old new o ≡ some w'
        → IsSound w'.known_pods
    unfolding known_updated
    known_updated-IsSound w key old new none w' h e = cc
    known_updated-IsSound w key old new (some k) w' h e =
        changed-IsSound key (pod_should_enqueue E old new)
          (status_checked P C E w key k new k.last_pod_status_update_skipped
            k.last_pod_status_received_from_provider)
          w'
          (λ x.
            checked-IsSound w key k new k.last_pod_status_update_skipped
              k.last_pod_status_received_from_provider x h)
          e

    pub pod_updated-IsSound :
        (w : PodController P C) (key : Option (List ℕ)) (old new : WatchedPod)
        (w' : PodController P C)
        → IsSound w.known_pods
        → pod_updated P C E w key old new ≡ some w'
        → IsSound w'.known_pods
    unfolding pod_updated
    pod_updated-IsSound w none old new w' h e =
        subst (λ (x : PodController P C). IsSound x.known_pods) (some_cancel e) h
    pod_updated-IsSound w (some key) old new w' h e =
        known_updated-IsSound w key old new (w.known_pods key) w' h e

    checked-panics :
        (w : PodController P C) (key : List ℕ) (k : KnownPod) (new : WatchedPod) (skipped : Bool)
        (last : Option WatchedPod)
        → (skipped ≡ true → last ≢ none)
        → status_checked P C E w key k new skipped last ≢ none
    unfolding status_checked
    checked-panics w key k new false last h e = cc
    checked-panics w key k new true none h e = h refl refl
    checked-panics w key k new true (some last) h e = cc

    changed-panics :
        (key : List ℕ) (b : Bool) (o : Option (PodController P C))
        → o ≢ none
        → enqueue_changed P C E key b o ≢ none
    unfolding enqueue_changed
    changed-panics key b none h e = h refl
    changed-panics key b (some w) h e = cc

    pub known_updated-panics :
        (w : PodController P C) (key : List ℕ) (old new : WatchedPod) (o : Option KnownPod)
        → IsHeard o
        → (known_updated P C E w key old new o ≡ none) ↔ (o ≡ none)
    unfolding known_updated
    known_updated-panics w key old new none h = (λ e. refl, λ e. refl)
    known_updated-panics w key old new (some k) h = (
      λ e. absurd (
          changed-panics key (pod_should_enqueue E old new)
            (status_checked P C E w key k new k.last_pod_status_update_skipped
              k.last_pod_status_received_from_provider)
            (checked-panics w key k new k.last_pod_status_update_skipped
              k.last_pod_status_received_from_provider h)
            e),
      λ e. cc,
    )
