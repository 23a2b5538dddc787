-- ===== src/PodController/Erased.antt =====
-- pkg/controllers/pod.go and sync.go: what the handler of deletions does to the master cluster, and
-- which keys of deleted pods it leaves in the wrapper.
use clusterrouter.Base.{
  ℕ, ◌≡◌, refl, sym, ap, subst, ◌∙◌, Bool, true, false, Option, none, some, List, ite, if_pos,
  if_neg, if◌then◌else◌, some_cancel,
}
use clusterrouter.Controllers.Api.{Key, not_found, already_exists, other, Answer, ok, err, Cache}
use clusterrouter.PodController.Names.{
  bytes_dec, uid_key, uid_key-differs, HasNoSlash, get_uid_and_meta_namespace_key,
  get_uid_and_meta_namespace_key-uid_key,
}
use clusterrouter.PodController.Watched.{WatchedPod}
use clusterrouter.PodController.Known.{
  ProviderError, Lifecycle, Refusal, gone, conflict, refused, DeleteOptions, PodsClient, PodKeys,
  PodController,
}
use clusterrouter.PodController.Status.{
  StatusError, Updated, has_uid, with_deleted_key, deletion_answered, delete_listed_pod,
  delete_split, delete_cut, delete_pods_from_kubernetes_handler,
}
use clusterrouter.PodController.Wrapper.{
  mark_key, wrapped_deletion, wrapped_key, wrapped_delete_pod,
}

-- A deletion of the pod at once, if it has the UID.
abbrev pub only_uid : List ℕ → DeleteOptions
only_uid uid = record { grace_period_seconds = some 0; preconditions = some uid }

abbrev pub IsMarked : List ℕ → Option (List ℕ → Bool) → Type 0
IsMarked key none = ⊥
IsMarked key (some d) = d key ≡ true

module _ (P : Lifecycle) (C : PodsClient) (N : PodKeys) (lister : Cache WatchedPod) where
  -- The pods of the master cluster after the handler, by what its lister answered.
  abbrev pub erased : PodController P C → List ℕ → Key → Answer WatchedPod → C.State
  erased w uid k (ok pod) = ite (bytes_dec pod.uid uid) (C.delete w.api k (only_uid uid)).0 w.api
  erased w uid k (err e) = w.api

  answered-api :
      (w : PodController P C) (r : C.State × Option Refusal)
      → (deletion_answered P C w r).0.api ≡ r.0
  unfolding deletion_answered
  answered-api w (s, none) = refl
  answered-api w (s, some gone) = refl
  answered-api w (s, some conflict) = refl
  answered-api w (s, some refused) = refl

  listed-api :
      (w : PodController P C) (k : Key) (uid : List ℕ) (answer : Answer WatchedPod)
      → (delete_listed_pod P C w k uid answer).0.api ≡ erased w uid k answer
  unfolding delete_listed_pod has_uid
  listed-api w k uid (ok pod) =
      elim (bytes_dec pod.uid uid)
        as (λ d.
          (if ite d true false
            then deletion_answered P C w (C.delete w.api k (only_uid uid))
            else (w, none)).0.api
          ≡ ite d (C.delete w.api k (only_uid uid)).0 w.api) [
            | yes p ↦ answered-api w (C.delete w.api k (only_uid uid))
            | no n ↦ refl
          ]
  listed-api w k uid (err not_found) = refl
  listed-api w k uid (err already_exists) = refl
  listed-api w k uid (err other) = refl

  key-api : (key : List ℕ) (r : Updated P C) → (with_deleted_key P C key r).0.api ≡ r.0.api
  unfolding with_deleted_key
  key-api key (w, none) = refl
  key-api key (w, some e) = refl

  split-api :
      (w : PodController P C) (key uid : List ℕ) (k : Key) (o : Option Key)
      → o ≡ some k
      → (delete_split P C lister w key uid o).0.api ≡ erased w uid k (lister k)
  unfolding delete_split
  split-api w key uid k none e = cc
  split-api w key uid k (some i) e =
      key-api key (delete_listed_pod P C w i uid (lister i))
      ∙ listed-api w i uid (lister i)
      ∙ ap (λ j. erased w uid j (lister j)) (some_cancel e)

  -- For the key of a pod with a UID behind it, without a slash of its own, the handler returns, and
  -- its one call to the master cluster deletes the pod if the lister's has that UID, which the call
  -- demands again; otherwise nothing is deleted.
  pub delete_pods_from_kubernetes_handler-erased :
      (w : PodController P C) (key uid : List ℕ) (k : Key)
      → HasNoSlash uid
      → N.split key ≡ some k
      → (w' : PodController P C) × (e : Option StatusError) × (delete_pods_from_kubernetes_handler P
            C N lister w
            (uid_key key uid)
          ≡ some (w', e))
        × (w'.api ≡ erased w uid k (lister k))
  unfolding delete_pods_from_kubernetes_handler delete_cut
  delete_pods_from_kubernetes_handler-erased w key uid k h s =
      let r = delete_split P C lister w (uid_key key uid) uid (N.split key) in
      (
        r.0,
        r.1,
        rw (get_uid_and_meta_namespace_key-uid_key key uid h) refl,
        split-api w (uid_key key uid) uid k (N.split key) s,
      )

  key-IsMarked :
      (key uid : List ℕ) (r : Updated P C)
      → IsMarked key r.0.deleted_pods
      → IsMarked key (with_deleted_key P C (uid_key key uid) r).0.deleted_pods
  unfolding with_deleted_key
  key-IsMarked key uid (w, some e) m = m
  key-IsMarked key uid (w, none) m = unmarked w.deleted_pods m
    where
      unmarked :
          (o : Option (List ℕ → Bool))
          → IsMarked key o
          → IsMarked key (elim o as (λ _. Option (List ℕ → Bool)) [
            | none ↦ none
            | some d ↦ some (λ j. ite (bytes_dec (uid_key key uid) j) false (d j))
          ])
      unmarked none m = m
      unmarked (some d) m =
          if_neg (bytes_dec (uid_key key uid) key) (uid_key-differs key uid) _ _ ∙ m

  answered-deleted :
      (w : PodController P C) (r : C.State × Option Refusal)
      → (deletion_answered P C w r).0.deleted_pods ≡ w.deleted_pods
  unfolding deletion_answered
  answered-deleted w (s, none) = refl
  answered-deleted w (s, some gone) = refl
  answered-deleted w (s, some conflict) = refl
  answered-deleted w (s, some refused) = refl

  listed-deleted :
      (w : PodController P C) (k : Key) (uid : List ℕ) (answer : Answer WatchedPod)
      → (delete_listed_pod P C w k uid answer).0.deleted_pods ≡ w.deleted_pods
  unfolding delete_listed_pod
  listed-deleted w k uid (ok pod) =
      elim (has_uid pod uid)
        as (λ b.
          (if b
            then deletion_answered P C w (C.delete w.api k (only_uid uid))
            else (w, none)).0.deleted_pods
          ≡ w.deleted_pods) [ true ↦ answered-deleted w _ | false ↦ refl ]
  listed-deleted w k uid (err not_found) = refl
  listed-deleted w k uid (err already_exists) = refl
  listed-deleted w k uid (err other) = refl

  split-IsMarked :
      (w : PodController P C) (key uid uid' : List ℕ) (o : Option Key)
      → IsMarked key w.deleted_pods
      → IsMarked key (delete_split P C lister w (uid_key key uid) uid' o).0.deleted_pods
  unfolding delete_split
  split-IsMarked w key uid uid' none m = m
  split-IsMarked w key uid uid' (some k) m =
      key-IsMarked key uid (delete_listed_pod P C w k uid' (lister k))
        (rw (listed-deleted w k uid' (lister k)) m)

  cut-IsMarked :
      (w w' : PodController P C) (key uid : List ℕ) (o : Option (List ℕ × List ℕ))
      (e : Option StatusError)
      → IsMarked key w.deleted_pods
      → delete_cut P C N lister w (uid_key key uid) o ≡ some (w', e)
      → IsMarked key w'.deleted_pods
  unfolding delete_cut
  cut-IsMarked w w' key uid none e m i = cc
  cut-IsMarked w w' key uid (some (uid', meta_key)) e m i =
      subst (λ (x : Updated P C). IsMarked key x.0.deleted_pods) (some_cancel i)
        (split-IsMarked w key uid uid' (N.split meta_key) m)

  module _ (now : ℕ) (d : List ℕ → Bool) (pod : WatchedPod) (key : List ℕ) where
    deletion-marked :
        (r : P.State × Option ProviderError)
        → (wrapped_deletion P N now (mark_key key true d) pod key r).3 ≡ none
        → (wrapped_deletion P N now (mark_key key true d) pod key r).0 key ≡ true
    unfolding wrapped_deletion mark_key
    deletion-marked (s, none) h = if_pos (bytes_dec key key) refl _ _
    deletion-marked (s, some e) h = cc

    key-marked :
        (s : P.State) (o : Option (List ℕ))
        → o ≡ some key
        → (wrapped_key P N now d s pod o).3 ≡ none
        → (wrapped_key P N now d s pod o).0 key ≡ true
    unfolding wrapped_key
    key-marked s none e = λ h. cc
    key-marked s (some i) e =
        subst
          (λ (j : List ℕ).
            (wrapped_deletion P N now (mark_key j true d) pod j (P.delete_pod s pod)).3 ≡ none
            → (wrapped_deletion P N now (mark_key j true d) pod j (P.delete_pod s pod)).0 key
              ≡ true)
          (sym (some_cancel e)) (deletion-marked (P.delete_pod s pod))

    -- Where the wrapped provider has deleted a pod, the key of the pod stays among those of deleted
    -- pods when the handler of deletions has run for the pod's key with its UID: the handler cleans
    -- up that key and not the one that was stored.
    pub wrapped_delete_pod-IsMarked :
        (s : P.State) (w w' : PodController P C) (uid : List ℕ) (e : Option StatusError)
        → N.key_func pod ≡ some key
        → (wrapped_delete_pod P N now d s pod).3 ≡ none
        → w.deleted_pods ≡ some (wrapped_delete_pod P N now d s pod).0
        → delete_pods_from_kubernetes_handler P C N lister w (uid_key key uid) ≡ some (w', e)
        → IsMarked key w'.deleted_pods
    unfolding wrapped_delete_pod delete_pods_from_kubernetes_handler
    wrapped_delete_pod-IsMarked s w w' uid e n h m i =
        cut-IsMarked w w' key uid (get_uid_and_meta_namespace_key (uid_key key uid)) e
          (subst (IsMarked key) (sym m) (key-marked s (N.key_func pod) n h)) i
