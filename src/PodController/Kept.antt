-- ===== src/PodController/Kept.antt =====
-- pkg/controllers/pod.go: bringing a pod to the provider leaves the known pods as they are.
use clusterrouter.Base.{
  ℕ, ◌≡◌, refl, String, Bool, true, false, ◌||◌, Option, none, some, List, ◌⊎◌, inl, inr,
  if◌then◌else◌,
}
use clusterrouter.PodController.Watched.{WatchedPod, Comparing, pods_equal, is_phase}
use clusterrouter.PodController.Known.{
  ProviderError, Lifecycle, PodsClient, PodCall, KnownPod, PodController, with_call,
}
use clusterrouter.PodController.Sync.{
  Handled, handle_provider_error, provided, found_or_not, populated, create_or_update_pod,
  pod_was_deleted, after_grace, after_deletion, brought, is_deleted, SyncError,
}

-- What a handler leaves keeps the property of the known pods.
module _ (P : Lifecycle) (C : PodsClient) (E : Comparing)
    (populate : WatchedPod → WatchedPod ⊎ String) where
  -- The known pods after a handler, if it did not panic, are those given.
  abbrev pub Keeps : (List ℕ → Option KnownPod) → Option (Handled P C E populate) → Type 0
  Keeps known none = Unit
  Keeps known (some (w, e)) = w.known_pods ≡ known

  provided-known :
      (w : PodController P C) (pod : WatchedPod) (s f : String) (r : P.State × Option ProviderError)
      → (provided P C E populate w pod s f r).0.known_pods ≡ w.known_pods
  unfolding provided with_call handle_provider_error
  provided-known w pod s f (x, none) = refl
  provided-known w pod s f (x, some e) = refl

  found-known :
      (w : PodController P C) (pod : WatchedPod) (o : Option WatchedPod)
      → (found_or_not P C E populate w pod o).0.known_pods ≡ w.known_pods
  unfolding found_or_not
  found-known w pod none = provided-known w pod _ _ (P.create_pod w.provider pod)
  found-known w pod (some there) =
      elim (pods_equal E there pod)
        as (λ b.
          (if b
            then (w, none)
            else provided P C E populate w pod "ProviderUpdateSuccess" "ProviderUpdateFailed"
                (P.update_pod w.provider pod)).0.known_pods
          ≡ w.known_pods) [
            | true ↦ refl
            | false ↦ provided-known w pod _ _ (P.update_pod w.provider pod)
          ]

  populated-known :
      (w : PodController P C) (r : WatchedPod ⊎ String)
      → (populated P C E populate w r).0.known_pods ≡ w.known_pods
  unfolding populated
  populated-known w (inr e) = refl
  populated-known w (inl pod) = found-known w pod _

  grace-Keeps :
      (w : PodController P C) (key : List ℕ) (pod : WatchedPod) (o : Option ℕ)
      → Keeps w.known_pods (after_grace P C E populate w key pod o)
  unfolding after_grace with_call
  grace-Keeps w key pod none = tt
  grace-Keeps w key pod (some t) = refl

  deletion-Keeps :
      (w : PodController P C) (key : List ℕ) (pod : WatchedPod) (o : Option ProviderError)
      → Keeps w.known_pods (after_deletion P C E populate key pod (w, o))
  unfolding after_deletion
  deletion-Keeps w key pod none = grace-Keeps w key pod pod.deletion_grace_period_seconds
  deletion-Keeps w key pod (some e) =
      elim e.is_missing
        as (λ b. Keeps w.known_pods (
          if b
          then after_grace P C E populate w key pod pod.deletion_grace_period_seconds
          else some (w, some (SyncError.from_provider e)))) [
            | true ↦ grace-Keeps w key pod pod.deletion_grace_period_seconds
            | false ↦ refl
          ]

  deleted-Keeps :
      (w : PodController P C) (key : List ℕ) (pod : WatchedPod) (r : P.State × Option ProviderError)
      → Keeps w.known_pods
          (after_deletion P C E populate key pod (pod_was_deleted P C E populate w r))
  unfolding pod_was_deleted with_call
  deleted-Keeps w key pod (s, none) =
      deletion-Keeps
        (with_call P C (record w { provider = s }) (PodCall.event "ProviderDeleteSuccess")) key pod
        none
  deleted-Keeps w key pod (s, some e) =
      deletion-Keeps
        (with_call P C (record w { provider = s }) (PodCall.event "ProviderDeleteFailed")) key pod
        (some e)

  if-Keeps :
      (known : List ℕ → Option KnownPod) (b : Bool) (x y : Option (Handled P C E populate))
      → Keeps known x
      → Keeps known y
      → Keeps known (if b then x else y)
  if-Keeps known true x y hx hy = hx
  if-Keeps known false x y hx hy = hy

  pub brought-Keeps :
      (w : PodController P C) (pod : WatchedPod) (key : List ℕ)
      → Keeps w.known_pods (brought P C E populate w pod key)
  unfolding brought create_or_update_pod
  brought-Keeps w pod key =
      if-Keeps w.known_pods (is_deleted pod) _ _
        (deleted-Keeps w key pod (P.delete_pod w.provider pod))
        (if-Keeps w.known_pods (is_phase pod "Failed" || is_phase pod "Succeeded") (some (w, none))
          (some (create_or_update_pod P C E populate w pod)) refl
          (populated-known w (populate pod)))
