-- ===== src/PodController/Tests.antt =====
-- Runs of the controller of pkg/controllers/pod.go with a provider that has one pod at most, and the
-- theorems at inputs.
use clusterrouter.Base.{
  ℕ, ◌≡◌, ◌↔◌, refl, String, true, false, Option, none, some, List, [], ◌∷◌, ◌⊎◌, inl, text_dec,
  ite, if_pos, arith, ℕ_discrete,
}
use clusterrouter.Controllers.Api.{not_found, ok, err}
use clusterrouter.PodController.Names.{bytes_dec, uid_key, get_uid_and_meta_namespace_key}
use clusterrouter.PodController.Watched.{
  WatchedPod, Comparing, is_phase, should_skip_pod_status_update,
}
use clusterrouter.PodController.Known.{
  Lifecycle, PodsClient, PodKeys, event, new_known_pod, PodController, with_call, with_known,
  deleted, pod_added, pod_deleted, pod_updated, write_known,
}
use clusterrouter.PodController.Sync.{
  is_forced, is_deleted, provided, found_or_not, populated, create_or_update_pod, brought,
  remembered, is_used, sync_known, sync_pod_in_provider,
}
use clusterrouter.PodController.Status.{
  StatusError, delete_listed_pod, with_deleted_key, delete_split, delete_cut,
  delete_pods_from_kubernetes_handler, sync_pod_status_from_provider_handler,
}
use clusterrouter.PodController.Wrapper.{wrapped_deletion, wrapped_key, wrapped_delete_pod}
use clusterrouter.PodController.Repeated.{sync_pod_in_provider-again}
use clusterrouter.PodController.Reached.{Step, Reach, Reach-panics}
use clusterrouter.PodController.Erased.{
  IsMarked, delete_pods_from_kubernetes_handler-erased, wrapped_delete_pod-IsMarked,
}
use clusterrouter.PodController.Replaced.{sync_pod_status_from_provider_handler-replaced}

abbrev web : WatchedPod
web = record {
  namespace = "shop";
  name = "web";
  uid = 49 ∷ [];
  resource_version = "7";
  labels = [];
  annotations = [];
  finalizers = [];
  creation_timestamp = 0;
  deletion_timestamp = none;
  deletion_grace_period_seconds = none;
  containers = "nginx" ∷ [];
  init_containers = [];
  tolerations = [];
  active_deadline_seconds = none;
  restart_policy = "Always";
  rest = "";
  status = record { phase = "Pending"; reason = ""; message = ""; container_statuses = [] };
}

-- A provider for one pod.
abbrev one_pod : Lifecycle
one_pod = record {
  State = Option WatchedPod;
  create_pod = λ s p. (some p, none);
  update_pod = λ s p. (some p, none);
  delete_pod = λ s p. (none, none);
  get_pod = λ s k. (s, none);
  get_pod_status = λ s k. (none, none);
  get_pods = λ s. ([], none);
}

-- The master cluster counts the calls.
abbrev counting : PodsClient
counting = record {
  State = List String;
  update_status = λ s p. ("update" ∷ s, none);
  delete = λ s k o. ("delete" ∷ s, none);
}

abbrev by_image : Comparing
by_image = record {
  same_texts = λ a b. true;
  same_map = λ a b. true;
  same_deadline = λ a b. true;
  same_time = λ a b. true;
  same_state = λ a b. ite (text_dec a.phase b.phase) true false;
  same_pod = λ a b. ite (text_dec a.name b.name) true false;
}

by_image_same : (p : WatchedPod) → by_image.same_pod p p ≡ true
by_image_same p = if_pos (text_dec p.name p.name) refl _ _

abbrev web_key : List ℕ
web_key = 115 ∷ 47 ∷ 119 ∷ []

abbrev keys : PodKeys
keys = record { key_func = λ p. some web_key; split = λ k. some ("shop", "web") }

abbrev plain : WatchedPod → WatchedPod ⊎ String
plain p = inl p

abbrev Controller : Type 0
Controller = PodController one_pod counting

abbrev begin : Controller
begin = record {
  known_pods = λ j. none;
  provider = none;
  api = [];
  calls = [];
  deleted_pods = none;
}

abbrev knows_web : Controller
knows_web = record begin { known_pods = write_known web_key (some new_known_pod) (λ j. none) }

abbrev web_runs : Controller
web_runs =
    with_known one_pod counting
      (with_call one_pod counting (record knows_web { provider = some web })
        (event "ProviderCreateSuccess"))
      web_key (some (record new_known_pod { last_pod_used = some web }))

sync_pod_in_provider-again_example :
    sync_pod_in_provider one_pod counting by_image plain web_runs web web_key
    ≡ some (web_runs, none)
unfolding write_known bytes_dec sync_pod_in_provider is_forced is_deleted sync_known is_used
    remembered brought create_or_update_pod populated found_or_not provided is_phase text_dec
    ℕ_discrete
sync_pod_in_provider-again_example =
    sync_pod_in_provider-again one_pod counting by_image plain by_image_same web web_key web_runs
      knows_web refl refl

Reach-panics_example :
    (pod_updated one_pod counting by_image
        (pod_added one_pod counting begin (some web_key))
        (some web_key)
        web
        web
      ≡ none)
    ↔ ((pod_added one_pod counting begin (some web_key)).known_pods web_key ≡ none)
Reach-panics_example =
    Reach-panics one_pod counting by_image plain keys
      (pod_added one_pod counting begin (some web_key))
      (Reach.step (Reach.start begin (λ j. refl)) (Step.added (some web_key))) web_key web web

delete_pods_from_kubernetes_handler-erased_example :
    (w' : Controller) × (e : Option StatusError) × (delete_pods_from_kubernetes_handler one_pod
        counting keys
        (λ k. ok web)
        begin
        (uid_key web_key (49 ∷ []))
      ≡ some (w', e))
    × (w'.api ≡ "delete" ∷ [])
unfolding bytes_dec ℕ_discrete
delete_pods_from_kubernetes_handler-erased_example =
    delete_pods_from_kubernetes_handler-erased one_pod counting keys (λ k. ok web) begin web_key
      (49 ∷ []) ("shop", "web") (omega arith, tt) refl

-- What the wrapper leaves when it has deleted the pod.
abbrev web_deleted : Controller
web_deleted = record begin {
  deleted_pods = some (wrapped_delete_pod one_pod keys 5 (λ j. false) (some web) web).0;
}

abbrev web_erased : Controller
web_erased = record begin {
  deleted_pods = some (λ j.
      ite (bytes_dec (uid_key web_key (49 ∷ [])) j) false
        ((wrapped_delete_pod one_pod keys 5 (λ j. false) (some web) web).0 j));
}

wrapped_delete_pod-IsMarked_example : IsMarked web_key web_erased.deleted_pods
unfolding wrapped_delete_pod wrapped_key wrapped_deletion delete_pods_from_kubernetes_handler
    delete_cut delete_split delete_listed_pod with_deleted_key get_uid_and_meta_namespace_key
    uid_key
wrapped_delete_pod-IsMarked_example =
    wrapped_delete_pod-IsMarked one_pod counting keys (λ k. err not_found) 5 (λ j. false) web
      web_key (some web) web_deleted web_erased (49 ∷ []) none refl refl refl refl

sync_pod_status_from_provider_handler-replaced_example :
    sync_pod_status_from_provider_handler one_pod counting by_image 9 keys
      (λ k. ok web)
      (pod_added one_pod counting
        (pod_deleted one_pod counting web_runs (some web_key) (deleted web))
        (some web_key))
      web_key
    ≡ none
unfolding should_skip_pod_status_update is_phase text_dec
sync_pod_status_from_provider_handler-replaced_example =
    sync_pod_status_from_provider_handler-replaced one_pod counting by_image 9 keys (λ k. ok web)
      web_runs web_key ("shop", "web") web refl (deleted web) refl refl
