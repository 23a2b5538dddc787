-- ===== src/Provider/Pods.antt =====
-- pkg/plugins/virtualk8s/pod.go: pods are created, updated, deleted and read in the member cluster.
-- The logs are left out; `none` is a panic.
use clusterrouter.Base.{
  ℕ, zero, suc, String, Bool, true, false, Option, none, some, List, [], ◌∷◌, text_dec, ite,
  if◌then◌else◌,
}
use clusterrouter.Conversion.{Pod, Json, virtual_pod_label, value_at}
use clusterrouter.Conversion.Labels.{trim_labels, recover_labels}
use clusterrouter.Conversion.Trim.{is_default_token, trim_pod, get_updated_pod}
use clusterrouter.Controllers.Api.{
  Key, ApiError, not_found, already_exists, other, Answer, ok, err, failure, failure_unless_gone,
  Cache, Client,
}
use clusterrouter.Controllers.Common.{ConfigMap, Secret}
use clusterrouter.Controllers.Volumes.{Claim}
use clusterrouter.Provider.Depends.{SourcedVolume, get_secrets, get_configmaps, get_pvcs}
use clusterrouter.Provider.Copies.{
  Copying, create_config_maps, create_pvcs, ServiceAccount, Secrets, create_secrets,
}
use clusterrouter.Provider.Auth.{MasterAuth, AuthState, convert_auth}

-- A pod, with the sources of the volumes that its specification names.
pub record RunPod : Type 0 where
  pub key : Key
  pub pod : Pod
  pub sources : List SourcedVolume
  pub image_pull_secrets : List String
  pub automount : Option Bool
  pub service_account : String
  pub grace_period : Option ℕ

-- `IsVirtualPod` of pkg/utils/k8s.go.
unfoldable pub is_virtual : RunPod → Bool
is_virtual p = ite (text_dec (value_at virtual_pod_label p.pod.meta.labels) "true") true false

unfoldable pub is_system : RunPod → Bool
is_system p = ite (text_dec p.key.0 "kube-system") true false

-- The volumes of the pod that is sent.
unfoldable pub sent_sources : List SourcedVolume → List SourcedVolume
sent_sources [] = []
sent_sources (v ∷ sources) =
    let rest = sent_sources sources in if is_default_token v.name then rest else v ∷ rest

-- `wait.PollImmediate`, with the number of calls that its time allows: the state and the error after
-- the last call.
unfoldable pub poll : {S : Type 0} → (S → S × Option ApiError) → ℕ → S → S × Option ApiError
poll f zero s = f s
poll f (suc tries) s = elim (f s).1 [ none ↦ f s | some e ↦ poll f tries (f s).0 ]

abbrev pub seconds_of : Option ℕ → ℕ
seconds_of none = 0
seconds_of (some seconds) = seconds

module _ (NS : Client String) where
  -- What the code makes of the answer to the creation of a namespace: it ends with the error of the
  -- lister if the namespace is there already, and goes on with every other error.
  unfoldable pub namespace_created : NS.State × Answer String → NS.State × Option ApiError
  namespace_created (s, err already_exists) = (s, some not_found)
  namespace_created (s, answer) = (s, none)

  unfoldable pub namespace_listed : NS.State → String → Answer String → NS.State × Option ApiError
  unfolding namespace_created
  namespace_listed s ns (ok _) = (s, none)
  namespace_listed s ns (err not_found) = namespace_created (NS.create s ns)
  namespace_listed s ns (err e) = (s, some e)

-- The dependents of a pod that are made in the background: one call of the function that is polled.
module _ (C : Client ConfigMap) (V : Client Claim) where
  unfoldable pub pvcs_after :
      Cache Claim
      → String
      → List String
      → Copying C × Option ApiError
      → V.State
      → (Copying C × V.State) × Option ApiError
  unfolding create_pvcs
  pvcs_after asked ns pvcs (w, some e) s = ((w, s), some e)
  pvcs_after asked ns pvcs (w, none) s = let (s', e) = create_pvcs V asked ns s pvcs in ((w, s'), e)

  unfoldable pub create_dependents :
      Cache ConfigMap
      → Cache Claim
      → RunPod
      → Copying C
      → V.State
      → (Copying C × V.State) × Option ApiError
  unfolding create_config_maps pvcs_after get_configmaps get_pvcs
  create_dependents listed asked p w s =
      pvcs_after asked p.key.0 (get_pvcs p.sources)
        (create_config_maps C listed p.key.0 w (get_configmaps p.sources)) s

-- What the provider reads: the listers of the member cluster and the master cluster.
pub record PodSources : Type 0 where
  pub namespaces : Cache String
  pub secrets : Cache Secret
  pub pods : Cache RunPod
  pub master : MasterAuth

module _ (J : Json) (NS : Client String) (C : Client Secret) (D : Client ServiceAccount)
    (M : Client ConfigMap) (P : Client RunPod) where
  -- The parts of the member cluster that are touched while a pod is created, one after the other.
  pub record Lower : Type 0 where
    pub namespaces : NS.State
    pub secrets : Secrets C D
    pub config_maps : M.State
    pub pods : P.State

  -- The pod that is created: the copy that was trimmed, but for the sources that it shares.
  unfoldable pub basic_pod : Option (List String) → RunPod → List SourcedVolume → RunPod
  unfolding trim_pod sent_sources
  basic_pod ignore_labels p sources = record p {
    pod = trim_pod J p.pod ignore_labels;
    sources = sent_sources sources;
  }

  unfoldable pub pod_created :
      Option (List String)
      → RunPod
      → AuthState D C M × Option (List SourcedVolume)
      → Lower
      → Option (Lower × Option ApiError)
  unfolding basic_pod
  pod_created ignore_labels p (a, none) w = none
  pod_created ignore_labels p (a, some sources) w =
      let (s, answer) = P.create w.pods (basic_pod ignore_labels p sources) in
      some (
        record w {
          secrets = record w.secrets { api = a.secrets; accounts = a.accounts };
          config_maps = a.config_maps;
          pods = s;
        },
        failure answer,
      )

  unfoldable pub secrets_created :
      Option (List String)
      → PodSources
      → (Secret → Option String)
      → RunPod
      → Lower
      → Secrets C D × Option ApiError
      → Option (Lower × Option ApiError)
  unfolding pod_created convert_auth
  secrets_created ignore_labels R token_of p w (t, some e) =
      some (record w { secrets = t }, some other)
  secrets_created ignore_labels R token_of p w (t, none) =
      pod_created ignore_labels p
        (convert_auth D C M R.master token_of p.automount p.service_account p.key.0 p.sources
          (record { accounts = t.accounts; secrets = t.api; config_maps = w.config_maps }))
        (record w { secrets = t })

  unfoldable pub secrets_named :
      Option (List String)
      → PodSources
      → (Secret → Option String)
      → Bool
      → ℕ
      → RunPod
      → Lower
      → Option (List String)
      → Option (Lower × Option ApiError)
  unfolding secrets_created create_secrets poll
  secrets_named ignore_labels R token_of enabled tries p w none = none
  secrets_named ignore_labels R token_of enabled tries p w (some names) =
      secrets_created ignore_labels R token_of p w
        (poll (λ t. create_secrets C D enabled R.secrets p.key.0 t names) tries w.secrets)

  unfoldable pub namespace_ready :
      Option (List String)
      → PodSources
      → (Secret → Option String)
      → Bool
      → ℕ
      → RunPod
      → Lower
      → NS.State × Option ApiError
      → Option (Lower × Option ApiError)
  unfolding secrets_named get_secrets
  namespace_ready ignore_labels R token_of enabled tries p w (s, some e) =
      some (record w { namespaces = s }, some e)
  namespace_ready ignore_labels R token_of enabled tries p w (s, none) =
      secrets_named ignore_labels R token_of enabled tries p (record w { namespaces = s })
        (get_secrets p.sources p.image_pull_secrets)

  -- `CreatePod`, without the dependents that are made in the background.
  unfoldable pub create_pod :
      Option (List String)
      → PodSources
      → (Secret → Option String)
      → Bool
      → ℕ
      → RunPod
      → Lower
      → Option (Lower × Option ApiError)
  unfolding is_system namespace_ready namespace_listed
  create_pod ignore_labels R token_of enabled tries p w =
      if is_system p
      then some (w, none)
      else namespace_ready ignore_labels R token_of enabled tries p w
          (namespace_listed NS w.namespaces p.key.0 (R.namespaces ("", p.key.0)))

module _ (J : Json) (P : Client RunPod) where
  -- The pod with the labels that were taken off; `none` is the panic of `RecoverLabels`.
  unfoldable pub recovered_pod : RunPod → Option RunPod
  unfolding recover_labels
  recovered_pod p = elim (recover_labels J p.pod.meta.labels p.pod.meta.annotations) [
    | none ↦ none
    | some labels ↦
        some (record p { pod = record p.pod { meta = record p.pod.meta { labels = labels } } })
  ]

  abbrev pub answered : Option RunPod → Option (Answer RunPod)
  answered none = none
  answered (some p) = some (ok p)

  -- `GetPod`, by what the member cluster's lister answered; the error is told to be of a missing pod
  -- or another.
  unfoldable pub get_pod : Answer RunPod → Option (Answer RunPod)
  unfolding recovered_pod
  get_pod (ok p) = answered (recovered_pod p)
  get_pod (err not_found) = some (err not_found)
  get_pod (err e) = some (err other)

  -- `GetPodStatus`: here a missing pod is not told apart.
  unfoldable pub get_pod_status : Answer RunPod → Answer (Option String)
  get_pod_status (ok p) = ok p.pod.status
  get_pod_status (err e) = err other

  -- `GetPods`, by the pods that the lister has.
  unfoldable pub get_pods : List RunPod → Option (List RunPod)
  unfolding is_virtual recovered_pod
  get_pods [] = some []
  get_pods (p ∷ pods) =
      let rest = get_pods pods in
      if is_virtual p
      then elim (recovered_pod p) [
        | none ↦ none
        | some q ↦ elim rest [ none ↦ none | some qs ↦ some (q ∷ qs) ]
      ]
      else rest

  -- The current pod without the labels that were taken off.
  unfoldable pub without_labels : Option (List String) → RunPod → RunPod
  unfolding trim_labels
  without_labels ignore_labels p = record p {
    pod = record p.pod {
      meta = record p.pod.meta {
        labels = elim p.pod.meta.labels [
          | none ↦ none
          | some labels ↦ some (trim_labels labels ignore_labels).0
        ];
      };
    };
  }

  -- The update that is sent, unless nothing that is compared differs.
  unfoldable pub send_pod_update :
      (RunPod → RunPod → Bool)
      → P.State
      → RunPod
      → Option (Pod × Pod)
      → Option (P.State × Option ApiError)
  send_pod_update same s current none = none
  send_pod_update same s current (some (updated, _)) =
      let sent = P.update s (record current { pod = updated }) in
      some (
        if same current (record current { pod = updated })
        then (s, none)
        else (sent.0, failure sent.1))

  unfoldable pub update_current :
      (RunPod → RunPod → Bool)
      → Option (List String)
      → P.State
      → RunPod
      → Option (Answer RunPod)
      → Option (P.State × Option ApiError)
  unfolding is_virtual send_pod_update without_labels get_updated_pod
  update_current same ignore_labels s p none = none
  update_current same ignore_labels s p (some (err e)) = some (s, some other)
  update_current same ignore_labels s p (some (ok current)) =
      let now = without_labels ignore_labels current in
      if is_virtual p
      then send_pod_update same s now (get_updated_pod J now.pod p.pod ignore_labels)
      else some (s, none)

  -- `UpdatePod`; `same` compares specifications, annotations and labels by `reflect.DeepEqual`.
  unfoldable pub update_pod :
      (RunPod → RunPod → Bool)
      → Option (List String)
      → Cache RunPod
      → P.State
      → RunPod
      → Option (P.State × Option ApiError)
  unfolding is_system update_current get_pod
  update_pod same ignore_labels listed s p =
      if is_system p
      then some (s, none)
      else update_current same ignore_labels s p (get_pod (listed p.key))

  -- `DeletePod`, with the grace period of the deletion; `delete` is that of the pods' client.
  unfoldable pub delete_pod :
      (P.State → Key → ℕ → P.State × Answer (Unit {0}))
      → P.State
      → RunPod
      → P.State × Option ApiError
  unfolding is_system is_virtual
  delete_pod delete s p =
      let (s', answer) = delete s p.key (seconds_of p.grace_period) in
      if is_system p
      then (s, none)
      else (if is_virtual p then (s', failure_unless_gone answer) else (s, none))
