-- ===== src/Provider/Copies.antt =====
-- pkg/plugins/virtualk8s/pod.go: the objects that a pod depends on are made in the member cluster. The
-- logs are left out. Errors that the code wraps are no longer told apart.
use clusterrouter.Base.{
  String, Bool, true, false, Option, none, some, List, [], ◌∷◌, text_dec, ite, if◌then◌else◌,
}
use clusterrouter.Conversion.{ObjectMeta, value_at, put_entry, trim_object_meta, set_object_global}
use clusterrouter.Controllers.Api.{
  Key, ApiError, not_found, already_exists, other, Answer, ok, err, failure, failure_unless_gone,
  Cache, cache_write, Client,
}
use clusterrouter.Controllers.Common.{ConfigMap, Secret, service_account_token}
use clusterrouter.Controllers.Volumes.{Claim}

-- The member cluster, and the objects in the master cluster's cache, which are changed in place.
pub record Copying {A : Type 0} (C : Client A) : Type 0 where
  pub api : C.State
  pub cached : Cache A

-- The rest of a loop goes on only without an error.
abbrev pub and_then :
    {S : Type 0} → S × Option ApiError → (S → S × Option ApiError) → S × Option ApiError
and_then (s, none) f = f s
and_then (s, some e) f = (s, some e)

-- What the code makes of an answer to a creation.
abbrev pub creation : {A : Type 0} → Answer A → Option ApiError
creation (ok a) = none
creation (err already_exists) = none
creation (err not_found) = some not_found
creation (err other) = some other

unfoldable pub sent_meta : ObjectMeta → ObjectMeta
sent_meta meta = set_object_global (trim_object_meta meta)

unfoldable pub sent_config_map : ConfigMap → ConfigMap
unfolding sent_meta
sent_config_map a = record a { meta = sent_meta a.meta }

unfoldable pub sent_claim : Claim → Claim
unfolding sent_meta
sent_claim a = record a { claim = record a.claim { meta = sent_meta a.claim.meta } }

module _ (C : Client ConfigMap) where
  -- One name of `createConfigMaps`, by the answers of the member cluster's lister and of the
  -- resource manager, which has the master cluster's object.
  unfoldable pub copy_config_map :
      Copying C → Key → Answer ConfigMap → Answer ConfigMap → Copying C × Option ApiError
  unfolding sent_config_map cache_write
  copy_config_map w k (ok _) found = (w, none)
  copy_config_map w k (err not_found) (err e) = (w, some other)
  copy_config_map w k (err not_found) (ok a) =
      let (s, answer) = C.create w.api (sent_config_map a) in
      (record { api = s; cached = cache_write k (sent_config_map a) w.cached }, creation answer)
  copy_config_map w k (err e) found = (w, some other)

  unfoldable pub create_config_maps :
      Cache ConfigMap → String → Copying C → List String → Copying C × Option ApiError
  unfolding copy_config_map
  create_config_maps listed ns w [] = (w, none)
  create_config_maps listed ns w (cm ∷ config_maps) =
      and_then (copy_config_map w (ns, cm) (listed (ns, cm)) (w.cached (ns, cm)))
        (λ w'. create_config_maps listed ns w' config_maps)

  -- `deleteConfigMaps`.
  unfoldable pub delete_config_maps : String → C.State → List String → C.State × Option ApiError
  delete_config_maps ns s [] = (s, none)
  delete_config_maps ns s (cm ∷ config_maps) =
      let (s', answer) = C.delete s (ns, cm) in
      and_then (s', failure_unless_gone answer) (λ t. delete_config_maps ns t config_maps)

module _ (C : Client Claim) where
  -- One name of `createPVCs`, by the answers of both clusters: a claim that the master cluster does
  -- not give is passed over.
  unfoldable pub copy_pvc : C.State → Answer Claim → Answer Claim → C.State × Option ApiError
  unfolding sent_claim
  copy_pvc s (ok _) found = (s, none)
  copy_pvc s (err not_found) (err e) = (s, none)
  copy_pvc s (err not_found) (ok a) =
      let (s', answer) = C.create s (sent_claim a) in (s', creation answer)
  copy_pvc s (err e) found = (s, some other)

  unfoldable pub create_pvcs :
      Cache Claim → String → C.State → List String → C.State × Option ApiError
  unfolding copy_pvc
  create_pvcs asked ns s [] = (s, none)
  create_pvcs asked ns s (pvc ∷ pvcs) =
      and_then (copy_pvc s (C.get s (ns, pvc)) (asked (ns, pvc))) (λ t. create_pvcs asked ns t pvcs)

-- A service account, with the names of its secrets.
pub record ServiceAccount : Type 0 where
  pub key : Key
  pub uid : String
  pub secrets : List String

abbrev pub service_account_name_key : String
service_account_name_key = "kubernetes.io/service-account.name"

abbrev pub service_account_uid_key : String
service_account_uid_key = "kubernetes.io/service-account.uid"

module _ (C : Client Secret) (D : Client ServiceAccount) where
  -- The member cluster's secrets and accounts, and the master cluster's secrets in the cache.
  pub record Secrets : Type 0 where
    pub api : C.State
    pub accounts : D.State
    pub cached : Cache Secret

  -- With the secret, which the code changes.
  abbrev Accounted : Type 0
  Accounted = (Secrets × Secret) × Option ApiError

  unfoldable pub of_account : Secret → ServiceAccount → String → Secret
  of_account secret sa account_name = record secret {
    meta = record secret.meta {
      uid = sa.uid;
      annotations =
          put_entry service_account_uid_key sa.uid
            (put_entry service_account_name_key account_name secret.meta.annotations);
    };
  }

  -- The end of `createServiceAccount`: a secret that cannot be created is only logged, but one that
  -- is there ends it.
  unfoldable pub secret_answered : Secrets → Secret → ServiceAccount → Answer Secret → Accounted
  secret_answered w secret sa (err already_exists) = ((w, secret), none)
  secret_answered w secret sa answer =
      let (t, updated) = D.update w.accounts (record sa { secrets = secret.key.1 ∷ [] }) in
      ((record w { accounts = t }, secret), failure updated)

  unfoldable pub with_account : Secrets → Secret → String → ServiceAccount → Accounted
  unfolding of_account secret_answered
  with_account w secret account_name sa =
      let (s, answer) = C.create w.api (of_account secret sa account_name) in
      secret_answered (record w { api = s }) (of_account secret sa account_name) sa answer

  unfoldable pub account_created :
      Secrets → Secret → String → D.State × Answer ServiceAccount → Accounted
  unfolding with_account
  account_created w secret account_name (t, ok sa) =
      with_account (record w { accounts = t }) secret account_name sa
  account_created w secret account_name (t, err already_exists) =
      ((record w { accounts = t }, secret), none)
  account_created w secret account_name (t, err e) = ((record w { accounts = t }, secret), some e)

  unfoldable pub account_fetched : Secrets → Secret → String → Answer ServiceAccount → Accounted
  unfolding with_account account_created
  account_fetched w secret account_name (ok sa) = with_account w secret account_name sa
  account_fetched w secret account_name (err e) =
      account_created w secret account_name (
        D.create w.accounts (record { key = (secret.key.0, account_name); uid = ""; secrets = [] }))

  unfoldable pub account_named : Secrets → Secret → String → Accounted
  unfolding account_fetched
  account_named w secret account_name =
      account_fetched w secret account_name (D.get w.accounts (secret.key.0, account_name))

  -- `createServiceAccount`, if it is enabled.
  unfoldable pub create_service_account : Bool → Secrets → Secret → Accounted
  unfolding account_named
  create_service_account false w secret = ((w, secret), none)
  create_service_account true w secret = elim secret.meta.annotations [
    | none ↦ ((w, secret), some other)
    | some _ ↦
        let named =
          account_named w secret (value_at service_account_name_key secret.meta.annotations) in
        if ite (text_dec (value_at service_account_name_key secret.meta.annotations) "") true false
        then ((w, secret), some other)
        else named
  ]

  unfoldable pub trimmed_secret : Secret → Secret
  trimmed_secret a = record a { meta = trim_object_meta a.meta }

  unfoldable pub marked_secret : Secret → Secret
  marked_secret a = record a { meta = set_object_global a.meta }

  -- The secret is marked and created, unless there was an error before.
  unfoldable pub create_marked : Key → Accounted → Secrets × Option ApiError
  unfolding marked_secret cache_write
  create_marked k ((w, secret), some e) =
      (record w { cached = cache_write k secret w.cached }, some e)
  create_marked k ((w, secret), none) =
      let (s, answer) = C.create w.api (marked_secret secret) in
      (
        record w { api = s; cached = cache_write k (marked_secret secret) w.cached },
        creation answer,
      )

  -- One name of `createSecrets`.
  unfoldable pub copy_secret :
      Bool → Secrets → Key → Answer Secret → Answer Secret → Secrets × Option ApiError
  unfolding create_service_account create_marked trimmed_secret
  copy_secret enabled w k (ok _) found = (w, none)
  copy_secret enabled w k (err not_found) (err e) = (w, some e)
  copy_secret enabled w k (err not_found) (ok a) =
      let accounted = create_service_account enabled w (trimmed_secret a) in
      create_marked k (
        if ite (text_dec a.secret_type service_account_token) true false
        then accounted
        else ((w, trimmed_secret a), none))
  copy_secret enabled w k (err e) found = (w, some e)

  unfoldable pub create_secrets :
      Bool → Cache Secret → String → Secrets → List String → Secrets × Option ApiError
  unfolding copy_secret
  create_secrets enabled listed ns w [] = (w, none)
  create_secrets enabled listed ns w (name ∷ secrets) =
      and_then (copy_secret enabled w (ns, name) (listed (ns, name)) (w.cached (ns, name)))
        (λ w'. create_secrets enabled listed ns w' secrets)
