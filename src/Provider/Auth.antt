-- ===== src/Provider/Auth.antt =====
-- pkg/plugins/virtualk8s/pod.go: `convertAuth`, which gives a pod a token of the master cluster. The
-- logs are left out; `none` is the panic at a nil pointer.
use Prim.Native.String.{◌++◌ as ◌<>◌}
use text.Mathlib.Text.{starts_with}
use clusterrouter.Base.{
  String, Bool, true, false, Option, none, some, List, [], ◌∷◌, ◌++◌, text_dec, ite, if◌then◌else◌,
}
use clusterrouter.Conversion.{ObjectMeta, trim_object_meta}
use clusterrouter.Controllers.Api.{
  Key, not_found, already_exists, other, Answer, ok, err, Cache, Client,
}
use clusterrouter.Controllers.Common.{ConfigMap, Secret}
use clusterrouter.Provider.Depends.{Projection, SourcedVolume}
use clusterrouter.Provider.Copies.{ServiceAccount}

abbrev pub root_ca_config_map_name : String
root_ca_config_map_name = "kube-root-ca.crt"

abbrev pub sa_token_prefix : String
sa_token_prefix = "kube-api-access"

abbrev pub master_root_ca_name : String
master_root_ca_name = "master-root-ca.crt"

abbrev pub blank_meta : ObjectMeta
blank_meta = record {
  uid = "";
  resource_version = "";
  self_link = "";
  owner_references = [];
  labels = none;
  annotations = none;
}

abbrev pub first_name : List String → String
first_name [] = ""
first_name (name ∷ names) = name

-- What the master cluster answers.
pub record MasterAuth : Type 0 where
  pub accounts : Cache ServiceAccount
  pub secrets : Cache Secret
  pub config_maps : Cache ConfigMap

-- The name of an object that was created, or none for an error; the client library answers with an
-- object without a name if one is there already.
abbrev pub made_name : {A : Type 0} → (A → Key) → Answer A → Option String
made_name key (ok a) = some (key a).1
made_name key (err already_exists) = some ""
made_name key (err not_found) = none
made_name key (err other) = none

module _ (D : Client ServiceAccount) (C : Client Secret) (M : Client ConfigMap) where
  -- The parts of the member cluster, and the result of a step: a name, or an error.
  pub record AuthState : Type 0 where
    pub accounts : D.State
    pub secrets : C.State
    pub config_maps : M.State

  -- `createSA`.
  unfoldable pub sa_fetched :
      AuthState → String → String → Answer ServiceAccount → AuthState × Option String
  sa_fetched w sa ns (ok a) = (w, some a.key.1)
  sa_fetched w sa ns (err not_found) =
      let (t, answer) = D.create w.accounts (record { key = (ns, sa); uid = ""; secrets = [] }) in
      (record w { accounts = t }, made_name (λ a. a.key) answer)
  sa_fetched w sa ns (err e) = (w, none)

  unfoldable pub create_sa : AuthState → String → String → AuthState × Option String
  unfolding sa_fetched
  create_sa w sa ns = sa_fetched w sa ns (D.get w.accounts (ns, sa))

  -- `createSAToken`: the token is that of the account's first secret in the master cluster, whose
  -- `token` entry alone is copied.
  unfoldable pub token_copied :
      (Secret → Option String) → AuthState → Key → Answer Secret → AuthState × Option String
  token_copied token_of w k (err e) = (w, none)
  token_copied token_of w k (ok a) =
      let (t, answer) = C.create w.secrets (record {
        key = k;
        meta = blank_meta;
        is_deleting = false;
        content = token_of a;
        string_content = none;
        secret_type = "";
      }) in
      (record w { secrets = t }, made_name (λ s. s.key) answer)

  unfoldable pub token_fetched :
      MasterAuth
      → (Secret → Option String)
      → AuthState
      → Key
      → String
      → Answer Secret
      → AuthState × Option String
  unfolding token_copied
  token_fetched master token_of w k secret_name (ok a) = (w, some a.key.1)
  token_fetched master token_of w k secret_name (err not_found) =
      token_copied token_of w k (master.secrets (k.0, secret_name))
  token_fetched master token_of w k secret_name (err e) = (w, none)

  unfoldable pub account_token :
      MasterAuth
      → (Secret → Option String)
      → AuthState
      → String
      → Answer ServiceAccount
      → AuthState × Option String
  unfolding token_fetched
  account_token master token_of w ns (err e) = (w, none)
  account_token master token_of w ns (ok sa) =
      let k : Key = (ns, "master-" <> sa.key.1 <> "-token") in
      token_fetched master token_of w k (first_name sa.secrets) (C.get w.secrets k)

  unfoldable pub create_sa_token :
      MasterAuth
      → (Secret → Option String)
      → AuthState
      → String
      → String
      → AuthState × Option String
  unfolding account_token
  create_sa_token master token_of w sa_name ns =
      account_token master token_of w ns (master.accounts (ns, sa_name))

  -- `createCA`.
  unfoldable pub ca_copied : AuthState → String → Answer ConfigMap → AuthState × Option String
  ca_copied w ns (err e) = (w, none)
  ca_copied w ns (ok ca) =
      let (t, answer) =
        M.create w.config_maps
          (record ca { key = (ca.key.0, master_root_ca_name); meta = trim_object_meta ca.meta }) in
      (record w { config_maps = t }, made_name (λ a. a.key) answer)

  unfoldable pub ca_fetched :
      MasterAuth → AuthState → String → Answer ConfigMap → AuthState × Option String
  unfolding ca_copied
  ca_fetched master w ns (ok a) = (w, some a.key.1)
  ca_fetched master w ns (err not_found) =
      ca_copied w ns (master.config_maps (ns, root_ca_config_map_name))
  ca_fetched master w ns (err e) = (w, none)

  unfoldable pub create_ca : MasterAuth → AuthState → String → AuthState × Option String
  unfolding ca_fetched
  create_ca master w ns = ca_fetched master w ns (M.get w.config_maps (ns, master_root_ca_name))

abbrev pub renamed : String → Option String → Option String
renamed root_ca none = none
renamed root_ca (some name) = some (ite (text_dec name root_ca_config_map_name) root_ca name)

-- The sources of one volume: the account's own token goes, the certificate is that of the master
-- cluster, and the token of the secret is added.
unfoldable pub converted : String → List Projection → List Projection
converted root_ca [] = []
converted root_ca (src ∷ sources) =
    let rest = converted root_ca sources in
    if src.is_token then rest else record src { config_map = renamed root_ca src.config_map } ∷ rest

abbrev pub token_projection : String → Projection
token_projection se = record {
  is_token = false;
  config_map = none;
  secret_token = some se;
  text = "";
}

unfoldable pub projected_as :
    String → String → SourcedVolume → Option (List Projection) → Option SourcedVolume
unfolding converted
projected_as root_ca se v none = none
projected_as root_ca se v (some sources) =
    some (record v { projected = some (converted root_ca sources ++ (token_projection se ∷ [])) })

unfoldable pub convert_volume : String → String → SourcedVolume → Option SourcedVolume
unfolding projected_as
convert_volume root_ca se v =
    if starts_with v.name sa_token_prefix then projected_as root_ca se v v.projected else some v

abbrev pub before : {A : Type 0} → Option A → Option (List A) → Option (List A)
before none xs = none
before (some x) none = none
before (some x) (some xs) = some (x ∷ xs)

unfoldable pub convert_volumes : String → String → List SourcedVolume → Option (List SourcedVolume)
unfolding convert_volume
convert_volumes root_ca se [] = some []
convert_volumes root_ca se (v ∷ volumes) =
    before (convert_volume root_ca se v) (convert_volumes root_ca se volumes)

module _ (D : Client ServiceAccount) (C : Client Secret) (M : Client ConfigMap) where
  -- `convertAuth`, for a pod that does not decline a token, step by step; an error ends it. The
  -- volumes, which the pod that is created shares, are the second result.
  unfoldable pub with_ca :
      List SourcedVolume
      → String
      → AuthState D C M × Option String
      → AuthState D C M × Option (List SourcedVolume)
  unfolding convert_volumes
  with_ca volumes se (w, none) = (w, some volumes)
  with_ca volumes se (w, some root_ca) = (w, convert_volumes root_ca se volumes)

  unfoldable pub with_token :
      MasterAuth
      → String
      → List SourcedVolume
      → AuthState D C M × Option String
      → AuthState D C M × Option (List SourcedVolume)
  unfolding with_ca create_ca
  with_token master ns volumes (w, none) = (w, some volumes)
  with_token master ns volumes (w, some se) = with_ca volumes se (create_ca D C M master w ns)

  unfoldable pub with_sa :
      MasterAuth
      → (Secret → Option String)
      → String
      → String
      → List SourcedVolume
      → AuthState D C M × Option String
      → AuthState D C M × Option (List SourcedVolume)
  unfolding with_token create_sa_token
  with_sa master token_of sa ns volumes (w, none) = (w, some volumes)
  with_sa master token_of sa ns volumes (w, some _) =
      with_token master ns volumes (create_sa_token D C M master token_of w sa ns)

  unfoldable pub convert_auth :
      MasterAuth
      → (Secret → Option String)
      → Option Bool
      → String
      → String
      → List SourcedVolume
      → AuthState D C M
      → AuthState D C M × Option (List SourcedVolume)
  unfolding with_sa create_sa
  convert_auth master token_of (some false) sa ns volumes w = (w, some volumes)
  convert_auth master token_of (some true) sa ns volumes w =
      with_sa master token_of sa ns volumes (create_sa D C M w sa ns)
  convert_auth master token_of none sa ns volumes w =
      with_sa master token_of sa ns volumes (create_sa D C M w sa ns)
