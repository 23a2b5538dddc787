-- ===== src/Provider/Depends.antt =====
-- pkg/plugins/virtualk8s/help.go: the names of the objects that a pod depends on. The logs are left
-- out; `none` is the panic at a nil pointer.
use text.Mathlib.Text.{starts_with}
use clusterrouter.Base.{String, Bool, Option, none, some, List, [], ◌∷◌, ◌++◌, if◌then◌else◌}

-- A source of a projected volume: the token of the service account, or the name of a config map or
-- of a secret whose token it shows, or another by its text.
pub record Projection : Type 0 where
  pub is_token : Bool
  pub config_map : Option String
  pub secret_token : Option String
  pub text : String

-- A volume, with the sources that the code looks at. The references of the three that follow the
-- secret may be nil themselves.
pub record SourcedVolume : Type 0 where
  pub name : String
  pub secret : Option String
  pub ceph_fs : Option (Option String)
  pub cinder : Option (Option String)
  pub rbd : Option (Option String)
  pub config_map : Option String
  pub persistent_volume_claim : Option String
  pub projected : Option (List Projection)

abbrev pub named : Option String → Option (List String)
named none = none
named (some name) = some (name ∷ [])

-- The cases of `getSecrets` for one volume.
unfoldable pub secret_names_of :
    Bool
    → Option String
    → Option (Option String)
    → Option (Option String)
    → Option (Option String)
    → Option (List String)
secret_names_of is_default (some name) ceph_fs cinder rbd =
    some (if is_default then [] else name ∷ [])
secret_names_of is_default none (some ref) cinder rbd = named ref
secret_names_of is_default none none (some ref) rbd = named ref
secret_names_of is_default none none none (some ref) = named ref
secret_names_of is_default none none none none = some []

unfoldable pub volume_secrets : SourcedVolume → Option (List String)
unfolding secret_names_of
volume_secrets v =
    secret_names_of (starts_with v.name "default-token") v.secret v.ceph_fs v.cinder v.rbd

abbrev pub joined : Option (List String) → Option (List String) → Option (List String)
joined none ys = none
joined (some xs) none = none
joined (some xs) (some ys) = some (xs ++ ys)

unfoldable pub volumes_secrets : List SourcedVolume → Option (List String)
unfolding volume_secrets
volumes_secrets [] = some []
volumes_secrets (v ∷ volumes) = joined (volume_secrets v) (volumes_secrets volumes)

-- `getSecrets`, with the names of the secrets for pulling images.
unfoldable pub get_secrets : List SourcedVolume → List String → Option (List String)
unfolding volumes_secrets
get_secrets volumes image_pull_secrets = joined (volumes_secrets volumes) (some image_pull_secrets)

abbrev pub put_name : Option String → List String → List String
put_name none names = names
put_name (some name) names = name ∷ names

-- `getConfigmaps` and `getPVCs`.
unfoldable pub get_configmaps : List SourcedVolume → List String
get_configmaps [] = []
get_configmaps (v ∷ volumes) = put_name v.config_map (get_configmaps volumes)

unfoldable pub get_pvcs : List SourcedVolume → List String
get_pvcs [] = []
get_pvcs (v ∷ volumes) = put_name v.persistent_volume_claim (get_pvcs volumes)
