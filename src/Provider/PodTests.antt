-- ===== src/Provider/PodTests.antt =====
-- The dependents and the creation of pods, at inputs, with clusters in memory.
use clusterrouter.Base.{
  String, ◌≡◌, ◌≢◌, ◌↔◌, refl, sym, ap, false, Option, none, some, [], ◌∷◌, All, text_dec, ite, ◌∙◌,
}
use clusterrouter.Conversion.Samples.{pod, json}
use clusterrouter.Controllers.Api.{Key, key_dec, not_found, Answer, ok, err, Cache, Client}
use clusterrouter.Controllers.Common.{ConfigMap, Secret, config_map_kind, secret_kind}
use clusterrouter.Controllers.Memory.{keep, created, memory, put, put_same, put_others}
use clusterrouter.Provider.Depends.{SourcedVolume, get_secrets}
use clusterrouter.Provider.Copies.{Copying, create_config_maps, ServiceAccount}
use clusterrouter.Provider.Auth.{blank_meta}
use clusterrouter.Provider.Pods.{RunPod, PodSources, Lower}
use clusterrouter.Provider.Present.{
  KeepsCreated, IsPresent, create_config_maps-IsPresent, SomeLacks, get_secrets-panics,
}

abbrev disk : SourcedVolume
disk = record {
  name = "disk";
  secret = none;
  ceph_fs = none;
  cinder = some none;
  rbd = none;
  config_map = some "settings";
  persistent_volume_claim = none;
  projected = none;
}

get_secrets-panics_example : (get_secrets (disk ∷ []) ("pull" ∷ []) ≡ none) ↔ SomeLacks (disk ∷ [])
get_secrets-panics_example = get_secrets-panics (disk ∷ []) ("pull" ∷ [])

abbrev config_maps : Client ConfigMap
config_maps = memory config_map_kind keep

abbrev State : Type 0
State = Key → Option ConfigMap

some_there : (s : State) (k : Key) (a : ConfigMap) → s k ≡ some a → s k ≢ none
some_there s k a e n = cc

there :
    (s : State) (a : ConfigMap) (o : Option ConfigMap)
    → s a.key ≡ o
    → (created config_map_kind keep s a o).0 a.key ≢ none
there s a none e =
    some_there (put config_map_kind keep a.key (some a) s) a.key a
      (put_same config_map_kind keep a.key (some a) s)
there s a (some b) e = some_there s a.key b e

kept :
    (s : State) (a : ConfigMap) (k : Key) (o : Option ConfigMap)
    → s k ≢ none
    → (created config_map_kind keep s a o).0 k ≢ none
kept s a k none n = elim (key_dec a.key k) [
  | yes e ↦ λ h. n (
      absurd (
        some_there (put config_map_kind keep a.key (some a) s) a.key a
          (put_same config_map_kind keep a.key (some a) s)
          (ap (put config_map_kind keep a.key (some a) s) e ∙ h)))
  | no d ↦ λ h. n (sym (put_others config_map_kind keep a.key k (some a) s d) ∙ h)
]
kept s a k (some b) n = n

config_maps-Keep : KeepsCreated config_maps
config_maps-Keep = record {
  created_there = λ s a h. there s a (s a.key) refl;
  create_keeps = λ s a k n. kept s a k (s a.key) n;
}

abbrev settings : ConfigMap
settings = record {
  key = ("shop", "settings");
  meta = blank_meta;
  is_deleting = false;
  content = some "x";
  binary_content = none;
}

abbrev in_master : Cache ConfigMap
in_master k = ite (key_dec ("shop", "settings") k) (ok settings) (err not_found)

abbrev key_of : Key → Answer ConfigMap → Key
key_of k (ok b) = b.key
key_of k (err e) = k

decided-Named :
    (k : Key) (a : ConfigMap) (d : Dec (("shop", "settings") ≡ k))
    → ite d (ok settings) (err not_found) ≡ ok a
    → a.key ≡ k
decided-Named k a (yes e) h = sym (ap (key_of k) h) ∙ e
decided-Named k a (no n) h = cc

in_master-Named : (k : Key) (a : ConfigMap) → in_master k ≡ ok a → a.key ≡ k
in_master-Named k a = decided-Named k a (key_dec ("shop", "settings") k)

abbrev nothing_copied : Copying config_maps
nothing_copied = record { api = λ k. none; cached = in_master }

abbrev not_listed : {A : Type 0} → Cache A
not_listed k = err not_found

create_config_maps-IsPresent_example :
    All
      (IsPresent config_maps config_maps-Keep not_listed "shop"
        (create_config_maps config_maps not_listed "shop" nothing_copied ("settings" ∷ [])).0.api)
      ("settings" ∷ [])
unfolding create_config_maps key_dec text_dec
create_config_maps-IsPresent_example =
    create_config_maps-IsPresent config_maps config_maps-Keep not_listed "shop" ("settings" ∷ [])
      nothing_copied in_master-Named refl

abbrev names : Client String
names =
    memory (record { key = λ n. ("", n); meta = λ n. blank_meta; is_deleting = λ n. false }) keep

abbrev secrets : Client Secret
secrets = memory secret_kind keep

abbrev accounts : Client ServiceAccount
accounts =
    memory (record { key = λ a. a.key; meta = λ a. blank_meta; is_deleting = λ a. false }) keep

abbrev pods : Client RunPod
pods = memory (record { key = λ p. p.key; meta = λ p. p.pod.meta; is_deleting = λ p. false }) keep

abbrev web : RunPod
web = record {
  key = ("shop", "web");
  pod = pod;
  sources = [];
  image_pull_secrets = [];
  automount = none;
  service_account = "default";
  grace_period = none;
}

abbrev sources : PodSources
sources = record {
  namespaces = not_listed;
  secrets = not_listed;
  pods = not_listed;
  master = record { accounts = not_listed; secrets = not_listed; config_maps = not_listed };
}

-- The namespace is there, but the lister has not seen it yet.
abbrev member_side : Lower json names secrets accounts config_maps pods
member_side = record {
  namespaces = λ k. some "shop";
  secrets = record { api = λ k. none; accounts = λ k. none; cached = not_listed };
  config_maps = λ k. none;
  pods = λ k. none;
}
