-- ===== src/Controllers/Tests.antt =====
-- Runs of the controllers of pkg/controllers, over clusters in memory, and the theorems at inputs.
use clusterrouter.Base.{
  ◌⊎◌, inl, String, ◌≡◌, ◌≢◌, refl, ap, false, Option, none, some, [], ◌∷◌, ite, text_dec,
  text_differs,
}
use clusterrouter.Base.{lookup}
use clusterrouter.Conversion.{ObjectMeta, is_object_global}
use clusterrouter.Controllers.Api.{
  Key, key_dec, not_found, ok, err, Cache, Client, forget, done, Keys,
}
use clusterrouter.Controllers.Common.{
  ConfigMap, config_map_kind, update_config_map, Member, sync_next, gc_objects,
}
use clusterrouter.Controllers.Synced.{sync_next-expected}
use clusterrouter.Controllers.Collected.{HasOrphan, gc_objects-stored}
use clusterrouter.Controllers.Memory.{keep, memory, put, memory-IsLawful, deleted_reliable}

abbrev plain_meta : ObjectMeta
plain_meta = record {
  uid = "";
  resource_version = "";
  self_link = "";
  owner_references = [];
  labels = none;
  annotations = none;
}

abbrev global_meta : ObjectMeta
global_meta = record plain_meta { annotations = some (("global", "true") ∷ []) }

abbrev settings_key : Key
settings_key = ("shop", "settings")

abbrev settings : String → ObjectMeta → ConfigMap
settings text meta = record {
  key = settings_key;
  meta = meta;
  is_deleting = false;
  content = some text;
  binary_content = none;
}

abbrev config_maps : Client ConfigMap
config_maps = memory config_map_kind keep

abbrev one_entry : {A : Type 0} → Key → A → Key → Option A
one_entry k a j = ite (key_dec k j) (some a) none

abbrev one_answer : {A : Type 0} → Key → A → Cache A
one_answer k a j = ite (key_dec k j) (ok a) (err not_found)

abbrev shop_keys : Keys
shop_keys = record {
  split = λ s. ite (text_dec s "shop/settings") (some settings_key) none;
  key_func = λ k. some "shop/settings";
}

abbrev member : ObjectMeta → Member config_maps
member meta = record {
  api = one_entry settings_key (settings "old" meta);
  cached = one_answer settings_key (settings "old" meta);
}

abbrev master : Cache ConfigMap
master = one_answer settings_key (settings "new" plain_meta)

different : settings_key ≢ ("shop", "other")
different e = text_differs "settings" "other" refl (ap (λ k. k.1) e)

write_keyed :
    (old a : ConfigMap) → config_map_kind.key (update_config_map old a) ≡ config_map_kind.key old
unfolding update_config_map
write_keyed old a = refl

sync_next-expected_example :
    let r =
      sync_next config_map_kind update_config_map config_maps shop_keys master
        (member plain_meta)
        (some "shop/settings") in
    (config_maps.stored r.0.api settings_key ≡ some (settings "new" plain_meta))
    × (config_maps.stored r.0.api ("shop", "other") ≡ none)
unfolding sync_next put update_config_map is_object_global key_dec text_dec lookup
sync_next-expected_example =
    sync_next-expected config_map_kind update_config_map config_maps shop_keys (member plain_meta)
      master "shop/settings" settings_key (memory-IsLawful config_map_kind keep) write_keyed refl
      (refl, refl) refl ("shop", "other") different

-- An object of the member cluster that is marked global is not sent, though the cache then has it.
global_unsent :
    let r =
      sync_next config_map_kind update_config_map config_maps shop_keys master
        (member global_meta)
        (some "shop/settings") in
    (config_maps.stored r.0.api settings_key ≡ some (settings "old" global_meta))
    × (r.0.cached settings_key ≡ ok (settings "new" global_meta))
    × (r.1 ≡ forget "shop/settings" ∷ done "shop/settings" ∷ [])
unfolding sync_next put update_config_map is_object_global key_dec text_dec lookup
global_unsent = (refl, refl, refl)

abbrev old_settings : ConfigMap
old_settings = settings "old" global_meta

gc_objects-stored_example :
    let gone =
      HasOrphan config_map_kind (λ k. err not_found) settings_key (some old_settings ∷ none ∷ []) in
    let after =
      config_maps.stored
        (gc_objects config_map_kind config_maps
          (λ k. err not_found)
          (one_entry settings_key old_settings)
          (ok (some old_settings ∷ none ∷ [])))
        settings_key in
    (gone × (after ≡ none)) ⊎ ((gone → ⊥) × (after ≡ some old_settings))
unfolding key_dec text_dec
gc_objects-stored_example =
    gc_objects-stored config_map_kind config_maps (λ k. err not_found)
      (memory-IsLawful config_map_kind keep)
      (λ s k. deleted_reliable config_map_kind keep s k (s k)) (one_entry settings_key old_settings)
      (ok (some old_settings ∷ none ∷ [])) settings_key

old_settings-HasOrphan :
    HasOrphan config_map_kind (λ k. err not_found) settings_key (some old_settings ∷ none ∷ [])
unfolding lookup text_dec
old_settings-HasOrphan = inl (((("global", "true") ∷ [], refl, refl), refl), refl)
