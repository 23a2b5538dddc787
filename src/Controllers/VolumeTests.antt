-- ===== src/Controllers/VolumeTests.antt =====
-- Where the routines for volumes panic, at inputs.
use clusterrouter.Base.{◌≡◌, ◌↔◌, refl, false, none, some, []}
use clusterrouter.Conversion.{ObjectMeta}
use clusterrouter.Controllers.Api.{not_found, ok, err, Cache, Client, Keys}
use clusterrouter.Controllers.Memory.{keep, memory}
use clusterrouter.Controllers.Volumes.{VolumeObject, volume_key, Patching}
use clusterrouter.Controllers.Persistent.{Upper, sync_pv_from_master, sync_pv_status_from_client}
use clusterrouter.Controllers.Unclaimed.{
  IsStale, IsUnclaimed, sync_pv_from_master-panics, sync_pv_status_from_client-panics,
}

abbrev plain_meta : ObjectMeta
plain_meta = record {
  uid = "";
  resource_version = "";
  self_link = "";
  owner_references = [];
  labels = none;
  annotations = none;
}

abbrev disk : VolumeObject
disk = record {
  name = "disk";
  is_deleting = false;
  is_bound = false;
  volume = record { meta = plain_meta; node_affinity = none };
  claim_ref = none;
  rest = "";
}

abbrev volumes : Client VolumeObject
volumes =
    memory
      (record { key = volume_key; meta = λ a. a.volume.meta; is_deleting = λ a. a.is_deleting })
      keep

abbrev patching : Patching VolumeObject
patching = record { same = λ a b. false; merge_patch = λ a b. none }

abbrev volume_keys : Keys
volume_keys = record { split = λ s. some ("", s); key_func = λ k. some k.1 }

abbrev stale : Cache VolumeObject
stale k = err not_found

abbrev fresh : Cache VolumeObject
fresh k = ok disk

abbrev master_side : Upper volumes
master_side = record { api = λ k. none; cached = stale }

sync_pv_from_master-panics_example :
    (sync_pv_from_master patching volumes stale fresh (λ k. none) (some "disk") ≡ none)
    ↔ IsStale patching volumes (err not_found) (ok disk)
sync_pv_from_master-panics_example =
    sync_pv_from_master-panics patching volumes stale fresh (λ k. none) "disk"

sync_pv_status_from_client-panics_example :
    (sync_pv_status_from_client patching volumes "10.0.0.1" volume_keys
        (λ k. err not_found)
        fresh
        master_side
        (some "disk")
      ≡ none)
    ↔ IsUnclaimed patching volumes "10.0.0.1" none (err not_found)
sync_pv_status_from_client-panics_example =
    sync_pv_status_from_client-panics patching volumes "10.0.0.1" volume_keys (λ k. err not_found)
      fresh master_side "disk" "disk" disk refl refl refl
