-- ===== src/Controllers/Persistent.antt =====
-- pkg/controllers/pv.go: the volumes that come from a member cluster. Where the code panics, at a
-- nil pointer, the result is `none`.
use clusterrouter.Base.{
  String, Bool, true, false, Option, none, some, List, [], ◌∷◌, ◌++◌, if◌then◌else◌,
}
use clusterrouter.Conversion.{or_no_entries, is_object_global, set_object_global}
use clusterrouter.Conversion.Filters.{filter_pv}
use clusterrouter.Controllers.Api.{
  Key, ApiError, not_found, other, Answer, ok, err, failure, failure_unless_gone, Cache,
  cache_write, Client, QueueCall, add_rate_limited, forget, done, Keys, deferred,
}
use clusterrouter.Controllers.Volumes.{
  Claim, ClaimRef, VolumeObject, volume_key, Patching, enqueue_copy, handler_calls,
}

module _ (G : Patching VolumeObject) (C : Client VolumeObject) where
  unfoldable pub send_volume_patch :
      C.State → VolumeObject → Option String → C.State × Answer VolumeObject
  send_volume_patch s pv none = (s, err other)
  send_volume_patch s pv (some patch) = C.patch s (volume_key pv) patch

  -- The volume that is sent keeps the affinity, the identity and the version of the one there.
  unfoldable pub aligned : VolumeObject → VolumeObject → VolumeObject
  aligned pv clone = record clone {
    volume = record clone.volume {
      node_affinity = pv.volume.node_affinity;
      meta = record clone.volume.meta {
        uid = pv.volume.meta.uid;
        resource_version = pv.volume.meta.resource_version;
      };
    };
  }

  -- `patchPV`, with the volume that it returns.
  unfoldable pub patch_pv : C.State → VolumeObject → VolumeObject → C.State × Answer VolumeObject
  unfolding send_volume_patch aligned
  patch_pv s pv clone =
      if G.same pv clone
      then (s, ok pv)
      else send_volume_patch s pv (G.merge_patch pv (aligned pv clone))

  -- `trySetAnnotation`, on the member cluster: a volume that is bound to a global claim is marked.
  unfoldable pub marked : VolumeObject → VolumeObject
  unfolding set_object_global
  marked pv = record pv {
    volume = record pv.volume {
      meta =
          set_object_global (record pv.volume.meta {
            annotations = some (or_no_entries pv.volume.meta.annotations);
          });
    };
  }

  unfoldable pub mark_claimed : C.State → VolumeObject → Answer Claim → C.State × Option ApiError
  unfolding patch_pv marked is_object_global
  mark_claimed s pv (err e) = (s, some e)
  mark_claimed s pv (ok pvc) =
      let (s', answer) = patch_pv s pv (marked pv) in
      if is_object_global pvc.claim.meta then (s', failure answer) else (s, none)

  unfoldable pub mark_bound :
      Cache Claim → C.State → VolumeObject → Option ClaimRef → Option (C.State × Option ApiError)
  unfolding mark_claimed
  mark_bound claims s pv none = none
  mark_bound claims s pv (some ref) = some (mark_claimed s pv (claims ref.key))

  unfoldable pub try_set_annotation :
      Cache Claim → C.State → VolumeObject → Option (C.State × Option ApiError)
  unfolding mark_bound
  try_set_annotation claims s pv =
      if pv.is_bound then mark_bound claims s pv pv.claim_ref else some (s, none)

  -- `pvInClientAdded` and `pvInClientUpdated`: whether the volume is global is read before it is
  -- marked.
  unfoldable pub pv_in_client_changed :
      Keys → Cache Claim → C.State → VolumeObject → Option (C.State × List QueueCall)
  unfolding try_set_annotation enqueue_copy is_object_global
  pv_in_client_changed N claims s pv = elim (try_set_annotation claims s pv) [
    | none ↦ none
    | some (s', some e) ↦ some (s', [])
    | some (s', none) ↦
        some (s', if is_object_global pv.volume.meta then enqueue_copy N (volume_key pv) else [])
  ]

  unfoldable pub delete_volume : C.State → Key → C.State × Option ApiError
  delete_volume s k = let (s', answer) = C.delete s k in (s', failure_unless_gone answer)

  -- `syncPVFromMaster`: what the master cluster answers where its lister has no volume. The volume
  -- that it answers with is not kept, so the code goes on with a nil pointer.
  unfoldable pub volume_asked :
      C.State → Key → Answer VolumeObject → Option (C.State × Option ApiError)
  unfolding delete_volume
  volume_asked s k (ok _) = none
  volume_asked s k (err not_found) = some (delete_volume s k)
  volume_asked s k (err e) = some (s, some e)

  unfoldable pub volume_listed :
      C.State → Key → Answer VolumeObject → Answer VolumeObject → Option (C.State × Option ApiError)
  unfolding volume_asked delete_volume
  volume_listed s k asked (err not_found) = volume_asked s k asked
  volume_listed s k asked (err e) = some (s, some e)
  volume_listed s k asked (ok pv) = some (if pv.is_deleting then delete_volume s k else (s, none))

  unfoldable pub with_calls :
      String → Option (C.State × Option ApiError) → Option (C.State × List QueueCall)
  unfolding deferred
  with_calls key none = none
  with_calls key (some (s, e)) = some (s, deferred key e ++ (done key ∷ []))

  -- For what `Get` of the queue returned: the key is the name.
  unfoldable pub sync_pv_from_master :
      Cache VolumeObject
      → Cache VolumeObject
      → C.State
      → Option String
      → Option (C.State × List QueueCall)
  unfolding volume_listed with_calls
  sync_pv_from_master listed asked s none = some (s, [])
  sync_pv_from_master listed asked s (some name) =
      with_calls name (volume_listed s ("", name) (asked ("", name)) (listed ("", name)))

-- The master cluster's volumes and the cache that its lister reads.
pub record Upper (C : Client VolumeObject) : Type 0 where
  pub api : C.State
  pub cached : Cache VolumeObject

module _ (G : Patching VolumeObject) (C : Client VolumeObject) (host_ip : String) where
  unfoldable pub claimed : VolumeObject → ClaimRef → Claim → VolumeObject
  claimed pv ref pvc = record pv {
    claim_ref = some (record ref {
      uid = pvc.claim.meta.uid;
      resource_version = pvc.claim.meta.resource_version;
    });
  }

  unfoldable pub filtered : VolumeObject → VolumeObject
  unfolding filter_pv
  filtered pv = record pv { volume = filter_pv pv.volume host_ip }

  -- A volume that the master cluster does not have is created, with the claim there.
  unfoldable pub create_claimed :
      Upper C → VolumeObject → ClaimRef → Answer Claim → Upper C × Option ApiError
  unfolding filtered claimed
  create_claimed w pv ref (err e) = (w, some e)
  create_claimed w pv ref (ok pvc) =
      let (s, answer) = C.create w.api (claimed (filtered pv) ref pvc) in
      (record w { api = s }, failure answer)

  -- The test for a claim holds in either case here, as both volumes have the same.
  unfoldable pub create_volume :
      Cache Claim → Upper C → VolumeObject → Option ClaimRef → Option (Upper C × Option ApiError)
  unfolding create_claimed
  create_volume claims w pv none = none
  create_volume claims w pv (some ref) = some (create_claimed w pv ref (claims ref.key))

  unfoldable pub send_state : Upper C → VolumeObject → VolumeObject → Upper C × Option ApiError
  unfolding patch_pv
  send_state w in_master copy =
      let (s, answer) = patch_pv G C w.api in_master copy in (record w { api = s }, failure answer)

  unfoldable pub update_claimed :
      Upper C → VolumeObject → VolumeObject → ClaimRef → Answer Claim → Upper C × Option ApiError
  unfolding send_state claimed
  update_claimed w in_master pv ref (err e) = (w, some e)
  update_claimed w in_master pv ref (ok pvc) = send_state w in_master (claimed pv ref pvc)

  unfoldable pub update_volume :
      Cache Claim
      → Upper C
      → VolumeObject
      → VolumeObject
      → Option ClaimRef
      → Option ClaimRef
      → Option (Upper C × Option ApiError)
  unfolding update_claimed send_state
  update_volume claims w in_master pv (some ref) there =
      some (update_claimed w in_master pv ref (claims ref.key))
  update_volume claims w in_master pv none none = none
  update_volume claims w in_master pv none (some there) = some (send_state w in_master pv)

  -- What the master cluster's lister answered; its volume is changed in place. The last result is
  -- whether the handler comes to its end after an update, which forgets the key.
  unfoldable pub volume_status :
      Cache Claim
      → Upper C
      → VolumeObject
      → Answer VolumeObject
      → Option (Upper C × Option ApiError) × Bool
  unfolding create_volume update_volume filtered cache_write
  volume_status claims w pv (err not_found) = (create_volume claims w pv pv.claim_ref, false)
  volume_status claims w pv (err e) = (some (w, some e), false)
  volume_status claims w pv (ok in_master) = (
    update_volume claims
        (record w { cached = cache_write (volume_key pv) (filtered in_master) w.cached })
        (filtered in_master) pv pv.claim_ref in_master.claim_ref,
    true,
  )

  -- `syncPVStatusHandler`.
  unfoldable pub status_calls :
      String → Option (Upper C × Option ApiError) × Bool → Option (Upper C × List QueueCall)
  unfolding handler_calls
  status_calls key (none, at_end) = none
  status_calls key (some (w, e), at_end) = some (w, handler_calls key e at_end)

  unfoldable pub sync_pv_status_handler :
      Keys → Cache Claim → Upper C → VolumeObject → Option (Upper C × List QueueCall)
  unfolding volume_status status_calls
  sync_pv_status_handler N claims w pv = elim (N.key_func (volume_key pv)) [
    | none ↦ some (w, [])
    | some key ↦ status_calls key (volume_status claims w pv (w.cached (volume_key pv)))
  ]

  unfoldable pub delete_upper : Upper C → String → Upper C × List QueueCall
  unfolding deferred
  delete_upper w name =
      let (s, answer) = C.delete w.api ("", name) in
      (record w { api = s }, deferred name (failure_unless_gone answer) ++ (done name ∷ []))

  unfoldable pub after_handler :
      String → Option (Upper C × List QueueCall) → Option (Upper C × List QueueCall)
  after_handler name none = none
  after_handler name (some (w, calls)) = some (w, calls ++ (forget name ∷ done name ∷ []))

  unfoldable pub status_from_client :
      Keys
      → Cache Claim
      → Upper C
      → String
      → Answer VolumeObject
      → Option (Upper C × List QueueCall)
  unfolding delete_upper after_handler sync_pv_status_handler
  status_from_client N claims w name (err not_found) = some (delete_upper w name)
  status_from_client N claims w name (err e) = some (w, add_rate_limited name ∷ done name ∷ [])
  status_from_client N claims w name (ok pv) =
      if pv.is_deleting
      then some (delete_upper w name)
      else after_handler name (sync_pv_status_handler N claims w pv)

  -- `syncPVStatusFromClient`, for what `Get` of the queue returned: the key is the name.
  unfoldable pub sync_pv_status_from_client :
      Keys
      → Cache Claim
      → Cache VolumeObject
      → Upper C
      → Option String
      → Option (Upper C × List QueueCall)
  unfolding status_from_client
  sync_pv_status_from_client N claims listed w none = some (w, [])
  sync_pv_status_from_client N claims listed w (some name) =
      status_from_client N claims w name (listed ("", name))
