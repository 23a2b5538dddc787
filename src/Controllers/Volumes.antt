-- ===== src/Controllers/Volumes.antt =====
-- pkg/controllers/pv.go: claims of volumes, which go from the master cluster to a member cluster and
-- whose state comes back, and volumes, which come from a member cluster. The logs and the events are
-- left out. Where the code panics the result is `none`.
use clusterrouter.Base.{
  String, Bool, true, false, not, ◌&&◌, ◌||◌, Option, none, some, List, [], ◌∷◌, ◌++◌, text_dec,
  ite, if◌then◌else◌,
}
use clusterrouter.Conversion.{is_object_global, check_global_label_equal}
use clusterrouter.Conversion.Filters.{PersistentVolumeClaim, PersistentVolume, filter_pvc}
use clusterrouter.Controllers.Api.{
  Key, ApiError, not_found, other, Answer, ok, err, failure, failure_unless_gone, Cache, Client,
  Kind, QueueCall, add, add_rate_limited, forget, done, Keys, deferred,
}
use clusterrouter.Controllers.Common.{is_orphan}

-- A claim, with its resources, the rest of its specification and its state by their text.
pub record Claim : Type 0 where
  pub key : Key
  pub is_deleting : Bool
  pub claim : PersistentVolumeClaim
  pub resources : String
  pub rest : String

abbrev pub claim_kind : Kind Claim
claim_kind = record { key = λ a. a.key; meta = λ a. a.claim.meta; is_deleting = λ a. a.is_deleting }

-- The reference of a volume to its claim.
pub record ClaimRef : Type 0 where
  pub key : Key
  pub uid : String
  pub resource_version : String

pub record VolumeObject : Type 0 where
  pub name : String
  pub is_deleting : Bool
  pub is_bound : Bool
  pub volume : PersistentVolume
  pub claim_ref : Option ClaimRef
  pub rest : String

-- Volumes stand under the empty namespace.
abbrev pub volume_key : VolumeObject → Key
volume_key a = ("", a.name)

-- `shouldEnqueue`.
unfoldable pub should_copy : Key → Bool
should_copy k = ite (text_dec k.0 "kube-system") false (ite (text_dec k.1 "kubernetes") false true)

unfoldable pub should_en_upper_queue : Claim → Claim → Bool
should_en_upper_queue old new =
    ite (text_dec old.resources new.resources) false true || new.is_deleting

unfoldable pub enqueue_copy : Keys → Key → List QueueCall
unfolding should_copy
enqueue_copy N k =
    if should_copy k then elim (N.key_func k) [ none ↦ [] | some key ↦ add key ∷ [] ] else []

-- `pvcAdded`, `pvcInMasterUpdated` and `pvcInMasterDeleted` are alike; they differ in the queue.
unfoldable pub pvc_in_master_changed : Keys → Claim → List QueueCall
unfolding enqueue_copy
pvc_in_master_changed N a = enqueue_copy N a.key

unfoldable pub pvc_in_client_updated : Keys → Claim → List QueueCall
unfolding enqueue_copy is_object_global
pvc_in_client_updated N a = if is_object_global a.claim.meta then enqueue_copy N a.key else []

unfoldable pub pv_in_master_deleted : Keys → VolumeObject → List QueueCall
unfolding enqueue_copy
pv_in_master_deleted N a = enqueue_copy N (volume_key a)

-- The fields that the code compares are equal, and the patch, if one is made.
pub record Patching (A : Type 0) : Type 0 where
  pub same : A → A → Bool
  pub merge_patch : A → A → Option String

-- The calls of a handler on its queue, with its error and whether it came to its end.
unfoldable pub handler_calls : String → Option ApiError → Bool → List QueueCall
handler_calls key (some e) at_end = add_rate_limited key ∷ []
handler_calls key none true = forget key ∷ []
handler_calls key none false = []

module _ (G : Patching Claim) (C : Client Claim) where
  unfoldable pub send_claim_patch : C.State → Claim → Option String → C.State × Option ApiError
  send_claim_patch s pvc none = (s, some other)
  send_claim_patch s pvc (some patch) =
      let (s', answer) = C.patch s pvc.key patch in (s', failure answer)

  -- `patchPVC`.
  unfoldable pub patch_pvc : C.State → Claim → Claim → Bool → C.State × Option ApiError
  unfolding send_claim_patch check_global_label_equal
  patch_pvc s pvc clone update_to_master =
      let sent = send_claim_patch s pvc (G.merge_patch pvc clone) in
      if G.same pvc clone
      then (s, none)
      else if not (check_global_label_equal pvc.claim.meta clone.claim.meta) && not update_to_master
      then (s, none)
      else sent

  unfoldable pub delete_claim : C.State → Key → C.State × Option ApiError
  delete_claim s k = let (s', answer) = C.delete s k in (s', failure_unless_gone answer)

  -- A claim that the master cluster does not have.
  unfoldable pub claim_missing : C.State → Key → Answer Claim → C.State × Option ApiError
  unfolding delete_claim
  claim_missing s k (err not_found) = (s, none)
  claim_missing s k (err e) = (s, some e)
  claim_missing s k (ok _) = delete_claim s k

  -- One that it has: here it is an error that the member cluster does not have it.
  unfoldable pub claim_present : C.State → Claim → Answer Claim → C.State × Option ApiError
  unfolding patch_pvc
  claim_present s pvc (err e) = (s, some e)
  claim_present s pvc (ok old) = patch_pvc s old pvc false

  unfoldable pub claim_fetched :
      C.State → Key → Answer Claim → Answer Claim → C.State × Option ApiError
  unfolding claim_missing claim_present delete_claim
  claim_fetched s k in_client (err not_found) = claim_missing s k in_client
  claim_fetched s k in_client (err e) = (s, some e)
  claim_fetched s k in_client (ok pvc) =
      if pvc.is_deleting then delete_claim s k else claim_present s pvc in_client

  unfoldable pub claim_split :
      Cache Claim → Cache Claim → C.State → String → Option Key → C.State × List QueueCall
  unfolding claim_fetched deferred
  claim_split master cached s key none = (s, forget key ∷ done key ∷ [])
  claim_split master cached s key (some k) =
      let (s', e) = claim_fetched s k (cached k) (master k) in
      (s', deferred key e ++ (done key ∷ []))

  -- `syncPVCFromMaster`, for what `Get` of the queue returned.
  unfoldable pub sync_pvc_from_master :
      Keys → Cache Claim → Cache Claim → C.State → Option String → C.State × List QueueCall
  unfolding claim_split
  sync_pvc_from_master N master cached s none = (s, [])
  sync_pvc_from_master N master cached s (some key) = claim_split master cached s key (N.split key)

  -- The state of a claim goes back: here the client is that of the master cluster. The
  -- copy is prepared by `filterPVC`, with the version of the claim in the master cluster.
  unfoldable pub claim_filtered :
      C.State → Claim → Claim → Option PersistentVolumeClaim → C.State × Option ApiError
  unfolding patch_pvc
  claim_filtered s in_master pvc none = (s, some other)
  claim_filtered s in_master pvc (some c) =
      patch_pvc s in_master
        (record pvc {
          claim = record c {
            meta = record c.meta { resource_version = in_master.claim.meta.resource_version };
          };
        })
        true

  -- With whether the handler comes to its end, which forgets the key.
  unfoldable pub status_handled :
      (String → Option String)
      → String
      → C.State
      → Claim
      → Answer Claim
      → (C.State × Option ApiError) × Bool
  unfolding claim_filtered filter_pvc
  status_handled marshal host_ip s pvc (err not_found) = ((s, none), false)
  status_handled marshal host_ip s pvc (err e) = ((s, some e), false)
  status_handled marshal host_ip s pvc (ok in_master) =
      (claim_filtered s in_master pvc (filter_pvc marshal pvc.claim host_ip), true)

  -- `syncPVCStatusHandler`.
  unfoldable pub sync_pvc_status_handler :
      (String → Option String)
      → String
      → Keys
      → Cache Claim
      → C.State
      → Claim
      → C.State × List QueueCall
  unfolding status_handled handler_calls
  sync_pvc_status_handler marshal host_ip N master s pvc = elim (N.key_func pvc.key) [
    | none ↦ (s, [])
    | some key ↦
        let ((s', e), at_end) = status_handled marshal host_ip s pvc (master pvc.key) in
        (s', handler_calls key e at_end)
  ]

  unfoldable pub status_split :
      (String → Option String)
      → String
      → Keys
      → Cache Claim
      → C.State
      → String
      → Answer Claim
      → C.State × List QueueCall
  unfolding sync_pvc_status_handler
  status_split marshal host_ip N master s key (err not_found) = (s, forget key ∷ done key ∷ [])
  status_split marshal host_ip N master s key (err e) = (s, add_rate_limited key ∷ done key ∷ [])
  status_split marshal host_ip N master s key (ok pvc) =
      let (s', calls) = sync_pvc_status_handler marshal host_ip N master s pvc in
      (s', calls ++ (forget key ∷ done key ∷ []))

  -- `syncPVCStatusFromClient`.
  unfoldable pub sync_pvc_status_from_client :
      (String → Option String)
      → String
      → Keys
      → Cache Claim
      → Cache Claim
      → C.State
      → Option String
      → C.State × List QueueCall
  unfolding status_split
  sync_pvc_status_from_client marshal host_ip N master cached s none = (s, [])
  sync_pvc_status_from_client marshal host_ip N master cached s (some key) = elim (N.split key) [
    | none ↦ (s, forget key ∷ done key ∷ [])
    | some k ↦ status_split marshal host_ip N master s key (cached k)
  ]

  -- The loop of `gc`, over the claims of the member cluster's lister, a nil claim being `none`.
  unfoldable pub collect_claims : Cache Claim → C.State → List (Option Claim) → C.State
  unfolding is_orphan
  collect_claims master s [] = s
  collect_claims master s (none ∷ pvcs) = collect_claims master s pvcs
  collect_claims master s (some a ∷ pvcs) =
      collect_claims master (if is_orphan claim_kind master a then (C.delete s a.key).0 else s) pvcs

  unfoldable pub gc_claims : Cache Claim → C.State → Answer (List (Option Claim)) → C.State
  unfolding collect_claims
  gc_claims master s (err e) = s
  gc_claims master s (ok pvcs) = collect_claims master s pvcs
