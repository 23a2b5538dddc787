-- ===== src/Controllers/Unclaimed.antt =====
-- pkg/controllers/pv.go: where the routines for volumes panic.
use clusterrouter.Base.{String, ◌≡◌, ◌↔◌, refl, Bool, false, Option, none, some}
use clusterrouter.Controllers.Api.{
  Key, ApiError, not_found, already_exists, other, Answer, ok, err, Cache, cache_write, Client,
  Keys,
}
use clusterrouter.Controllers.Volumes.{Claim, ClaimRef, VolumeObject, volume_key, Patching}
use clusterrouter.Controllers.Persistent.{
  volume_asked, volume_listed, with_calls, sync_pv_from_master, Upper, filtered, create_volume,
  update_volume, volume_status, status_calls, sync_pv_status_handler, after_handler,
  status_from_client, sync_pv_status_from_client,
}

module _ (G : Patching VolumeObject) (C : Client VolumeObject) where
  -- The lister of the master cluster has no volume and the cluster itself has one.
  abbrev pub IsStale : Answer VolumeObject → Answer VolumeObject → Type 0
  IsStale listed asked = (listed ≡ err not_found) × ((a : VolumeObject) × (asked ≡ ok a))

  listed-panics :
      (s : C.State) (k : Key) (listed asked : Answer VolumeObject) (key : String)
      → (with_calls G C key (volume_listed G C s k asked listed) ≡ none) ↔ IsStale listed asked
  unfolding volume_listed volume_asked with_calls
  listed-panics s k (err not_found) (ok a) key = (λ h. (refl, (a, refl)), λ h. refl)
  listed-panics s k (err not_found) (err not_found) key = (λ h. cc, λ h. cc (h.1.1))
  listed-panics s k (err not_found) (err already_exists) key = (λ h. cc, λ h. cc (h.1.1))
  listed-panics s k (err not_found) (err other) key = (λ h. cc, λ h. cc (h.1.1))
  listed-panics s k (err already_exists) asked key = (λ h. cc, λ h. cc (h.0))
  listed-panics s k (err other) asked key = (λ h. cc, λ h. cc (h.0))
  listed-panics s k (ok pv) asked key = (λ h. cc, λ h. cc (h.0))

  -- The routine for a volume of the master cluster panics exactly if the master cluster's lister
  -- does not find the volume and the master cluster itself does.
  pub sync_pv_from_master-panics :
      (listed asked : Cache VolumeObject) (s : C.State) (name : String)
      → (sync_pv_from_master G C listed asked s (some name) ≡ none)
        ↔ IsStale (listed ("", name)) (asked ("", name))
  unfolding sync_pv_from_master
  sync_pv_from_master-panics listed asked s name =
      listed-panics s ("", name) (listed ("", name)) (asked ("", name)) name

module _ (G : Patching VolumeObject) (C : Client VolumeObject) (host_ip : String) where
  -- The volume has no claim, and neither has the one that the master cluster's lister has, if any.
  abbrev pub IsUnclaimed : Option ClaimRef → Answer VolumeObject → Type 0
  IsUnclaimed ref (err not_found) = ref ≡ none
  IsUnclaimed ref (err already_exists) = ⊥
  IsUnclaimed ref (err other) = ⊥
  IsUnclaimed ref (ok a) = (ref ≡ none) × (a.claim_ref ≡ none)

  created-panics :
      (claims : Cache Claim) (w : Upper C) (pv : VolumeObject) (ref : Option ClaimRef)
      → (create_volume G C host_ip claims w pv ref ≡ none) ↔ (ref ≡ none)
  unfolding create_volume
  created-panics claims w pv none = (λ h. refl, λ h. refl)
  created-panics claims w pv (some r) = (λ h. cc, λ h. cc)

  updated-panics :
      (claims : Cache Claim) (w : Upper C) (there pv : VolumeObject) (ref old : Option ClaimRef)
      → (update_volume G C host_ip claims w there pv ref old ≡ none) ↔ ((ref ≡ none) × (old ≡ none))
  unfolding update_volume
  updated-panics claims w there pv none none = (λ h. (refl, refl), λ h. refl)
  updated-panics claims w there pv none (some o) = (λ h. cc, λ h. cc (h.1))
  updated-panics claims w there pv (some r) none = (λ h. cc, λ h. cc (h.0))
  updated-panics claims w there pv (some r) (some o) = (λ h. cc, λ h. cc (h.0))

  status-panics :
      (claims : Cache Claim) (w : Upper C) (pv : VolumeObject) (x : Answer VolumeObject)
      → ((volume_status G C host_ip claims w pv x).0 ≡ none) ↔ IsUnclaimed pv.claim_ref x
  unfolding volume_status
  status-panics claims w pv (err not_found) = created-panics claims w pv pv.claim_ref
  status-panics claims w pv (err already_exists) = (λ h. cc, λ h. absurd h)
  status-panics claims w pv (err other) = (λ h. cc, λ h. absurd h)
  status-panics claims w pv (ok a) =
      updated-panics claims
        (record w { cached = cache_write (volume_key pv) (filtered G C host_ip a) w.cached })
        (filtered G C host_ip a) pv pv.claim_ref a.claim_ref

  calls-panics :
      (name key : String) (r : Option (Upper C × Option ApiError) × Bool)
      → (after_handler G C host_ip name (status_calls G C host_ip key r) ≡ none) ↔ (r.0 ≡ none)
  unfolding after_handler status_calls
  calls-panics name key (none, b) = (λ h. refl, λ h. refl)
  calls-panics name key (some r, b) = (λ h. cc, λ h. cc)

  named-panics :
      (N : Keys) (claims : Cache Claim) (w : Upper C) (name key : String) (pv : VolumeObject)
      → N.key_func (volume_key pv) ≡ some key
      → (after_handler G C host_ip name (sync_pv_status_handler G C host_ip N claims w pv) ≡ none)
        ↔ IsUnclaimed pv.claim_ref (w.cached (volume_key pv))
  unfolding sync_pv_status_handler
  named-panics N claims w name key pv e =
      rw (e, sync_pv_status_handler)
        (
          λ h. (status-panics claims w pv (w.cached (volume_key pv))).0 (
              (calls-panics name key
                  (volume_status G C host_ip claims w pv (w.cached (volume_key pv)))).0
                h),
          λ h.
              (calls-panics name key
                  (volume_status G C host_ip claims w pv (w.cached (volume_key pv)))).1
                ((status-panics claims w pv (w.cached (volume_key pv))).1 h),
        )

  fetched-panics :
      (N : Keys) (claims : Cache Claim) (w : Upper C) (name key : String) (pv : VolumeObject)
      (x : Answer VolumeObject)
      → x ≡ ok pv
      → pv.is_deleting ≡ false
      → N.key_func (volume_key pv) ≡ some key
      → (status_from_client G C host_ip N claims w name x ≡ none)
        ↔ IsUnclaimed pv.claim_ref (w.cached (volume_key pv))
  unfolding status_from_client
  fetched-panics N claims w name key pv x e live k =
      rw e (simp live (named-panics N claims w name key pv k))

  -- The routine for a volume of the member cluster that is not being deleted panics exactly if the
  -- volume has no claim and neither has the master cluster's, if its lister has one.
  pub sync_pv_status_from_client-panics :
      (N : Keys) (claims : Cache Claim) (listed : Cache VolumeObject) (w : Upper C)
      (name key : String) (pv : VolumeObject)
      → listed ("", name) ≡ ok pv
      → pv.is_deleting ≡ false
      → N.key_func (volume_key pv) ≡ some key
      → (sync_pv_status_from_client G C host_ip N claims listed w (some name) ≡ none)
        ↔ IsUnclaimed pv.claim_ref (w.cached (volume_key pv))
  unfolding sync_pv_status_from_client
  sync_pv_status_from_client-panics N claims listed w name key pv e live k =
      fetched-panics N claims w name key pv (listed ("", name)) e live k
