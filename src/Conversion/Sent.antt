-- ===== src/Conversion/Sent.antt =====
-- pkg/utils/conversion.go: what a pod has when it is sent to the member cluster, and after an update.
use clusterrouter.Base.{
  ◌≤◌, ◌<◌, String, ◌≡◌, ◌↔◌, refl, ◌∙◌, ◌⊎◌, inl, inr, false, Option, none, some, List, [], ◌∷◌,
  Map, lookup, insert, lookup-insert, text_dec, ite, All, arith, Bool-cases, if◌then◌else◌, length,
}
use clusterrouter.Conversion.{Json, Container, Volume, Pod, or_no_entries, virtual_pod_label}
use clusterrouter.Conversion.Labels.{recover_labels}
use clusterrouter.Conversion.Trim.{
  is_default_token, trim_volumes, trim_pod, update_images, updated_pods, get_updated_pod,
}
use clusterrouter.Conversion.Trimmed.{HaveTrimmed, trimmed_labels-HaveTrimmed}
use clusterrouter.Conversion.Recover.{recover_labels-trim_labels}

-- The labels of a pod that came back from the member cluster are those that it was sent for, and the
-- mark of virtual pods: what was taken off is put back from the annotation.
pub recover_labels-trim_pod :
    (J : Json) (pod : Pod) (ignore_labels : List String)
    → let sent = trim_pod J pod (some ignore_labels) in
      (restored : Map String) × (recover_labels J sent.meta.labels sent.meta.annotations
        ≡ some (some restored))
      × ((k : String)
          → lookup k restored
            ≡ ite
                (text_dec virtual_pod_label k)
                (some "true")
                (lookup k (or_no_entries pod.meta.labels)))
unfolding trim_pod
recover_labels-trim_pod J pod ignore_labels =
    let labels = insert virtual_pod_label "true" (or_no_entries pod.meta.labels) in
    let (restored, e, same) =
      recover_labels-trim_labels J labels ignore_labels
        (some (or_no_entries pod.meta.annotations)) in
    (
      restored,
      e,
      λ k. same k ∙ lookup-insert virtual_pod_label k "true" (or_no_entries pod.meta.labels),
    )

-- A property of the volumes that are sent is one of all but the token's.
trim_volumes-All :
    (P : Volume → Type 0) (volumes : List Volume)
    → All P (trim_volumes volumes) ↔ All (λ v. is_default_token v.name ≡ false → P v) volumes
unfolding trim_volumes
trim_volumes-All P [] = (λ h. tt, λ h. tt)
trim_volumes-All P (v ∷ volumes) =
    let (p, q) = trim_volumes-All P volumes in
    elim (Bool-cases (is_default_token v.name)) [
      | inl t ↦ rw (t, if◌then◌else◌) (λ h. (λ e. absurd cc, p h), λ h. q h.1)
      | inr f ↦ rw (f, if◌then◌else◌) (λ h. (λ e. h.0, p h.1), λ h. (h.0 refl, q h.1))
    ]

abbrev pub images_of : List Container → List String
images_of [] = []
images_of (c ∷ cs) = c.image ∷ images_of cs

-- The containers with the images of an update's, one by one.
abbrev pub HaveImages : List Container → List Container → List Container → Type 0
HaveImages [] update updated = updated ≡ []
HaveImages (c ∷ orig) (d ∷ update) (e ∷ updated) =
    (e ≡ record c { image = d.image }) × HaveImages orig update updated
HaveImages (c ∷ orig) _ _ = ⊥

update_images-HaveImages :
    (orig update : List Container)
    → ((length orig ≤ length update)
        × ((updated : List Container) × (update_images orig update ≡ some updated)
            × HaveImages orig update updated))
      ⊎ ((length update < length orig) × (update_images orig update ≡ none))
unfolding update_images
update_images-HaveImages [] update = inl (omega arith, ([], refl, refl))
update_images-HaveImages (c ∷ orig) [] = inr (omega arith, refl)
update_images-HaveImages (c ∷ orig) (d ∷ update) = elim (update_images-HaveImages orig update) [
  | inl (h, (updated, e, i)) ↦
      inl (omega arith, (record c { image = d.image } ∷ updated, rw e, (refl, i)))
  | inr (h, e) ↦ inr (omega arith, rw e)
]

-- The volumes of a sent pod, and the mounts of its containers, leave out the token of the service
-- account and nothing else: a property holds of all of them exactly if it holds of all others that
-- the pod has.
pub trim_pod-volumes :
    (J : Json) (pod : Pod) (ignore_labels : Option (List String)) (P : Volume → Type 0)
    → All P (trim_pod J pod ignore_labels).spec.volumes
      ↔ All (λ v. is_default_token v.name ≡ false → P v) pod.spec.volumes
unfolding trim_pod
trim_pod-volumes J pod ignore_labels P = trim_volumes-All P pod.spec.volumes

get_updated_pod_lem :
    (J : Json) (orig update : Pod) (ignore_labels : Option (List String))
    (inits cs : List Container)
    → update_images orig.spec.init_containers update.spec.init_containers ≡ some inits
    → update_images orig.spec.containers update.spec.containers ≡ some cs
    → get_updated_pod J orig update ignore_labels
      ≡ some (updated_pods J orig update ignore_labels inits cs)
unfolding get_updated_pod
get_updated_pod_lem J orig update ignore_labels inits cs e f = simp (get_updated_pod, e, f)

-- An update gives each container of the pod the image of the update's container at its place, and
-- both pods the update's labels without those to be ignored, of which one with a blank value stays.
-- It panics exactly if the update has fewer containers or fewer init containers than the pod.
pub get_updated_pod-HaveImages :
    (J : Json) (orig update : Pod) (ignore_labels : Option (List String))
    → ((length orig.spec.init_containers ≤ length update.spec.init_containers)
        × (length orig.spec.containers ≤ length update.spec.containers)
        × ((after : Pod) × (update' : Pod) × (get_updated_pod J orig update ignore_labels
              ≡ some (after, update'))
            × HaveImages orig.spec.init_containers update.spec.init_containers
                after.spec.init_containers
            × HaveImages orig.spec.containers update.spec.containers after.spec.containers
            × HaveTrimmed ignore_labels update.meta.labels after.meta.labels
            × (update'.meta.labels ≡ after.meta.labels)))
      ⊎ (((length update.spec.init_containers < length orig.spec.init_containers)
            ⊎ (length update.spec.containers < length orig.spec.containers))
          × (get_updated_pod J orig update ignore_labels ≡ none))
unfolding get_updated_pod updated_pods
get_updated_pod-HaveImages J orig update ignore_labels =
    elim (update_images-HaveImages orig.spec.init_containers update.spec.init_containers) [
      | inr (h, e) ↦ inr (inl h, simp (get_updated_pod, e))
      | inl (h, (inits, e, i)) ↦
          elim (update_images-HaveImages orig.spec.containers update.spec.containers) [
            | inr (k, f) ↦ inr (inr k, simp (get_updated_pod, e, f))
            | inl (k, (cs, f, j)) ↦
                let (after, update') = updated_pods J orig update ignore_labels inits cs in
                inl (
                  h,
                  k,
                  (
                    after,
                    update',
                    get_updated_pod_lem J orig update ignore_labels inits cs e f,
                    i,
                    j,
                    trimmed_labels-HaveTrimmed update.meta.labels ignore_labels,
                    refl,
                  ),
                )
          ]
    ]
