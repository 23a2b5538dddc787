-- ===== src/Provider/Present.antt =====
-- pkg/plugins/virtualk8s: what is there after the dependents of a pod were made, and pods that cannot
-- be created.
use text.Mathlib.Text.{starts_with}
use clusterrouter.Base.{
  ℕ, String, ◌≡◌, ◌≢◌, ◌⊎◌, ◌↔◌, inl, inr, refl, sym, ap, subst, ◌∙◌, Bool, true, false, Option,
  none, some, List, [], ◌∷◌, All, if_pos, if_neg, if◌then◌else◌,
}
use clusterrouter.Conversion.{Json}
use clusterrouter.Controllers.Api.{
  Key, key_dec, ApiError, not_found, already_exists, other, Answer, ok, err, Cache, cache_write,
  Client,
}
use clusterrouter.Controllers.Common.{ConfigMap, Secret}
use clusterrouter.Provider.Depends.{
  SourcedVolume, named, secret_names_of, volume_secrets, joined, volumes_secrets, get_secrets,
}
use clusterrouter.Provider.Copies.{
  Copying, and_then, creation, sent_config_map, copy_config_map, create_config_maps, ServiceAccount,
}
use clusterrouter.Provider.Pods.{
  RunPod, is_system, namespace_created, namespace_listed, PodSources, Lower, namespace_ready,
  create_pod,
}

-- The answer to a creation after which the object is there: it was created, or it was there.
abbrev pub SaysThere : Answer ConfigMap → Type 0
SaysThere (ok a) = Unit
SaysThere (err already_exists) = Unit
SaysThere (err not_found) = ⊥
SaysThere (err other) = ⊥

-- What the code relies on of a client: an object that was created, or was there already, is there,
-- and creating one removes no other.
pub record KeepsCreated (C : Client ConfigMap) : Type 0 where
  pub created_there :
      (s : C.State) (a : ConfigMap)
      → SaysThere (C.create s a).1
      → C.stored (C.create s a).0 a.key ≢ none
  pub create_keeps :
      (s : C.State) (a : ConfigMap) (k : Key)
      → C.stored s k ≢ none
      → C.stored (C.create s a).0 k ≢ none

module _ (C : Client ConfigMap) (laws : KeepsCreated C) (listed : Cache ConfigMap)
    (ns : String) where
  abbrev pub IsNamed : Cache ConfigMap → Type 0
  IsNamed cached = (k : Key) (a : ConfigMap) → cached k ≡ ok a → a.key ≡ k

  sent_key : (a b : ConfigMap) (k : Key) → a.key ≡ k → ok (sent_config_map a) ≡ ok b → b.key ≡ k
  unfolding sent_config_map
  sent_key a b k e h = sym (ap (λ (x : ConfigMap). x.key) (ok_cancel (sent_config_map a) b h)) ∙ e
    where
      ok_cancel : (x y : ConfigMap) → ok x ≡ ok y → x ≡ y
      ok_cancel x y p = cc

  write-IsNamed :
      (cached : Cache ConfigMap) (k : Key) (a : ConfigMap)
      → IsNamed cached
      → cached k ≡ ok a
      → IsNamed (cache_write k (sent_config_map a) cached)
  unfolding cache_write
  write-IsNamed cached k a n e j b h = elim (key_dec k j) [
    | yes p ↦
        sent_key a b j (n k a e ∙ p)
          (sym (if_pos (key_dec k j) p (ok (sent_config_map a)) (cached j)) ∙ h)
    | no q ↦ n j b (sym (if_neg (key_dec k j) q (ok (sent_config_map a)) (cached j)) ∙ h)
  ]

  copy-IsNamed :
      (w : Copying C) (k : Key) (x : Answer ConfigMap)
      → IsNamed w.cached
      → (y : Answer ConfigMap) → w.cached k ≡ y
      → IsNamed (copy_config_map C w k x y).0.cached
  unfolding copy_config_map
  copy-IsNamed w k (ok _) n y e = n
  copy-IsNamed w k (err not_found) n (err _) e = n
  copy-IsNamed w k (err not_found) n (ok a) e = write-IsNamed w.cached k a n e
  copy-IsNamed w k (err already_exists) n y e = n
  copy-IsNamed w k (err other) n y e = n

  copy-keeps :
      (w : Copying C) (k j : Key) (x y : Answer ConfigMap)
      → C.stored w.api j ≢ none
      → C.stored (copy_config_map C w k x y).0.api j ≢ none
  unfolding copy_config_map
  copy-keeps w k j (ok _) y h = h
  copy-keeps w k j (err not_found) (err _) h = h
  copy-keeps w k j (err not_found) (ok a) h = laws.create_keeps w.api (sent_config_map a) j h
  copy-keeps w k j (err already_exists) y h = h
  copy-keeps w k j (err other) y h = h

  says_there : (answer : Answer ConfigMap) → creation answer ≡ none → SaysThere answer
  says_there (ok a) h = tt
  says_there (err already_exists) h = tt
  says_there (err not_found) h = cc
  says_there (err other) h = cc

  -- The member cluster's lister has the object, or the cluster has it now.
  abbrev pub IsPresent : C.State → String → Type 0
  IsPresent s cm = ((a : ConfigMap) × (listed (ns, cm) ≡ ok a)) ⊎ (C.stored s (ns, cm) ≢ none)

  copied-IsPresent :
      (w : Copying C) (cm : String) (x : Answer ConfigMap)
      → listed (ns, cm) ≡ x
      → IsNamed w.cached
      → (y : Answer ConfigMap) → w.cached (ns, cm) ≡ y
      → (copy_config_map C w (ns, cm) x y).1 ≡ none
      → IsPresent (copy_config_map C w (ns, cm) x y).0.api cm
  unfolding copy_config_map
  copied-IsPresent w cm (ok a) l n y e h = inl (a, l)
  copied-IsPresent w cm (err not_found) l n (err _) e h = cc
  copied-IsPresent w cm (err not_found) l n (ok a) e h = inr (
      subst (λ k. C.stored (C.create w.api (sent_config_map a)).0 k ≢ none)
        (sent_key a (sent_config_map a) (ns, cm) (n (ns, cm) a e) refl)
        (laws.created_there w.api (sent_config_map a)
          (says_there (C.create w.api (sent_config_map a)).1 h)))
  copied-IsPresent w cm (err already_exists) l n y e h = cc
  copied-IsPresent w cm (err other) l n y e h = cc

  keeps-IsPresent :
      (s t : C.State) (cm : String)
      → ((k : Key) → C.stored s k ≢ none → C.stored t k ≢ none)
      → IsPresent s cm
      → IsPresent t cm
  keeps-IsPresent s t cm keeps (inl l) = inl l
  keeps-IsPresent s t cm keeps (inr h) = inr (keeps (ns, cm) h)

  then-keeps :
      (r : Copying C × Option ApiError) (f : Copying C → Copying C × Option ApiError) (k : Key)
      → ((w : Copying C) → C.stored w.api k ≢ none → C.stored (f w).0.api k ≢ none)
      → C.stored r.0.api k ≢ none
      → C.stored (and_then r f).0.api k ≢ none
  then-keeps (w, none) f k keeps h = keeps w h
  then-keeps (w, some e) f k keeps h = h

  then-done :
      (r : Copying C × Option ApiError) (f : Copying C → Copying C × Option ApiError)
      → (and_then r f).1 ≡ none
      → (r.1 ≡ none) × (and_then r f ≡ f r.0)
  then-done (w, none) f h = (refl, refl)
  then-done (w, some e) f h = cc

  loop-keeps :
      (names : List String) (w : Copying C) (k : Key)
      → C.stored w.api k ≢ none
      → C.stored (create_config_maps C listed ns w names).0.api k ≢ none
  unfolding create_config_maps
  loop-keeps [] w k h = h
  loop-keeps (cm ∷ names) w k h =
      then-keeps (copy_config_map C w (ns, cm) (listed (ns, cm)) (w.cached (ns, cm)))
        (λ w'. create_config_maps C listed ns w' names) k (λ w'. loop-keeps names w' k)
        (copy-keeps w (ns, cm) k (listed (ns, cm)) (w.cached (ns, cm)) h)

  -- If `createConfigMaps` returns no error, the member cluster has every config map that it was
  -- asked for, or its lister had it, provided that the master cluster's cache has its objects under
  -- their names.
  pub create_config_maps-IsPresent :
      (names : List String) (w : Copying C)
      → IsNamed w.cached
      → (create_config_maps C listed ns w names).1 ≡ none
      → All (IsPresent (create_config_maps C listed ns w names).0.api) names
  unfolding create_config_maps
  create_config_maps-IsPresent [] w n h = tt
  create_config_maps-IsPresent (cm ∷ names) w n h =
      let r = copy_config_map C w (ns, cm) (listed (ns, cm)) (w.cached (ns, cm)) in
      let (ok_here, e) = then-done r (λ w'. create_config_maps C listed ns w' names) h in
      let rest = create_config_maps C listed ns r.0 names in
      let n' = copy-IsNamed w (ns, cm) (listed (ns, cm)) n (w.cached (ns, cm)) refl in
      let h' : rest.1 ≡ none = sym (ap (λ x. x.1) e) ∙ h in
      subst
        (λ (x : Copying C × Option ApiError). IsPresent x.0.api cm × All (IsPresent x.0.api) names)
        (sym e)
        (
          keeps-IsPresent r.0.api rest.0.api cm (λ k. loop-keeps names r.0 k)
              (copied-IsPresent w cm (listed (ns, cm)) refl n (w.cached (ns, cm)) refl ok_here),
          create_config_maps-IsPresent names r.0 n' h',
        )

-- A volume without a secret whose first other source of the three has no reference to one.
abbrev pub LacksReference : Option String → List (Option (Option String)) → Type 0
LacksReference (some name) sources = ⊥
LacksReference none [] = ⊥
LacksReference none (none ∷ sources) = LacksReference none sources
LacksReference none (some ref ∷ sources) = ref ≡ none

abbrev pub SomeLacks : List SourcedVolume → Type 0
SomeLacks [] = ⊥
SomeLacks (v ∷ volumes) =
    LacksReference v.secret (v.ceph_fs ∷ v.cinder ∷ v.rbd ∷ []) ⊎ SomeLacks volumes

named-panics : (ref : Option String) → (named ref ≡ none) ↔ (ref ≡ none)
named-panics none = (λ h. refl, λ h. refl)
named-panics (some name) = (λ h. cc, λ h. cc)

sources-panics :
    (d : Bool) (secret : Option String) (ceph_fs cinder rbd : Option (Option String))
    → (secret_names_of d secret ceph_fs cinder rbd ≡ none)
      ↔ LacksReference secret (ceph_fs ∷ cinder ∷ rbd ∷ [])
unfolding secret_names_of
sources-panics d (some name) ceph_fs cinder rbd = (λ h. cc, λ h. absurd h)
sources-panics d none (some ref) cinder rbd = named-panics ref
sources-panics d none none (some ref) rbd = named-panics ref
sources-panics d none none none (some ref) = named-panics ref
sources-panics d none none none none = (λ h. cc, λ h. absurd h)

joined-panics : (x y : Option (List String)) → (joined x y ≡ none) ↔ ((x ≡ none) ⊎ (y ≡ none))
joined-panics none y = (λ h. inl refl, λ h. refl)
joined-panics (some xs) none = (λ h. inr refl, λ h. refl)
joined-panics (some xs) (some ys) = (λ h. cc, λ h. elim h [ inl e ↦ cc | inr e ↦ cc ])

volumes-panics :
    (volumes : List SourcedVolume) → (volumes_secrets volumes ≡ none) ↔ SomeLacks volumes
unfolding volumes_secrets volume_secrets
volumes-panics [] = (λ h. cc, λ h. absurd h)
volumes-panics (v ∷ volumes) =
    let here =
      sources-panics (starts_with v.name "default-token") v.secret v.ceph_fs v.cinder v.rbd in
    let split = joined-panics (volume_secrets v) (volumes_secrets volumes) in
    let rest = volumes-panics volumes in
    (
      λ h. elim (split.0 h) [ inl e ↦ inl (here.0 e) | inr e ↦ inr (rest.0 e) ],
      λ h. elim h [ inl l ↦ split.1 (inl (here.1 l)) | inr l ↦ split.1 (inr (rest.1 l)) ],
    )

-- Collecting the secrets of a pod panics exactly if it has a volume without a secret of its own
-- whose Ceph, Cinder or RBD source, the first that is there, has no reference to a secret.
pub get_secrets-panics :
    (volumes : List SourcedVolume) (image_pull_secrets : List String)
    → (get_secrets volumes image_pull_secrets ≡ none) ↔ SomeLacks volumes
unfolding get_secrets
get_secrets-panics volumes image_pull_secrets =
    let split = joined-panics (volumes_secrets volumes) (some image_pull_secrets) in
    let all = volumes-panics volumes in
    (λ h. elim (split.0 h) [ inl e ↦ all.0 e | inr e ↦ cc ], λ h. split.1 (inl (all.1 h)))

module _ (J : Json) (NS : Client String) (C : Client Secret) (D : Client ServiceAccount)
    (M : Client ConfigMap) (P : Client RunPod) (ignore_labels : Option (List String))
    (R : PodSources) (token_of : Secret → Option String) (enabled : Bool) (tries : ℕ) (p : RunPod)
    (w : Lower J NS C D M P) where
  raced-error :
      (r : NS.State × Answer String)
      → r.1 ≡ err already_exists
      → namespace_created NS r ≡ (r.0, some not_found)
  unfolding namespace_created
  raced-error (s, ok a) e = cc
  raced-error (s, err not_found) e = cc
  raced-error (s, err already_exists) e = refl
  raced-error (s, err other) e = cc

  ignored-error :
      (r : NS.State × Answer String) → r.1 ≡ err other → namespace_created NS r ≡ (r.0, none)
  unfolding namespace_created
  ignored-error (s, ok a) e = cc
  ignored-error (s, err not_found) e = cc
  ignored-error (s, err already_exists) e = cc
  ignored-error (s, err other) e = refl

  abbrev created_as : NS.State × Option ApiError → Option (Lower J NS C D M P × Option ApiError)
  created_as r = namespace_ready J NS C D M P ignore_labels R token_of enabled tries p w r

  listed-created :
      (x : Answer String) (r : NS.State × Answer String)
      → x ≡ err not_found
      → NS.create w.namespaces p.key.0 ≡ r
      → namespace_listed NS w.namespaces p.key.0 x ≡ namespace_created NS r
  unfolding namespace_listed
  listed-created (ok a) r e f = cc
  listed-created (err not_found) r e f = ap (namespace_created NS) f
  listed-created (err already_exists) r e f = cc
  listed-created (err other) r e f = cc

  created-created_as :
      (b : Bool) (q : Lower J NS C D M P × Option ApiError) (r : NS.State × Option ApiError)
      → b ≡ false
      → (if b then some q else created_as r) ≡ created_as r
  created-created_as false q r e = refl
  created-created_as true q r e = cc

  asked-created_as :
      (r : NS.State × Option ApiError)
      → is_system p ≡ false
      → R.namespaces ("", p.key.0) ≡ err not_found
      → namespace_created NS (NS.create w.namespaces p.key.0) ≡ r
      → create_pod J NS C D M P ignore_labels R token_of enabled tries p w ≡ created_as r
  unfolding create_pod
  asked-created_as r s l e =
      created-created_as (is_system p) (w, none)
        (namespace_listed NS w.namespaces p.key.0 (R.namespaces ("", p.key.0))) s
      ∙ ap created_as
          (listed-created (R.namespaces ("", p.key.0)) (NS.create w.namespaces p.key.0) l refl ∙ e)

  -- Where the lister has not the namespace of a pod and the namespace cannot be created as it is
  -- there already, no pod is created and the error is that of the lister.
  pub create_pod-raced :
      is_system p ≡ false
      → R.namespaces ("", p.key.0) ≡ err not_found
      → (NS.create w.namespaces p.key.0).1 ≡ err already_exists
      → create_pod J NS C D M P ignore_labels R token_of enabled tries p w
        ≡ some (record w { namespaces = (NS.create w.namespaces p.key.0).0 }, some not_found)
  unfolding namespace_ready
  create_pod-raced s l e =
      asked-created_as ((NS.create w.namespaces p.key.0).0, some not_found) s l
        (raced-error (NS.create w.namespaces p.key.0) e)

  -- Any other failure to create the namespace is passed over: the pod is created as if the namespace
  -- were there.
  create_pod-ignored :
      is_system p ≡ false
      → R.namespaces ("", p.key.0) ≡ err not_found
      → (NS.create w.namespaces p.key.0).1 ≡ err other
      → create_pod J NS C D M P ignore_labels R token_of enabled tries p w
        ≡ created_as ((NS.create w.namespaces p.key.0).0, none)
  create_pod-ignored s l e =
      asked-created_as ((NS.create w.namespaces p.key.0).0, none) s l
        (ignored-error (NS.create w.namespaces p.key.0) e)
