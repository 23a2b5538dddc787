-- ===== src/Controllers/Unmarked.antt =====
-- pkg/controllers/service.go: objects of the member cluster that are not marked global.
use clusterrouter.Base.{
  inl, inr, ◌⊎◌, String, ◌≡◌, refl, Bool, true, false, Option, none, some, some_cancel,
}
use clusterrouter.Conversion.{is_object_global, check_global_label_equal}
use clusterrouter.Controllers.Api.{
  Key, ApiError, Answer, not_found, ok, err, Cache, Client, Kind, Keys,
}
use clusterrouter.Controllers.Services.{
  Sending, patch_object, patch_prepared, unless_same, handle_listed, handle_named, handle_object,
  present_as, sync_present, sync_listed, sync_asked, Sources, sync_ensured, sync_named, sync_sent,
  ensure_namespace,
}

-- The object is what the lister answered, or what the master cluster did when the lister had none.
abbrev pub IsHad : {A : Type 0} → A → Answer A → Answer A → Type 0
IsHad a listed asked = (listed ≡ ok a) ⊎ ((listed ≡ err not_found) × (asked ≡ ok a))

module _ {A : Type 0} (K : Kind A) (G : Sending A) (C : Client A) where
  unless_same-kept :
      (s : C.State) (a b : A) (same : Bool) → (unless_same K G C same false s a b).0 ≡ s
  unfolding unless_same
  unless_same-kept s a b true = refl
  unless_same-kept s a b false = refl

  unmarked-differs :
      (a b : A)
      → is_object_global (K.meta a) ≡ false
      → check_global_label_equal (K.meta a) (K.meta b) ≡ false
  unfolding check_global_label_equal
  unmarked-differs a b h = rw (h, check_global_label_equal) refl

  patched-kept :
      (s : C.State) (in_sub : A) (o : Option A)
      → is_object_global (K.meta in_sub) ≡ false
      → (patch_prepared K G C s in_sub o).0 ≡ s
  unfolding patch_prepared patch_object
  patched-kept s in_sub none h = refl
  patched-kept s in_sub (some b) h =
      let copy = G.adopt in_sub b in
      rw (unmarked-differs in_sub copy h) (unless_same-kept s in_sub copy (G.same in_sub copy))

  handled-kept :
      (s : C.State) (a in_sub : A) (x : Answer A)
      → x ≡ ok in_sub
      → is_object_global (K.meta in_sub) ≡ false
      → (handle_listed K G C s a x).0 ≡ s
  unfolding handle_listed
  handled-kept s a in_sub x e h = rw e (patched-kept s in_sub (G.prepare a) h)

  named-kept :
      (s : C.State) (a in_sub : A) (cached : Cache A) (o : Option String)
      → cached (K.key a) ≡ ok in_sub
      → is_object_global (K.meta in_sub) ≡ false
      → (handle_named K G C cached s a o).0 ≡ s
  unfolding handle_named
  named-kept s a in_sub cached none e h = refl
  named-kept s a in_sub cached (some key) e h = handled-kept s a in_sub (cached (K.key a)) e h

  present-kept :
      (N : Keys) (s : C.State) (a in_sub : A) (cached : Cache A) (key : String) (k : Key) (d : Bool)
      → d ≡ false
      → cached (K.key a) ≡ ok in_sub
      → is_object_global (K.meta in_sub) ≡ false
      → (present_as K G C N cached s key k a d).0 ≡ s
  unfolding present_as handle_object
  present-kept N s a in_sub cached key k true f e h = cc
  present-kept N s a in_sub cached key k false f e h =
      named-kept s a in_sub cached (N.key_func (K.key a)) e h

  listed-kept :
      (N : Keys) (s : C.State) (a in_sub : A) (cached : Cache A) (key : String) (k : Key)
      (x asked : Answer A)
      → IsHad a x asked
      → K.is_deleting a ≡ false
      → cached (K.key a) ≡ ok in_sub
      → is_object_global (K.meta in_sub) ≡ false
      → (sync_listed K G C N cached asked s key k x).0 ≡ s
  unfolding sync_listed sync_asked sync_present
  listed-kept N s a in_sub cached key k x asked l f e h =
      let kept = present-kept N s a in_sub cached key k (K.is_deleting a) f e h in
      elim l [ inl there ↦ rw there kept | inr (absent, answered) ↦ rw (absent, answered) kept ]

module _ {A : Type 0} (K : Kind A) (G : Sending A) (C : Client A) (NS : Client String) (N : Keys)
    (R : Sources A) (s : C.State) (t : NS.State) (key : String) (k : Key) (a : A) where
  ensured-kept :
      (in_sub : A) (r : NS.State × Option ApiError)
      → IsHad a (R.listed k) (R.asked k)
      → K.is_deleting a ≡ false
      → R.in_member (K.key a) ≡ ok in_sub
      → is_object_global (K.meta in_sub) ≡ false
      → (sync_ensured K G C NS N R s key k r).0.0 ≡ s
  unfolding sync_ensured
  ensured-kept in_sub (u, none) l f e h =
      listed-kept K G C N s a in_sub R.in_member key k (R.listed k) (R.asked k) l f e h
  ensured-kept in_sub (u, some x) l f e h = refl

  split-kept :
      (in_sub : A) (o : Option Key)
      → o ≡ some k
      → IsHad a (R.listed k) (R.asked k)
      → K.is_deleting a ≡ false
      → R.in_member (K.key a) ≡ ok in_sub
      → is_object_global (K.meta in_sub) ≡ false
      → (sync_named K G C NS N R s t key o).0.0 ≡ s
  unfolding sync_named
  split-kept in_sub none p l f e h = cc
  split-kept in_sub (some i) p l f e h =
      rw (some_cancel p) (ensured-kept in_sub (ensure_namespace NS R.namespaces t k.0) l f e h)

  -- While the master cluster has an object that is not being deleted, by the lister or by asking it
  -- where the lister has none, the routine changes no object of the kind in the member cluster if the
  -- object of that name there, by its lister, is not marked global. (The namespace may be made there.)
  pub sync_sent-unmarked :
      (in_sub : A)
      → N.split key ≡ some k
      → IsHad a (R.listed k) (R.asked k)
      → K.is_deleting a ≡ false
      → R.in_member (K.key a) ≡ ok in_sub
      → is_object_global (K.meta in_sub) ≡ false
      → (sync_sent K G C NS N R s t (some key)).0.0 ≡ s
  unfolding sync_sent
  sync_sent-unmarked in_sub split l f e h = split-kept in_sub (N.split key) split l f e h
