-- ===== src/Controllers/Delivered.antt =====
-- pkg/controllers/service.go: what a routine for a service or for endpoints leaves in the member
-- cluster.
use clusterrouter.Base.{
  String, ◌≡◌, refl, sym, ap, subst, ◌∙◌, Bool, true, false, Option, none, some, List, [], ◌∷◌,
  ◌++◌, if◌then◌else◌,
}
use clusterrouter.Conversion.{check_global_label_equal}
use clusterrouter.Controllers.Api.{
  Key, ApiError, not_found, already_exists, other, Answer, ok, err, failure, Client, Kind, IsLawful,
  QueueCall, add, add_rate_limited, forget, done,
}
use clusterrouter.Controllers.Synced.{Agrees}
use clusterrouter.Controllers.Services.{
  Sending, delete_object, create_object, send_patch, unless_same, patch_object, patch_prepared,
  handle_listed, retried,
}

-- Whether a key is put back behind the rate limiter.
abbrev pub is_retried : List QueueCall → Bool
is_retried [] = false
is_retried (add_rate_limited key ∷ calls) = true
is_retried (add key ∷ calls) = is_retried calls
is_retried (forget key ∷ calls) = is_retried calls
is_retried (done key ∷ calls) = is_retried calls

-- What is sent is stored: a created object under its key, and a patch makes of the object that is
-- there the one that the patch was made for. Preparing keeps the name.
pub record IsLawfulSending {A : Type 0} (K : Kind A) (G : Sending A) (C : Client A) : Type 0 where
  pub prepare_key : (a b : A) → G.prepare a ≡ some b → K.key b ≡ K.key a
  pub create_stored :
      (s : C.State) (a : A)
      → failure (C.create s a).1 ≡ none
      → C.stored (C.create s a).0 (K.key a) ≡ some a
  pub patch_stored :
      (s : C.State) (a b : A) (p : String)
      → C.stored s (K.key a) ≡ some a
      → G.merge_patch a b ≡ some p
      → failure (C.patch s (K.key a) p).1 ≡ none
      → C.stored (C.patch s (K.key a) p).0 (K.key a) ≡ some b

module _ {A : Type 0} (K : Kind A) (G : Sending A) where
  -- What becomes of the object of the member cluster, by what was made of the master cluster's: it
  -- stays if nothing differs or if it is not marked global.
  abbrev pub adopted : A → Option A → Option A
  adopted in_sub none = some in_sub
  adopted in_sub (some b) =
      if G.same in_sub (G.adopt in_sub b)
      then some in_sub
      else if check_global_label_equal (K.meta in_sub) (K.meta (G.adopt in_sub b))
      then some (G.adopt in_sub b)
      else some in_sub

  abbrev pub delivered : Option A → Option A → Option A
  delivered none o = none
  delivered (some a) none = G.prepare a
  delivered (some a) (some in_sub) = adopted in_sub (G.prepare a)

  abbrev pub unless_deleting : A → Option A
  unless_deleting a = if K.is_deleting a then none else some a

  -- The object of the master cluster, by its lister and, if that has none, by the cluster itself.
  abbrev pub wanted : Answer A → Answer A → Option A
  wanted (ok a) asked = unless_deleting a
  wanted (err e) (ok a) = unless_deleting a
  wanted (err e) (err f) = none

  abbrev pub Named : Key → Answer A → Type 0
  Named k (ok a) = K.key a ≡ k
  Named k (err e) = Unit

module _ {A : Type 0} (K : Kind A) (G : Sending A) (C : Client A) where
  pub deleted-none :
      IsLawful K C
      → (s : C.State) (k : Key) → (delete_object K G C s k).1 ≡ none
      → C.stored (delete_object K G C s k).0 k ≡ none
  unfolding delete_object
  deleted-none lawful s k h = lawful.delete_gone s k h

  created-prepared :
      IsLawfulSending K G C
      → (s : C.State) (a : A) (k : Key) → K.key a ≡ k
      → (o : Option A) → G.prepare a ≡ o
      → (create_object K G C s o).1 ≡ none
      → C.stored (create_object K G C s o).0 k ≡ o
  unfolding create_object
  created-prepared sending s a k at_key none e h = cc
  created-prepared sending s a k at_key (some b) e h =
      subst (λ j. C.stored (C.create s b).0 j ≡ some b) (sending.prepare_key a b e ∙ at_key)
        (sending.create_stored s b h)

  patched-clone :
      IsLawfulSending K G C
      → (s : C.State) (a b : A) → C.stored s (K.key a) ≡ some a
      → (o : Option String) → G.merge_patch a b ≡ o
      → (send_patch K G C s a o).1 ≡ none
      → C.stored (send_patch K G C s a o).0 (K.key a) ≡ some b
  unfolding send_patch
  patched-clone sending s a b stored none e h = cc
  patched-clone sending s a b stored (some p) e h = sending.patch_stored s a b p stored e h

  unless_same-chosen :
      IsLawfulSending K G C
      → (s : C.State) (a b : A) → C.stored s (K.key a) ≡ some a
      → (same global : Bool) → (unless_same K G C same global s a b).1 ≡ none
      → C.stored (unless_same K G C same global s a b).0 (K.key a)
        ≡ (if same then some a else if global then some b else some a)
  unfolding unless_same
  unless_same-chosen sending s a b stored true global h = stored
  unless_same-chosen sending s a b stored false true h =
      patched-clone sending s a b stored (G.merge_patch a b) refl h
  unless_same-chosen sending s a b stored false false h = stored

  patched-adopted :
      IsLawfulSending K G C
      → (s : C.State) (in_sub : A) → C.stored s (K.key in_sub) ≡ some in_sub
      → (o : Option A) → (patch_prepared K G C s in_sub o).1 ≡ none
      → C.stored (patch_prepared K G C s in_sub o).0 (K.key in_sub) ≡ adopted K G in_sub o
  unfolding patch_prepared patch_object
  patched-adopted sending s in_sub stored none h = cc
  patched-adopted sending s in_sub stored (some b) h =
      let copy = G.adopt in_sub b in
      unless_same-chosen sending s in_sub copy stored (G.same in_sub copy)
        (check_global_label_equal (K.meta in_sub) (K.meta copy)) h

  pub handled-delivered :
      IsLawfulSending K G C
      → (s : C.State) (a : A) (k : Key) → K.key a ≡ k
      → (x : Answer A) → Agrees K k x (C.stored s k)
      → (handle_listed K G C s a x).1 ≡ none
      → C.stored (handle_listed K G C s a x).0 k ≡ delivered K G (some a) (C.stored s k)
  unfolding handle_listed
  handled-delivered sending s a k at_key (err not_found) agrees h =
      created-prepared sending s a k at_key (G.prepare a) refl h
      ∙ sym (ap (delivered K G (some a)) agrees)
  handled-delivered sending s a k at_key (err already_exists) agrees h = cc
  handled-delivered sending s a k at_key (err other) agrees h = cc
  handled-delivered sending s a k at_key (ok in_sub) (stored, sub_at) h =
      subst
        (λ j.
          C.stored (patch_prepared K G C s in_sub (G.prepare a)).0 j
          ≡ adopted K G in_sub (G.prepare a))
        sub_at (patched-adopted sending s in_sub (ap (C.stored s) sub_at ∙ stored) (G.prepare a) h)
      ∙ sym (ap (delivered K G (some a)) stored)

  -- The error of the handler shows in its calls.
  pub unretried-none :
      (key : String) (e : Option ApiError) (calls : List QueueCall)
      → is_retried (retried K G C key e ++ calls) ≡ false
      → e ≡ none
  unfolding retried
  unretried-none key none calls h = refl
  unretried-none key (some e) calls h = cc
