-- ===== src/Controllers/Synced.antt =====
-- pkg/controllers/common.go: what a routine that succeeds leaves in the member cluster.
use clusterrouter.Base.{
  String, [], ◌∷◌, ◌++◌, ◌≡◌, ◌≢◌, refl, sym, ap, subst, ◌∙◌, Bool, true, false, Option, none, some,
  if◌then◌else◌, inl, inr, some_cancel, ◌⊎◌,
}
use clusterrouter.Conversion.{is_object_global}
use clusterrouter.Controllers.Api.{
  Key, ApiError, not_found, already_exists, other, Answer, ok, err, Cache, cache_write, Client,
  Kind, IsLawful, forget, done, Keys, deferred,
}
use clusterrouter.Controllers.Common.{
  Member, delete_in_client, send_update, unless_global, update_listed, delete_listed, sync_fetched,
  sync_object, sync_split, sync_next,
}

pub Answer-cases :
    {A : Type 0} (x : Answer A) → ((a : A) × (x ≡ ok a)) ⊎ ((e : ApiError) × (x ≡ err e))
Answer-cases (ok a) = inl (a, refl)
Answer-cases (err e) = inr (e, refl)

module _ {A : Type 0} (K : Kind A) where
  -- What a lister answers agrees with what the cluster has; a failure says nothing.
  abbrev pub Agrees : Key → Answer A → Option A → Type 0
  Agrees k (ok a) o = (o ≡ some a) × (K.key a ≡ k)
  Agrees k (err not_found) o = o ≡ none
  Agrees k (err already_exists) o = Unit
  Agrees k (err other) o = Unit

  -- The object that the member cluster should have, by what the master cluster has: none where
  -- that has none or deletes it; no object is made; one that is there is written, unless it is
  -- marked global.
  abbrev pub expected : (A → A → A) → Answer A → Option A → Option A
  expected write (err e) o = none
  expected write (ok a) none = none
  expected write (ok a) (some old) =
      if K.is_deleting a
      then none
      else (if is_object_global (K.meta (write old a)) then some old else some (write old a))

  expected_deleting :
      (write : A → A → A) (a : A)
      → K.is_deleting a ≡ true
      → (o : Option A) → expected write (ok a) o ≡ none
  expected_deleting write a e none = refl
  expected_deleting write a e (some old) = rw e

module _ {A : Type 0} (K : Kind A) (write : A → A → A) (C : Client A) (w : Member C) (k : Key) where
  deleted-gone :
      IsLawful K C
      → (delete_in_client K write C w k).1 ≡ none
      → C.stored (delete_in_client K write C w k).0.api k ≡ none
  unfolding delete_in_client
  deleted-gone lawful h = lawful.delete_gone w.api k h

  listed-gone :
      IsLawful K C
      → (x : Answer A) → Agrees K k x (C.stored w.api k)
      → (delete_listed K write C w k x).1 ≡ none
      → C.stored (delete_listed K write C w k x).0.api k ≡ none
  unfolding delete_listed
  listed-gone lawful (ok a) agrees h = deleted-gone lawful h
  listed-gone lawful (err not_found) agrees h = agrees
  listed-gone lawful (err already_exists) agrees h = cc
  listed-gone lawful (err other) agrees h = cc

  sent-stored :
      IsLawful K C
      → (cached : Cache A) (a : A) (g : Bool) → K.key a ≡ k
      → let r = unless_global K write C g (record w { cached = cached }) a in
        r.1 ≡ none → C.stored r.0.api k ≡ (if g then C.stored w.api k else some a)
  unfolding unless_global send_update
  sent-stored lawful cached a true e h = refl
  sent-stored lawful cached a false e h =
      subst (λ j. C.stored (C.update w.api a).0 j ≡ some a) e (lawful.update_stored w.api a h)

  updated-expected :
      IsLawful K C
      → ((old a : A) → K.key (write old a) ≡ K.key old)
      → (a : A) → K.is_deleting a ≡ false
      → (x : Answer A) → Agrees K k x (C.stored w.api k)
      → (update_listed K write C w k a x).1 ≡ none
      → C.stored (update_listed K write C w k a x).0.api k
        ≡ expected K write (ok a) (C.stored w.api k)
  unfolding update_listed
  updated-expected lawful keyed a live (ok old) (stored, at_key) h =
      sent-stored lawful (cache_write k (write old a) w.cached) (write old a)
        (is_object_global (K.meta (write old a))) (keyed old a ∙ at_key) h
      ∙ rw stored (rw live refl)
  updated-expected lawful keyed a live (err not_found) agrees h =
      agrees ∙ sym (ap (expected K write (ok a)) agrees)
  updated-expected lawful keyed a live (err already_exists) agrees h = cc
  updated-expected lawful keyed a live (err other) agrees h = cc

  others-delete :
      IsLawful K C
      → (j : Key) → k ≢ j
      → C.stored (delete_in_client K write C w k).0.api j ≡ C.stored w.api j
  unfolding delete_in_client
  others-delete lawful j n = lawful.delete-others w.api k j n

  others-delete_listed :
      IsLawful K C
      → (x : Answer A) (j : Key) → k ≢ j
      → C.stored (delete_listed K write C w k x).0.api j ≡ C.stored w.api j
  unfolding delete_listed
  others-delete_listed lawful (ok a) j n = others-delete lawful j n
  others-delete_listed lawful (err e) j n = refl

  others-sent :
      IsLawful K C
      → (cached : Cache A) (a : A) (g : Bool) → K.key a ≡ k
      → (j : Key) → k ≢ j
      → C.stored (unless_global K write C g (record w { cached = cached }) a).0.api j
        ≡ C.stored w.api j
  unfolding unless_global send_update
  others-sent lawful cached a true e j n = refl
  others-sent lawful cached a false e j n = lawful.update-others w.api a j (λ f. n (sym e ∙ f))

  others-updated :
      IsLawful K C
      → ((old a : A) → K.key (write old a) ≡ K.key old)
      → (a : A) (x : Answer A) → Agrees K k x (C.stored w.api k)
      → (j : Key) → k ≢ j
      → C.stored (update_listed K write C w k a x).0.api j ≡ C.stored w.api j
  unfolding update_listed
  others-updated lawful keyed a (ok old) agrees j n =
      others-sent lawful (cache_write k (write old a) w.cached) (write old a)
        (is_object_global (K.meta (write old a))) (keyed old a ∙ agrees.1) j n
  others-updated lawful keyed a (err e) agrees j n = refl

  others-present :
      IsLawful K C
      → ((old a : A) → K.key (write old a) ≡ K.key old)
      → Agrees K k (w.cached k) (C.stored w.api k)
      → (a : A) (d : Bool) (j : Key) → k ≢ j
      → let r =
          if d
          then delete_in_client K write C w k
          else update_listed K write C w k a (w.cached k) in
        C.stored r.0.api j ≡ C.stored w.api j
  others-present lawful keyed agrees a true j n = others-delete lawful j n
  others-present lawful keyed agrees a false j n =
      others-updated lawful keyed a (w.cached k) agrees j n

  present-expected :
      IsLawful K C
      → ((old a : A) → K.key (write old a) ≡ K.key old)
      → Agrees K k (w.cached k) (C.stored w.api k)
      → (a : A) (d : Bool) → K.is_deleting a ≡ d
      → let r =
          if d
          then delete_in_client K write C w k
          else update_listed K write C w k a (w.cached k) in
        r.1 ≡ none → C.stored r.0.api k ≡ expected K write (ok a) (C.stored w.api k)
  present-expected lawful keyed agrees a true e h =
      deleted-gone lawful h ∙ sym (expected_deleting K write a e (C.stored w.api k))
  present-expected lawful keyed agrees a false e h =
      updated-expected lawful keyed a e (w.cached k) agrees h

  fetched-expected :
      IsLawful K C
      → ((old a : A) → K.key (write old a) ≡ K.key old)
      → Agrees K k (w.cached k) (C.stored w.api k)
      → (x : Answer A) → (sync_fetched K write C w k x).1 ≡ none
      → C.stored (sync_fetched K write C w k x).0.api k ≡ expected K write x (C.stored w.api k)
  unfolding sync_fetched
  fetched-expected lawful keyed agrees (err not_found) h = listed-gone lawful (w.cached k) agrees h
  fetched-expected lawful keyed agrees (err already_exists) h = cc
  fetched-expected lawful keyed agrees (err other) h = cc
  fetched-expected lawful keyed agrees (ok a) h =
      present-expected lawful keyed agrees a (K.is_deleting a) refl h

  others-fetched :
      IsLawful K C
      → ((old a : A) → K.key (write old a) ≡ K.key old)
      → Agrees K k (w.cached k) (C.stored w.api k)
      → (x : Answer A) (j : Key) → k ≢ j
      → C.stored (sync_fetched K write C w k x).0.api j ≡ C.stored w.api j
  unfolding sync_fetched
  others-fetched lawful keyed agrees (err not_found) j n =
      others-delete_listed lawful (w.cached k) j n
  others-fetched lawful keyed agrees (err already_exists) j n = refl
  others-fetched lawful keyed agrees (err other) j n = refl
  others-fetched lawful keyed agrees (ok a) j n =
      others-present lawful keyed agrees a (K.is_deleting a) j n

-- The queue is told to forget the key only if there was no error.
forgotten-none :
    (key : String) (e : Option ApiError)
    → deferred key e ++ (done key ∷ []) ≡ forget key ∷ done key ∷ []
    → e ≡ none
unfolding deferred
forgotten-none key none h = refl
forgotten-none key (some e) h = cc

module _ {A : Type 0} (K : Kind A) (write : A → A → A) (C : Client A) (w : Member C)
    (master : Cache A) (key : String) (k : Key) where
  settled-expected :
      IsLawful K C
      → ((old a : A) → K.key (write old a) ≡ K.key old)
      → (o : Option Key) → o ≡ some k
      → Agrees K k (w.cached k) (C.stored w.api k)
      → (sync_split K write C master w key o).1 ≡ forget key ∷ done key ∷ []
      → (j : Key) → k ≢ j
      → let api = (sync_split K write C master w key o).0.api in
        (C.stored api k ≡ expected K write (master k) (C.stored w.api k))
        × (C.stored api j ≡ C.stored w.api j)
  unfolding sync_split sync_object
  settled-expected lawful keyed none e agrees h j n = cc
  settled-expected lawful keyed (some i) e agrees h j n =
      let at_i = forgotten-none key (sync_fetched K write C w i (master i)).1 h in
      let at_k : (sync_fetched K write C w k (master k)).1 ≡ none =
        subst (λ x. (sync_fetched K write C w x (master x)).1 ≡ none) (some_cancel e) at_i in
      rw (some_cancel e) (
        fetched-expected K write C w k lawful keyed agrees (master k) at_k,
        others-fetched K write C w k lawful keyed agrees (master k) j n,
      )

module _ {A : Type 0} (K : Kind A) (write : A → A → A) (C : Client A) (N : Keys) (w : Member C)
    (master : Cache A) (key : String) (k : Key) where
  -- A key that the queue is told to forget, and not to retry, is settled: its object in the member
  -- cluster is the expected one, by what the master cluster's lister has. The member cluster's
  -- lister is assumed to agree with the cluster for the key, and writing to keep an object's name.
  -- The object of another key is not touched.
  pub sync_next-expected :
      IsLawful K C
      → ((old a : A) → K.key (write old a) ≡ K.key old)
      → N.split key ≡ some k
      → Agrees K k (w.cached k) (C.stored w.api k)
      → (sync_next K write C N master w (some key)).1 ≡ forget key ∷ done key ∷ []
      → (j : Key) → k ≢ j
      → let api = (sync_next K write C N master w (some key)).0.api in
        (C.stored api k ≡ expected K write (master k) (C.stored w.api k))
        × (C.stored api j ≡ C.stored w.api j)
  unfolding sync_next
  sync_next-expected lawful keyed split agrees h j n =
      settled-expected K write C w master key k lawful keyed (N.split key) split agrees h j n
