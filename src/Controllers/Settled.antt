-- ===== src/Controllers/Settled.antt =====
-- pkg/controllers/service.go: the routines of the queues of services and endpoints as a whole.
use clusterrouter.Base.{
  String, ◌≡◌, ◌≢◌, refl, sym, subst, Bool, true, false, Option, none, some, List, [], ◌∷◌, ◌++◌,
  append_assoc, if◌then◌else◌, some_cancel,
}
use clusterrouter.Controllers.Api.{
  Key, ApiError, not_found, already_exists, other, Answer, ok, err, Cache, Client, Kind, IsLawful,
  QueueCall, forget, done, Keys, deferred,
}
use clusterrouter.Controllers.Synced.{Agrees}
use clusterrouter.Controllers.Services.{
  Sending, delete_object, handle_listed, handle_named, handle_object, present_as, sync_present,
  sync_asked, sync_listed, Sources, sync_ensured, sync_named, sync_sent, ensure_namespace,
}
use clusterrouter.Controllers.Delivered.{
  is_retried, IsLawfulSending, delivered, wanted, Named, deleted-none, handled-delivered,
  unretried-none,
}

deferred-none :
    (key : String) (e : Option ApiError) (calls : List QueueCall)
    → is_retried (deferred key e ++ calls) ≡ false
    → e ≡ none
unfolding deferred
deferred-none key none calls h = refl
deferred-none key (some e) calls h = cc

module _ {A : Type 0} (K : Kind A) (G : Sending A) (C : Client A) (N : Keys)
    (named : (j : Key) → N.key_func j ≢ none) (lawful : IsLawful K C)
    (sending : IsLawfulSending K G C) (cached : Cache A) (s : C.State) (key : String) (k : Key)
    (agrees : Agrees K k (cached k) (C.stored s k)) where
  named-delivered :
      (a : A)
      → K.key a ≡ k
      → (o : Option String) → o ≢ none
      → (calls : List QueueCall) → is_retried ((handle_named K G C cached s a o).1 ++ calls) ≡ false
      → C.stored (handle_named K G C cached s a o).0 k ≡ delivered K G (some a) (C.stored s k)
  unfolding handle_named
  named-delivered a at_key none n calls h = absurd (n refl)
  named-delivered a at_key (some name) n calls h =
      let x = cached (K.key a) in
      handled-delivered K G C sending s a k at_key x
        (subst (λ j. Agrees K k (cached j) (C.stored s k)) (sym at_key) agrees)
        (unretried-none K G C name (handle_listed K G C s a x).1 calls h)

  present-delivered :
      (a : A) (d : Bool)
      → K.key a ≡ k
      → (calls : List QueueCall)
      → is_retried ((present_as K G C N cached s key k a d).1 ++ calls) ≡ false
      → C.stored (present_as K G C N cached s key k a d).0 k
        ≡ delivered K G (if d then none else some a) (C.stored s k)
  unfolding present_as handle_object
  present-delivered a true at_key calls h =
      deleted-none K G C lawful s k (deferred-none key (delete_object K G C s k).1 calls h)
  present-delivered a false at_key calls h =
      named-delivered a at_key (N.key_func (K.key a)) (named (K.key a)) ((forget key ∷ []) ++ calls)
        (subst (λ l. is_retried l ≡ false)
          (append_assoc (handle_named K G C cached s a (N.key_func (K.key a))).1 (forget key ∷ [])
            calls)
          h)

  asked-delivered :
      (x : Answer A) (e : ApiError)
      → Named K G k x
      → (calls : List QueueCall)
      → is_retried ((sync_asked K G C N cached s key k x).1 ++ calls) ≡ false
      → C.stored (sync_asked K G C N cached s key k x).0 k
        ≡ delivered K G (wanted K G (err e) x) (C.stored s k)
  unfolding sync_asked sync_present deferred
  asked-delivered (err not_found) e at_key calls h =
      deleted-none K G C lawful s k (deferred-none key (delete_object K G C s k).1 calls h)
  asked-delivered (err already_exists) e at_key calls h = cc
  asked-delivered (err other) e at_key calls h = cc
  asked-delivered (ok a) e at_key calls h = present-delivered a (K.is_deleting a) at_key calls h

  listed-delivered :
      (x asked : Answer A)
      → Named K G k x
      → Named K G k asked
      → (calls : List QueueCall)
      → is_retried ((sync_listed K G C N cached asked s key k x).1 ++ calls) ≡ false
      → C.stored (sync_listed K G C N cached asked s key k x).0 k
        ≡ delivered K G (wanted K G x asked) (C.stored s k)
  unfolding sync_listed sync_present deferred
  listed-delivered (err not_found) asked at_key asked_at calls h =
      asked-delivered asked not_found asked_at calls h
  listed-delivered (err already_exists) asked at_key asked_at calls h = cc
  listed-delivered (err other) asked at_key asked_at calls h = cc
  listed-delivered (ok a) asked at_key asked_at calls h =
      present-delivered a (K.is_deleting a) at_key calls h

-- The routine for a key whose namespace is there or is made, with the calls that follow.
module _ {A : Type 0} (K : Kind A) (G : Sending A) (C : Client A) (NS : Client String) (N : Keys)
    (named : (j : Key) → N.key_func j ≢ none) (lawful : IsLawful K C)
    (sending : IsLawfulSending K G C) (R : Sources A) (s : C.State) (key : String) (k : Key)
    (agrees : Agrees K k (R.in_member k) (C.stored s k)) (listed : Named K G k (R.listed k))
    (asked : Named K G k (R.asked k)) where
  ensured-delivered :
      (r : NS.State × Option ApiError)
      → is_retried (sync_ensured K G C NS N R s key k r).1 ≡ false
      → C.stored (sync_ensured K G C NS N R s key k r).0.0 k
        ≡ delivered K G (wanted K G (R.listed k) (R.asked k)) (C.stored s k)
  unfolding sync_ensured
  ensured-delivered (t, none) h =
      listed-delivered K G C N named lawful sending R.in_member s key k agrees (R.listed k)
        (R.asked k) listed asked (done key ∷ []) h
  ensured-delivered (t, some e) h = cc

  split-delivered :
      (t : NS.State) (o : Option Key)
      → o ≡ some k
      → is_retried (sync_named K G C NS N R s t key o).1 ≡ false
      → C.stored (sync_named K G C NS N R s t key o).0.0 k
        ≡ delivered K G (wanted K G (R.listed k) (R.asked k)) (C.stored s k)
  unfolding sync_named
  split-delivered t none e h = cc
  split-delivered t (some i) e h =
      let at_k : is_retried
            (sync_ensured K G C NS N R s key k (ensure_namespace NS R.namespaces t k.0)).1
          ≡ false =
        subst
          (λ j.
            is_retried
              (sync_ensured K G C NS N R s key j (ensure_namespace NS R.namespaces t j.0)).1
            ≡ false)
          (some_cancel e) h in
      rw (some_cancel e) (ensured-delivered (ensure_namespace NS R.namespaces t k.0) at_k)

  -- A key that is not put back for a retry is settled: its object in the member cluster is gone if
  -- the master cluster does not have it or deletes it; it is the prepared object if there was none;
  -- and otherwise it is brought up to date, unless nothing differs or it is not marked global. The
  -- listers are assumed to answer with objects of the key, and the member cluster's to agree with
  -- the cluster.
  pub sync_sent-delivered :
      (t : NS.State)
      → N.split key ≡ some k
      → is_retried (sync_sent K G C NS N R s t (some key)).1 ≡ false
      → C.stored (sync_sent K G C NS N R s t (some key)).0.0 k
        ≡ delivered K G (wanted K G (R.listed k) (R.asked k)) (C.stored s k)
  unfolding sync_sent
  sync_sent-delivered t split h = split-delivered t (N.split key) split h
