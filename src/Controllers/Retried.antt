-- ===== src/Controllers/Retried.antt =====
-- pkg/controllers/service.go: keys whose handler failed, and the rate limiter of the queue.
use clusterrouter.Base.{
  ℕ, sym, subst, List, inl, inr, ◌⊎◌, String, ◌≡◌, refl, ap, Bool, true, false, Option, none, some,
  [], ◌∷◌, ◌++◌, some_cancel,
}
use clusterrouter.Controllers.Api.{
  Key, ApiError, Answer, Cache, Client, Kind, QueueCall, add, add_rate_limited, forget, done, Keys,
}
use clusterrouter.Controllers.Services.{
  Sending, handle_listed, retried, handle_named, handle_object, present_as, sync_present,
  sync_listed, sync_asked, Sources, sync_ensured, sync_named, sync_sent, ensure_namespace,
}
use clusterrouter.Controllers.Unmarked.{IsHad}

-- The rate limiter of a queue: what an item has to wait, which counts it as failed once more, and the
-- reset that `Forget` makes, after which the item has to wait as one that never failed.
pub record Limiter : Type 1 where
  pub State : Type 0
  pub first : ℕ
  pub when : State → String → State × ℕ
  pub forgotten : State → String → State
  pub forgotten_first : (s : State) (k : String) → (when (forgotten s k) k).1 ≡ first

-- What calls on the queue do to its limiter.
abbrev pub limited : (L : Limiter) → List QueueCall → L.State → L.State
limited L [] u = u
limited L (add key ∷ calls) u = limited L calls u
limited L (add_rate_limited key ∷ calls) u = limited L calls (L.when u key).0
limited L (forget key ∷ calls) u = limited L calls (L.forgotten u key)
limited L (done key ∷ calls) u = limited L calls u

-- The key is put back behind the limiter.
abbrev pub IsRetried : String → List QueueCall → Type 0
IsRetried key [] = ⊥
IsRetried key (add_rate_limited k ∷ calls) = (k ≡ key) ⊎ IsRetried key calls
IsRetried key (add k ∷ calls) = IsRetried key calls
IsRetried key (forget k ∷ calls) = IsRetried key calls
IsRetried key (done k ∷ calls) = IsRetried key calls

module _ {A : Type 0} (K : Kind A) (G : Sending A) (C : Client A) (NS : Client String) (N : Keys)
    (R : Sources A) (s : C.State) (t : NS.State) (key : String) (k : Key) (a : A) where
  failed-named :
      (e : ApiError) (o : Option String) (cached : Cache A)
      → o ≡ some key
      → (handle_listed K G C s a (cached (K.key a))).1 ≡ some e
      → (handle_named K G C cached s a o).1 ≡ add_rate_limited key ∷ []
  unfolding handle_named retried
  failed-named e none cached p h = cc
  failed-named e (some name) cached p h = rw (h, some_cancel p) refl

  failed-present :
      (e : ApiError) (cached : Cache A) (d : Bool)
      → d ≡ false
      → N.key_func (K.key a) ≡ some key
      → (handle_listed K G C s a (cached (K.key a))).1 ≡ some e
      → (present_as K G C N cached s key k a d).1 ≡ add_rate_limited key ∷ forget key ∷ []
  unfolding present_as handle_object
  failed-present e cached true f p h = cc
  failed-present e cached false f p h =
      ap (λ l. l ++ (forget key ∷ [])) (failed-named e (N.key_func (K.key a)) cached p h)

  failed-listed :
      (e : ApiError) (cached : Cache A) (x asked : Answer A)
      → IsHad a x asked
      → K.is_deleting a ≡ false
      → N.key_func (K.key a) ≡ some key
      → (handle_listed K G C s a (cached (K.key a))).1 ≡ some e
      → (sync_listed K G C N cached asked s key k x).1 ≡ add_rate_limited key ∷ forget key ∷ []
  unfolding sync_listed sync_asked sync_present
  failed-listed e cached x asked l f p h =
      let failed = failed-present e cached (K.is_deleting a) f p h in
      elim l [ inl there ↦ rw there failed | inr (absent, answered) ↦ rw (absent, answered) failed ]

  failed-ensured :
      (e : ApiError) (r : NS.State × Option ApiError)
      → r.1 ≡ none
      → IsHad a (R.listed k) (R.asked k)
      → K.is_deleting a ≡ false
      → N.key_func (K.key a) ≡ some key
      → (handle_listed K G C s a (R.in_member (K.key a))).1 ≡ some e
      → (sync_ensured K G C NS N R s key k r).1 ≡ add_rate_limited key ∷ forget key ∷ done key ∷ []
  unfolding sync_ensured
  failed-ensured e (u, none) n l f p h =
      ap (λ c. c ++ (done key ∷ [])) (failed-listed e R.in_member (R.listed k) (R.asked k) l f p h)
  failed-ensured e (u, some x) n l f p h = cc

  failed-split :
      (e : ApiError) (o : Option Key)
      → o ≡ some k
      → (ensure_namespace NS R.namespaces t k.0).1 ≡ none
      → IsHad a (R.listed k) (R.asked k)
      → K.is_deleting a ≡ false
      → N.key_func (K.key a) ≡ some key
      → (handle_listed K G C s a (R.in_member (K.key a))).1 ≡ some e
      → (sync_named K G C NS N R s t key o).1 ≡ add_rate_limited key ∷ forget key ∷ done key ∷ []
  unfolding sync_named
  failed-split e none q n l f p h = cc
  failed-split e (some i) q n l f p h =
      rw (some_cancel q) (failed-ensured e (ensure_namespace NS R.namespaces t k.0) n l f p h)

  failed_calls :
      (e : ApiError)
      → N.split key ≡ some k
      → (ensure_namespace NS R.namespaces t k.0).1 ≡ none
      → IsHad a (R.listed k) (R.asked k)
      → K.is_deleting a ≡ false
      → N.key_func (K.key a) ≡ some key
      → (handle_listed K G C s a (R.in_member (K.key a))).1 ≡ some e
      → (sync_sent K G C NS N R s t (some key)).1
        ≡ add_rate_limited key ∷ forget key ∷ done key ∷ []
  unfolding sync_sent
  failed_calls e split n l f p h = failed-split e (N.split key) split n l f p h

  -- If the handler fails for an object that the master cluster has, by its lister or by asking it, and
  -- that is not being deleted, with its namespace in the member cluster, the key is put back behind the
  -- rate limiter; but whatever the limiter knew of its failures, the next delay of the key is again the
  -- first one, for any limiter whose `Forget` makes it so.
  pub sync_sent-failed :
      (L : Limiter) (e : ApiError)
      → N.split key ≡ some k
      → (ensure_namespace NS R.namespaces t k.0).1 ≡ none
      → IsHad a (R.listed k) (R.asked k)
      → K.is_deleting a ≡ false
      → N.key_func (K.key a) ≡ some key
      → (handle_listed K G C s a (R.in_member (K.key a))).1 ≡ some e
      → let calls = (sync_sent K G C NS N R s t (some key)).1 in
        IsRetried key calls × ((u : L.State) → (L.when (limited L calls u) key).1 ≡ L.first)
  sync_sent-failed L e split n l f p h =
      subst
        (λ calls.
          IsRetried key calls × ((u : L.State) → (L.when (limited L calls u) key).1 ≡ L.first))
        (sym (failed_calls e split n l f p h))
        (inl refl, λ u. L.forgotten_first (L.when u key).0 key)
