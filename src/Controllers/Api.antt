-- ===== src/Controllers/Api.antt =====
-- What the controllers of pkg/controllers use of client-go: listers, clients, queues and keys. None
-- of it is code of the repository, so it is a parameter with the laws that the code relies on.
use clusterrouter.Base.{
  String, ◌≡◌, ◌≢◌, ap, ap₂, Bool, true, false, Option, none, some, List, [], ◌∷◌, text_dec, ite,
}
use clusterrouter.Conversion.{ObjectMeta}

-- Namespace and name.
abbrev pub Key : Type 0
Key = String × String

unfoldable pub key_dec : Discrete Key
key_dec (a, b) (c, d) = elim (text_dec a c) [
  | no n ↦ no (λ e. n (ap (λ k. k.0) e))
  | yes p ↦ elim (text_dec b d) [
    | no n ↦ no (λ e. n (ap (λ k. k.1) e))
    | yes q ↦ yes (ap₂ (λ x y. (x, y)) p q)
  ]
]

-- Errors as `IsNotFound` and `IsAlreadyExists` tell them apart.
pub data ApiError : Type 0 where
  not_found already_exists other : ApiError

pub data Answer (A : Type 0) : Type 0 where
  ok : A → Answer A
  err : ApiError → Answer A

abbrev pub is_not_found : ApiError → Bool
is_not_found not_found = true
is_not_found _ = false

abbrev pub is_already_exists : ApiError → Bool
is_already_exists already_exists = true
is_already_exists _ = false

-- The error of an answer, and the same where `IsNotFound` is no failure.
abbrev pub failure : {A : Type 0} → Answer A → Option ApiError
failure (ok a) = none
failure (err e) = some e

abbrev pub failure_unless_gone : {A : Type 0} → Answer A → Option ApiError
failure_unless_gone (ok a) = none
failure_unless_gone (err not_found) = none
failure_unless_gone (err already_exists) = some already_exists
failure_unless_gone (err other) = some other

-- A lister reads the cache of an informer, whose objects the code may change.
abbrev pub Cache : Type 0 → Type 0
Cache A = Key → Answer A

unfoldable pub cache_write : {A : Type 0} → Key → A → Cache A → Cache A
cache_write k a cached j = ite (key_dec k j) (ok a) (cached j)

-- The objects of one kind in a cluster, over its state: `stored` is what the server has, without
-- what it numbers itself.
pub record Client (A : Type 0) : Type 1 where
  pub State : Type 0
  pub stored : State → Key → Option A
  pub get : State → Key → Answer A
  pub create : State → A → State × Answer A
  pub update : State → A → State × Answer A
  pub patch : State → Key → String → State × Answer A
  pub delete : State → Key → State × Answer (Unit {0})

-- The fields of an object that a controller reads, for each kind of object.
pub record Kind (A : Type 0) : Type 0 where
  pub key : A → Key
  pub meta : A → ObjectMeta
  -- `DeletionTimestamp` is set.
  pub is_deleting : A → Bool

-- A call for one key leaves the others alone, whatever it answers. An object that was deleted, or
-- not found to be deleted, is gone, and one that was updated is stored.
pub record IsLawful {A : Type 0} (K : Kind A) (C : Client A) : Type 0 where
  pub delete-others : (s : C.State) (k j : Key) → k ≢ j → C.stored (C.delete s k).0 j ≡ C.stored s j
  pub delete_gone :
      (s : C.State) (k : Key)
      → failure_unless_gone (C.delete s k).1 ≡ none
      → C.stored (C.delete s k).0 k ≡ none
  pub update-others :
      (s : C.State) (a : A) (j : Key) → K.key a ≢ j → C.stored (C.update s a).0 j ≡ C.stored s j
  pub update_stored :
      (s : C.State) (a : A)
      → failure (C.update s a).1 ≡ none
      → C.stored (C.update s a).0 (K.key a) ≡ some a

-- The calls on a rate limiting queue.
pub data QueueCall : Type 0 where
  add add_rate_limited forget done : String → QueueCall

-- `SplitMetaNamespaceKey` and `MetaNamespaceKeyFunc`.
pub record Keys : Type 0 where
  pub split : String → Option Key
  pub key_func : Key → Option String

-- `defer func() { if err != nil { AddRateLimited } else { Forget } }()`.
unfoldable pub deferred : String → Option ApiError → List QueueCall
deferred key none = forget key ∷ []
deferred key (some e) = add_rate_limited key ∷ []
