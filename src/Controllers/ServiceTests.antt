-- ===== src/Controllers/ServiceTests.antt =====
-- Runs of the routines for endpoints, over clusters in memory, and the theorems at inputs.
use clusterrouter.Base.{
  ℕ, zero, suc, ◌*◌, inl, List, String, ◌≡◌, ◌≢◌, refl, sym, ap, subst, ◌∙◌, false, Option, none,
  some, [], some_cancel, ite, if_pos, if_neg, text_dec, lookup,
}
use clusterrouter.Conversion.{ObjectMeta, is_object_global, set_object_global, trim_object_meta}
use clusterrouter.Conversion.Filters.{filter_common}
use clusterrouter.Controllers.Api.{
  Key, key_dec, not_found, other, ok, err, failure, Cache, Client, QueueCall, Keys,
}
use clusterrouter.Controllers.Memory.{keep, created, patched, memory, put_same, memory-IsLawful}
use clusterrouter.Controllers.Services.{
  Endpoints, endpoints_kind, Sending, endpoints_sending, prepare_endpoints, Sources, sync_sent,
}
use clusterrouter.Controllers.Delivered.{IsLawfulSending}
use clusterrouter.Controllers.Settled.{sync_sent-delivered}
use clusterrouter.Controllers.Unmarked.{sync_sent-unmarked}
use clusterrouter.Controllers.Retried.{Limiter, limited, IsRetried, sync_sent-failed}

abbrev plain_meta : ObjectMeta
plain_meta = record {
  uid = "";
  resource_version = "";
  self_link = "";
  owner_references = [];
  labels = none;
  annotations = none;
}

abbrev api_key : Key
api_key = ("shop", "api")

abbrev api : String → ObjectMeta → Endpoints
api subsets meta = record { key = api_key; meta = meta; is_deleting = false; subsets = subsets }

-- A patch that replaces the subsets, where only they differ.
abbrev apply : String → Endpoints → Endpoints
apply p a = record a { subsets = p }

Endpoints-discrete : Discrete Endpoints
Endpoints-discrete = hlevel (text_dec)

patch_between : Endpoints → Endpoints → Option String
patch_between a b = ite (Endpoints-discrete (apply b.subsets a) b) (some b.subsets) none

abbrev endpoints : Client Endpoints
endpoints = memory endpoints_kind apply

abbrev names : Client String
names =
    memory (record { key = λ n. ("", n); meta = λ n. plain_meta; is_deleting = λ n. false }) keep

patch_applies : (a b : Endpoints) (p : String) → patch_between a b ≡ some p → apply p a ≡ b
unfolding patch_between
patch_applies a b p h = elim (Endpoints-discrete (apply b.subsets a) b) [
  | yes e ↦
      let same : b.subsets ≡ p =
        some_cancel
          (sym (if_pos (Endpoints-discrete (apply b.subsets a) b) e (some b.subsets) none) ∙ h) in
      subst (λ q. apply q a ≡ b) same e
  | no n ↦
      none_some p
        (sym (if_neg (Endpoints-discrete (apply b.subsets a) b) n (some b.subsets) none) ∙ h)
]
  where
    none_some : (q : String) → none ≡ some q → apply q a ≡ b
    none_some q e = cc

abbrev sending : Sending Endpoints
sending = endpoints_sending patch_between

created_stored :
    (s : Key → Option Endpoints) (a : Endpoints) (o : Option Endpoints)
    → s a.key ≡ o
    → failure (created endpoints_kind apply s a o).1 ≡ none
    → (created endpoints_kind apply s a o).0 a.key ≡ some a
created_stored s a none e h = put_same endpoints_kind apply a.key (some a) s
created_stored s a (some b) e h = cc

patched_stored :
    (s : Key → Option Endpoints) (a b : Endpoints) (p : String) (o : Option Endpoints)
    → o ≡ some a
    → apply p a ≡ b
    → (patched endpoints_kind apply s a.key p o).0 a.key ≡ some b
patched_stored s a b p none e h = cc
patched_stored s a b p (some c) e h =
    put_same endpoints_kind apply a.key (some (apply p c)) s
    ∙ ap some (ap (apply p) (some_cancel e) ∙ h)

prepared_key : (a b : Endpoints) → prepare_endpoints a ≡ some b → b.key ≡ a.key
unfolding prepare_endpoints
prepared_key a b h = sym (ap (λ (x : Endpoints). x.key) (some_cancel h))

sending-IsLawful : IsLawfulSending endpoints_kind sending endpoints
sending-IsLawful = record {
  prepare_key = prepared_key;
  create_stored = λ s a h. created_stored s a (s a.key) refl h;
  patch_stored =
      λ s a b p stored m h. patched_stored s a b p (s a.key) stored (patch_applies a b p m);
}

abbrev api_keys : Keys
api_keys = record {
  split = λ s. ite (text_dec s "shop/api") (some api_key) none;
  key_func = λ k. some "shop/api";
}

abbrev none_there : {A : Type 0} → Cache A
none_there k = err not_found

abbrev only : Endpoints → Cache Endpoints
only a j = ite (key_dec a.key j) (ok a) (err not_found)

abbrev sources : Cache Endpoints → Cache Endpoints → Sources Endpoints
sources listed in_member = record {
  listed = listed;
  asked = none_there;
  in_member = in_member;
  namespaces = λ k. ok "shop";
}

has_name : (k : Key) → api_keys.key_func k ≢ none
has_name k e = cc

-- The endpoints are made in the member cluster.
sync_sent-delivered_example :
    (sync_sent endpoints_kind sending endpoints names api_keys
        (sources (only (api "10.0.0.1" plain_meta)) none_there)
        (λ k. none)
        (λ k. none)
        (some "shop/api")).0.0
      api_key
    ≡ some (api "10.0.0.1" (set_object_global (trim_object_meta plain_meta)))
unfolding sync_sent prepare_endpoints filter_common text_dec key_dec
sync_sent-delivered_example =
    sync_sent-delivered endpoints_kind sending endpoints names api_keys has_name
      (memory-IsLawful endpoints_kind apply) sending-IsLawful
      (sources (only (api "10.0.0.1" plain_meta)) none_there) (λ k. none) "shop/api" api_key refl
      refl tt (λ k. none) refl refl

sync_sent-unmarked_example :
    (sync_sent endpoints_kind sending endpoints names api_keys
      (sources (only (api "10.0.0.1" plain_meta)) (only (api "10.9.9.9" plain_meta)))
      (λ k. some (api "10.9.9.9" plain_meta))
      (λ k. none)
      (some "shop/api")).0.0
    ≡ (λ k. some (api "10.9.9.9" plain_meta))
unfolding is_object_global lookup text_dec key_dec
sync_sent-unmarked_example =
    sync_sent-unmarked endpoints_kind sending endpoints names api_keys
      (sources (only (api "10.0.0.1" plain_meta)) (only (api "10.9.9.9" plain_meta)))
      (λ k. some (api "10.9.9.9" plain_meta)) (λ k. none) "shop/api" api_key
      (api "10.0.0.1" plain_meta) (api "10.9.9.9" plain_meta) refl (inl refl) refl refl refl

-- A limiter that doubles the delay of a key with each of its failures.
abbrev doubled : ℕ → ℕ
doubled zero = 5
doubled (suc n) = doubled n * 2

abbrev set_failures : (String → ℕ) → String → ℕ → String → ℕ
set_failures s k n j = ite (text_dec k j) n (s j)

abbrev doubling : Limiter
doubling = record {
  State = String → ℕ;
  first = 5;
  when = λ s k. (set_failures s k (suc (s k)), doubled (s k));
  forgotten = λ s k. set_failures s k 0;
  forgotten_first = λ s k. ap doubled (if_pos (text_dec k k) refl 0 (s k));
}

abbrev failed_calls : List QueueCall
failed_calls =
    (sync_sent endpoints_kind sending endpoints names api_keys
      (sources (only (api "10.0.0.1" plain_meta)) (λ k. err other)) (λ k. none) (λ k. none)
      (some "shop/api")).1

sync_sent-failed_example :
    IsRetried "shop/api" failed_calls
    × ((u : String → ℕ) → doubled (limited doubling failed_calls u "shop/api") ≡ 5)
unfolding sync_sent text_dec key_dec
sync_sent-failed_example =
    sync_sent-failed endpoints_kind sending endpoints names api_keys
      (sources (only (api "10.0.0.1" plain_meta)) (λ k. err other)) (λ k. none) (λ k. none)
      "shop/api" api_key (api "10.0.0.1" plain_meta) doubling other refl refl (inl refl) refl refl
      refl
