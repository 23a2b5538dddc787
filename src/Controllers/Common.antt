-- ===== src/Controllers/Common.antt =====
-- pkg/controllers/common.go: config maps and secrets copied from the master cluster to a member
-- cluster. The two kinds have the same code, up to the fields that are compared and written.
use clusterrouter.Base.{
  String, Bool, true, false, not, ◌&&◌, ◌||◌, Option, none, some, List, [], ◌∷◌, ◌++◌, text_dec,
  ite, if◌then◌else◌,
}
use clusterrouter.Conversion.{ObjectMeta, is_object_global}
use clusterrouter.Controllers.Api.{
  Key, ApiError, Answer, ok, err, not_found, is_not_found, failure, failure_unless_gone, Cache,
  cache_write, Client, Kind, QueueCall, add, done, Keys, deferred,
}

-- Maps by what they hold; `reflect.DeepEqual` tells a nil map from an empty one.
pub record ConfigMap : Type 0 where
  pub key : Key
  pub meta : ObjectMeta
  pub is_deleting : Bool
  pub content : Option String
  pub binary_content : Option String

pub record Secret : Type 0 where
  pub key : Key
  pub meta : ObjectMeta
  pub is_deleting : Bool
  pub content : Option String
  pub string_content : Option String
  pub secret_type : String

abbrev pub config_map_kind : Kind ConfigMap
config_map_kind = record { key = λ a. a.key; meta = λ a. a.meta; is_deleting = λ a. a.is_deleting }

abbrev pub secret_kind : Kind Secret
secret_kind = record { key = λ a. a.key; meta = λ a. a.meta; is_deleting = λ a. a.is_deleting }

-- `UpdateConfigMap` and `UpdateSecret` of pkg/utils/k8s.go.
unfoldable pub update_config_map : ConfigMap → ConfigMap → ConfigMap
update_config_map old new = record old {
  meta = record old.meta { labels = new.meta.labels };
  content = new.content;
  binary_content = new.binary_content;
}

unfoldable pub update_secret : Secret → Secret → Secret
update_secret old new = record old {
  meta = record old.meta { labels = new.meta.labels };
  content = new.content;
  string_content = new.string_content;
  secret_type = new.secret_type;
}

unfoldable pub same_text : Option String → Option String → Bool
same_text none none = true
same_text (some s) (some t) = ite (text_dec s t) true false
same_text _ _ = false

-- `shouldEnqueue`: the namespace is not that of the system.
unfoldable pub should_enqueue : Key → Bool
should_enqueue k = ite (text_dec k.0 "kube-system") false true

unfoldable pub should_enqueue_update_config_map : ConfigMap → ConfigMap → Bool
unfolding should_enqueue same_text
should_enqueue_update_config_map old new =
    should_enqueue new.key
    && (not (same_text old.content new.content)
        || not (same_text old.binary_content new.binary_content)
        || new.is_deleting)

abbrev pub service_account_token : String
service_account_token = "kubernetes.io/service-account-token"

unfoldable pub should_enqueue_add_secret : Secret → Bool
unfolding should_enqueue
should_enqueue_add_secret secret =
    should_enqueue secret.key && ite (text_dec secret.secret_type service_account_token) false true

unfoldable pub should_enqueue_update_secret : Secret → Secret → Bool
unfolding should_enqueue_add_secret same_text
should_enqueue_update_secret old new =
    should_enqueue_add_secret old
    && should_enqueue_add_secret new
    && (not (same_text old.content new.content)
        || not (same_text old.string_content new.string_content)
        || ite (text_dec old.secret_type new.secret_type) false true
        || new.is_deleting)

-- An error of `MetaNamespaceKeyFunc` is only logged.
unfoldable pub enqueue_object : Keys → Key → List QueueCall
enqueue_object N k = elim (N.key_func k) [ none ↦ [] | some key ↦ add key ∷ [] ]

-- `configMapAdd` and `configMapDeleted`, and the same of secrets.
unfoldable pub config_map_add : Keys → ConfigMap → List QueueCall
unfolding should_enqueue enqueue_object
config_map_add N a = if should_enqueue a.key then enqueue_object N a.key else []

unfoldable pub config_map_deleted : Keys → ConfigMap → List QueueCall
unfolding should_enqueue enqueue_object
config_map_deleted N a = if should_enqueue a.key then enqueue_object N a.key else []

unfoldable pub secret_add : Keys → Secret → List QueueCall
unfolding should_enqueue enqueue_object
secret_add N a = if should_enqueue a.key then enqueue_object N a.key else []

unfoldable pub secret_deleted : Keys → Secret → List QueueCall
unfolding should_enqueue enqueue_object
secret_deleted N a = if should_enqueue a.key then enqueue_object N a.key else []

unfoldable pub config_map_updated : Keys → ConfigMap → ConfigMap → List QueueCall
unfolding should_enqueue_update_config_map is_object_global enqueue_object
config_map_updated N old new =
    if should_enqueue_update_config_map old new && is_object_global new.meta
    then enqueue_object N new.key
    else []

unfoldable pub secret_updated : Keys → Secret → Secret → List QueueCall
unfolding should_enqueue_update_secret is_object_global enqueue_object
secret_updated N old new =
    if should_enqueue_update_secret old new && is_object_global new.meta
    then enqueue_object N new.key
    else []

-- The member cluster and the cache that its lister reads.
pub record Member {A : Type 0} (C : Client A) : Type 0 where
  pub api : C.State
  pub cached : Cache A

-- The routines for one key, with the error that the deferred function sees.
module _ {A : Type 0} (K : Kind A) (write : A → A → A) (C : Client A) where
  unfoldable pub delete_in_client : Member C → Key → Member C × Option ApiError
  delete_in_client w k =
      let (s, answer) = C.delete w.api k in (record w { api = s }, failure_unless_gone answer)

  unfoldable pub send_update : Member C → A → Member C × Option ApiError
  send_update w a = let (s, answer) = C.update w.api a in (record w { api = s }, failure answer)

  unfoldable pub unless_global : Bool → Member C → A → Member C × Option ApiError
  unfolding send_update
  unless_global true w a = (w, none)
  unless_global false w a = send_update w a

  -- What the member cluster's lister answered about an object that is to be updated: its object is
  -- changed in place, before the test.
  unfoldable pub update_listed : Member C → Key → A → Answer A → Member C × Option ApiError
  unfolding unless_global cache_write is_object_global
  update_listed w k a (err e) = (w, if is_not_found e then none else some e)
  update_listed w k a (ok old) =
      unless_global (is_object_global (K.meta (write old a)))
        (record w { cached = cache_write k (write old a) w.cached }) (write old a)

  -- What it answered about an object that the master cluster does not have.
  unfoldable pub delete_listed : Member C → Key → Answer A → Member C × Option ApiError
  unfolding delete_in_client
  delete_listed w k (err e) = (w, if is_not_found e then none else some e)
  delete_listed w k (ok old) = delete_in_client w k

  -- What the master cluster's lister answered.
  unfoldable pub sync_fetched : Member C → Key → Answer A → Member C × Option ApiError
  unfolding delete_in_client delete_listed update_listed
  sync_fetched w k (err not_found) = delete_listed w k (w.cached k)
  sync_fetched w k (err e) = (w, some e)
  sync_fetched w k (ok a) =
      if K.is_deleting a then delete_in_client w k else update_listed w k a (w.cached k)

  unfoldable pub sync_object : Cache A → Member C → Key → Member C × Option ApiError
  unfolding sync_fetched
  sync_object master w k = sync_fetched w k (master k)

  -- The routine for a key that was split, if it could be, and for what `Get` of the queue
  -- returned; `none` is its shutdown.
  unfoldable pub sync_split : Cache A → Member C → String → Option Key → Member C × List QueueCall
  unfolding sync_object deferred
  sync_split master w key none = (w, QueueCall.forget key ∷ done key ∷ [])
  sync_split master w key (some k) =
      let (w', e) = sync_object master w k in (w', deferred key e ++ (done key ∷ []))

  unfoldable pub sync_next : Keys → Cache A → Member C → Option String → Member C × List QueueCall
  unfolding sync_split
  sync_next N master w none = (w, [])
  sync_next N master w (some key) = sync_split master w key (N.split key)

unfoldable pub sync_config_map :
    (C : Client ConfigMap)
    → Keys
    → Cache ConfigMap
    → Member C
    → Option String
    → Member C × List QueueCall
sync_config_map C = sync_next config_map_kind update_config_map C

unfoldable pub sync_secret :
    (C : Client Secret) → Keys → Cache Secret → Member C → Option String → Member C × List QueueCall
sync_secret C = sync_next secret_kind update_secret C

-- The collection of what the master cluster does not have any more.
unfoldable pub is_orphan : {A : Type 0} → Kind A → Cache A → A → Bool
unfolding is_object_global
is_orphan K master a =
    is_object_global (K.meta a) && elim (master (K.key a)) [ ok _ ↦ false | err e ↦ is_not_found e ]

module _ {A : Type 0} (K : Kind A) (C : Client A) where
  -- The loop over the objects of the member cluster's lister; a nil object is `none`. An error of
  -- a delete is only logged.
  unfoldable pub collect : Cache A → C.State → List (Option A) → C.State
  unfolding is_orphan
  collect master s [] = s
  collect master s (none ∷ objects) = collect master s objects
  collect master s (some a ∷ objects) =
      collect master (if is_orphan K master a then (C.delete s (K.key a)).0 else s) objects

  unfoldable pub gc_objects : Cache A → C.State → Answer (List (Option A)) → C.State
  unfolding collect
  gc_objects master s (err e) = s
  gc_objects master s (ok objects) = collect master s objects

unfoldable pub gc_config_map :
    (C : Client ConfigMap) → Cache ConfigMap → C.State → Answer (List (Option ConfigMap)) → C.State
gc_config_map C = gc_objects config_map_kind C

unfoldable pub gc_secret :
    (C : Client Secret) → Cache Secret → C.State → Answer (List (Option Secret)) → C.State
gc_secret C = gc_objects secret_kind C

unfoldable pub gc :
    (C : Client ConfigMap) (D : Client Secret)
    → Cache ConfigMap
    → Cache Secret
    → C.State
    → D.State
    → Answer (List (Option ConfigMap))
    → Answer (List (Option Secret))
    → C.State × D.State
gc C D config_maps secrets c d listed_config_maps listed_secrets =
    (gc_config_map C config_maps c listed_config_maps, gc_secret D secrets d listed_secrets)
