-- ===== src/Controllers/Services.antt =====
-- pkg/controllers/service.go: services and endpoints sent to a member cluster, and the namespace
-- that they need there (`ensureNamespace` of pkg/controllers/utils.go). The two kinds have the same
-- code, up to what is prepared and compared. The logs are left out.
use clusterrouter.Base.{
  String, Bool, true, false, ◌&&◌, Option, none, some, List, [], ◌∷◌, ◌++◌, text_dec, ite,
  if◌then◌else◌,
}
use clusterrouter.Conversion.{ObjectMeta, Json, is_object_global, check_global_label_equal}
use clusterrouter.Conversion.Filters.{Service, filter_service, filter_common}
use clusterrouter.Controllers.Api.{
  Key, ApiError, not_found, already_exists, other, Answer, ok, err, failure, failure_unless_gone,
  Cache, Client, Kind, QueueCall, add, add_rate_limited, forget, done, Keys, deferred,
}
use clusterrouter.Controllers.Common.{is_orphan}

-- A service with what else it has, by its text.
pub record ServiceObject : Type 0 where
  pub key : Key
  pub is_deleting : Bool
  pub service : Service
  pub rest : String

pub record Endpoints : Type 0 where
  pub key : Key
  pub is_deleting : Bool
  pub meta : ObjectMeta
  pub subsets : String

abbrev pub service_kind : Kind ServiceObject
service_kind = record {
  key = λ a. a.key;
  meta = λ a. a.service.meta;
  is_deleting = λ a. a.is_deleting;
}

abbrev pub endpoints_kind : Kind Endpoints
endpoints_kind = record { key = λ a. a.key; meta = λ a. a.meta; is_deleting = λ a. a.is_deleting }

-- How objects of a kind are sent: what is made of them, if it succeeds, what they keep of the object
-- that is there, which are left as they are, and the patch, if `CreateMergePatch` makes one.
pub record Sending (A : Type 0) : Type 0 where
  pub prepare : A → Option A
  pub adopt : A → A → A
  pub same : A → A → Bool
  pub merge_patch : A → A → Option String

unfoldable pub prepare_service : Json → ServiceObject → Option ServiceObject
unfolding filter_service
prepare_service J a = elim (filter_service J a.service) [
  | none ↦ none
  | some service ↦ some (record a { service = service })
]

unfoldable pub adopt_service : ServiceObject → ServiceObject → ServiceObject
adopt_service in_sub copy = record copy {
  service = record copy.service {
    meta = record copy.service.meta { resource_version = in_sub.service.meta.resource_version };
    cluster_ip = in_sub.service.cluster_ip;
  };
}

unfoldable pub prepare_endpoints : Endpoints → Option Endpoints
unfolding filter_common
prepare_endpoints a = some (record a { meta = filter_common a.meta })

unfoldable pub adopt_endpoints : Endpoints → Endpoints → Endpoints
adopt_endpoints in_sub copy = record copy {
  meta = record copy.meta { resource_version = in_sub.meta.resource_version };
}

-- `reflect.DeepEqual` on the subsets, by their text.
unfoldable pub same_subsets : Endpoints → Endpoints → Bool
same_subsets a b = ite (text_dec a.subsets b.subsets) true false

-- `deep_equal` compares the specifications and the states of two services.
abbrev pub service_sending :
    Json
    → (ServiceObject → ServiceObject → Bool)
    → (ServiceObject → ServiceObject → Option String)
    → Sending ServiceObject
service_sending J deep_equal merge_patch = record {
  prepare = prepare_service J;
  adopt = adopt_service;
  same = deep_equal;
  merge_patch = merge_patch;
}

abbrev pub endpoints_sending : (Endpoints → Endpoints → Option String) → Sending Endpoints
endpoints_sending merge_patch = record {
  prepare = prepare_endpoints;
  adopt = adopt_endpoints;
  same = same_subsets;
  merge_patch = merge_patch;
}

-- `shouldEnqueue`.
unfoldable pub should_send : Key → Bool
should_send k = ite (text_dec k.0 "kube-system") false (ite (text_dec k.1 "kubernetes") false true)

unfoldable pub enqueue_key : Keys → Key → List QueueCall
enqueue_key N k = elim (N.key_func k) [ none ↦ [] | some key ↦ add key ∷ [] ]

-- `serviceAdded`, which is told of deletions too, and `serviceUpdated`.
unfoldable pub service_added : Keys → ServiceObject → List QueueCall
unfolding should_send enqueue_key
service_added N a = if should_send a.key then enqueue_key N a.key else []

unfoldable pub service_updated : Keys → ServiceObject → List QueueCall
unfolding should_send enqueue_key is_object_global
service_updated N a =
    if should_send a.key && is_object_global a.service.meta then enqueue_key N a.key else []

unfoldable pub endpoints_added : Keys → Endpoints → List QueueCall
unfolding should_send enqueue_key
endpoints_added N a = if should_send a.key then enqueue_key N a.key else []

unfoldable pub endpoints_updated : Keys → Endpoints → List QueueCall
unfolding should_send enqueue_key is_object_global
endpoints_updated N a =
    if should_send a.key && is_object_global a.meta then enqueue_key N a.key else []

-- `ensureNamespace`, over the client of namespaces, whose objects are their names.
module _ (NS : Client String) where
  unfoldable pub created_namespace : NS.State × Answer String → NS.State × Option ApiError
  created_namespace (s, ok _) = (s, none)
  created_namespace (s, err already_exists) = (s, none)
  created_namespace (s, err e) = (s, some e)

  unfoldable pub ensure_listed : NS.State → String → Answer String → NS.State × Option ApiError
  unfolding created_namespace
  ensure_listed s ns (ok _) = (s, none)
  ensure_listed s ns (err not_found) = created_namespace (NS.create s ns)
  ensure_listed s ns (err e) = (s, some e)

  -- The namespaces stand under the empty namespace.
  unfoldable pub ensure_namespace : Cache String → NS.State → String → NS.State × Option ApiError
  unfolding ensure_listed
  ensure_namespace listed s ns = ensure_listed s ns (listed ("", ns))

module _ {A : Type 0} (K : Kind A) (G : Sending A) (C : Client A) where
  abbrev pub Done : Type 0
  Done = C.State × Option ApiError

  unfoldable pub delete_object : C.State → Key → Done
  delete_object s k = let (s', answer) = C.delete s k in (s', failure_unless_gone answer)

  unfoldable pub create_object : C.State → Option A → Done
  create_object s none = (s, some other)
  create_object s (some a) = let (s', answer) = C.create s a in (s', failure answer)

  unfoldable pub send_patch : C.State → A → Option String → Done
  send_patch s in_sub none = (s, some other)
  send_patch s in_sub (some patch) =
      let (s', answer) = C.patch s (K.key in_sub) patch in (s', failure answer)

  unfoldable pub unless_same : Bool → Bool → C.State → A → A → Done
  unfolding send_patch
  unless_same true global s in_sub clone = (s, none)
  unless_same false false s in_sub clone = (s, none)
  unless_same false true s in_sub clone = send_patch s in_sub (G.merge_patch in_sub clone)

  -- `patchService` and `patchEndpoints`.
  unfoldable pub patch_object : C.State → A → A → Done
  unfolding unless_same check_global_label_equal
  patch_object s in_sub clone =
      unless_same (G.same in_sub clone) (check_global_label_equal (K.meta in_sub) (K.meta clone)) s
        in_sub clone

  unfoldable pub patch_prepared : C.State → A → Option A → Done
  unfolding patch_object
  patch_prepared s in_sub none = (s, some other)
  patch_prepared s in_sub (some copy) = patch_object s in_sub (G.adopt in_sub copy)

  -- The handlers, by what the member cluster's lister answered.
  unfoldable pub handle_listed : C.State → A → Answer A → Done
  unfolding create_object patch_prepared
  handle_listed s a (err not_found) = create_object s (G.prepare a)
  handle_listed s a (err e) = (s, some e)
  handle_listed s a (ok in_sub) = patch_prepared s in_sub (G.prepare a)

  -- The deferred function of the handlers.
  unfoldable pub retried : String → Option ApiError → List QueueCall
  retried key none = []
  retried key (some e) = add_rate_limited key ∷ []

  unfoldable pub handle_named : Cache A → C.State → A → Option String → C.State × List QueueCall
  unfolding handle_listed retried
  handle_named cached s a none = (s, [])
  handle_named cached s a (some key) =
      let (s', e) = handle_listed s a (cached (K.key a)) in (s', retried key e)

  -- `syncServiceHandler` and `syncEndpointsHandler`.
  unfoldable pub handle_object : Keys → Cache A → C.State → A → C.State × List QueueCall
  unfolding handle_named
  handle_object N cached s a = handle_named cached s a (N.key_func (K.key a))

  -- An object that the master cluster has, deleting it or not: the error of the handler stays in
  -- the handler.
  unfoldable pub present_as :
      Keys → Cache A → C.State → String → Key → A → Bool → C.State × List QueueCall
  unfolding delete_object handle_object deferred
  present_as N cached s key k a true = let (s', e) = delete_object s k in (s', deferred key e)
  present_as N cached s key k a false =
      let (s', calls) = handle_object N cached s a in (s', calls ++ (forget key ∷ []))

  unfoldable pub sync_present :
      Keys → Cache A → C.State → String → Key → A → C.State × List QueueCall
  unfolding present_as
  sync_present N cached s key k a = present_as N cached s key k a (K.is_deleting a)

  -- What the master cluster itself answered about an object that its lister does not have.
  unfoldable pub sync_asked :
      Keys → Cache A → C.State → String → Key → Answer A → C.State × List QueueCall
  unfolding delete_object sync_present deferred
  sync_asked N cached s key k (err not_found) =
      let (s', e) = delete_object s k in (s', deferred key e)
  sync_asked N cached s key k (err e) = (s, deferred key (some e))
  sync_asked N cached s key k (ok a) = sync_present N cached s key k a

  unfoldable pub sync_listed :
      Keys → Cache A → Answer A → C.State → String → Key → Answer A → C.State × List QueueCall
  unfolding sync_asked sync_present deferred
  sync_listed N cached asked s key k (err not_found) = sync_asked N cached s key k asked
  sync_listed N cached asked s key k (err e) = (s, deferred key (some e))
  sync_listed N cached asked s key k (ok a) = sync_present N cached s key k a

-- What the routines read: the listers of both clusters and the master cluster.
pub record Sources (A : Type 0) : Type 0 where
  pub listed : Cache A
  pub asked : Cache A
  pub in_member : Cache A
  pub namespaces : Cache String

module _ {A : Type 0} (K : Kind A) (G : Sending A) (C : Client A) (NS : Client String) where
  unfoldable pub sync_ensured :
      Keys
      → Sources A
      → C.State
      → String
      → Key
      → NS.State × Option ApiError
      → (C.State × NS.State) × List QueueCall
  unfolding sync_listed
  sync_ensured N R s key k (t, some e) = ((s, t), add_rate_limited key ∷ done key ∷ [])
  sync_ensured N R s key k (t, none) =
      let (s', calls) = sync_listed K G C N R.in_member (R.asked k) s key k (R.listed k) in
      ((s', t), calls ++ (done key ∷ []))

  unfoldable pub sync_named :
      Keys
      → Sources A
      → C.State
      → NS.State
      → String
      → Option Key
      → (C.State × NS.State) × List QueueCall
  unfolding sync_ensured ensure_namespace
  sync_named N R s t key none = ((s, t), forget key ∷ done key ∷ [])
  sync_named N R s t key (some k) =
      sync_ensured N R s key k (ensure_namespace NS R.namespaces t k.0)

  -- For what `Get` of the queue returned.
  unfoldable pub sync_sent :
      Keys → Sources A → C.State → NS.State → Option String → (C.State × NS.State) × List QueueCall
  unfolding sync_named
  sync_sent N R s t none = ((s, t), [])
  sync_sent N R s t (some key) = sync_named N R s t key (N.split key)

unfoldable pub sync_service :
    Json
    → (ServiceObject → ServiceObject → Bool)
    → (ServiceObject → ServiceObject → Option String)
    → (C : Client ServiceObject) → (NS : Client String) → Keys
    → Sources ServiceObject
    → C.State
    → NS.State
    → Option String
    → (C.State × NS.State) × List QueueCall
sync_service J deep_equal merge_patch C NS =
    sync_sent service_kind (service_sending J deep_equal merge_patch) C NS

unfoldable pub sync_endpoints :
    (Endpoints → Endpoints → Option String)
    → (C : Client Endpoints) (NS : Client String) → Keys
    → Sources Endpoints
    → C.State
    → NS.State
    → Option String
    → (C.State × NS.State) × List QueueCall
sync_endpoints merge_patch C NS = sync_sent endpoints_kind (endpoints_sending merge_patch) C NS

-- `gc`, over the services of the member cluster's lister, a nil service being `none`.
module _ (C : Client ServiceObject) where
  unfoldable pub is_lost : Cache ServiceObject → ServiceObject → Bool
  unfolding should_send is_orphan
  is_lost listed a = should_send a.key && is_orphan service_kind listed a

  unfoldable pub collect_services :
      Cache ServiceObject → C.State → List (Option ServiceObject) → C.State
  unfolding is_lost
  collect_services listed s [] = s
  collect_services listed s (none ∷ services) = collect_services listed s services
  collect_services listed s (some a ∷ services) =
      collect_services listed (if is_lost listed a then (C.delete s a.key).0 else s) services

  unfoldable pub gc_services :
      Cache ServiceObject → C.State → Answer (List (Option ServiceObject)) → C.State
  unfolding collect_services
  gc_services listed s (err e) = s
  gc_services listed s (ok services) = collect_services listed s services
