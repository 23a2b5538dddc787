-- ===== src/Lib.antt =====
-- A verification library for clusterrouter, which joins member clusters to a Kubernetes cluster as
-- virtual nodes. Its controllers take keys of objects from delayed work queues, prepare pods for the
-- member cluster, and keep the capacity of the virtual nodes. The library models these parts:
--
-- Queue.antt and its children: pkg/utils/queue/queue.go, the delayed work queue. Queue/Items.antt
-- has `queueItem` and the list of items; Queue/Ops.antt the methods, one function for each
-- (`insert_key` for `insert`, `forget_key` for `Forget`, `next_round` for a round of the loop of
-- `getNextItem`, `handle_result` for the end of `handleQueueItemObject`). Each runs under the lock,
-- so it is one step, and a panic is an outcome. A `container/list` is a list from front to back, and
-- a pointer to an element is reached by the key of its item. The rate limiter is a parameter, as its
-- code is not in the repository. Times are numbers of nanoseconds and durations integers, without a
-- bound; all steps read one clock that only goes forward, where the code reads the wall clock in some
-- places and the clock of the queue in others. Queue/View.antt reads the queue as a map from keys to
-- entries, Queue/Runs.antt has its runs.
--
-- Expansion.antt and its children: pkg/utils/expansion/expand.go, the expansion of references in the
-- environment of containers. Texts are lists of bytes; the loop of `Expand` has fuel for a round for
-- each byte and one more, which is enough. Expansion/Relation.antt describes the expansion of a text
-- without cursor and buffer.
--
-- Resource.antt and its children: pkg/common/resource.go, pkg/common/node.go and pkg/utils/util.go,
-- the resources of nodes and pods. The quantities of k8s.io/apimachinery are an interface with the
-- laws that the code relies on. A map of Go is an association list (Base/Maps.antt), and where the
-- order of a loop over it is free the theorems say what each key has afterwards.
--
-- Monitor.antt and its children: pkg/utils/lock/monitor.go, a variable whose subscribers are told of
-- new values. A channel is its number, and the variable knows which are closed; the version is an
-- int64, kept as its bits. Monitor/Steps.antt has the runs of a variable with its subscriptions.
--
-- Environment.antt and its children: pkg/utils/podutils/env.go, the environment of containers, from
-- `envFrom`, `env`, the services and the fields of the pod. Environment/Values.antt has the sources
-- and the variables, Environment/Services.antt the variables of services, Environment/Fields.antt the
-- fields, Environment/Populate.antt the whole; Environment/Refused.antt and Environment/Portless.antt
-- say apart from the code which fields and services are errors. It uses Expansion.antt for references. The listers of
-- the client library and the checks of names are parameters. Where the code ranges over the map of
-- services the model takes the order in which its keys came; the ports of services are small natural
-- numbers, for which ten digits are enough.
--
-- Conversion.antt and its children: pkg/utils/conversion.go and pkg/controllers/utils.go, pods,
-- services and volumes made ready for the member cluster, the updates of pods and their labels on the
-- way back (Conversion/Filters.antt has the services and volumes). The records have the fields that
-- the code reads or writes; texts are whole, and JSON is an interface whose law is that a map is read
-- back as it was written. Where two pods share a map after a call, both are results.
--
-- Controllers.antt and its children: pkg/controllers/common.go, service.go, pv.go and utils.go, the
-- controllers that copy objects between the clusters. The listers, clients and keys of client-go are
-- parameters; Controllers/Api.antt has them and the laws of a client, which Controllers/Memory.antt
-- shows for one that keeps its objects in memory. A routine takes what the listers answer and the
-- state of the client, and returns the state and its calls on the queue, in order; where the code
-- changes an object of a lister in place, the lister's cache is part of the state. A panic is `none`.
-- Controllers/Common.antt has the config maps and secrets, whose routines are one definition for two
-- kinds, and Controllers/Services.antt has the services and endpoints likewise. Controllers/Volumes.antt
-- has claims and Controllers/Persistent.antt volumes. Patches and reflect.DeepEqual on whole objects
-- are parameters.
--
-- Provider.antt and its children: pkg/plugins/virtualk8s, the provider for a member cluster.
-- Provider/Members.antt has the nodes and pods of the member cluster, Provider/Capacity.antt
-- `ConfigureNode`, Provider/Informers.antt the handlers of events of nodes and pods with what they
-- send on the channels and the end of `ConfigureNode`, Provider/Placed.antt which nodes and pods
-- count, Provider/Depends.antt the names that a pod depends on, Provider/Copies.antt
-- and Provider/Auth.antt the creation of these objects, Provider/Pods.antt the operations on pods. It
-- uses Resource.antt for capacities and Conversion.antt for the pods that are sent. Polling in
-- `CreatePod` has the number of calls that its time allows as a parameter.
--
-- PodController.antt and its children: pkg/controllers/pod.go and sync.go, the controller that runs the
-- pods of a virtual node through a provider. PodController/Watched.antt has the fields of pods and the
-- tests on them, PodController/Known.antt the state (`knownPods` is a function from keys) and the
-- handlers of events, PodController/Sync.antt `syncPodFromKubernetesHandler` and what it calls,
-- PodController/Status.antt the notifications of the provider and the other two queues,
-- PodController/Wrapper.antt `syncProviderWrapper`. Keys of its queues are bytes. The provider, the
-- pods of the master cluster and `cmp.Equal` are parameters; so is the environment of containers,
-- which Environment.antt models. Each handler is one step, though in the code two may interleave; what
-- a provider notifies of is a step of its own. Calls on queues and events are kept in order, texts that
-- errors are wrapped in are left out, and a panic is `none`. `enqueuePodStatusUpdate` takes the states
-- that the rounds of its poll find. PodController/Reached.antt has the runs.
--
-- Base.antt passes on the names that all parts share.
--
-- Not modelled are logging, tracing, metrics, the making of the clients of the two clusters and the
-- start of processes, workers and informers, and so far the node controllers (pkg/controllers/node.go,
-- node_ping_controller.go, lease_controller_v1.go) and the manager of virtual nodes
-- (pkg/virtualnodemanager).
pub mod Base
pub mod Queue
pub mod Expansion
pub mod Resource
pub mod Monitor
pub mod Environment
pub mod Conversion
pub mod Controllers
pub mod Provider
pub mod PodController
