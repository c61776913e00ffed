-- ===== src/Lib.antt =====
-- K-Mesh: a mesh of Knative brokers that a Kubernetes controller keeps (`pkg/reconciler`,
-- `pkg/apis`, `pkg/client`), and the command line `kmesh` that installs and shows it
-- (`magefile.go`, `pkg/print`).
--
-- The parts and how they interact:
-- Base: Go strings as lists of code points (`Text`), Go maps as association lists (`Dict`),
--   `(value, error)` as `Result`.
-- Api: the types of `pkg/apis/mesh/v1alpha1`; Api/Lifecycle: the conditions of a KMesh and a
--   BrokerBinding, their validation, and `ReconcileKind` of `pkg/reconciler/kmesh`.
-- Machinery: the interfaces of the packages that the reconcilers call: string sets, the patch of
--   a status. The laws they rely on are the records `IsLawful`.
-- Binding: `pkg/reconciler/brokerbinding`. `Caches` is the mutable state of `Reconciler`,
--   `Cluster` what the listers answer during a call. Binding/Ingresses is `reconcileIngresses`,
--   Binding/Reconcile is `ReconcileKind` and `reconcileKMesh`, Binding/Handlers are the filters and
--   handlers of `controller.go`. They meet in the caches: a reconcile opens an entry for each class
--   and each broker, which the filters test and the handlers write, and the next reconcile lists
--   what they wrote. Binding/Events has the interleavings of all of them as steps, Binding/Delivery
--   what comes of an event that was handled before a reconcile. Binding/History numbers the steps of a run, so that what the caches hold can
--   be told from when something was stored last and when it was found missing. Binding/Controller is `NewController` of both
--   kinds, with the event handlers that it registers. Binding/Leader puts `ReconcileKind` into the
--   generated reconciler and takes that through a leader's reconcile.
-- Reconciler: the generated reconcilers of `pkg/client/injection/reconciler/mesh/v1alpha1`, one
--   text over the kind of resource: Run is `Reconcile` and `state.go`, Status is `updateStatus`,
--   Finalizers the three functions on finalizers, Create is `NewReconciler`, Kinds the two kinds
--   of resource. They call `ReconcileKind` of the parts above, through the interface that `Impl` holds.
--   Run/Leading and Status/Kept say what a leader's run is made of and which fields it keeps.
-- Print: `pkg/print/draw.go`, the drawing of a broker with its subscribers.
-- Cli: `magefile.go`. What a command prints and runs is a trace of effects (`Effect`); what a
--   command answers is a function of the trace. Cli/Brokers reads the brokers from the charts and
--   from kubectl's output and installs one, with Printed for what kubectl prints; Cli/Table makes the
--   rows of the mesh table with the drawing of Print; Cli/Sequence has the commands that run several
--   others; Cli/Words is the part of package `strings` that is used.
--   Cli/Status has the commands that show the tables of meshes and brokers, with every way in which
--   they end (`Outcome`).
-- Clientset: `pkg/client/clientset` and `pkg/client/injection/client/client.go`, over the kind of
--   resource (`Kind`). Every client is an `Interface` to a server: Typed builds the requests of
--   `typed/mesh/v1alpha1`, Dynamic converts to and from the objects of the dynamic client, Fake is
--   the tracker's client of `typed/mesh/v1alpha1/fake`; Config makes a clientset from a
--   configuration, Simple one for tests on an object tracker; Kinds has the clients of the two kinds.
-- Listers: `pkg/client/listers`, over the indexer of an informer.
-- Informers: `pkg/client/informers/externalversions`. `Factory` is the state of `factory.go`;
--   Informers/Steps has its calls as steps, Informers/Waiting the wait for the caches,
--   Informers/Resources is `generic.go` with what an informer lists and watches. An informer is known
--   by its address, and `informer.Run` by an entry of `runs`.
-- Injection: `pkg/client/injection`: the factories that a context holds, plain and one for each
--   label selector, and the listers that read through a client of Clientset. Injection/Context has
--   the keys of a context as the fields of a record and what the packages put under them and take,
--   Injection/Kinds the packages of the broker bindings, Injection/Context/Fakes the packages `fake`.
-- Controllers: `controller.go` of the two generated controllers: the options of `NewImpl`, the
--   recorder, and the promote function, which reads the lister.
-- Scheme: the files `register.go` of the API group and of the clientset.
-- Webhook: the programs under `cmd`, with the resources that the webhook defaults and validates;
--   Webhook/Admitted takes its resources to the scheme, and a binding that it lets pass through a
--   reconcile of Binding.
-- DeepCopy: `pkg/apis/mesh/v1alpha1/zz_generated.deepcopy.go` on a memory of cells (`Heap`). Types has
--   the structs with addresses for their slices and pointers, Copies the functions, Shapes and Views
--   what a struct stands for in a memory and what it reaches, Freshness what a copy promises.
-- Tests: instances of the interfaces, and the theorems at concrete inputs.
--
-- Bounds: no function needs fuel, each loop is over a list. The order in which Go ranges over a
-- map is the field `range` of `Cluster`. `RangesOver` asks of it only that it visits the entries of
-- the map and nothing else: Go visits each once, and the theorems hold of every range that does at
-- least this. `RangesOver` of Informers/Steps asks the same of the factory's maps, and `order` of
-- `Shell` is that of the brokers' map. A Go panic is a value of its own (`panicked`,
-- `index_out_of_range`, `none`). In the reconcilers a deep copy is the value itself: they do not
-- write to an object after they have handed on a copy, and what the generated copies share is the
-- subject of DeepCopy. The one shared object that matters otherwise, the inner maps of the caches,
-- is written back to its entry on every path. In DeepCopy a slice is known by
-- its array and starts at its first element; addresses are taken in the order in which the copies
-- end, which a program cannot see.
--
-- Not modelled: the informers' goroutines and their caches, logging and tracing, locks where a
-- call holds one from its start to its end, and the rendering of tables. What other workers and
-- handlers make of the caches between the sections of a `ReconcileKind` is given by two functions
-- of `Cluster`, and a concurrent read and write of one map is not modelled; Binding/Events and
-- Binding/History interleave the sections under the lock as steps. Packages that are vendored are
-- parameters.
pub mod Base
pub mod Api
pub mod Machinery
pub mod Binding
pub mod Print
pub mod Cli
pub mod Reconciler
pub mod Clientset
pub mod Listers
pub mod Informers
pub mod DeepCopy
pub mod Controllers
pub mod Injection
pub mod Scheme
pub mod Webhook
mod Tests
