-- ===== src/Binding/Controller/Creation.antt =====
-- When the controllers can be made.
use k_mesh.Base.{◌≡◌, refl, ◌∙◌, Option, none, some}
use k_mesh.Base.Text.{Text}
use k_mesh.Binding.Handlers.{new_caches}
use k_mesh.Binding.Controller.{Outside, Made, new_controller, kmesh_new_controller}
use k_mesh.Controllers.{create_recorder}
use k_mesh.Controllers.Kinds.{kmesh_agent, binding_agent, binding_create_recorder}
use k_mesh.Injection.Context.{
  kmesh_kind, brokerbinding_kind, Ambient, shared, Context, get_client, get_informer,
}
use k_mesh.Injection.Context.Setup.{Ready, set_up, HasInformer, set_up-IsReady}

-- The recorder of an agent: the context's, or a new one on its Kubernetes client.
abbrev pub recorder_of : {Recorder : Type 0} → Option Recorder → (Text → Recorder) → Text → Recorder
recorder_of none new agent = new agent
recorder_of (some recorder) new agent = recorder

create_recorder-recorder_of :
    {Recorder Kube : Type 0} (recorder : Option Recorder) (kube : Kube)
    (new : Kube → Text → Recorder) (agent : Text)
    → create_recorder recorder (some kube) new agent ≡ some (recorder_of recorder (new kube) agent)
unfolding create_recorder
create_recorder-recorder_of none kube new agent = refl
create_recorder-recorder_of (some recorder) kube new agent = refl

-- In a context that has been set up with its informers, and in which the other packages have put
-- a Kubernetes client, the addressable factory and eventing's informers, both controllers are made
-- without a panic: that of the bindings with empty caches, the context's client, these informers,
-- a resolver on this factory, and the context's informers of meshes and of bindings, and that of
-- the meshes with the same informer of meshes. These are the shared informers of the set-up. Each
-- has the context's event recorder, or else a new one for its own agent.
pub new_controller-set_up :
    {V Dyn Recorder Kube Duck Eventing : Type 0} (am : Ambient Dyn) (c : Context V) (r : Ready V)
    (v : V) (o : Outside Recorder Kube Duck Eventing) (kube : Kube) (duck : Duck)
    (brokers triggers : Eventing)
    → get_client c ≡ some v
    → set_up am c ≡ some r
    → o.kube_client ≡ some kube
    → o.addressable ≡ some duck
    → o.brokers ≡ some brokers
    → o.triggers ≡ some triggers
    → (m : Made V Recorder Duck Eventing) × (new_controller o r.0 ≡ some m)
      × (kmesh_new_controller o r.0
          ≡ some (m.kmesh_informer, recorder_of o.event_recorder (o.new_recorder kube) kmesh_agent))
      × (get_informer brokerbinding_kind r.0 ≡ some m.enqueues)
      × (m.caches ≡ new_caches)
      × (m.kmesh_client_set ≡ v)
      × (m.broker_informer ≡ brokers)
      × (m.trigger_informer ≡ triggers)
      × (m.uri_resolver ≡ duck)
      × (m.recorder ≡ recorder_of o.event_recorder (o.new_recorder kube) binding_agent)
      × HasInformer kmesh_kind r.1 am.scope r.0
      × HasInformer brokerbinding_kind r.2 am.scope r.0
unfolding new_controller kmesh_new_controller binding_create_recorder
new_controller-set_up am c r v o kube duck brokers triggers e h k d b t =
    let ready = (set_up-IsReady am c).1 r h in
    let client = ready.kept ∙ e in
    let recorder = create_recorder-recorder_of o.event_recorder kube o.new_recorder in
    (
      record {
        caches = new_caches;
        kmesh_informer = shared (ready.meshes.informer);
        kmesh_client_set = v;
        broker_informer = brokers;
        trigger_informer = triggers;
        uri_resolver = duck;
        enqueues = shared (ready.bindings.informer);
        recorder = recorder_of o.event_recorder (o.new_recorder kube) binding_agent;
      },
      rw (
        client,
        ready.meshes.got,
        ready.bindings.got,
        k,
        d,
        b,
        t,
        recorder binding_agent,
        new_controller,
      ),
      rw (client, ready.meshes.got, k, recorder kmesh_agent, kmesh_new_controller),
      ready.bindings.got,
      refl,
      refl,
      refl,
      refl,
      refl,
      refl,
      ready.meshes,
      ready.bindings,
    )
