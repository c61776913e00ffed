-- ===== src/Clientset/Typed/Laws.antt =====
-- The requests of the typed client against the conventions of the Kubernetes REST API.
use Prim.Native.Nat.{◌^◌}
use k_mesh.Base.{
  ℕ, ◌*◌, ◌%◌, ◌≡◌, refl, true, ◌&&◌, Option, none, some, List, [], ◌∷◌, if◌then◌else◌,
}
use k_mesh.Base.Text.{Text, text, text_eq, text_eq_refl}
use k_mesh.Base.Result.{Err, Result}
use k_mesh.Clientset.{Kind, ObjectList, ListOptions, Interface, Agree, timeout_of}
use k_mesh.Clientset.Typed.{
  Verb, get_verb, post_verb, put_verb, delete_verb, patch_verb, Params, call_params, list_params,
  Body, object_body, options_body, bytes_body, Request, Rest, typed_client,
}

module _ {K : Kind} {Server : Type 0} (api : Text → Interface K Server) where
  -- The operation on an object that a request stands for: verb, name, subresources, parameters,
  -- body.
  abbrev pub object_route :
      Interface K Server
      → Verb
      → Option Text
      → List Text
      → Option (Params K)
      → Option (Body K)
      → Option (Server → Server × Result K.Object)
  object_route i get_verb (some n) [] (some (call_params x)) none = some (i.get n x)
  object_route i post_verb none [] (some (call_params x)) (some (object_body o)) =
      some (i.create o x)
  object_route i put_verb (some n) [] (some (call_params x)) (some (object_body o)) =
      if text_eq n (K.name_of o) then some (i.update o x) else none
  object_route i put_verb (some n) (sub ∷ []) (some (call_params x)) (some (object_body o)) =
      if text_eq n (K.name_of o) && text_eq sub (text "status")
      then some (i.update_status o x)
      else none
  object_route i (patch_verb t) (some n) subs (some (call_params x)) (some (bytes_body p)) =
      some (i.patch n t p x subs)
  object_route i _ _ _ _ _ = none

  update_route :
      (i : Interface K Server) (o : K.Object) (x : K.Options)
      → object_route i put_verb
          (some (K.name_of o))
          []
          (some (call_params x))
          (some (object_body o))
        ≡ some (i.update o x)
  update_route i o x = rw (text_eq_refl (K.name_of o))

  update_status_route :
      (i : Interface K Server) (o : K.Object) (x : K.Options)
      → object_route i put_verb
          (some (K.name_of o))
          (text "status" ∷ [])
          (some (call_params x))
          (some (object_body o))
        ≡ some (i.update_status o x)
  update_status_route i o x = rw (text_eq_refl (K.name_of o), text_eq_refl (text "status"))

  -- The time limit of a call, a 64-bit word of nanoseconds: the options' seconds, or none.
  abbrev pub limit_of : ListOptions K → ℕ
  limit_of l = elim l.timeout_seconds [ none ↦ 0 | some n ↦ n * 1000000000 % 2 ^ 64 ]

  -- A request to the kind's resource itself, and not to a subresource.
  abbrev pub IsPlain : Request K → Type 0
  IsPlain q = (q.resource ≡ K.resource) × (q.sub_resources ≡ [])

  -- A request for a list of objects, with these options and their time limit.
  abbrev pub AsksFor : Request K → ListOptions K → Type 0
  AsksFor q l =
      IsPlain q
      × (q.name ≡ none)
      × (q.params ≡ some (list_params l))
      × (q.timeout ≡ some (limit_of l))

  -- Documented conventions: the server performs the operation that a request to the kind's
  -- resource stands for, in the request's namespace. A subresource is only written and patched.
  pub record Serves (into : Request K → Server → Server × Result K.Object)
      (into_list : Request K → Server → Server × Result (ObjectList K))
      (into_watch : Request K → Server → Server × Result K.Watch)
      (into_error : Request K → Server → Server × Option Err) : Type 0 where
    pub serves_object :
        (q : Request K) (f : Server → Server × Result K.Object) (s : Server)
        → q.resource ≡ K.resource
        → q.timeout ≡ none
        → object_route (api q.namespace) q.verb q.name q.sub_resources q.params q.body ≡ some f
        → into q s ≡ f s
    pub serves_list :
        (q : Request K) (l : ListOptions K) (s : Server)
        → AsksFor q l
        → q.verb ≡ get_verb
        → q.body ≡ none
        → into_list q s ≡ (api q.namespace).list l s
    pub serves_watch :
        (q : Request K) (l : ListOptions K) (s : Server)
        → AsksFor q l
        → q.verb ≡ get_verb
        → q.body ≡ none
        → l.watch ≡ true
        → into_watch q s ≡ (api q.namespace).watch l s
    pub serves_delete :
        (q : Request K) (n : Text) (x : K.Options) (s : Server)
        → IsPlain q
        → q.verb ≡ delete_verb
        → q.name ≡ some n
        → q.params ≡ none
        → q.timeout ≡ none
        → q.body ≡ some (options_body x)
        → into_error q s ≡ (api q.namespace).delete n x s
    pub serves_delete_collection :
        (q : Request K) (x : K.Options) (l : ListOptions K) (s : Server)
        → AsksFor q l
        → q.verb ≡ delete_verb
        → q.body ≡ some (options_body x)
        → into_error q s ≡ (api q.namespace).delete_collection x l s

module _ {K : Kind} (R : Rest K) (api : Text → Interface K R.Server) (ns : Text) where
  -- The typed client does what the API does in its namespace; a watch is asked for as one.
  pub typed_client-Agree :
      Serves api R.into R.into_list R.into_watch R.into_error
      → Agree
          (typed_client R ns)
          (record (api ns) { watch = λ l. (api ns).watch (record l { watch = true }) })
  unfolding typed_client timeout_of
  typed_client-Agree L = record {
    create = λ o x s. L.serves_object _ _ s refl refl refl;
    update = λ o x s. L.serves_object _ _ s refl refl (update_route api (api ns) o x);
    update_status = λ o x s. L.serves_object _ _ s refl refl (update_status_route api (api ns) o x);
    delete = λ n x s. L.serves_delete _ n x s (refl, refl) refl refl refl refl refl;
    delete_collection =
        λ x l s. L.serves_delete_collection _ x l s ((refl, refl), refl, refl, refl) refl refl;
    get = λ n x s. L.serves_object _ _ s refl refl refl;
    list = λ l s. L.serves_list _ l s ((refl, refl), refl, refl, refl) refl refl;
    watch = λ l s.
        L.serves_watch _ (record l { watch = true }) s ((refl, refl), refl, refl, refl) refl refl
          refl;
    patch = λ n t p x subs s. L.serves_object _ _ s refl refl refl;
  }
