-- ===== src/Clientset/Dynamic/Laws.antt =====
-- The client over the dynamic client against the API.
use k_mesh.Base.{◌≡◌, ◌≢◌, refl, ◌∙◌, ap, List, []}
use k_mesh.Base.Text.{Text, text}
use k_mesh.Base.Result.{failure, Result, ok, err}
use k_mesh.Clientset.{GroupVersionKind, Kind, ObjectList, ListOptions, Interface, Agree}
use k_mesh.Clientset.Dynamic.{
  Dynamic, Json, convert, group_kind, group_resource, to_unstructured, converted, write_object,
  converted_list, dynamic_client,
}

-- The answer of a server, seen through a representation of its objects.
abbrev pub represented : {S A B : Type 0} → (A → B) → S × Result A → S × Result B
represented f (s, err e) = (s, err e)
represented f (s, ok a) = (s, ok (f a))

module _ {K : Kind} (D : Dynamic K) (J : Json K D) (ns : Text) (api : Interface K D.Server) where
  -- Documented behaviour: JSON takes an object that has a kind to an unstructured one, and an
  -- unstructured one, and likewise a list, back; without a kind the unstructured decoder fails.
  -- The dynamic client does what the API does to the objects so represented.
  pub record Serves : Type 0 where
    pub object : K.Object → D.Unstructured
    pub objects : ObjectList K → D.UnstructuredList
    pub encode :
        (g : GroupVersionKind) (o : K.Object)
        → g.kind ≢ []
        → to_unstructured D J ns (K.with_kind g o) ≡ ok (object (K.with_kind g o))
    pub decode :
        (o : K.Object) → convert J.marshal_unstructured J.unmarshal_object (object o) ≡ ok o
    pub decode_list :
        (l : ObjectList K) → convert J.marshal_list J.unmarshal_list (objects l) ≡ ok l
    pub create :
        (o : K.Object) (x : K.Options) (s : D.Server)
        → D.create (group_resource D J ns) ns (object o) x s ≡ represented object (api.create o x s)
    pub update :
        (o : K.Object) (x : K.Options) (s : D.Server)
        → D.update (group_resource D J ns) ns (object o) x s ≡ represented object (api.update o x s)
    pub update_status :
        (o : K.Object) (x : K.Options) (s : D.Server)
        → D.update_status (group_resource D J ns) ns (object o) x s
          ≡ represented object (api.update_status o x s)
    pub delete :
        (n : Text) (x : K.Options) (s : D.Server)
        → D.delete (group_resource D J ns) ns n x s ≡ api.delete n x s
    pub delete_collection :
        (x : K.Options) (l : ListOptions K) (s : D.Server)
        → D.delete_collection (group_resource D J ns) ns x l s ≡ api.delete_collection x l s
    pub get :
        (n : Text) (x : K.Options) (s : D.Server)
        → D.get (group_resource D J ns) ns n x s ≡ represented object (api.get n x s)
    pub list :
        (l : ListOptions K) (s : D.Server)
        → D.list (group_resource D J ns) ns l s ≡ represented objects (api.list l s)
    pub patch :
        (n t : Text) (p : K.Bytes) (x : K.Options) (subs : List Text) (s : D.Server)
        → D.patch (group_resource D J ns) ns n t p x subs s
          ≡ represented object (api.patch n t p x subs s)

  module _ (L : Serves) where
    converted-represented :
        (r : D.Server × Result K.Object) → converted D J ns (represented L.object r) ≡ r
    unfolding converted
    converted-represented (s, err e) = refl
    converted-represented (s, ok o) = rw (L.decode o)

    converted_list-represented :
        (r : D.Server × Result (ObjectList K)) → converted_list D J ns (represented L.objects r) ≡ r
    unfolding converted_list
    converted_list-represented (s, err e) = refl
    converted_list-represented (s, ok l) = rw (L.decode_list l)

    -- Where the kind has a name, the dynamic client does what the API does, with three exceptions:
    -- an object is written with its kind set, a patch is made of the object itself whatever subresource is asked for, and a
    -- watch is refused.
    pub dynamic_client-Agree :
        K.kind ≢ []
        → Agree (dynamic_client D J ns) (record api {
          create = λ o. api.create (K.with_kind (group_kind D J ns) o);
          update = λ o. api.update (K.with_kind (group_kind D J ns) o);
          update_status = λ o. api.update_status (K.with_kind (group_kind D J ns) o);
          watch = λ l s. (s, err (failure (text "NYI: Watch")));
          patch = λ n t p x subs. api.patch n t p x [];
        })
    unfolding dynamic_client write_object
    dynamic_client-Agree named = record {
      create = λ o x s.
          let k = K.with_kind (group_kind D J ns) o in
          rw (L.encode (group_kind D J ns) o named, write_object)
            (rw (L.create k x s) (converted-represented (api.create k x s)));
      update = λ o x s.
          let k = K.with_kind (group_kind D J ns) o in
          rw (L.encode (group_kind D J ns) o named, write_object)
            (rw (L.update k x s) (converted-represented (api.update k x s)));
      update_status = λ o x s.
          let k = K.with_kind (group_kind D J ns) o in
          rw (L.encode (group_kind D J ns) o named, write_object)
            (rw (L.update_status k x s) (converted-represented (api.update_status k x s)));
      delete = L.delete;
      delete_collection = L.delete_collection;
      get = λ n x s. ap (converted D J ns) (L.get n x s) ∙ converted-represented (api.get n x s);
      list = λ l s.
          ap (converted_list D J ns) (L.list l s) ∙ converted_list-represented (api.list l s);
      watch = λ l s. refl;
      patch = λ n t p x subs s.
          ap (converted D J ns) (L.patch n t p x [] s)
          ∙ converted-represented (api.patch n t p x [] s);
    }
