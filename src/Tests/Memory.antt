-- ===== src/Tests/Memory.antt =====
-- A list of one mesh in memory, with a status, classes, an ingress and its egress.
use k_mesh.Base.{
  ℕ, refl, Option, none, some, List, [], ◌∷◌, arith, In, get_elem?, All, ◌<◌, inl, inr,
}
use k_mesh.Base.Text.{Text, text}
use k_mesh.DeepCopy.{Heap, Place, assign, copy_ref}
use k_mesh.DeepCopy.Shapes.{flat, ref}
use k_mesh.DeepCopy.Steps.{assign-IsDeep, copy_ref-IsDeep}
use k_mesh.DeepCopy.Types.{
  Library, Cell, texts, ingresses, egresses, destinations, meshes, mesh_lists, other,
  mesh_list_place,
}
use k_mesh.DeepCopy.Copies.{Copiers, deep_copy_mesh_list}
use k_mesh.DeepCopy.Views.{Views, AreDeep, mesh_list_shape}
use k_mesh.DeepCopy.Independence.{IsIndependent, deep_copy_mesh_list-IsIndependent}

-- A vendored status is a pointer to a number; the other vendored types are texts.
abbrev library : Library
library = record {
  TypeMeta = Text;
  ObjectMeta = Text;
  ListMeta = Text;
  DuckStatus = Option ℕ;
  Destination = Text;
  Addressable = Text;
  Other = List ℕ;
}

abbrev number_place : Place (Cell library) ℕ
number_place = record {
  inject = other;
  project = λ c. elim c [ other xs ↦ xs | _ ↦ [] ];
  project-inject = λ xs. refl;
}

abbrev copiers : Copiers library
copiers = record {
  object_meta = assign;
  list_meta = assign;
  duck_status = copy_ref number_place assign;
  destination = assign;
  addressable = assign;
}

abbrev views : Views library
views = record {
  object_meta = flat Text;
  list_meta = flat Text;
  duck_status = ref (flat ℕ) number_place;
  destination = flat Text;
  addressable = flat Text;
}

are_deep : AreDeep copiers views
are_deep = record {
  object_meta = assign-IsDeep;
  list_meta = assign-IsDeep;
  duck_status = copy_ref-IsDeep (flat ℕ) assign assign-IsDeep number_place;
  destination = assign-IsDeep;
  addressable = assign-IsDeep;
}

abbrev stored : List (Cell library)
stored =
    mesh_lists (record { type_meta = text "KMeshList"; meta = []; items = some 1 } ∷ [])
    ∷ meshes (
        record {
          type_meta = text "KMesh";
          meta = text "mesh";
          status = record { status = some 2; broker_classes = some 3; ingresses = some 4 };
        }
        ∷ [])
    ∷ other (5 ∷ [])
    ∷ texts (text "kafka" ∷ [])
    ∷ ingresses (record { address = none; name = text "b"; egresses = some 5 } ∷ [])
    ∷ egresses (record { destination = some 6; name = text "t" } ∷ [])
    ∷ destinations (text "http://sink" ∷ [])
    ∷ []

abbrev memory : Heap (Cell library)
memory = record {
  next = 7;
  cells = λ a. elim (get_elem? stored a) [ none ↦ texts [] | some c ↦ c ];
}

In-below : (n a : ℕ) (xs : List ℕ) → All (λ x. x < n) xs → In a xs → a < n
In-below n a [] h i = absurd i
In-below n a (x ∷ xs) (h, hs) (inl e) = omega (arith, h, e)
In-below n a (x ∷ xs) (h, hs) (inr i) = In-below n a xs hs i

deep_copy_mesh_list-IsIndependent_example :
    IsIndependent
      (ref (mesh_list_shape views) mesh_list_place)
      (some 0)
      memory
      (deep_copy_mesh_list copiers (some 0) memory)
deep_copy_mesh_list-IsIndependent_example =
    deep_copy_mesh_list-IsIndependent copiers views are_deep (some 0) memory
      (λ a i. In-below 7 a (0 ∷ 1 ∷ 2 ∷ 3 ∷ 4 ∷ 5 ∷ 6 ∷ []) (omega arith) i)
