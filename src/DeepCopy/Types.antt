-- ===== src/DeepCopy/Types.antt =====
-- The structs of pkg/apis/mesh/v1alpha1 as they lie in memory, the cells that hold them, and what
-- they stand for. The structs of vendored packages are the parameters `Library`.
use k_mesh.Base.{ℕ, refl, Option, List, []}
use k_mesh.Base.Text.{Text}
use k_mesh.Api.{KReference}
use k_mesh.DeepCopy.{Place}

-- `metav1` and `duckv1`; `Other` are the cells that their values take.
pub record Library : Type 1 where
  pub TypeMeta : Type 0
  pub ObjectMeta : Type 0
  pub ListMeta : Type 0
  pub DuckStatus : Type 0
  pub Destination : Type 0
  pub Addressable : Type 0
  pub Other : Type 0

-- `Egress`
pub record EgressStruct : Type 0 where
  pub destination : Option ℕ
  pub name : Text

-- `Ingress`
pub record IngressStruct : Type 0 where
  pub address : Option ℕ
  pub name : Text
  pub egresses : Option ℕ

-- `BrokerBindingSpec`
pub record SpecStruct : Type 0 where
  pub classes : Option ℕ
  pub kmesh : Option ℕ

module _ (L : Library) where
  -- `KMeshStatus`
  pub record KMeshStatusStruct : Type 0 where
    pub status : L.DuckStatus
    pub broker_classes : Option ℕ
    pub ingresses : Option ℕ

  -- `KMesh`
  pub record KMeshStruct : Type 0 where
    pub type_meta : L.TypeMeta
    pub meta : L.ObjectMeta
    pub status : KMeshStatusStruct

  -- `BrokerBindingStatus`
  pub record BindingStatusStruct : Type 0 where
    pub status : L.DuckStatus

  -- `BrokerBinding`
  pub record BindingStruct : Type 0 where
    pub type_meta : L.TypeMeta
    pub meta : L.ObjectMeta
    pub spec : SpecStruct
    pub status : BindingStatusStruct

  -- `KMeshList` and `BrokerBindingList`
  pub record ListStruct : Type 0 where
    pub type_meta : L.TypeMeta
    pub meta : L.ListMeta
    pub items : Option ℕ

  -- The elements of the slices, and what the pointers point to.
  pub data Cell : Type 0 where
    texts : List Text → Cell
    references : List KReference → Cell
    destinations : List L.Destination → Cell
    addressables : List L.Addressable → Cell
    egresses : List EgressStruct → Cell
    ingresses : List IngressStruct → Cell
    meshes : List KMeshStruct → Cell
    bindings : List BindingStruct → Cell
    mesh_lists : List ListStruct → Cell
    binding_lists : List ListStruct → Cell
    specs : List SpecStruct → Cell
    mesh_statuses : List KMeshStatusStruct → Cell
    binding_statuses : List BindingStatusStruct → Cell
    other : L.Other → Cell

module _ {L : Library} where
  abbrev pub text_place : Place (Cell L) Text
  text_place = record {
    inject = texts;
    project = λ c. elim c [ texts xs ↦ xs | _ ↦ [] ];
    project-inject = λ xs. refl;
  }

  abbrev pub reference_place : Place (Cell L) KReference
  reference_place = record {
    inject = references;
    project = λ c. elim c [ references xs ↦ xs | _ ↦ [] ];
    project-inject = λ xs. refl;
  }

  abbrev pub destination_place : Place (Cell L) L.Destination
  destination_place = record {
    inject = destinations;
    project = λ c. elim c [ destinations xs ↦ xs | _ ↦ [] ];
    project-inject = λ xs. refl;
  }

  abbrev pub addressable_place : Place (Cell L) L.Addressable
  addressable_place = record {
    inject = addressables;
    project = λ c. elim c [ addressables xs ↦ xs | _ ↦ [] ];
    project-inject = λ xs. refl;
  }

  abbrev pub egress_place : Place (Cell L) EgressStruct
  egress_place = record {
    inject = egresses;
    project = λ c. elim c [ egresses xs ↦ xs | _ ↦ [] ];
    project-inject = λ xs. refl;
  }

  abbrev pub ingress_place : Place (Cell L) IngressStruct
  ingress_place = record {
    inject = ingresses;
    project = λ c. elim c [ ingresses xs ↦ xs | _ ↦ [] ];
    project-inject = λ xs. refl;
  }

  abbrev pub mesh_place : Place (Cell L) (KMeshStruct L)
  mesh_place = record {
    inject = meshes;
    project = λ c. elim c [ meshes xs ↦ xs | _ ↦ [] ];
    project-inject = λ xs. refl;
  }

  abbrev pub binding_place : Place (Cell L) (BindingStruct L)
  binding_place = record {
    inject = bindings;
    project = λ c. elim c [ bindings xs ↦ xs | _ ↦ [] ];
    project-inject = λ xs. refl;
  }

  abbrev pub mesh_list_place : Place (Cell L) (ListStruct L)
  mesh_list_place = record {
    inject = mesh_lists;
    project = λ c. elim c [ mesh_lists xs ↦ xs | _ ↦ [] ];
    project-inject = λ xs. refl;
  }

  abbrev pub binding_list_place : Place (Cell L) (ListStruct L)
  binding_list_place = record {
    inject = binding_lists;
    project = λ c. elim c [ binding_lists xs ↦ xs | _ ↦ [] ];
    project-inject = λ xs. refl;
  }

  abbrev pub spec_place : Place (Cell L) SpecStruct
  spec_place = record {
    inject = specs;
    project = λ c. elim c [ specs xs ↦ xs | _ ↦ [] ];
    project-inject = λ xs. refl;
  }

  abbrev pub mesh_status_place : Place (Cell L) (KMeshStatusStruct L)
  mesh_status_place = record {
    inject = mesh_statuses;
    project = λ c. elim c [ mesh_statuses xs ↦ xs | _ ↦ [] ];
    project-inject = λ xs. refl;
  }

  abbrev pub binding_status_place : Place (Cell L) (BindingStatusStruct L)
  binding_status_place = record {
    inject = binding_statuses;
    project = λ c. elim c [ binding_statuses xs ↦ xs | _ ↦ [] ];
    project-inject = λ xs. refl;
  }
