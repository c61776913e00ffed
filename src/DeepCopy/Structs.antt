-- ===== src/DeepCopy/Structs.antt =====
-- Each generated `DeepCopyInto` makes deep copies, if the vendored ones do.
use k_mesh.Base.{refl}
use k_mesh.Base.Text.{Text}
use k_mesh.Api.{KReference}
use k_mesh.DeepCopy.{assign}
use k_mesh.DeepCopy.Freshness.{IsDeep}
use k_mesh.DeepCopy.Steps.{Deep, flat_deep, ref_deep, ◌followed_by◌, by_fields-IsCopy}
use k_mesh.DeepCopy.Types.{
  Library, EgressStruct, IngressStruct, SpecStruct, KMeshStatusStruct, KMeshStruct,
  BindingStatusStruct, BindingStruct, ListStruct, Cell, text_place, reference_place,
  destination_place, addressable_place, egress_place, ingress_place, mesh_place, binding_place,
}
use k_mesh.DeepCopy.Views.{
  Views, AreDeep, egress_shape, ingress_shape, mesh_status_shape, mesh_shape, spec_shape,
  binding_status_shape, binding_shape, mesh_list_shape, binding_list_shape,
}
use k_mesh.DeepCopy.Copies.{
  Copiers, copy_egress, copy_ingress, copy_mesh_status, copy_mesh, copy_spec, copy_binding_status,
  copy_binding, copy_mesh_list, copy_binding_list,
}

module _ {L : Library} where
  pub copy_spec-IsDeep : IsDeep {Cell = Cell L} spec_shape copy_spec
  unfolding copy_spec
  copy_spec-IsDeep x h l =
      by_fields-IsCopy (λ x. (x.classes, x.kmesh))
        (ref_deep text_place (flat_deep Text)
          followed_by ref_deep reference_place (flat_deep KReference))
        x h (copy_spec x h) refl l

  abbrev pub spec_deep : Deep (Cell L) SpecStruct
  spec_deep = record { shape = spec_shape; copy = copy_spec; deep = copy_spec-IsDeep }

  module _ (K : Copiers L) (V : Views L) (deep : AreDeep K V) where
    abbrev destination_deep : Deep (Cell L) L.Destination
    destination_deep = record {
      shape = V.destination;
      copy = K.destination;
      deep = deep.destination;
    }

    abbrev addressable_deep : Deep (Cell L) L.Addressable
    addressable_deep = record {
      shape = V.addressable;
      copy = K.addressable;
      deep = deep.addressable;
    }

    abbrev duck_status_deep : Deep (Cell L) L.DuckStatus
    duck_status_deep = record {
      shape = V.duck_status;
      copy = K.duck_status;
      deep = deep.duck_status;
    }

    abbrev object_meta_deep : Deep (Cell L) L.ObjectMeta
    object_meta_deep = record {
      shape = V.object_meta;
      copy = K.object_meta;
      deep = deep.object_meta;
    }

    abbrev list_meta_deep : Deep (Cell L) L.ListMeta
    list_meta_deep = record { shape = V.list_meta; copy = K.list_meta; deep = deep.list_meta }

    pub copy_egress-IsDeep : IsDeep (egress_shape V) (copy_egress K)
    unfolding copy_egress assign
    copy_egress-IsDeep x h l =
        by_fields-IsCopy (λ x. (x.destination, x.name))
          (ref_deep destination_place destination_deep followed_by flat_deep Text) x h
          (copy_egress K x h) refl l

    abbrev pub egress_deep : Deep (Cell L) EgressStruct
    egress_deep = record { shape = egress_shape V; copy = copy_egress K; deep = copy_egress-IsDeep }

    pub copy_ingress-IsDeep : IsDeep (ingress_shape V) (copy_ingress K)
    unfolding copy_ingress assign
    copy_ingress-IsDeep x h l =
        by_fields-IsCopy (λ x. (x.address, (x.egresses, x.name)))
          (ref_deep addressable_place addressable_deep
            followed_by (ref_deep egress_place egress_deep followed_by flat_deep Text))
          x h (copy_ingress K x h) refl l

    abbrev pub ingress_deep : Deep (Cell L) IngressStruct
    ingress_deep = record {
      shape = ingress_shape V;
      copy = copy_ingress K;
      deep = copy_ingress-IsDeep;
    }

    pub copy_mesh_status-IsDeep : IsDeep (mesh_status_shape V) (copy_mesh_status K)
    unfolding copy_mesh_status
    copy_mesh_status-IsDeep x h l =
        by_fields-IsCopy (λ x. (x.status, (x.broker_classes, x.ingresses)))
          (duck_status_deep
            followed_by (ref_deep text_place (flat_deep Text)
                followed_by ref_deep ingress_place ingress_deep))
          x h (copy_mesh_status K x h) refl l

    abbrev pub mesh_status_deep : Deep (Cell L) (KMeshStatusStruct L)
    mesh_status_deep = record {
      shape = mesh_status_shape V;
      copy = copy_mesh_status K;
      deep = copy_mesh_status-IsDeep;
    }

    pub copy_mesh-IsDeep : IsDeep (mesh_shape V) (copy_mesh K)
    unfolding copy_mesh assign
    copy_mesh-IsDeep x h l =
        by_fields-IsCopy (λ x. (x.type_meta, (x.meta, x.status)))
          (flat_deep L.TypeMeta followed_by (object_meta_deep followed_by mesh_status_deep)) x h
          (copy_mesh K x h) refl l

    abbrev pub mesh_deep : Deep (Cell L) (KMeshStruct L)
    mesh_deep = record { shape = mesh_shape V; copy = copy_mesh K; deep = copy_mesh-IsDeep }

    pub copy_binding_status-IsDeep : IsDeep (binding_status_shape V) (copy_binding_status K)
    unfolding copy_binding_status
    copy_binding_status-IsDeep x h l =
        by_fields-IsCopy (λ x. x.status) (duck_status_deep) x h (copy_binding_status K x h) refl l

    abbrev pub binding_status_deep : Deep (Cell L) (BindingStatusStruct L)
    binding_status_deep = record {
      shape = binding_status_shape V;
      copy = copy_binding_status K;
      deep = copy_binding_status-IsDeep;
    }

    pub copy_binding-IsDeep : IsDeep (binding_shape V) (copy_binding K)
    unfolding copy_binding assign
    copy_binding-IsDeep x h l =
        by_fields-IsCopy (λ x. (x.type_meta, (x.meta, (x.spec, x.status))))
          (flat_deep L.TypeMeta
            followed_by (object_meta_deep followed_by (spec_deep followed_by binding_status_deep)))
          x h (copy_binding K x h) refl l

    abbrev pub binding_deep : Deep (Cell L) (BindingStruct L)
    binding_deep = record {
      shape = binding_shape V;
      copy = copy_binding K;
      deep = copy_binding-IsDeep;
    }

    pub copy_mesh_list-IsDeep : IsDeep (mesh_list_shape V) (copy_mesh_list K)
    unfolding copy_mesh_list assign
    copy_mesh_list-IsDeep x h l =
        by_fields-IsCopy (λ x. (x.type_meta, (x.meta, x.items)))
          (flat_deep L.TypeMeta
            followed_by (list_meta_deep followed_by ref_deep mesh_place mesh_deep))
          x h (copy_mesh_list K x h) refl l

    abbrev pub mesh_list_deep : Deep (Cell L) (ListStruct L)
    mesh_list_deep = record {
      shape = mesh_list_shape V;
      copy = copy_mesh_list K;
      deep = copy_mesh_list-IsDeep;
    }

    pub copy_binding_list-IsDeep : IsDeep (binding_list_shape V) (copy_binding_list K)
    unfolding copy_binding_list assign
    copy_binding_list-IsDeep x h l =
        by_fields-IsCopy (λ x. (x.type_meta, (x.meta, x.items)))
          (flat_deep L.TypeMeta
            followed_by (list_meta_deep followed_by ref_deep binding_place binding_deep))
          x h (copy_binding_list K x h) refl l

    abbrev pub binding_list_deep : Deep (Cell L) (ListStruct L)
    binding_list_deep = record {
      shape = binding_list_shape V;
      copy = copy_binding_list K;
      deep = copy_binding_list-IsDeep;
    }
