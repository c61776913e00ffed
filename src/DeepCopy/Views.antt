-- ===== src/DeepCopy/Views.antt =====
-- What the structs of the API group stand for, given what the vendored ones stand for; and that
-- the vendored copying functions are deep, as they promise.
use k_mesh.Base.Text.{Text}
use k_mesh.Api.{KReference}
use k_mesh.DeepCopy.Types.{
  Library, EgressStruct, IngressStruct, SpecStruct, KMeshStatusStruct, KMeshStruct,
  BindingStatusStruct, BindingStruct, ListStruct, Cell, text_place, reference_place,
  destination_place, addressable_place, egress_place, ingress_place, mesh_place, binding_place,
}
use k_mesh.DeepCopy.Shapes.{Shape, flat, ref, both, by_fields}
use k_mesh.DeepCopy.Freshness.{IsDeep}
use k_mesh.DeepCopy.Copies.{Copiers}

pub record Views (L : Library) : Type 1 where
  pub object_meta : Shape (Cell L) L.ObjectMeta
  pub list_meta : Shape (Cell L) L.ListMeta
  pub duck_status : Shape (Cell L) L.DuckStatus
  pub destination : Shape (Cell L) L.Destination
  pub addressable : Shape (Cell L) L.Addressable

pub record AreDeep {L : Library} (K : Copiers L) (V : Views L) : Type 0 where
  pub object_meta : IsDeep V.object_meta K.object_meta
  pub list_meta : IsDeep V.list_meta K.list_meta
  pub duck_status : IsDeep V.duck_status K.duck_status
  pub destination : IsDeep V.destination K.destination
  pub addressable : IsDeep V.addressable K.addressable

abbrev pub spec_shape : {L : Library} → Shape (Cell L) SpecStruct
spec_shape =
    by_fields (λ x. (x.classes, x.kmesh))
      (both (ref (flat Text) text_place) (ref (flat KReference) reference_place))

module _ {L : Library} (V : Views L) where
  abbrev pub egress_shape : Shape (Cell L) EgressStruct
  egress_shape =
      by_fields (λ x. (x.destination, x.name))
        (both (ref V.destination destination_place) (flat Text))

  abbrev pub ingress_shape : Shape (Cell L) IngressStruct
  ingress_shape =
      by_fields (λ x. (x.address, (x.egresses, x.name)))
        (both (ref V.addressable addressable_place)
          (both (ref egress_shape egress_place) (flat Text)))

  abbrev pub mesh_status_shape : Shape (Cell L) (KMeshStatusStruct L)
  mesh_status_shape =
      by_fields (λ x. (x.status, (x.broker_classes, x.ingresses)))
        (both V.duck_status (both (ref (flat Text) text_place) (ref ingress_shape ingress_place)))

  abbrev pub mesh_shape : Shape (Cell L) (KMeshStruct L)
  mesh_shape =
      by_fields (λ x. (x.type_meta, (x.meta, x.status)))
        (both (flat L.TypeMeta) (both V.object_meta mesh_status_shape))

  abbrev pub binding_status_shape : Shape (Cell L) (BindingStatusStruct L)
  binding_status_shape = by_fields (λ x. x.status) V.duck_status

  abbrev pub binding_shape : Shape (Cell L) (BindingStruct L)
  binding_shape =
      by_fields (λ x. (x.type_meta, (x.meta, (x.spec, x.status))))
        (both (flat L.TypeMeta) (both V.object_meta (both spec_shape binding_status_shape)))

  abbrev pub mesh_list_shape : Shape (Cell L) (ListStruct L)
  mesh_list_shape =
      by_fields (λ x. (x.type_meta, (x.meta, x.items)))
        (both (flat L.TypeMeta) (both V.list_meta (ref mesh_shape mesh_place)))

  abbrev pub binding_list_shape : Shape (Cell L) (ListStruct L)
  binding_list_shape =
      by_fields (λ x. (x.type_meta, (x.meta, x.items)))
        (both (flat L.TypeMeta) (both V.list_meta (ref binding_shape binding_place)))
