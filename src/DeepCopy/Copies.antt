-- ===== src/DeepCopy/Copies.antt =====
-- The generated functions, `DeepCopyInto` and `DeepCopy` of each type, over those of the vendored
-- types. `DeepCopyInto` gives what it leaves in `*out`; `out` is made from `*in`, so a field that
-- the function does not name is assigned.
use k_mesh.Base.{ℕ, Option, none, some, []}
use k_mesh.DeepCopy.{Copier, alloc, assign, copy_cell, copy_ref}
use k_mesh.DeepCopy.Types.{
  Library, EgressStruct, IngressStruct, SpecStruct, KMeshStatusStruct, KMeshStruct,
  BindingStatusStruct, BindingStruct, ListStruct, Cell, text_place, reference_place,
  destination_place, addressable_place, egress_place, ingress_place, mesh_place, binding_place,
  mesh_list_place, binding_list_place, spec_place, mesh_status_place, binding_status_place,
}

-- `DeepCopyInto` of the vendored types
pub record Copiers (L : Library) : Type 0 where
  pub object_meta : Copier (Cell L) L.ObjectMeta
  pub list_meta : Copier (Cell L) L.ListMeta
  pub duck_status : Copier (Cell L) L.DuckStatus
  pub destination : Copier (Cell L) L.Destination
  pub addressable : Copier (Cell L) L.Addressable

-- `func (in *BrokerBindingSpec) DeepCopyInto(out *BrokerBindingSpec)`
unfoldable pub copy_spec : {L : Library} → Copier (Cell L) SpecStruct
copy_spec x h =
    let r = copy_ref text_place assign x.classes h in
    let s = copy_ref reference_place assign x.kmesh r.1 in
    (record { classes = r.0; kmesh = s.0 }, s.1)

module _ {L : Library} (K : Copiers L) where
  -- `func (in *Egress) DeepCopyInto(out *Egress)`
  unfoldable pub copy_egress : Copier (Cell L) EgressStruct
  copy_egress x h =
      let r = copy_ref destination_place K.destination x.destination h in
      (record x { destination = r.0 }, r.1)

  -- `func (in *Ingress) DeepCopyInto(out *Ingress)`
  unfoldable pub copy_ingress : Copier (Cell L) IngressStruct
  copy_ingress x h =
      let r = copy_ref addressable_place K.addressable x.address h in
      let s = copy_ref egress_place copy_egress x.egresses r.1 in
      (record x { address = r.0; egresses = s.0 }, s.1)

  -- `func (in *KMeshStatus) DeepCopyInto(out *KMeshStatus)`
  unfoldable pub copy_mesh_status : Copier (Cell L) (KMeshStatusStruct L)
  copy_mesh_status x h =
      let r = K.duck_status x.status h in
      let s = copy_ref text_place assign x.broker_classes r.1 in
      let t = copy_ref ingress_place copy_ingress x.ingresses s.1 in
      (record { status = r.0; broker_classes = s.0; ingresses = t.0 }, t.1)

  -- `func (in *KMesh) DeepCopyInto(out *KMesh)`
  unfoldable pub copy_mesh : Copier (Cell L) (KMeshStruct L)
  copy_mesh x h =
      let r = K.object_meta x.meta h in
      let s = copy_mesh_status x.status r.1 in (record x { meta = r.0; status = s.0 }, s.1)

  -- `func (in *BrokerBindingStatus) DeepCopyInto(out *BrokerBindingStatus)`
  unfoldable pub copy_binding_status : Copier (Cell L) (BindingStatusStruct L)
  copy_binding_status x h = let r = K.duck_status x.status h in (record { status = r.0 }, r.1)

  -- `func (in *BrokerBinding) DeepCopyInto(out *BrokerBinding)`
  unfoldable pub copy_binding : Copier (Cell L) (BindingStruct L)
  copy_binding x h =
      let r = K.object_meta x.meta h in
      let s = copy_spec x.spec r.1 in
      let t = copy_binding_status x.status s.1 in
      (record x { meta = r.0; spec = s.0; status = t.0 }, t.1)

  -- `func (in *KMeshList) DeepCopyInto(out *KMeshList)`
  unfoldable pub copy_mesh_list : Copier (Cell L) (ListStruct L)
  copy_mesh_list x h =
      let r = K.list_meta x.meta h in
      let s = copy_ref mesh_place copy_mesh x.items r.1 in
      (record x { meta = r.0; items = s.0 }, s.1)

  -- `func (in *BrokerBindingList) DeepCopyInto(out *BrokerBindingList)`
  unfoldable pub copy_binding_list : Copier (Cell L) (ListStruct L)
  copy_binding_list x h =
      let r = K.list_meta x.meta h in
      let s = copy_ref binding_place copy_binding x.items r.1 in
      (record x { meta = r.0; items = s.0 }, s.1)

  -- `func (in Egresses) DeepCopyInto(out *Egresses)`: a slice, also where `in` is nil
  unfoldable pub copy_egresses : Copier (Cell L) (Option ℕ)
  copy_egresses none h = let r = alloc (egress_place.inject []) h in (some r.0, r.1)
  copy_egresses (some a) h = let r = copy_cell egress_place copy_egress a h in (some r.0, r.1)

  -- `func (in Ingresses) DeepCopyInto(out *Ingresses)`
  unfoldable pub copy_ingresses : Copier (Cell L) (Option ℕ)
  copy_ingresses none h = let r = alloc (ingress_place.inject []) h in (some r.0, r.1)
  copy_ingresses (some a) h = let r = copy_cell ingress_place copy_ingress a h in (some r.0, r.1)

-- `DeepCopy` through a pointer to a struct: nil for nil, and else a new struct for a copy of it.
-- `func (in *BrokerBindingSpec) DeepCopy() *BrokerBindingSpec`
unfoldable pub deep_copy_spec : {L : Library} → Copier (Cell L) (Option ℕ)
deep_copy_spec = copy_ref spec_place copy_spec

module _ {L : Library} (K : Copiers L) where
  -- `func (in *KMesh) DeepCopy() *KMesh`
  unfoldable pub deep_copy_mesh : Copier (Cell L) (Option ℕ)
  deep_copy_mesh = copy_ref mesh_place (copy_mesh K)

  -- `func (in *KMeshStatus) DeepCopy() *KMeshStatus`
  unfoldable pub deep_copy_mesh_status : Copier (Cell L) (Option ℕ)
  deep_copy_mesh_status = copy_ref mesh_status_place (copy_mesh_status K)

  -- `func (in *KMeshList) DeepCopy() *KMeshList`
  unfoldable pub deep_copy_mesh_list : Copier (Cell L) (Option ℕ)
  deep_copy_mesh_list = copy_ref mesh_list_place (copy_mesh_list K)

  -- `func (in *BrokerBinding) DeepCopy() *BrokerBinding`
  unfoldable pub deep_copy_binding : Copier (Cell L) (Option ℕ)
  deep_copy_binding = copy_ref binding_place (copy_binding K)

  -- `func (in *BrokerBindingStatus) DeepCopy() *BrokerBindingStatus`
  unfoldable pub deep_copy_binding_status : Copier (Cell L) (Option ℕ)
  deep_copy_binding_status = copy_ref binding_status_place (copy_binding_status K)

  -- `func (in *BrokerBindingList) DeepCopy() *BrokerBindingList`
  unfoldable pub deep_copy_binding_list : Copier (Cell L) (Option ℕ)
  deep_copy_binding_list = copy_ref binding_list_place (copy_binding_list K)

  -- `func (in *Egress) DeepCopy() *Egress`
  unfoldable pub deep_copy_egress : Copier (Cell L) (Option ℕ)
  deep_copy_egress = copy_ref egress_place (copy_egress K)

  -- `func (in *Ingress) DeepCopy() *Ingress`
  unfoldable pub deep_copy_ingress : Copier (Cell L) (Option ℕ)
  deep_copy_ingress = copy_ref ingress_place (copy_ingress K)

  -- `func (in Egresses) DeepCopy() Egresses`
  unfoldable pub deep_copy_egresses : Copier (Cell L) (Option ℕ)
  unfolding copy_egresses
  deep_copy_egresses none h = (none, h)
  deep_copy_egresses (some a) h = copy_egresses K (some a) h

  -- `func (in Ingresses) DeepCopy() Ingresses`
  unfoldable pub deep_copy_ingresses : Copier (Cell L) (Option ℕ)
  unfolding copy_ingresses
  deep_copy_ingresses none h = (none, h)
  deep_copy_ingresses (some a) h = copy_ingresses K (some a) h
