-- ===== src/Tests/Machines.antt =====
-- A condition manager, string sets and an API server that behave as documented.
use k_mesh.Base.{
  ◌≡◌, ◌≢◌, ◌↔◌, refl, sym, ap, subst, ◌∙◌, inl, inr, Bool, true, false, Option, none, some, List,
  [], ◌∷◌, ◌++◌, arith, if◌then◌else◌, In, In-append, In-append_left, In-append_right, Bool-cases,
}
use k_mesh.Base.Text.{Text, text, text_eq, text_eq_iff, text_eq_refl}
use k_mesh.Base.Dict.{Dict, lookup, insert, lookup-insert}
use k_mesh.Base.Result.{not_found, Result, ok, err, ok-injective}
use k_mesh.Api.{Condition, DuckStatus, KMesh, KMeshStatus}
use k_mesh.Api.Lifecycle.{ConditionSet}
use k_mesh.Api.Lifecycle
use k_mesh.Machinery.StringSet.{StringSet, IsDistinct}
use k_mesh.Machinery.StringSet
use k_mesh.Machinery.MeshApi.{MeshApi}
use k_mesh.Machinery.MeshApi
use k_mesh.Binding.Ingresses.{slashed}

-- The first condition of a type is the one that counts.
abbrev status_of : Text → List Condition → Option Text
status_of t [] = none
status_of t (c ∷ cs) = if text_eq t c.type_name then some c.status else status_of t cs

abbrev set_status : Text → Text → Text → Text → DuckStatus → DuckStatus
set_status t v reason msg s = record s {
  conditions = record { type_name = t; status = v; reason = reason; message = msg } ∷ s.conditions;
}

abbrev initialized : DuckStatus → DuckStatus
initialized s = elim (status_of (text "Ready") s.conditions) [
  | none ↦ set_status (text "Ready") (text "Unknown") [] [] s
  | some _ ↦ s
]

abbrev pub conditions : ConditionSet
conditions = record {
  initialize = initialized;
  mark_true = λ t. set_status t (text "True") [] [];
  mark_false = λ t. set_status t (text "False");
  condition = λ t s. status_of t s.conditions;
}

initialized-none :
    (s : DuckStatus)
    → status_of (text "Ready") s.conditions ≡ none
    → status_of (text "Ready") (initialized s).conditions ≡ some (text "Unknown")
initialized-none s h = rw (h, initialized) (rw (text_eq_refl (text "Ready")))

initialized-some :
    (s : DuckStatus) (v : Text)
    → status_of (text "Ready") s.conditions ≡ some v
    → status_of (text "Ready") (initialized s).conditions ≡ some v
initialized-some s v h = rw (h, initialized) h

pub conditions_lawful : Lifecycle.IsLawful conditions
conditions_lawful = record {
  condition-mark_true = λ t s. rw (text_eq_refl t);
  condition-mark_false = λ t reason msg s. rw (text_eq_refl t);
  condition-initialize_none = initialized-none;
  condition-initialize_some = λ s h. initialized-some s _ h;
}

abbrev member : Text → List Text → Bool
member x [] = false
member x (y ∷ ys) = if text_eq x y then true else member x ys

abbrev without : Text → List Text → List Text
without y [] = []
without y (x ∷ xs) = let rest = without y xs in if text_eq x y then rest else x ∷ rest

abbrev distinct : List Text → List Text
distinct [] = []
distinct (x ∷ xs) = let rest = distinct xs in if member x rest then rest else x ∷ rest

abbrev pub sets : StringSet
sets = record {
  Set = List Text;
  new_string = λ xs. xs;
  insert = λ xs s. xs ++ s;
  has = member;
  delete = without;
  list = distinct;
}

member_iff : (x : Text) (xs : List Text) → (member x xs ≡ true) ↔ In x xs
member_iff x [] = (λ h. cc h, λ h. absurd h)
member_iff x (y ∷ ys) = elim (Bool-cases (text_eq x y)) [
  | inl e ↦ rw e (λ _. inl ((text_eq_iff x y).0 e), λ _. refl)
  | inr e ↦ rw e (
    λ h. inr ((member_iff x ys).0 h),
    λ h. elim h [ inl p ↦ absurd (cc ((text_eq_iff x y).1 p)) | inr k ↦ (member_iff x ys).1 k ],
  )
]

member-without :
    (x y : Text) (xs : List Text)
    → (member x (without y xs) ≡ true) ↔ ((x ≢ y) × (member x xs ≡ true))
member-without x y [] = (λ h. absurd (cc h), λ (_, h). h)
member-without x y (z ∷ xs) =
    ground (arith, text_eq_iff x y, text_eq_iff z y, text_eq_iff x z, member-without x y xs)

member-distinct : (x : Text) (xs : List Text) → member x (distinct xs) ≡ member x xs
member-distinct x [] = refl
member-distinct x (y ∷ xs) =
    ground (arith, text_eq_iff x y, member-distinct x xs, member-distinct y xs)

distinct-IsDistinct : (xs : List Text) → IsDistinct (distinct xs)
distinct-IsDistinct [] = tt
distinct-IsDistinct (x ∷ xs) = elim (Bool-cases (member x (distinct xs))) [
  | inl e ↦ rw e (distinct-IsDistinct xs)
  | inr e ↦ rw e (λ h. cc ((member_iff x (distinct xs)).1 h), distinct-IsDistinct xs)
]

pub sets_lawful : StringSet.IsLawful sets
sets_lawful = record {
  has-new_string = member_iff;
  has-insert = λ x xs s. (
    λ h. elim (In-append x xs s ((member_iff x (xs ++ s)).0 h)) [
      | inl k ↦ inl k
      | inr k ↦ inr ((member_iff x s).1 k)
    ],
    λ h. (member_iff x (xs ++ s)).1 (elim h [
      | inl k ↦ In-append_left x xs s k
      | inr k ↦ In-append_right x xs s ((member_iff x s).0 k)
    ]),
  );
  has-delete = member-without;
  In-list = λ x s. (
    λ h. sym (member-distinct x s) ∙ (member_iff x (distinct s)).1 h,
    λ h. (member_iff x (distinct s)).0 (member-distinct x s ∙ h),
  );
  list-IsDistinct = distinct-IsDistinct;
}

-- A server that holds the statuses of the meshes; a patch is the status that it leads to.
abbrev patched :
    KMesh → Text → Text → KMeshStatus → Dict KMeshStatus → Dict KMeshStatus × Result KMesh
patched answer ns name st server = elim (lookup (slashed ns name) server) [
  | none ↦ (server, err (not_found []))
  | some _ ↦ (insert (slashed ns name) st server, ok answer)
]

abbrev pub mesh_api : KMesh → MeshApi
mesh_api answer = record {
  Server = Dict KMeshStatus;
  Patch = KMeshStatus;
  Bytes = KMeshStatus;
  create_patch = λ before after. ok after.status;
  marshal_json = λ p. ok p;
  patch_status = patched answer;
  stored = λ ns name. lookup (slashed ns name);
}

patched-lookup :
    (answer m : KMesh) (before after bytes : KMeshStatus) (ns name : Text) (s t : Dict KMeshStatus)
    → after ≡ bytes
    → lookup (slashed ns name) s ≡ some before
    → patched answer ns name bytes s ≡ (t, ok m)
    → lookup (slashed ns name) t ≡ some after
patched-lookup answer m before after bytes ns name s t e h q =
    let stored : insert (slashed ns name) bytes s ≡ t = ap (λ x. x.0) (rw (h, patched) at q) in
    subst (λ d. lookup (slashed ns name) d ≡ some after) stored
      (lookup-insert (slashed ns name) (slashed ns name) bytes s
        ∙ rw (text_eq_refl (slashed ns name)) (ap some (sym e)))

pub mesh_api_lawful : (answer : KMesh) → MeshApi.IsLawful (mesh_api answer)
mesh_api_lawful answer = record {
  stored-patch_status = λ before after p bytes ns name s t m e f h g.
      patched-lookup answer m before.status after.status bytes ns name s t
        (ok-injective e ∙ ok-injective f) h g;
}
