-- ===== src/Job/Laws/Mutations.antt =====
-- What the validation of a mutation lets through.
use astra_sync.Prelude.{
  ℤ, pos, ◌≤◌, Text, text_eq_iff, Bool, true, false, Option, none, some, is_set, is_positive, List,
  [], ◌∷◌, Result, ok, check, ◌>>◌, ◌≡◌, ◌≢◌, ◌↔◌, arith, ap, >>-passes,
}
use astra_sync.Job.Error.{Error, duplicate_role}
use astra_sync.Job.Spec.{validate_spec, validate_key}
use astra_sync.Job.Mutation.{
  Mutation, MutationKind, create_kind, update_kind, delete_kind, start_kind, stop_kind,
  unsupported_kind, ConnectionRole, ConnectionBinding, source_role, unsupported_role,
  ValidationFence, validate_mutation, validate_shape, validate_fence, validate_bindings,
  validate_binding, validate_identity, seen_role, role_eq,
}

-- Which parts a mutation of each kind carries: a create names no version, every other kind names
-- one; a spec comes with a create and an update, a fence with those and a start.
abbrev pub ShapeFits : (Text → Bool) → MutationKind → ℤ → Text → Bool → Bool → Type 0
ShapeFits is_uuid create_kind v u spec fence =
    (v ≡ pos 0) × (is_uuid u ≡ true) × (spec ≡ true) × (fence ≡ true)
ShapeFits is_uuid update_kind v u spec fence =
    (is_positive v ≡ true) × (spec ≡ true) × (fence ≡ true)
ShapeFits is_uuid start_kind v u spec fence =
    (is_positive v ≡ true) × (spec ≡ false) × (fence ≡ true)
ShapeFits is_uuid stop_kind v u spec fence =
    (is_positive v ≡ true) × (spec ≡ false) × (fence ≡ false)
ShapeFits is_uuid delete_kind v u spec fence =
    (is_positive v ≡ true) × (spec ≡ false) × (fence ≡ false)
ShapeFits is_uuid (unsupported_kind k) v u spec fence = ⊥

module _ (is_uuid : Text → Bool) where
  pub validate_shape_iff :
      (k : MutationKind) (m : Mutation)
      → (validate_shape is_uuid k m ≡ ok tt)
        ↔ ShapeFits is_uuid k m.expected_version m.mutation_uid
            (is_set m.mutation_spec)
            (is_set m.validation)
  unfolding validate_shape
  validate_shape_iff create_kind m = ground arith
  validate_shape_iff k m = ground arith

  abbrev pub Accepts {ℓ} : {A : Type ℓ} → (A → Result Error (Unit {0})) → Option A → Type 0
  Accepts f none = Unit {0}
  Accepts f (some a) = f a ≡ ok tt

  pub record IsAcceptable (m : Mutation) : Type 0 where
    pub tenant_named : is_uuid m.tenant_id ≡ true
    pub key_valid : validate_key m.mutation_key ≡ ok tt
    pub identity_valid : validate_identity m.identity ≡ ok tt
    pub few_attributes : m.audit_attributes ≤ 32
    pub shape_fits :
        ShapeFits is_uuid m.kind m.expected_version m.mutation_uid
          (is_set m.mutation_spec)
          (is_set m.validation)
    pub spec_valid : Accepts validate_spec m.mutation_spec
    pub fence_valid : Accepts (validate_fence is_uuid) m.validation

  -- `Mutation.Validate` accepts exactly the mutations whose kind, version, UID, spec and fence fit
  -- together and whose parts are valid one by one.
  pub validate_mutation_iff :
      (m : Mutation) → (validate_mutation is_uuid m ≡ ok tt) ↔ IsAcceptable m
  unfolding validate_mutation
  validate_mutation_iff m = ground (arith, validate_shape_iff m.kind m)

  pub role_eq_iff : (a b : ConnectionRole) → (role_eq a b ≡ true) ↔ (a ≡ b)
  unfolding role_eq
  role_eq_iff (unsupported_role a) (unsupported_role b) = ground (arith, text_eq_iff a b)
  role_eq_iff source_role b = ground arith
  role_eq_iff a b = ground arith

  -- Every binding is valid, and no two have the same role.
  abbrev pub Absent : ConnectionRole → List ConnectionBinding → Type 0
  Absent r [] = Unit {0}
  Absent r (b ∷ bs) = (b.role ≢ r) × Absent r bs

  abbrev pub DistinctRoles : List ConnectionBinding → Type 0
  DistinctRoles [] = Unit {0}
  DistinctRoles (b ∷ bs) =
      (validate_binding is_uuid b ≡ ok tt) × Absent b.role bs × DistinctRoles bs

  validate_bindings-fresh :
      (roles : List ConnectionRole) (bs : List ConnectionBinding) (r : ConnectionRole)
      → validate_bindings is_uuid roles bs ≡ ok tt
      → seen_role r roles ≡ true
      → Absent r bs
  unfolding validate_bindings seen_role
  validate_bindings-fresh roles [] r h s = tt
  validate_bindings-fresh roles (b ∷ bs) r h s =
      let (valid, rest) =
        >>-passes (validate_binding is_uuid b >> check (seen_role b.role roles) duplicate_role) _
          h in
      (
        (λ e. ground (arith, ap (λ x. seen_role x roles) e)),
        validate_bindings-fresh (b.role ∷ roles) bs r rest (ground arith),
      )

  validate_bindings-distinct :
      (roles : List ConnectionRole) (bs : List ConnectionBinding)
      → validate_bindings is_uuid roles bs ≡ ok tt
      → DistinctRoles bs
  unfolding validate_bindings seen_role
  validate_bindings-distinct roles [] h = tt
  validate_bindings-distinct roles (b ∷ bs) h =
      let (valid, rest) =
        >>-passes (validate_binding is_uuid b >> check (seen_role b.role roles) duplicate_role) _
          h in
      (
        ground arith,
        validate_bindings-fresh (b.role ∷ roles) bs b.role rest
            (ground (arith, role_eq_iff b.role b.role)),
        validate_bindings-distinct (b.role ∷ roles) bs rest,
      )

  -- A fence that is accepted binds at most one connection to each role, and each binding is valid.
  pub validate_fence-DistinctRoles :
      (f : ValidationFence) → validate_fence is_uuid f ≡ ok tt → DistinctRoles f.bindings
  unfolding validate_fence
  validate_fence-DistinctRoles f h = validate_bindings-distinct [] f.bindings (ground arith)
