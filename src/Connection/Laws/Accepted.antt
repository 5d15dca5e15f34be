-- ===== src/Connection/Laws/Accepted.antt =====
-- What the mutations that `Apply` carries out require, and the repository after each.
use astra_sync.Prelude.{
  ℤ, text_eq_iff, true, false, not, none, some, is_set, [], ◌∷◌, ◌≡◌, ◌⊎◌, inl, inr, arith, ok,
  Option-cases, Map, text_key, int_key, at, set_at, delete_at, int_eq_iff, inc64, >>=-passes,
  >>-passes, check-passes,
}
use astra_sync.Connection.Error.{
  conflict, in_use, already_exists, create_identity_invalid, candidate_required,
}
use astra_sync.Connection.Settings.{Generation}
use astra_sync.Connection.Model.{Connection, is_disabled, validate_connection}
use astra_sync.Connection.Policy.{Outside}
use astra_sync.Connection.Mutation.{Mutation, MutationResult}
use astra_sync.Connection.Store.{Repository, references_of}
use astra_sync.Connection.Limits.{has_test_of}
use astra_sync.Connection.Apply.{
  current_at, is_in_use, is_foreign, follows, zero_references, required, mutation_key,
  create_locked, delete_locked, checked_edit,
}

abbrev pub after_create : Repository → Mutation → Connection → Repository
after_create r m c = record r {
  connections = set_at (mutation_key m) c r.connections;
  uid_index = set_at c.uid (mutation_key m) r.uid_index;
  generations = set_at c.uid ((c.current.number, c.current) ∷ []) r.generations;
}

abbrev pub after_delete : Repository → Mutation → Connection → Repository
after_delete r m c = record r {
  connections = delete_at (mutation_key m) r.connections;
  uid_index = delete_at c.uid r.uid_index;
  references = delete_at c.uid r.references;
  generations = delete_at c.uid r.generations;
}

-- After an edit that keeps the generation, and after one that does not.
abbrev pub after_edit : Repository → Mutation → Connection → Repository
after_edit r m next = record r { connections = set_at (mutation_key m) next r.connections }

abbrev pub after_generation : Repository → Mutation → Map ℤ Generation → Connection → Repository
after_generation r m known next = record r {
  connections = set_at (mutation_key m) next r.connections;
  generations = set_at next.uid (set_at next.current.number next.current known) r.generations;
}

-- The connection that a mutation is about, at the expected version.
pub record IsCurrent (r : Repository) (m : Mutation) (c : Connection) : Type 0 where
  pub found : at (mutation_key m) r.connections ≡ some c
  pub version_matches : c.version ≡ m.expected_version

pub current_at-IsCurrent :
    (r : Repository) (m : Mutation) (c : Connection)
    → current_at r (mutation_key m) m.expected_version ≡ ok c
    → IsCurrent r m c
unfolding current_at
current_at-IsCurrent r m c h = elim (Option-cases (at (mutation_key m) r.connections)) [
  | inl missing ↦ absurd (ground (arith, missing))
  | inr (d, found) ↦ record {
    found = ground (arith, found);
    version_matches = ground (arith, found, int_eq_iff d.version m.expected_version);
  }
]

pub record Deleted (r : Repository) (m : Mutation) (s : Repository) (c : Connection) : Type 0 where
  pub current : IsCurrent r m c
  pub off : is_disabled c.state ≡ true
  pub unused : zero_references (references_of r c.uid) ≡ true
  pub untested : has_test_of c.uid r.tests ≡ false
  pub after : s ≡ after_delete r m c

pub delete_locked-ok :
    (r : Repository) (m : Mutation) (result : MutationResult) (s : Repository)
    → delete_locked r m ≡ ok (result, s)
    → (c : Connection) × Deleted r m s c
unfolding delete_locked
delete_locked-ok r m result s h =
    let (c, found, h₁) = >>=-passes (current_at r (mutation_key m) m.expected_version) _ h in
    let (free, after) = check-passes (is_in_use r c) in_use _ h₁ in
    (
      c,
      record {
        current = current_at-IsCurrent r m c found;
        off = ground arith;
        unused = ground arith;
        untested = ground arith;
        after = ground arith;
      },
    )

module _ (o : Outside) where
  pub record Created (r : Repository) (m : Mutation) (s : Repository) (c : Connection)
      : Type 0 where
    pub absent : at (mutation_key m) r.connections ≡ none
    pub given : m.candidate ≡ some c
    pub tenant_matches : c.tenant_id ≡ m.mutation_tenant
    pub name_matches : c.connection_name ≡ m.mutation_name
    pub valid : validate_connection o.is_uuid c ≡ ok tt
    pub after : s ≡ after_create r m c

  pub create_locked-ok :
      (r : Repository) (m : Mutation) (result : MutationResult) (s : Repository)
      → create_locked o r m ≡ ok (result, s)
      → (c : Connection) × Created r m s c
  unfolding create_locked
  create_locked-ok r m result s h =
      let (free, h₁) =
        check-passes (is_set (at (mutation_key m) r.connections)) already_exists _ h in
      let (c, given, h₂) = >>=-passes (required create_identity_invalid m.candidate) _ h₁ in
      let (same, h₃) = check-passes (is_foreign m c) create_identity_invalid _ h₂ in
      let (valid, after) = >>-passes (validate_connection o.is_uuid c) _ h₃ in
      (
        c,
        record {
          absent = ground arith;
          given = ground arith;
          tenant_matches = ground (arith, text_eq_iff c.tenant_id m.mutation_tenant);
          name_matches = ground (arith, text_eq_iff c.connection_name m.mutation_name);
          valid = valid;
          after = ground arith;
        },
      )

  -- A candidate that may take the place of the stored connection.
  pub record Takes (r : Repository) (m : Mutation) (c next : Connection) : Type 0 where
    pub current : IsCurrent r m c
    pub given : m.candidate ≡ some next
    pub valid : validate_connection o.is_uuid next ≡ ok tt
    pub uid_kept : next.uid ≡ c.uid
    pub tenant_kept : next.tenant_id ≡ c.tenant_id
    pub name_kept : next.connection_name ≡ c.connection_name
    pub version_kept : (next.version ≡ c.version) ⊎ (next.version ≡ inc64 c.version)
    pub number_kept :
        (next.current.number ≡ c.current.number) ⊎ (next.current.number ≡ inc64 c.current.number)

  pub checked_edit-ok :
      (r : Repository) (m : Mutation) (c next : Connection)
      → checked_edit o r m ≡ ok (c, next)
      → Takes r m c next
  unfolding checked_edit follows
  checked_edit-ok r m c next h =
      let (d, found, h₁) = >>=-passes (current_at r (mutation_key m) m.expected_version) _ h in
      let (e, given, h₂) = >>=-passes (required candidate_required m.candidate) _ h₁ in
      let (kept, h₃) = check-passes (not (follows d e)) conflict _ h₂ in
      let (valid, both) = >>-passes (validate_connection o.is_uuid e) _ h₃ in
      let same : (d ≡ c) × (e ≡ next) = ground arith in
      record {
        current = current_at-IsCurrent r m c (ground arith);
        given = ground arith;
        valid = ground arith;
        uid_kept = ground (arith, text_eq_iff e.uid d.uid);
        tenant_kept = ground (arith, text_eq_iff e.tenant_id d.tenant_id);
        name_kept = ground (arith, text_eq_iff e.connection_name d.connection_name);
        version_kept =
            ground (arith, int_eq_iff e.version d.version, int_eq_iff e.version (inc64 d.version));
        number_kept = ground (
          arith,
          int_eq_iff e.current.number d.current.number,
          int_eq_iff e.current.number (inc64 d.current.number),
        );
      }
