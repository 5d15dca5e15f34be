-- ===== src/Connection/Laws/Stored.antt =====
-- The stored connections, their index by UID and their generations, as long as every new connection
-- gets a UID that is not in use.
use astra_sync.Prelude.{
  ℤ, Text, true, false, none, some, [], ◌∷◌, ◌≡◌, inl, inr, refl, arith, ok, Bool-cases, Map,
  text_key, int_key, at, set_at, same, same_iff, at-set_at, at-delete_at, int_eq, int_eq_iff,
  is_set,
}
use astra_sync.Connection.Settings.{Generation}
use astra_sync.Connection.Model.{Connection, validate_connection}
use astra_sync.Connection.Policy.{Outside}
use astra_sync.Connection.Mutation.{Mutation}
use astra_sync.Connection.Store.{Repository, resource_key}
use astra_sync.Connection.Apply.{edit_result, store_edit, mutation_key}
use astra_sync.Connection.Laws.Accepted.{
  after_create, after_delete, after_edit, after_generation, Takes,
}

-- `c` is found under its key and through the index, and its generation is on record.
pub record Stored (o : Outside) (r : Repository) (key : Text) (c : Connection) : Type 0 where
  pub valid : validate_connection o.is_uuid c ≡ ok tt
  pub keyed : key ≡ resource_key c.tenant_id c.connection_name
  pub in_index : at c.uid r.uid_index ≡ some key
  pub known : Map ℤ Generation
  pub has_known : at c.uid r.generations ≡ some known
  pub recorded : is_set (at c.current.number known) ≡ true

abbrev pub Sound : Outside → Repository → Type 0
Sound o r = (key : Text) (c : Connection) → at key r.connections ≡ some c → Stored o r key c

module _ (o : Outside) where
  pub after_create-Sound :
      (r : Repository) (m : Mutation) (c : Connection)
      → validate_connection o.is_uuid c ≡ ok tt
      → mutation_key m ≡ resource_key c.tenant_id c.connection_name
      → at c.uid r.uid_index ≡ none
      → Sound o r
      → Sound o (after_create r m c)
  unfolding at
  after_create-Sound r m c v k fresh sound key d h =
      let index = at-set_at c.uid d.uid (mutation_key m) r.uid_index in
      let generations = at-set_at c.uid d.uid ((c.current.number, c.current) ∷ []) r.generations in
      let connections = at-set_at (mutation_key m) key c r.connections in
      elim (Bool-cases (same (mutation_key m) key)) [
        | inl found ↦
            let is_c : d ≡ c = ground arith in
            record {
              valid = ground arith;
              keyed = ground (arith, same_iff (mutation_key m) key);
              in_index = ground (arith, same_iff (mutation_key m) key, same_iff c.uid d.uid);
              known = (c.current.number, c.current) ∷ [];
              has_known = ground (arith, same_iff c.uid d.uid);
              recorded = ground (arith, same_iff c.current.number d.current.number);
            }
        | inr other ↦
            let old = sound key d (ground arith) in
            let apart : same c.uid d.uid ≡ false =
              ground (arith, same_iff c.uid d.uid, old.in_index) in
            record {
              valid = old.valid;
              keyed = old.keyed;
              in_index = ground (arith, old.in_index);
              known = old.known;
              has_known = ground (arith, old.has_known);
              recorded = old.recorded;
            }
      ]

  pub after_delete-Sound :
      (r : Repository) (m : Mutation) (c : Connection)
      → at (mutation_key m) r.connections ≡ some c
      → Sound o r
      → Sound o (after_delete r m c)
  after_delete-Sound r m c here sound key d h =
      let index = at-delete_at c.uid d.uid r.uid_index in
      let generations = at-delete_at c.uid d.uid r.generations in
      let connections = at-delete_at (mutation_key m) key r.connections in
      let old = sound key d (ground arith) in
      let gone = sound (mutation_key m) c here in
      let apart : same c.uid d.uid ≡ false =
        ground (
          arith,
          same_iff c.uid d.uid,
          same_iff (mutation_key m) key,
          old.in_index,
          gone.in_index,
        ) in
      record {
        valid = old.valid;
        keyed = old.keyed;
        in_index = ground (arith, old.in_index);
        known = old.known;
        has_known = ground (arith, old.has_known);
        recorded = old.recorded;
      }

  after_edit-Sound :
      (r : Repository) (m : Mutation) (c next : Connection)
      → Takes o r m c next
      → next.current.number ≡ c.current.number
      → Sound o r
      → Sound o (after_edit r m next)
  after_edit-Sound r m c next takes number sound key d h =
      let connections = at-set_at (mutation_key m) key next r.connections in
      let old = sound (mutation_key m) c takes.current.found in
      elim (Bool-cases (same (mutation_key m) key)) [
        | inl found ↦
            let is_next : d ≡ next = ground arith in
            let key_kept : mutation_key m ≡ key = (same_iff (mutation_key m) key).0 found in
            record {
              valid = ground (arith, takes.valid);
              keyed = ground (arith, old.keyed, takes.tenant_kept, takes.name_kept);
              in_index = ground (arith, old.in_index, takes.uid_kept);
              known = old.known;
              has_known = ground (arith, old.has_known, takes.uid_kept);
              recorded = ground (arith, old.recorded);
            }
        | inr other ↦
            let kept = sound key d (ground arith) in
            record {
              valid = kept.valid;
              keyed = kept.keyed;
              in_index = kept.in_index;
              known = kept.known;
              has_known = kept.has_known;
              recorded = kept.recorded;
            }
      ]

  -- The stored connection `c` gives way to one with the next generation.
  after_generation-Sound :
      (r : Repository) (m : Mutation) (c next : Connection) (known : Map ℤ Generation)
      → Takes o r m c next
      → Sound o r
      → Sound o (after_generation r m known next)
  after_generation-Sound r m c next known takes sound key d h =
      let connections = at-set_at (mutation_key m) key next r.connections in
      let more = set_at next.current.number next.current known in
      let generations = at-set_at next.uid d.uid more r.generations in
      let old = sound (mutation_key m) c takes.current.found in
      elim (Bool-cases (same (mutation_key m) key)) [
        | inl found ↦
            let is_next : d ≡ next = ground arith in
            let key_kept : mutation_key m ≡ key = (same_iff (mutation_key m) key).0 found in
            record {
              valid = ground (arith, takes.valid);
              keyed = ground (arith, old.keyed, takes.tenant_kept, takes.name_kept);
              in_index = ground (arith, old.in_index, takes.uid_kept);
              known = more;
              has_known = ground (arith, same_iff next.uid d.uid);
              recorded = ground (
                arith,
                at-set_at next.current.number d.current.number next.current known,
                same_iff next.current.number d.current.number,
              );
            }
        | inr other ↦
            let kept = sound key d (ground arith) in
            let apart : same next.uid d.uid ≡ false = ground (
              arith,
              same_iff next.uid d.uid,
              same_iff (mutation_key m) key,
              kept.in_index,
              old.in_index,
              takes.uid_kept,
            ) in
            record {
              valid = kept.valid;
              keyed = kept.keyed;
              in_index = kept.in_index;
              known = kept.known;
              has_known = ground (arith, kept.has_known);
              recorded = kept.recorded;
            }
      ]

  -- An edit of a sound repository is stored, and never meets a missing map of generations.
  pub store_edit-stores :
      (r : Repository) (m : Mutation) (c next : Connection)
      → Takes o r m c next
      → Sound o r
      → (s : Repository) × (store_edit r (mutation_key m) c next ≡ (ok (edit_result c next), s))
        × Sound o s
        × (s.connections ≡ set_at (mutation_key m) next r.connections)
  unfolding store_edit
  store_edit-stores r m c next takes sound =
      let old = sound (mutation_key m) c takes.current.found in
      elim (Bool-cases (int_eq next.current.number c.current.number)) [
        | inl kept ↦
            let number = (int_eq_iff next.current.number c.current.number).0 kept in
            (
              after_edit r m next,
              rw (kept, store_edit) refl,
              after_edit-Sound r m c next takes number sound,
              refl,
            )
        | inr moved ↦ (
          after_generation r m old.known next,
          ground (arith, old.has_known, takes.uid_kept),
          after_generation-Sound r m c next old.known takes sound,
          refl,
        )
      ]
