-- ===== src/Connection/Laws/Edits.antt =====
-- The edits of a connection: what they return.
use astra_sync.Prelude.{
  Text, text_eq_refl, Bool, true, List, ◌≡◌, ◌⊎◌, inl, inr, refl, sym, subst, arith, Result, ok,
  err, Result-cases, text_key, same, int_eq_iff, inc64, is_positive,
}
use astra_sync.Job.Status.{Time}
use astra_sync.Connection.Error.{Error}
use astra_sync.Connection.Settings.{Setting, Locator}
use astra_sync.Connection.Model.{
  Connection, State, Compatibility, validate_connection, renamed, regenerated, in_state, replace,
  rotate, set_state,
}
use astra_sync.Connection.Apply.{follows}

-- The edits with their arguments.
pub data Edit : Type 0 where
  replace_edit : Text → Text → List Setting → Text → Text → Time → Edit
  rotate_edit : Locator → Text → Text → Time → Edit
  state_edit : State → Compatibility → Time → Edit

abbrev first {ℓ} : {A : Type ℓ} → Result Error (A × Bool) → Result Error A
first (ok (a, differs)) = ok a
first (err e) = err e

unfoldable pub edit : (Text → Bool) → Connection → Edit → Result Error Connection
edit is_uuid c (replace_edit d a s r q now) = first (replace is_uuid c d a s r q now)
edit is_uuid c (rotate_edit l r q now) = rotate is_uuid c l r q now
edit is_uuid c (state_edit target k now) = first (set_state is_uuid c target k now)

-- The next version of `c`, with the same generation or the next one.
pub record Succeeds (is_uuid : Text → Bool) (c next : Connection) : Type 0 where
  pub valid : validate_connection is_uuid next ≡ ok tt
  pub uid_kept : next.uid ≡ c.uid
  pub tenant_kept : next.tenant_id ≡ c.tenant_id
  pub name_kept : next.connection_name ≡ c.connection_name
  pub connector_kept : next.connector ≡ c.connector
  pub created_kept : next.created_at ≡ c.created_at
  pub version_next : next.version ≡ inc64 c.version
  pub generation_next :
      (next.current ≡ c.current)
      ⊎ ((next.current.number ≡ inc64 c.current.number) × (next.state ≡ c.state))

module _ (is_uuid : Text → Bool) where
  -- Not changed, or a valid one of these.
  abbrev Becomes : Connection → Connection → Connection → Type 0
  Becomes c x next = (next ≡ c) ⊎ ((validate_connection is_uuid x ≡ ok tt) × (next ≡ x))

  replace-Becomes :
      (c : Connection) (d a : Text) (s : List Setting) (r q : Text) (now : Time) (next : Connection)
      → first (replace is_uuid c d a s r q now) ≡ ok next
      → Becomes c (renamed c d a now) next
        ⊎ Becomes c (regenerated (renamed c d a now) s c.current.locator r q now) next
  unfolding replace
  replace-Becomes c d a s r q now next h =
      let x = renamed c d a now in
      let y = regenerated x s c.current.locator r q now in
      ground (
        arith,
        Result-cases (validate_connection is_uuid x),
        Result-cases (validate_connection is_uuid y),
      )

  rotate-Becomes :
      (c : Connection) (l : Locator) (r q : Text) (now : Time) (next : Connection)
      → rotate is_uuid c l r q now ≡ ok next
      → Becomes c
          (regenerated (renamed c c.display_name c.description now) c.current.settings l r q now)
          next
  unfolding rotate
  rotate-Becomes c l r q now next h =
      let y =
        regenerated (renamed c c.display_name c.description now) c.current.settings l r q now in
      ground (arith, Result-cases (validate_connection is_uuid y))

  set_state-Becomes :
      (c : Connection) (target : State) (k : Compatibility) (now : Time) (next : Connection)
      → first (set_state is_uuid c target k now) ≡ ok next
      → Becomes c (in_state c target now) next
  unfolding set_state
  set_state-Becomes c target k now next h =
      ground (arith, Result-cases (validate_connection is_uuid (in_state c target now)))

  renamed-Succeeds :
      (c : Connection) (d a : Text) (now : Time)
      → validate_connection is_uuid (renamed c d a now) ≡ ok tt
      → Succeeds is_uuid c (renamed c d a now)
  renamed-Succeeds c d a now valid = record {
    valid = valid;
    uid_kept = refl;
    tenant_kept = refl;
    name_kept = refl;
    connector_kept = refl;
    created_kept = refl;
    version_next = refl;
    generation_next = inl refl;
  }

  regenerated-Succeeds :
      (c : Connection) (d a : Text) (s : List Setting) (l : Locator) (r q : Text) (now : Time)
      → validate_connection is_uuid (regenerated (renamed c d a now) s l r q now) ≡ ok tt
      → Succeeds is_uuid c (regenerated (renamed c d a now) s l r q now)
  regenerated-Succeeds c d a s l r q now valid = record {
    valid = valid;
    uid_kept = refl;
    tenant_kept = refl;
    name_kept = refl;
    connector_kept = refl;
    created_kept = refl;
    version_next = refl;
    generation_next = inr (refl, refl);
  }

  in_state-Succeeds :
      (c : Connection) (target : State) (now : Time)
      → validate_connection is_uuid (in_state c target now) ≡ ok tt
      → Succeeds is_uuid c (in_state c target now)
  in_state-Succeeds c target now valid = record {
    valid = valid;
    uid_kept = refl;
    tenant_kept = refl;
    name_kept = refl;
    connector_kept = refl;
    created_kept = refl;
    version_next = refl;
    generation_next = inl refl;
  }

  -- An edit returns the connection as it is, or a valid next version of it with its identity and
  -- either its generation or the next one.
  pub edit-Succeeds :
      (c : Connection) (e : Edit) (next : Connection)
      → edit is_uuid c e ≡ ok next
      → (next ≡ c) ⊎ Succeeds is_uuid c next
  unfolding edit
  edit-Succeeds c (replace_edit d a s r q now) next h =
      elim (replace-Becomes c d a s r q now next h) [
        | inl (inl same) ↦ inl same
        | inl (inr (valid, is_next)) ↦
            inr (subst (Succeeds is_uuid c) (sym is_next) (renamed-Succeeds c d a now valid))
        | inr (inl same) ↦ inl same
        | inr (inr (valid, is_next)) ↦ inr (
            subst (Succeeds is_uuid c) (sym is_next)
              (regenerated-Succeeds c d a s c.current.locator r q now valid))
      ]
  edit-Succeeds c (rotate_edit l r q now) next h = elim (rotate-Becomes c l r q now next h) [
    | inl same ↦ inl same
    | inr (valid, is_next) ↦ inr (
        subst (Succeeds is_uuid c) (sym is_next)
          (regenerated-Succeeds c c.display_name c.description c.current.settings l r q now valid))
  ]
  edit-Succeeds c (state_edit target k now) next h =
      elim (set_state-Becomes c target k now next h) [
        | inl same ↦ inl same
        | inr (valid, is_next) ↦
            inr (subst (Succeeds is_uuid c) (sym is_next) (in_state-Succeeds c target now valid))
      ]

  pub valid-version :
      (c : Connection) → validate_connection is_uuid c ≡ ok tt → is_positive c.version ≡ true
  unfolding validate_connection
  valid-version c h = ground arith

  pub Succeeds-follows :
      (c next : Connection) → (next ≡ c) ⊎ Succeeds is_uuid c next → follows c next ≡ true
  unfolding follows
  Succeeds-follows c next (inl same) = ground (
    arith,
    text_eq_refl c.uid,
    text_eq_refl c.tenant_id,
    text_eq_refl c.connection_name,
    text_eq_refl c.connector,
    int_eq_iff c.version c.version,
    int_eq_iff c.current.number c.current.number,
  )
  Succeeds-follows c next (inr s) = ground (
    arith,
    s.uid_kept,
    s.tenant_kept,
    s.name_kept,
    s.connector_kept,
    s.version_next,
    s.generation_next,
    text_eq_refl c.uid,
    text_eq_refl c.tenant_id,
    text_eq_refl c.connection_name,
    text_eq_refl c.connector,
    int_eq_iff next.version (inc64 c.version),
    int_eq_iff next.current.number c.current.number,
    int_eq_iff next.current.number (inc64 c.current.number),
  )
