-- ===== src/Connection/Laws/Commits.antt =====
-- The way of an edited connection through `Apply`.
use astra_sync.Prelude.{
  Text, Bool, true, false, none, some, ◌≡◌, inl, inr, refl, ap, ◌∙◌, arith, Result, ok, err,
  Result-cases, text_key, at, set_at, at-set_at, same, same_iff, int_eq_iff, is_positive,
}
use astra_sync.Connection.Error.{Error}
use astra_sync.Connection.Model.{Connection, validate_connection}
use astra_sync.Connection.Policy.{Outside}
use astra_sync.Connection.Mutation.{
  Mutation, MutationResult, MutationKind, update_kind, rotate_kind, enable_kind, disable_kind,
  validate_identity,
}
use astra_sync.Connection.Store.{Repository, get}
use astra_sync.Connection.Apply.{
  apply, apply_locked, remember, edit_locked, checked_edit, store_edit, edit_result, current_at,
  follows, mutation_key, idempotency_key,
}
use astra_sync.Connection.Laws.Accepted.{checked_edit-ok}
use astra_sync.Connection.Laws.Admission.{apply-fresh}
use astra_sync.Connection.Laws.Stored.{Sound, store_edit-stores}
use astra_sync.Connection.Laws.Edits.{Edit, edit, edit-Succeeds, valid-version, Succeeds-follows}

-- The kinds of mutation that replace a stored connection.
abbrev pub replaces : MutationKind → Bool
replaces update_kind = true
replaces rotate_kind = true
replaces enable_kind = true
replaces disable_kind = true
replaces _ = false

remember-answer :
    (m : Mutation) (result : MutationResult) (s : Repository)
    → let (_, u) = remember m (ok result, s) in remember m (ok result, s) ≡ (ok result, u)
unfolding remember
remember-answer m result s = refl

module _ (o : Outside) where
  checks_out :
      (r : Repository) (m : Mutation) (c next : Connection)
      → at (mutation_key m) r.connections ≡ some c
      → m.expected_version ≡ c.version
      → is_positive c.version ≡ true
      → m.candidate ≡ some next
      → follows c next ≡ true
      → validate_connection o.is_uuid next ≡ ok tt
      → checked_edit o r m ≡ ok (c, next)
  unfolding checked_edit current_at
  checks_out r m c next found version positive given kept valid = ground (
    arith,
    Result-cases (validate_connection o.is_uuid next),
    int_eq_iff c.version m.expected_version,
  )

  apply_locked-edits :
      (k : MutationKind) (r : Repository) (m : Mutation)
      → replaces k ≡ true
      → apply_locked o k r m ≡ edit_locked o r m
  unfolding apply_locked
  apply_locked-edits k r m h = ground arith

  edit_locked-checked :
      (r : Repository) (m : Mutation) (c next : Connection)
      → checked_edit o r m ≡ ok (c, next)
      → edit_locked o r m ≡ store_edit r (mutation_key m) c next
  unfolding edit_locked
  edit_locked-checked r m c next h = rw (h, edit_locked) refl

  get-remember :
      (m : Mutation) (result : Result Error MutationResult) (s : Repository) (tenant name : Text)
      → let (_, u) = remember m (result, s) in get u tenant name ≡ get s tenant name
  unfolding remember get
  get-remember m (ok result) s tenant name = refl
  get-remember m (err e) s tenant name = refl

  get-stored :
      (r s : Repository) (m : Mutation) (next : Connection)
      → s.connections ≡ set_at (mutation_key m) next r.connections
      → get s m.mutation_tenant m.mutation_name ≡ ok next
  unfolding get
  get-stored r s m next h = ground (
    arith,
    at-set_at (mutation_key m) (mutation_key m) next r.connections,
    same_iff (mutation_key m) (mutation_key m),
  )

  get-found :
      (r : Repository) (m : Mutation) (c : Connection)
      → get r m.mutation_tenant m.mutation_name ≡ ok c
      → at (mutation_key m) r.connections ≡ some c
  unfolding get
  get-found r m c h = ground arith

  -- The checks of the edit of a connection that is stored.
  edit-checks :
      (r : Repository) (m : Mutation) (c next : Connection) (e : Edit)
      → validate_connection o.is_uuid c ≡ ok tt
      → at (mutation_key m) r.connections ≡ some c
      → edit o.is_uuid c e ≡ ok next
      → m.expected_version ≡ c.version
      → m.candidate ≡ some next
      → checked_edit o r m ≡ ok (c, next)
  edit-checks r m c next e valid here edited version given =
      let kept = edit-Succeeds o.is_uuid c e next edited in
      checks_out r m c next here version (valid-version o.is_uuid c valid) given
        (Succeeds-follows o.is_uuid c next kept)
        (elim kept [
          | inl same ↦ ap (validate_connection o.is_uuid) same ∙ valid
          | inr succeeds ↦ succeeds.valid
        ])

  -- A client that gets a connection, edits it and applies the result at the version that it got finds
  -- the result stored: the mutation neither conflicts nor is refused, if the repository is sound, the
  -- identity of the mutation is valid and its key has not been used.
  pub apply-commits :
      (r : Repository) (m : Mutation) (c next : Connection) (e : Edit)
      → Sound o r
      → get r m.mutation_tenant m.mutation_name ≡ ok c
      → edit o.is_uuid c e ≡ ok next
      → replaces m.kind ≡ true
      → m.expected_version ≡ c.version
      → m.candidate ≡ some next
      → validate_identity m.identity ≡ ok tt
      → at (idempotency_key m) r.idempotency ≡ none
      → (s : Repository) × (apply o r m ≡ (ok (edit_result c next), s))
        × (get s m.mutation_tenant m.mutation_name ≡ ok next)
  apply-commits r m c next e sound found edited kind version given valid fresh =
      let here = get-found r m c found in
      let checked =
        edit-checks r m c next e (sound (mutation_key m) c here).valid here edited version given in
      let (s, written, _, connections) =
        store_edit-stores o r m c next (checked_edit-ok o r m c next checked) sound in
      let result = edit_result c next in
      let (_, u) = remember m (ok result, s) in
      (
        u,
        apply-fresh o r m valid fresh
            ∙ ap (remember m) (
                apply_locked-edits m.kind r m kind
                ∙ edit_locked-checked r m c next checked
                ∙ written)
            ∙ remember-answer m result s,
        get-remember m (ok result) s m.mutation_tenant m.mutation_name
            ∙ get-stored r s m next connections,
      )
