-- ===== src/Connection/Apply.antt =====
-- `Apply` of control-plane/connection/memory/repository.go: what a mutation returns and the
-- repository after it.
use astra_sync.Prelude.{
  ℤ, ◌+◌, ◌%◌, ◌^◌, Text, text_eq, codes, Bool, not, ◌&&◌, ◌||◌, Option, none, some, is_set, [],
  ◌∷◌, ◌++◌, is_positive, is_zero, int_eq, inc64, if◌then◌else◌, Result, ok, err, check, ◌>>◌,
  ◌>>=◌, text_key, int_key, at, set_at, delete_at,
}
use astra_sync.Connection.Error.{
  Error, not_found, already_exists, conflict, in_use, idempotency_reused, test_limit_exceeded,
  create_identity_invalid, candidate_required, test_required, test_mismatch, unsupported_mutation,
  nil_map_write,
}
use astra_sync.Connection.Model.{Connection, is_disabled, validate_connection}
use astra_sync.Connection.Policy.{Outside}
use astra_sync.Connection.Operation.{validate_test, is_err}
use astra_sync.Connection.Mutation.{
  Mutation, MutationKind, create_kind, update_kind, rotate_kind, enable_kind, disable_kind,
  delete_kind, test_kind, unsupported_kind, MutationResult, Outcome, changed, no_change, replayed,
  ReferenceCounts, validate_identity,
}
use astra_sync.Connection.Limits.{has_test_of, limit_exceeded}
use astra_sync.Connection.Store.{Repository, Recorded, resource_key, references_of}

-- `r.connections[key]` at the expected version.
unfoldable pub current_at : Repository → Text → ℤ → Result Error Connection
current_at r key expected = elim (at key r.connections) [
  | none ↦ err not_found
  | some c ↦
      if not (is_positive expected) || not (int_eq c.version expected) then err conflict else ok c
]

-- The candidate is the same connection, at the same or the next version and generation.
unfoldable pub follows : Connection → Connection → Bool
follows current candidate =
    text_eq candidate.uid current.uid
    && (text_eq candidate.tenant_id current.tenant_id
        && (text_eq candidate.connection_name current.connection_name
            && (text_eq candidate.connector current.connector
                && ((int_eq candidate.version current.version
                      || int_eq candidate.version (inc64 current.version))
                    && (int_eq candidate.current.number current.current.number
                        || int_eq candidate.current.number (inc64 current.current.number))))))

unfoldable pub zero_references : ReferenceCounts → Bool
zero_references n =
    is_zero n.job_count
    && (is_zero n.execution_count && (is_zero n.test_count && is_zero n.cleanup_count))

-- A result with one of its parts.
abbrev of_connection : Connection → Outcome → MutationResult
of_connection c outcome = record {
  stored_connection = some c;
  stored_test = none;
  tombstone = none;
  outcome = outcome;
}

abbrev pub mutation_key : Mutation → Text
mutation_key m = resource_key m.mutation_tenant m.mutation_name

abbrev pub edit_result : Connection → Connection → MutationResult
edit_result current candidate =
    of_connection candidate
      (if int_eq candidate.version current.version then no_change else changed)

-- The `UPDATE`, `ROTATE`, `ENABLE` and `DISABLE` branch from the store of the candidate on. The map of
-- generations of a UID may be nil, where the write panics and the candidate stays stored.
unfoldable pub store_edit :
    Repository → Text → Connection → Connection → Result Error MutationResult × Repository
store_edit r key current candidate =
    let stored = record r { connections = set_at key candidate r.connections } in
    let result = edit_result current candidate in
    if int_eq candidate.current.number current.current.number
    then (ok result, stored)
    else elim (at current.uid r.generations) [
      | none ↦ (err nil_map_write, stored)
      | some known ↦ (
        ok result,
        record stored {
          generations =
              set_at current.uid (set_at candidate.current.number candidate.current known)
                r.generations;
        },
      )
    ]

-- An error of the checks leaves the repository as it is.
abbrev pub keep :
    Repository
    → Result Error (MutationResult × Repository)
    → Result Error MutationResult × Repository
keep r (ok (result, s)) = (ok result, s)
keep r (err e) = (err e, r)

abbrev pub required {ℓ} : {A : Type ℓ} → Error → Option A → Result Error A
required e none = err e
required e (some a) = ok a

abbrev pub is_in_use : Repository → Connection → Bool
is_in_use r c =
    not (is_disabled c.state)
    || (not (zero_references (references_of r c.uid)) || has_test_of c.uid r.tests)

abbrev pub is_foreign : Mutation → Connection → Bool
is_foreign m c =
    not (text_eq c.tenant_id m.mutation_tenant) || not (text_eq c.connection_name m.mutation_name)

unfoldable pub delete_locked : Repository → Mutation → Result Error (MutationResult × Repository)
delete_locked r m = do
  current ← current_at r (mutation_key m) m.expected_version
  check (is_in_use r current) in_use
  ok (
    record {
      stored_connection = none;
      stored_test = none;
      tombstone = some (record {
        buried_tenant = current.tenant_id;
        buried_name = current.connection_name;
        buried_uid = current.uid;
        deleted_at = m.identity.occurred_at;
      });
      outcome = changed;
    },
    record r {
      connections = delete_at (mutation_key m) r.connections;
      uid_index = delete_at current.uid r.uid_index;
      references = delete_at current.uid r.references;
      generations = delete_at current.uid r.generations;
    },
  )

unfoldable pub idempotency_key : Mutation → Text
idempotency_key m =
    m.mutation_tenant
    ++ 0 ∷ (m.identity.actor_id ++ 0 ∷ (m.identity.method ++ 0 ∷ m.identity.key_fingerprint))

abbrev kind_text : MutationKind → Text
kind_text create_kind = codes "CREATE"
kind_text update_kind = codes "UPDATE"
kind_text rotate_kind = codes "ROTATE"
kind_text enable_kind = codes "ENABLE"
kind_text disable_kind = codes "DISABLE"
kind_text delete_kind = codes "DELETE"
kind_text test_kind = codes "TEST"
kind_text (unsupported_kind k) = k

-- What follows `applyLocked`: an error is returned, a result is counted, audited and remembered.
unfoldable pub remember :
    Mutation → Result Error MutationResult × Repository → Result Error MutationResult × Repository
remember m (err e, r) = (err e, r)
remember m (ok result, r) = (
  ok result,
  record r {
    list_revision = (r.list_revision + 1) % 2 ^ 64;
    audits =
        r.audits
        ++ record {
          event_tenant = m.mutation_tenant;
          action = kind_text m.kind;
          event_actor = m.identity.actor_id;
          event_request = m.identity.request_id;
          event_outcome = result.outcome;
          event_attributes = m.audit_attributes;
        }
          ∷ [];
    idempotency =
        set_at (idempotency_key m) (record { digest = m.identity.request_digest; result = result })
          r.idempotency;
  },
)

unfoldable pub replay : Recorded → Mutation → Result Error MutationResult
replay existing m =
    if not (text_eq existing.digest m.identity.request_digest)
    then err idempotency_reused
    else ok (record existing.result { outcome = replayed })

module _ (o : Outside) where
  unfoldable pub create_locked : Repository → Mutation → Result Error (MutationResult × Repository)
  create_locked r m = do
    check (is_set (at (mutation_key m) r.connections)) already_exists
    c ← required create_identity_invalid m.candidate
    check (is_foreign m c) create_identity_invalid
    validate_connection o.is_uuid c
    ok (
      of_connection c changed,
      record r {
        connections = set_at (mutation_key m) c r.connections;
        uid_index = set_at c.uid (mutation_key m) r.uid_index;
        generations = set_at c.uid ((c.current.number, c.current) ∷ []) r.generations;
      },
    )

  -- The stored connection and the candidate that may take its place.
  unfoldable pub checked_edit : Repository → Mutation → Result Error (Connection × Connection)
  checked_edit r m = do
    current ← current_at r (mutation_key m) m.expected_version
    c ← required candidate_required m.candidate
    check (not (follows current c)) conflict
    validate_connection o.is_uuid c
    ok (current, c)

  unfoldable pub edit_locked : Repository → Mutation → Result Error MutationResult × Repository
  edit_locked r m = elim (checked_edit r m) [
    | err e ↦ (err e, r)
    | ok (current, c) ↦ store_edit r (mutation_key m) current c
  ]

  unfoldable pub test_locked : Repository → Mutation → Result Error (MutationResult × Repository)
  test_locked r m = do
    current ← current_at r (mutation_key m) m.expected_version
    t ← required test_required m.test
    check
        (is_err (validate_test o t)
          || (not (text_eq t.tested_uid current.uid)
              || (not (int_eq t.tested_generation current.current.number)
                  || not (text_eq t.test_actor m.identity.actor_id))))
        test_mismatch
    check (limit_exceeded r t) test_limit_exceeded
    ok (
      record {
        stored_connection = none;
        stored_test = some t;
        tombstone = none;
        outcome = changed;
      },
      record r { tests = set_at t.operation_id t r.tests },
    )

  -- The `switch` over the kind.
  unfoldable pub apply_locked :
      MutationKind → Repository → Mutation → Result Error MutationResult × Repository
  apply_locked create_kind r m = keep r (create_locked r m)
  apply_locked update_kind r m = edit_locked r m
  apply_locked rotate_kind r m = edit_locked r m
  apply_locked enable_kind r m = edit_locked r m
  apply_locked disable_kind r m = edit_locked r m
  apply_locked delete_kind r m = keep r (delete_locked r m)
  apply_locked test_kind r m = keep r (test_locked r m)
  apply_locked (unsupported_kind k) r m = (err (unsupported_mutation k), r)

  unfoldable pub apply : Repository → Mutation → Result Error MutationResult × Repository
  apply r m = elim (validate_identity m.identity) [
    | err e ↦ (err e, r)
    | ok u ↦ elim (at (idempotency_key m) r.idempotency) [
      | some existing ↦ (replay existing m, r)
      | none ↦ remember m (apply_locked m.kind r m)
    ]
  ]
