-- ===== src/Connection/Store.antt =====
-- The state of control-plane/connection/memory/repository.go and the methods that only read it. The
-- lock makes each method one step.
use astra_sync.Prelude.{
  ℕ, ℤ, pos, negsuc, Text, text_eq, text_lt, codes, is_empty, Bool, false, not, ◌&&◌, ◌||◌, Option,
  none, some, List, [], ◌∷◌, ◌++◌, length, take, ltb, is_positive, int_lt, inc32, if◌then◌else◌,
  Result, ok, err, check, ◌>>◌, Map, text_key, at, set_at, sort_by,
}
use astra_sync.Job.Status.{Time}
use astra_sync.Wal.Keys.{put_digits, digit_width}
use astra_sync.Connection.Error.{Error, not_found, test_not_found, list_limit_invalid}
use astra_sync.Connection.Settings.{Generation}
use astra_sync.Connection.Model.{Connection, State, other_state, state_eq}
use astra_sync.Connection.Policy.{Outside}
use astra_sync.Connection.Operation.{TestOperation, is_active_state}
use astra_sync.Connection.Mutation.{Attribute, MutationResult, Outcome, ReferenceCounts}

pub record Recorded : Type 0 where
  pub digest : Text
  pub result : MutationResult

pub record AuditEvent : Type 0 where
  pub event_tenant : Text
  pub action : Text
  pub event_actor : Text
  pub event_request : Text
  pub event_outcome : Outcome
  pub event_attributes : Map Text Attribute

pub record Claim : Type 0 where
  pub executor_id : Text
  pub attempt : ℤ
  pub lease_expires_at : Time

pub record Repository : Type 0 where
  pub connections : Map Text Connection
  pub uid_index : Map Text Text
  pub tests : Map Text TestOperation
  pub generations : Map Text (Map ℤ Generation)
  pub claims : Map Text Claim
  pub idempotency : Map Text Recorded
  pub references : Map Text ReferenceCounts
  pub audits : List AuditEvent
  pub list_revision : ℕ

abbrev pub new_repository : Repository
new_repository = record {
  connections = [];
  uid_index = [];
  tests = [];
  generations = [];
  claims = [];
  idempotency = [];
  references = [];
  audits = [];
  list_revision = 0;
}

-- The parts joined by NUL bytes.
unfoldable pub resource_key : Text → Text → Text
resource_key tenant name = tenant ++ 0 ∷ name

abbrev or_not_found : Option Connection → Result Error Connection
or_not_found none = err not_found
or_not_found (some c) = ok c

unfoldable pub get : Repository → Text → Text → Result Error Connection
get r tenant name = or_not_found (at (resource_key tenant name) r.connections)

-- The entry that an index points to; a missing entry of the index is the key "".
unfoldable pub indexed : Repository → Text → Option Connection
indexed r uid = elim (at uid r.uid_index) [ none ↦ none | some key ↦ at key r.connections ]

unfoldable pub get_by_uid : Repository → Text → Text → Result Error Connection
get_by_uid r tenant uid = elim (indexed r uid) [
  | none ↦ err not_found
  | some c ↦ if not (text_eq c.tenant_id tenant) then err not_found else ok c
]

pub record ListFilter : Type 0 where
  pub by_connector : Text
  pub by_state : State
  pub after_name : Text
  pub after_uid : Text
  pub limit : ℤ

abbrev any_state : State → Bool
any_state (other_state s) = is_empty s
any_state _ = false

unfoldable pub matches_filter : Text → ListFilter → Connection → Bool
matches_filter tenant f c =
    not (
      not (text_eq c.tenant_id tenant)
      || ((not (is_empty f.by_connector) && not (text_eq c.connector f.by_connector))
          || (not (any_state f.by_state) && not (state_eq c.state f.by_state))))
    && not (
        text_lt c.connection_name f.after_name
        || (text_eq c.connection_name f.after_name && not (text_lt f.after_uid c.uid)))

unfoldable pub by_name : Connection → Connection → Bool
by_name a b =
    if text_eq a.connection_name b.connection_name
    then text_lt a.uid b.uid
    else text_lt a.connection_name b.connection_name

unfoldable pub matching : (Connection → Bool) → Map Text Connection → List Connection
matching p [] = []
matching p ((k, c) ∷ m) = if p c then c ∷ matching p m else matching p m

pub record ListResult : Type 0 where
  pub listed : List Connection
  pub result_revision : Text
  pub has_more : Bool

abbrev pub magnitude : ℤ → ℕ
magnitude (pos n) = n
magnitude (negsuc n) = 0

-- A `uint64` has at most 20 digits.
unfoldable pub revision_string : Outside → ℕ → Text
unfolding put_digits digit_width
revision_string o n =
    codes "sha256:" ++ o.sha256_hex (codes "connection-list:" ++ put_digits (digit_width 19 1 n) n)

unfoldable pub list_connections : Outside → Repository → Text → ListFilter → Result Error ListResult
list_connections o r tenant f =
    let values = sort_by by_name (matching (matches_filter tenant f) r.connections) in
    check (not (is_positive f.limit) || int_lt (pos 101) f.limit) list_limit_invalid
    >> ok (record {
      listed = take (magnitude f.limit) values;
      result_revision = revision_string o r.list_revision;
      has_more = ltb (magnitude f.limit) (length values);
    })

abbrev pub is_test_of : Text → TestOperation → Bool
is_test_of uid t = text_eq t.tested_uid uid && is_active_state t.test_state

-- One more for each active test.
unfoldable pub add_tests : Text → Map Text TestOperation → ℤ → ℤ
add_tests uid [] n = n
add_tests uid ((k, t) ∷ m) n = add_tests uid m (if is_test_of uid t then inc32 n else n)

-- The zero value of a struct.
abbrev pub no_references : ReferenceCounts
no_references = record {
  job_count = pos 0;
  execution_count = pos 0;
  test_count = pos 0;
  cleanup_count = pos 0;
}

abbrev pub or_else {ℓ} : {A : Type ℓ} → Option A → A → A
or_else none d = d
or_else (some a) d = a

unfoldable pub references_of : Repository → Text → ReferenceCounts
references_of r uid = or_else (at uid r.references) no_references

unfoldable pub reference_counts : Repository → Text → Result Error ReferenceCounts
reference_counts r uid =
    let counts = references_of r uid in
    elim (at uid r.uid_index) [
      | none ↦ err not_found
      | some key ↦ ok (record counts { test_count = add_tests uid r.tests counts.test_count })
    ]

unfoldable pub set_reference_counts : Repository → Text → ReferenceCounts → Repository
set_reference_counts r uid counts = record r { references = set_at uid counts r.references }

unfoldable pub get_test : Repository → Text → Text → Result Error TestOperation
get_test r tenant id = elim (at id r.tests) [
  | none ↦ err test_not_found
  | some t ↦ if not (text_eq t.test_tenant tenant) then err test_not_found else ok t
]

-- The loop of `LatestTest`.
unfoldable pub latest_of :
    Text → Map Text TestOperation → Option TestOperation → Option TestOperation
latest_of uid [] latest = latest
latest_of uid ((k, t) ∷ m) none =
    latest_of uid m (if text_eq t.tested_uid uid then some t else none)
latest_of uid ((k, t) ∷ m) (some l) =
    latest_of uid m
      (if text_eq t.tested_uid uid && ltb l.requested_at t.requested_at then some t else some l)

unfoldable pub latest_test : Repository → Text → Result Error TestOperation
latest_test r uid = elim (latest_of uid r.tests none) [ none ↦ err test_not_found | some t ↦ ok t ]
