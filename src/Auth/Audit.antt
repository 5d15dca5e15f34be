-- ===== src/Auth/Audit.antt =====
-- Security audit events and the queries for them, control-plane/auth/audit.go. Of the attributes only
-- their number matters here.
use astra_sync.Prelude.{
  ℕ, ◌-◌, ℤ, pos, Text, is_blank, is_empty, is_alnum, Bool, true, false, not, ◌&&◌, ◌||◌, Option,
  none, some, List, [], ◌∷◌, length, ltb, leb, ◌==◌, is_positive, int_lt, all_of, if◌then◌else◌,
  Result, check, ◌>>◌,
}
use astra_sync.Job.Status.{Time}
use astra_sync.Connection.Settings.{contains_any, is_line_end_or_nul, not_after}
use astra_sync.Auth.Error.{
  Error, event_invalid, event_tenant_invalid, too_many_attributes, query_tenant_invalid,
  query_window_invalid, query_limit_invalid, event_types_invalid, outcomes_invalid, cursor_invalid,
}
use astra_sync.Auth.Principal.{matches_tenant_id}

-- The rest of `^[a-z][a-z0-9]*(?:[._-][a-z0-9]+)*$` behind the first letter; `inside` tells whether
-- the character before is a letter or a digit.
unfoldable pub words : Bool → Text → Bool
words inside [] = inside
words inside (c ∷ s) =
    let next = words true s in
    let separated = words false s in
    if is_alnum c
    then next
    else (if inside && ((c == 46) || ((c == 95) || (c == 45))) then separated else false)

unfoldable pub matches_event_type : Text → Bool
matches_event_type [] = false
matches_event_type (c ∷ s) = (leb 97 c && leb c 122) && words true s

abbrev is_upper : ℕ → Bool
is_upper c = leb 65 c && leb c 90

-- `^[A-Z][A-Z0-9_]{0,31}$`
unfoldable pub matches_outcome : Text → Bool
matches_outcome [] = false
matches_outcome (c ∷ s) =
    is_upper c
    && (all_of (λ d. is_upper d || ((leb 48 d && leb d 57) || (d == 95))) s && leb (length s) 31)

pub record SecurityAuditEvent : Type 0 where
  pub event_id : Text
  pub event_type : Text
  pub actor_id : Text
  pub event_tenant : Text
  pub request_id : Text
  pub outcome : Text
  pub attribute_count : ℕ
  pub occurred_at : Time

abbrev out_of_bounds : ℕ → Text → Bool
out_of_bounds most s = is_blank s || ltb most (length s)

unfoldable pub validate_event : SecurityAuditEvent → Result Error (Unit {0})
validate_event e = do
  check
      (out_of_bounds 128 e.event_id
        || (out_of_bounds 128 e.event_type
            || (out_of_bounds 256 e.actor_id
                || (out_of_bounds 128 e.request_id
                    || (out_of_bounds 32 e.outcome || (e.occurred_at == 0))))))
      event_invalid
  check (not (is_empty e.event_tenant) && not (matches_tenant_id e.event_tenant))
      event_tenant_invalid
  check (ltb 32 e.attribute_count) too_many_attributes

pub record Cursor : Type 0 where
  pub cursor_time : Time
  pub cursor_event : Text

pub record AuditQuery : Type 0 where
  pub query_tenant : Text
  pub occurred_after : Time
  pub occurred_before : Time
  pub event_types : List Text
  pub outcomes : List Text
  pub cursor : Option Cursor
  pub query_limit : ℤ

-- 90 days in nanoseconds.
abbrev pub maximum_query_window : ℕ
maximum_query_window = 7776000000000000

unfoldable pub filter_values : (Text → Bool) → ℕ → Text → List Text → Bool
filter_values pattern most previous [] = true
filter_values pattern most previous (v ∷ vs) =
    let rest = filter_values pattern most v vs in
    if ltb most (length v) || (not (pattern v) || not_after previous v) then false else rest

unfoldable pub validate_filter : (Text → Bool) → ℕ → List Text → Bool
validate_filter pattern most vs = not (ltb 20 (length vs)) && filter_values pattern most [] vs

unfoldable pub cursor_bad : AuditQuery → Option Cursor → Bool
cursor_bad q none = false
cursor_bad q (some c) =
    (c.cursor_time == 0)
    || (ltb c.cursor_time q.occurred_after
        || (ltb q.occurred_before c.cursor_time
            || (out_of_bounds 128 c.cursor_event
                || contains_any is_line_end_or_nul c.cursor_event)))

unfoldable pub validate_query : AuditQuery → Result Error (Unit {0})
validate_query q = do
  check (not (matches_tenant_id q.query_tenant)) query_tenant_invalid
  check
      ((q.occurred_after == 0)
        || ((q.occurred_before == 0)
            || (not (ltb q.occurred_after q.occurred_before)
                || ltb maximum_query_window (q.occurred_before - q.occurred_after))))
      query_window_invalid
  check (not (is_positive q.query_limit) || int_lt (pos 101) q.query_limit) query_limit_invalid
  check (not (validate_filter matches_event_type 128 q.event_types)) event_types_invalid
  check (not (validate_filter matches_outcome 32 q.outcomes)) outcomes_invalid
  check (cursor_bad q q.cursor) cursor_invalid
