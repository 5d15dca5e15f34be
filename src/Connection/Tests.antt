-- ===== src/Connection/Tests.antt =====
-- Tests and instances of the theorems about the package connection.
use astra_sync.Prelude.{
  ℕ, ℤ, pos, Text, codes, text_eq, Bool, true, false, Option, none, some, List, [], ◌∷◌, Result, ok,
  err, ◌≡◌, ◌≢◌, ◌↔◌, refl, arith, at, text_key, int_key, inl, inr, all_of, is_hex, length,
}
use astra_sync.Job.Status.{Time}
use astra_sync.Connection.Error.{Error, idempotency_reused, nil_map_write}
use astra_sync.Connection.Model.{Connection, replace, validate_connection}
use astra_sync.Connection.Settings.{equal_settings}
use astra_sync.Connection.Policy.{new_policy, validate_policy, Policy}
use astra_sync.Connection.Operation.{Completion, TestOperation, validate_test}
use astra_sync.Connection.Mutation.{
  Mutation, MutationResult, create_kind, update_kind, delete_kind, replayed, validate_identity,
}
use astra_sync.Connection.Store.{Repository, new_repository, get, get_by_uid, resource_key}
use astra_sync.Connection.Apply.{apply, idempotency_key, edit_result}
use astra_sync.Connection.Claims.{complete_test, complete_with, start_test}
use astra_sync.Connection.Calls.{Call, apply_call, claim_call, complete_call, perform, perform_all}
use astra_sync.Connection.Samples.{
  sample_outside, sample_tenant, sample_operation, sample_connection, create_orders, renamed_orders,
  rename_orders, sample_test, test_orders, sample_completion, created_result, sample_revision,
  sample_generation, sample_mutation,
}
use astra_sync.Connection.Laws.Counts.{count}
use astra_sync.Connection.Laws.Quotas.{Quotas, tenant_scope, actor_scope, connection_scope}
use astra_sync.Connection.Laws.Bounds.{perform_all-Quotas}
use astra_sync.Connection.Laws.Replays.{perform_all-replays}
use astra_sync.Connection.Laws.Stored.{Sound}
use astra_sync.Connection.Laws.Consistency.{
  FreshUid, Settles, apply-Settles, perform-Sound, perform_all-finds,
}
use astra_sync.Connection.Laws.Edits.{edit, replace_edit}
use astra_sync.Connection.Laws.Commits.{apply-commits}
use astra_sync.Connection.Laws.Completions.{Finishes, complete_test-Finishes}
use astra_sync.Connection.Laws.Policies.{Documented, new_policy-validates}

-- A connection is created, its test is asked for, claimed for a second and completed.
abbrev test_calls : List Call
test_calls =
    apply_call create_orders
    ∷ apply_call test_orders
    ∷ claim_call (codes "executor") (pos 5) (pos 1000) 3500
    ∷ []

no_tests-Quotas : Quotas new_repository.tests
unfolding count
no_tests-Quotas = record {
  distinct = tt;
  within = λ s. elim s [
    | tenant_scope t ↦ omega arith
    | actor_scope t a ↦ omega arith
    | connection_scope t u ↦ omega arith
  ];
}

perform_all-Quotas_example : Quotas (perform_all sample_outside new_repository test_calls).tests
perform_all-Quotas_example =
    perform_all-Quotas sample_outside new_repository test_calls no_tests-Quotas

abbrev created : Repository
created = perform sample_outside new_repository (apply_call create_orders)

create_orders-created :
    apply sample_outside new_repository create_orders ≡ (ok created_result, created)
unfolding perform apply validate_identity astra_sync.Prelude.is_blank
    astra_sync.Job.Mutation.matches_revision text_eq all_of at astra_sync.Connection.Apply.remember
    astra_sync.Connection.Apply.apply_locked astra_sync.Connection.Apply.create_locked
    validate_connection astra_sync.Job.Spec.matches_dns_label astra_sync.Prelude.is_label
    astra_sync.Job.Spec.matches_connector_name astra_sync.Connection.Settings.contains_any
    astra_sync.Connection.Settings.validate_generation astra_sync.Connection.Settings.settings_valid
    astra_sync.Connection.Settings.matches_option astra_sync.Prelude.text_lt
    astra_sync.Prelude.set_at idempotency_key resource_key astra_sync.Prelude.space_width
create_orders-created = refl

perform_all-replays_example :
    let u = perform_all sample_outside created test_calls in
    (apply sample_outside u create_orders ≡ (ok (record created_result { outcome = replayed }), u))
    × ((other : Mutation)
        → idempotency_key other ≡ idempotency_key create_orders
        → validate_identity other.identity ≡ ok tt
        → other.identity.request_digest ≢ create_orders.identity.request_digest
        → apply sample_outside u other ≡ (err idempotency_reused, u))
perform_all-replays_example =
    perform_all-replays sample_outside new_repository create_orders created_result created
      test_calls create_orders-created

new_repository-Sound : Sound sample_outside new_repository
unfolding at
new_repository-Sound key c h = absurd (cc)

no_uid : FreshUid create_kind new_repository create_orders
unfolding at
no_uid new c given = refl

apply-Settles_example :
    Settles sample_outside new_repository (apply sample_outside new_repository create_orders)
apply-Settles_example =
    apply-Settles sample_outside new_repository create_orders no_uid new_repository-Sound

orders_created :
    get
      (perform_all sample_outside new_repository (apply_call create_orders ∷ []))
      sample_tenant
      (codes "orders")
    ≡ ok sample_connection
unfolding get perform_all perform apply validate_identity astra_sync.Prelude.is_blank
    astra_sync.Job.Mutation.matches_revision text_eq all_of at astra_sync.Connection.Apply.remember
    astra_sync.Connection.Apply.apply_locked astra_sync.Connection.Apply.create_locked
    validate_connection astra_sync.Job.Spec.matches_dns_label astra_sync.Prelude.is_label
    astra_sync.Job.Spec.matches_connector_name astra_sync.Connection.Settings.contains_any
    astra_sync.Connection.Settings.validate_generation astra_sync.Connection.Settings.settings_valid
    astra_sync.Connection.Settings.matches_option astra_sync.Prelude.text_lt
    astra_sync.Prelude.set_at idempotency_key resource_key astra_sync.Prelude.space_width
orders_created = refl

perform_all-finds_example :
    (validate_connection sample_outside.is_uuid sample_connection ≡ ok tt)
    × (resource_key sample_tenant (codes "orders")
        ≡ resource_key sample_connection.tenant_id sample_connection.connection_name)
    × (get_by_uid
          (perform_all sample_outside new_repository (apply_call create_orders ∷ []))
          sample_connection.tenant_id
          sample_connection.uid
        ≡ ok sample_connection)
perform_all-finds_example =
    perform_all-finds sample_outside new_repository (apply_call create_orders ∷ []) (no_uid, tt)
      new_repository-Sound sample_tenant (codes "orders") sample_connection orders_created

created-Sound : Sound sample_outside created
created-Sound =
    perform-Sound sample_outside new_repository (apply_call create_orders) no_uid
      new_repository-Sound

created_found : get created sample_tenant (codes "orders") ≡ ok sample_connection
unfolding get perform apply validate_identity astra_sync.Prelude.is_blank
    astra_sync.Job.Mutation.matches_revision text_eq all_of at astra_sync.Connection.Apply.remember
    astra_sync.Connection.Apply.apply_locked astra_sync.Connection.Apply.create_locked
    validate_connection astra_sync.Job.Spec.matches_dns_label astra_sync.Prelude.is_label
    astra_sync.Job.Spec.matches_connector_name astra_sync.Connection.Settings.contains_any
    astra_sync.Connection.Settings.validate_generation astra_sync.Connection.Settings.settings_valid
    astra_sync.Connection.Settings.matches_option astra_sync.Prelude.text_lt
    astra_sync.Prelude.set_at idempotency_key resource_key astra_sync.Prelude.space_width
created_found = refl

renames :
    edit sample_outside.is_uuid sample_connection (
      replace_edit
        (codes "All orders")
        []
        sample_connection.current.settings
        sample_revision
        sample_revision
        2000)
    ≡ ok renamed_orders
unfolding edit replace equal_settings astra_sync.Connection.Settings.all_equal
    astra_sync.Connection.Settings.setting_eq astra_sync.Connection.Settings.sensitivity_eq text_eq
    validate_connection astra_sync.Job.Spec.matches_dns_label astra_sync.Prelude.is_label
    astra_sync.Job.Spec.matches_connector_name astra_sync.Connection.Settings.contains_any
    astra_sync.Connection.Settings.validate_generation astra_sync.Connection.Settings.settings_valid
    astra_sync.Connection.Settings.matches_option astra_sync.Prelude.text_lt
    astra_sync.Prelude.set_at idempotency_key resource_key astra_sync.Prelude.space_width all_of
    astra_sync.Job.Mutation.matches_revision
renames = refl

identity_valid : validate_identity rename_orders.identity ≡ ok tt
unfolding validate_identity astra_sync.Prelude.is_blank astra_sync.Prelude.space_width
    astra_sync.Job.Mutation.matches_revision text_eq all_of
identity_valid = refl

update_new : at (idempotency_key rename_orders) created.idempotency ≡ none
unfolding perform apply validate_identity astra_sync.Prelude.is_blank
    astra_sync.Job.Mutation.matches_revision text_eq all_of at astra_sync.Connection.Apply.remember
    astra_sync.Connection.Apply.apply_locked astra_sync.Connection.Apply.create_locked
    validate_connection astra_sync.Job.Spec.matches_dns_label astra_sync.Prelude.is_label
    astra_sync.Job.Spec.matches_connector_name astra_sync.Connection.Settings.contains_any
    astra_sync.Connection.Settings.validate_generation astra_sync.Connection.Settings.settings_valid
    astra_sync.Connection.Settings.matches_option astra_sync.Prelude.text_lt
    astra_sync.Prelude.set_at idempotency_key resource_key astra_sync.Prelude.space_width
update_new = refl

apply-commits_example :
    (s : Repository) × (apply sample_outside created rename_orders
      ≡ (ok (edit_result sample_connection renamed_orders), s))
    × (get s sample_tenant (codes "orders") ≡ ok renamed_orders)
apply-commits_example =
    apply-commits sample_outside created rename_orders sample_connection renamed_orders
      (replace_edit (codes "All orders") [] sample_connection.current.settings sample_revision
        sample_revision 2000)
      created-Sound created_found renames refl refl refl identity_valid update_new

abbrev tested : Repository
tested = perform_all sample_outside new_repository test_calls

abbrev completed_state : Repository
completed_state =
    perform sample_outside tested
      (complete_call sample_operation (codes "executor") sample_completion 4000)

abbrev running_test : TestOperation
running_test = start_test 3500 sample_test

abbrev completed_test : TestOperation
completed_test = complete_with 4000 sample_completion running_test

completes :
    complete_test sample_outside tested sample_operation (codes "executor") sample_completion 4000
    ≡ (ok completed_test, completed_state)
unfolding perform perform_all apply validate_identity astra_sync.Prelude.is_blank
    astra_sync.Job.Mutation.matches_revision text_eq all_of at astra_sync.Connection.Apply.remember
    astra_sync.Connection.Apply.apply_locked astra_sync.Connection.Apply.create_locked
    validate_connection astra_sync.Job.Spec.matches_dns_label astra_sync.Prelude.is_label
    astra_sync.Job.Spec.matches_connector_name astra_sync.Connection.Settings.contains_any
    astra_sync.Connection.Settings.validate_generation astra_sync.Connection.Settings.settings_valid
    astra_sync.Connection.Settings.matches_option astra_sync.Prelude.text_lt
    astra_sync.Prelude.set_at idempotency_key resource_key astra_sync.Prelude.space_width
    astra_sync.Connection.Apply.checked_edit astra_sync.Connection.Apply.current_at
    astra_sync.Connection.Apply.test_locked astra_sync.Connection.Limits.count_test
    astra_sync.Connection.Limits.count_tests astra_sync.Connection.Limits.limit_exceeded
    astra_sync.Connection.Claims.captured astra_sync.Connection.Claims.chosen
    astra_sync.Connection.Claims.claim_each astra_sync.Connection.Claims.claim_key
    astra_sync.Connection.Claims.claim_of astra_sync.Connection.Claims.claim_refused
    astra_sync.Connection.Claims.claim_test astra_sync.Connection.Claims.claim_tests
    astra_sync.Connection.Claims.claimable astra_sync.Connection.Claims.claimable_tests
    complete_test complete_with astra_sync.Connection.Claims.finish_test
    astra_sync.Connection.Claims.holds_lease astra_sync.Connection.Claims.older start_test
    astra_sync.Connection.Expiry.after_sweep astra_sync.Connection.Expiry.expire_locked
    astra_sync.Connection.Expiry.expire_test astra_sync.Connection.Expiry.sweep_rest
    astra_sync.Connection.Expiry.swept astra_sync.Connection.Operation.validate_completion
    astra_sync.Connection.Operation.validate_snapshot validate_test
    astra_sync.Connection.Operation.validate_test_state
    astra_sync.Connection.Operation.validate_work astra_sync.Connection.Policy.canonicalize
    astra_sync.Connection.Policy.contains astra_sync.Connection.Policy.is_canonical
    astra_sync.Connection.Policy.join new_policy astra_sync.Connection.Policy.policy_of
    validate_policy astra_sync.Connection.Settings.all_equal astra_sync.Connection.Store.indexed
    astra_sync.Prelude.delete_at astra_sync.Prelude.insert_by astra_sync.Prelude.sort_by
completes = refl

complete_test-Finishes_example :
    Finishes sample_outside tested sample_operation
      (codes "executor")
      sample_completion
      4000
      completed_test
      completed_state
    × ((other : Text) (d : Completion) (later : Time)
        → (e : Error) × (complete_test sample_outside completed_state sample_operation other d later
            ≡ (err e, completed_state)))
complete_test-Finishes_example =
    complete_test-Finishes sample_outside tested sample_operation (codes "executor")
      sample_completion 4000 completed_test completed_state completes

sample_outside-Documented : Documented sample_outside
unfolding all_of
sample_outside-Documented = record {
  masked_once = λ v p h. refl;
  digest_length = λ s. refl;
  digest_hex = λ s. refl;
}

abbrev two_prefixes : Policy
two_prefixes = record {
  revision = sample_revision;
  allowed_cidrs = codes "10.0.0.0/8" ∷ codes "192.168.0.0/16" ∷ [];
}

new_policy-validates_example : validate_policy sample_outside two_prefixes ≡ ok tt
unfolding new_policy astra_sync.Connection.Policy.canonicalize astra_sync.Connection.Policy.contains
    astra_sync.Connection.Policy.policy_of text_eq astra_sync.Prelude.text_lt
    astra_sync.Prelude.insert_by astra_sync.Prelude.sort_by astra_sync.Connection.Policy.join
new_policy-validates_example =
    new_policy-validates sample_outside sample_outside-Documented
      (codes "192.168.0.0/16" ∷ codes "10.0.0.0/8" ∷ codes "192.168.0.0/16" ∷ []) two_prefixes refl

-- Two connections of one UID: when one is deleted, an edit of the other meets a map that is gone.
abbrev other_connection : Connection
other_connection = record sample_connection { connection_name = codes "others" }

abbrev of_others : Mutation → Mutation
of_others m = record m { mutation_name = codes "others" }

abbrev next_others : Connection
next_others = record other_connection {
  version = pos 2;
  updated_at = 2000;
  current = record sample_generation { number = pos 2; generated_at = 2000 };
}

abbrev shared_uid : Repository
shared_uid = perform_all sample_outside new_repository (
    apply_call create_orders
    ∷ apply_call (
        of_others (
          sample_mutation create_kind (codes "create others") (pos 0) (some other_connection) none))
    ∷ apply_call (sample_mutation delete_kind (codes "delete") (pos 1) none none)
    ∷ [])

abbrev answer_to_edit : Result Error MutationResult
answer_to_edit =
    let (answer, _) =
      apply sample_outside shared_uid (
        of_others (sample_mutation update_kind (codes "update") (pos 1) (some next_others) none)) in
    answer

shared_uid-panics : answer_to_edit ≡ err nil_map_write
unfolding perform perform_all apply validate_identity astra_sync.Prelude.is_blank
    astra_sync.Job.Mutation.matches_revision text_eq all_of at astra_sync.Connection.Apply.remember
    astra_sync.Connection.Apply.apply_locked astra_sync.Connection.Apply.create_locked
    validate_connection astra_sync.Job.Spec.matches_dns_label astra_sync.Prelude.is_label
    astra_sync.Job.Spec.matches_connector_name astra_sync.Connection.Settings.contains_any
    astra_sync.Connection.Settings.validate_generation astra_sync.Connection.Settings.settings_valid
    astra_sync.Connection.Settings.matches_option astra_sync.Prelude.text_lt
    astra_sync.Prelude.set_at idempotency_key resource_key astra_sync.Prelude.space_width
    astra_sync.Connection.Apply.checked_edit astra_sync.Connection.Apply.current_at
    astra_sync.Connection.Apply.delete_locked astra_sync.Connection.Apply.edit_locked
    astra_sync.Connection.Apply.store_edit astra_sync.Connection.Apply.follows
    astra_sync.Connection.Apply.zero_references astra_sync.Connection.Store.references_of
    astra_sync.Connection.Limits.has_test_of astra_sync.Prelude.delete_at
shared_uid-panics = refl
