-- ===== src/Job/Laws/Store.antt =====
-- The in-memory repository: what each method leaves behind, and optimistic locking.
use astra_sync.Prelude.{
  zero, suc, ℤ, pos, negsuc, Text, text_eq_iff, Bool, true, false, Option, none, some, int_eq,
  int_eq_iff, int_lt, inc64, if◌then◌else◌, [], ◌∷◌, ok, err, ◌≡◌, ◌↔◌, arith, refl, >>-passes,
}
use astra_sync.Job.Error.{conflict}
use astra_sync.Job.Spec.{Key}
use astra_sync.Job.Model.{Job, validate_job}
use astra_sync.Job.Lifecycle.{validate_epoch_monotonicity}
use astra_sync.Job.Memory.{Repository, key_eq, find, put, remove, update, update_stored}

pub key_eq_iff : (a b : Key) → (key_eq a b ≡ true) ↔ (a ≡ b)
unfolding key_eq
key_eq_iff a b =
    ground (arith, text_eq_iff a.key_namespace b.key_namespace, text_eq_iff a.key_name b.key_name)

pub find-put :
    (k i : Key) (j : Job) (r : Repository)
    → find i (put k j r) ≡ (if key_eq k i then some j else find i r)
unfolding find put
find-put k i j [] = refl
find-put k i j ((h, x) ∷ r) =
    ground (arith, key_eq_iff k i, key_eq_iff h k, key_eq_iff h i, find-put k i j r)

pub find-remove :
    (k i : Key) (r : Repository) → find i (remove k r) ≡ (if key_eq k i then none else find i r)
unfolding find remove
find-remove k i [] = ground arith
find-remove k i ((h, x) ∷ r) =
    ground (arith, key_eq_iff k i, key_eq_iff h k, key_eq_iff h i, find-remove k i r)

inc64_moves : (v : ℤ) → int_eq (inc64 v) v ≡ false
inc64_moves (pos n) = ground arith
inc64_moves (negsuc zero) = ground arith
inc64_moves (negsuc (suc n)) = ground arith

-- What a stored job must meet for an update to replace it.
pub record Replaces (stored : Option Job) (j : Job) (expected : ℤ) (current : Job) : Type 0 where
  pub present : stored ≡ some current
  pub version_matches : current.version ≡ expected
  pub uid_matches : current.uid ≡ j.uid
  pub created_matches : current.created_at ≡ j.created_at
  pub epoch_kept : int_lt j.epoch current.epoch ≡ false

update_stored-ok :
    (r : Repository) (j : Job) (expected : ℤ) (o : Option Job) (s : Repository) (k : Job)
    → update_stored r j expected o ≡ ok (s, k)
    → (current : Job) × Replaces o j expected current
      × (k ≡ record j { version = inc64 expected })
      × (s ≡ put j.key k r)
unfolding update_stored validate_epoch_monotonicity
update_stored-ok r j expected none s k h = absurd (cc)
update_stored-ok r j expected (some current) s k h = (
  current,
  ground (arith, int_eq_iff current.version expected, text_eq_iff current.uid j.uid),
  ground (arith, int_eq_iff current.version expected),
  ground (arith, int_eq_iff current.version expected),
)

module _ (is_uuid : Text → Bool) where
  -- What an accepted update requires and does: the candidate is valid, the stored job has the
  -- expected version, the same identity and no later epoch; the candidate is stored under the next
  -- version.
  pub update-accepts :
      (r : Repository) (j : Job) (expected : ℤ) (s : Repository) (k : Job)
      → update is_uuid r j expected ≡ ok (s, k)
      → (validate_job is_uuid j ≡ ok tt)
        × (current : Job) × Replaces (find j.key r) j expected current
        × (k ≡ record j { version = inc64 expected })
        × (s ≡ put j.key k r)
  unfolding update
  update-accepts r j expected s k h =
      let (valid, stored) =
        >>-passes (validate_job is_uuid j) (update_stored r j expected (find j.key r)) h in
      let (current, replaces, next, after) =
        update_stored-ok r j expected (find j.key r) s k stored in
      (valid, current, replaces, next, after)

  -- Optimistic locking: of two updates that expect the same version, the second one conflicts.
  pub update-update :
      (r : Repository) (j : Job) (expected : ℤ) (s : Repository) (k : Job) (other : Job)
      → update is_uuid r j expected ≡ ok (s, k)
      → validate_job is_uuid other ≡ ok tt
      → other.key ≡ j.key
      → update is_uuid s other expected ≡ err conflict
  unfolding update update_stored
  update-update r j expected s k other h valid same =
      let (_, current, replaces, next, after) = update-accepts r j expected s k h in
      ground (arith, key_eq_iff j.key other.key, find-put j.key other.key k r, inc64_moves expected)
