-- ===== src/Job/Laws/History.antt =====
-- Histories of the in-memory repository, seen from one key.
use astra_sync.Prelude.{
  ℤ, pos, negsuc, Text, Bool, false, some, int_lt, ok, ◌≡◌, ◌≢◌, inl, inr, arith, refl, ◌∙◌,
  Bool-cases, >>-passes,
}
use astra_sync.Job.Spec.{Key, validate_key}
use astra_sync.Job.Model.{Job, validate_job}
use astra_sync.Job.Memory.{Repository, key_eq, find, create, update, delete, delete_stored}
use astra_sync.Job.Laws.Store.{key_eq_iff, find-put, find-remove, update-accepts}

-- `b` is a later record of the job that `a` is: the same identity, and an epoch that is not lower.
pub record Succeeds (a b : Job) : Type 0 where
  pub same_uid : b.uid ≡ a.uid
  pub same_creation : b.created_at ≡ a.created_at
  pub epoch_kept : int_lt b.epoch a.epoch ≡ false

epoch_trans : (a b c : ℤ) → int_lt b a ≡ false → int_lt c b ≡ false → int_lt c a ≡ false
epoch_trans (pos a) (pos b) (pos c) p q = ground arith
epoch_trans a b c p q = ground arith

epoch_refl : (a : ℤ) → int_lt a a ≡ false
epoch_refl (pos a) = ground arith
epoch_refl (negsuc a) = ground arith

Succeeds-refl : (a : Job) → Succeeds a a
Succeeds-refl a = record { same_uid = refl; same_creation = refl; epoch_kept = epoch_refl a.epoch }

Succeeds-trans : {a b c : Job} → Succeeds a b → Succeeds b c → Succeeds a c
Succeeds-trans {a} {b} {c} p q = record {
  same_uid = q.same_uid ∙ p.same_uid;
  same_creation = q.same_creation ∙ p.same_creation;
  epoch_kept = epoch_trans a.epoch b.epoch c.epoch p.epoch_kept q.epoch_kept;
}

module _ (is_uuid : Text → Bool) (k : Key) where
  -- An accepted call that is not a deletion of `k`.
  pub data Edit (r s : Repository) : Type 0 where
    creates : (j stored : Job) → create is_uuid r j ≡ ok (s, stored) → Edit r s
    updates :
        (j : Job) (expected : ℤ) (stored : Job)
        → update is_uuid r j expected ≡ ok (s, stored)
        → Edit r s
    deletes : (i : Key) (expected : ℤ) → i ≢ k → delete r i expected ≡ ok s → Edit r s

  pub data History (r : Repository) : Repository → Type 0 where
    untouched : History r r
    edited : {s t : Repository} → History r s → Edit s t → History r t

  abbrev pub Lives : Job → Repository → Type 0
  Lives a s = (b : Job) × (find k s ≡ some b) × Succeeds a b

  creates-Lives :
      (r s : Repository) (a j stored : Job)
      → find k r ≡ some a
      → create is_uuid r j ≡ ok (s, stored)
      → Lives a s
  unfolding create
  creates-Lives r s a j stored there h =
      let (valid, rest) = >>-passes (validate_job is_uuid j) _ h in
      (a, ground (arith, key_eq_iff j.key k, find-put j.key k j r), Succeeds-refl a)

  updates-Lives :
      (r s : Repository) (a j : Job) (expected : ℤ) (stored : Job)
      → find k r ≡ some a
      → update is_uuid r j expected ≡ ok (s, stored)
      → Lives a s
  updates-Lives r s a j expected stored there h =
      let (valid, current, replaces, next, after) =
        update-accepts is_uuid r j expected s stored h in
      elim (Bool-cases (key_eq j.key k)) [
        | inl same ↦
            (stored, ground (arith, find-put j.key k stored r), ground (arith, key_eq_iff j.key k))
        | inr other ↦ (a, ground (arith, find-put j.key k stored r), Succeeds-refl a)
      ]

  deletes-Lives :
      (r s : Repository) (a : Job) (i : Key) (expected : ℤ)
      → i ≢ k
      → find k r ≡ some a
      → delete r i expected ≡ ok s
      → Lives a s
  unfolding delete delete_stored
  deletes-Lives r s a i expected ne there h =
      (a, ground (arith, key_eq_iff i k, find-remove i k r, validate_key i), Succeeds-refl a)

  Edit-Lives : {r s : Repository} {a : Job} → find k r ≡ some a → Edit r s → Lives a s
  Edit-Lives {r} {s} {a} there (creates j stored h) = creates-Lives r s a j stored there h
  Edit-Lives {r} {s} {a} there (updates j expected stored h) =
      updates-Lives r s a j expected stored there h
  Edit-Lives {r} {s} {a} there (deletes i expected ne h) = deletes-Lives r s a i expected ne there h

  -- However the repository is edited, a job that is not deleted stays under its key with its UID and
  -- creation time, and its epoch never goes back.
  pub History-Lives : {r s : Repository} {a : Job} → find k r ≡ some a → History r s → Lives a s
  History-Lives {r} {s} {a} there untouched = (a, there, Succeeds-refl a)
  History-Lives {r} {s = t} {a} there (edited {s = s} {t = t'} past now) =
      let (b, stands, first) = History-Lives there past in
      let (c, stands', second) = Edit-Lives stands now in (c, stands', Succeeds-trans first second)
