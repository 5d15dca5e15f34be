-- ===== src/Job/Memory.antt =====
-- control-plane/job/memory/repository.go and the pages of control-plane/job/repository.go. The map is
-- a list of keys with their jobs; the lock makes each method one step. A stored job is a value, so the
-- clones that keep callers from sharing it are the identity.
use Prim.Native.Nat.{min}
use astra_sync.Prelude.{
  ℕ, ℤ, pos, negsuc, ◌+◌, ◌-◌, ◌*◌, ◌%◌, ◌^◌, Text, text_eq, text_lt, codes, Bool, not, ◌&&◌, ◌||◌,
  Option, none, some, is_set, is_positive, int_eq, inc64, if◌then◌else◌, ◌==◌, leb, List, [], ◌∷◌,
  length, take, drop, Result, ok, err, check, ◌>>◌,
}
use astra_sync.Job.Error.{
  Error, already_exists, not_found, conflict, page_invalid, slice_out_of_range,
}
use astra_sync.Job.Spec.{Key, validate_key}
use astra_sync.Job.Model.{Job, validate_job}
use astra_sync.Job.Lifecycle.{validate_epoch_monotonicity}

unfoldable pub key_eq : Key → Key → Bool
key_eq a b = text_eq a.key_namespace b.key_namespace && text_eq a.key_name b.key_name

abbrev pub Repository : Type 0
Repository = List (Key × Job)

unfoldable pub find : Key → Repository → Option Job
find k [] = none
find k ((i, j) ∷ r) = if key_eq i k then some j else find k r

unfoldable pub put : Key → Job → Repository → Repository
put k j [] = (k, j) ∷ []
put k j ((i, old) ∷ r) = if key_eq i k then (k, j) ∷ r else (i, old) ∷ put k j r

unfoldable pub remove : Key → Repository → Repository
remove k [] = []
remove k ((i, j) ∷ r) = if key_eq i k then remove k r else (i, j) ∷ remove k r

unfoldable pub insert_by_name : Job → List Job → List Job
insert_by_name j [] = j ∷ []
insert_by_name j (k ∷ ks) =
    if text_lt k.key.key_name j.key.key_name then k ∷ insert_by_name j ks else j ∷ k ∷ ks

-- `sort.Slice` by name: the names of one namespace are distinct, so the order is determined.
unfoldable pub sort_by_name : List Job → List Job
sort_by_name [] = []
sort_by_name (j ∷ js) = insert_by_name j (sort_by_name js)

unfoldable pub in_namespace : Text → Repository → List Job
in_namespace n [] = []
in_namespace n ((i, j) ∷ r) =
    if text_eq i.key_namespace n then j ∷ in_namespace n r else in_namespace n r

pub record Page : Type 0 where
  pub number : ℤ
  pub size : ℤ

unfoldable pub validate_page : Page → Result Error (Unit {0})
validate_page p = check (not (is_positive p.number) || not (is_positive p.size)) page_invalid

abbrev magnitude : ℤ → ℕ
magnitude (pos n) = n
magnitude (negsuc n) = 0

-- The slice of a page whose number and size are positive. `int` has 64 bits: the product may wrap,
-- and a bound that reads as negative makes the slice expression panic.
unfoldable pub slice_page : List Job → ℕ → ℕ → Result Error (List Job × ℕ)
slice_page items number size =
    let total = length items in
    let first = ((number - 1) * size) % 2 ^ 64 in
    if leb (2 ^ 63) first
    then err slice_out_of_range
    else (if leb total first
        then ok ([], total)
        else (if leb (2 ^ 63) (first + size)
            then err slice_out_of_range
            else ok (take (min (first + size) total - first) (drop first items), total)))

-- `Update` from the lookup on; `candidate.Version = current.Version + 1`.
unfoldable pub update_stored : Repository → Job → ℤ → Option Job → Result Error (Repository × Job)
update_stored r j expected none = err not_found
update_stored r j expected (some current) =
    let next = record j { version = inc64 current.version } in
    do
      check (not (int_eq current.version expected)) conflict
      check (not (text_eq current.uid j.uid) || not (current.created_at == j.created_at)) conflict
      validate_epoch_monotonicity current j
      ok (put j.key next r, next)

unfoldable pub delete_stored : Repository → Key → ℤ → Option Job → Result Error Repository
delete_stored r k expected none = err not_found
delete_stored r k expected (some current) =
    check (not (int_eq current.version expected)) conflict >> ok (remove k r)

module _ (is_uuid : Text → Bool) where
  unfoldable pub create : Repository → Job → Result Error (Repository × Job)
  create r j = do
    validate_job is_uuid j
    check (is_set (find j.key r)) already_exists
    ok (put j.key j r, j)

  unfoldable pub update : Repository → Job → ℤ → Result Error (Repository × Job)
  update r j expected = validate_job is_uuid j >> update_stored r j expected (find j.key r)

abbrev or_not_found : Option Job → Result Error Job
or_not_found none = err not_found
or_not_found (some j) = ok j

unfoldable pub get : Repository → Key → Result Error Job
get r k = do validate_key k; or_not_found (find k r)

unfoldable pub list_jobs : Repository → Text → Page → Result Error (List Job × ℕ)
list_jobs r n p = do
  validate_key (record { key_namespace = n; key_name = codes "validation" })
  validate_page p
  slice_page (sort_by_name (in_namespace n r)) (magnitude p.number) (magnitude p.size)

unfoldable pub delete : Repository → Key → ℤ → Result Error Repository
delete r k expected = do
  validate_key k
  check (not (is_positive expected)) conflict
  delete_stored r k expected (find k r)
