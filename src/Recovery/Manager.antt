-- ===== src/Recovery/Manager.antt =====
-- `Recover` and `downloadFile` of control-plane/replication/recovery/recovery.go. The components that a
-- deployment injects are `Sources`: what each of their calls returns, in the run at hand; `none` is a
-- component that is nil. Calls with their arguments are listed, except those that only read the log.
-- Audit records, metrics and log lines are left out.
use astra_sync.Prelude.{
  ℕ, ℤ, pos, List, [], ◌∷◌, length, Text, text_eq, is_blank, Bool, true, false, not, ◌||◌, ◌&&◌,
  ◌==◌, Option, none, some, is_neg, is_positive, int_eq, int_lt, if◌then◌else◌, Result, ok, err,
}
use astra_sync.Prelude.Exec.{Exec, ◌>>=◌, ◌>>◌, pure}
use astra_sync.Wal.Crc.{checksum}
use astra_sync.Recovery.Record.{
  CheckpointFile, Manifest, RecoveryState, checkpoint_located, checkpoint_validated,
  files_downloading, files_downloaded, restoring, recovery_complete, recovery_failed, RecoveryError,
  aborted, incomplete_dependencies, latest_unreadable, checkpoint_not_found, epoch_mismatch,
  other_job, sequence_mismatch, manifest_unfetched, manifest_unparsed, manifest_differs,
  checkpoint_invalid, file_uri_blank, file_unfetched, file_size_differs, file_crc_differs,
  restore_failed, Recovery, new_recovery, enter_state,
}

pub data Fetch : Type 0 where
  fetched : Text → Fetch
  validated restored : Manifest → Fetch

pub record Sources : Type 0 where
  pub latest : Option (Result Text (Option Manifest))
  pub storage : Option (Text → Result Text (List ℕ))
  pub parser : Option (List ℕ → Result Text (Option Manifest))
  pub validator : Option (Manifest → Option Text)
  pub restorer : Option (Manifest → Option Text)

abbrev pub Act : Type 0 → Type 0
Act A = Exec RecoveryError Recovery Fetch A

abbrev entry_result :
    Result RecoveryError (Unit {0}) × Recovery
    → Result RecoveryError (Unit {0}) × Recovery × List Fetch
entry_result (o, r) = (o, r, [])

unfoldable pub enter : RecoveryState → ℕ → Act (Unit {0})
unfolding enter_state
enter s now r = entry_result (enter_state r s none now)

-- `fail`: the record is marked as failed with the error, which goes to the caller.
unfoldable pub fail : {A : Type 0} → RecoveryError → ℕ → Act A
fail e now r = (err e, (enter_state r recovery_failed (some e) now).1, [])

abbrev pub guard : Bool → RecoveryError → ℕ → Act (Unit {0})
guard true e now = fail e now
guard false e now = pure tt

abbrev noted : Fetch → Act (Unit {0})
noted c r = (ok tt, r, c ∷ [])

abbrev keep_checkpoint : Manifest → Act (Unit {0})
keep_checkpoint m r = (ok tt, record r { checkpoint = some m }, [])

abbrev located : Result Text (Option Manifest) → ℕ → Act Manifest
located (err msg) now = fail (latest_unreadable msg) now
located (ok none) now = fail checkpoint_not_found now
located (ok (some m)) now = pure m

abbrev pub differs_from : Manifest → Text → Manifest → Bool
differs_from m job parsed =
    not (text_eq parsed.manifest_job job)
    || (not (int_eq parsed.manifest_sequence m.manifest_sequence)
        || not (int_eq parsed.manifest_epoch m.manifest_epoch))

abbrev parsed_with : Text → Manifest → ℕ → Result Text (Option Manifest) → Act Manifest
parsed_with job m now (err msg) = fail (manifest_unparsed msg) now
parsed_with job m now (ok none) = fail manifest_differs now
parsed_with job m now (ok (some parsed)) =
    guard (differs_from m job parsed) manifest_differs now
    >> (keep_checkpoint parsed >> pure parsed)

abbrev fetch_with :
    Text
    → Manifest
    → (List ℕ → Result Text (Option Manifest))
    → ℕ
    → Result Text (List ℕ)
    → Act Manifest
fetch_with job m parse now (err msg) = fail (manifest_unfetched msg) now
fetch_with job m parse now (ok data') = parsed_with job m now (parse data')

-- The manifest of the object, where there is a parser.
unfoldable pub refine :
    Option (List ℕ → Result Text (Option Manifest))
    → (Text → Result Text (List ℕ))
    → Text
    → Manifest
    → ℕ
    → Act Manifest
unfolding fail
refine none get job m now = pure m
refine (some parse) get job m now =
    noted (fetched m.manifest_uri) >> fetch_with job m parse now (get m.manifest_uri)

-- The checks of a file's content against its size, if it is not negative, and its checksum, if it is
-- not 0.
abbrev inspect : CheckpointFile → ℕ → Result Text (List ℕ) → Act (Unit {0})
inspect f now (err msg) = fail (file_unfetched f.file_name msg) now
inspect f now (ok content) =
    guard (not (is_neg f.file_size) && not (int_eq (pos (length content)) f.file_size))
      (file_size_differs f.file_name) now
    >> guard (not (f.file_crc == 0) && not (checksum content == f.file_crc))
        (file_crc_differs f.file_name) now

unfoldable pub download_file : (Text → Result Text (List ℕ)) → CheckpointFile → ℕ → Act (Unit {0})
unfolding fail
download_file get f now =
    guard (is_blank f.file_uri) (file_uri_blank f.file_name) now
    >> (noted (fetched f.file_uri) >> inspect f now (get f.file_uri))

unfoldable pub download_files :
    (Text → Result Text (List ℕ)) → List CheckpointFile → ℕ → Act (Unit {0})
download_files get [] now = pure tt
download_files get (f ∷ fs) now = download_file get f now >> download_files get fs now

abbrev unless_error : Option Text → (Text → RecoveryError) → ℕ → Act (Unit {0})
unless_error none e now = pure tt
unless_error (some msg) e now = fail (e msg) now

abbrev pub wrong_job : Text → Manifest → Bool
wrong_job job m = not (text_eq m.manifest_job job) || is_blank m.manifest_uri

-- The steps 2 to 5 of `Recover`, for the manifest that is restored.
unfoldable pub restore_chosen :
    (Text → Result Text (List ℕ))
    → (Manifest → Option Text)
    → (Manifest → Option Text)
    → Manifest
    → ℕ
    → Act (Unit {0})
unfolding enter fail
restore_chosen get validate restore chosen now = do
  enter checkpoint_validated now
  noted (validated chosen)
  unless_error (validate chosen) checkpoint_invalid now
  enter files_downloading now
  download_files get chosen.files now
  enter files_downloaded now
  enter restoring now
  noted (restored chosen)
  unless_error (restore chosen) restore_failed now
  enter recovery_complete now

-- `Recover` once its arguments and components are there.
unfoldable pub recover_with :
    Result Text (Option Manifest)
    → (Text → Result Text (List ℕ))
    → Option (List ℕ → Result Text (Option Manifest))
    → (Manifest → Option Text)
    → (Manifest → Option Text)
    → Text
    → ℤ
    → ℕ
    → Act (Unit {0})
unfolding enter fail
recover_with latest get parser validate restore job epoch now = do
  enter checkpoint_located now
  m ← located latest now
  keep_checkpoint m
  guard (int_lt epoch m.manifest_epoch) (epoch_mismatch m.manifest_epoch epoch) now
  guard (wrong_job job m) other_job now
  guard (not (is_positive m.manifest_sequence)) sequence_mismatch now
  chosen ← refine parser get job m now
  restore_chosen get validate restore chosen now

abbrev pub with_components :
    Option (Result Text (Option Manifest))
    → Option (Manifest → Option Text)
    → Option (Manifest → Option Text)
    → Option (Text → Result Text (List ℕ))
    → Option (List ℕ → Result Text (Option Manifest))
    → Text
    → ℤ
    → ℕ
    → Act (Unit {0})
with_components (some latest) (some validate) (some restore) (some get) parser job epoch now =
    recover_with latest get parser validate restore job epoch now
with_components _ _ _ _ parser job epoch now = fail incomplete_dependencies now

-- `now` is the time that the record keeps.
unfoldable pub recover :
    Sources → Text → ℤ → ℕ → Result RecoveryError (Unit {0}) × Recovery × List Fetch
recover v job epoch now =
    let r = new_recovery job epoch now in
    if is_blank job || is_neg epoch
    then fail aborted now r
    else with_components v.latest v.validator v.restorer v.storage v.parser job epoch now r
