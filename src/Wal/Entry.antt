-- ===== src/Wal/Entry.antt =====
-- The entries of control-plane/replication/wal/wal.go and their binary form. `rest` is `data[offset:]`.
-- Reading past the end of a slice panics in Go; `index_out_of_range` stands for that.
use astra_sync.Prelude.{
  ℕ, ℤ, ◌+◌, ◌-◌, ◌*◌, ◌%◌, List, ◌++◌, length, take, drop, Text, is_empty, not, ◌||◌, is_positive,
  ltb, ◌==◌, to_u64, of_u64, Result, ok, err, check, ◌>>=◌, ◌>>◌, if◌then◌else◌,
}
use astra_sync.Wal.Bytes.{put_uint, get_uint}
use astra_sync.Wal.Crc.{checksum}

pub data WalError : Type 0 where
  closed empty_sequence invalid_checkpoint : WalError
  mismatched_region : Text → Text → WalError
  gap nil_entry field_too_long : WalError
  too_short truncated_job_id truncated_region truncated_checkpoint_uri trailing_data : WalError
  crc_mismatch : ℕ → ℕ → WalError
  store_failed object_missing invalid_config index_out_of_range : WalError

-- A time is the number of nanoseconds since the zero `time.Time`, 1 January of the year 1.
pub record Entry : Type 0 where
  pub sequence : ℤ
  pub region : Text
  pub epoch : ℤ
  pub checkpoint_uri : Text
  pub job_id : Text
  pub timestamp : ℕ
  pub crc : ℕ

-- The same instant for 1 January 1970.
abbrev pub unix_zero : ℕ
unix_zero = 62135596800000000000

-- `uint64(t.UnixNano())`: the difference modulo 2^64.
unfoldable pub unix_nano : ℕ → ℕ
unix_nano t = (t + 4 * 18446744073709551616 - unix_zero) % 18446744073709551616

-- `time.Unix(0, int64(x))`.
unfoldable pub from_unix_nano : ℕ → ℕ
from_unix_nano x =
    if ltb x 9223372036854775808 then unix_zero + x else unix_zero + x - 18446744073709551616

abbrev length_limit : ℕ
length_limit = 4294967295

-- A length and the bytes.
unfoldable pub put_text : Text → List ℕ
put_text s = put_uint 4 (length s) ++ s

-- All but the checksum.
unfoldable pub body : Entry → List ℕ
body e =
    put_uint 8 (to_u64 e.sequence)
    ++ (put_uint 8 (to_u64 e.epoch)
        ++ (put_text e.job_id
            ++ (put_text e.region
                ++ (put_text e.checkpoint_uri ++ put_uint 8 (unix_nano e.timestamp)))))

-- The bytes, and the entry with its checksum set.
unfoldable pub marshal : Entry → Result WalError (List ℕ × Entry)
marshal e = do
  check (not (is_positive e.sequence)) empty_sequence
  check (is_empty e.checkpoint_uri) invalid_checkpoint
  check
      (ltb length_limit (length e.job_id)
        || (ltb length_limit (length e.region) || ltb length_limit (length e.checkpoint_uri)))
      field_too_long
  ok (body e ++ put_uint 4 (checksum (body e)), record e { crc = checksum (body e) })

-- `binary.LittleEndian.UintN(data[offset:])`, and the rest.
unfoldable pub read_uint : ℕ → List ℕ → Result WalError (ℕ × List ℕ)
read_uint width rest =
    if ltb (length rest) width
    then err index_out_of_range
    else ok (get_uint (take width rest), drop width rest)

-- The check of a length against what is left, and that many bytes.
unfoldable pub cut : WalError → ℕ → List ℕ → Result WalError (Text × List ℕ)
cut truncated size rest =
    if ltb (length rest) size then err truncated else ok (take size rest, drop size rest)

unfoldable pub read_text : WalError → List ℕ → Result WalError (Text × List ℕ)
read_text truncated input = do (size, rest) ← read_uint 4 input; cut truncated size rest

-- The checks of a decoded entry, with its stored checksum against the one that is computed.
unfoldable pub verify_entry : ℕ → ℕ → Entry → Result WalError Entry
verify_entry computed stored e = do
  check (not (stored == computed)) (crc_mismatch computed stored)
  check (not (is_positive e.sequence)) empty_sequence
  check (is_empty e.checkpoint_uri) invalid_checkpoint
  ok (record e { crc = stored })

-- What follows the fields: `e` holds them and `rest` is what is left for the checksum.
unfoldable pub finish_unmarshal : List ℕ → List ℕ → Entry → Result WalError Entry
finish_unmarshal whole rest e = do
  check (not (length rest == 4)) trailing_data
  (stored, _) ← read_uint 4 rest
  verify_entry (checksum (take (length whole - 4) whole)) stored e

-- The entry that the decoded fields make, before its checksum is read.
abbrev pub fields : ℕ → ℕ → Text → Text → Text → ℕ → Entry
fields sequence epoch job region uri time = record {
  sequence = of_u64 sequence;
  region = region;
  epoch = of_u64 epoch;
  checkpoint_uri = uri;
  job_id = job;
  timestamp = from_unix_nano time;
  crc = 0;
}

-- The fields in their order; the checksum is not read yet.
unfoldable pub read_fields : List ℕ → Result WalError (Entry × List ℕ)
read_fields rest = do
  (sequence, rest₁) ← read_uint 8 rest
  (epoch, rest₂) ← read_uint 8 rest₁
  (job, rest₃) ← read_text truncated_job_id rest₂
  (region, rest₄) ← read_text truncated_region rest₃
  (uri, rest₅) ← read_text truncated_checkpoint_uri rest₄
  (time, rest₆) ← read_uint 8 rest₅
  ok (fields sequence epoch job region uri time, rest₆)

unfoldable pub unmarshal : List ℕ → Result WalError Entry
unmarshal whole = do
  check (ltb (length whole) 44) too_short
  (e, rest) ← read_fields whole
  finish_unmarshal whole rest e
