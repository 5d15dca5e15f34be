-- ===== src/Wal/Tests.antt =====
-- The theorems on the log at concrete entries, and runs of the code of
-- control-plane/replication/wal/wal.go.
use astra_sync.Prelude.{
  ℕ, pos, ◌+◌, ◌≡◌, ◌≤◌, ◌⊎◌, List, [], ◌∷◌, ◌++◌, length, Text, codes, Bool, true, false, Option,
  some, ok, err, refl, arith, leb, if◌then◌else◌, text_eq, to_u64, of_u64,
}
use astra_sync.Wal.Bytes.{put_uint, get_uint, AreBytes}
use astra_sync.Wal.Crc.{checksum}
use astra_sync.Wal.Entry.{
  Entry, WalError, unix_zero, unix_nano, from_unix_nano, put_text, body, marshal, read_uint, cut,
  read_text, verify_entry, finish_unmarshal, read_fields, unmarshal, too_short, index_out_of_range,
}
use astra_sync.Wal.Keys.{entry_key, format_sequence, parse_sequence_from_key}
use astra_sync.Wal.Storage.{Store, put_object, find_object, later}
use astra_sync.Wal.Writer.{
  Writer, flush_entry, flush_entries, flush_locked, append_entry, append, new_state, stamped,
}
use astra_sync.Wal.Reader.{Reader, read_next, read_batch, last_of}
use astra_sync.Wal.Laws.Batches.{Follows, read_batch-Follows}
use astra_sync.Wal.Laws.Codec.{InRange, text_size, unmarshal-marshal}
use astra_sync.Wal.Laws.Canonical.{marshal-unmarshal}
use astra_sync.Wal.Laws.Faults.{job_length, unmarshal-past_end}
use astra_sync.Wal.Laws.Names.{parse_sequence_from_key-entry_key}
use astra_sync.Wal.Laws.Writing.{Logs, LogsAs, append-LogsAs}
use astra_sync.Wal.Laws.Reading.{IsReadable, read_next-Logs}
use astra_sync.Wal.Laws.Sessions.{
  Call, appends, ticks, begins_close, finishes_close, perform_all, perform_all-Logs,
}

abbrev east : Text
east = codes "east"

abbrev wal : Text
wal = codes "wal"

-- An entry as the writer stamps it one nanosecond after 1970.
abbrev first_entry : Entry
first_entry = record {
  sequence = pos 1;
  region = east;
  epoch = pos 1;
  checkpoint_uri = codes "s3://b/1";
  job_id = codes "j";
  timestamp = unix_zero + 1;
  crc = 0;
}

abbrev first_bytes : List ℕ
first_bytes =
    1 ∷ 0 ∷ 0 ∷ 0 ∷ 0 ∷ 0 ∷ 0 ∷ 0 ∷ 1 ∷ 0 ∷ 0 ∷ 0 ∷ 0 ∷ 0 ∷ 0 ∷ 0 ∷ 1 ∷ 0 ∷ 0 ∷ 0 ∷ 106 ∷ 4 ∷ 0 ∷ 0
    ∷ 0 ∷ 101 ∷ 97 ∷ 115 ∷ 116 ∷ 8 ∷ 0 ∷ 0 ∷ 0 ∷ 115 ∷ 51 ∷ 58 ∷ 47 ∷ 47 ∷ 98 ∷ 47 ∷ 49 ∷ 1 ∷ 0 ∷ 0
    ∷ 0 ∷ 0 ∷ 0 ∷ 0 ∷ 0 ∷ []

abbrev first_crc : ℕ
first_crc = 1467114571

marshal_first :
    marshal first_entry
    ≡ ok (first_bytes ++ put_uint 4 first_crc, record first_entry { crc = first_crc })
unfolding marshal body put_text put_uint to_u64 unix_nano checksum
marshal_first = refl

abbrev first_stored : Entry
first_stored = record first_entry { crc = first_crc }

abbrev first_encoded : List ℕ
first_encoded = first_bytes ++ 75 ∷ 100 ∷ 114 ∷ 87 ∷ []

encode_first : marshal first_entry ≡ ok (first_encoded, first_stored)
unfolding marshal body put_text put_uint to_u64 unix_nano checksum
encode_first = refl

decode_first : unmarshal first_encoded ≡ ok first_stored
unfolding unmarshal read_fields read_uint read_text cut finish_unmarshal verify_entry get_uint
    of_u64 from_unix_nano checksum
decode_first = refl

first-InRange : InRange first_entry
first-InRange = record {
  sequence_fits = omega arith;
  epoch_fits = omega arith;
  time_fits = omega arith;
}

unmarshal-marshal_example :
    unmarshal first_encoded
    ≡ (if leb 4 (text_size first_entry) then ok first_stored else err too_short)
unmarshal-marshal_example =
    unmarshal-marshal first_entry first_encoded first_stored first-InRange encode_first

first-AreBytes : AreBytes first_encoded
first-AreBytes = ground arith

marshal-unmarshal_example : marshal first_stored ≡ ok (first_encoded, first_stored)
marshal-unmarshal_example = marshal-unmarshal first_encoded first_stored first-AreBytes decode_first

-- The first 44 bytes of an encoding whose job takes 22 of them: the length of the region is cut off.
abbrev cut_off : List ℕ
cut_off =
    (1 ∷ 0 ∷ 0 ∷ 0 ∷ 0 ∷ 0 ∷ 0 ∷ 0 ∷ [])
    ++ (1 ∷ 0 ∷ 0 ∷ 0 ∷ 0 ∷ 0 ∷ 0 ∷ 0 ∷ [])
    ++ (22 ∷ 0 ∷ 0 ∷ 0 ∷ [])
    ++ codes "nightly-orders-replica"
    ++ (4 ∷ 0 ∷ [])

cut_off_job : job_length cut_off ≡ 22
unfolding get_uint
cut_off_job = refl

unmarshal-past_end_example : unmarshal cut_off ≡ err index_out_of_range
unmarshal-past_end_example =
    unmarshal-past_end cut_off (omega arith) (omega (arith, cut_off_job))
      (omega (arith, cut_off_job))

parse_sequence_from_key-entry_key_example :
    parse_sequence_from_key (entry_key wal east (pos 42)) ≡ pos 42
parse_sequence_from_key-entry_key_example =
    parse_sequence_from_key-entry_key wal east 42 (omega arith)

abbrev empty_store : Store
empty_store = record { objects = []; faults = [] }

-- A store whose first call fails.
abbrev shaky_store : Store
shaky_store = record { objects = []; faults = true ∷ [] }

abbrev fresh_writer : Writer
fresh_writer = new_state east wal (pos 10)

fresh-Logs : (s : Store) → Logs fresh_writer s []
fresh-Logs s = record {
  numbered = tt;
  counted = refl;
  room = omega arith;
  written = tt;
  local = tt;
}

abbrev bare_entry : Entry
bare_entry = record first_entry { sequence = pos 0; timestamp = 0 }

append-LogsAs_example :
    let r = append fresh_writer (unix_zero + 1) true (some bare_entry) empty_store in
    ((x : WalError) × (r ≡ (err x, fresh_writer, empty_store)))
    ⊎ ((entry : Entry) × (◌≡◌ {A = Option Entry} (some bare_entry) (some entry))
        × LogsAs
            (stamped fresh_writer (unix_zero + 1) entry ∷ [])
            ((◌≡◌ {A = Bool} true true) × (r.0 ≡ ok tt))
            r.1
            r.2)
append-LogsAs_example =
    append-LogsAs fresh_writer empty_store [] (unix_zero + 1) true (some bare_entry)
      (fresh-Logs empty_store) (omega arith)

-- The store after the entry is written, and the writer.
abbrev written_store : Store
written_store = record { objects = (entry_key wal east (pos 1), first_encoded) ∷ []; faults = [] }

abbrev written_writer : Writer
written_writer = record fresh_writer { last_sequence = pos 1 }

append_first :
    append fresh_writer (unix_zero + 1) true (some bare_entry) empty_store
    ≡ (ok tt, written_writer, written_store)
unfolding append append_entry flush_locked flush_entries flush_entry put_object marshal body
    put_text put_uint to_u64 unix_nano checksum text_eq
append_first = refl

written-Logs : Logs written_writer written_store (first_entry ∷ [])
unfolding find_object text_eq entry_key format_sequence
written-Logs = record {
  numbered = (refl, tt);
  counted = refl;
  room = omega arith;
  written = ((first_encoded, first_stored, encode_first, refl), tt);
  local = (refl, tt);
}

first-IsReadable : IsReadable first_entry
first-IsReadable = (first-InRange, omega arith)

abbrev fresh_reader : Reader
fresh_reader = record { reader_region = east; reader_prefix = wal; last_read = pos 0 }

read_next-Logs_example :
    (bytes : List ℕ) × (full : Entry) × (marshal first_entry ≡ ok (bytes, full))
    × (read_next fresh_reader written_store
        ≡ (ok full, record fresh_reader { last_read = pos 1 }, later written_store))
read_next-Logs_example =
    read_next-Logs written_writer written_store [] [] first_entry fresh_reader written-Logs refl
      refl refl refl first-IsReadable

-- Two appends while the first write fails, a tick of the flusher, and the two halves of `Close`.
abbrev busy_session : List Call
busy_session =
    appends (unix_zero + 1) true (some bare_entry)
    ∷ appends (unix_zero + 2) false (some bare_entry)
    ∷ ticks
    ∷ begins_close
    ∷ finishes_close
    ∷ []

perform_all-Logs_example :
    let r = perform_all busy_session (new_state east wal (pos 10)) shaky_store in
    (flushed : List Entry) × Logs r.0 r.1 flushed
    × (length (flushed ++ r.0.pending) ≤ length busy_session)
perform_all-Logs_example = perform_all-Logs busy_session east wal (pos 10) shaky_store (omega arith)

read_batch-Follows_example :
    let (got, after, s') = read_batch fresh_reader (pos 10) written_store in
    ((x : WalError) × (got ≡ err x) × (after ≡ fresh_reader))
    ⊎ ((es : List Entry) × (got ≡ ok es)
        × Follows fresh_reader.reader_region fresh_reader.last_read es
        × (length es ≤ 10)
        × (after ≡ record fresh_reader { last_read = last_of fresh_reader.last_read es }))
read_batch-Follows_example = read_batch-Follows fresh_reader 10 written_store
