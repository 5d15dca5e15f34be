-- ===== src/Wal/Laws/Codec.antt =====
-- Decoding an entry that was encoded.
use mathlib.Core.List.{append_assoc, append-nil}
use astra_sync.Prelude.{
  ℕ, ◌+◌, ◌-◌, ◌^◌, ◌≤◌, ◌<◌, ◌≡◌, List, [], ◌++◌, length, length-append, take-append, drop-append,
  Text, is_empty, true, false, is_positive, leb, to_u64, of_u64-to_u64, to_u64-lt, FitsInt64, ok,
  err, if◌then◌else◌, arith,
}
use astra_sync.Wal.Bytes.{put_uint, get_uint, length-put_uint, get_uint-put_uint}
use astra_sync.Wal.Crc.{checksum, checksum-lt}
use astra_sync.Wal.Entry.{
  Entry, WalError, unix_zero, unix_nano, from_unix_nano, put_text, body, marshal, read_uint, cut,
  read_text, read_fields, finish_unmarshal, verify_entry, unmarshal, too_short, truncated_job_id,
  truncated_region, truncated_checkpoint_uri,
}

read_uint-append :
    (width : ℕ) (front rest : List ℕ)
    → length front ≡ width
    → read_uint width (front ++ rest) ≡ ok (get_uint front, rest)
unfolding read_uint
read_uint-append width front rest e =
    rw (← e)
      (ground (arith, length-append front rest, take-append front rest, drop-append front rest))

read_uint-put_uint :
    (width x : ℕ) (rest : List ℕ)
    → x < 256 ^ width
    → read_uint width (put_uint width x ++ rest) ≡ ok (x, rest)
read_uint-put_uint width x rest h = rw (
  read_uint-append width (put_uint width x) rest (length-put_uint width x),
  get_uint-put_uint width x h,
)

read_text-put_text :
    (truncated : WalError) (s : Text) (rest : List ℕ)
    → length s < 2 ^ 32
    → read_text truncated (put_text s ++ rest) ≡ ok (s, rest)
unfolding read_text cut put_text
read_text-put_text truncated s rest h =
    rw (append_assoc, read_uint-put_uint 4 (length s) (s ++ rest) (omega arith))
      (ground (arith, length-append s rest, take-append s rest, drop-append s rest))

-- The times whose distance from 1970 fits into an `int64` of nanoseconds.
abbrev pub IsEncodable : ℕ → Type 0
IsEncodable t = (unix_zero ≤ t + 2 ^ 63) × (t < unix_zero + 2 ^ 63)

from_unix_nano-unix_nano : (t : ℕ) → IsEncodable t → from_unix_nano (unix_nano t) ≡ t
unfolding from_unix_nano unix_nano
from_unix_nano-unix_nano t h = ground arith

unix_nano-lt : (t : ℕ) → unix_nano t < 18446744073709551616
unfolding unix_nano
unix_nano-lt t = omega arith

pub record InRange (e : Entry) : Type 0 where
  pub sequence_fits : FitsInt64 e.sequence
  pub epoch_fits : FitsInt64 e.epoch
  pub time_fits : IsEncodable e.timestamp

length-put_text : (s : Text) → length (put_text s) ≡ 4 + length s
unfolding put_text
length-put_text s =
    omega (arith, length-append (put_uint 4 (length s)) s, length-put_uint 4 (length s))

pub length-body :
    (e : Entry) → length (body e) ≡ 36 + length e.job_id + length e.region + length e.checkpoint_uri
unfolding body
length-body e = simp (length-append, length-put_uint, length-put_text) (omega arith)

read_uint-all : (width x : ℕ) → x < 256 ^ width → read_uint width (put_uint width x) ≡ ok (x, [])
read_uint-all width x h = rw (← append-nil (put_uint width x)) (read_uint-put_uint width x [] h)

-- The last checks pass on a body with its own checksum behind it.
finish_unmarshal-checksum :
    (b : List ℕ) (e : Entry)
    → is_positive e.sequence ≡ true
    → is_empty e.checkpoint_uri ≡ false
    → finish_unmarshal (b ++ put_uint 4 (checksum b)) (put_uint 4 (checksum b)) e
      ≡ ok (record e { crc = checksum b })
unfolding finish_unmarshal verify_entry
finish_unmarshal-checksum b e p u =
    let c = checksum b in
    let size : length (b ++ put_uint 4 c) - 4 ≡ length b =
      omega (arith, length-append b (put_uint 4 c), length-put_uint 4 c) in
    rw (read_uint-all 4 c (checksum-lt b), size, take-append b (put_uint 4 c), length-put_uint 4 c)
      (ground (arith, p, u))

pub record FitsLengths (e : Entry) : Type 0 where
  pub job_fits : length e.job_id < 2 ^ 32
  pub region_fits : length e.region < 2 ^ 32
  pub uri_fits : length e.checkpoint_uri < 2 ^ 32

read_fields-body :
    (e : Entry) (tail : List ℕ)
    → InRange e
    → FitsLengths e
    → read_fields (body e ++ tail) ≡ ok (record e { crc = 0 }, tail)
unfolding read_fields body
read_fields-body e tail r l = simp append_assoc (
    rw (
      read_uint-put_uint 8 (to_u64 e.sequence) _ (to_u64-lt e.sequence),
      read_uint-put_uint 8 (to_u64 e.epoch) _ (to_u64-lt e.epoch),
      read_text-put_text truncated_job_id e.job_id _ l.job_fits,
      read_text-put_text truncated_region e.region _ l.region_fits,
      read_text-put_text truncated_checkpoint_uri e.checkpoint_uri _ l.uri_fits,
      read_uint-put_uint 8 (unix_nano e.timestamp) tail (unix_nano-lt e.timestamp),
      of_u64-to_u64 e.sequence r.sequence_fits,
      of_u64-to_u64 e.epoch r.epoch_fits,
      from_unix_nano-unix_nano e.timestamp r.time_fits,
    ))

-- What `MarshalBinary` accepts, and what it returns.
marshal-ok :
    (e : Entry) (bytes : List ℕ) (stamped : Entry)
    → marshal e ≡ ok (bytes, stamped)
    → (is_positive e.sequence ≡ true)
      × (is_empty e.checkpoint_uri ≡ false)
      × FitsLengths e
      × (bytes ≡ body e ++ put_uint 4 (checksum (body e)))
      × (stamped ≡ record e { crc = checksum (body e) })
unfolding marshal
marshal-ok e bytes stamped h = ground arith

-- The bytes that the three texts of an entry take.
abbrev pub text_size : Entry → ℕ
text_size e = length e.job_id + length e.region + length e.checkpoint_uri

-- Decoding what `MarshalBinary` returns gives the entry back, its checksum included, exactly if its
-- three texts take at least 4 bytes; a smaller entry is encoded too, and is then refused as too
-- short. The integers are `int64` values and the time is within the range of `UnixNano`.
pub unmarshal-marshal :
    (e : Entry) (bytes : List ℕ) (stamped : Entry)
    → InRange e
    → marshal e ≡ ok (bytes, stamped)
    → unmarshal bytes ≡ (if leb 4 (text_size e) then ok stamped else err too_short)
unfolding unmarshal
unmarshal-marshal e bytes stamped r h =
    let (p, u, l, b, s) = marshal-ok e bytes stamped h in
    let c = checksum (body e) in
    rw (b, s, read_fields-body e (put_uint 4 c) r l)
      (ground (
        arith,
        length-append (body e) (put_uint 4 c),
        length-put_uint 4 c,
        length-body e,
        finish_unmarshal-checksum (body e) (record e { crc = 0 }) p u,
      ))
