-- ===== src/Wal/Laws/Faults.antt =====
-- Where decoding reads past the end of its input.
use astra_sync.Prelude.{
  ℕ, ◌+◌, ◌≤◌, ◌<◌, ◌≡◌, List, length, length-drop, take, drop, ok, err, arith,
}
use astra_sync.Wal.Bytes.{get_uint}
use astra_sync.Wal.Entry.{
  WalError, unmarshal, read_fields, read_uint, read_text, cut, index_out_of_range, truncated_job_id,
  truncated_region,
}

-- The length that the input gives for its first text.
abbrev pub job_length : List ℕ → ℕ
job_length whole = get_uint (take 4 (drop 8 (drop 8 whole)))

read_text-past_end :
    (rest : List ℕ) → length rest < 4 → read_text truncated_region rest ≡ err index_out_of_range
unfolding read_text read_uint
read_text-past_end rest h = ground arith

read_uint_enough :
    (width : ℕ) (rest : List ℕ)
    → width ≤ length rest
    → read_uint width rest ≡ ok (get_uint (take width rest), drop width rest)
unfolding read_uint
read_uint_enough width rest h = ground arith

read_text_enough :
    (truncated : WalError) (rest : List ℕ)
    → 4 ≤ length rest
    → 4 + get_uint (take 4 rest) ≤ length rest
    → read_text truncated rest
      ≡ ok
          (take (get_uint (take 4 rest)) (drop 4 rest), drop (get_uint (take 4 rest)) (drop 4 rest))
unfolding read_text cut
read_text_enough truncated rest long fits =
    rw (read_uint_enough 4 rest long) (ground (arith, length-drop 4 rest))

-- Where the job identifier fits into the input but the length behind it does not, the slice is read
-- past its end: the decoder panics instead of returning an error.
pub unmarshal-past_end :
    (whole : List ℕ)
    → 44 ≤ length whole
    → 20 + job_length whole ≤ length whole
    → length whole < 24 + job_length whole
    → unmarshal whole ≡ err index_out_of_range
unfolding unmarshal read_fields
unmarshal-past_end whole long fits ends =
    let r₁ = drop 8 whole in
    let r₂ = drop 8 r₁ in
    let r₃ = drop (job_length whole) (drop 4 r₂) in
    let l₁ = length-drop 8 whole in
    let l₂ = length-drop 8 r₁ in
    rw
      (
        read_uint_enough 8 whole (omega arith),
        read_uint_enough 8 r₁ (omega arith),
        read_text_enough truncated_job_id r₂ (omega arith) (omega arith),
        read_text-past_end r₃
            (omega (arith, length-drop (job_length whole) (drop 4 r₂), length-drop 4 r₂)),
      )
      (ground arith)
