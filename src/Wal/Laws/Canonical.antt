-- ===== src/Wal/Laws/Canonical.antt =====
-- Encoding an entry that was decoded.
use mathlib.Core.List.{append_assoc, append-nil}
use mathlib.Core.Path.{subst₂}
use astra_sync.Prelude.{
  ℕ, ◌-◌, ◌^◌, ◌<◌, ◌≡◌, refl, sym, ap, ◌∙◌, subst, List, [], ◌∷◌, ◌++◌, length, length-append,
  take, take-append, Text, is_empty, true, false, not, is_positive, ltb, ◌==◌, to_u64-of_u64,
  Result, ok, arith, check-passes, >>=-passes,
}
use astra_sync.Wal.Bytes.{put_uint, length-put_uint, AreBytes}
use astra_sync.Wal.Crc.{checksum}
use astra_sync.Wal.Entry.{
  Entry, WalError, put_text, body, marshal, read_uint, read_text, fields, read_fields,
  finish_unmarshal, verify_entry, unmarshal, too_short, trailing_data, truncated_job_id,
  truncated_region, truncated_checkpoint_uri,
}
use astra_sync.Wal.Laws.Reads.{
  AreBytes-append, Read, read_uint-Read, ReadText, read_text-ReadText, unix_nano-from_unix_nano,
}

abbrev FieldsFill : List ℕ → Entry → List ℕ → Type 0
FieldsFill input e rest =
    (input ≡ body e ++ rest)
    × (length e.job_id < 2 ^ 32)
    × (length e.region < 2 ^ 32)
    × (length e.checkpoint_uri < 2 ^ 32)

fields-body :
    (input : List ℕ) (sequence : ℕ) (rest₁ : List ℕ) (epoch : ℕ) (rest₂ : List ℕ) (job : Text)
    (rest₃ : List ℕ) (region : Text) (rest₄ : List ℕ) (uri : Text) (rest₅ : List ℕ) (time : ℕ)
    (rest₆ : List ℕ)
    → Read 8 input sequence rest₁
    → Read 8 rest₁ epoch rest₂
    → ReadText rest₂ job rest₃
    → ReadText rest₃ region rest₄
    → ReadText rest₄ uri rest₅
    → Read 8 rest₅ time rest₆
    → FieldsFill input (fields sequence epoch job region uri time) rest₆
unfolding body
fields-body input sequence rest₁ epoch rest₂ job rest₃ region rest₄ uri rest₅ time rest₆ r₁ r₂ r₃ r₄
      r₅ r₆ =
    (
      rw
          (
            to_u64-of_u64 sequence r₁.fits,
            to_u64-of_u64 epoch r₂.fits,
            unix_nano-from_unix_nano time r₆.fits,
          )
          (simp append_assoc whole),
      r₃.text_fits,
      r₄.text_fits,
      r₅.text_fits,
    )
  where
    whole :
        input
        ≡ put_uint 8 sequence
          ++ (put_uint 8 epoch
              ++ (put_text job
                  ++ (put_text region ++ (put_text uri ++ (put_uint 8 time ++ rest₆)))))
    whole =
        r₁.split
        ∙ ap (◌++◌ (put_uint 8 sequence)) (
            r₂.split
            ∙ ap (◌++◌ (put_uint 8 epoch)) (
                r₃.text_split
                ∙ ap (◌++◌ (put_text job)) (
                    r₄.text_split
                    ∙ ap (◌++◌ (put_text region))
                        (r₅.text_split ∙ ap (◌++◌ (put_text uri)) r₆.split))))

-- The fields that are read make up the input.
read_fields-body :
    (input : List ℕ) (e : Entry) (rest : List ℕ)
    → AreBytes input
    → read_fields input ≡ ok (e, rest)
    → FieldsFill input e rest
unfolding read_fields
read_fields-body input e rest bytes h =
    let ((sequence, rest₁), h₁, m₁) = >>=-passes (read_uint 8 input) _ h in
    let r₁ = read_uint-Read 8 input sequence rest₁ bytes h₁ in
    let ((epoch, rest₂), h₂, m₂) = >>=-passes (read_uint 8 rest₁) _ m₁ in
    let r₂ = read_uint-Read 8 rest₁ epoch rest₂ r₁.rest_bytes h₂ in
    let ((job, rest₃), h₃, m₃) = >>=-passes (read_text truncated_job_id rest₂) _ m₂ in
    let r₃ = read_text-ReadText truncated_job_id rest₂ job rest₃ r₂.rest_bytes h₃ in
    let ((region, rest₄), h₄, m₄) = >>=-passes (read_text truncated_region rest₃) _ m₃ in
    let r₄ = read_text-ReadText truncated_region rest₃ region rest₄ r₃.text_rest_bytes h₄ in
    let ((uri, rest₅), h₅, m₅) = >>=-passes (read_text truncated_checkpoint_uri rest₄) _ m₄ in
    let r₅ = read_text-ReadText truncated_checkpoint_uri rest₄ uri rest₅ r₄.text_rest_bytes h₅ in
    let ((time, rest₆), h₆, m₆) = >>=-passes (read_uint 8 rest₅) _ m₅ in
    let r₆ = read_uint-Read 8 rest₅ time rest₆ r₅.text_rest_bytes h₆ in
    let same : ◌≡◌ {A = Result WalError (Entry × List ℕ)}
        (ok (fields sequence epoch job region uri time, rest₆)) (ok (e, rest)) =
      m₆ in
    subst₂ (FieldsFill input) (ground arith) (ground arith) (
      fields-body input sequence rest₁ epoch rest₂ job rest₃ region rest₄ uri rest₅ time rest₆ r₁ r₂
        r₃ r₄ r₅ r₆)

length_zero : (xs : List ℕ) → length xs ≡ 0 → xs ≡ []
length_zero [] h = refl
length_zero (x ∷ xs) h = absurd (omega arith)

verify_entry-ok :
    (computed stored : ℕ) (e f : Entry)
    → verify_entry computed stored e ≡ ok f
    → (stored ≡ computed)
      × (is_positive e.sequence ≡ true)
      × (is_empty e.checkpoint_uri ≡ false)
      × (f ≡ record e { crc = computed })
unfolding verify_entry
verify_entry-ok computed stored e f h = ground arith

-- Four bytes that read as a number are its encoding.
four_fields :
    (rest : List ℕ) (stored : ℕ) (after : List ℕ)
    → length rest ≡ 4
    → Read 4 rest stored after
    → rest ≡ put_uint 4 stored
four_fields rest stored after four r =
    let none_left : after ≡ [] = length_zero after (
      omega (
        arith,
        ap length r.split,
        length-append (put_uint 4 stored) after,
        length-put_uint 4 stored,
      )) in
    r.split ∙ ap (◌++◌ (put_uint 4 stored)) none_left ∙ append-nil (put_uint 4 stored)

-- What the last checks say: the rest is the checksum of all before it, and the entry is complete.
finish_unmarshal-ok :
    (b rest : List ℕ) (e f : Entry)
    → AreBytes rest
    → finish_unmarshal (b ++ rest) rest e ≡ ok f
    → (rest ≡ put_uint 4 (checksum b))
      × (is_positive e.sequence ≡ true)
      × (is_empty e.checkpoint_uri ≡ false)
      × (f ≡ record e { crc = checksum b })
unfolding finish_unmarshal
finish_unmarshal-ok b rest e f bytes h =
    let (four, h₁) = check-passes (not (length rest == 4)) trailing_data _ h in
    let ((stored, after), good, h₂) = >>=-passes (read_uint 4 rest) _ h₁ in
    let size : length (b ++ rest) - 4 ≡ length b = ground (arith, length-append b rest) in
    let (right, p, u, same) =
      verify_entry-ok (checksum (take (length (b ++ rest) - 4) (b ++ rest))) stored e f h₂ in
    let before : take (length (b ++ rest) - 4) (b ++ rest) ≡ b =
      ap (λ n. take n (b ++ rest)) size ∙ take-append b rest in
    let encoded =
      four_fields rest stored after (ground arith)
        (read_uint-Read 4 rest stored after bytes good) in
    (
      encoded ∙ ap (put_uint 4) (right ∙ ap checksum before),
      p,
      u,
      same ∙ ap (λ (c : ℕ). record e { crc = c }) (ap checksum before),
    )

body-crc : (e : Entry) (c : ℕ) → body (record e { crc = c }) ≡ body e
unfolding body
body-crc e c = refl

marshal_complete :
    (raw : Entry) (rest : List ℕ)
    → FieldsFill (body raw ++ rest) raw rest
    → rest ≡ put_uint 4 (checksum (body raw))
    → is_positive raw.sequence ≡ true
    → is_empty raw.checkpoint_uri ≡ false
    → let e = record raw { crc = checksum (body raw) } in marshal e ≡ ok (body raw ++ rest, e)
unfolding marshal
marshal_complete raw rest fill r p u = rw (body-crc raw (checksum (body raw)), r) (ground arith)

marshal-fill :
    (whole : List ℕ) (raw : Entry) (rest : List ℕ) (e : Entry)
    → AreBytes whole
    → FieldsFill whole raw rest
    → finish_unmarshal whole rest raw ≡ ok e
    → marshal e ≡ ok (whole, e)
marshal-fill whole raw rest e bytes fill h =
    let split = fill.0 in
    let (r, p, u, same) =
      finish_unmarshal-ok (body raw) rest raw e
        (AreBytes-append (body raw) rest (subst AreBytes split bytes)).1
        (subst (λ w. finish_unmarshal w rest raw ≡ ok e) split h) in
    subst₂ (λ (x : Entry) (w : List ℕ). marshal x ≡ ok (w, x)) (sym same) (sym split)
      (marshal_complete raw rest (refl, fill.1, fill.2, fill.3) r p u)

-- Whatever bytes `UnmarshalBinary` accepts are those that `MarshalBinary` writes for the entry that
-- it returns: the stored checksum is right, and no entry has two encodings.
pub marshal-unmarshal :
    (whole : List ℕ) (e : Entry)
    → AreBytes whole
    → unmarshal whole ≡ ok e
    → marshal e ≡ ok (whole, e)
unfolding unmarshal
marshal-unmarshal whole e bytes h =
    let (long, h₁) = check-passes (ltb (length whole) 44) too_short _ h in
    let ((raw, rest), read, h₂) = >>=-passes (read_fields whole) _ h₁ in
    marshal-fill whole raw rest e bytes (read_fields-body whole raw rest bytes read) h₂
