-- ===== src/Wal/Laws/Names.antt =====
-- The keys of the log and the sequence numbers that are read back from them.
use astra_sync.Prelude.{
  ℕ, zero, suc, ℤ, pos, ◌+◌, ◌-◌, ◌*◌, ◌/◌, ◌%◌, ◌^◌, ◌≤◌, ◌<◌, ◌≡◌, ◌≢◌, refl, sym, ap, ◌∙◌, [],
  ◌∷◌, ◌++◌, length, length-append, take-append, drop-append, Text, text_eq_refl, codes,
  space_width, true, none, some, max_int64, arith,
}
use mathlib.Core.List.{append_assoc}
use native.Mathlib.Nat.{pow-suc}
use astra_sync.Wal.Keys.{
  put_digits, digit_width, format_sequence, entry_key, last_component, is_digit, scan_digits,
  starts_digit, skip_space, scan_magnitude, scan_signed, scan_component, parse_sequence_from_key,
}

abbrev AreDigits : Text → Type 0
AreDigits [] = Unit {0}
AreDigits (c ∷ s) = (is_digit c ≡ true) × AreDigits s

AreDigits-append : (s t : Text) → AreDigits s → AreDigits t → AreDigits (s ++ t)
AreDigits-append [] t h k = k
AreDigits-append (c ∷ s) t h k = (h.0, AreDigits-append s t h.1 k)

put_digits-AreDigits : (width n : ℕ) → AreDigits (put_digits width n)
unfolding put_digits
put_digits-AreDigits zero n = tt
put_digits-AreDigits (suc width) n =
    AreDigits-append (put_digits width (n / 10)) _ (put_digits-AreDigits width (n / 10))
      (ground arith, tt)

scan_digits-append :
    (acc : ℕ) (s t : Text)
    → AreDigits s
    → scan_digits acc (s ++ t) ≡ scan_digits (scan_digits acc s) t
unfolding scan_digits
scan_digits-append acc [] t h = refl
scan_digits-append acc (c ∷ s) t h =
    rw (h.0, scan_digits) (scan_digits-append (10 * acc + (c - 48)) s t h.1)

scan_digits-put_digits : (width n : ℕ) → n < 10 ^ width → scan_digits 0 (put_digits width n) ≡ n
unfolding scan_digits put_digits
scan_digits-put_digits zero n h = ground arith
scan_digits-put_digits (suc width) n h =
    rw
      (
        scan_digits-append 0 (put_digits width (n / 10)) _ (put_digits-AreDigits width (n / 10)),
        scan_digits-put_digits width (n / 10) (omega (arith, pow-suc 10 width)),
      )
      (ground arith)

-- An `int64` has at most 19 digits.
digit_width_enough : (n : ℕ) → n ≤ max_int64 → n < 10 ^ digit_width 4 16 n
unfolding digit_width
digit_width_enough n h = ground arith

digit_width-suc : (n : ℕ) → digit_width 4 16 n ≡ suc (digit_width 4 16 n - 1)
unfolding digit_width
digit_width-suc n = ground arith

last_component-digits : (t : Text) → AreDigits t → last_component t ≡ none
unfolding last_component
last_component-digits [] h = refl
last_component-digits (c ∷ s) h = rw (last_component-digits s h.1) (ground arith)

last_component-append :
    (s t : Text) → last_component t ≡ none → last_component (s ++ 47 ∷ t) ≡ some t
unfolding last_component
last_component-append [] t h = rw h
last_component-append (c ∷ s) t h = rw (last_component-append s t h)

space_width-digit : (c : ℕ) (s : Text) → is_digit c ≡ true → space_width (c ∷ s) ≡ 0
unfolding space_width
space_width-digit c [] h = ground arith
space_width-digit c (a ∷ []) h = ground arith
space_width-digit c (a ∷ b ∷ s) h = ground arith

skip_space-digits : (t : Text) → AreDigits t → skip_space 0 t ≡ some t
unfolding skip_space
skip_space-digits [] h = refl
skip_space-digits (c ∷ s) h = ground (arith, space_width-digit c s)

scan_signed-digits :
    (t : Text) (n : ℕ)
    → AreDigits t
    → starts_digit t ≡ true
    → scan_digits 0 t ≡ n
    → n ≤ max_int64
    → scan_signed t ≡ pos n
unfolding scan_signed scan_magnitude
scan_signed-digits [] n d s e h = cc
scan_signed-digits (c ∷ t) n d s e h = ground arith

starts_digit-append : (s t : Text) → AreDigits (s ++ t) → s ++ t ≢ [] → starts_digit (s ++ t) ≡ true
starts_digit-append [] [] d ne = absurd (ne refl)
starts_digit-append [] (c ∷ t) d ne = d.0
starts_digit-append (c ∷ s) t d ne = d.0

put_digits-starts : (width n : ℕ) → starts_digit (put_digits (suc width) n) ≡ true
unfolding put_digits
put_digits-starts width n =
    starts_digit-append (put_digits width (n / 10)) _
      (unfold put_digits in put_digits-AreDigits (suc width) n)
      (λ e. absurd (
        omega (arith, ap length e, length-append (put_digits width (n / 10)) ((48 + n % 10) ∷ []))))

format_sequence-starts : (n : ℕ) → starts_digit (format_sequence (pos n)) ≡ true
unfolding format_sequence
format_sequence-starts n = rw (digit_width-suc n) (put_digits-starts (digit_width 4 16 n - 1) n)

format_sequence-AreDigits : (n : ℕ) → AreDigits (format_sequence (pos n))
unfolding format_sequence
format_sequence-AreDigits n = put_digits-AreDigits (digit_width 4 16 n) n

scan_digits-format : (n : ℕ) → n ≤ max_int64 → scan_digits 0 (format_sequence (pos n)) ≡ n
unfolding format_sequence
scan_digits-format n h = scan_digits-put_digits (digit_width 4 16 n) n (digit_width_enough n h)

-- A key without its suffix.
stem : Text → Text → ℤ → Text
stem prefix region n = prefix ++ (47 ∷ (region ++ 47 ∷ format_sequence n))

entry_key-stem :
    (prefix region : Text) (n : ℤ)
    → entry_key prefix region n ≡ stem prefix region n ++ codes ".wal"
unfolding entry_key stem
entry_key-stem prefix region n = simp append_assoc

last_component-stem :
    (prefix region : Text) (n : ℕ)
    → last_component (stem prefix region (pos n)) ≡ some (format_sequence (pos n))
unfolding stem
last_component-stem prefix region n =
    rw (← append_assoc prefix (47 ∷ region) (47 ∷ format_sequence (pos n))) (
      last_component-append (prefix ++ 47 ∷ region) (format_sequence (pos n))
        (last_component-digits (format_sequence (pos n)) (format_sequence-AreDigits n)))

suffix-removed :
    (s : Text) → parse_sequence_from_key (s ++ codes ".wal") ≡ scan_component (last_component s)
unfolding parse_sequence_from_key
suffix-removed s =
    let size : length (s ++ codes ".wal") - 4 ≡ length s =
      omega (arith, length-append s (codes ".wal")) in
    rw
      (
        size,
        take-append s (codes ".wal"),
        drop-append s (codes ".wal"),
        text_eq_refl (codes ".wal"),
      )
      (ground (arith, length-append s (codes ".wal")))

-- Reading back the sequence number of an entry's key.
pub parse_sequence_from_key-entry_key :
    (prefix region : Text) (n : ℕ)
    → n ≤ max_int64
    → parse_sequence_from_key (entry_key prefix region (pos n)) ≡ pos n
parse_sequence_from_key-entry_key prefix region n h =
    rw
      (
        entry_key-stem prefix region (pos n),
        suffix-removed,
        last_component-stem prefix region n,
        skip_space-digits (format_sequence (pos n)) (format_sequence-AreDigits n),
      )
      (scan_signed-digits (format_sequence (pos n)) n (format_sequence-AreDigits n)
        (format_sequence-starts n) (scan_digits-format n h) h)

pos_injective : (m n : ℕ) → ◌≡◌ {A = ℤ} (pos m) (pos n) → m ≡ n
pos_injective m n e = ground arith

-- So no two sequence numbers share a key.
pub entry_key-injective :
    (prefix region : Text) (m n : ℕ)
    → m ≤ max_int64
    → n ≤ max_int64
    → entry_key prefix region (pos m) ≡ entry_key prefix region (pos n)
    → m ≡ n
entry_key-injective prefix region m n hm hn e = pos_injective m n (
    sym (parse_sequence_from_key-entry_key prefix region m hm)
    ∙ ap parse_sequence_from_key e
    ∙ parse_sequence_from_key-entry_key prefix region n hn)
