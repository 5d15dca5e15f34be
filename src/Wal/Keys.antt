-- ===== src/Wal/Keys.antt =====
-- The object keys of the log, `<prefix>/<region>/<sequence>.wal` with the sequence in `%016d`, and
-- `parseSequenceFromKey`, which reads the sequence back with `Sscanf("%d")`.
use astra_sync.Prelude.{
  ℕ, zero, suc, ℤ, pos, negsuc, ◌+◌, ◌-◌, ◌*◌, ◌/◌, ◌%◌, ◌^◌, [], ◌∷◌, ◌++◌, length, take, drop,
  Text, text_eq, codes, space_width, Bool, true, false, not, ◌&&◌, ◌||◌, ltb, leb, ◌==◌, Option,
  none, some, if◌then◌else◌, max_int64,
}

-- The last `width` decimal digits.
unfoldable pub put_digits : ℕ → ℕ → Text
put_digits zero n = []
put_digits (suc width) n = put_digits width (n / 10) ++ (48 + n % 10) ∷ []

-- The number of digits to print: at least `width`, and as many as the number has. An `int64` has at
-- most 19 digits, so four more than 15 are enough.
unfoldable pub digit_width : ℕ → ℕ → ℕ → ℕ
digit_width zero width n = width
digit_width (suc more) width n =
    let wider = digit_width more (suc width) n in if ltb n (10 ^ width) then width else wider

-- `%016d`; a minus sign takes one of the places.
unfoldable pub format_sequence : ℤ → Text
unfolding put_digits digit_width
format_sequence (pos n) = put_digits (digit_width 4 16 n) n
format_sequence (negsuc n) = 45 ∷ put_digits (digit_width 5 15 (suc n)) (suc n)

unfoldable pub entry_key : Text → Text → ℤ → Text
entry_key prefix region sequence =
    prefix ++ (47 ∷ (region ++ (47 ∷ (format_sequence sequence ++ codes ".wal"))))

abbrev pub or_here : Option Text → ℕ → Text → Option Text
or_here (some t) a s = some t
or_here none a s = if a == 47 then some s else none

-- What stands behind the last '/', if there is one.
unfoldable pub last_component : Text → Option Text
last_component [] = none
last_component (a ∷ s) = or_here (last_component s) a s

abbrev pub is_digit : ℕ → Bool
is_digit c = leb 48 c && leb c 57

-- The digits at the head of a text, as a number behind `acc`, and whether there is one.
unfoldable pub scan_digits : ℕ → Text → ℕ
scan_digits acc [] = acc
scan_digits acc (c ∷ s) =
    let more = scan_digits (10 * acc + (c - 48)) s in if is_digit c then more else acc

abbrev pub starts_digit : Text → Bool
starts_digit [] = false
starts_digit (c ∷ s) = is_digit c

-- `SkipSpace`, which fails at a newline; `skip` bytes of a space are still to pass over.
unfoldable pub skip_space : ℕ → Text → Option Text
skip_space skip [] = some []
skip_space (suc skip) (a ∷ s) = skip_space skip s
skip_space zero (a ∷ s) =
    let width = space_width (a ∷ s) in
    let rest = skip_space (width - 1) s in
    if a == 10 then none else (if width == 0 then some (a ∷ s) else rest)

-- The digits behind an optional sign; what does not fit into an `int64` is an error, which gives 0.
unfoldable pub scan_magnitude : Bool → Text → ℤ
scan_magnitude negative s =
    let n = scan_digits 0 s in
    if not (starts_digit s)
    then pos 0
    else (if negative
        then (if n == 0 then pos 0 else (if leb n (suc max_int64) then negsuc (n - 1) else pos 0))
        else (if leb n max_int64 then pos n else pos 0))

unfoldable pub scan_signed : Text → ℤ
scan_signed [] = pos 0
scan_signed (c ∷ s) =
    if c == 45
    then scan_magnitude true s
    else (if c == 43 then scan_magnitude false s else scan_magnitude false (c ∷ s))

abbrev pub scan_text : Option Text → ℤ
scan_text none = pos 0
scan_text (some s) = scan_signed s

abbrev pub scan_component : Option Text → ℤ
scan_component none = pos 0
scan_component (some s) = scan_text (skip_space 0 s)

-- 0 where the key is none of a log entry.
unfoldable pub parse_sequence_from_key : Text → ℤ
parse_sequence_from_key key =
    let size = length key in
    if ltb size 4 || not (text_eq (drop (size - 4) key) (codes ".wal"))
    then pos 0
    else scan_component (last_component (take (size - 4) key))
