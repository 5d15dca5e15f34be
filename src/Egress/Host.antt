-- ===== src/Egress/Host.antt =====
-- `validHost` of control-plane/scheduler/internal/connectiontest/egress.go, and what the file uses of
-- `strings`. `parse_addr` is `netip.ParseAddr`.
use astra_sync.Prelude.{
  ℕ, zero, suc, ◌-◌, Text, Bool, false, not, ◌&&◌, ◌||◌, Option, is_set, [], ◌∷◌, length, ltb, leb,
  ◌==◌, if◌then◌else◌, space_width, is_blank, all_of,
}
use astra_sync.Connection.Settings.{contains_any}
use astra_sync.Egress.Address.{Addr}

-- `skip` counts the bytes of a space that are still to pass over.
unfoldable pub trim_left : ℕ → Text → Text
trim_left skip [] = []
trim_left (suc skip) (a ∷ s) = trim_left skip s
trim_left zero (a ∷ s) =
    let width = space_width (a ∷ s) in
    let rest = trim_left (width - 1) s in if width == 0 then a ∷ s else rest

unfoldable pub trim_right : Text → Text
trim_right [] = []
trim_right (a ∷ s) = let rest = trim_right s in if is_blank (a ∷ s) then [] else a ∷ rest

unfoldable pub trim_space : Text → Text
trim_space s = trim_right (trim_left 0 s)

-- `strings.TrimSuffix(s, ".")`
unfoldable pub trim_dot : Text → Text
trim_dot [] = []
trim_dot (a ∷ []) = if a == 46 then [] else a ∷ []
trim_dot (a ∷ b ∷ s) = a ∷ trim_dot (b ∷ s)

abbrev is_bracket : ℕ → Bool
is_bracket c = (c == 91) || (c == 93)

unfoldable pub left_brackets : Text → Text
left_brackets [] = []
left_brackets (a ∷ s) = let rest = left_brackets s in if is_bracket a then rest else a ∷ s

unfoldable pub right_brackets : Text → Text
right_brackets [] = []
right_brackets (a ∷ s) =
    let rest = right_brackets s in if all_of is_bracket (a ∷ s) then [] else a ∷ rest

-- `strings.Trim(s, "[]")`
unfoldable pub trim_brackets : Text → Text
trim_brackets s = right_brackets (left_brackets s)

-- `[A-Za-z0-9]`
abbrev pub is_letter_or_digit : ℕ → Bool
is_letter_or_digit c = (leb 65 c && leb c 90) || ((leb 97 c && leb c 122) || (leb 48 c && leb c 57))

-- The rest of a label after the character `a`.
unfoldable pub label_ends : ℕ → Text → Bool
label_ends a [] = is_letter_or_digit a
label_ends a (b ∷ s) = (is_letter_or_digit a || (a == 45)) && label_ends b s

-- `dnsLabel`
unfoldable pub host_label : Text → Bool
host_label [] = false
host_label (a ∷ s) = is_letter_or_digit a && (label_ends a s && leb (length s) 62)

abbrev backwards : Text → Text → Text
backwards done [] = done
backwards done (a ∷ s) = backwards (a ∷ done) s

-- Whether each part between the dots is a label; `part` is the current one, backwards.
unfoldable pub labels_match : Text → Text → Bool
labels_match part [] = host_label (backwards [] part)
labels_match part (a ∷ s) =
    let others = labels_match [] s in
    let longer = labels_match (a ∷ part) s in
    if a == 46 then host_label (backwards [] part) && others else longer

-- `"\x00\r\n\t /\\%"`
abbrev pub is_refused : ℕ → Bool
is_refused c =
    (c == 0)
    || ((c == 13)
        || ((c == 10) || ((c == 9) || ((c == 32) || ((c == 47) || ((c == 92) || (c == 37)))))))

unfoldable pub valid_host : (Text → Option Addr) → Text → Bool
valid_host parse_addr host =
    not ((length host == 0) || (ltb 253 (length host) || contains_any is_refused host))
    && (is_set (parse_addr (trim_brackets host)) || labels_match [] host)
