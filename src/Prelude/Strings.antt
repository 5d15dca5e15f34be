-- ===== src/Prelude/Strings.antt =====
-- Go strings as lists of bytes: equality, prefixes, blankness (`strings.TrimSpace(s) == ""`) and
-- the character classes of the repository's regular expressions.
use Prim.Native.Nat.{ℕ, zero, suc, ◌-◌}
use Prim.Native.Char.{code}
use Prim.Native.String.{String}
use mathlib.Core.Path.{◌≡◌, refl}
use mathlib.Core.Logic.{◌↔◌}
use mathlib.Core.Bool.{Bool, true, false, ◌&&◌, ◌||◌}
use mathlib.Core.List.{List, [], ◌∷◌}
use native.Mathlib.Omega.{arith}
use astra_sync.Prelude.Tests.{leb, ltb, ◌==◌, if◌then◌else◌}

abbrev pub Text : Type 0
Text = List ℕ

-- The bytes of an ASCII literal.
abbrev pub codes : String → Text
codes String.[] = []
codes (String.◌∷◌ c s) = code c ∷ codes s

unfoldable pub text_eq : Text → Text → Bool
text_eq [] [] = true
text_eq (a ∷ s) (b ∷ t) = (a == b) && text_eq s t
text_eq _ _ = false

pub text_eq_iff : (s t : Text) → (text_eq s t ≡ true) ↔ (s ≡ t)
unfolding text_eq
text_eq_iff [] [] = ground arith
text_eq_iff [] (b ∷ t) = ground arith
text_eq_iff (a ∷ s) [] = ground arith
text_eq_iff (a ∷ s) (b ∷ t) = ground (arith, text_eq_iff s t)

pub text_eq_refl : (s : Text) → text_eq s s ≡ true
text_eq_refl s = (text_eq_iff s s).1 refl

abbrev pub is_empty : Text → Bool
is_empty [] = true
is_empty (a ∷ s) = false

abbrev is_ascii_space : ℕ → Bool
is_ascii_space c = (leb 9 c && leb c 13) || (c == 32)

abbrev two_byte_space : ℕ → ℕ → Bool
two_byte_space a b = (a == 0xc2) && ((b == 0x85) || (b == 0xa0))

-- U+1680, U+2000 to U+200A, U+2028, U+2029, U+202F, U+205F and U+3000.
abbrev three_byte_space : ℕ → ℕ → ℕ → Bool
three_byte_space a b c =
    ((a == 0xe1) && ((b == 0x9a) && (c == 0x80)))
    || (((a == 0xe2)
          && ((b == 0x80)
              && ((leb 0x80 c && leb c 0x8a) || ((c == 0xa8) || ((c == 0xa9) || (c == 0xaf))))))
        || (((a == 0xe2) && ((b == 0x81) && (c == 0x9f)))
            || ((a == 0xe3) && ((b == 0x80) && (c == 0x80)))))

-- How many bytes the white space at the head of a text takes; 0 if the head is no space.
unfoldable pub space_width : Text → ℕ
space_width [] = 0
space_width (a ∷ []) = if is_ascii_space a then 1 else 0
space_width (a ∷ b ∷ []) = if is_ascii_space a then 1 else (if two_byte_space a b then 2 else 0)
space_width (a ∷ b ∷ c ∷ s) =
    if is_ascii_space a
    then 1
    else (if two_byte_space a b then 2 else (if three_byte_space a b c then 3 else 0))

-- `skip` counts the bytes of a space that are still to pass over.
blank_after : ℕ → Text → Bool
blank_after skip [] = true
blank_after (suc skip) (a ∷ s) = blank_after skip s
blank_after zero (a ∷ s) =
    let width = space_width (a ∷ s) in
    let rest = blank_after (width - 1) s in if width == 0 then false else rest

-- `strings.TrimSpace(s) == ""`: every character is white space.
unfoldable pub is_blank : Text → Bool
unfolding space_width blank_after
is_blank s = blank_after 0 s

-- `[a-z0-9]`
abbrev pub is_alnum : ℕ → Bool
is_alnum c = (leb 97 c && leb c 122) || (leb 48 c && leb c 57)

-- The rest of a text after its first character: all in `inner`, the last one alphanumeric.
ends_well : (ℕ → Bool) → ℕ → Text → Bool
ends_well inner a [] = is_alnum a
ends_well inner a (b ∷ s) = (is_alnum a || inner a) && ends_well inner b s

-- `^[a-z0-9](?:INNER*[a-z0-9])?$`, where the class INNER holds `[a-z0-9]` and what `inner` accepts.
unfoldable pub is_label : (ℕ → Bool) → Text → Bool
unfolding ends_well
is_label inner [] = false
is_label inner (a ∷ s) = is_alnum a && ends_well inner a s

-- `[0-9a-f]`
abbrev pub is_hex : ℕ → Bool
is_hex c = (leb 48 c && leb c 57) || (leb 97 c && leb c 102)

pub is_blank-nil : is_blank [] ≡ true
unfolding is_blank
is_blank-nil = refl

-- `string` comparison: bytes from the left, and a prefix comes first.
unfoldable pub text_lt : Text → Text → Bool
text_lt [] [] = false
text_lt [] (b ∷ t) = true
text_lt (a ∷ s) [] = false
text_lt (a ∷ s) (b ∷ t) = ltb a b || ((a == b) && text_lt s t)

pub text_lt_asym : (s t : Text) → text_lt s t ≡ true → text_lt t s ≡ false
unfolding text_lt
text_lt_asym [] [] h = refl
text_lt_asym [] (b ∷ t) h = refl
text_lt_asym (a ∷ s) [] h = cc
text_lt_asym (a ∷ s) (b ∷ t) h = ground (arith, text_lt_asym s t)
