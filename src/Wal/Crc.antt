-- ===== src/Wal/Crc.antt =====
-- `crc32.Checksum(data, crc32.MakeTable(crc32.Castagnoli))`: the reflected CRC-32C, bit by bit where
-- the library uses a table.
use Prim.Native.Nat.{bit_xor}
use astra_sync.Prelude.{
  ℕ, zero, suc, ◌/◌, ◌%◌, ◌<◌, ◌≡◌, refl, List, [], ◌∷◌, arith, if◌then◌else◌, ◌==◌, codes,
}

abbrev castagnoli : ℕ
castagnoli = 0x82f63b78

abbrev all_ones : ℕ
all_ones = 0xffffffff

shift_bits : ℕ → ℕ → ℕ
shift_bits zero crc = crc
shift_bits (suc n) crc =
    shift_bits n (if crc % 2 == 1 then bit_xor (crc / 2) castagnoli else crc / 2)

update_crc : ℕ → List ℕ → ℕ
unfolding shift_bits
update_crc crc [] = crc
update_crc crc (b ∷ bs) = update_crc (shift_bits 8 (bit_xor crc b)) bs

unfoldable pub checksum : List ℕ → ℕ
unfolding update_crc
checksum bs = bit_xor (update_crc all_ones bs) all_ones % 4294967296

pub checksum-lt : (bs : List ℕ) → checksum bs < 4294967296
unfolding checksum
checksum-lt bs = omega arith

-- The check value of CRC-32C.
check_value : checksum (codes "123456789") ≡ 0xe3069283
unfolding checksum
check_value = refl
