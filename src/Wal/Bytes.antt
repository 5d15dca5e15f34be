-- ===== src/Wal/Bytes.antt =====
-- `binary.LittleEndian`: fixed-width unsigned numbers as bytes, least significant first.
use native.Mathlib.Nat.{pow-suc}
use astra_sync.Prelude.{
  ℕ, zero, suc, ◌+◌, ◌*◌, ◌/◌, ◌%◌, ◌^◌, ◌<◌, ◌≡◌, refl, List, [], ◌∷◌, length, arith, ap,
}

-- `PutUint32` for 4 bytes and `PutUint64` for 8: what does not fit is cut off.
unfoldable pub put_uint : ℕ → ℕ → List ℕ
put_uint zero x = []
put_uint (suc width) x = (x % 256) ∷ put_uint width (x / 256)

unfoldable pub get_uint : List ℕ → ℕ
get_uint [] = 0
get_uint (b ∷ bs) = b + 256 * get_uint bs

pub length-put_uint : (width x : ℕ) → length (put_uint width x) ≡ width
unfolding put_uint
length-put_uint zero x = refl
length-put_uint (suc width) x = ap suc (length-put_uint width (x / 256))

pub get_uint-put_uint : (width x : ℕ) → x < 256 ^ width → get_uint (put_uint width x) ≡ x
unfolding put_uint get_uint
get_uint-put_uint zero x h = omega arith
get_uint-put_uint (suc width) x h =
    omega (arith, get_uint-put_uint width (x / 256) (omega (arith, pow-suc 256 width)))

-- A list of bytes.
abbrev pub AreBytes : List ℕ → Type 0
AreBytes [] = Unit {0}
AreBytes (b ∷ bs) = (b < 256) × AreBytes bs

pub put_uint-get_uint : (bs : List ℕ) → AreBytes bs → put_uint (length bs) (get_uint bs) ≡ bs
unfolding put_uint get_uint
put_uint-get_uint [] h = refl
put_uint-get_uint (b ∷ bs) h =
    let low : (b + 256 * get_uint bs) % 256 ≡ b = omega arith in
    let high : (b + 256 * get_uint bs) / 256 ≡ get_uint bs = omega arith in
    rw (low, high, put_uint-get_uint bs h.1)
