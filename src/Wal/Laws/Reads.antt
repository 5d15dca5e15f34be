-- ===== src/Wal/Laws/Reads.antt =====
-- What the decoder has read, where it goes on: the bytes as the encoder would have written them.
use mathlib.Core.List.{append_assoc}
use native.Mathlib.Nat.{pow-suc}
use astra_sync.Prelude.{
  ℕ, ◌^◌, ◌<◌, ◌≡◌, sym, ap₂, ◌∙◌, subst, List, [], ◌∷◌, ◌++◌, length, length-take, take, drop,
  take-append-drop, Text, ok, arith, >>=-passes,
}
use astra_sync.Wal.Bytes.{put_uint, get_uint, put_uint-get_uint, AreBytes}
use astra_sync.Wal.Entry.{WalError, unix_nano, from_unix_nano, put_text, read_uint, cut, read_text}

pub AreBytes-append : (xs ys : List ℕ) → AreBytes (xs ++ ys) → AreBytes xs × AreBytes ys
AreBytes-append [] ys h = (tt, h)
AreBytes-append (x ∷ xs) ys h = let (p, q) = AreBytes-append xs ys h.1 in ((h.0, p), q)

pub get_uint-lt : (bs : List ℕ) → AreBytes bs → get_uint bs < 256 ^ length bs
unfolding get_uint
get_uint-lt [] h = omega arith
get_uint-lt (b ∷ bs) h = omega (arith, get_uint-lt bs h.1, pow-suc 256 (length bs))

-- What a successful read says of its input.
pub record Read (width : ℕ) (input : List ℕ) (x : ℕ) (rest : List ℕ) : Type 0 where
  pub split : input ≡ put_uint width x ++ rest
  pub rest_bytes : AreBytes rest
  pub fits : x < 256 ^ width

pub read_uint-ok :
    (width : ℕ) (input : List ℕ) (x : ℕ) (rest : List ℕ)
    → read_uint width input ≡ ok (x, rest)
    → (front : List ℕ) × (front ++ rest ≡ input) × (length front ≡ width) × (x ≡ get_uint front)
unfolding read_uint
read_uint-ok width input x rest h = (
  take width input,
  ground (arith, take-append-drop width input),
  ground (arith, length-take width input),
  ground arith,
)

pub Read-append :
    (front rest : List ℕ)
    → AreBytes (front ++ rest)
    → Read (length front) (front ++ rest) (get_uint front) rest
Read-append front rest bytes =
    let (fb, rb) = AreBytes-append front rest bytes in
    record { split = rw (put_uint-get_uint front fb); rest_bytes = rb; fits = get_uint-lt front fb }

pub read_uint-Read :
    (width : ℕ) (input : List ℕ) (x : ℕ) (rest : List ℕ)
    → AreBytes input
    → read_uint width input ≡ ok (x, rest)
    → Read width input x rest
read_uint-Read width input x rest bytes h =
    let (front, whole, size, same) = read_uint-ok width input x rest h in
    rw (← size, same, ← whole) (Read-append front rest (subst AreBytes (sym whole) bytes))

pub record ReadText (input : List ℕ) (s : Text) (rest : List ℕ) : Type 0 where
  pub text_split : input ≡ put_text s ++ rest
  pub text_rest_bytes : AreBytes rest
  pub text_fits : length s < 2 ^ 32

pub ReadText-parts :
    (input : List ℕ) (size : ℕ) (after : List ℕ) (s : Text) (rest : List ℕ)
    → Read 4 input size after
    → length s ≡ size
    → s ++ rest ≡ after
    → ReadText input s rest
unfolding put_text
ReadText-parts input size after s rest r long whole = record {
  text_split = rw (append_assoc, long, whole) r.split;
  text_rest_bytes = (AreBytes-append s rest (rw whole r.rest_bytes)).1;
  text_fits = omega (arith, r.fits, long);
}

-- Where the length is at hand, the text and the rest make up what is left.
pub cut-ok :
    (truncated : WalError) (size : ℕ) (after : List ℕ) (s : Text) (rest : List ℕ)
    → cut truncated size after ≡ ok (s, rest)
    → (length s ≡ size) × (s ++ rest ≡ after)
unfolding cut
cut-ok truncated size after s rest h =
    let text : take size after ≡ s = ground arith in
    let left : drop size after ≡ rest = ground arith in
    (
      rw (← text) (ground (arith, length-take size after)),
      ap₂ ◌++◌ (sym text) (sym left) ∙ take-append-drop size after,
    )

pub read_text-ReadText :
    (truncated : WalError) (input : List ℕ) (s : Text) (rest : List ℕ)
    → AreBytes input
    → read_text truncated input ≡ ok (s, rest)
    → ReadText input s rest
unfolding read_text
read_text-ReadText truncated input s rest bytes h =
    let ((size, after), good, more) = >>=-passes (read_uint 4 input) _ h in
    let (long, whole) = cut-ok truncated size after s rest more in
    ReadText-parts input size after s rest (read_uint-Read 4 input size after bytes good) long whole

pub unix_nano-from_unix_nano : (x : ℕ) → x < 18446744073709551616 → unix_nano (from_unix_nano x) ≡ x
unfolding unix_nano from_unix_nano
unix_nano-from_unix_nano x h = ground arith
