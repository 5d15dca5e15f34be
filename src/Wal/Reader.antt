-- ===== src/Wal/Reader.antt =====
-- The reader of control-plane/replication/wal/wal.go in a secondary region.
use astra_sync.Prelude.{
  ℕ, zero, suc, ℤ, pos, negsuc, List, [], ◌∷◌, ◌++◌, take, Text, text_eq, is_empty, not, ◌||◌,
  is_neg, int_eq, int_lt, inc64, if◌then◌else◌, Result, ok, err, ◌>>=◌,
}
use astra_sync.Wal.Entry.{Entry, WalError, gap, invalid_config, unmarshal}
use astra_sync.Wal.Keys.{entry_key, parse_sequence_from_key}
use astra_sync.Wal.Storage.{Store, get_object, list_objects}

pub record Reader : Type 0 where
  pub reader_region : Text
  pub reader_prefix : Text
  pub last_read : ℤ

unfoldable pub new_reader : Text → Text → ℤ → Result WalError Reader
new_reader region prefix resume_from =
    if is_empty region || (is_empty prefix || is_neg resume_from)
    then err invalid_config
    else ok (record { reader_region = region; reader_prefix = prefix; last_read = resume_from })

-- The entry under the key of a sequence number, if it decodes.
unfoldable pub read_entry : Reader → ℤ → Store → Result WalError Entry × Store
read_entry r sequence s =
    let (got, s') = get_object (entry_key r.reader_prefix r.reader_region sequence) s in
    (got >>= unmarshal, s')

-- The entry must be the one that was asked for.
unfoldable pub expect : Reader → ℤ → Entry → Result WalError Entry
expect r sequence e =
    if not (int_eq e.sequence sequence) || not (text_eq e.region r.reader_region)
    then err gap
    else ok e

abbrev pub advance_to : Reader → Result WalError Entry → Reader
advance_to r (err e) = r
advance_to r (ok e) = record r { last_read = e.sequence }

unfoldable pub read_next : Reader → Store → Result WalError Entry × Reader × Store
read_next r s =
    let start = inc64 r.last_read in
    let (got, s') = read_entry r start s in
    let checked = got >>= expect r start in (checked, advance_to r checked, s')

-- The sequence numbers of the keys that are due, in ascending order.
unfoldable pub due : ℤ → List Text → List ℤ
due start [] = []
due start (k ∷ ks) =
    let seq = parse_sequence_from_key k in
    let rest = due start ks in if int_lt seq start then rest else seq ∷ rest

unfoldable pub insert_int : ℤ → List ℤ → List ℤ
insert_int a [] = a ∷ []
insert_int a (b ∷ bs) = if int_lt b a then b ∷ insert_int a bs else a ∷ b ∷ bs

unfoldable pub sort_ints : List ℤ → List ℤ
sort_ints [] = []
sort_ints (a ∷ as') = insert_int a (sort_ints as')

abbrev pub and_rest :
    Entry → Result WalError (List Entry) × Store → Result WalError (List Entry) × Store
and_rest e (ok es, s) = (ok (e ∷ es), s)
and_rest e (err x, s) = (err x, s)

abbrev pub continue_batch :
    Result WalError Entry × Store
    → (Store → Result WalError (List Entry) × Store)
    → Result WalError (List Entry) × Store
continue_batch (err x, s) rest = (err x, s)
continue_batch (ok e, s) rest = and_rest e (rest s)

-- The loop over the numbers; `expected` is `startSeq + len(entries)`.
unfoldable pub read_sequences : Reader → ℤ → List ℤ → Store → Result WalError (List Entry) × Store
read_sequences r expected [] s = (ok [], s)
read_sequences r expected (seq ∷ seqs) s =
    let (got, s') = read_entry r seq s in
    if not (int_eq seq expected)
    then (err gap, s)
    else continue_batch (got >>= expect r seq, s') (read_sequences r (inc64 expected) seqs)

abbrev pub last_of : ℤ → List Entry → ℤ
last_of n [] = n
last_of n (e ∷ es) = last_of e.sequence es

abbrev pub advance_batch : Reader → Result WalError (List Entry) → Reader
advance_batch r (err e) = r
advance_batch r (ok es) = record r { last_read = last_of r.last_read es }

abbrev pub batch_of :
    Reader → ℕ → Result WalError (List Text) × Store → Result WalError (List Entry) × Store
batch_of r most (err e, s) = (err e, s)
batch_of r most (ok keys, s) =
    let start = inc64 r.last_read in
    read_sequences r start (take most (sort_ints (due start keys))) s

unfoldable pub read_batch : Reader → ℤ → Store → Result WalError (List Entry) × Reader × Store
read_batch r (negsuc n) s = (ok [], r, s)
read_batch r (pos zero) s = (ok [], r, s)
read_batch r (pos (suc n)) s =
    let prefix = r.reader_prefix ++ (47 ∷ (r.reader_region ++ 47 ∷ [])) in
    let (got, s') = batch_of r (suc n) (list_objects prefix s) in (got, advance_batch r got, s')
