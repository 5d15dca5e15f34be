-- ===== src/Wal/Laws/Batches.antt =====
-- What `ReadBatch` returns, whatever the store holds.
use astra_sync.Prelude.{
  ℕ, zero, suc, ℤ, pos, ◌≤◌, ◌≡◌, ◌⊎◌, refl, sym, ap, ◌∙◌, subst, List, [], ◌∷◌, length,
  length-take, take, ◌++◌, Text, text_eq_iff, Bool, true, false, not, int_eq, int_eq_iff, inc64,
  Result, ok, err, ◌>>=◌, Result-cases, >>=-passes, if◌then◌else◌, inl, inr, arith,
}
use astra_sync.Wal.Entry.{Entry, WalError, gap}
use astra_sync.Wal.Storage.{Store, list_objects}
use astra_sync.Wal.Reader.{
  Reader, read_entry, expect, read_sequences, read_batch, sort_ints, due, last_of, and_rest,
  continue_batch, advance_batch, batch_of,
}

-- Entries of one region that follow a sequence number without a gap.
abbrev pub Follows : Text → ℤ → List Entry → Type 0
Follows region n [] = Unit {0}
Follows region n (e ∷ es) =
    (e.sequence ≡ inc64 n) × (e.region ≡ region) × Follows region e.sequence es

expect-ok :
    (r : Reader) (sequence : ℤ) (e f : Entry)
    → expect r sequence e ≡ ok f
    → (f.sequence ≡ sequence) × (f.region ≡ r.reader_region)
unfolding expect
expect-ok r sequence e f h =
    ground (arith, int_eq_iff e.sequence sequence, text_eq_iff e.region r.reader_region)

and_rest-ok :
    (e : Entry) (out : Result WalError (List Entry) × Store) (es : List Entry)
    → (and_rest e out).0 ≡ ok es
    → (more : List Entry) × (out.0 ≡ ok more) × (es ≡ e ∷ more)
and_rest-ok e (ok more, s) es h = (more, refl, ground arith)
and_rest-ok e (err x, s) es h = absurd (cc)

continue_batch-ok :
    (got : Result WalError Entry × Store) (rest : Store → Result WalError (List Entry) × Store)
    (es : List Entry)
    → (continue_batch got rest).0 ≡ ok es
    → (e : Entry) × (more : List Entry) × (got.0 ≡ ok e)
      × ((rest got.1).0 ≡ ok more)
      × (es ≡ e ∷ more)
continue_batch-ok (err x, s) rest es h = absurd (cc)
continue_batch-ok (ok e, s) rest es h =
    let (more, read, same) = and_rest-ok e (rest s) es h in (e, more, refl, read, same)

unless_gap :
    (b : Bool) (x : WalError) (s : Store) (y : Result WalError (List Entry) × Store)
    (es : List Entry)
    → (if not b then (err x, s) else y).0 ≡ ok es
    → (b ≡ true) × (y.0 ≡ ok es)
unless_gap true x s y es h = (refl, h)
unless_gap false x s y es h = absurd (cc)

read_sequences-Follows :
    (r : Reader) (n : ℤ) (seqs : List ℤ) (s : Store) (es : List Entry)
    → (read_sequences r (inc64 n) seqs s).0 ≡ ok es
    → Follows r.reader_region n es × (length es ≤ length seqs)
unfolding read_sequences
read_sequences-Follows r n [] s es h = ground arith
read_sequences-Follows r n (seq ∷ seqs) s es h =
    let got = read_entry r seq s in
    let (same, going) = unless_gap (int_eq seq (inc64 n)) gap s _ es h in
    let (e, more, checked, rest, whole) =
      continue_batch-ok (got.0 >>= expect r seq, got.1) (read_sequences r (inc64 (inc64 n)) seqs) es
        going in
    let (raw, read, expected) = >>=-passes got.0 (expect r seq) checked in
    let (numbered, local) = expect-ok r seq raw e expected in
    let (follows, short) = read_sequences-Follows r (inc64 n) seqs got.1 more rest in
    let here : e.sequence ≡ inc64 n = numbered ∙ (int_eq_iff seq (inc64 n)).0 same in
    rw whole
      ((here, local, subst (λ k. Follows r.reader_region k more) (sym here) follows), omega arith)

batch_of-Follows :
    (r : Reader) (most : ℕ) (listed : Result WalError (List Text) × Store) (es : List Entry)
    → (batch_of r most listed).0 ≡ ok es
    → Follows r.reader_region r.last_read es × (length es ≤ most)
batch_of-Follows r most (err x, s) es h = absurd (cc)
batch_of-Follows r most (ok keys, s) es h =
    let seqs = sort_ints (due (inc64 r.last_read) keys) in
    let (follows, short) = read_sequences-Follows r r.last_read (take most seqs) s es h in
    (follows, omega (arith, length-take most seqs))

-- A batch that is returned holds at most as many entries as were asked for, all of the reader's region,
-- which follow the last one that was read without a gap; the reader has then read the last of them. An
-- error leaves the reader as it was.
pub read_batch-Follows :
    (r : Reader) (most : ℕ) (s : Store)
    → let (got, after, s') = read_batch r (pos most) s in
      ((x : WalError) × (got ≡ err x) × (after ≡ r))
      ⊎ ((es : List Entry) × (got ≡ ok es)
          × Follows r.reader_region r.last_read es
          × (length es ≤ most)
          × (after ≡ record r { last_read = last_of r.last_read es }))
unfolding read_batch
read_batch-Follows r zero s = inr ([], refl, tt, omega arith, refl)
read_batch-Follows r (suc n) s =
    let listed = list_objects (r.reader_prefix ++ (47 ∷ (r.reader_region ++ 47 ∷ []))) s in
    let batch = batch_of r (suc n) listed in
    elim (Result-cases batch.0) [
      | inr (x, failed) ↦ inl (x, failed, ap (advance_batch r) failed)
      | inl (es, read) ↦
          let (follows, short) = batch_of-Follows r (suc n) listed es read in
          inr (es, read, follows, short, ap (advance_batch r) read)
    ]
