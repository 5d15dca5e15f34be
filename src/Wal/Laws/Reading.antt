-- ===== src/Wal/Laws/Reading.antt =====
-- A reader in another region and the written part of the log.
use astra_sync.Prelude.{
  ℕ, suc, ℤ, pos, ◌≤◌, ◌<◌, ◌≡◌, refl, sym, ap, ◌∙◌, List, ◌∷◌, ◌++◌, length, All-split,
  length-append, text_eq_iff, false, max_int64, inc64, int_eq_iff, ok, arith,
}
use astra_sync.Wal.Entry.{Entry, marshal}
use astra_sync.Wal.Storage.{Store, get_object, fails, later}
use astra_sync.Wal.Writer.{Writer}
use astra_sync.Wal.Reader.{Reader, read_entry, expect, read_next}
use astra_sync.Wal.Laws.Codec.{InRange, text_size, unmarshal-marshal}
use astra_sync.Wal.Laws.Log.{Numbered-split, Written}
use astra_sync.Wal.Laws.Writing.{Logs}

-- An entry whose encoding decodes again.
abbrev pub IsReadable : Entry → Type 0
IsReadable e = InRange e × (4 ≤ text_size e)

read_entry-Written :
    (r : Reader) (s : Store) (e : Entry) (w : Written r.reader_prefix r.reader_region s e)
    → fails s ≡ false
    → IsReadable e
    → read_entry r e.sequence s ≡ (ok w.1, later s)
unfolding read_entry get_object
read_entry-Written r s e w calm good = ground (arith, unmarshal-marshal e w.0 w.1 good.0 w.2)

-- The encoded entry has the number and the region of the one that was appended.
marshal-identity :
    (e : Entry) (bytes : List ℕ) (full : Entry)
    → marshal e ≡ ok (bytes, full)
    → (full.sequence ≡ e.sequence) × (full.region ≡ e.region)
unfolding marshal
marshal-identity e bytes full h = ground arith

read_next-Written :
    (r : Reader) (s : Store) (e : Entry) (w : Written r.reader_prefix r.reader_region s e)
    → e.sequence ≡ inc64 r.last_read
    → e.region ≡ r.reader_region
    → fails s ≡ false
    → IsReadable e
    → read_next r s ≡ (ok w.1, record r { last_read = inc64 r.last_read }, later s)
unfolding read_next expect
read_next-Written r s e w seq reg calm good =
    let (same, home) = marshal-identity e w.0 w.1 w.2 in
    rw (← seq, read_entry-Written r s e w calm good)
      (ground (
        arith,
        int_eq_iff w.1.sequence e.sequence,
        text_eq_iff w.1.region r.reader_region,
        same ∙ refl,
        home ∙ reg,
      ))

-- A reader of the writer's region and prefix that has read the first `length before` entries gets the
-- next one that is written, with its checksum, and moves on by one, if the store answers and the
-- entry's texts take at least 4 bytes.
pub read_next-Logs :
    (w : Writer) (s : Store) (before rest : List Entry) (e : Entry) (r : Reader)
    → Logs w s (before ++ e ∷ rest)
    → r.reader_prefix ≡ w.wal_prefix
    → r.reader_region ≡ w.writer_region
    → r.last_read ≡ pos (length before)
    → fails s ≡ false
    → IsReadable e
    → (bytes : List ℕ) × (full : Entry) × (marshal e ≡ ok (bytes, full))
      × (read_next r s ≡ (ok full, record r { last_read = pos (suc (length before)) }, later s))
read_next-Logs w s before rest e r l sp sr here calm good =
    let es = before ++ e ∷ rest in
    let num = (Numbered-split 0 before (e ∷ rest) (Numbered-split 0 es w.pending l.numbered).0).1 in
    let local = (All-split (λ (x : Entry). x.region ≡ w.writer_region) es w.pending l.local).0 in
    let home =
      (All-split (λ (x : Entry). x.region ≡ w.writer_region) before (e ∷ rest) local).1.0 in
    let wrote =
      (All-split (Written w.wal_prefix w.writer_region s) before (e ∷ rest) l.written).1.0 in
    let mine : Written r.reader_prefix r.reader_region s e = rw (sp, sr) wrote in
    let room : length before < max_int64 =
      omega (arith, l.room, length-append es w.pending, length-append before (e ∷ rest)) in
    let following : inc64 r.last_read ≡ pos (suc (length before)) = ground (arith, here, room) in
    let read =
      read_next-Written r s e mine (num.0 ∙ ap pos (omega arith) ∙ sym following) (home ∙ sym sr)
        calm good in
    (
      mine.0,
      mine.1,
      mine.2,
      read ∙ ap (λ (n : ℤ). (ok mine.1, record r { last_read = n }, later s)) following,
    )
