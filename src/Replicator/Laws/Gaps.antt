-- ===== src/Replicator/Laws/Gaps.antt =====
-- The check that `Run` makes of the entries of one read.
use astra_sync.Prelude.{
  ℤ, ◌≡◌, ◌↔◌, List, [], ◌∷◌, true, false, none, some, int_eq_iff, int_lt, inc64, arith,
}
use astra_sync.Replicator.Send.{LogEntry}
use astra_sync.Replicator.Loop.{has_gap}

-- Each entry has the number after that of the one before it.
abbrev pub Consecutive : List LogEntry → Type 0
Consecutive [] = Unit {0}
Consecutive (e ∷ []) = Unit {0}
Consecutive (e ∷ f ∷ es) = (f.log_sequence ≡ inc64 e.log_sequence) × Consecutive (f ∷ es)

abbrev pub AllAfter : ℤ → List LogEntry → Type 0
AllAfter n [] = Unit {0}
AllAfter n (e ∷ es) = (int_lt n e.log_sequence ≡ true) × AllAfter n es

has_gap-after :
    (since : ℤ) (e : LogEntry) (es : List LogEntry)
    → (has_gap since (some e.log_sequence) es ≡ false) ↔ (AllAfter since es × Consecutive (e ∷ es))
unfolding has_gap
has_gap-after since e [] = ground arith
has_gap-after since e (f ∷ es) =
    ground (arith, has_gap-after since f es, int_eq_iff f.log_sequence (inc64 e.log_sequence))

-- The check passes exactly if all entries are after the last one that is done and follow one another
-- without a gap; between the last one that is done and the first entry it allows a gap.
pub has_gap_iff :
    (since : ℤ) (es : List LogEntry)
    → (has_gap since none es ≡ false) ↔ (AllAfter since es × Consecutive es)
unfolding has_gap
has_gap_iff since [] = ground arith
has_gap_iff since (e ∷ es) = ground (arith, has_gap-after since e es)
