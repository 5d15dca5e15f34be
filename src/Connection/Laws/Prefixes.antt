-- ===== src/Connection/Laws/Prefixes.antt =====
-- Lists of distinct prefixes, sorted and joined.
use astra_sync.Prelude.{
  suc, Text, text_eq, text_eq_iff, text_eq_refl, text_lt, true, false, ◌||◌, List, [], ◌∷◌, ◌++◌,
  length, ◌≡◌, refl, ap, ◌∙◌, arith, sort_by, insert_by, IsSorted,
}
use astra_sync.Connection.Settings.{all_equal}
use astra_sync.Connection.Policy.{contains}

-- No two are the same.
abbrev pub Distinct : List Text → Type 0
Distinct [] = Unit {0}
Distinct (s ∷ ss) = (contains s ss ≡ false) × Distinct ss

pub contains-insert :
    (s t : Text) (ss : List Text)
    → contains s (insert_by text_lt t ss) ≡ (text_eq t s || contains s ss)
unfolding contains insert_by
contains-insert s t [] = ground arith
contains-insert s t (u ∷ ss) = ground (arith, contains-insert s t ss)

pub contains-append :
    (s t : Text) (ss : List Text) → contains s (ss ++ t ∷ []) ≡ (contains s ss || text_eq t s)
unfolding contains
contains-append s t [] = ground arith
contains-append s t (u ∷ ss) = ground (arith, contains-append s t ss)

pub insert-Distinct :
    (t : Text) (ss : List Text)
    → contains t ss ≡ false
    → Distinct ss
    → Distinct (insert_by text_lt t ss)
unfolding contains insert_by
insert-Distinct t [] h d = ground arith
insert-Distinct t (u ∷ ss) h d =
    ground (arith, contains-insert u t ss, insert-Distinct t ss, text_eq_iff t u, text_eq_iff u t)

pub contains-sort : (s : Text) (ss : List Text) → contains s (sort_by text_lt ss) ≡ contains s ss
unfolding sort_by contains
contains-sort s [] = refl
contains-sort s (t ∷ ss) =
    ground (arith, contains-insert s t (sort_by text_lt ss), contains-sort s ss)

pub sort-Distinct : (ss : List Text) → Distinct ss → Distinct (sort_by text_lt ss)
unfolding sort_by
sort-Distinct [] d = tt
sort-Distinct (t ∷ ss) d =
    insert-Distinct t (sort_by text_lt ss) (contains-sort t ss ∙ d.0) (sort-Distinct ss d.1)

pub append-Distinct :
    (t : Text) (ss : List Text) → contains t ss ≡ false → Distinct ss → Distinct (ss ++ t ∷ [])
unfolding contains
append-Distinct t [] h d = ground arith
append-Distinct t (u ∷ ss) h d =
    ground (arith, contains-append u t ss, append-Distinct t ss, text_eq_iff t u, text_eq_iff u t)

-- Sorting what is sorted changes nothing.
pub sort_sorted : (ss : List Text) → IsSorted text_lt ss → sort_by text_lt ss ≡ ss
unfolding sort_by insert_by
sort_sorted [] s = refl
sort_sorted (t ∷ []) s = refl
sort_sorted (t ∷ u ∷ ss) s = ground (arith, sort_sorted (u ∷ ss))

pub append_nil : (ss : List Text) → ss ++ [] ≡ ss
append_nil [] = refl
append_nil (s ∷ ss) = ap (◌∷◌ s) (append_nil ss)

pub append_cons : (ss : List Text) (t : Text) (ts : List Text) → (ss ++ t ∷ []) ++ ts ≡ ss ++ t ∷ ts
append_cons [] t ts = refl
append_cons (s ∷ ss) t ts = ap (◌∷◌ s) (append_cons ss t ts)

pub contains-middle :
    (s t : Text) (ss ts : List Text) → contains s (ss ++ t ∷ ts) ≡ false → text_eq t s ≡ false
unfolding contains
contains-middle s t [] ts h = ground arith
contains-middle s t (u ∷ ss) ts h = ground (arith, contains-middle s t ss ts)

pub Distinct-middle :
    (ss : List Text) (t : Text) (ts : List Text) → Distinct (ss ++ t ∷ ts) → contains t ss ≡ false
unfolding contains
Distinct-middle [] t ts d = refl
Distinct-middle (s ∷ ss) t ts d = ground (
  arith,
  contains-middle s t ss ts d.0,
  Distinct-middle ss t ts d.1,
  text_eq_iff s t,
  text_eq_iff t s,
)

pub all_equal_refl : (ss : List Text) → all_equal text_eq ss ss ≡ true
unfolding all_equal
all_equal_refl [] = refl
all_equal_refl (s ∷ ss) = ground (arith, text_eq_refl s, all_equal_refl ss)

pub length-insert_by :
    (t : Text) (ss : List Text) → length (insert_by text_lt t ss) ≡ suc (length ss)
unfolding insert_by
length-insert_by t [] = refl
length-insert_by t (s ∷ ss) = ground (arith, length-insert_by t ss)

pub length-sort_by : (ss : List Text) → length (sort_by text_lt ss) ≡ length ss
unfolding sort_by
length-sort_by [] = refl
length-sort_by (s ∷ ss) = ground (arith, length-insert_by s (sort_by text_lt ss), length-sort_by ss)
