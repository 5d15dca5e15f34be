-- ===== src/Wal/Storage.antt =====
-- The interface `ObjectStorage`: a map from keys to bytes whose calls may fail. `faults` says of the
-- calls to come which ones fail; a failed call changes no object. Past its end no call fails.
use astra_sync.Prelude.{
  ℕ, List, [], ◌∷◌, Text, text_eq, Bool, true, false, ◌&&◌, ◌||◌, not, ◌==◌, Option, none, some,
  if◌then◌else◌, Result, ok, err,
}
use astra_sync.Wal.Entry.{WalError, store_failed, object_missing}

pub record Store : Type 0 where
  pub objects : List (Text × List ℕ)
  pub faults : List Bool

unfoldable pub find_object : Text → List (Text × List ℕ) → Option (List ℕ)
find_object k [] = none
find_object k ((i, d) ∷ m) = if text_eq i k then some d else find_object k m

abbrev pub fails : Store → Bool
fails s = elim (s.faults) [ [] ↦ false | b ∷ more ↦ b ]

-- The store after a call that leaves its objects alone.
abbrev pub later : Store → Store
later s = record s { faults = elim (s.faults) [ [] ↦ [] | b ∷ more ↦ more ] }

unfoldable pub put_object : Text → List ℕ → Store → Result WalError (Unit {0}) × Store
put_object k d s =
    if fails s
    then (err store_failed, later s)
    else (ok tt, record (later s) { objects = (k, d) ∷ s.objects })

abbrev or_missing : Option (List ℕ) → Result WalError (List ℕ)
or_missing none = err object_missing
or_missing (some d) = ok d

unfoldable pub get_object : Text → Store → Result WalError (List ℕ) × Store
get_object k s =
    (if fails s then err store_failed else or_missing (find_object k s.objects), later s)

unfoldable pub has_prefix : Text → Text → Bool
has_prefix [] s = true
has_prefix (a ∷ p) [] = false
has_prefix (a ∷ p) (b ∷ s) = (a == b) && has_prefix p s

-- Each key once: an older write under the same key stands further down and is hidden.
unfoldable pub known_key : Text → List Text → Bool
known_key k [] = false
known_key k (i ∷ is) = text_eq i k || known_key k is

unfoldable pub keys_under : Text → List (Text × List ℕ) → List Text
keys_under p [] = []
keys_under p ((k, d) ∷ m) =
    let rest = keys_under p m in if has_prefix p k && not (known_key k rest) then k ∷ rest else rest

unfoldable pub list_objects : Text → Store → Result WalError (List Text) × Store
list_objects p s = (if fails s then err store_failed else ok (keys_under p s.objects), later s)
