-- ===== src/Prelude/Exec.antt =====
-- Code that changes a record, calls other components and may fail: the record is kept when it fails,
-- and the calls that were made are listed in their order.
use mathlib.Core.List.{List, [], ◌++◌}
use astra_sync.Prelude.Results.{Result, ok, err}

abbrev pub Exec {ℓ} : Type ℓ → Type ℓ → Type ℓ → Type ℓ → Type ℓ
Exec E S C A = S → Result E A × S × List C

-- More calls after those of `before`.
abbrev pub after_calls {ℓ} :
    {E S C B : Type ℓ} → List C → Result E B × S × List C → Result E B × S × List C
after_calls before (r, s, calls) = (r, s, before ++ calls)

module _ {ℓ} {E S C A B : Type ℓ} where
  abbrev pub continue : Result E A → S → List C → (A → Exec E S C B) → Result E B × S × List C
  continue (ok a) s calls f = after_calls calls (f a s)
  continue (err e) s calls f = (err e, s, calls)

  infixl 5 ◌>>=◌ ◌>>◌
  abbrev pub ◌>>=◌ : Exec E S C A → (A → Exec E S C B) → Exec E S C B
  ◌>>=◌ m f s = let (r, s', calls) = m s in continue r s' calls f

  abbrev pub ◌>>◌ : Exec E S C A → Exec E S C B → Exec E S C B
  m >> n = m >>= λ _. n

module _ {ℓ} {E S C A : Type ℓ} where
  abbrev pub pure : A → Exec E S C A
  pure a s = (ok a, s, [])

  abbrev pub throw : E → Exec E S C A
  throw e s = (err e, s, [])
