-- ===== src/Connection/Policy.antt =====
-- control-plane/connection/test_policy.go. What the standard library computes there is a field of
-- `Outside`: `masked_prefix` is `netip.ParsePrefix(strings.TrimSpace(s))` with `Masked().String()`,
-- and `sha256_hex` the digest of a text as `%x` prints it. `is_uuid` is github.com/google/uuid's
-- answer whether a text parses.
use astra_sync.Prelude.{
  ℕ, Text, text_eq, text_lt, codes, Bool, false, not, ◌&&◌, ◌||◌, Option, none, some, List, [], ◌∷◌,
  ◌++◌, length, ltb, ◌==◌, if◌then◌else◌, Result, ok, err, check, ◌>>◌, sort_by,
}
use astra_sync.Job.Mutation.{matches_revision}
use astra_sync.Connection.Error.{
  Error, policy_too_large, policy_invalid_cidr, policy_invalid, policy_not_canonical,
}
use astra_sync.Connection.Settings.{all_equal}

pub record Outside : Type 0 where
  pub is_uuid : Text → Bool
  pub masked_prefix : Text → Option Text
  pub sha256_hex : Text → Text

abbrev pub maximum_policy_cidrs : ℕ
maximum_policy_cidrs = 64

pub record Policy : Type 0 where
  pub revision : Text
  pub allowed_cidrs : List Text

unfoldable pub contains : Text → List Text → Bool
contains s [] = false
contains s (t ∷ ts) = text_eq t s || contains s ts

unfoldable pub join : Text → List Text → Text
join separator [] = []
join separator (s ∷ []) = s
join separator (s ∷ t ∷ ts) = s ++ (separator ++ join separator (t ∷ ts))

module _ (o : Outside) where
  -- The loop; `canonical` holds the prefixes met so far, which are also the keys of `seen`.
  unfoldable pub canonicalize : List Text → List Text → Option (List Text)
  canonicalize canonical [] = some canonical
  canonicalize canonical (v ∷ vs) = elim (o.masked_prefix v) [
    | none ↦ none
    | some p ↦ canonicalize (if contains p canonical then canonical else canonical ++ p ∷ []) vs
  ]

  unfoldable pub policy_of : List Text → Policy
  policy_of canonical =
      let sorted = sort_by text_lt canonical in
      record {
        revision =
            codes "sha256:"
            ++ o.sha256_hex
                (codes "astra-sync/test-egress-policy/v1\n" ++ join (codes "\n") sorted);
        allowed_cidrs = sorted;
      }

  unfoldable pub new_policy : List Text → Result Error Policy
  new_policy cidrs =
      check (ltb maximum_policy_cidrs (length cidrs)) policy_too_large
      >> elim (canonicalize [] cidrs) [
        | none ↦ err policy_invalid_cidr
        | some canonical ↦ ok (policy_of canonical)
      ]

  -- Whether a policy is the canonical one of its own prefixes.
  unfoldable pub is_canonical : Result Error Policy → Policy → Bool
  is_canonical (err e) p = false
  is_canonical (ok canonical) p =
      text_eq canonical.revision p.revision
      && ((length canonical.allowed_cidrs == length p.allowed_cidrs)
          && all_equal text_eq canonical.allowed_cidrs p.allowed_cidrs)

  unfoldable pub validate_policy : Policy → Result Error (Unit {0})
  validate_policy p = do
    check (not (matches_revision p.revision) || ltb maximum_policy_cidrs (length p.allowed_cidrs))
        policy_invalid
    check (not (is_canonical (new_policy p.allowed_cidrs) p)) policy_not_canonical
