-- ===== src/Connection/Laws/Policies.antt =====
-- The egress policies that NewTestEgressPolicy builds are the ones that Validate accepts.
use astra_sync.Prelude.{
  ◌+◌, ◌≤◌, Text, text_eq, text_eq_refl, text_lt, text_lt_asym, codes, is_hex, true, some, List, [],
  ◌∷◌, ◌++◌, length, length-append, ltb, ◌≡◌, inl, inr, refl, sym, subst, ap, ◌∙◌, arith, ok,
  check-passes, Option-cases, Bool-cases, all_of, All, All-append, sort_by, sort_by-IsSorted,
  sort_by-All,
}
use astra_sync.Job.Mutation.{matches_revision}
use astra_sync.Connection.Error.{policy_too_large}
use astra_sync.Connection.Policy.{
  Outside, Policy, contains, join, canonicalize, policy_of, new_policy, is_canonical,
  validate_policy, maximum_policy_cidrs,
}
use astra_sync.Connection.Laws.Prefixes.{
  sort-Distinct, append-Distinct, sort_sorted, append_nil, append_cons, Distinct-middle,
  all_equal_refl, length-sort_by, Distinct,
}

-- What the policies rely on: a masked prefix in canonical form is its own canonical form, and a digest
-- is 64 hexadecimal digits.
pub record Documented (o : Outside) : Type 0 where
  pub masked_once : (v p : Text) → o.masked_prefix v ≡ some p → o.masked_prefix p ≡ some p
  pub digest_length : (s : Text) → length (o.sha256_hex s) ≡ 64
  pub digest_hex : (s : Text) → all_of is_hex (o.sha256_hex s) ≡ true

module _ (o : Outside) where
  abbrev IsFixed : Text → Type 0
  IsFixed p = o.masked_prefix p ≡ some p

  -- What the loop collects is canonical and distinct.
  canonicalize-collects :
      Documented o
      → (seen vs out : List Text) → Distinct seen
      → All IsFixed seen
      → canonicalize o seen vs ≡ some out
      → Distinct out × All IsFixed out
  unfolding canonicalize
  canonicalize-collects doc seen [] out d f h = ground arith
  canonicalize-collects doc seen (v ∷ vs) out d f h = elim (Option-cases (o.masked_prefix v)) [
    | inl bad ↦ absurd (ground (arith, bad))
    | inr (p, good) ↦ elim (Bool-cases (contains p seen)) [
      | inl known ↦ canonicalize-collects doc seen vs out d f (ground (arith, good, known))
      | inr new ↦
          canonicalize-collects doc (seen ++ p ∷ []) vs out (append-Distinct p seen new d)
            (All-append IsFixed seen (p ∷ []) f (doc.masked_once v p good, tt))
            (ground (arith, good, new))
    ]
  ]

  -- The loop on what is canonical and distinct already only copies.
  canonicalize-copies :
      (seen vs : List Text)
      → Distinct (seen ++ vs)
      → All IsFixed vs
      → canonicalize o seen vs ≡ some (seen ++ vs)
  unfolding canonicalize
  canonicalize-copies seen [] d f = ap some (sym (append_nil seen))
  canonicalize-copies seen (v ∷ vs) d f =
      let rest : Distinct ((seen ++ v ∷ []) ++ vs) =
        subst Distinct (sym (append_cons seen v vs)) d in
      ground (
        arith,
        f.0,
        Distinct-middle seen v vs d,
        canonicalize-copies (seen ++ v ∷ []) vs rest f.1,
        append_cons seen v vs,
      )

  length-canonicalize :
      (seen vs out : List Text)
      → canonicalize o seen vs ≡ some out
      → length out ≤ length seen + length vs
  unfolding canonicalize
  length-canonicalize seen [] out h = ground arith
  length-canonicalize seen (v ∷ vs) out h = elim (Option-cases (o.masked_prefix v)) [
    | inl bad ↦ absurd (ground (arith, bad))
    | inr (p, good) ↦ elim (Bool-cases (contains p seen)) [
      | inl known ↦ ground (arith, length-canonicalize seen vs out (ground (arith, good, known)))
      | inr new ↦ ground (
        arith,
        length-canonicalize (seen ++ p ∷ []) vs out (ground (arith, good, new)),
        length-append seen (p ∷ []),
      )
    ]
  ]

  revision-matches :
      Documented o → (s : Text) → matches_revision (codes "sha256:" ++ o.sha256_hex s) ≡ true
  unfolding matches_revision text_eq
  revision-matches doc s = rw (doc.digest_length s, doc.digest_hex s) refl

  accepts-canonical :
      (p : Policy)
      → matches_revision p.revision ≡ true
      → length p.allowed_cidrs ≤ maximum_policy_cidrs
      → new_policy o p.allowed_cidrs ≡ ok p
      → validate_policy o p ≡ ok tt
  unfolding validate_policy is_canonical
  accepts-canonical p m l h =
      ground (arith, text_eq_refl p.revision, all_equal_refl p.allowed_cidrs)

  -- The policy of prefixes in their order.
  abbrev with_cidrs : List Text → Policy
  with_cidrs ss = record {
    revision =
        codes "sha256:"
        ++ o.sha256_hex (codes "astra-sync/test-egress-policy/v1\n" ++ join (codes "\n") ss);
    allowed_cidrs = ss;
  }

  new_policy-again :
      (ss : List Text)
      → canonicalize o [] ss ≡ some ss
      → length ss ≤ maximum_policy_cidrs
      → new_policy o ss ≡ ok (with_cidrs (sort_by text_lt ss))
  unfolding new_policy policy_of
  new_policy-again ss copied bounded = ground (arith, copied)

  -- A policy that NewTestEgressPolicy builds is accepted by Validate, whatever texts it is built from,
  -- if masking a masked prefix changes nothing and a digest is 64 hexadecimal digits.
  pub new_policy-validates :
      Documented o
      → (cidrs : List Text) (p : Policy) → new_policy o cidrs ≡ ok p
      → validate_policy o p ≡ ok tt
  unfolding new_policy policy_of
  new_policy-validates doc cidrs p h =
      let (few, h₁) = check-passes (ltb maximum_policy_cidrs (length cidrs)) policy_too_large _ h in
      elim (Option-cases (canonicalize o [] cidrs)) [
        | inl bad ↦ absurd (ground (arith, bad))
        | inr (out, good) ↦
            let (distinct, fixed) = canonicalize-collects doc [] cidrs out tt tt good in
            let ss = sort_by text_lt out in
            let is_p : p ≡ policy_of o out = ground (arith, good) in
            let copied =
              canonicalize-copies [] ss (sort-Distinct out distinct)
                (sort_by-All text_lt IsFixed out fixed) in
            let sorted = sort_sorted ss (sort_by-IsSorted text_lt text_lt_asym out) in
            let bounded : length ss ≤ maximum_policy_cidrs =
              ground (arith, length-sort_by out, length-canonicalize [] cidrs out good) in
            subst (λ q. validate_policy o q ≡ ok tt) (sym is_p)
              (accepts-canonical (policy_of o out) (revision-matches doc _) bounded
                (new_policy-again ss copied bounded ∙ ap (λ q. ok (with_cidrs q)) sorted))
      ]
