-- ===== src/Auth/Laws/Decisions.antt =====
-- Which requests are authorized.
use astra_sync.Prelude.{
  Text, text_eq_iff, is_empty, true, false, not, Option, none, some, [], ◌∷◌, Result, ok,
  check-passes, >>-passes, >>=-passes, ◌≡◌, ◌↔◌, inl, inr, sym, ap, ◌∙◌, subst, arith, Map,
  text_key, at, Result-cases,
}
use astra_sync.Auth.Error.{permission_denied}
use astra_sync.Auth.Permissions.{Permission}
use astra_sync.Auth.Principal.{
  Principal, Membership, Context, matches_tenant_id, memberships_valid, with_principal, has,
  principal_from_context,
}
use astra_sync.Auth.Authorizer.{
  Decision, revision_of, active_principal, active_member, check_revision, authorize,
}

-- The revision of the policy is the one that the decision rests on, where it is checked.
abbrev pub IsCurrentRevision : Option (Text → Result Text Text) → Text → Text → Type 0
IsCurrentRevision none tenant revision = Unit {0}
IsCurrentRevision (some current) tenant revision =
    (current tenant ≡ ok revision) × (is_empty revision ≡ false)

-- What a decision says: the principal of the context is active and has an active membership of the
-- very tenant with the permission.
pub record Allowed (current : Option (Text → Result Text Text)) (who : Principal) (tenant : Text)
    (p : Permission) (d : Decision) : Type 0 where
  pub member : Membership
  pub active : who.principal_active ≡ true
  pub found : at tenant who.memberships ≡ some member
  pub of_tenant : member.member_of ≡ tenant
  pub canonical : matches_tenant_id tenant ≡ true
  pub member_active : member.membership_active ≡ true
  pub holds : has member p ≡ true
  pub fresh : IsCurrentRevision current tenant (revision_of who member)
  pub decided : d ≡ record {
    decided_principal = who;
    decided_membership = member;
    decided_tenant = tenant;
    decided_permission = p;
    decided_revision = revision_of who member;
  }

memberships-keyed :
    (ms : Map Text Membership) (tenant : Text) (m : Membership)
    → memberships_valid ms ≡ true
    → at tenant ms ≡ some m
    → (m.member_of ≡ tenant) × (matches_tenant_id tenant ≡ true)
unfolding memberships_valid at
memberships-keyed [] tenant m v h = absurd (cc)
memberships-keyed ((i, n) ∷ ms) tenant m v h =
    ground (arith, memberships-keyed ms tenant m, text_eq_iff i tenant, text_eq_iff i n.member_of)

check_revision_iff :
    (current : Option (Text → Result Text Text)) (tenant revision : Text)
    → (check_revision current tenant revision ≡ ok tt) ↔ IsCurrentRevision current tenant revision
unfolding check_revision
check_revision_iff none tenant revision = ground arith
check_revision_iff (some current) tenant revision = elim (Result-cases (current tenant)) [
  | inl (r, known) ↦ ground (arith, known, text_eq_iff r revision)
  | inr (e, failed) ↦ ground (arith, failed)
]

with_principal-ok :
    (ctx : Context) (who : Principal) (stored : Context)
    → with_principal ctx who ≡ ok stored
    → (stored ≡ some (some who)) × (memberships_valid who.memberships ≡ true)
unfolding with_principal
with_principal-ok ctx who stored h = ground arith

authorize-passes :
    (current : Option (Text → Result Text Text)) (who : Principal) (tenant : Text) (p : Permission)
    (d : Decision)
    → memberships_valid who.memberships ≡ true
    → authorize current (some (some who)) tenant p ≡ ok d
    → Allowed current who tenant p d
unfolding authorize principal_from_context
authorize-passes current who tenant p d v h =
    let (someone, is_who, h₁) = >>=-passes (active_principal (some who)) _ h in
    let (m, is_member, h₂) = >>=-passes (active_member (at tenant someone.memberships)) _ h₁ in
    let (held, h₃) = check-passes (not (has m p)) permission_denied _ h₂ in
    let (fresh, made) = >>-passes (check_revision current tenant (revision_of someone m)) _ h₃ in
    let same : someone ≡ who = ground (arith, is_who) in
    let found : at tenant who.memberships ≡ some m = ground (arith, same, is_member) in
    let keyed = memberships-keyed who.memberships tenant m v found in
    record {
      member = m;
      active = ground (arith, is_who);
      found = found;
      of_tenant = keyed.0;
      canonical = keyed.1;
      member_active = ground (arith, is_member, same, found);
      holds = ground (arith, held);
      fresh = (check_revision_iff current tenant (revision_of who m)).0 (
          ap (λ (x : Principal). check_revision current tenant (revision_of x m)) (sym same)
          ∙ fresh);
      decided = ground (arith, made, same);
    }

authorize-allows :
    (current : Option (Text → Result Text Text)) (who : Principal) (tenant : Text) (p : Permission)
    (d : Decision)
    → Allowed current who tenant p d
    → authorize current (some (some who)) tenant p ≡ ok d
unfolding authorize principal_from_context
authorize-allows current who tenant p d a =
    let fresh = (check_revision_iff current tenant (revision_of who a.member)).1 a.fresh in
    ground (arith, a.found, a.active, a.member_active, a.holds, fresh, a.decided)

-- A principal that was put into the context is authorized for a permission in a tenant exactly if it
-- is active and has an active membership of that tenant with the permission, and the revision of the
-- policy that it rests on is not empty and the current one, where that is checked; the decision names
-- all of these.
pub authorize_iff :
    (base stored : Context) (current : Option (Text → Result Text Text)) (who : Principal)
    (tenant : Text) (p : Permission) (d : Decision)
    → with_principal base who ≡ ok stored
    → (authorize current stored tenant p ≡ ok d) ↔ Allowed current who tenant p d
authorize_iff base stored current who tenant p d h =
    let (is_stored, valid) = with_principal-ok base who stored h in
    subst (λ x. (authorize current x tenant p ≡ ok d) ↔ Allowed current who tenant p d)
      (sym is_stored)
      (authorize-passes current who tenant p d valid, authorize-allows current who tenant p d)
