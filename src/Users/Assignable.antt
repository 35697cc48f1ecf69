-- ===== src/Users/Assignable.antt =====
-- The roles that an administrator can give, `Exclude<Role, Role.SYSTEM>` of
-- apps/user-service/src/common/enums/role.enum.ts.
use mathlib.Core.Equiv.{Iso, iso_to_equiv}
use std.Path.{transport}
use std.Univalence.{ua, ua-β}
use oneandro_clone.Prelude.{◌≡◌, ◌≢◌, refl, sym, ap, ◌∙◌, ◌↔◌, some}
use oneandro_clone.Common.{Role, applicant, loan_officer, underwriter, admin, system}
use oneandro_clone.Common.Validation.{Validators, member_of, member_of_sound}
use oneandro_clone.Users.{
  AssignableRole, as_applicant, as_loan_officer, as_underwriter, as_admin, role_of,
}
use oneandro_clone.Users.Bodies.{role_text, assignable_roles, assignable_role_of}

-- The roles but SYSTEM.
abbrev pub Excluded : Type 0
Excluded = (r : Role) × (r ≢ system)

excluded-IsProp : (r : Role) → IsProp (r ≢ system)
excluded-IsProp r = hlevel

excluded : AssignableRole → Excluded
excluded as_applicant = (applicant, λ h. cc)
excluded as_loan_officer = (loan_officer, λ h. cc)
excluded as_underwriter = (underwriter, λ h. cc)
excluded as_admin = (admin, λ h. cc)

assigned : (r : Role) → r ≢ system → AssignableRole
assigned applicant h = as_applicant
assigned loan_officer h = as_loan_officer
assigned underwriter h = as_underwriter
assigned admin h = as_admin
assigned system h = absurd (h refl)

excluded-assigned : (e : Excluded) → excluded (assigned e.0 e.1) ≡ e
unfolding excluded assigned
excluded-assigned (applicant, h) = ap (λ q. (applicant, q)) (excluded-IsProp applicant _ h)
excluded-assigned (loan_officer, h) = ap (λ q. (loan_officer, q)) (excluded-IsProp loan_officer _ h)
excluded-assigned (underwriter, h) = ap (λ q. (underwriter, q)) (excluded-IsProp underwriter _ h)
excluded-assigned (admin, h) = ap (λ q. (admin, q)) (excluded-IsProp admin _ h)
excluded-assigned (system, h) = absurd (h refl)

assigned-excluded : (a : AssignableRole) → assigned (excluded a).0 (excluded a).1 ≡ a
unfolding excluded assigned
assigned-excluded as_applicant = refl
assigned-excluded as_loan_officer = refl
assigned-excluded as_underwriter = refl
assigned-excluded as_admin = refl

abbrev roles : Iso AssignableRole Excluded
roles = record {
  fun = excluded;
  inv = λ e. assigned e.0 e.1;
  rinv = excluded-assigned;
  linv = assigned-excluded;
}

excluded-role_of : (a : AssignableRole) → (excluded a).0 ≡ role_of a
unfolding excluded
excluded-role_of as_applicant = refl
excluded-role_of as_loan_officer = refl
excluded-role_of as_underwriter = refl
excluded-role_of as_admin = refl

-- The type of the roles that can be assigned is the type of the roles but SYSTEM, and an assignable role
-- is carried along this identity to itself.
pub assignable-Excluded :
    (same : AssignableRole ≡ Excluded) × ((a : AssignableRole) → (transport same a).0 ≡ role_of a)
assignable-Excluded = (
  ua (iso_to_equiv roles),
  λ a. ap (λ (e : Excluded). e.0) (ua-β (iso_to_equiv roles) a) ∙ excluded-role_of a,
)

-- The name of an assignable role is taken as this role.
taken :
    (V : Validators) (v : V.Value) (a : AssignableRole)
    → V.text v ≡ some (role_text (role_of a))
    → assignable_role_of V v ≡ some a
unfolding assignable_role_of member_of assignable_roles role_text
taken V v as_applicant h = rw h refl
taken V v as_loan_officer h = rw h refl
taken V v as_underwriter h = rw h refl
taken V v as_admin h = rw h refl

assignable_role_of-text :
    (V : Validators) (v : V.Value) (a : AssignableRole)
    → assignable_role_of V v ≡ some a
    → V.text v ≡ some (role_text (role_of a))
unfolding assignable_role_of
assignable_role_of-text V v a h =
    member_of_sound V (λ r. role_text (role_of r)) assignable_roles v a h

role_of-assigned : (r : Role) (h : r ≢ system) → role_of (assigned r h) ≡ r
unfolding assigned
role_of-assigned applicant h = refl
role_of-assigned loan_officer h = refl
role_of-assigned underwriter h = refl
role_of-assigned admin h = refl
role_of-assigned system h = absurd (h refl)

role_of-system : (a : AssignableRole) → role_of a ≢ system
role_of-system a h = (excluded a).1 (excluded-role_of a ∙ h)

-- A value in the body of an assignment is taken as a role exactly if it is the name of this role, and the
-- role is not SYSTEM: an administrator can give every role but that one, whatever the body holds.
pub assignable_role_of_lem :
    (V : Validators) (v : V.Value) (r : Role)
    → ((a : AssignableRole) × (assignable_role_of V v ≡ some a) × (role_of a ≡ r))
      ↔ ((V.text v ≡ some (role_text r)) × (r ≢ system))
assignable_role_of_lem V v r = (
  λ (a, taken_as, same). (
    assignable_role_of-text V v a taken_as ∙ ap (λ x. some (role_text x)) same,
    λ h. role_of-system a (same ∙ h),
  ),
  λ (named, other).
      let a = assigned r other in
      (
        a,
        taken V v a (named ∙ ap (λ x. some (role_text x)) (sym (role_of-assigned r other))),
        role_of-assigned r other,
      ),
)
