-- ===== src/Leads/Transitions.antt =====
-- The ways of a lead through the state machine.
use mathlib.Core.WellFounded.{Acc}
use oneandro_clone.Prelude.{
  ℕ, zero, suc, ◌+◌, ◌≤◌, ◌≡◌, Bool, true, ◌&&◌, List, [], ◌∷◌, arith, any, length, Option, none,
  some, if◌then◌else◌,
}
use oneandro_clone.Common.{
  Role, applicant, loan_officer, underwriter, admin, system, LeadStatus, created, kyc_uploaded,
  credit_checked, approved, declined, bank_handoff, funded, funding_rejected, status_eq,
}
use oneandro_clone.Leads.{ok, err, invalid_transition, role_not_permitted}
use oneandro_clone.Leads.StateMachine.{
  allowed_transitions, manual_transition_roles, can_move, assert_valid_transition,
  assert_manual_transition_allowed,
}

-- What each role may do by hand, told role by role.
abbrev pub moves_of : Role → List (LeadStatus × LeadStatus)
moves_of applicant = []
moves_of loan_officer = (kyc_uploaded, credit_checked) ∷ (approved, bank_handoff) ∷ []
moves_of underwriter =
    (kyc_uploaded, credit_checked)
    ∷ (credit_checked, approved)
    ∷ (credit_checked, declined)
    ∷ (approved, bank_handoff)
    ∷ []
moves_of admin =
    (kyc_uploaded, credit_checked)
    ∷ (credit_checked, approved)
    ∷ (credit_checked, declined)
    ∷ (approved, bank_handoff)
    ∷ (bank_handoff, funded)
    ∷ (bank_handoff, funding_rejected)
    ∷ []
moves_of system = (bank_handoff, funded) ∷ (bank_handoff, funding_rejected) ∷ []

abbrev pub may_drive : Role → LeadStatus → LeadStatus → Bool
may_drive role from to = any (λ m. status_eq m.0 from && status_eq m.1 to) (moves_of role)

-- The check of a manual transition: a pair that is no transition is refused first, whoever asks;
-- then the role decides, by the list of its moves.
pub assert_manual_transition_allowed_lem :
    (from to : LeadStatus) (role : Role)
    → assert_manual_transition_allowed from to role ≡ (
        if can_move from to
        then (if may_drive role from to then ok tt else err (role_not_permitted from to role))
        else err (invalid_transition from to))
unfolding assert_manual_transition_allowed assert_valid_transition manual_transition_roles can_move
    allowed_transitions
assert_manual_transition_allowed_lem created to role = ground arith
assert_manual_transition_allowed_lem kyc_uploaded to role = ground arith
assert_manual_transition_allowed_lem credit_checked to role = ground arith
assert_manual_transition_allowed_lem approved to role = ground arith
assert_manual_transition_allowed_lem declined to role = ground arith
assert_manual_transition_allowed_lem bank_handoff to role = ground arith
assert_manual_transition_allowed_lem funded to role = ground arith
assert_manual_transition_allowed_lem funding_rejected to role = ground arith

-- How far a status is from the start.
abbrev pub stage : LeadStatus → ℕ
stage created = 0
stage kyc_uploaded = 1
stage credit_checked = 2
stage approved = 3
stage declined = 3
stage bank_handoff = 4
stage funded = 5
stage funding_rejected = 5

-- Each move goes one stage on.
pub stage-can_move : (from to : LeadStatus) → can_move from to ≡ true → stage to ≡ suc (stage from)
unfolding can_move allowed_transitions
stage-can_move created to h = ground arith
stage-can_move _ to h = ground arith

stage-le : (s : LeadStatus) → stage s ≤ 5
stage-le s = ground arith

can_move-Acc_from :
    (n : ℕ) (s : LeadStatus) → 5 ≤ stage s + n → Acc (λ to from. can_move from to ≡ true) s
can_move-Acc_from zero s h =
    Acc.intro s (λ t move. absurd (omega (arith, stage-can_move s t move, stage-le t)))
can_move-Acc_from (suc n) s h =
    Acc.intro s (λ t move. can_move-Acc_from n t (omega (arith, stage-can_move s t move)))

-- Every sequence of moves that the state machine allows comes to an end, from whatever status it starts.
pub can_move-Acc : (s : LeadStatus) → Acc (λ to from. can_move from to ≡ true) s
can_move-Acc s = can_move-Acc_from 5 s (omega arith)

-- The statuses that a lead goes through, one move after the other; `none` if a move is not allowed.
abbrev pub walk : LeadStatus → List LeadStatus → Option LeadStatus
walk s [] = some s
walk s (t ∷ ts) = if can_move s t then walk t ts else none

-- Along any sequence of moves that the state machine allows, the stage grows by one with each move: it
-- never goes back or in a circle.
pub length-walk :
    (s : LeadStatus) (ts : List LeadStatus) {e : LeadStatus}
    → walk s ts ≡ some e
    → stage e ≡ stage s + length ts
length-walk s [] h = ground arith
length-walk s (t ∷ ts) {e} h = ground (arith, stage-can_move s t, length-walk t ts {e = e})
