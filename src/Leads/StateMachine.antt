-- ===== src/Leads/StateMachine.antt =====
-- apps/lead-service/src/leads/state-machine/lead-status.state-machine.ts
use oneandro_clone.Prelude.{Bool, true, false, List, [], ◌∷◌, any, if◌then◌else◌}
use oneandro_clone.Common.{
  Role, loan_officer, underwriter, admin, system, LeadStatus, created, kyc_uploaded, credit_checked,
  approved, declined, bank_handoff, funded, funding_rejected, status_eq, includes_role,
}
use oneandro_clone.Leads.{Result, ok, err, invalid_transition, role_not_permitted, ◌>>◌}

-- ALLOWED_TRANSITIONS
unfoldable pub allowed_transitions : LeadStatus → List LeadStatus
allowed_transitions created = kyc_uploaded ∷ []
allowed_transitions kyc_uploaded = credit_checked ∷ []
allowed_transitions credit_checked = approved ∷ declined ∷ []
allowed_transitions approved = bank_handoff ∷ []
allowed_transitions declined = []
allowed_transitions bank_handoff = funded ∷ funding_rejected ∷ []
allowed_transitions funded = []
allowed_transitions funding_rejected = []

-- MANUAL_TRANSITION_ROLES; a pair with no entry has no roles.
unfoldable pub manual_transition_roles : LeadStatus → LeadStatus → List Role
manual_transition_roles kyc_uploaded credit_checked = loan_officer ∷ underwriter ∷ admin ∷ []
manual_transition_roles credit_checked approved = underwriter ∷ admin ∷ []
manual_transition_roles credit_checked declined = underwriter ∷ admin ∷ []
manual_transition_roles approved bank_handoff = loan_officer ∷ underwriter ∷ admin ∷ []
manual_transition_roles bank_handoff funded = system ∷ admin ∷ []
manual_transition_roles bank_handoff funding_rejected = system ∷ admin ∷ []
manual_transition_roles _ _ = []

-- `ALLOWED_TRANSITIONS[from].includes(to)`
unfoldable pub can_move : LeadStatus → LeadStatus → Bool
can_move from to = any (λ s. status_eq s to) (allowed_transitions from)

unfoldable pub is_terminal : LeadStatus → Bool
is_terminal status = elim (allowed_transitions status) [ [] ↦ true | s ∷ rest ↦ false ]

unfoldable pub assert_valid_transition : LeadStatus → LeadStatus → Result (Unit {0})
assert_valid_transition from to =
    if can_move from to then ok tt else err (invalid_transition from to)

unfoldable pub assert_manual_transition_allowed : LeadStatus → LeadStatus → Role → Result (Unit {0})
assert_manual_transition_allowed from to role = do
  assert_valid_transition from to
  if includes_role (manual_transition_roles from to) role
      then ok tt
      else err (role_not_permitted from to role)
