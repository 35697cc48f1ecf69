-- ===== src/Common.antt =====
-- packages/common/src: the roles, the caller of a request, and the events on the topic
-- `lead-status-events`; with the `LeadStatus` enum of apps/lead-service/prisma/schema.prisma.
pub mod Filter
pub mod Validation
use oneandro_clone.Prelude.{ℕ, String, ◌≡◌, Bool, true, Option, List, arith, eqb, any}

pub data Role : Type 0 where
  applicant loan_officer underwriter admin system : Role

pub data LeadStatus : Type 0 where
  created kyc_uploaded credit_checked approved : LeadStatus
  declined bank_handoff funded funding_rejected : LeadStatus

-- The enums are compared by the position of their values.
abbrev pub role_index : Role → ℕ
role_index applicant = 0
role_index loan_officer = 1
role_index underwriter = 2
role_index admin = 3
role_index system = 4

abbrev pub role_eq : Role → Role → Bool
role_eq a b = eqb (role_index a) (role_index b)

abbrev pub status_index : LeadStatus → ℕ
status_index created = 0
status_index kyc_uploaded = 1
status_index credit_checked = 2
status_index approved = 3
status_index declined = 4
status_index bank_handoff = 5
status_index funded = 6
status_index funding_rejected = 7

abbrev pub status_eq : LeadStatus → LeadStatus → Bool
status_eq a b = eqb (status_index a) (status_index b)

pub status_eq_sound : (a b : LeadStatus) → status_eq a b ≡ true → a ≡ b
status_eq_sound a b h = ground arith

pub status_eq_refl : (a : LeadStatus) → status_eq a a ≡ true
status_eq_refl a = ground arith

-- `roles.includes(role)`
abbrev pub includes_role : List Role → Role → Bool
includes_role roles role = any (λ r. role_eq r role) roles

pub record RequestUser : Type 0 where
  pub user_id : String
  pub email : String
  pub role : Role

-- A message of the topic, as lead-service sends it. Instants are in milliseconds.
pub record LeadStatusEvent : Type 0 where
  pub lead_id : String
  pub user_id : String
  pub status : LeadStatus
  pub previous_status : Option LeadStatus
  pub occurred_at : ℕ
