-- ===== src/Leads/Requests.antt =====
-- A request with a token: apps/lead-service/src/auth/strategies/jwt.strategy.ts and
-- src/common/guards/jwt-auth.guard.ts in front of the routes, and src/leads/entities/lead.entity.ts, the body
-- of their answers.
use Prim.Native.String
use oneandro_clone.Prelude.{ℕ, String, ◌≡◌, Option, none, some, ◌==◌, if◌then◌else◌}
use oneandro_clone.Common.{
  Role, RequestUser, LeadStatus, created, kyc_uploaded, credit_checked, approved, declined,
  bank_handoff, funded, funding_rejected,
}
use oneandro_clone.Leads.{
  LoanPurpose, debt_consolidation, home_improvement, auto, medical, education, other, Lead, LeadDb,
  State,
}
use oneandro_clone.Leads.Api.{Call, Response, serve}

pub record AccessTokenPayload : Type 0 where
  pub sub : String
  pub email : String
  pub role : Role

-- passport-jwt: the token of an `Authorization: Bearer` header, and the claims of a token whose signature
-- is good and which has not expired.
pub record Jwt : Type 0 where
  pub from_auth_header : Option String → Option String
  pub verify : String → Option AccessTokenPayload
  pub from_auth_header-bearer :
      (token : String) → from_auth_header (some (String.◌++◌ "Bearer " token)) ≡ some token

-- What a request carries.
pub record Credentials : Type 0 where
  pub access_token_cookie : Option String
  pub authorization : Option String

-- JwtStrategy.validate
unfoldable pub validate : AccessTokenPayload → RequestUser
validate payload = record { user_id = payload.sub; email = payload.email; role = payload.role }

pub data Reply : Type 0 where
  unauthorized : Reply
  replied : Response → Reply

module _ (J : Jwt) where
  -- cookieExtractor, then the header, where the cookie is absent or empty.
  unfoldable pub token_of : Credentials → Option String
  token_of creds = elim creds.access_token_cookie [
    | none ↦ J.from_auth_header creds.authorization
    | some token ↦ if token == "" then J.from_auth_header creds.authorization else some token
  ]

  abbrev validated : Option AccessTokenPayload → Option RequestUser
  validated none = none
  validated (some payload) = some (validate payload)

  -- The caller of a request, if its token is good.
  unfoldable pub authenticate : Credentials → Option RequestUser
  authenticate creds = elim (token_of creds) [
    | none ↦ none
    | some token ↦ validated (J.verify token)
  ]

  module _ (P : LeadDb) (max_size : ℕ) where
    abbrev pub replied_with : Response × State P → Reply × State P
    replied_with (response, s) = (replied response, s)

    -- JwtAuthGuard, then the roles and the handler; none of the routes is @Public().
    unfoldable pub request : Credentials → Call → State P → Reply × State P
    request creds call s = elim (authenticate creds) [
      | none ↦ (unauthorized, s)
      | some caller ↦ replied_with (serve P max_size call caller s)
    ]

unfoldable pub status_text : LeadStatus → String
status_text created = "CREATED"
status_text kyc_uploaded = "KYC_UPLOADED"
status_text credit_checked = "CREDIT_CHECKED"
status_text approved = "APPROVED"
status_text declined = "DECLINED"
status_text bank_handoff = "BANK_HANDOFF"
status_text funded = "FUNDED"
status_text funding_rejected = "FUNDING_REJECTED"

unfoldable pub purpose_text : LoanPurpose → String
purpose_text debt_consolidation = "DEBT_CONSOLIDATION"
purpose_text home_improvement = "HOME_IMPROVEMENT"
purpose_text auto = "AUTO"
purpose_text medical = "MEDICAL"
purpose_text education = "EDUCATION"
purpose_text other = "OTHER"

pub record LeadEntity : Type 0 where
  pub id : String
  pub user_id : String
  pub assigned_loan_officer_id : Option String
  pub loan_amount_requested : String
  pub loan_purpose : String
  pub status : String
  pub credit_score_snapshot : Option ℕ
  pub decline_reason : Option String
  pub created_at : ℕ
  pub updated_at : ℕ

-- The body of an answer; `amount_text` is the `toString` of a Decimal.
unfoldable pub lead_entity : (ℕ → String) → Lead → LeadEntity
lead_entity amount_text lead = record {
  id = lead.id;
  user_id = lead.user_id;
  assigned_loan_officer_id = lead.assigned_loan_officer_id;
  loan_amount_requested = amount_text lead.loan_amount_requested;
  loan_purpose = purpose_text lead.loan_purpose;
  status = status_text lead.status;
  credit_score_snapshot = lead.credit_score_snapshot;
  decline_reason = lead.decline_reason;
  created_at = lead.created_at;
  updated_at = lead.updated_at;
}
