-- ===== src/Users.antt =====
-- apps/user-service: the rows of its database (prisma/schema.prisma), the tables that its services
-- share, the state that a request runs on, and the errors that the services throw.
pub mod Email
pub mod Accounts
pub mod Tokens
pub mod Families
pub mod Replay
pub mod Race
pub mod Auth
pub mod Cookies
pub mod Bodies
pub mod Http
pub mod Refusals
pub mod Answers
pub mod Assignable
pub mod LockOut
pub mod Registration
pub mod Api
mod Examples
mod CookieExamples
use oneandro_clone.Prelude.{ℕ, String, Bool, Option, List, ◌||◌, ◌==◌}
use oneandro_clone.Common.{Role, applicant, loan_officer, underwriter, admin}
use oneandro_clone.Users.Email.{Text, text_eq}
use oneandro_clone.Store.{Table}

-- The roles that can be written to `users.role`: all but SYSTEM.
pub data AssignableRole : Type 0 where
  as_applicant as_loan_officer as_underwriter as_admin : AssignableRole

abbrev pub role_of : AssignableRole → Role
role_of as_applicant = applicant
role_of as_loan_officer = loan_officer
role_of as_underwriter = underwriter
role_of as_admin = admin

-- Instants are in milliseconds.
pub record User : Type 0 where
  pub id : String
  pub email : Text
  pub password_hash : String
  pub first_name : String
  pub last_name : String
  pub role : AssignableRole
  pub is_email_verified : Bool
  pub is_active : Bool
  pub last_lead_status : Option String
  pub last_lead_status_at : Option ℕ
  pub created_at : ℕ
  pub updated_at : ℕ

pub record RefreshToken : Type 0 where
  pub id : String
  pub user_id : String
  pub token_hash : String
  pub family : String
  pub revoked : Bool
  pub replaced_by_token_hash : Option String
  pub user_agent : Option String
  pub ip_address : Option String
  pub expires_at : ℕ
  pub created_at : ℕ

-- The unique columns: the ids, the address of a user, the hash of a token.
abbrev pub user_clash : User → User → Bool
user_clash a b = a.id == b.id || text_eq a.email b.email

abbrev pub token_clash : RefreshToken → RefreshToken → Bool
token_clash a b = a.id == b.id || a.token_hash == b.token_hash

pub record UserDb : Type 1 where
  pub users : Table User user_clash
  pub tokens : Table RefreshToken token_clash

-- The tables, and the ids of the users for whom `user.registered` was handed to the Kafka producer.
pub record State (P : UserDb) : Type 0 where
  pub users : P.users.Db
  pub tokens : P.tokens.Db
  pub registered : List String

-- One constructor for each `throw` of the services; `database_failure` is a Prisma error that
-- nothing catches.
pub data UserError : Type 0 where
  email_taken user_not_found : UserError
  invalid_token token_reused token_expired account_disabled : UserError
  invalid_credentials account_inactive no_token_presented database_failure : UserError

pub data Result {ℓ} (A : Type ℓ) : Type ℓ where
  ok : A → Result A
  err : UserError → Result A

-- The HTTP status of the exception class that is thrown.
unfoldable pub http_status : UserError → ℕ
http_status email_taken = 409
http_status user_not_found = 404
http_status invalid_token = 401
http_status token_reused = 401
http_status token_expired = 401
http_status account_disabled = 401
http_status invalid_credentials = 401
http_status account_inactive = 401
http_status no_token_presented = 401
http_status database_failure = 500
