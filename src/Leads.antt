-- ===== src/Leads.antt =====
-- apps/lead-service: the rows of its database (prisma/schema.prisma), the tables that the services
-- share, the state that a request runs on, and the errors that the services throw.
pub mod StateMachine
pub mod Transitions
pub mod Service
pub mod Moves
pub mod Creation
pub mod Audit
pub mod Scores
pub mod Kyc
pub mod Uploads
pub mod Storage
pub mod Listing
pub mod Api
pub mod Progress
pub mod Events
pub mod Topic
pub mod Race
pub mod Terminal
pub mod Requests
pub mod Bodies
pub mod Http
pub mod Refusals
pub mod Amounts
pub mod Keeps
pub mod Interleaving
pub mod Examples
pub mod HttpExamples
use oneandro_clone.Prelude.{
  ℕ, String, ◌≡◌, Bool, true, Option, none, some, List, ◌||◌, ◌&&◌, ◌==◌, leb, eqb, all,
}
use oneandro_clone.Gateway.Routes.{codes}
use oneandro_clone.Common.{LeadStatus, Role, LeadStatusEvent}
use oneandro_clone.Store.{Table}

pub data LoanPurpose : Type 0 where
  debt_consolidation home_improvement auto medical education other : LoanPurpose

-- Amounts are in cents (`Decimal(12, 2)`), instants in milliseconds.
pub record Lead : Type 0 where
  pub id : String
  pub user_id : String
  pub assigned_loan_officer_id : Option String
  pub loan_amount_requested : ℕ
  pub loan_purpose : LoanPurpose
  pub status : LeadStatus
  pub credit_score_snapshot : Option ℕ
  pub decline_reason : Option String
  pub created_at : ℕ
  pub updated_at : ℕ

-- LeadStatusHistory
pub record StatusChange : Type 0 where
  pub id : String
  pub lead_id : String
  pub from_status : Option LeadStatus
  pub to_status : LeadStatus
  pub changed_by_user_id : Option String
  pub note : Option String
  pub created_at : ℕ

pub data DocumentType : Type 0 where
  government_id proof_of_income bank_statement other_document : DocumentType

-- A path below the storage directory: its folder and its file name, as code units.
pub record StoragePath : Type 0 where
  pub folder : String
  pub file_name : List ℕ

pub record KycDocument : Type 0 where
  pub id : String
  pub lead_id : String
  pub document_type : DocumentType
  pub original_filename : List ℕ
  pub mime_type : String
  pub size_bytes : ℕ
  pub storage_path : StoragePath
  pub uploaded_by_user_id : String
  pub created_at : ℕ

-- The unique columns of each table.
abbrev pub lead_clash : Lead → Lead → Bool
lead_clash a b = a.id == b.id

abbrev pub change_clash : StatusChange → StatusChange → Bool
change_clash a b = a.id == b.id

abbrev pub document_clash : KycDocument → KycDocument → Bool
document_clash a b = a.id == b.id

-- The code units that the text of a uuid may have: digits, a to f in both cases, hyphens and braces.
abbrev pub is_uuid_unit : ℕ → Bool
is_uuid_unit c =
    (leb 48 c && leb c 57)
    || (leb 97 c && leb c 102)
    || (leb 65 c && leb c 70)
    || eqb c 45
    || eqb c 123
    || eqb c 125

abbrev pub is_uuid_or_null : (String → Bool) → Option String → Bool
is_uuid_or_null is_uuid none = true
is_uuid_or_null is_uuid (some id) = is_uuid id

-- The database of the service, behind the Prisma client. The columns that hold the ids of callers have
-- the type uuid of PostgreSQL; the other ids are made by the database itself or were found in it.
pub record LeadDb : Type 1 where
  pub leads : Table Lead lead_clash
  pub history : Table StatusChange change_clash
  pub documents : Table KycDocument document_clash
  pub is_uuid : String → Bool
  pub is_uuid-units : (s : String) → is_uuid s ≡ true → all is_uuid_unit (codes s) ≡ true
  pub leads-accepts : (l : Lead) → leads.accepts l ≡ is_uuid l.user_id
  pub history-accepts :
      (c : StatusChange) → history.accepts c ≡ is_uuid_or_null is_uuid c.changed_by_user_id
  pub documents-accepts : (d : KycDocument) → documents.accepts d ≡ is_uuid d.uploaded_by_user_id

-- What the requests work on: the tables, and the events handed to the Kafka producer so far (a
-- failure to deliver one is logged, loses the event, and changes nothing else), and the files on the disk.
pub record State (P : LeadDb) : Type 0 where
  pub leads : P.leads.Db
  pub history : P.history.Db
  pub documents : P.documents.Db
  pub published : List LeadStatusEvent
  pub files : List StoragePath

-- One constructor for each `throw` of the services.
pub data LeadError : Type 0 where
  invalid_transition : LeadStatus → LeadStatus → LeadError
  role_not_permitted : LeadStatus → LeadStatus → Role → LeadError
  lead_not_found no_access reason_required : LeadError
  no_file unsupported_type file_too_large storage_failure : LeadError
  database_failure : LeadError

-- The HTTP status of the exception class that is thrown, 500 for an error of Prisma or
-- of the disk that nothing catches.
unfoldable pub http_status : LeadError → ℕ
http_status (invalid_transition _ _) = 400
http_status (role_not_permitted _ _ _) = 403
http_status lead_not_found = 404
http_status no_access = 403
http_status reason_required = 403
http_status no_file = 400
http_status unsupported_type = 400
http_status file_too_large = 400
http_status storage_failure = 500
http_status database_failure = 500

-- What a method of a service does: it returns, or throws.
pub data Result {ℓ} (Value : Type ℓ) : Type ℓ where
  err : LeadError → Result Value
  ok : Value → Result Value

-- Nothing after a throw runs.
infixl 5 ◌>>=◌
abbrev pub ◌>>=◌ {k ℓ} :
    {Out : Type ℓ} {Value : Type k} → Result Value → (Value → Result Out) → Result Out
err thrown >>= rest = err thrown
ok value >>= rest = rest value

infixl 5 ◌>>◌
abbrev pub ◌>>◌ {ℓ} : {Out : Type ℓ} → Result (Unit {0}) → Result Out → Result Out
first >> second = first >>= λ done. second
