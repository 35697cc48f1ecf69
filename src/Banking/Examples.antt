-- ===== src/Banking/Examples.antt =====
-- The theorems of the partner bank at a lead that waits for it, and at a message of the topic.
use oneandro_clone.Prelude.{all, false, String, refl, Bool, true, Option, none, some, [], ◌∷◌}
use oneandro_clone.Gateway.Routes.{codes}
use oneandro_clone.Common.{bank_handoff}
use oneandro_clone.Store.ListTable.{list_table, typed_table}
use oneandro_clone.Leads.{
  Lead, lead_clash, StatusChange, change_clash, KycDocument, document_clash, is_uuid_unit,
  is_uuid_or_null, LeadDb, State, auto,
}
use oneandro_clone.Leads.Service.{Generated}
use oneandro_clone.Banking.Messages.{Message}
use oneandro_clone.Banking.Notifications.{Mail}
use oneandro_clone.Users
use oneandro_clone.Users.{User, user_clash, RefreshToken, token_clash, UserDb, as_applicant}

-- A text of the code units of a uuid counts as one.
abbrev pub is_uuid : String → Bool
is_uuid s = all is_uuid_unit (codes s)

abbrev pub db : LeadDb
db = record {
  leads = typed_table Lead lead_clash (λ l. is_uuid l.user_id);
  history =
      typed_table StatusChange change_clash (λ c. is_uuid_or_null is_uuid c.changed_by_user_id);
  documents = typed_table KycDocument document_clash (λ d. is_uuid d.uploaded_by_user_id);
  is_uuid = is_uuid;
  is_uuid-units = λ s h. h;
  leads-accepts = λ l. refl;
  history-accepts = λ c. refl;
  documents-accepts = λ d. refl;
}

abbrev pub waiting : Lead
waiting = record {
  id = "l1";
  user_id = "a1";
  assigned_loan_officer_id = none;
  loan_amount_requested = 500000;
  loan_purpose = auto;
  status = bank_handoff;
  credit_score_snapshot = some 700;
  decline_reason = none;
  created_at = 10;
  updated_at = 20;
}

abbrev pub stored : State db
stored = record { leads = waiting ∷ []; history = []; documents = []; published = []; files = [] }

abbrev pub answer : Generated
answer = record { lead_id = ""; change_id = "c9"; now = 90 }

abbrev pub declined_event : Message
declined_event = record { lead_id = "l1"; user_id = "a1"; status = "DECLINED"; occurred_at = "t" }

abbrev reason_of : String → Option (Option String)
reason_of id = some (some "Too little income")

abbrev address_of : String → Option String
address_of id = some "ann@x"

abbrev pub takes : Mail → Bool
takes mail = true

abbrev pub accounts : UserDb
accounts = record {
  users = list_table User user_clash;
  tokens = list_table RefreshToken token_clash;
}

abbrev pub ann : User
ann = record {
  id = "a1";
  email = b'a' ∷ b'@' ∷ b'x' ∷ [];
  password_hash = "h";
  first_name = "Ann";
  last_name = "A";
  role = as_applicant;
  is_email_verified = false;
  is_active = true;
  last_lead_status = none;
  last_lead_status_at = none;
  created_at = 1;
  updated_at = 1;
}

abbrev pub with_ann : Users.State accounts
with_ann = record { users = ann ∷ []; tokens = []; registered = [] }
