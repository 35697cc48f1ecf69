-- ===== src/Leads/Examples.antt =====
-- Runs of the services of leads on tables that are lists, and the theorems at those runs.
use oneandro_clone.Prelude.{
  String, Bool, Bool-cases, inl, inr, ◌==◌, all, ◌≡◌, refl, true, not, ◌||◌, truthy, none, some, [],
  ◌∷◌, arith, find,
}
use oneandro_clone.Common.{
  applicant, loan_officer, created, kyc_uploaded, credit_checked, approved, declined, RequestUser,
}
use oneandro_clone.Store.ListTable.{typed_table}
use oneandro_clone.Leads.{
  Lead, lead_clash, StatusChange, change_clash, KycDocument, document_clash, is_uuid_unit,
  is_uuid_or_null, LeadDb, State, auto, government_id, ok, err, LeadError, role_not_permitted,
}
use oneandro_clone.Leads.Service.{
  CreateLeadDto, UpdateLeadStatusDto, Generated, new_lead, status_change, create, has_id,
  apply_update, extra_of, requires_reason, find_by_id_or_throw, find_accessible_or_throw,
  mark_kyc_uploaded, update_status,
}
use oneandro_clone.Leads.StateMachine.{
  is_terminal, allowed_transitions, manual_transition_roles, can_move, assert_valid_transition,
  assert_manual_transition_allowed,
}
use oneandro_clone.Leads.Transitions.{may_drive, assert_manual_transition_allowed_lem}
use oneandro_clone.Leads.Moves.{Moved, update_status-ok}
use oneandro_clone.Leads.Progress.{update_status-answer, update_status-done}
use oneandro_clone.Leads.Audit.{IsAudited, create-IsAudited, update_status-IsAudited}
use oneandro_clone.Leads.Scores.{IsSound, AreSound, update_status-AreSound}
use oneandro_clone.Leads.Kyc.{
  UploadedFile, NewDocument, is_allowed_mime, assert_valid_file, check_upload, store_document,
  upload, kyc_document,
}
use oneandro_clone.Leads.Uploads.{upload-IsAudited, upload-ok}
use oneandro_clone.Leads.Api.{serve, call_update, serve-update_status}
use mathlib.Core.WellFounded.{Acc}
use mathlib.Core.Path.{subst}
use oneandro_clone.Gateway.Routes.{codes}
use oneandro_clone.Leads.Service.{no_update, transition, commit_transition, announce}
use oneandro_clone.Leads.Transitions.{can_move-Acc}
use oneandro_clone.Leads.Audit.{replay}
use oneandro_clone.Leads.Terminal.{update_status-is_terminal}
use oneandro_clone.Leads.Race.{between, transition_twice}

-- A text of the code units of a uuid counts as one.
abbrev pub is_uuid : String → Bool
is_uuid s = all is_uuid_unit (codes s)

abbrev pub db : LeadDb
db = record {
  leads = typed_table Lead lead_clash (λ l. is_uuid l.user_id);
  history =
      typed_table StatusChange change_clash (λ c. is_uuid_or_null is_uuid c.changed_by_user_id);
  documents = typed_table KycDocument document_clash (λ d. is_uuid d.uploaded_by_user_id);
  is_uuid = is_uuid;
  is_uuid-units = λ s h. h;
  leads-accepts = λ l. refl;
  history-accepts = λ c. refl;
  documents-accepts = λ d. refl;
}

abbrev pub empty : State db
empty = record { leads = []; history = []; documents = []; published = []; files = [] }

abbrev pub dto : CreateLeadDto
dto = record { loan_amount_requested = 500000; loan_purpose = auto }

abbrev pub first : Generated
first = record { lead_id = "l1"; change_id = "c1"; now = 10 }

abbrev pub second : Generated
second = record { lead_id = ""; change_id = "c2"; now = 20 }

abbrev pub third : Generated
third = record { lead_id = ""; change_id = "c3"; now = 30 }

abbrev pub one_lead : State db
one_lead = (create db "a1" dto first empty).1

abbrev owner : RequestUser
owner = record { user_id = "a1"; email = "u1@x"; role = applicant }

abbrev officer : RequestUser
officer = record { user_id = "b1"; email = "o1@x"; role = loan_officer }

abbrev pub scan : UploadedFile
scan = record { original_name = []; mime_type = "image/png"; size = 5; buffer_length = 5 }

abbrev pub saved : NewDocument
saved = record { document_id = "d1"; file_uuid = []; now = 20; saved = true }

abbrev with_kyc : State db
with_kyc = (upload db 1000 "l1" government_id (some scan) owner saved second one_lead).1

abbrev to_checked : UpdateLeadStatusDto
to_checked = record { to_status = credit_checked; decline_reason = none; note = none }

empty-IsAudited : IsAudited db empty
empty-IsAudited = record { at = λ id. refl }

one_lead-IsAudited : IsAudited db one_lead
unfolding create new_lead status_change
one_lead-IsAudited =
    create-IsAudited db empty empty-IsAudited "a1" dto first (new_lead "a1" dto first) refl

empty-AreSound : AreSound db empty
empty-AreSound = record { at = λ id l h. cc h }

with_kyc-IsAudited :
    IsAudited db (upload db 1000 "l1" government_id (some scan) owner saved second one_lead).1
with_kyc-IsAudited =
    upload-IsAudited db 1000 "l1" government_id (some scan) owner saved second one_lead
      one_lead-IsAudited

update_status-IsAudited_example :
    IsAudited db (update_status db "l1" to_checked officer third 7 with_kyc).1
update_status-IsAudited_example =
    update_status-IsAudited db with_kyc with_kyc-IsAudited "l1" to_checked officer third 7

assert_manual_transition_allowed_example :
    assert_manual_transition_allowed credit_checked approved loan_officer
    ≡ err (role_not_permitted credit_checked approved loan_officer)
unfolding can_move allowed_transitions
assert_manual_transition_allowed_example =
    assert_manual_transition_allowed_lem credit_checked approved loan_officer

serve-update_status_example :
    (serve db 1000 (call_update "l1" to_checked third 7) owner with_kyc).1
    ≡ (update_status db "l1" to_checked owner third 7 with_kyc).1
serve-update_status_example = serve-update_status db 1000 "l1" to_checked third 7 owner with_kyc

abbrev kyc_lead : Lead
kyc_lead = record {
  id = "l1";
  user_id = "a1";
  assigned_loan_officer_id = none;
  loan_amount_requested = 500000;
  loan_purpose = auto;
  status = kyc_uploaded;
  credit_score_snapshot = none;
  decline_reason = none;
  created_at = 10;
  updated_at = 20;
}

abbrev stored : State db
stored = record empty { leads = kyc_lead ∷ [] }

update_status-done_example :
    (l : Lead) × ((update_status db "l1" to_checked officer third 7 stored).0 ≡ ok l)
    × (l.id ≡ "l1")
    × (l.status ≡ credit_checked)
    × (find (has_id "l1") (update_status db "l1" to_checked officer third 7 stored).1.leads
        ≡ some l)
unfolding requires_reason assert_manual_transition_allowed assert_valid_transition can_move
    allowed_transitions manual_transition_roles
update_status-done_example =
    update_status-done db "l1" to_checked officer third 7 stored kyc_lead refl refl refl refl refl

checked_lead :
    (update_status db "l1" to_checked officer third 7 stored).0
    ≡ ok (apply_update credit_checked (extra_of to_checked 7) 30 kyc_lead)
unfolding requires_reason assert_manual_transition_allowed assert_valid_transition can_move
    allowed_transitions manual_transition_roles
checked_lead =
    update_status-answer db "l1" to_checked officer third 7 stored kyc_lead refl refl refl refl refl

update_status-ok_example :
    (lead : Lead) × (find (has_id "l1") (db.leads.rows stored.leads) ≡ some lead)
    × (may_drive loan_officer lead.status credit_checked ≡ true)
    × ((not (requires_reason credit_checked) || truthy to_checked.decline_reason) ≡ true)
    × Moved db lead credit_checked "b1" none
        (extra_of to_checked 7)
        third
        stored
        (apply_update credit_checked (extra_of to_checked 7) 30 kyc_lead)
        (update_status db "l1" to_checked officer third 7 stored).1
update_status-ok_example =
    update_status-ok db "l1" to_checked officer third 7 stored
      (apply_update credit_checked (extra_of to_checked 7) 30 kyc_lead) checked_lead

stored-AreSound : AreSound db stored
stored-AreSound = record {
  at = λ id l h. elim (Bool-cases ("l1" == id)) [
    | inl this ↦
        let same : kyc_lead ≡ l = cc (rw this at h) in
        subst IsSound same (record { scored = refl; reasoned = unfold requires_reason in refl })
    | inr other ↦ cc (rw other at h)
  ];
}

update_status-AreSound_example :
    AreSound db (update_status db "l1" to_checked officer third 7 stored).1
update_status-AreSound_example =
    update_status-AreSound db stored stored-AreSound "l1" to_checked officer third 7 (omega arith)

abbrev declined_lead : Lead
declined_lead = record kyc_lead { status = declined; decline_reason = some "Too little income" }

abbrev over : State db
over = record empty { leads = declined_lead ∷ [] }

update_status-is_terminal_example :
    (e : LeadError) × ((update_status db "l1" to_checked officer third 7 over).0 ≡ err e)
    × ((update_status db "l1" to_checked officer third 7 over).1 ≡ over)
unfolding is_terminal allowed_transitions
update_status-is_terminal_example =
    update_status-is_terminal db "l1" to_checked officer third 7 over declined_lead refl refl

upload-ok_example :
    db.documents.rows
      (upload db 1000 "l1" government_id (some scan) owner saved second stored).1.documents
    ≡ kyc_document "l1" government_id scan owner saved ∷ []
unfolding upload check_upload find_accessible_or_throw find_by_id_or_throw assert_valid_file
    is_allowed_mime store_document mark_kyc_uploaded kyc_document
upload-ok_example =
    (upload-ok db 1000 "l1" government_id (some scan) owner saved second stored
      (kyc_document "l1" government_id scan owner saved) refl).9

can_move-Acc_example : Acc (λ to from. can_move from to ≡ true) created
can_move-Acc_example = can_move-Acc created

-- Two uploads of a document for one lead, both of which have found it without one.
abbrev new_one : Lead
new_one = new_lead "a1" dto first

abbrev raced : State db
raced =
    between db new_one kyc_uploaded kyc_uploaded "a1" "a1" none none no_update no_update second
      third one_lead (apply_update kyc_uploaded no_update 20 new_one)
      (apply_update kyc_uploaded no_update 30 (apply_update kyc_uploaded no_update 20 new_one))

transition_twice_example :
    replay "l1" none (
      db.history.rows
        (transition db new_one kyc_uploaded "a1" none no_update third raced).1.history)
    ≡ none
unfolding create new_lead transition commit_transition announce can_move allowed_transitions
    status_change assert_valid_transition apply_update
transition_twice_example =
    (transition_twice db new_one kyc_uploaded kyc_uploaded "a1" "a1" none none no_update no_update
      second third one_lead (apply_update kyc_uploaded no_update 20 new_one)
      (apply_update kyc_uploaded no_update 30 (apply_update kyc_uploaded no_update 20 new_one))
      one_lead-IsAudited refl refl refl).1
