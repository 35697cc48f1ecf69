-- ===== src/Leads/Service.antt =====
-- apps/lead-service/src/leads/leads.service.ts: creating a lead, reading it, and moving it on.
use oneandro_clone.Prelude.{
  ℕ, ◌+◌, String, Bool, true, false, not, ◌&&◌, ◌||◌, Option, none, some, [], ◌∷◌, ◌++◌, ◌==◌,
  truthy, if◌then◌else◌,
}
use oneandro_clone.Common.{
  Role, loan_officer, underwriter, admin, system, LeadStatus, created, kyc_uploaded, credit_checked,
  declined, funding_rejected, status_eq, includes_role, RequestUser,
}
use oneandro_clone.Leads.{
  Lead, LoanPurpose, StatusChange, LeadDb, State, Result, ok, err, lead_not_found, no_access,
  reason_required, database_failure, ◌>>=◌, ◌>>◌,
}
use oneandro_clone.Leads.StateMachine.{assert_valid_transition, assert_manual_transition_allowed}

pub record CreateLeadDto : Type 0 where
  pub loan_amount_requested : ℕ
  pub loan_purpose : LoanPurpose

pub record UpdateLeadStatusDto : Type 0 where
  pub to_status : LeadStatus
  pub decline_reason : Option String
  pub note : Option String

-- What the database makes up for new rows: `gen_random_uuid()` for a lead and for a line of its
-- history, and `now()`.
pub record Generated : Type 0 where
  pub lead_id : String
  pub change_id : String
  pub now : ℕ

-- The fields of `Prisma.LeadUpdateInput` that the service sets; what is absent stays.
pub record LeadUpdate : Type 0 where
  pub credit_score_snapshot : Option ℕ
  pub decline_reason : Option String

abbrev pub no_update : LeadUpdate
no_update = record { credit_score_snapshot = none; decline_reason = none }

abbrev pub given {ℓ} : {A : Type ℓ} → Option A → Option A → Option A
given none old = old
given (some a) old = some a

-- STAFF_ROLES, isStaff
unfoldable pub is_staff : Role → Bool
is_staff role = includes_role (loan_officer ∷ underwriter ∷ admin ∷ system ∷ []) role

abbrev pub has_id : String → Lead → Bool
has_id id l = l.id == id

-- { status: toStatus, ...extra }; `updatedAt` is kept by the client.
unfoldable pub apply_update : LeadStatus → LeadUpdate → ℕ → Lead → Lead
apply_update to extra now l = record l {
  status = to;
  credit_score_snapshot = given extra.credit_score_snapshot l.credit_score_snapshot;
  decline_reason = given extra.decline_reason l.decline_reason;
  updated_at = now;
}

-- Math.floor(Math.random() * 250) is the argument.
unfoldable pub mock_credit_score : ℕ → ℕ
mock_credit_score roll = 550 + roll

unfoldable pub requires_reason : LeadStatus → Bool
requires_reason to = status_eq to declined || status_eq to funding_rejected

unfoldable pub extra_of : UpdateLeadStatusDto → ℕ → LeadUpdate
extra_of dto roll = record {
  credit_score_snapshot =
      if status_eq dto.to_status credit_checked then some (mock_credit_score roll) else none;
  decline_reason = if requires_reason dto.to_status then dto.decline_reason else none;
}

unfoldable pub new_lead : String → CreateLeadDto → Generated → Lead
new_lead user_id dto new = record {
  id = new.lead_id;
  user_id = user_id;
  assigned_loan_officer_id = none;
  loan_amount_requested = dto.loan_amount_requested;
  loan_purpose = dto.loan_purpose;
  status = created;
  credit_score_snapshot = none;
  decline_reason = none;
  created_at = new.now;
  updated_at = new.now;
}

unfoldable pub status_change :
    String → Option LeadStatus → LeadStatus → String → Option String → Generated → StatusChange
status_change lead_id from to changed_by note new = record {
  id = new.change_id;
  lead_id = lead_id;
  from_status = from;
  to_status = to;
  changed_by_user_id = some changed_by;
  note = note;
  created_at = new.now;
}

module _ (P : LeadDb) where
  -- create: the two writes are no transaction, so the lead stays when its history fails.
  unfoldable pub create : String → CreateLeadDto → Generated → State P → Result Lead × State P
  create user_id dto new s =
      let lead = new_lead user_id dto new in
      let (written, leads') = P.leads.create lead s.leads in
      let (logged, history') =
        P.history.create (status_change lead.id none created user_id none new) s.history in
      if written
      then (if logged
          then (
            ok lead,
            record s {
              leads = leads';
              history = history';
              published =
                  s.published
                  ++ record {
                    lead_id = lead.id;
                    user_id = lead.user_id;
                    status = created;
                    previous_status = none;
                    occurred_at = lead.created_at;
                  }
                    ∷ [];
            },
          )
          else (err database_failure, record s { leads = leads'; history = history' }))
      else (err database_failure, record s { leads = leads' })

  unfoldable pub find_by_id_or_throw : String → State P → Result Lead
  find_by_id_or_throw id s = elim (P.leads.find_unique (has_id id) s.leads) [
    | none ↦ err lead_not_found
    | some lead ↦ ok lead
  ]

  unfoldable pub find_accessible_or_throw : String → RequestUser → State P → Result Lead
  find_accessible_or_throw id requester s = do
    lead ← find_by_id_or_throw id s
    if not (lead.user_id == requester.user_id) && not (is_staff requester.role)
        then err no_access
        else ok lead

  -- The transaction of `transition`, which is committed if both writes passed.
  unfoldable pub commit_transition :
      Option Lead × P.leads.Db → Bool × P.history.Db → State P → Result Lead × State P
  commit_transition (some updated, leads') (true, history') s =
      (ok updated, record s { leads = leads'; history = history' })
  commit_transition (none, leads') (logged, history') s = (err database_failure, s)
  commit_transition (some updated, leads') (false, history') s = (err database_failure, s)

  -- The end of `transition`, once the transaction is committed: the event is handed to the producer.
  unfoldable pub announce : LeadStatus → LeadStatus → Result Lead × State P → Result Lead × State P
  announce from to (ok updated, s) = (
    ok updated,
    record s {
      published =
          s.published
          ++ record {
            lead_id = updated.id;
            user_id = updated.user_id;
            status = to;
            previous_status = some from;
            occurred_at = updated.updated_at;
          }
            ∷ [];
    },
  )
  announce from to (err e, s) = (err e, s)

  -- transition: `lead` is what the caller has read, which another request may have changed since.
  unfoldable pub transition :
      Lead
      → LeadStatus
      → String
      → Option String
      → LeadUpdate
      → Generated
      → State P
      → Result Lead × State P
  transition lead to changed_by note extra new s = elim (assert_valid_transition lead.status to) [
    | err e ↦ (err e, s)
    | ok u ↦ announce lead.status to (
        commit_transition (P.leads.update (has_id lead.id) (apply_update to extra new.now) s.leads)
          (P.history.create (status_change lead.id (some lead.status) to changed_by note new)
            s.history)
          s)
  ]

  unfoldable pub mark_kyc_uploaded : String → String → Generated → State P → Result Lead × State P
  mark_kyc_uploaded lead_id changed_by new s = elim (find_by_id_or_throw lead_id s) [
    | err e ↦ (err e, s)
    | ok lead ↦
        if not (status_eq lead.status created)
        then (ok lead, s)
        else transition lead kyc_uploaded changed_by none no_update new s
  ]

  -- The part of updateStatus before its writes: the lead that it has read and may move.
  unfoldable pub check_update : String → UpdateLeadStatusDto → RequestUser → State P → Result Lead
  check_update id dto requester s = do
    lead ← find_by_id_or_throw id s
    assert_manual_transition_allowed lead.status dto.to_status requester.role
    if requires_reason dto.to_status && not (truthy dto.decline_reason)
        then err reason_required
        else ok lead

  unfoldable pub update_status :
      String → UpdateLeadStatusDto → RequestUser → Generated → ℕ → State P → Result Lead × State P
  update_status id dto requester new roll s = elim (check_update id dto requester s) [
    | err e ↦ (err e, s)
    | ok lead ↦ transition lead dto.to_status requester.user_id dto.note (extra_of dto roll) new s
  ]
