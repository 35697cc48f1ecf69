-- ===== src/Leads/Keeps.antt =====
-- A property of the state that every creation, every move of a lead and every change of the documents
-- keeps is kept by every request.
use oneandro_clone.Prelude.{ℕ, String, ◌≡◌, ◌≢◌, refl, inl, inr, Bool-cases, Option, none}
use oneandro_clone.Common.{LeadStatus, kyc_uploaded, RequestUser}
use oneandro_clone.Leads.{Lead, LeadDb, State}
use oneandro_clone.Leads.Service.{
  LeadUpdate, no_update, extra_of, CreateLeadDto, UpdateLeadStatusDto, Generated, create,
  mark_kyc_uploaded, update_status, transition,
}
use oneandro_clone.Leads.Moves.{
  Moved, transition-Moved, transition-err, update_status-err, update_status-ok,
  mark_kyc_uploaded_cases, Result-cases,
}
use oneandro_clone.Leads.Uploads.{upload-keeps}
use oneandro_clone.Leads.Api.{
  Call, call_create, call_list_mine, call_list, call_get, call_update, call_upload, call_documents,
  post_lead, admits, endpoint_of, handler, serve,
}

-- Of a call that creates a lead, that its body is one of those that are asked for.
abbrev pub HasBody : (CreateLeadDto → Type 0) → Call → Type 0
HasBody Body (call_create dto new) = Body dto
HasBody Body (call_list_mine query) = Unit
HasBody Body (call_list query) = Unit
HasBody Body (call_get id) = Unit
HasBody Body (call_update id dto new roll) = Unit
HasBody Body (call_upload id type file new change) = Unit
HasBody Body (call_documents id) = Unit

pub other_body :
    (Body : CreateLeadDto → Type 0) (call : Call) → endpoint_of call ≢ post_lead → HasBody Body call
unfolding endpoint_of
other_body Body (call_create dto new) h = absurd (h refl)
other_body Body (call_list_mine query) h = tt
other_body Body (call_list query) h = tt
other_body Body (call_get id) h = tt
other_body Body (call_update id dto new roll) h = tt
other_body Body (call_upload id type file new change) h = tt
other_body Body (call_documents id) h = tt

pub any_body : (call : Call) → HasBody (λ dto. Unit) call
any_body (call_create dto new) = tt
any_body (call_list_mine query) = tt
any_body (call_list query) = tt
any_body (call_get id) = tt
any_body (call_update id dto new roll) = tt
any_body (call_upload id type file new change) = tt
any_body (call_documents id) = tt

module _ (P : LeadDb) (max_size : ℕ) (I : State P → Type 0) (Body : CreateLeadDto → Type 0)
    (creates : (user_id : String) (dto : CreateLeadDto) (new : Generated) (s : State P)
      → Body dto
      → I s
      → I (create P user_id dto new s).1)
    (moves : (lead : Lead) (to : LeadStatus) (changed_by : String) (remark : Option String)
        (extra : LeadUpdate) (new : Generated) (s : State P) (u : Lead) (t : State P)
      → Moved P lead to changed_by remark extra new s u t
      → I s
      → I t)
    (frame : (s t : State P)
      → t.leads ≡ s.leads
      → t.history ≡ s.history
      → t.published ≡ s.published
      → I s
      → I t) where
  pub transition-keeps :
      (lead : Lead) (to : LeadStatus) (changed_by : String) (remark : Option String)
      (extra : LeadUpdate) (new : Generated) (s : State P)
      → I s
      → I (transition P lead to changed_by remark extra new s).1
  transition-keeps lead to changed_by remark extra new s v =
      elim (Result-cases (transition P lead to changed_by remark extra new s).0) [
        | inl (e, failed) ↦ rw (transition-err P lead to changed_by remark extra new s e failed) v
        | inr (l, done) ↦
            moves lead to changed_by remark extra new s l _
              (transition-Moved P lead to changed_by remark extra new s l done) v
      ]

  update_status-keeps :
      (id : String) (dto : UpdateLeadStatusDto) (requester : RequestUser) (new : Generated)
      (roll : ℕ) (s : State P)
      → I s
      → I (update_status P id dto requester new roll s).1
  update_status-keeps id dto requester new roll s v =
      elim (Result-cases (update_status P id dto requester new roll s).0) [
        | inl (e, failed) ↦ rw (update_status-err P id dto requester new roll s e failed) v
        | inr (l, done) ↦
            let (lead, found, may, reason, m) =
              update_status-ok P id dto requester new roll s l done in
            moves lead dto.to_status requester.user_id dto.note (extra_of dto roll) new s l _ m v
      ]

  mark_kyc_uploaded-keeps :
      (id changed_by : String) (new : Generated) (s : State P)
      → I s
      → I (mark_kyc_uploaded P id changed_by new s).1
  mark_kyc_uploaded-keeps id changed_by new s v =
      elim (mark_kyc_uploaded_cases P id changed_by new s) [
        | inl (same, past) ↦ rw same v
        | inr (lead, l, found, first, m) ↦
            moves lead kyc_uploaded changed_by none no_update new s l _ m v
      ]

  pub handler-keeps :
      (call : Call) (user : RequestUser) (s : State P)
      → HasBody Body call
      → I s
      → I (handler P max_size call user s).1
  unfolding handler
  handler-keeps (call_create dto new) user s b v = creates user.user_id dto new s b v
  handler-keeps (call_list_mine query) user s b v = v
  handler-keeps (call_list query) user s b v = v
  handler-keeps (call_get id) user s b v = v
  handler-keeps (call_update id dto new roll) user s b v =
      update_status-keeps id dto user new roll s v
  handler-keeps (call_upload id type file new change) user s b v =
      upload-keeps P I mark_kyc_uploaded-keeps frame max_size id type file user new change s v
  handler-keeps (call_documents id) user s b v = v

  pub serve-keeps :
      (call : Call) (user : RequestUser) (s : State P)
      → HasBody Body call
      → I s
      → I (serve P max_size call user s).1
  unfolding serve
  serve-keeps call user s b v = elim (Bool-cases (admits (endpoint_of call) user)) [
    | inl pass ↦ rw pass (handler-keeps call user s b v)
    | inr stop ↦ rw stop v
  ]
