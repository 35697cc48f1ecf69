-- ===== src/Leads/Api.antt =====
-- The routes of apps/lead-service: src/leads/leads.controller.ts and src/kyc/kyc.controller.ts, behind
-- src/common/guards/roles.guard.ts.
use oneandro_clone.Prelude.{
  map, ℕ, String, ◌≡◌, refl, sym, inl, inr, Bool, true, false, Option, none, some, List, [], ◌∷◌,
  arith, if◌then◌else◌, Bool-cases,
}
use oneandro_clone.Common.{
  Role, loan_officer, underwriter, admin, system, RequestUser, LeadStatus, includes_role,
}
use oneandro_clone.Leads.{Lead, KycDocument, DocumentType, LeadDb, State, Result, ok, err}
use oneandro_clone.Leads.Transitions.{may_drive}
use oneandro_clone.Leads.Service.{
  CreateLeadDto, UpdateLeadStatusDto, Generated, create, find_accessible_or_throw, update_status,
}
use oneandro_clone.Leads.Moves.{Result-cases, update_status-err, update_status-ok}
use oneandro_clone.Leads.Listing.{ListLeadsQuery, list, list_for_user}
use oneandro_clone.Leads.Kyc.{UploadedFile, NewDocument, upload, list_for_lead}
use oneandro_clone.Pagination.{PaginatedResult}

pub data Endpoint : Type 0 where
  post_lead get_mine get_leads get_lead patch_status post_document get_documents : Endpoint

-- The @Roles() of each handler.
unfoldable pub required_roles : Endpoint → Option (List Role)
required_roles post_lead = none
required_roles get_mine = none
required_roles get_leads = some (loan_officer ∷ underwriter ∷ admin ∷ [])
required_roles get_lead = none
required_roles patch_status = some (loan_officer ∷ underwriter ∷ admin ∷ system ∷ [])
required_roles post_document = none
required_roles get_documents = none

-- RolesGuard.canActivate; `false` is the ForbiddenException.
unfoldable pub can_activate : Option (List Role) → Role → Bool
can_activate none role = true
can_activate (some []) role = true
can_activate (some (r ∷ rs)) role = includes_role (r ∷ rs) role

abbrev pub admits : Endpoint → RequestUser → Bool
admits e requester = can_activate (required_roles e) requester.role

-- A request to one of the routes, with its body and what is made up while it runs.
pub data Call : Type 0 where
  call_create : CreateLeadDto → Generated → Call
  call_list_mine : ListLeadsQuery → Call
  call_list : ListLeadsQuery → Call
  call_get : String → Call
  call_update : String → UpdateLeadStatusDto → Generated → ℕ → Call
  call_upload : String → DocumentType → Option UploadedFile → NewDocument → Generated → Call
  call_documents : String → Call

unfoldable pub endpoint_of : Call → Endpoint
endpoint_of (call_create dto new) = post_lead
endpoint_of (call_list_mine query) = get_mine
endpoint_of (call_list query) = get_leads
endpoint_of (call_get id) = get_lead
endpoint_of (call_update id dto new roll) = patch_status
endpoint_of (call_upload id type file new change) = post_document
endpoint_of (call_documents id) = get_documents

-- KycDocumentEntity as it is serialised: the path on the disk is excluded.
pub record KycDocumentEntity : Type 0 where
  pub id : String
  pub lead_id : String
  pub document_type : DocumentType
  pub original_filename : List ℕ
  pub mime_type : String
  pub size_bytes : ℕ
  pub uploaded_by_user_id : String
  pub created_at : ℕ

unfoldable pub kyc_document_entity : KycDocument → KycDocumentEntity
kyc_document_entity d = record {
  id = d.id;
  lead_id = d.lead_id;
  document_type = d.document_type;
  original_filename = d.original_filename;
  mime_type = d.mime_type;
  size_bytes = d.size_bytes;
  uploaded_by_user_id = d.uploaded_by_user_id;
  created_at = d.created_at;
}

abbrev pub serialized {κ ℓ} : {A : Type κ} {B : Type ℓ} → (A → B) → Result A → Result B
serialized entity (ok row) = ok (entity row)
serialized entity (err e) = err e

pub data Response : Type 0 where
  forbidden : Response
  a_lead : Result Lead → Response
  a_page : PaginatedResult Lead → Response
  a_document : Result KycDocumentEntity → Response
  some_documents : Result (List KycDocumentEntity) → Response

module _ (P : LeadDb) (max_size : ℕ) where
  -- The handler of the route; an `err` becomes the exception's response.
  unfoldable pub handler : Call → RequestUser → State P → Response × State P
  handler (call_create dto new) user s =
      let (r, s') = create P user.user_id dto new s in (a_lead r, s')
  handler (call_list_mine query) user s = (a_page (list_for_user P user.user_id query s), s)
  handler (call_list query) user s = (a_page (list P query none s), s)
  handler (call_get id) user s = (a_lead (find_accessible_or_throw P id user s), s)
  handler (call_update id dto new roll) user s =
      let (r, s') = update_status P id dto user new roll s in (a_lead r, s')
  handler (call_upload id type file new change) user s =
      let (r, s') = upload P max_size id type file user new change s in
      (a_document (serialized kyc_document_entity r), s')
  handler (call_documents id) user s =
      (some_documents (serialized (map kyc_document_entity) (list_for_lead P id user s)), s)

  unfoldable pub serve : Call → RequestUser → State P → Response × State P
  serve call user s = if admits (endpoint_of call) user then handler call user s else (forbidden, s)

  moves_pass :
      (role : Role) (from to : LeadStatus)
      → can_activate (required_roles patch_status) role ≡ false
      → may_drive role from to ≡ false
  unfolding can_activate required_roles
  moves_pass role from to h = ground arith

  refused_anyway :
      (id : String) (dto : UpdateLeadStatusDto) (new : Generated) (roll : ℕ) (user : RequestUser)
      (s : State P)
      → admits patch_status user ≡ false
      → (update_status P id dto user new roll s).1 ≡ s
  refused_anyway id dto new roll user s h =
      elim (Result-cases (update_status P id dto user new roll s).0) [
        | inl (e, refused) ↦ update_status-err P id dto user new roll s e refused
        | inr (l, done) ↦
            let (lead, found, may, reason, moved) =
              update_status-ok P id dto user new roll s l done in
            cc (moves_pass user.role lead.status dto.to_status h)
      ]

  -- The roles on the route of a change of status refuse nobody whom the state machine would have let
  -- through: the tables, events and files after the request are those that the service's own
  -- checks leave.
  pub serve-update_status :
      (id : String) (dto : UpdateLeadStatusDto) (new : Generated) (roll : ℕ) (user : RequestUser)
      (s : State P)
      → (serve (call_update id dto new roll) user s).1 ≡ (update_status P id dto user new roll s).1
  unfolding serve handler endpoint_of
  serve-update_status id dto new roll user s = elim (Bool-cases (admits patch_status user)) [
    | inl pass ↦ rw pass refl
    | inr stop ↦ rw stop (sym (refused_anyway id dto new roll user s stop))
  ]
