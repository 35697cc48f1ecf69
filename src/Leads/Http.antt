-- ===== src/Leads/Http.antt =====
-- A whole request to apps/lead-service: src/common/guards, then the bodies and the pipes of
-- src/leads/leads.controller.ts and src/kyc/kyc.controller.ts, then the handler, and the status of the
-- answer.
use oneandro_clone.Prelude.{ℕ, String, ◌*◌, Bool, true, Option, none, some, leb, if◌then◌else◌}
use oneandro_clone.Common.{RequestUser}
use oneandro_clone.Common.Validation.{Validators, Fields, require, ◌>>=◌, ◌>>◌}
use oneandro_clone.Leads.{LeadDb, State, Result, ok, err, http_status}
use oneandro_clone.Leads.Service.{Generated}
use oneandro_clone.Leads.Kyc.{UploadedFile, NewDocument}
use oneandro_clone.Leads.Requests.{Jwt, Credentials, authenticate}
use oneandro_clone.Leads.Bodies.{
  create_lead_dto, update_lead_status_dto, list_leads_query, document_type_of,
}
use oneandro_clone.Leads.Api.{
  Endpoint, post_lead, get_mine, get_leads, get_lead, patch_status, post_document, get_documents,
  admits, Call, call_create, call_list_mine, call_list, call_get, call_update, call_upload,
  call_documents, Response, forbidden, a_lead, a_page, a_document, some_documents, handler,
}

-- A request as it comes: the parameter of its path, the fields of its body or query, and the file.
pub data HttpRequest (V : Validators) : Type 0 where
  http_create : Fields V → Generated → HttpRequest V
  http_list_mine : Fields V → HttpRequest V
  http_list : Fields V → HttpRequest V
  http_get : String → HttpRequest V
  http_update : String → Fields V → Generated → ℕ → HttpRequest V
  http_upload : String → Fields V → Option UploadedFile → NewDocument → Generated → HttpRequest V
  http_documents : String → HttpRequest V

-- MULTER_HARD_CAP_BYTES
abbrev pub multer_hard_cap_bytes : ℕ
multer_hard_cap_bytes = 15 * 1024 * 1024

abbrev pub within_cap : Option UploadedFile → Bool
within_cap none = true
within_cap (some file) = leb file.size multer_hard_cap_bytes

-- The statuses of the answers that no handler gives.
pub data HttpReply : Type 0 where
  no_token no_role payload_too_large bad_request : HttpReply
  handled : Endpoint → Response → HttpReply

module _ (V : Validators) where
  unfoldable pub route_of : HttpRequest V → Endpoint
  route_of (http_create body new) = post_lead
  route_of (http_list_mine query) = get_mine
  route_of (http_list query) = get_leads
  route_of (http_get id) = get_lead
  route_of (http_update id body new roll) = patch_status
  route_of (http_upload id body file new change) = post_document
  route_of (http_documents id) = get_documents

  -- FileInterceptor, which runs before the pipes.
  unfoldable pub file_passes : HttpRequest V → Bool
  file_passes (http_upload id body file new change) = within_cap file
  file_passes (http_create body new) = true
  file_passes (http_list_mine query) = true
  file_passes (http_list query) = true
  file_passes (http_get id) = true
  file_passes (http_update id body new roll) = true
  file_passes (http_documents id) = true

  -- The pipes: ParseUUIDPipe for the id, ValidationPipe for the fields.
  unfoldable pub piped : HttpRequest V → Option Call
  piped (http_create body new) = do dto ← create_lead_dto V body; some (call_create dto new)
  piped (http_list_mine query) = do q ← list_leads_query V query; some (call_list_mine q)
  piped (http_list query) = do q ← list_leads_query V query; some (call_list q)
  piped (http_get id) = do require (V.is_uuid id); some (call_get id)
  piped (http_update id body new roll) = do
    require (V.is_uuid id)
    dto ← update_lead_status_dto V body
    some (call_update id dto new roll)
  piped (http_upload id body file new change) = do
    require (V.is_uuid id)
    type ← document_type_of V body
    some (call_upload id type file new change)
  piped (http_documents id) = do require (V.is_uuid id); some (call_documents id)

  module _ (J : Jwt) (P : LeadDb) (max_size : ℕ) where
    abbrev pub answered : Endpoint → Response × State P → HttpReply × State P
    answered route (response, s) = (handled route response, s)

    abbrev pub after_pipes : Endpoint → Option Call → RequestUser → State P → HttpReply × State P
    after_pipes route none user s = (bad_request, s)
    after_pipes route (some call) user s = answered route (handler P max_size call user s)

    abbrev pub after_guard : Option RequestUser → HttpRequest V → State P → HttpReply × State P
    after_guard none req s = (no_token, s)
    after_guard (some user) req s =
        if admits (route_of req) user
        then (if file_passes req
            then after_pipes (route_of req) (piped req) user s
            else (payload_too_large, s))
        else (no_role, s)

    unfoldable pub http : Credentials → HttpRequest V → State P → HttpReply × State P
    http creds req s = after_guard (authenticate J creds) req s

-- @Post answers 201, the other routes 200.
abbrev pub success : Endpoint → ℕ
success post_lead = 201
success post_document = 201
success get_mine = 200
success get_leads = 200
success get_lead = 200
success patch_status = 200
success get_documents = 200

abbrev pub result_status {ℓ} : {A : Type ℓ} → Endpoint → Result A → ℕ
result_status route (ok a) = success route
result_status route (err e) = http_status e

unfoldable pub status_code : HttpReply → ℕ
status_code no_token = 401
status_code no_role = 403
status_code payload_too_large = 413
status_code bad_request = 400
status_code (handled route forbidden) = 403
status_code (handled route (a_lead r)) = result_status route r
status_code (handled route (a_page page)) = success route
status_code (handled route (a_document r)) = result_status route r
status_code (handled route (some_documents r)) = result_status route r
