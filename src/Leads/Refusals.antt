-- ===== src/Leads/Refusals.antt =====
-- What the answers with a status of 400 to 499 leave behind.
use oneandro_clone.Prelude.{
  ℕ, String, ◌≡◌, ◌≤◌, ◌<◌, refl, inl, inr, Bool, true, false, Option, none, some, arith,
  Bool-cases,
}
use oneandro_clone.Common.{
  LeadStatus, created, kyc_uploaded, status_eq, status_eq_sound, RequestUser,
}
use oneandro_clone.Common.Validation.{Validators}
use oneandro_clone.Leads.{
  Lead, DocumentType, KycDocument, LeadDb, State, LeadError, database_failure, Result, ok, err,
  http_status,
}
use oneandro_clone.Leads.StateMachine.{allowed_transitions, can_move}
use oneandro_clone.Leads.Service.{
  CreateLeadDto, Generated, no_update, create, commit_transition, announce, find_by_id_or_throw,
  find_accessible_or_throw, mark_kyc_uploaded, update_status,
}
use oneandro_clone.Leads.Kyc.{
  UploadedFile, NewDocument, check_upload, store_document, upload, kyc_document, after_mark,
}
use oneandro_clone.Leads.Requests.{Jwt, Credentials, authenticate}
use oneandro_clone.Leads.Api.{
  Call, call_create, call_list_mine, call_list, call_get, call_update, call_upload, call_documents,
  endpoint_of, handler, admits, post_lead, patch_status, post_document, Endpoint, serialized,
  kyc_document_entity,
}
use oneandro_clone.Leads.Http.{
  HttpRequest, handled, route_of, file_passes, piped, http, status_code, result_status, success,
  after_guard, after_pipes, http_create, http_list_mine, http_list, http_get, http_update,
  http_upload, http_documents,
}
use oneandro_clone.Leads.Moves.{transition-legal, update_status-err, Result-cases}

-- Errors that are answered with 500.
abbrev pub IsInternal : LeadError → Type 0
IsInternal e = http_status e ≡ 500

module _ (P : LeadDb) where
  create-IsInternal :
      (user_id : String) (dto : CreateLeadDto) (new : Generated) (s : State P) (e : LeadError)
      → (create P user_id dto new s).0 ≡ err e
      → IsInternal e
  unfolding create http_status
  create-IsInternal user_id dto new s e h = ground arith

  commit-IsInternal :
      (from to : LeadStatus) (u : Option Lead × P.leads.Db) (w : Bool × P.history.Db) (s : State P)
      (e : LeadError)
      → (announce P from to (commit_transition P u w s)).0 ≡ err e
      → IsInternal e
  unfolding commit_transition announce http_status
  commit-IsInternal from to (some updated, leads') (true, history') s e h = cc
  commit-IsInternal from to (none, leads') (logged, history') s e h = ground arith
  commit-IsInternal from to (some updated, leads') (false, history') s e h = ground arith

  first_move : (status : LeadStatus) → status ≡ created → can_move status kyc_uploaded ≡ true
  unfolding can_move allowed_transitions
  first_move status h = rw h refl

  -- Marking a lead that is there fails with an error of the database only.
  mark-IsInternal :
      (id by : String) (new : Generated) (s : State P) (lead : Lead) (e : LeadError)
      → find_by_id_or_throw P id s ≡ ok lead
      → (mark_kyc_uploaded P id by new s).0 ≡ err e
      → IsInternal e
  unfolding mark_kyc_uploaded
  mark-IsInternal id by new s lead e found h = elim (Bool-cases (status_eq lead.status created)) [
    | inr past ↦ cc (rw past at (rw (found, mark_kyc_uploaded) at h))
    | inl first ↦ commit-IsInternal lead.status kyc_uploaded _ _ s e (
        rw
          (transition-legal P lead kyc_uploaded by none no_update new s
            (first_move lead.status (status_eq_sound lead.status created first)))
          at (rw first at (rw (found, mark_kyc_uploaded) at h)))
  ]

  store_document-IsInternal :
      (d : KycDocument) (change : Generated) (s : State P) (lead : Lead) (e : LeadError)
      → find_by_id_or_throw P d.lead_id s ≡ ok lead
      → (store_document P d change s).0 ≡ err e
      → IsInternal e
  unfolding store_document find_by_id_or_throw http_status
  store_document-IsInternal d change s lead e found h =
      elim (Bool-cases (P.documents.create d s.documents).0) [
        | inr refused ↦ database (rw refused at h)
        | inl written ↦
            mark-IsInternal d.lead_id d.uploaded_by_user_id change
              (record s { documents = (P.documents.create d s.documents).1 }) lead e found
              (marked _ (rw written at h))
      ]
    where
      database : ◌≡◌ {A = Result KycDocument} (err database_failure) (err e) → http_status e ≡ 500
      database h = ground arith

      marked : (r : Result Lead × State P) → (after_mark P d r).0 ≡ err e → r.0 ≡ err e
      marked (ok l, t) h = cc
      marked (err e', t) h = cc

  check_upload-found :
      (max_size : ℕ) (lead_id : String) (file : Option UploadedFile) (requester : RequestUser)
      (s : State P) (f : UploadedFile)
      → check_upload P max_size lead_id file requester s ≡ ok f
      → (lead : Lead) × (find_by_id_or_throw P lead_id s ≡ ok lead)
  unfolding check_upload find_accessible_or_throw
  check_upload-found max_size lead_id file requester s f h =
      elim (Result-cases (find_by_id_or_throw P lead_id s)) [
        | inr found ↦ found
        | inl (e, missing) ↦ cc (rw missing at h)
      ]

  -- An upload that fails with another error than one of the server has changed nothing.
  upload-refused :
      (max_size : ℕ) (lead_id : String) (type : DocumentType) (file : Option UploadedFile)
      (requester : RequestUser) (new : NewDocument) (change : Generated) (s : State P)
      (e : LeadError)
      → (upload P max_size lead_id type file requester new change s).0 ≡ err e
      → http_status e < 500
      → (upload P max_size lead_id type file requester new change s).1 ≡ s
  unfolding upload find_by_id_or_throw http_status kyc_document
  upload-refused max_size lead_id type file requester new change s e h small =
      elim (Result-cases (check_upload P max_size lead_id file requester s)) [
        | inl (e', refused) ↦ rw (refused, upload) refl
        | inr (f, passed) ↦ elim (Bool-cases new.saved) [
          | inr lost ↦ rw (passed, upload) (rw lost refl)
          | inl saved ↦
              let (lead, found) = check_upload-found max_size lead_id file requester s f passed in
              absurd (
                omega (
                  arith,
                  small,
                  store_document-IsInternal _ change _ lead e found
                      (rw saved at (rw (passed, upload) at h)),
                ))
        ]
      ]

abbrev pub IsRefusal : ℕ → Type 0
IsRefusal code = (400 ≤ code) × (code < 500)

refused_result :
    {A : Type 0} (route : Endpoint) (r : Result A)
    → IsRefusal (result_status route r)
    → (e : LeadError) × (r ≡ err e) × (http_status e < 500)
refused_result route (err e) h = (e, refl, h.1)
refused_result route (ok a) h = absurd (omega (arith, h.0, success_small route))
  where
    success_small : (route : Endpoint) → success route ≤ 201
    success_small route = ground arith

serialized-err :
    {A B : Type 0} (entity : A → B) (r : Result A) (e : LeadError)
    → serialized entity r ≡ err e
    → r ≡ err e
serialized-err entity (ok a) e h = cc
serialized-err entity (err e') e h = cc

module _ (P : LeadDb) (max_size : ℕ) where
  handler-refused :
      (call : Call) (user : RequestUser) (s : State P)
      → IsRefusal (status_code (handled (endpoint_of call) (handler P max_size call user s).0))
      → (handler P max_size call user s).1 ≡ s
  unfolding handler status_code endpoint_of
  handler-refused (call_create dto new) user s h =
      let (e, failed, small) = refused_result post_lead (create P user.user_id dto new s).0 h in
      absurd (omega (arith, small, create-IsInternal P user.user_id dto new s e failed))
  handler-refused (call_list_mine query) user s h = refl
  handler-refused (call_list query) user s h = refl
  handler-refused (call_get id) user s h = refl
  handler-refused (call_update id dto new roll) user s h =
      let (e, failed, small) =
        refused_result patch_status (update_status P id dto user new roll s).0 h in
      update_status-err P id dto user new roll s e failed
  handler-refused (call_upload id type file new change) user s h =
      let (e, failed, small) =
        refused_result post_document
          (serialized kyc_document_entity (upload P max_size id type file user new change s).0) h in
      upload-refused P max_size id type file user new change s e
        (serialized-err kyc_document_entity (upload P max_size id type file user new change s).0 e
          failed)
        small
  handler-refused (call_documents id) user s h = refl

pub piped-route_of :
    (V : Validators) (req : HttpRequest V) (call : Call)
    → piped V req ≡ some call
    → endpoint_of call ≡ route_of V req
unfolding piped route_of endpoint_of
piped-route_of V (http_create body new) call h = ground arith
piped-route_of V (http_list_mine query) call h = ground arith
piped-route_of V (http_list query) call h = ground arith
piped-route_of V (http_get id) call h = ground arith
piped-route_of V (http_update id body new roll) call h = ground arith
piped-route_of V (http_upload id body file new change) call h = ground arith
piped-route_of V (http_documents id) call h = ground arith

module _ (V : Validators) (J : Jwt) (P : LeadDb) (max_size : ℕ) where
  after_pipes-refused :
      (req : HttpRequest V) (call : Option Call) (user : RequestUser) (s : State P)
      → piped V req ≡ call
      → IsRefusal (status_code (after_pipes V J P max_size (route_of V req) call user s).0)
      → (after_pipes V J P max_size (route_of V req) call user s).1 ≡ s
  after_pipes-refused req none user s e h = refl
  after_pipes-refused req (some call) user s e h =
      handler-refused P max_size call user s (rw (piped-route_of V req call e) h)

  after_guard-refused :
      (caller : Option RequestUser) (req : HttpRequest V) (s : State P)
      → IsRefusal (status_code (after_guard V J P max_size caller req s).0)
      → (after_guard V J P max_size caller req s).1 ≡ s
  after_guard-refused none req s h = refl
  after_guard-refused (some user) req s h = elim (Bool-cases (admits (route_of V req) user)) [
    | inr stop ↦ rw stop refl
    | inl pass ↦ elim (Bool-cases (file_passes V req)) [
      | inr large ↦ rw pass (rw large refl)
      | inl small ↦ rw pass (
          rw small (after_pipes-refused req (piped V req) user s refl (rw small at (rw pass at h))))
    ]
  ]

  -- A request that is answered with a status from 400 to 499, for whatever reason (no token, no role, a
  -- body that does not pass, a lead that is not there, a move that is not allowed, a file that is refused),
  -- has changed no table and no file, and has published no event.
  pub http-refused :
      (creds : Credentials) (req : HttpRequest V) (s : State P)
      → 400 ≤ status_code (http V J P max_size creds req s).0
      → status_code (http V J P max_size creds req s).0 < 500
      → (http V J P max_size creds req s).1 ≡ s
  unfolding http
  http-refused creds req s least most =
      after_guard-refused (authenticate J creds) req s (least, most)
