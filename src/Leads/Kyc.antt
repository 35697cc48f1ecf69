-- ===== src/Leads/Kyc.antt =====
-- apps/lead-service/src/kyc/kyc.service.ts
use oneandro_clone.Prelude.{
  ℕ, ltb, String, Bool, not, Option, none, some, List, [], ◌∷◌, ◌++◌, any, eqb, ◌==◌, if◌then◌else◌,
}
use oneandro_clone.Common.{RequestUser}
use oneandro_clone.Leads.{
  Lead, KycDocument, DocumentType, LeadDb, State, Result, ok, err, no_file, unsupported_type,
  file_too_large, storage_failure, database_failure, ◌>>=◌,
}
use oneandro_clone.Leads.Service.{Generated, find_accessible_or_throw, mark_kyc_uploaded}
use oneandro_clone.Leads.Storage.{storage_path}

-- UploadedFileLike; of the buffer only its length is kept. Nothing links it to `size`.
pub record UploadedFile : Type 0 where
  pub original_name : List ℕ
  pub mime_type : String
  pub size : ℕ
  pub buffer_length : ℕ

-- ALLOWED_MIME_TYPES.has
unfoldable pub is_allowed_mime : String → Bool
is_allowed_mime t = any (λ m. m == t) ("application/pdf" ∷ "image/jpeg" ∷ "image/png" ∷ [])

-- `file` may be absent.
unfoldable pub assert_valid_file : ℕ → Option UploadedFile → Result UploadedFile
assert_valid_file max_size none = err no_file
assert_valid_file max_size (some file) =
    if eqb file.size 0
    then err no_file
    else if not (is_allowed_mime file.mime_type)
    then err unsupported_type
    else if ltb max_size file.size
    then err file_too_large
    else ok file

-- What is made up for a document: its id, the `randomUUID()` of its file, the instant, and whether
-- the disk took the file.
pub record NewDocument : Type 0 where
  pub document_id : String
  pub file_uuid : List ℕ
  pub now : ℕ
  pub saved : Bool

unfoldable pub kyc_document :
    String → DocumentType → UploadedFile → RequestUser → NewDocument → KycDocument
kyc_document lead_id type file requester new = record {
  id = new.document_id;
  lead_id = lead_id;
  document_type = type;
  original_filename = file.original_name;
  mime_type = file.mime_type;
  size_bytes = file.buffer_length;
  storage_path = storage_path lead_id new.file_uuid file.original_name;
  uploaded_by_user_id = requester.user_id;
  created_at = new.now;
}

module _ (P : LeadDb) where
  -- The checks of `upload`, before anything is stored.
  unfoldable pub check_upload :
      ℕ → String → Option UploadedFile → RequestUser → State P → Result UploadedFile
  check_upload max_size lead_id file requester s = do
    lead ← find_accessible_or_throw P lead_id requester s
    assert_valid_file max_size file

  -- The end of `upload`: the document is returned unless marking the lead failed.
  abbrev pub after_mark : KycDocument → Result Lead × State P → Result KycDocument × State P
  after_mark document (ok lead, s) = (ok document, s)
  after_mark document (err e, s) = (err e, s)

  unfoldable pub store_document : KycDocument → Generated → State P → Result KycDocument × State P
  store_document document change s =
      let (written, documents') = P.documents.create document s.documents in
      let t : State P = record s { documents = documents' } in
      if written
      then after_mark document
          (mark_kyc_uploaded P document.lead_id document.uploaded_by_user_id change t)
      else (err database_failure, t)

  unfoldable pub upload :
      ℕ
      → String
      → DocumentType
      → Option UploadedFile
      → RequestUser
      → NewDocument
      → Generated
      → State P
      → Result KycDocument × State P
  upload max_size lead_id type file requester new change s =
      elim (check_upload max_size lead_id file requester s) [
        | err e ↦ (err e, s)
        | ok f ↦
            let document = kyc_document lead_id type f requester new in
            if new.saved
            then store_document document change
                (record s { files = s.files ++ document.storage_path ∷ [] })
            else (err storage_failure, s)
      ]

  unfoldable pub list_for_lead : String → RequestUser → State P → Result (List KycDocument)
  list_for_lead lead_id requester s = do
    lead ← find_accessible_or_throw P lead_id requester s
    ok (P.documents.find_many (λ d. d.lead_id == lead_id) s.documents)
