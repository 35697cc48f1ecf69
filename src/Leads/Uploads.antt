-- ===== src/Leads/Uploads.antt =====
-- What an upload has done when it succeeds, and that it keeps the invariants of the leads.
use oneandro_clone.Prelude.{
  ℕ, ◌≤◌, ◌<◌, String, ◌≡◌, refl, ◌⊎◌, inl, inr, true, Option, none, some, [], ◌∷◌, ◌++◌, arith,
  find, eq_iff, Bool-cases,
}
use oneandro_clone.Common.{RequestUser}
use oneandro_clone.Leads.{Lead, KycDocument, DocumentType, LeadDb, State, Result, ok, err}
use oneandro_clone.Leads.Service.{
  Generated, has_id, is_staff, find_by_id_or_throw, find_accessible_or_throw, mark_kyc_uploaded,
}
use oneandro_clone.Leads.Kyc.{
  UploadedFile, is_allowed_mime, assert_valid_file, NewDocument, kyc_document, check_upload,
  after_mark, store_document, upload,
}
use oneandro_clone.Leads.Moves.{mark_kyc_uploaded_cases, Result-cases}
use oneandro_clone.Leads.Audit.{IsAudited, mark_kyc_uploaded-IsAudited}
use oneandro_clone.Leads.Scores.{AreSound, mark_kyc_uploaded-AreSound}

module _ (P : LeadDb) where
  -- Uploading keeps what holds of every state with the same leads and history, if marking does.
  module _ (I : State P → Type 0)
      (mark : (id changed_by : String) (new : Generated) (s : State P)
        → I s
        → I (mark_kyc_uploaded P id changed_by new s).1)
      (frame : (s t : State P)
        → t.leads ≡ s.leads
        → t.history ≡ s.history
        → t.published ≡ s.published
        → I s
        → I t) where
    after_mark-keeps :
        (d : KycDocument) (r : Result Lead × State P) → I r.1 → I (after_mark P d r).1
    after_mark-keeps d (ok lead, s) h = h
    after_mark-keeps d (err e, s) h = h

    store_document-keeps :
        (d : KycDocument) (change : Generated) (s : State P)
        → I s
        → I (store_document P d change s).1
    unfolding store_document
    store_document-keeps d change s h = elim (Bool-cases (P.documents.create d s.documents).0) [
      | inl written ↦ rw written (
          after_mark-keeps d _
            (mark d.lead_id d.uploaded_by_user_id change _ (frame s _ refl refl refl h)))
      | inr refused ↦ rw refused (frame s _ refl refl refl h)
    ]

    pub upload-keeps :
        (max_size : ℕ) (lead_id : String) (type : DocumentType) (file : Option UploadedFile)
        (requester : RequestUser) (new : NewDocument) (change : Generated) (s : State P)
        → I s
        → I (upload P max_size lead_id type file requester new change s).1
    unfolding upload
    upload-keeps max_size lead_id type file requester new change s h =
        elim (Result-cases (check_upload P max_size lead_id file requester s)) [
          | inl (e, refused) ↦ rw (refused, upload) h
          | inr (f, passed) ↦ elim (Bool-cases new.saved) [
            | inl saved ↦
                rw (passed, upload)
                  (rw saved (store_document-keeps _ change _ (frame s _ refl refl refl h)))
            | inr lost ↦ rw (passed, upload) (rw lost h)
          ]
        ]

module _ (P : LeadDb) where
  documents-mark :
      (id by : String) (new : Generated) (s : State P)
      → (mark_kyc_uploaded P id by new s).1.documents ≡ s.documents
  documents-mark id by new s = elim (mark_kyc_uploaded_cases P id by new s) [
    | inl (same, past) ↦ rw same
    | inr (lead, l, found, first, m) ↦ m.documents_after
  ]

  added_row :
      (d : KycDocument) (db : P.documents.Db)
      → (P.documents.create d db).0 ≡ true
      → P.documents.rows (P.documents.create d db).1 ≡ P.documents.rows db ++ d ∷ []
  added_row d db h = rw P.documents.rows-create (ground (arith, P.documents.create-written d db))

  after_mark-ok :
      (d : KycDocument) (r : Result Lead × State P) {d' : KycDocument}
      → (after_mark P d r).0 ≡ ok d'
      → (d' ≡ d) × ((after_mark P d r).1 ≡ r.1)
  after_mark-ok d (ok lead, s) h = (cc, refl)
  after_mark-ok d (err e, s) h = cc

  store_document-ok :
      (d : KycDocument) (change : Generated) (s : State P) (d' : KycDocument)
      → (store_document P d change s).0 ≡ ok d'
      → (d' ≡ d)
        × (P.documents.rows (store_document P d change s).1.documents
            ≡ P.documents.rows s.documents ++ d' ∷ [])
  unfolding store_document
  store_document-ok d change s d' h = elim (Bool-cases (P.documents.create d s.documents).0) [
    | inr refused ↦ cc (rw (refused, store_document) at h)
    | inl written ↦
        let (same, after) = after_mark-ok d _ {d' = d'} (rw (written, store_document) at h) in
        (same, rw written (rw (after, documents-mark, same) (added_row d s.documents written)))
  ]

assert_valid_file-ok :
    (max_size : ℕ) (file : Option UploadedFile) (f : UploadedFile)
    → assert_valid_file max_size file ≡ ok f
    → (file ≡ some f) × (0 < f.size) × (f.size ≤ max_size) × (is_allowed_mime f.mime_type ≡ true)
unfolding assert_valid_file
assert_valid_file-ok max_size none f h = cc
assert_valid_file-ok max_size (some file) f h = ground arith

pub find_accessible-ok :
    (P : LeadDb) (id : String) (requester : RequestUser) (s : State P) (lead : Lead)
    → find_accessible_or_throw P id requester s ≡ ok lead
    → (find (has_id id) (P.leads.rows s.leads) ≡ some lead)
      × ((lead.user_id ≡ requester.user_id) ⊎ (is_staff requester.role ≡ true))
unfolding find_accessible_or_throw find_by_id_or_throw
find_accessible-ok P id requester s lead h =
    ground
      (arith, P.leads.find_unique-rows (has_id id) s.leads, eq_iff lead.user_id requester.user_id)

module _ (P : LeadDb) (max_size : ℕ) (lead_id : String) (type : DocumentType)
    (file : Option UploadedFile) (requester : RequestUser) (new : NewDocument) (change : Generated)
    (s : State P) where
  -- If the history is a complete and legal account of the leads, it stays so after an upload,
  -- successful or not.
  pub upload-IsAudited :
      IsAudited P s → IsAudited P (upload P max_size lead_id type file requester new change s).1
  upload-IsAudited =
      upload-keeps P (IsAudited P) (λ id by n t v. mark_kyc_uploaded-IsAudited P t v id by n)
        (λ a b p q r v. record { at = λ id. rw (p, q) (v.at id) }) max_size lead_id type file
        requester new change s

  -- If every lead is sound, with a score past the credit check and a reason for a refusal, every
  -- lead is so after an upload, successful or not.
  pub upload-AreSound :
      AreSound P s → AreSound P (upload P max_size lead_id type file requester new change s).1
  upload-AreSound =
      upload-keeps P (AreSound P) (λ id by n t v. mark_kyc_uploaded-AreSound P t v id by n)
        (λ a b p q r v. record { at = λ id l. rw p (v.at id l) }) max_size lead_id type file
        requester new change s

  check_upload-ok :
      (f : UploadedFile)
      → check_upload P max_size lead_id file requester s ≡ ok f
      → (lead : Lead) × (find (has_id lead_id) (P.leads.rows s.leads) ≡ some lead)
        × ((lead.user_id ≡ requester.user_id) ⊎ (is_staff requester.role ≡ true))
        × (file ≡ some f)
        × (0 < f.size)
        × (f.size ≤ max_size)
        × (is_allowed_mime f.mime_type ≡ true)
  unfolding check_upload
  check_upload-ok f h = elim (Result-cases (find_accessible_or_throw P lead_id requester s)) [
    | inl (e, refused) ↦ cc (rw (refused, check_upload) at h)
    | inr (lead, passed) ↦
        let (found, may) = find_accessible-ok P lead_id requester s lead passed in
        let (given, some_bytes, fits, allowed) =
          assert_valid_file-ok max_size file f (rw (passed, check_upload) at h) in
        (lead, found, may, given, some_bytes, fits, allowed)
  ]

  -- An upload that succeeds: the caller owns the lead or is staff, the file was given, is not empty,
  -- is not too large and has an allowed type; and exactly this document is added.
  pub upload-ok :
      (d : KycDocument)
      → (upload P max_size lead_id type file requester new change s).0 ≡ ok d
      → (f : UploadedFile) × (lead : Lead) × (find (has_id lead_id) (P.leads.rows s.leads)
          ≡ some lead)
        × ((lead.user_id ≡ requester.user_id) ⊎ (is_staff requester.role ≡ true))
        × (file ≡ some f)
        × (0 < f.size)
        × (f.size ≤ max_size)
        × (is_allowed_mime f.mime_type ≡ true)
        × (d ≡ kyc_document lead_id type f requester new)
        × (P.documents.rows (upload P max_size lead_id type file requester new change s).1.documents
            ≡ P.documents.rows s.documents ++ d ∷ [])
  unfolding upload kyc_document
  upload-ok d h = elim (Result-cases (check_upload P max_size lead_id file requester s)) [
    | inl (e, refused) ↦ cc (rw (refused, upload) at h)
    | inr (f, passed) ↦ elim (Bool-cases new.saved) [
      | inr lost ↦ cc (rw lost at (rw (passed, upload) at h))
      | inl saved ↦
          let (lead, found, may, given, some_bytes, fits, allowed) = check_upload-ok f passed in
          let (same, added) =
            store_document-ok P _ change _ d (rw saved at (rw (passed, upload) at h)) in
          (
            f,
            lead,
            found,
            may,
            given,
            some_bytes,
            fits,
            allowed,
            same,
            rw (passed, upload) (rw saved added),
          )
    ]
  ]
