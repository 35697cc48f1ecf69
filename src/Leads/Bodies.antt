-- ===== src/Leads/Bodies.antt =====
-- The bodies and queries that apps/lead-service takes: src/leads/dto/*.ts and src/kyc/dto/*.ts.
use oneandro_clone.Prelude.{
  ℕ, String, true, All, ◌≡◌, ◌≤◌, Option, none, some, [], ◌∷◌, arith, inl, inr, Option-cases,
  length,
}
use oneandro_clone.Common.{
  LeadStatus, created, kyc_uploaded, credit_checked, approved, declined, bank_handoff, funded,
  funding_rejected,
}
use oneandro_clone.Common.Validation.{
  Validators, Fields, field, is_whitelisted, require, optional, required, string_of, member_of,
  count_or, count_or-least, count_or-most, ◌>>=◌, ◌>>◌,
}
use oneandro_clone.Pagination.{list_page, first_pages, first_pages-total_pages, list_page-matches}
use oneandro_clone.Leads.{
  LoanPurpose, debt_consolidation, home_improvement, auto, medical, education, other, DocumentType,
  government_id, proof_of_income, bank_statement, other_document, LeadDb, State,
}
use oneandro_clone.Leads.Service.{CreateLeadDto, UpdateLeadStatusDto}
use oneandro_clone.Leads.Listing.{ListLeadsQuery, where_of, list}
use oneandro_clone.Leads.Requests.{status_text, purpose_text}

unfoldable pub document_type_text : DocumentType → String
document_type_text government_id = "GOVERNMENT_ID"
document_type_text proof_of_income = "PROOF_OF_INCOME"
document_type_text bank_statement = "BANK_STATEMENT"
document_type_text other_document = "OTHER"

module _ (V : Validators) where
  unfoldable pub status_of : V.Value → Option LeadStatus
  status_of = member_of V status_text (
      created ∷ kyc_uploaded ∷ credit_checked ∷ approved ∷ declined ∷ bank_handoff ∷ funded
      ∷ funding_rejected ∷ [])

  -- @IsNumber({ maxDecimalPlaces: 2 }) @Min(500) @Max(100000), in cents.
  unfoldable pub amount_of : V.Value → Option ℕ
  amount_of v = do
    n ← V.number v
    require (V.is_number 2 n)
    require (V.min 500 n)
    require (V.max 100000 n)
    some (V.cents n)

  unfoldable pub purpose_of : V.Value → Option LoanPurpose
  purpose_of =
      member_of V purpose_text
        (debt_consolidation ∷ home_improvement ∷ auto ∷ medical ∷ education ∷ other ∷ [])

  unfoldable pub create_lead_dto : Fields V → Option CreateLeadDto
  create_lead_dto body = do
    require (is_whitelisted V ("loanAmountRequested" ∷ "loanPurpose" ∷ []) body)
    amount ← required V amount_of (field V "loanAmountRequested" body)
    purpose ← required V purpose_of (field V "loanPurpose" body)
    some (record { loan_amount_requested = amount; loan_purpose = purpose })

  unfoldable pub update_lead_status_dto : Fields V → Option UpdateLeadStatusDto
  update_lead_status_dto body = do
    require (is_whitelisted V ("toStatus" ∷ "declineReason" ∷ "note" ∷ []) body)
    to ← required V status_of (field V "toStatus" body)
    reason ← optional V (string_of V 1 500) (field V "declineReason" body)
    remark ← optional V (string_of V 1 500) (field V "note" body)
    some (record { to_status = to; decline_reason = reason; note = remark })

  unfoldable pub list_leads_query : Fields V → Option ListLeadsQuery
  list_leads_query query = do
    require (is_whitelisted V ("page" ∷ "pageSize" ∷ "status" ∷ []) query)
    page ← count_or V 1 none (field V "page" query)
    page_size ← count_or V 20 (some 100) (field V "pageSize" query)
    status ← optional V status_of (field V "status" query)
    some (record { page = page; page_size = page_size; status = status })

  unfoldable pub document_type_of : Fields V → Option DocumentType
  document_type_of body = do
    require (is_whitelisted V ("documentType" ∷ []) body)
    required V
        (member_of V document_type_text
          (government_id ∷ proof_of_income ∷ bank_statement ∷ other_document ∷ []))
        (field V "documentType" body)

  query_fields :
      (query : Fields V) (q : ListLeadsQuery)
      → list_leads_query query ≡ some q
      → (count_or V 1 none (field V "page" query) ≡ some q.page)
        × (count_or V 20 (some 100) (field V "pageSize" query) ≡ some q.page_size)
  unfolding list_leads_query
  query_fields query q h = ground arith

  -- A listing that a query with a good page asks for answers with at most 100 leads, whatever the query
  -- says, each of which passes the filter; and the pages from 1 to the last have room for as many leads as
  -- the filter has matches.
  pub list-pages :
      (query : Fields V) (q : ListLeadsQuery) (P : LeadDb) (user_id : Option String) (s : State P)
      → list_leads_query query ≡ some q
      → (length (list P q user_id s).items ≤ 100)
        × All (λ l. where_of q.status user_id l ≡ true) (list P q user_id s).items
        × (length (
              first_pages P.leads
                (where_of q.status user_id)
                q.page_size
                s.leads
                (list P q user_id s).total_pages)
            ≡ P.leads.count (where_of q.status user_id) s.leads)
  unfolding list list_page
  list-pages query q P user_id s h =
      let (page, size) = query_fields query q h in
      let (full, good) =
        list_page-matches P.leads (where_of q.status user_id) q.page_size s.leads q.page in
      (
        unfold list_page in
            (omega (
              arith,
              full,
              count_or-most V 20 100 (field V "pageSize" query) q.page_size (omega arith) size,
            )),
        good,
        first_pages-total_pages P.leads (where_of q.status user_id) q.page_size s.leads (
            count_or-least V 20 (some 100) (field V "pageSize" query) q.page_size (omega arith)
              size),
      )

  amount_of-bounds :
      (v : Option V.Value) (n : ℕ) → required V amount_of v ≡ some n → (50000 ≤ n) × (n ≤ 10000000)
  unfolding amount_of required
  amount_of-bounds none n h = cc
  amount_of-bounds (some v) n h = elim (Option-cases (V.number v)) [
    | inl none_given ↦ cc (rw none_given at h)
    | inr (m, given) ↦ bounds m (rw given at h)
  ]
    where
      bounds :
          (m : V.Number)
          → (require (V.is_number 2 m)
              >> (require (V.min 500 m) >> (require (V.max 100000 m) >> some (V.cents m))))
            ≡ some n
          → (50000 ≤ n) × (n ≤ 10000000)
      bounds m h = ground (arith, V.cents-min m 500, V.cents-max m 100000)

  -- The amount of a body that passes is from 500.00 to 100000.00, in cents.
  pub create_lead_dto-bounds :
      (body : Fields V) (dto : CreateLeadDto)
      → create_lead_dto body ≡ some dto
      → (50000 ≤ dto.loan_amount_requested) × (dto.loan_amount_requested ≤ 10000000)
  unfolding create_lead_dto
  create_lead_dto-bounds body dto h = amount_of-bounds _ _ (amount body dto h)
    where
      amount :
          (body : Fields V) (dto : CreateLeadDto)
          → create_lead_dto body ≡ some dto
          → required V amount_of (field V "loanAmountRequested" body)
            ≡ some dto.loan_amount_requested
      amount body dto h = ground arith
