-- ===== src/Leads/Amounts.antt =====
-- The amounts of the leads, from the bodies that are validated to the table.
use oneandro_clone.Prelude.{
  ℕ, String, ◌≡◌, ◌≤◌, Option, none, some, List, [], ◌∷◌, refl, inl, inr, All, All-append,
  All-map_where, Bool-cases, Option-cases,
}
use oneandro_clone.Common.{LeadStatus, RequestUser}
use oneandro_clone.Common.Validation.{Validators, Fields}
use oneandro_clone.Leads.{Lead, LeadDb, State}
use oneandro_clone.Leads.Service.{
  LeadUpdate, apply_update, has_id, CreateLeadDto, Generated, new_lead, create,
}
use oneandro_clone.Leads.Creation.{leads-create}
use oneandro_clone.Leads.Moves.{Moved}
use oneandro_clone.Leads.Bodies.{create_lead_dto, create_lead_dto-bounds}
use oneandro_clone.Leads.Keeps.{HasBody, other_body, handler-keeps}
use oneandro_clone.Leads.Requests.{Jwt, Credentials, authenticate}
use oneandro_clone.Leads.Api.{Endpoint, Call, call_create, admits}
use oneandro_clone.Leads.Http.{
  HttpRequest, http_create, http_list_mine, http_list, http_get, http_update, http_upload,
  http_documents, route_of, file_passes, piped, after_pipes, after_guard, http,
}
use oneandro_clone.Leads.Refusals.{piped-route_of}

-- From 500.00 to 100000.00, in cents.
abbrev pub IsLendable : ℕ → Type 0
IsLendable amount = (50000 ≤ amount) × (amount ≤ 10000000)

abbrev pub AreLendable : (P : LeadDb) → State P → Type 0
AreLendable P s = All (λ (l : Lead). IsLendable l.loan_amount_requested) (P.leads.rows s.leads)

-- The bodies that pass the validation.
abbrev pub IsValidated : Validators → CreateLeadDto → Type 0
IsValidated V dto = (body : Fields V) × (create_lead_dto V body ≡ some dto)

module _ (V : Validators) (P : LeadDb) where
  create-AreLendable :
      (user_id : String) (dto : CreateLeadDto) (new : Generated) (s : State P)
      → IsValidated V dto
      → AreLendable P s
      → AreLendable P (create P user_id dto new s).1
  unfolding new_lead
  create-AreLendable user_id dto new s (body, passed) v = elim (leads-create P user_id dto new s) [
    | inl same ↦ rw same v
    | inr more ↦ rw more (
        All-append (λ (l : Lead). IsLendable l.loan_amount_requested) (P.leads.rows s.leads)
          (new_lead user_id dto new ∷ []) v (create_lead_dto-bounds V body dto passed, tt))
  ]

  Moved-AreLendable :
      (lead : Lead) (to : LeadStatus) (changed_by : String) (remark : Option String)
      (extra : LeadUpdate) (new : Generated) (s : State P) (u : Lead) (t : State P)
      → Moved P lead to changed_by remark extra new s u t
      → AreLendable P s
      → AreLendable P t
  unfolding apply_update
  Moved-AreLendable lead to changed_by remark extra new s u t m v = rw m.leads_after (
      All-map_where (λ (l : Lead). IsLendable l.loan_amount_requested) (has_id lead.id)
        (apply_update to extra new.now) (P.leads.rows s.leads) (λ l h b. b) v)

  piped-HasBody :
      (req : HttpRequest V) (call : Call) → piped V req ≡ some call → HasBody (IsValidated V) call
  unfolding piped route_of
  piped-HasBody (http_create body new) call h = elim (Option-cases (create_lead_dto V body)) [
    | inl stop ↦ cc (rw stop at h)
    | inr (dto, passed) ↦
        let kept : some (call_create dto new) ≡ some call = rw passed at h in
        rw (← same kept) (body, passed)
  ]
    where
      same : {a b : Call} → some a ≡ some b → a ≡ b
      same h = cc
  piped-HasBody (http_list_mine query) call h =
      other_body (IsValidated V) call (λ e. cc (piped-route_of V (http_list_mine query) call h))
  piped-HasBody (http_list query) call h =
      other_body (IsValidated V) call (λ e. cc (piped-route_of V (http_list query) call h))
  piped-HasBody (http_get id) call h =
      other_body (IsValidated V) call (λ e. cc (piped-route_of V (http_get id) call h))
  piped-HasBody (http_update id body new roll) call h =
      other_body (IsValidated V) call
        (λ e. cc (piped-route_of V (http_update id body new roll) call h))
  piped-HasBody (http_upload id body file new change) call h =
      other_body (IsValidated V) call
        (λ e. cc (piped-route_of V (http_upload id body file new change) call h))
  piped-HasBody (http_documents id) call h =
      other_body (IsValidated V) call (λ e. cc (piped-route_of V (http_documents id) call h))

  module _ (J : Jwt) (max_size : ℕ) where
    after_pipes-AreLendable :
        (route : Endpoint) (req : HttpRequest V) (call : Option Call) (user : RequestUser)
        (s : State P)
        → piped V req ≡ call
        → AreLendable P s
        → AreLendable P (after_pipes V J P max_size route call user s).1
    after_pipes-AreLendable route req none user s e v = v
    after_pipes-AreLendable route req (some call) user s e v =
        handler-keeps P max_size (AreLendable P) (IsValidated V) create-AreLendable
          Moved-AreLendable (λ a b p q r w. rw p w) call user s (piped-HasBody req call e) v

    after_guard-AreLendable :
        (caller : Option RequestUser) (req : HttpRequest V) (s : State P)
        → AreLendable P s
        → AreLendable P (after_guard V J P max_size caller req s).1
    after_guard-AreLendable none req s v = v
    after_guard-AreLendable (some user) req s v = elim (Bool-cases (admits (route_of V req) user)) [
      | inr stop ↦ rw stop v
      | inl pass ↦ elim (Bool-cases (file_passes V req)) [
        | inr large ↦ rw pass (rw large v)
        | inl small ↦
            rw pass
              (rw small (after_pipes-AreLendable (route_of V req) req (piped V req) user s refl v))
      ]
    ]

    -- The requests of a list, one after the other.
    abbrev pub http_all : List (Credentials × HttpRequest V) → State P → State P
    http_all [] s = s
    http_all ((creds, req) ∷ rest) s = http_all rest (http V J P max_size creds req s).1

    -- After any sequence of requests, whatever their bodies, every lead of the table has an amount from
    -- 500.00 to 100000.00, in cents, if all had one before.
    pub http_all-AreLendable :
        (requests : List (Credentials × HttpRequest V)) (s : State P)
        → AreLendable P s
        → AreLendable P (http_all requests s)
    unfolding http
    http_all-AreLendable [] s v = v
    http_all-AreLendable ((creds, req) ∷ rest) s v =
        http_all-AreLendable rest (http V J P max_size creds req s).1
          (after_guard-AreLendable (authenticate J creds) req s v)
