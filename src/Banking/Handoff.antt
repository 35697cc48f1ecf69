-- ===== src/Banking/Handoff.antt =====
-- apps/banking-adapter-mock/src/handoff/handoff.service.ts, with the calls of lead-service that
-- src/clients/lead-service.client.ts makes of it, under the token of src/auth/service-token.service.ts.
use Prim.Native.String.{◌++◌}
use text.Mathlib.TextLemmas.{append-eq-nil_iff}
use oneandro_clone.Prelude.{
  eq_iff, sym, ◌∙◌, ap, ℕ, String, ◌≡◌, refl, inl, inr, Bool, true, false, not, Option, none, some,
  ◌==◌, if◌then◌else◌, Bool-cases,
}
use oneandro_clone.Common.{system, funded, funding_rejected, RequestUser}
use oneandro_clone.Leads.{Lead, LeadDb, State, ok, err}
use oneandro_clone.Leads.Service.{UpdateLeadStatusDto, Generated}
use oneandro_clone.Leads.Api.{call_get, call_update, Response, a_lead, serve}
use oneandro_clone.Banking.Funding.{
  FundingDecision, fund, reject, decide_funding_outcome, approval_probability,
}

-- The claims of ServiceTokenService.mint, as lead-service reads them.
abbrev pub service_user : RequestUser
service_user = record {
  user_id = "system:banking-adapter-mock";
  email = "system@oneandro.internal";
  role = system;
}

-- The body of resolveHandoff; an absent or empty reason is left out.
unfoldable pub resolution : FundingDecision → UpdateLeadStatusDto
resolution fund = record { to_status = funded; decline_reason = none; note = none }
resolution (reject reason) = record {
  to_status = funding_rejected;
  decline_reason = if reason == "" then none else some reason;
  note = none;
}

module _ (P : LeadDb) (max_size : ℕ) where
  -- LeadServiceClient.getLead: the body, if the answer is no error.
  unfoldable pub fetch_lead : String → State P → Option Lead
  fetch_lead lead_id s = elim (serve P max_size (call_get lead_id) service_user s).0 [
    | a_lead r ↦ (elim r [ ok lead ↦ some lead | err e ↦ none ])
    | _ ↦ none
  ]

  -- processHandoff up to its decision, on the state that it reads.
  unfoldable pub decide : (ℕ → String) → String → (ℕ → Bool) → State P → Option FundingDecision
  decide show lead_id random_below s = elim (fetch_lead lead_id s) [
    | none ↦ none
    | some lead ↦ some (decide_funding_outcome show lead.credit_score_snapshot random_below)
  ]

  -- The end of processHandoff, on the state that it finds after the delay.
  unfoldable pub resolve : String → FundingDecision → Generated → ℕ → State P → Response × State P
  resolve lead_id decision new roll s =
      serve P max_size (call_update lead_id (resolution decision) new roll) service_user s

-- A decision that lead-service takes: a rejection says why.
abbrev pub is_reasoned : FundingDecision → Bool
is_reasoned fund = true
is_reasoned (reject reason) = not (reason == "")

says_something : (s t : String) → (s == "") ≡ false → ((s ++ t) == "") ≡ false
says_something s t h = elim (Bool-cases ((s ++ t) == "")) [
  | inr full ↦ full
  | inl blank ↦
      let none_left : s ≡ "" = ((append-eq-nil_iff).0 ((eq_iff (s ++ t) "").0 blank)).0 in
      cc (sym h ∙ ap (λ x. x == "") none_left)
]

-- Whatever the score, none included, and whatever chance says, a rejection comes with a reason that is
-- not empty.
pub decide_funding_outcome-is_reasoned :
    (show : ℕ → String) (score : Option ℕ) (random_below : ℕ → Bool)
    → is_reasoned (decide_funding_outcome show score random_below) ≡ true
unfolding decide_funding_outcome
decide_funding_outcome-is_reasoned show none random_below = refl
decide_funding_outcome-is_reasoned show (some score) random_below =
    elim (Bool-cases (random_below (approval_probability score))) [
      | inl below ↦ rw below refl
      | inr above ↦ rw above (ap not (says_something _ _ refl))
    ]
