-- ===== src/Leads/Scores.antt =====
-- A lead past the credit check has a score of the mock bureau's range, and a refused one a reason.
use mathlib.Core.Path.{subst}
use oneandro_clone.Prelude.{
  ℕ, ◌<◌, String, ◌≡◌, refl, ◌∙◌, sym, inl, inr, Bool, true, false, not, ◌&&◌, ◌||◌, leb, ltb,
  Option, none, some, arith, find, truthy, ◌==◌, eq_iff, Bool-cases,
}
use oneandro_clone.Common.{LeadStatus, created, kyc_uploaded, RequestUser}
use oneandro_clone.Leads.{Lead, LeadDb, State}
use oneandro_clone.Leads.StateMachine.{can_move, allowed_transitions}
use oneandro_clone.Leads.Service.{
  UpdateLeadStatusDto, Generated, LeadUpdate, no_update, has_id, apply_update, mock_credit_score,
  requires_reason, extra_of, mark_kyc_uploaded, update_status,
}
use oneandro_clone.Leads.Moves.{
  Moved, update_status-err, update_status-ok, mark_kyc_uploaded_cases, Result-cases,
}
use oneandro_clone.Leads.Audit.{find_at, find-has_id, leads_self, leads_other}

abbrev pub was_checked : LeadStatus → Bool
was_checked created = false
was_checked kyc_uploaded = false
was_checked _ = true

abbrev pub is_score : Option ℕ → Bool
is_score none = false
is_score (some c) = leb 550 c && ltb c 800

pub record IsSound (l : Lead) : Type 0 where
  pub scored : (not (was_checked l.status) || is_score l.credit_score_snapshot) ≡ true
  pub reasoned : (not (requires_reason l.status) || truthy l.decline_reason) ≡ true

-- Every lead that the service can read is sound.
pub record AreSound (P : LeadDb) (s : State P) : Type 0 where
  pub at : (id : String) (l : Lead) → find (has_id id) (P.leads.rows s.leads) ≡ some l → IsSound l

extra-IsSound :
    (lead : Lead) (dto : UpdateLeadStatusDto) (roll now : ℕ)
    → can_move lead.status dto.to_status ≡ true
    → roll < 250
    → (not (requires_reason dto.to_status) || truthy dto.decline_reason) ≡ true
    → IsSound lead
    → IsSound (apply_update dto.to_status (extra_of dto roll) now lead)
unfolding can_move allowed_transitions apply_update extra_of mock_credit_score requires_reason
extra-IsSound lead dto roll now move range reason v = record {
  scored = ground arith;
  reasoned = ground arith;
}

module _ (P : LeadDb) (lead : Lead) (to : LeadStatus) (changed_by : String) (note : Option String)
    (extra : LeadUpdate) (new : Generated) (s : State P) {u : Lead} {t : State P}
    (m : Moved P lead to changed_by note extra new s u t)
    (found : find (has_id lead.id) (P.leads.rows s.leads) ≡ some lead) where
  same_lead :
      (id : String) (l : Lead)
      → lead.id ≡ id
      → find (has_id id) (P.leads.rows t.leads) ≡ some l
      → apply_update to extra new.now lead ≡ l
  same_lead id l e h = cc (
    h,
    leads_self P lead to changed_by note extra new s m found,
    find_at lead.id id (P.leads.rows t.leads) e,
  )

  Moved-AreSound : IsSound (apply_update to extra new.now lead) → AreSound P s → AreSound P t
  Moved-AreSound here v = record {
    at = λ id l h. elim (Bool-cases (lead.id == id)) [
      | inl same ↦ subst IsSound (same_lead id l ((eq_iff lead.id id).0 same) h) here
      | inr other ↦
          v.at id l (sym (leads_other P lead to changed_by note extra new s m found id other) ∙ h)
    ];
  }

module _ (P : LeadDb) (s : State P) (v : AreSound P s) where
  -- If every lead past the credit check has a score from 550 to 799, and every declined or
  -- rejected lead a reason, it stays so whatever a caller asks of updateStatus, for a roll below
  -- 250.
  pub update_status-AreSound :
      (id : String) (dto : UpdateLeadStatusDto) (requester : RequestUser) (new : Generated)
      (roll : ℕ)
      → roll < 250
      → AreSound P (update_status P id dto requester new roll s).1
  update_status-AreSound id dto requester new roll range =
      elim (Result-cases (update_status P id dto requester new roll s).0) [
        | inl (e, failed) ↦ rw (update_status-err P id dto requester new roll s e failed) v
        | inr (l, done) ↦
            let (lead, found, may, reason, m) =
              update_status-ok P id dto requester new roll s l done in
            Moved-AreSound P lead dto.to_status requester.user_id dto.note (extra_of dto roll) new s
              m (find-has_id (P.leads.rows s.leads) lead id found)
              (extra-IsSound lead dto roll new.now m.legal range reason (v.at id lead found)) v
      ]

  first-IsSound : (lead : Lead) (now : ℕ) → IsSound (apply_update kyc_uploaded no_update now lead)
  unfolding apply_update requires_reason
  first-IsSound lead now = record { scored = refl; reasoned = refl }

  pub mark_kyc_uploaded-AreSound :
      (id changed_by : String) (new : Generated)
      → AreSound P (mark_kyc_uploaded P id changed_by new s).1
  mark_kyc_uploaded-AreSound id changed_by new =
      elim (mark_kyc_uploaded_cases P id changed_by new s) [
        | inl (same, past) ↦ rw same v
        | inr (lead, l, found, first, m) ↦
            Moved-AreSound P lead kyc_uploaded changed_by none no_update new s m
              (find-has_id (P.leads.rows s.leads) lead id found) (first-IsSound lead new.now) v
      ]
