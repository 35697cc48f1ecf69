-- ===== src/Leads/Terminal.antt =====
-- Leads whose status is terminal (src/leads/state-machine, isTerminal).
use oneandro_clone.Prelude.{ℕ, String, ◌≡◌, sym, ◌∙◌, inl, inr, true, false, some, find, arith}
use oneandro_clone.Common.{LeadStatus, RequestUser}
use oneandro_clone.Leads.{Lead, LeadDb, State, LeadError, err}
use oneandro_clone.Leads.StateMachine.{allowed_transitions, can_move, is_terminal}
use oneandro_clone.Leads.Service.{UpdateLeadStatusDto, Generated, has_id, update_status}
use oneandro_clone.Leads.Moves.{update_status-ok, update_status-err, Result-cases}

stays_put : (from to : LeadStatus) → is_terminal from ≡ true → can_move from to ≡ false
unfolding is_terminal can_move allowed_transitions
stays_put from to h = ground arith

-- A lead whose status is terminal is moved by nobody: whoever asks, for whatever status, gets an error, and
-- nothing changes.
pub update_status-is_terminal :
    (P : LeadDb) (id : String) (dto : UpdateLeadStatusDto) (requester : RequestUser)
    (new : Generated) (roll : ℕ) (s : State P) (lead : Lead)
    → find (has_id id) (P.leads.rows s.leads) ≡ some lead
    → is_terminal lead.status ≡ true
    → (e : LeadError) × ((update_status P id dto requester new roll s).0 ≡ err e)
      × ((update_status P id dto requester new roll s).1 ≡ s)
update_status-is_terminal P id dto requester new roll s lead found last =
    elim (Result-cases (update_status P id dto requester new roll s).0) [
      | inl (e, failed) ↦ (e, failed, update_status-err P id dto requester new roll s e failed)
      | inr (l, done) ↦
          let (read, there, may, reason, m) =
            update_status-ok P id dto requester new roll s l done in
          absurd (moved read there m.legal)
    ]
  where
    moved :
        (read : Lead)
        → find (has_id id) (P.leads.rows s.leads) ≡ some read
        → can_move read.status dto.to_status ≡ true
        → ⊥
    moved read there legal =
        let same : lead ≡ read = cc in
        cc (sym (stays_put read.status dto.to_status (rw same at last)) ∙ legal)
