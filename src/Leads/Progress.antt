-- ===== src/Leads/Progress.antt =====
-- When a change of status goes through.
use oneandro_clone.Prelude.{
  ℕ, String, ◌≡◌, true, false, not, ◌||◌, some, arith, any, refl, sym, ◌∙◌, eq_iff, find-holds,
  find, truthy,
}
use oneandro_clone.Common.{RequestUser}
use oneandro_clone.Leads.{Lead, change_clash, LeadDb, State, ok}
use oneandro_clone.Leads.StateMachine.{assert_valid_transition, assert_manual_transition_allowed}
use oneandro_clone.Leads.Audit.{find-has_id, find_at, leads_self}
use oneandro_clone.Leads.Moves.{update_status-ok}
use oneandro_clone.Leads.Service.{
  UpdateLeadStatusDto, Generated, has_id, apply_update, requires_reason, extra_of, status_change,
  find_by_id_or_throw, check_update, commit_transition, announce, transition, update_status,
}

module _ (P : LeadDb) (id : String) (dto : UpdateLeadStatusDto) (requester : RequestUser)
    (new : Generated) (roll : ℕ) (s : State P) (lead : Lead) where
  check_update-passes :
      find (has_id id) (P.leads.rows s.leads) ≡ some lead
      → assert_manual_transition_allowed lead.status dto.to_status requester.role ≡ ok tt
      → (not (requires_reason dto.to_status) || truthy dto.decline_reason) ≡ true
      → check_update P id dto requester s ≡ ok lead
  unfolding check_update find_by_id_or_throw
  check_update-passes found allowed reason =
      ground (arith, P.leads.find_unique-rows (has_id id) s.leads)

  transition-done :
      P.is_uuid requester.user_id ≡ true
      → find (has_id lead.id) (P.leads.rows s.leads) ≡ some lead
      → assert_valid_transition lead.status dto.to_status ≡ ok tt
      → (any
          (change_clash
            (status_change lead.id (some lead.status) dto.to_status requester.user_id dto.note new))
          (P.history.rows s.history))
        ≡ false
      → (transition P lead dto.to_status requester.user_id dto.note (extra_of dto roll) new s).0
        ≡ ok (apply_update dto.to_status (extra_of dto roll) new.now lead)
  unfolding transition commit_transition announce status_change
  transition-done caller found legal fresh =
      let change =
        status_change lead.id (some lead.status) dto.to_status requester.user_id dto.note new in
      ground (
        arith,
        P.leads.update-row (has_id lead.id) (apply_update dto.to_status (extra_of dto roll) new.now)
            s.leads,
        P.history.create-written change s.history,
        P.history-accepts change,
      )

  manual-valid :
      assert_manual_transition_allowed lead.status dto.to_status requester.role ≡ ok tt
      → assert_valid_transition lead.status dto.to_status ≡ ok tt
  unfolding assert_manual_transition_allowed assert_valid_transition
  manual-valid h = ground arith

  -- What a change of status is answered with.
  pub update_status-answer :
      P.is_uuid requester.user_id ≡ true
      → find (has_id id) (P.leads.rows s.leads) ≡ some lead
      → assert_manual_transition_allowed lead.status dto.to_status requester.role ≡ ok tt
      → (not (requires_reason dto.to_status) || truthy dto.decline_reason) ≡ true
      → (any
          (change_clash
            (status_change lead.id (some lead.status) dto.to_status requester.user_id dto.note new))
          (P.history.rows s.history))
        ≡ false
      → (update_status P id dto requester new roll s).0
        ≡ ok (apply_update dto.to_status (extra_of dto roll) new.now lead)
  unfolding update_status
  update_status-answer caller found allowed reason fresh =
      rw (check_update-passes found allowed reason, update_status)
        (transition-done caller (find-has_id (P.leads.rows s.leads) lead id found)
          (manual-valid allowed) fresh)

  -- The lead that a successful change of status returns stands in the table under its id.
  stands :
      (l : Lead)
      → find (has_id id) (P.leads.rows s.leads) ≡ some lead
      → (update_status P id dto requester new roll s).0 ≡ ok l
      → find (has_id id) (P.leads.rows (update_status P id dto requester new roll s).1.leads)
        ≡ some (apply_update dto.to_status (extra_of dto roll) new.now lead)
  stands l found done =
      let (read, there, may, reason, m) = update_status-ok P id dto requester new roll s l done in
      let t = (update_status P id dto requester new roll s).1 in
      let own : read.id ≡ id =
        (eq_iff read.id id).0 (find-holds (has_id id) (P.leads.rows s.leads) {x = read} there) in
      let same : read ≡ lead = cc in
      rw (← same) (
        sym (find_at read.id id (P.leads.rows t.leads) own)
        ∙ leads_self P read dto.to_status requester.user_id dto.note (extra_of dto roll) new s m
            (find_at read.id id (P.leads.rows s.leads) own ∙ there))

  -- A change of status goes through: if the lead is there, the id of the caller is a uuid, the caller may
  -- make this move, a refusal has its reason, and the id made up for the line of the history is new, the
  -- answer is a lead in the status that was asked for, and the table then holds it under this id.
  pub update_status-done :
      P.is_uuid requester.user_id ≡ true
      → find (has_id id) (P.leads.rows s.leads) ≡ some lead
      → assert_manual_transition_allowed lead.status dto.to_status requester.role ≡ ok tt
      → (not (requires_reason dto.to_status) || truthy dto.decline_reason) ≡ true
      → (any
          (change_clash
            (status_change lead.id (some lead.status) dto.to_status requester.user_id dto.note new))
          (P.history.rows s.history))
        ≡ false
      → (l : Lead) × ((update_status P id dto requester new roll s).0 ≡ ok l)
        × (l.id ≡ lead.id)
        × (l.status ≡ dto.to_status)
        × (find (has_id id) (P.leads.rows (update_status P id dto requester new roll s).1.leads)
            ≡ some l)
  update_status-done caller found allowed reason fresh =
      let done = update_status-answer caller found allowed reason fresh in
      (
        apply_update dto.to_status (extra_of dto roll) new.now lead,
        done,
        unfold apply_update in refl,
        unfold apply_update in refl,
        stands _ found done,
      )
