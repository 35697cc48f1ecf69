-- ===== src/Leads/Moves.antt =====
-- What a request that moves a lead has done when it succeeds, and that it has done nothing when it
-- fails.
use mathlib.Core.Option
use oneandro_clone.Prelude.{
  ℕ, String, ◌≡◌, ◌⊎◌, refl, sym, ◌∙◌, Bool, true, false, not, ◌||◌, Option, none, some, [], ◌∷◌,
  ◌++◌, arith, find, map_where, truthy, inl, inr, ap, Bool-cases,
}
use oneandro_clone.Common.{
  Role, status_eq, status_eq_sound, LeadStatus, created, kyc_uploaded, RequestUser, LeadStatusEvent,
}
use oneandro_clone.Leads.{
  Lead, StatusChange, LeadDb, is_uuid_or_null, State, LeadError, invalid_transition, Result, ok,
  err,
}
use oneandro_clone.Leads.StateMachine.{
  can_move, assert_valid_transition, assert_manual_transition_allowed,
}
use oneandro_clone.Leads.Transitions.{may_drive, assert_manual_transition_allowed_lem}
use oneandro_clone.Leads.Service.{
  UpdateLeadStatusDto, Generated, LeadUpdate, no_update, has_id, apply_update, requires_reason,
  extra_of, status_change, commit_transition, announce, transition, mark_kyc_uploaded,
  find_by_id_or_throw, check_update, update_status,
}

abbrev pub event_of : Lead → LeadStatus → LeadStatus → LeadStatusEvent
event_of updated from to = record {
  lead_id = updated.id;
  user_id = updated.user_id;
  status = to;
  previous_status = some from;
  occurred_at = updated.updated_at;
}

-- The state `t` after `s`, when a request that had read `lead` has moved it to `to` and returned
-- `updated`.
pub record Moved (P : LeadDb) (lead : Lead) (to : LeadStatus) (changed_by : String)
    (note : Option String) (extra : LeadUpdate) (new : Generated) (s : State P) (updated : Lead)
    (t : State P) : Type 0 where
  pub legal : can_move lead.status to ≡ true
  pub fits : P.is_uuid changed_by ≡ true
  pub found :
      Option.map (apply_update to extra new.now) (find (has_id lead.id) (P.leads.rows s.leads))
      ≡ some updated
  pub leads_after :
      P.leads.rows t.leads
      ≡ map_where (has_id lead.id) (apply_update to extra new.now) (P.leads.rows s.leads)
  pub history_after :
      P.history.rows t.history
      ≡ P.history.rows s.history
        ++ status_change lead.id (some lead.status) to changed_by note new ∷ []
  pub documents_after : t.documents ≡ s.documents
  pub files_after : t.files ≡ s.files
  pub published_after : t.published ≡ s.published ++ event_of updated lead.status to ∷ []

-- The outcomes of marking a lead after an upload. Either nothing changes, and then the call fails or
-- the lead was past CREATED; or the lead was in CREATED and is moved to KYC_UPLOADED.
abbrev pub MarkCases :
    (P : LeadDb) → String → String → Generated → State P → Result Lead × State P → Type 0
MarkCases P id changed_by new s out =
    ((out.1 ≡ s)
      × ((l : Lead)
          → out.0 ≡ ok l
          → (find (has_id id) (P.leads.rows s.leads) ≡ some l)
            × (status_eq l.status created ≡ false)))
    ⊎ ((lead : Lead) × (l : Lead) × (find (has_id id) (P.leads.rows s.leads) ≡ some lead)
        × (lead.status ≡ created)
        × Moved P lead kyc_uploaded changed_by none no_update new s l out.1)

manual-may_drive :
    (from to : LeadStatus) (role : Role)
    → assert_manual_transition_allowed from to role ≡ ok tt
    → may_drive role from to ≡ true
manual-may_drive from to role h = ground (arith, assert_manual_transition_allowed_lem from to role)

pub Result-cases {ℓ} :
    {A : Type ℓ} (r : Result A) → ((e : LeadError) × (r ≡ err e)) ⊎ ((a : A) × (r ≡ ok a))
Result-cases (ok a) = inr (a, refl)
Result-cases (err e) = inl (e, refl)

module _ (P : LeadDb) where
  commit-ok :
      (from to : LeadStatus) (u : Option Lead × P.leads.Db) (w : Bool × P.history.Db) (s : State P)
      {l : Lead}
      → (announce P from to (commit_transition P u w s)).0 ≡ ok l
      → (u.0 ≡ some l)
        × (w.0 ≡ true)
        × ((announce P from to (commit_transition P u w s)).1 ≡ record s {
          leads = u.1;
          history = w.1;
          published = s.published ++ event_of l from to ∷ [];
        })
  unfolding commit_transition announce
  commit-ok from to (some updated, leads') (true, history') s h = ground arith
  commit-ok from to (none, leads') (logged, history') s h = cc
  commit-ok from to (some updated, leads') (false, history') s h = cc

  commit-err :
      (from to : LeadStatus) (u : Option Lead × P.leads.Db) (w : Bool × P.history.Db) (s : State P)
      {e : LeadError}
      → (announce P from to (commit_transition P u w s)).0 ≡ err e
      → (announce P from to (commit_transition P u w s)).1 ≡ s
  unfolding commit_transition announce
  commit-err from to (some updated, leads') (true, history') s h = cc
  commit-err from to (none, leads') (logged, history') s h = refl
  commit-err from to (some updated, leads') (false, history') s h = refl

  logged_by :
      (c : StatusChange) (d : P.history.Db)
      → (P.history.create c d).0 ≡ true
      → is_uuid_or_null P.is_uuid c.changed_by_user_id ≡ true
  logged_by c d h = ground (arith, P.history.create-written c d, P.history-accepts c)

  pub written_rows :
      (c : StatusChange) (d : P.history.Db)
      → (P.history.create c d).0 ≡ true
      → P.history.rows (P.history.create c d).1 ≡ P.history.rows d ++ c ∷ []
  written_rows c d h = rw P.history.rows-create (ground (arith, P.history.create-written c d))

  module _ (lead : Lead) (to : LeadStatus) (changed_by : String) (note : Option String)
      (extra : LeadUpdate) (new : Generated) (s : State P) where
    pub transition-legal :
        can_move lead.status to ≡ true
        → transition P lead to changed_by note extra new s
          ≡ announce P lead.status to (
              commit_transition P
                (P.leads.update (has_id lead.id) (apply_update to extra new.now) s.leads)
                (P.history.create
                  (status_change lead.id (some lead.status) to changed_by note new)
                  s.history)
                s)
    unfolding transition assert_valid_transition
    transition-legal h = ground arith

    pub transition-illegal :
        can_move lead.status to ≡ false
        → transition P lead to changed_by note extra new s
          ≡ (err (invalid_transition lead.status to), s)
    unfolding transition assert_valid_transition
    transition-illegal h = ground arith

    pub transition-Moved :
        (l : Lead)
        → (transition P lead to changed_by note extra new s).0 ≡ ok l
        → Moved P lead to changed_by note extra new s l
            (transition P lead to changed_by note extra new s).1
    unfolding status_change
    transition-Moved l h = elim (Bool-cases (can_move lead.status to)) [
      | inr no_move ↦ cc (ap (λ (r : Result Lead × State P). r.0) (transition-illegal no_move))
      | inl move ↦
          let (found, logged, after) =
            commit-ok lead.status to _ _ s {l = l} (rw (transition-legal move) at h) in
          rw (transition-legal move, after)
            (record {
              legal = move;
              fits = logged_by _ s.history logged;
              found = sym (P.leads.update-row _ _ s.leads) ∙ found;
              leads_after = P.leads.rows-update _ _ s.leads;
              history_after = written_rows _ s.history logged;
              documents_after = refl;
              files_after = refl;
              published_after = refl;
            })
    ]

    pub transition-err :
        (e : LeadError)
        → (transition P lead to changed_by note extra new s).0 ≡ err e
        → (transition P lead to changed_by note extra new s).1 ≡ s
    transition-err e h = elim (Bool-cases (can_move lead.status to)) [
      | inr no_move ↦ rw (transition-illegal no_move)
      | inl move ↦
          rw (transition-legal move)
            (commit-err lead.status to _ _ s {e = e} (rw (transition-legal move) at h))
    ]

  -- A change of status that fails, for whatever reason, changes no table and publishes nothing.
  pub update_status-err :
      (id : String) (dto : UpdateLeadStatusDto) (requester : RequestUser) (new : Generated)
      (roll : ℕ) (s : State P) (e : LeadError)
      → (update_status P id dto requester new roll s).0 ≡ err e
      → (update_status P id dto requester new roll s).1 ≡ s
  unfolding update_status
  update_status-err id dto requester new roll s e h =
      elim (Result-cases (check_update P id dto requester s)) [
        | inl (e', refused) ↦ rw (refused, update_status)
        | inr (lead, passed) ↦
            rw (passed, update_status)
              (transition-err lead dto.to_status requester.user_id dto.note (extra_of dto roll) new
                s e (rw (passed, update_status) at h))
      ]

  check_update-ok :
      (id : String) (dto : UpdateLeadStatusDto) (requester : RequestUser) (s : State P)
      (lead : Lead)
      → check_update P id dto requester s ≡ ok lead
      → (find (has_id id) (P.leads.rows s.leads) ≡ some lead)
        × (assert_manual_transition_allowed lead.status dto.to_status requester.role ≡ ok tt)
        × ((not (requires_reason dto.to_status) || truthy dto.decline_reason) ≡ true)
  unfolding check_update find_by_id_or_throw
  check_update-ok id dto requester s lead h =
      ground (arith, P.leads.find_unique-rows (has_id id) s.leads)

  -- A change of status that succeeds: the lead was there, the role of the caller may drive this
  -- move, a reason came with a refusal, and the state changed by this move and nothing else.
  pub update_status-ok :
      (id : String) (dto : UpdateLeadStatusDto) (requester : RequestUser) (new : Generated)
      (roll : ℕ) (s : State P) (l : Lead)
      → (update_status P id dto requester new roll s).0 ≡ ok l
      → (lead : Lead) × (find (has_id id) (P.leads.rows s.leads) ≡ some lead)
        × (may_drive requester.role lead.status dto.to_status ≡ true)
        × ((not (requires_reason dto.to_status) || truthy dto.decline_reason) ≡ true)
        × Moved P lead dto.to_status requester.user_id dto.note
            (extra_of dto roll)
            new
            s
            l
            (update_status P id dto requester new roll s).1
  unfolding update_status
  update_status-ok id dto requester new roll s l h =
      elim (Result-cases (check_update P id dto requester s)) [
        | inl (e, refused) ↦ cc (rw (refused, update_status) at h)
        | inr (lead, passed) ↦
            let (found, allowed, reason) = check_update-ok id dto requester s lead passed in
            (
              lead,
              found,
              manual-may_drive lead.status dto.to_status requester.role allowed,
              reason,
              rw (passed, update_status)
                  (transition-Moved lead dto.to_status requester.user_id dto.note
                    (extra_of dto roll) new s l (rw (passed, update_status) at h)),
            )
      ]

  found_by_id :
      (id : String) (s : State P) (lead : Lead)
      → find_by_id_or_throw P id s ≡ ok lead
      → find (has_id id) (P.leads.rows s.leads) ≡ some lead
  unfolding find_by_id_or_throw
  found_by_id id s lead h = ground (arith, P.leads.find_unique-rows (has_id id) s.leads)

  past_lead :
      (id : String) (s : State P) (lead : Lead)
      → find_by_id_or_throw P id s ≡ ok lead
      → status_eq lead.status created ≡ false
      → (l : Lead) → ok lead ≡ ok l
      → (find (has_id id) (P.leads.rows s.leads) ≡ some l) × (status_eq l.status created ≡ false)
  past_lead id s lead found past l e =
      let same : lead ≡ l = cc in rw (← same) (found_by_id id s lead found, past)

  marked_cases :
      (id changed_by : String) (new : Generated) (s : State P) (lead : Lead)
      → find_by_id_or_throw P id s ≡ ok lead
      → status_eq lead.status created ≡ true
      → MarkCases P id changed_by new s
          (transition P lead kyc_uploaded changed_by none no_update new s)
  marked_cases id changed_by new s lead found first =
      elim (Result-cases (transition P lead kyc_uploaded changed_by none no_update new s).0) [
        | inl (e, failed) ↦
            inl
              (transition-err lead kyc_uploaded changed_by none no_update new s e failed, λ l h. cc)
        | inr (l, done) ↦ inr (
          lead,
          l,
          found_by_id id s lead found,
          status_eq_sound lead.status created first,
          transition-Moved lead kyc_uploaded changed_by none no_update new s l done,
        )
      ]

  pub mark_kyc_uploaded_cases :
      (id changed_by : String) (new : Generated) (s : State P)
      → MarkCases P id changed_by new s (mark_kyc_uploaded P id changed_by new s)
  unfolding mark_kyc_uploaded
  mark_kyc_uploaded_cases id changed_by new s = elim (Result-cases (find_by_id_or_throw P id s)) [
    | inl (e, missing) ↦ inl (rw (missing, mark_kyc_uploaded) (refl, λ l h. cc))
    | inr (lead, found) ↦ elim (Bool-cases (status_eq lead.status created)) [
      | inr past ↦
          inl (rw (found, mark_kyc_uploaded) (rw past (refl, past_lead id s lead found past)))
      | inl first ↦
          rw (found, mark_kyc_uploaded)
            (rw first (marked_cases id changed_by new s lead found first))
    ]
  ]
