-- ===== src/Leads/Audit.antt =====
-- The history table is a complete and legal account of the leads: replaying the lines of a lead
-- gives its status.
use mathlib.Core.Option
use oneandro_clone.Prelude.{
  ℕ, String, ◌≡◌, refl, sym, ap, ◌∙◌, inl, inr, true, false, ◌&&◌, Option, none, some, List, [],
  ◌∷◌, ◌++◌, arith, ◌==◌, eq_iff, eq_refl, find, find-append, find-none_of_any, find-holds,
  find-map_where, find-map_where_ne, if◌then◌else◌, Bool-cases, Option-cases,
}
use oneandro_clone.Common.{
  LeadStatus, created, kyc_uploaded, status_eq, status_eq_refl, RequestUser,
}
use oneandro_clone.Leads.{Lead, lead_clash, StatusChange, LeadDb, State, ok}
use oneandro_clone.Leads.StateMachine.{can_move}
use oneandro_clone.Leads.Service.{
  CreateLeadDto, UpdateLeadStatusDto, Generated, LeadUpdate, no_update, has_id, apply_update,
  status_change, extra_of, new_lead, create, mark_kyc_uploaded, update_status,
}
use oneandro_clone.Leads.Creation.{first_line, Created, create-Created}
use oneandro_clone.Leads.Moves.{
  Moved, update_status-err, update_status-ok, mark_kyc_uploaded_cases, Result-cases,
}

-- One line of the history of a lead with this status, `none` before the lead exists. The result is
-- `none` if the line does not start from that status or its move is not allowed.
abbrev pub step_on : Option LeadStatus → StatusChange → Option (Option LeadStatus)
step_on none c = elim c.from_status [
  | none ↦ if status_eq c.to_status created then some (some created) else none
  | some f ↦ none
]
step_on (some now) c = elim c.from_status [
  | none ↦ none
  | some f ↦ if status_eq f now && can_move now c.to_status then some (some c.to_status) else none
]

abbrev pub advance : String → Option LeadStatus → StatusChange → Option (Option LeadStatus)
advance id now c = if c.lead_id == id then step_on now c else some now

-- The status that the history gives to a lead.
abbrev pub replay : String → Option LeadStatus → List StatusChange → Option (Option LeadStatus)
replay id now [] = some now
replay id now (c ∷ cs) = elim (advance id now c) [ none ↦ none | some next ↦ replay id next cs ]

pub replay-append :
    (id : String) (now : Option LeadStatus) (cs : List StatusChange) (c : StatusChange)
    {end : Option LeadStatus}
    → replay id now cs ≡ some end
    → replay id now (cs ++ c ∷ []) ≡ advance id end c
replay-append id now [] c {end} h = ground arith
replay-append id now (x ∷ cs) c {end} h = elim (Option-cases (advance id now x)) [
  | inl stop ↦ cc (rw (stop, replay) at h)
  | inr (next, go) ↦ rw (go, replay) (replay-append id next cs c {end = end} (rw (go, replay) at h))
]

pub find_at : (k id : String) (xs : List Lead) → k ≡ id → find (has_id k) xs ≡ find (has_id id) xs
find_at k id xs e = rw e

-- A lead that is found by an id has that id.
pub find-has_id :
    (xs : List Lead) (lead : Lead) (id : String)
    → find (has_id id) xs ≡ some lead
    → find (has_id lead.id) xs ≡ some lead
find-has_id xs lead id h =
    find_at lead.id id xs ((eq_iff lead.id id).0 (find-holds (has_id id) xs {x = lead} h)) ∙ h

-- For every id, the history replays to the status of the lead, or to nothing if there is none.
pub record IsAudited (P : LeadDb) (s : State P) : Type 0 where
  pub at :
      (id : String)
      → replay id none (P.history.rows s.history)
        ≡ some (Option.map (λ (l : Lead). l.status) (find (has_id id) (P.leads.rows s.leads)))

module _ (P : LeadDb) (lead : Lead) (to : LeadStatus) (changed_by : String) (note : Option String)
    (extra : LeadUpdate) (new : Generated) (s : State P) where
  abbrev line : StatusChange
  line = status_change lead.id (some lead.status) to changed_by note new

  advance_other :
      (id : String) (now : Option LeadStatus)
      → (lead.id == id) ≡ false
      → advance id now line ≡ some now
  unfolding status_change
  advance_other id now h = ground arith

  other_id :
      (id : String)
      → (lead.id == id) ≡ false
      → (x : Lead) → has_id id x ≡ true
      → has_id lead.id x ≡ false
  other_id id ne x h = ground (arith, eq_iff x.id id, eq_iff lead.id id, eq_iff x.id lead.id)

  advance_self :
      can_move lead.status to ≡ true → advance lead.id (some lead.status) line ≡ some (some to)
  unfolding status_change
  advance_self h = ground (arith, eq_refl lead.id, status_eq_refl lead.status)

  module _ {l : Lead} {t : State P} (m : Moved P lead to changed_by note extra new s l t)
      (found : find (has_id lead.id) (P.leads.rows s.leads) ≡ some lead) where
    pub leads_self :
        find (has_id lead.id) (P.leads.rows t.leads) ≡ some (apply_update to extra new.now lead)
    leads_self = rw (
      m.leads_after,
      find-map_where (has_id lead.id) (has_id lead.id) (apply_update to extra new.now)
          (P.leads.rows s.leads) (λ x. unfold apply_update in refl) (λ x h. h),
      found,
    )

    status_after :
        Option.map (λ (l : Lead). l.status) (find (has_id lead.id) (P.leads.rows t.leads)) ≡ some to
    unfolding apply_update
    status_after = rw leads_self

    pub leads_other :
        (id : String)
        → (lead.id == id) ≡ false
        → find (has_id id) (P.leads.rows t.leads) ≡ find (has_id id) (P.leads.rows s.leads)
    leads_other id ne = rw (
      m.leads_after,
      find-map_where_ne (has_id lead.id) (has_id id) (apply_update to extra new.now)
          (P.leads.rows s.leads) (λ x. unfold apply_update in refl) (other_id id ne),
    )

    pub Moved-IsAudited_self :
        IsAudited P s → replay lead.id none (P.history.rows t.history) ≡ some (some to)
    Moved-IsAudited_self v = rw m.history_after (
        replay-append lead.id none (P.history.rows s.history) line {end = some lead.status}
          (v.at lead.id ∙ ap (λ o. some (Option.map (λ (l : Lead). l.status) o)) found)
        ∙ advance_self m.legal)

    Moved-IsAudited_at :
        IsAudited P s
        → (id : String)
        → replay id none (P.history.rows t.history)
          ≡ some (Option.map (λ (l : Lead). l.status) (find (has_id id) (P.leads.rows t.leads)))
    Moved-IsAudited_at v id = elim (Bool-cases (lead.id == id)) [
      | inl same ↦
          rw (← (eq_iff lead.id id).0 same) (Moved-IsAudited_self v ∙ ap some (sym status_after))
      | inr other ↦
          rw (m.history_after, leads_other id other)
            (replay-append id none (P.history.rows s.history) line (v.at id)
              ∙ advance_other id _ other)
    ]

    pub Moved-IsAudited : IsAudited P s → IsAudited P t
    Moved-IsAudited v = record { at = Moved-IsAudited_at v }

module _ (P : LeadDb) (s : State P) (v : IsAudited P s) where
  -- If the history is a complete and legal account of the leads, it stays so, whatever a caller
  -- asks of updateStatus, allowed or not.
  pub update_status-IsAudited :
      (id : String) (dto : UpdateLeadStatusDto) (requester : RequestUser) (new : Generated)
      (roll : ℕ)
      → IsAudited P (update_status P id dto requester new roll s).1
  update_status-IsAudited id dto requester new roll =
      elim (Result-cases (update_status P id dto requester new roll s).0) [
        | inl (e, failed) ↦ rw (update_status-err P id dto requester new roll s e failed) v
        | inr (l, done) ↦
            let (lead, found, may, reason, m) =
              update_status-ok P id dto requester new roll s l done in
            Moved-IsAudited P lead dto.to_status requester.user_id dto.note (extra_of dto roll) new
              s m (find-has_id (P.leads.rows s.leads) lead id found) v
      ]

  pub mark_kyc_uploaded-IsAudited :
      (id changed_by : String) (new : Generated)
      → IsAudited P (mark_kyc_uploaded P id changed_by new s).1
  mark_kyc_uploaded-IsAudited id changed_by new =
      elim (mark_kyc_uploaded_cases P id changed_by new s) [
        | inl (same, past) ↦ rw same v
        | inr (lead, l, found, first, m) ↦
            Moved-IsAudited P lead kyc_uploaded changed_by none no_update new s m
              (find-has_id (P.leads.rows s.leads) lead id found) v
      ]

  module _ (user_id : String) (dto : CreateLeadDto) (new : Generated) {t : State P}
      (c : Created P user_id dto new s t) where
    unused : find (has_id new.lead_id) (P.leads.rows s.leads) ≡ none
    unfolding new_lead
    unused =
        find-none_of_any (has_id new.lead_id) (lead_clash (new_lead user_id dto new))
          (P.leads.rows s.leads)
          (λ x h. ground (arith, eq_iff x.id new.lead_id, eq_iff new.lead_id x.id)) c.id_unused

    unused_at : (id : String) → new.lead_id ≡ id → find (has_id id) (P.leads.rows s.leads) ≡ none
    unused_at id e = find_at id new.lead_id (P.leads.rows s.leads) (sym e) ∙ unused

    first_advance :
        (id : String)
        → advance id
            (Option.map (λ (l : Lead). l.status) (find (has_id id) (P.leads.rows s.leads)))
            (first_line P user_id dto new s)
          ≡ some (
              Option.map
                (λ (l : Lead). l.status)
                (find (has_id id) (P.leads.rows s.leads ++ new_lead user_id dto new ∷ [])))
    unfolding new_lead status_change
    first_advance id = rw (find-append (has_id id) (P.leads.rows s.leads)) (
        ground (
          arith,
          eq_iff new.lead_id id,
          unused_at id,
          Option-cases (find (has_id id) (P.leads.rows s.leads)),
        ))

    pub Created-IsAudited : IsAudited P t
    Created-IsAudited = record {
      at = λ id.
          rw (c.history_after, c.leads_after)
            (replay-append id none (P.history.rows s.history) (first_line P user_id dto new s)
                (v.at id)
              ∙ first_advance id);
    }

  -- If the history is a complete and legal account of the leads, it is so after a lead was
  -- created without an error.
  pub create-IsAudited :
      (user_id : String) (dto : CreateLeadDto) (new : Generated) (l : Lead)
      → (create P user_id dto new s).0 ≡ ok l
      → IsAudited P (create P user_id dto new s).1
  create-IsAudited user_id dto new l h =
      Created-IsAudited user_id dto new (create-Created P user_id dto new s l h).1
