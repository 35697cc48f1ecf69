-- ===== src/Leads/Race.antt =====
-- Two changes of status of one lead that overlap: each reads the lead before the other has written, since
-- the read and the check stand outside of the transaction.
use oneandro_clone.Prelude.{
  String, ◌≡◌, ◌∙◌, ap, true, false, Option, none, some, List, [], ◌∷◌, ◌++◌, arith, find, eq_refl,
}
use oneandro_clone.Common.{LeadStatus, status_eq}
use oneandro_clone.Leads.{Lead, StatusChange, LeadDb, State, ok}
use oneandro_clone.Leads.StateMachine.{allowed_transitions, can_move}
use oneandro_clone.Leads.Service.{Generated, LeadUpdate, has_id, status_change, transition}
use oneandro_clone.Leads.Moves.{transition-Moved}
use oneandro_clone.Leads.Audit.{IsAudited, replay, advance, replay-append, Moved-IsAudited_self}

module _ (P : LeadDb) (lead : Lead) (to to' : LeadStatus) (by by' : String)
    (note note' : Option String) (extra extra' : LeadUpdate) (new new' : Generated) (s : State P)
    (u u' : Lead) where
  abbrev pub between : State P
  between = (transition P lead to by note extra new s).1

  moved_on : can_move lead.status to ≡ true → status_eq lead.status to ≡ false
  unfolding can_move allowed_transitions
  moved_on h = ground arith

  stale :
      can_move lead.status to ≡ true
      → advance lead.id (some to) (status_change lead.id (some lead.status) to' by' note' new')
        ≡ none
  unfolding status_change
  stale h = ground (arith, moved_on h, eq_refl lead.id)

  -- Two moves of a lead of the table that were both checked against the status that it had before either
  -- of them, and that both succeed, leave two lines from that status one after the other in the history; and
  -- the history, which was a complete and legal account of the leads, is then none of this lead.
  pub transition_twice :
      IsAudited P s
      → find (has_id lead.id) (P.leads.rows s.leads) ≡ some lead
      → (transition P lead to by note extra new s).0 ≡ ok u
      → (transition P lead to' by' note' extra' new' between).0 ≡ ok u'
      → (P.history.rows (transition P lead to' by' note' extra' new' between).1.history
          ≡ (P.history.rows s.history
              ++ status_change lead.id (some lead.status) to by note new ∷ [])
            ++ status_change lead.id (some lead.status) to' by' note' new' ∷ [])
        × (replay lead.id none
              (P.history.rows (transition P lead to' by' note' extra' new' between).1.history)
            ≡ none)
  transition_twice v found first second =
      let m = transition-Moved P lead to by note extra new s u first in
      let m' = transition-Moved P lead to' by' note' extra' new' between u' second in
      let c' = status_change lead.id (some lead.status) to' by' note' new' in
      (
        m'.history_after ∙ ap (λ (h : List StatusChange). h ++ c' ∷ []) m.history_after,
        rw m'.history_after (
            replay-append lead.id none (P.history.rows between.history) c' {end = some to}
              (Moved-IsAudited_self P lead to by note extra new s m found v)
            ∙ stale m.legal),
      )
