-- ===== src/Leads/Creation.antt =====
-- What `create` of the leads' service has done when it succeeds, and when it fails between its
-- two writes.
use oneandro_clone.Prelude.{String, ◌≡◌, true, false, none, [], ◌∷◌, ◌++◌, arith, any, ◌⊎◌}
use oneandro_clone.Common.{created}
use oneandro_clone.Leads.{
  Lead, lead_clash, StatusChange, change_clash, LeadDb, State, database_failure, ok, err,
}
use oneandro_clone.Leads.Service.{CreateLeadDto, Generated, new_lead, status_change, create}

module _ (P : LeadDb) (user_id : String) (dto : CreateLeadDto) (new : Generated) (s : State P) where
  abbrev pub first_line : StatusChange
  first_line = status_change new.lead_id none created user_id none new

  pub record Created (t : State P) : Type 0 where
    pub id_unused : any (lead_clash (new_lead user_id dto new)) (P.leads.rows s.leads) ≡ false
    pub leads_after : P.leads.rows t.leads ≡ P.leads.rows s.leads ++ new_lead user_id dto new ∷ []
    pub history_after : P.history.rows t.history ≡ P.history.rows s.history ++ first_line ∷ []
    pub documents_after : t.documents ≡ s.documents
    pub files_after : t.files ≡ s.files
    pub published_after :
        t.published
        ≡ s.published
          ++ record {
            lead_id = new.lead_id;
            user_id = user_id;
            status = created;
            previous_status = none;
            occurred_at = new.now;
          }
            ∷ []

  -- A lead that is created is new, in state CREATED, with one line of history and one event.
  pub create-Created :
      (l : Lead)
      → (create P user_id dto new s).0 ≡ ok l
      → (l ≡ new_lead user_id dto new) × Created (create P user_id dto new s).1
  unfolding create new_lead
  create-Created l h = (
    ground arith,
    ground (
      arith,
      P.leads.create-written (new_lead user_id dto new) s.leads,
      P.leads.rows-create (new_lead user_id dto new) s.leads,
      P.history.create-written first_line s.history,
      P.history.rows-create first_line s.history,
    ),
  )

  -- The two writes are no transaction: if the line of history is refused, the caller gets an error,
  -- and the lead stays in the table without a line in its history and without an event.
  pub create-torn :
      P.is_uuid user_id ≡ true
      → any (lead_clash (new_lead user_id dto new)) (P.leads.rows s.leads) ≡ false
      → any (change_clash first_line) (P.history.rows s.history) ≡ true
      → ((create P user_id dto new s).0 ≡ err database_failure)
        × (P.leads.rows (create P user_id dto new s).1.leads
            ≡ P.leads.rows s.leads ++ new_lead user_id dto new ∷ [])
        × (P.history.rows (create P user_id dto new s).1.history ≡ P.history.rows s.history)
        × ((create P user_id dto new s).1.published ≡ s.published)
  unfolding create new_lead
  create-torn good free clash = ground (
    arith,
    P.leads-accepts (new_lead user_id dto new),
    P.leads.create-written (new_lead user_id dto new) s.leads,
    P.leads.rows-create (new_lead user_id dto new) s.leads,
    P.history.create-written first_line s.history,
    P.history.rows-create first_line s.history,
  )

  -- Whatever comes of it, the history is as it was or has the line of the creation more.
  pub history-create :
      (P.history.rows (create P user_id dto new s).1.history ≡ P.history.rows s.history)
      ⊎ (P.history.rows (create P user_id dto new s).1.history
          ≡ P.history.rows s.history ++ first_line ∷ [])
  unfolding create new_lead
  history-create = ground (
    arith,
    P.history.create-written first_line s.history,
    P.history.rows-create first_line s.history,
  )

  -- Whatever comes of it, the table is as it was or has the new lead more.
  pub leads-create :
      (P.leads.rows (create P user_id dto new s).1.leads ≡ P.leads.rows s.leads)
      ⊎ (P.leads.rows (create P user_id dto new s).1.leads
          ≡ P.leads.rows s.leads ++ new_lead user_id dto new ∷ [])
  unfolding create
  leads-create = ground (
    arith,
    P.leads.create-written (new_lead user_id dto new) s.leads,
    P.leads.rows-create (new_lead user_id dto new) s.leads,
  )
