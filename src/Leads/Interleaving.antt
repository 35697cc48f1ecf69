-- ===== src/Leads/Interleaving.antt =====
-- Requests that overlap. A change of status and an upload read the lead before they write, outside of
-- the transaction; between the two, any other request may run, and read or write the same lead. And the
-- event of a transaction that was committed is handed to the producer later, when its caller has seen the
-- answer of the database; until then other requests may commit, and hand over theirs.
use mathlib.Core.List.{Perm}
use mathlib.Core.List.Perm as Permuted
use oneandro_clone.Prelude.{
  String, ◌≡◌, refl, true, Option, none, List, [], ◌∷◌, ◌++◌, map, drop, length, All, All-append,
  append_assoc, ℕ,
}
use oneandro_clone.Common.{
  LeadStatus, created, kyc_uploaded, status_eq, RequestUser, LeadStatusEvent,
}
use oneandro_clone.Leads.{Lead, LeadDb, State, ok}
use oneandro_clone.Leads.Service.{
  LeadUpdate, no_update, extra_of, UpdateLeadStatusDto, Generated, transition, check_update,
  find_by_id_or_throw,
}
use oneandro_clone.Leads.Api.{Call, serve}
use oneandro_clone.Leads.Events.{
  event_move, line_move, IsLegalLine, Grows, map-append, serve-Grows, transition-Grows,
}

-- What a request that has read its lead, and not yet written, is about to write.
pub record Pending : Type 0 where
  pub lead : Lead
  pub to : LeadStatus
  pub changed_by : String
  pub remark : Option String
  pub extra : LeadUpdate

-- The state, the requests that are between their reading and their writing, and the events of committed
-- transactions that were not yet handed to the producer.
pub record Running (P : LeadDb) : Type 0 where
  pub state : State P
  pub pending : List Pending
  pub in_flight : List LeadStatusEvent

abbrev pub of_update : Lead → UpdateLeadStatusDto → RequestUser → ℕ → Pending
of_update lead dto requester roll = record {
  lead = lead;
  to = dto.to_status;
  changed_by = requester.user_id;
  remark = dto.note;
  extra = extra_of dto roll;
}

abbrev pub of_upload : Lead → String → Pending
of_upload lead uploaded_by = record {
  lead = lead;
  to = kyc_uploaded;
  changed_by = uploaded_by;
  remark = none;
  extra = no_update;
}

-- What a request has done, without handing over its events, and these events.
abbrev pub silent : (P : LeadDb) → State P → State P → State P
silent P s t = record t { published = s.published }

abbrev pub events_of : (P : LeadDb) → State P → State P → List LeadStatusEvent
events_of P s t = drop (length s.published) t.published

-- A request runs, but for the handing over of its event; or it reads its lead, and passes its checks; or one
-- of those that have done so writes; or one of the events that wait is handed over.
pub data Step (P : LeadDb) (max_size : ℕ) : Running P → Running P → Type 0 where
  served :
      (call : Call) (user : RequestUser) (s : State P) (waiting : List Pending)
      (flying : List LeadStatusEvent)
      → Step P max_size
          record { state = s; pending = waiting; in_flight = flying }
          record {
            state = silent P s (serve P max_size call user s).1;
            pending = waiting;
            in_flight = flying ++ events_of P s (serve P max_size call user s).1;
          }
  checked_update :
      (id : String) (dto : UpdateLeadStatusDto) (requester : RequestUser) (roll : ℕ) (lead : Lead)
      (s : State P) (waiting : List Pending) (flying : List LeadStatusEvent)
      → check_update P id dto requester s ≡ ok lead
      → Step P max_size
          record { state = s; pending = waiting; in_flight = flying }
          record {
            state = s;
            pending = of_update lead dto requester roll ∷ waiting;
            in_flight = flying;
          }
  checked_upload :
      (id uploaded_by : String) (lead : Lead) (s : State P) (waiting : List Pending)
      (flying : List LeadStatusEvent)
      → find_by_id_or_throw P id s ≡ ok lead
      → status_eq lead.status created ≡ true
      → Step P max_size
          record { state = s; pending = waiting; in_flight = flying }
          record { state = s; pending = of_upload lead uploaded_by ∷ waiting; in_flight = flying }
  written :
      (before after : List Pending) (p : Pending) (new : Generated) (s : State P)
      (flying : List LeadStatusEvent)
      → Step P max_size
          record { state = s; pending = before ++ p ∷ after; in_flight = flying }
          record {
            state = silent P s (transition P p.lead p.to p.changed_by p.remark p.extra new s).1;
            pending = before ++ after;
            in_flight =
                flying
                ++ events_of P s (transition P p.lead p.to p.changed_by p.remark p.extra new s).1;
          }
  handed_over :
      (before after : List LeadStatusEvent) (e : LeadStatusEvent) (s : State P)
      (waiting : List Pending)
      → Step P max_size
          record { state = s; pending = waiting; in_flight = before ++ e ∷ after }
          record {
            state = record s { published = s.published ++ e ∷ [] };
            pending = waiting;
            in_flight = before ++ after;
          }

pub data Steps (P : LeadDb) (max_size : ℕ) : Running P → Running P → Type 0 where
  at_rest : (r : Running P) → Steps P max_size r r
  then_step :
      (r s t : Running P) → Steps P max_size r s → Step P max_size s t → Steps P max_size r t

drop-length : {A : Type 0} (xs ys : List A) → drop (length xs) (xs ++ ys) ≡ ys
drop-length [] ys = refl
drop-length (x ∷ xs) ys = drop-length xs ys

to_front :
    {A : Type 0} (before after : List A) (x : A)
    → Perm (before ++ x ∷ after) (x ∷ (before ++ after))
to_front [] after x = Permuted.refl (x ∷ after)
to_front (y ∷ before) after x =
    Permuted.trans (Permuted.cons y (to_front before after x)) (Permuted.swap x y (before ++ after))

one_moved :
    {A : Type 0} (told before after : List A) (x : A)
    → Perm ((told ++ x ∷ []) ++ (before ++ after)) (told ++ (before ++ x ∷ after))
one_moved told before after x =
    rw (append_assoc told (x ∷ []) (before ++ after))
      (Permuted.append_left told (Permuted.symm (to_front before after x)))

module _ (P : LeadDb) where
  -- Every line of the history is legal; and the events that were handed over, with those that wait,
  -- tell the moves of the history, in some order.
  abbrev pub IsConsistent : Running P → Type 0
  IsConsistent r =
      All IsLegalLine (P.history.rows r.state.history)
      × Perm (map event_move (r.state.published ++ r.in_flight))
          (map line_move (P.history.rows r.state.history))

  Grows-IsConsistent :
      (s t : State P) (waiting waiting' : List Pending) (flying : List LeadStatusEvent)
      → Grows P s t
      → IsConsistent (record { state = s; pending = waiting; in_flight = flying })
      → IsConsistent (record {
        state = silent P s t;
        pending = waiting';
        in_flight = flying ++ events_of P s t;
      })
  Grows-IsConsistent s t waiting waiting' flying g (legal, perm) = (
    rw g.history_after (All-append IsLegalLine (P.history.rows s.history) g.lines legal g.legal),
    rw
        (
          g.history_after,
          g.published_after,
          drop-length s.published g.events,
          ← append_assoc s.published flying g.events,
          map-append event_move (s.published ++ flying) g.events,
          map-append line_move (P.history.rows s.history) g.lines,
          g.told,
        )
        (Permuted.append_right (map line_move g.lines) perm),
  )

  handed_over-IsConsistent :
      (before after : List LeadStatusEvent) (e : LeadStatusEvent) (s : State P)
      (waiting : List Pending)
      → IsConsistent (record { state = s; pending = waiting; in_flight = before ++ e ∷ after })
      → IsConsistent (record {
        state = record s { published = s.published ++ e ∷ [] };
        pending = waiting;
        in_flight = before ++ after;
      })
  handed_over-IsConsistent before after e s waiting (legal, perm) = (
    legal,
    Permuted.trans
        (rw
          (
            map-append event_move (s.published ++ e ∷ []) (before ++ after),
            map-append event_move s.published (e ∷ []),
            map-append event_move before after,
            map-append event_move s.published (before ++ e ∷ after),
            map-append event_move before (e ∷ after),
          )
          (one_moved (map event_move s.published) (map event_move before) (map event_move after)
            (event_move e)))
        perm,
  )

  module _ (max_size : ℕ) where
    Step-IsConsistent : (r s : Running P) → Step P max_size r s → IsConsistent r → IsConsistent s
    Step-IsConsistent r t (served call user s waiting flying) v =
        Grows-IsConsistent s _ waiting waiting flying (serve-Grows P max_size call user s) v
    Step-IsConsistent r t (checked_update id dto requester roll lead s waiting flying passed) v = v
    Step-IsConsistent r t (checked_upload id by lead s waiting flying found first) v = v
    Step-IsConsistent r t (written before after p new s flying) v =
        Grows-IsConsistent s _ (before ++ p ∷ after) (before ++ after) flying
          (transition-Grows P max_size p.lead p.to p.changed_by p.remark p.extra new s) v
    Step-IsConsistent r t (handed_over before after e s waiting) v =
        handed_over-IsConsistent before after e s waiting v

    -- However requests overlap, between the reading and the writing of each, and between its
    -- transaction and the handing over of its event: if every line of the history was a creation or an
    -- edge of the state machine, and the events handed to the producer, with those that wait for it,
    -- told the moves of the history, each once, in any order, both hold of every state that is reached.
    pub Steps-IsConsistent :
        (r s : Running P) → Steps P max_size r s → IsConsistent r → IsConsistent s
    Steps-IsConsistent r s (at_rest _) v = v
    Steps-IsConsistent r t (then_step _ s _ before last) v =
        Step-IsConsistent s t last (Steps-IsConsistent r s before v)
