-- ===== src/Leads/Events.antt =====
-- The events on the topic beside the lines of the history.
use mathlib.Core.Option
use oneandro_clone.Prelude.{
  eq_iff, find, find-holds, Option-cases, ℕ, String, ◌≡◌, refl, sym, ap, ◌∙◌, inl, inr, true, false,
  Option, none, some, List, [], ◌∷◌, ◌++◌, map, arith, Bool-cases, All, All-append, append-nil,
  append_assoc,
}
use oneandro_clone.Common.{LeadStatus, created, RequestUser, LeadStatusEvent}
use oneandro_clone.Leads.{Lead, StatusChange, LeadDb, State}
use oneandro_clone.Leads.StateMachine.{can_move}
use oneandro_clone.Leads.Service.{
  LeadUpdate, has_id, apply_update, CreateLeadDto, Generated, new_lead, status_change, create,
  transition,
}
use oneandro_clone.Leads.Moves.{Moved, written_rows}
use oneandro_clone.Leads.Keeps.{any_body, serve-keeps, transition-keeps}
use oneandro_clone.Leads.Api.{Call, serve}

-- A move of a lead, as an event tells it and as a line of the history does.
pub record Move : Type 0 where
  pub lead_id : String
  pub from : Option LeadStatus
  pub to : LeadStatus

abbrev pub event_move : LeadStatusEvent → Move
event_move e = record { lead_id = e.lead_id; from = e.previous_status; to = e.status }

abbrev pub line_move : StatusChange → Move
line_move c = record { lead_id = c.lead_id; from = c.from_status; to = c.to_status }

-- A line of the history is the creation of a lead, or an edge of the state machine.
abbrev pub IsLegalLine : StatusChange → Type 0
IsLegalLine c = elim c.from_status [
  | none ↦ c.to_status ≡ created
  | some from ↦ can_move from c.to_status ≡ true
]

-- From one state to a later one the history grew by lines that are legal, and the producer was handed events
-- that tell the same moves.
pub record Grows (P : LeadDb) (s t : State P) : Type 0 where
  pub events : List LeadStatusEvent
  pub lines : List StatusChange
  pub published_after : t.published ≡ s.published ++ events
  pub history_after : P.history.rows t.history ≡ P.history.rows s.history ++ lines
  pub told : map event_move events ≡ map line_move lines
  pub legal : All IsLegalLine lines

pub map-append :
    {A B : Type 0} (f : A → B) (xs ys : List A) → map f (xs ++ ys) ≡ map f xs ++ map f ys
map-append f [] ys = refl
map-append f (x ∷ xs) ys = rw (map-append f xs ys)

module _ (P : LeadDb) where
  pub Grows-frame :
      (s t : State P)
      → t.published ≡ s.published
      → P.history.rows t.history ≡ P.history.rows s.history
      → Grows P s t
  Grows-frame s t p h = record {
    events = [];
    lines = [];
    published_after = p ∙ sym (append-nil s.published);
    history_after = h ∙ sym (append-nil (P.history.rows s.history));
    told = refl;
    legal = tt;
  }

  Grows-one :
      (s t : State P) (e : LeadStatusEvent) (c : StatusChange)
      → t.published ≡ s.published ++ e ∷ []
      → P.history.rows t.history ≡ P.history.rows s.history ++ c ∷ []
      → event_move e ≡ line_move c
      → IsLegalLine c
      → Grows P s t
  Grows-one s t e c p h same legal = record {
    events = e ∷ [];
    lines = c ∷ [];
    published_after = p;
    history_after = h;
    told = ap (λ m. m ∷ []) same;
    legal = (legal, tt);
  }

  pub Grows-trans : (s t u : State P) → Grows P s t → Grows P t u → Grows P s u
  Grows-trans s t u v w = record {
    events = v.events ++ w.events;
    lines = v.lines ++ w.lines;
    published_after =
        w.published_after
        ∙ ap (λ es. es ++ w.events) v.published_after
        ∙ append_assoc s.published v.events w.events;
    history_after =
        w.history_after
        ∙ ap (λ cs. cs ++ w.lines) v.history_after
        ∙ append_assoc (P.history.rows s.history) v.lines w.lines;
    told = rw (
      map-append event_move v.events w.events,
      map-append line_move v.lines w.lines,
      v.told,
      w.told,
    );
    legal = All-append IsLegalLine v.lines w.lines v.legal w.legal;
  }

  updated_id :
      (s : State P) (id : String) (to : LeadStatus) (extra : LeadUpdate) (now : ℕ) (u : Lead)
      → Option.map (apply_update to extra now) (find (has_id id) (P.leads.rows s.leads)) ≡ some u
      → u.id ≡ id
  unfolding apply_update
  updated_id s id to extra now u h = elim (Option-cases (find (has_id id) (P.leads.rows s.leads))) [
    | inl missing ↦ cc (rw missing at h)
    | inr (l, found) ↦
        let same : l.id ≡ u.id = ap_id (rw found at h) in
        sym same ∙ (eq_iff l.id id).0 (find-holds (has_id id) (P.leads.rows s.leads) {x = l} found)
  ]
    where
      ap_id : {a b : Lead} → some a ≡ some b → a.id ≡ b.id
      ap_id h = cc

  Moved-Grows :
      (lead : Lead) (to : LeadStatus) (changed_by : String) (remark : Option String)
      (extra : LeadUpdate) (new : Generated) (s : State P) (u : Lead) (t : State P)
      → Moved P lead to changed_by remark extra new s u t
      → Grows P s t
  unfolding status_change
  Moved-Grows lead to changed_by remark extra new s u t m =
      Grows-one s t _ _ m.published_after m.history_after
        (ap (λ i. record { lead_id = i; from = some lead.status; to = to })
          (updated_id s lead.id to extra new.now u m.found))
        m.legal

  history_kept :
      (s : State P) (c : StatusChange)
      → (P.history.create c s.history).0 ≡ false
      → P.history.rows (P.history.create c s.history).1 ≡ P.history.rows s.history
  history_kept s c h =
      rw P.history.rows-create (ground (arith, P.history.create-written c s.history))

  create-Grows :
      (user_id : String) (dto : CreateLeadDto) (new : Generated) (s : State P)
      → Grows P s (create P user_id dto new s).1
  unfolding create new_lead status_change
  create-Grows user_id dto new s =
      let line = status_change new.lead_id none created user_id none new in
      elim (Bool-cases (P.leads.create (new_lead user_id dto new) s.leads).0) [
        | inr clash ↦ rw clash (Grows-frame s _ refl refl)
        | inl written ↦ elim (Bool-cases (P.history.create line s.history).0) [
          | inr torn ↦ rw written (rw torn (Grows-frame s _ refl (history_kept s line torn)))
          | inl logged ↦ rw written (
              rw logged
                (Grows-one s _ _ line refl (written_rows P line s.history logged) refl refl))
        ]
      ]

  module _ (max_size : ℕ) (start : State P) where
    abbrev IsGrown : State P → Type 0
    IsGrown s = Grows P start s

    creates :
        (user_id : String) (dto : CreateLeadDto) (new : Generated) (s : State P)
        → Unit {0}
        → IsGrown s
        → IsGrown (create P user_id dto new s).1
    creates user_id dto new s b v = Grows-trans start s _ v (create-Grows user_id dto new s)

    moves :
        (lead : Lead) (to : LeadStatus) (changed_by : String) (remark : Option String)
        (extra : LeadUpdate) (new : Generated) (s : State P) (u : Lead) (t : State P)
        → Moved P lead to changed_by remark extra new s u t
        → IsGrown s
        → IsGrown t
    moves lead to changed_by remark extra new s u t m v =
        Grows-trans start s t v (Moved-Grows lead to changed_by remark extra new s u t m)

    frame :
        (s t : State P)
        → t.leads ≡ s.leads
        → t.history ≡ s.history
        → t.published ≡ s.published
        → IsGrown s
        → IsGrown t
    frame s t p q r v = Grows-trans start s t v (Grows-frame s t r (ap P.history.rows q))

    serve-IsGrown :
        (call : Call) (user : RequestUser) → IsGrown (serve P max_size call user start).1
    serve-IsGrown call user =
        serve-keeps P max_size IsGrown (λ dto. Unit) creates moves frame call user start
          (any_body call) (Grows-frame start start refl refl)

    transition-IsGrown :
        (lead : Lead) (to : LeadStatus) (changed_by : String) (remark : Option String)
        (extra : LeadUpdate) (new : Generated)
        → IsGrown (transition P lead to changed_by remark extra new start).1
    transition-IsGrown lead to changed_by remark extra new =
        transition-keeps P max_size IsGrown (λ dto. Unit) creates moves frame lead to changed_by
          remark extra new start (Grows-frame start start refl refl)

  -- Every request, admitted or not and successful or not, adds only legal lines to the history, and hands the
  -- producer events that tell the same moves.
  pub serve-Grows :
      (max_size : ℕ) (call : Call) (user : RequestUser) (s : State P)
      → Grows P s (serve P max_size call user s).1
  serve-Grows max_size call user s = serve-IsGrown max_size s call user

  pub transition-Grows :
      (max_size : ℕ) (lead : Lead) (to : LeadStatus) (changed_by : String) (remark : Option String)
      (extra : LeadUpdate) (new : Generated) (s : State P)
      → Grows P s (transition P lead to changed_by remark extra new s).1
  transition-Grows max_size lead to changed_by remark extra new s =
      transition-IsGrown max_size s lead to changed_by remark extra new
