-- ===== src/Banking/Consumer.antt =====
-- apps/banking-adapter-mock/src/kafka/consumers/lead-status.consumer.ts and the consumer of the same
-- name in apps/user-service: what each does with one message of the topic.
use oneandro_clone.Prelude.{
  ℕ, String, ◌≡◌, ◌≢◌, inl, inr, refl, sym, ◌∙◌, ap, Bool, true, false, Option, none, some, arith,
  ◌==◌, if◌then◌else◌, eq_iff, Bool-cases, Option-cases,
}
use oneandro_clone.Banking.Messages.{Parsed, Message, is_lead_status_event}
use oneandro_clone.Banking.Notifications.{
  EmailContent, Mail, Notice, no_notice, failed, notice, addressed, is_notifiable, build_content,
  notify, declined_content, funding_rejected_content,
}
use oneandro_clone.Users.{UserDb, State}
use oneandro_clone.Users.Accounts.{record_lead_status}

-- What comes of a message: the dead-letter topic, a hand-off started in the background, a mail, or
-- nothing.
pub data Outcome : Type 0 where
  dead_letter ignored : Outcome
  handed_off : Message → Outcome
  mailed : Mail → Outcome

-- `sends` is whether the SMTP server takes the mail.
unfoldable pub after_notice : (Mail → Bool) → Notice → Outcome
after_notice sends no_notice = ignored
after_notice sends failed = dead_letter
after_notice sends (notice mail) = if sends mail then mailed mail else dead_letter

pub is_notifiable-handoff :
    (status : String) → is_notifiable status ≡ true → (status == "BANK_HANDOFF") ≡ false
unfolding is_notifiable
is_notifiable-handoff status h = elim (Bool-cases (status == "BANK_HANDOFF")) [
  | inr other ↦ other
  | inl same ↦ cc (sym h ∙ ap is_notifiable ((eq_iff status "BANK_HANDOFF").0 same))
]

module _ (sender : String) (get_lead : String → Option (Option String))
    (get_user : String → Option String) (sends : Mail → Bool) where
  -- An event that passed the guard.
  unfoldable pub on_event : Message → Outcome
  on_event event =
      if event.status == "BANK_HANDOFF"
      then handed_off event
      else if is_notifiable event.status
      then after_notice sends (notify get_lead sender get_user event)
      else ignored

  -- eachMessage
  unfoldable pub each_message : Parsed → Outcome
  each_message raw = elim (is_lead_status_event raw) [
    | none ↦ dead_letter
    | some event ↦ on_event event
  ]

  -- The text of a mail can be written for every notifiable status, if lead-service answers: the
  -- default case of the switch is not reached.
  pub build_content-is_notifiable :
      (event : Message) (reason : Option String)
      → is_notifiable event.status ≡ true
      → get_lead event.lead_id ≡ some reason
      → build_content get_lead event ≢ none
  unfolding is_notifiable build_content declined_content funding_rejected_content
  build_content-is_notifiable event reason h answered = ground arith

  -- If the event is notifiable and both services answer, the consumer writes its mail and hands
  -- it to the server, for the address of the user.
  pub on_event-mailed :
      (event : Message) (address : String) (reason : Option String)
      → is_notifiable event.status ≡ true
      → get_user event.user_id ≡ some address
      → get_lead event.lead_id ≡ some reason
      → (content : EmailContent) × (build_content get_lead event ≡ some content)
        × (on_event event ≡ after_notice sends (addressed sender address (some content)))
  unfolding on_event notify
  on_event-mailed event address reason h known answered =
      elim (Option-cases (build_content get_lead event)) [
        | inl missing ↦ absurd (build_content-is_notifiable event reason h answered missing)
        | inr (content, written) ↦
            (content, written, rw (is_notifiable-handoff event.status h, h, known, written) refl)
      ]

-- eachMessage of user-service, at `now`; the flag is whether the message went to the dead-letter topic.
unfoldable pub apply_message : (P : UserDb) → Parsed → ℕ → State P → Bool × State P
apply_message P raw now s = elim (is_lead_status_event raw) [
  | none ↦ (true, s)
  | some event ↦ (false, record_lead_status P event.user_id event.status now s)
]
