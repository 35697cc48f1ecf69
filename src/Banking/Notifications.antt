-- ===== src/Banking/Notifications.antt =====
-- apps/banking-adapter-mock/src/notifications/notifications.service.ts
use Prim.Native.String.{◌++◌}
use oneandro_clone.Prelude.{
  String, Bool, Option, none, some, [], ◌∷◌, any, ◌==◌, not, if◌then◌else◌,
}
use oneandro_clone.Banking.Messages.{Message}

pub record EmailContent : Type 0 where
  pub subject : String
  pub text : String

pub record Mail : Type 0 where
  pub from : String
  pub to : String
  pub subject : String
  pub text : String

-- NOTIFIABLE_STATUSES
unfoldable pub is_notifiable : String → Bool
is_notifiable status =
    any (λ s. status == s) ("APPROVED" ∷ "DECLINED" ∷ "FUNDED" ∷ "FUNDING_REJECTED" ∷ [])

-- A reason that is absent or empty is not told.
unfoldable pub reason_text : Option String → String
reason_text none = ""
reason_text (some reason) = if reason == "" then "" else " Reason: " ++ reason

-- What `notify` comes to before the mail is sent: nothing to send, an exception, or the mail.
pub data Notice : Type 0 where
  no_notice failed : Notice
  notice : Mail → Notice

abbrev pub addressed : String → String → Option EmailContent → Notice
addressed sender to none = failed
addressed sender to (some content) =
    notice (record { from = sender; to = to; subject = content.subject; text = content.text })

-- `get_lead` is the answer of lead-service, with the decline reason of the lead; `none` is its failure.
module _ (get_lead : String → Option (Option String)) where
  unfoldable pub declined_content : Message → Option EmailContent
  declined_content event = elim (get_lead event.lead_id) [
    | none ↦ none
    | some reason ↦ some (record {
      subject = "Update on your loan application";
      text =
          "Your loan application ("
          ++ (event.lead_id ++ (") was not approved." ++ reason_text reason));
    })
  ]

  unfoldable pub funding_rejected_content : Message → Option EmailContent
  funding_rejected_content event = elim (get_lead event.lead_id) [
    | none ↦ none
    | some reason ↦ some (record {
      subject = "Update on your loan funding";
      text =
          "Our banking partner was unable to fund your approved loan ("
          ++ (event.lead_id
              ++ (")." ++ (reason_text reason ++ " Our team will follow up with next steps.")));
    })
  ]

  -- buildContent; `none` is an exception, of the default case or of the request.
  unfoldable pub build_content : Message → Option EmailContent
  build_content event =
      if event.status == "APPROVED"
      then some (record {
        subject = "Your loan has been approved";
        text =
            "Good news — your loan application ("
            ++ (event.lead_id ++ ") has been approved and is moving to funding.");
      })
      else if event.status == "FUNDED"
      then some (record {
        subject = "You're funded!";
        text =
            "Your loan ("
            ++ (event.lead_id
                ++ ") has been funded by our banking partner. Funds are on their way.");
      })
      else if event.status == "DECLINED"
      then declined_content event
      else if event.status == "FUNDING_REJECTED"
      then funding_rejected_content event
      else none

  -- `get_user` is the address that user-service gives.
  unfoldable pub notify : String → (String → Option String) → Message → Notice
  notify sender get_user event =
      if not (is_notifiable event.status) then no_notice else elim (get_user event.user_id) [
        | none ↦ failed
        | some email ↦ addressed sender email (build_content event)
      ]
