-- ===== src/Banking/Messages.antt =====
-- packages/common/src/events/lead-status.event.ts: what a consumer makes of the bytes of a message.
use oneandro_clone.Prelude.{String, Option, none, some}

-- The value of one property of a parsed message.
pub data Field : Type 0 where
  a_string : String → Field
  not_a_string : Field

-- What JSON.parse makes of a message.
pub data Parsed : Type 0 where
  unparsable not_an_object : Parsed
  object : Field → Field → Field → Field → Parsed

-- A message that passes the guard. The guard does not look at which string the status is.
pub record Message : Type 0 where
  pub lead_id : String
  pub user_id : String
  pub status : String
  pub occurred_at : String

-- JSON.parse, then isLeadStatusEvent, on the lead id, the user id, the status and the instant.
unfoldable pub is_lead_status_event : Parsed → Option Message
is_lead_status_event (object (a_string l) (a_string u) (a_string s) (a_string t)) =
    some (record { lead_id = l; user_id = u; status = s; occurred_at = t })
is_lead_status_event _ = none
