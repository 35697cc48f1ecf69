-- ===== src/Leads/Topic.antt =====
-- apps/lead-service/src/kafka/kafka-producer.service.ts with publishLeadStatusEventAsync of
-- src/leads/leads.service.ts. The partition of a key is the client library's choice, a parameter.
use oneandro_clone.Prelude.{
  ℕ, String, ◌≡◌, refl, ap, inl, inr, Bool, List, [], ◌∷◌, filter, arith, eqb, ◌==◌, eq_iff,
  Bool-cases, if◌then◌else◌,
}
use oneandro_clone.Common.{LeadStatus, LeadStatusEvent}
use oneandro_clone.Leads.Events.{Move, event_move}

-- The message of an event, with the JSON text of the event left as the event.
pub record KafkaMessage : Type 0 where
  pub topic : String
  pub key : String
  pub value : LeadStatusEvent

unfoldable pub publish_lead_status_event : String → LeadStatusEvent → KafkaMessage
publish_lead_status_event topic event = record { topic = topic; key = event.lead_id; value = event }

-- The messages that reach the topic. A send that fails is logged, and its event is lost; the others are
-- taken to reach the topic in the order in which they were handed over.
unfoldable pub publish_all : String → List (LeadStatusEvent × Bool) → List KafkaMessage
publish_all topic [] = []
publish_all topic ((event, sent) ∷ rest) =
    let messages = publish_all topic rest in
    if sent then publish_lead_status_event topic event ∷ messages else messages

-- A partition of the topic: the messages whose keys it is responsible for, in the order of the topic.
unfoldable pub partition : (String → ℕ) → ℕ → List KafkaMessage → List KafkaMessage
partition partition_of n messages = filter (λ m. eqb (partition_of m.key) n) messages

-- The statuses of a lead that a consumer of the messages has seen.
abbrev pub seen : String → List KafkaMessage → List LeadStatus
seen id [] = []
seen id (m ∷ ms) =
    let rest = seen id ms in if m.value.lead_id == id then m.value.status ∷ rest else rest

-- The statuses that the moves of a lead led to.
abbrev pub moves_of : String → List Move → List LeadStatus
moves_of id [] = []
moves_of id (m ∷ ms) = let rest = moves_of id ms in if m.lead_id == id then m.to ∷ rest else rest

abbrev pub sent_moves : List (LeadStatusEvent × Bool) → List Move
sent_moves [] = []
sent_moves ((event, sent) ∷ rest) =
    let moves = sent_moves rest in if sent then event_move event ∷ moves else moves

module _ (topic : String) (partition_of : String → ℕ) (id : String) where
  -- The partition of a lead holds all of its events that were sent, in their order.
  pub seen-partition :
      (events : List (LeadStatusEvent × Bool))
      → seen id (partition partition_of (partition_of id) (publish_all topic events))
        ≡ moves_of id (sent_moves events)
  unfolding partition publish_lead_status_event publish_all
  seen-partition [] = refl
  seen-partition ((e, sent) ∷ es) = elim (Bool-cases sent) [
    | inr lost ↦ rw lost (seen-partition es)
    | inl there ↦ elim (Bool-cases (e.lead_id == id)) [
      | inl same ↦
          ground (arith, seen-partition es, there, ap partition_of ((eq_iff e.lead_id id).0 same))
      | inr other ↦ ground (arith, seen-partition es, there)
    ]
  ]
