-- ===== src/Banking/ServiceExamples.antt =====
-- The consumers of the topic with their dead letters, and the services that they ask.
use oneandro_clone.Prelude.{
  String, ◌≡◌, refl, Bool, true, false, none, some, [], ◌∷◌, if◌then◌else◌, ◌==◌,
}
use oneandro_clone.Users.Tokens.{TokenConfig}
use oneandro_clone.Users.Email.{Text}
use oneandro_clone.Banking.Messages.{Parsed, object, unparsable, a_string, is_lead_status_event}
use oneandro_clone.Banking.Notifications.{EmailContent, is_notifiable, addressed, build_content}
use oneandro_clone.Banking.Consumer.{after_notice}
use oneandro_clone.Banking.Projection.{consume_all}
use oneandro_clone.Banking.Redelivery.{Delivery, deliver_all, deliver_all-consume_all}
use oneandro_clone.Banking.Services.{
  get_lead, on_event_with_services, on_event_with_services-mailed,
}
use oneandro_clone.Banking.Examples.{
  db, waiting, stored, declined_event, takes, accounts, ann, with_ann,
}

abbrev config : TokenConfig
config = record {
  hash_token = λ s. s;
  sign_access_token = λ id email role. id;
  access_ttl_ms = 900;
  refresh_ttl_ms = 9000;
}

abbrev address_text : Text → String
address_text t = "ann@x"

abbrev checks : String → String → Bool
checks hash password = hash == password

on_event_with_services-mailed_example :
    (content : EmailContent) × (build_content (get_lead db 1000 stored) declined_event
      ≡ some content)
    × (on_event_with_services config checks accounts address_text [] 7 with_ann db 1000 stored
          "bank@x" takes declined_event
        ≡ after_notice takes (addressed "bank@x" "ann@x" (some content)))
unfolding is_notifiable
on_event_with_services-mailed_example =
    on_event_with_services-mailed config checks accounts address_text [] 7 with_ann db 1000 stored
      "bank@x" takes declined_event waiting ann refl refl refl

abbrev parse : String → Parsed
parse s =
    if s == "good"
    then object (a_string "l1") (a_string "a1") (a_string "KYC_UPLOADED") (a_string "t")
    else unparsable

abbrev reason : Delivery → String
reason d = "not an event"

abbrev good : Delivery
good = record {
  message = record { key = some "l1"; value = some "good" };
  now = 10;
  writes = true;
  taken = false;
}

abbrev bad : Delivery
bad = record {
  message = record { key = none; value = none };
  now = 20;
  writes = true;
  taken = true;
}

abbrev worse : Delivery
worse = record bad { taken = false }

deliver_all-consume_all_example :
    deliver_all accounts parse reason "lead-status-events"
      (bad ∷ good ∷ worse ∷ [])
      (with_ann, [], [])
    ≡ (
      consume_all accounts
          ((object (a_string "l1") (a_string "a1") (a_string "KYC_UPLOADED") (a_string "t"), 10)
            ∷ [])
          with_ann,
      record {
        topic = "lead-status-events.dlq";
        key = "unknown";
        value = "";
        dlq_reason = "not an event";
        origin_topic = "lead-status-events";
      }
          ∷ [],
      worse ∷ [],
    )
unfolding is_lead_status_event
deliver_all-consume_all_example =
    deliver_all-consume_all accounts parse reason "lead-status-events" (bad ∷ good ∷ worse ∷ [])
      with_ann [] []
