-- ===== src/Banking/Redelivery.antt =====
-- The consumer of user-service over deliveries of the topic: its dead-letter topic
-- (apps/user-service/src/kafka/kafka-producer.service.ts).
use Prim.Native.String
use oneandro_clone.Prelude.{
  ℕ, String, ◌≡◌, refl, ap, ◌∙◌, inl, inr, Bool, true, false, not, ◌&&◌, Option, none, some, List,
  [], ◌∷◌, ◌++◌, map, filter, append-nil, append_assoc, Bool-cases, Option-cases, if◌then◌else◌,
}
use oneandro_clone.Users.{UserDb, State}
use oneandro_clone.Users.Accounts.{record_lead_status}
use oneandro_clone.Banking.Messages.{Parsed, Message, is_lead_status_event}
use oneandro_clone.Banking.Consumer.{apply_message}
use oneandro_clone.Banking.Projection.{consume_all}

-- A message of kafkajs: the key and the value may be null.
pub record RawMessage : Type 0 where
  pub key : Option String
  pub value : Option String

-- `message.value?.toString('utf-8') ?? ''`
unfoldable pub raw_value : RawMessage → String
raw_value m = elim m.value [ none ↦ "" | some v ↦ v ]

-- `message.key?.toString('utf-8') ?? 'unknown'`
unfoldable pub raw_key : RawMessage → String
raw_key m = elim m.key [ none ↦ "unknown" | some k ↦ k ]

pub record DeadLetter : Type 0 where
  pub topic : String
  pub key : String
  pub value : String
  pub dlq_reason : String
  pub origin_topic : String

-- publishToDlq
unfoldable pub publish_to_dlq : String → String → String → String → DeadLetter
publish_to_dlq origin_topic key raw reason = record {
  topic = String.◌++◌ origin_topic ".dlq";
  key = key;
  value = raw;
  dlq_reason = reason;
  origin_topic = origin_topic;
}

-- One delivery: the message, the instant, whether the database takes the update, and whether the
-- dead-letter topic takes the message (publishToDlq may throw).
pub record Delivery : Type 0 where
  pub message : RawMessage
  pub now : ℕ
  pub writes : Bool
  pub taken : Bool

abbrev pub text_or : String → Option String → String
text_or absent none = absent
text_or absent (some text) = text

-- `parse` is JSON.parse, `reason` the message of the exception.
module _ (P : UserDb) (parse : String → Parsed) (reason : Delivery → String) (topic : String) where
  abbrev pub dead_letter : Delivery → DeadLetter
  dead_letter d = publish_to_dlq topic (raw_key d.message) (raw_value d.message) (reason d)

  -- The catch block of eachMessage: whether it returns, and the dead letters after it.
  unfoldable pub on_failure : Delivery → List DeadLetter → Bool × List DeadLetter
  on_failure d letters = if d.taken then (true, letters ++ dead_letter d ∷ []) else (false, letters)

  -- eachMessage: whether it returns or throws, the state and the dead letters.
  unfoldable pub each_message :
      Delivery → State P × List DeadLetter → Bool × State P × List DeadLetter
  each_message d (s, letters) =
      let (returned, letters') = on_failure d letters in
      elim (is_lead_status_event (parse (raw_value d.message))) [
        | none ↦ (returned, s, letters')
        | some event ↦
            if d.writes
            then (true, record_lead_status P event.user_id event.status d.now s, letters)
            else (returned, s, letters')
      ]

  -- The deliveries of a list, one after the other, with those on which the handler has thrown.
  abbrev pub deliver_all :
      List Delivery
      → State P × List DeadLetter × List Delivery
      → State P × List DeadLetter × List Delivery
  deliver_all [] out = out
  deliver_all (d ∷ ds) (s, letters, thrown) =
      let (returned, s', letters') = each_message d (s, letters) in
      deliver_all ds (s', letters', (if returned then thrown else thrown ++ d ∷ []))

  abbrev pub passes : Option Message → Bool
  passes none = false
  passes (some event) = true

  -- Whether a delivery is applied: it is an event, and the database takes it.
  abbrev pub is_applied : Delivery → Bool
  is_applied d = passes (is_lead_status_event (parse (text_or "" d.message.value))) && d.writes

  abbrev pub is_dead : Delivery → Bool
  is_dead d = not (is_applied d) && d.taken

  abbrev pub is_thrown : Delivery → Bool
  is_thrown d = not (is_applied d) && not d.taken

  abbrev pub applied : Delivery → Parsed × ℕ
  applied d = (parse (text_or "" d.message.value), d.now)

  -- What the dead-letter topic should hold of a delivery.
  abbrev pub letter_of : Delivery → DeadLetter
  letter_of d = record {
    topic = String.◌++◌ topic ".dlq";
    key = text_or "unknown" d.message.key;
    value = text_or "" d.message.value;
    dlq_reason = reason d;
    origin_topic = topic;
  }

  raw_value_lem : (m : RawMessage) → raw_value m ≡ text_or "" m.value
  unfolding raw_value
  raw_value_lem m = elim (Option-cases m.value) [
    | inl absent ↦ rw absent refl
    | inr (v, there) ↦ rw there refl
  ]

  raw_key_lem : (m : RawMessage) → raw_key m ≡ text_or "unknown" m.key
  unfolding raw_key
  raw_key_lem m = elim (Option-cases m.key) [
    | inl absent ↦ rw absent refl
    | inr (v, there) ↦ rw there refl
  ]

  dead_letter_lem : (d : Delivery) → dead_letter d ≡ letter_of d
  unfolding publish_to_dlq
  dead_letter_lem d = rw (raw_value_lem d.message, raw_key_lem d.message) refl

  each_message-applied :
      (d : Delivery) (s : State P) (letters : List DeadLetter)
      → is_applied d ≡ true
      → each_message d (s, letters)
        ≡ (true, (apply_message P (parse (text_or "" d.message.value)) d.now s).1, letters)
  unfolding each_message apply_message
  each_message-applied d s letters h =
      elim (Option-cases (is_lead_status_event (parse (text_or "" d.message.value)))) [
        | inl bad ↦ cc (rw bad at h)
        | inr (event, good) ↦
            let writes : d.writes ≡ true = rw good at h in
            rw (each_message, apply_message, raw_value_lem d.message, good, writes) refl
      ]

  each_message-fails :
      (d : Delivery) (s : State P) (letters : List DeadLetter)
      → is_applied d ≡ false
      → each_message d (s, letters) ≡ ((on_failure d letters).0, s, (on_failure d letters).1)
  unfolding each_message
  each_message-fails d s letters h =
      elim (Option-cases (is_lead_status_event (parse (text_or "" d.message.value)))) [
        | inl bad ↦ rw (each_message, raw_value_lem d.message, bad) refl
        | inr (event, good) ↦
            let writes : d.writes ≡ false = rw good at h in
            rw (each_message, raw_value_lem d.message, good, writes) refl
      ]

  each_message-taken :
      (d : Delivery) (s : State P) (letters : List DeadLetter)
      → is_applied d ≡ false
      → d.taken ≡ true
      → each_message d (s, letters) ≡ (true, s, letters ++ letter_of d ∷ [])
  unfolding on_failure
  each_message-taken d s letters h there =
      each_message-fails d s letters h ∙ rw (dead_letter_lem d) (simp there refl)

  each_message-throws :
      (d : Delivery) (s : State P) (letters : List DeadLetter)
      → is_applied d ≡ false
      → d.taken ≡ false
      → each_message d (s, letters) ≡ (false, s, letters)
  unfolding on_failure
  each_message-throws d s letters h gone = each_message-fails d s letters h ∙ simp gone refl

  -- No delivery is lost. Of any sequence of deliveries, each is either an event that the database took, and
  -- these are applied, in their order; or it stands in the dead-letter topic, with its own key and text, the
  -- reason and the topic that it came from, in the same order; or the handler has thrown on it, so that the
  -- client library does not count it as done, and then it has changed nothing.
  pub deliver_all-consume_all :
      (ds : List Delivery) (s : State P) (letters : List DeadLetter) (thrown : List Delivery)
      → deliver_all ds (s, letters, thrown) ≡ (
        consume_all P (map applied (filter is_applied ds)) s,
        letters
            ++ map
                (λ d. record {
                  topic = String.◌++◌ topic ".dlq";
                  key = text_or "unknown" d.message.key;
                  value = text_or "" d.message.value;
                  dlq_reason = reason d;
                  origin_topic = topic;
                })
                (filter is_dead ds),
        thrown ++ filter is_thrown ds,
      )
  deliver_all-consume_all [] s letters thrown = rw (append-nil letters, append-nil thrown) refl
  deliver_all-consume_all (d ∷ ds) s letters thrown = elim (Bool-cases (is_applied d)) [
    | inl good ↦
        rw (each_message-applied d s letters good, good)
          (deliver_all-consume_all ds
            (apply_message P (parse (text_or "" d.message.value)) d.now s).1 letters thrown)
    | inr bad ↦ elim (Bool-cases d.taken) [
      | inl there ↦
          simp (each_message-taken d s letters bad there, bad, there)
            (deliver_all-consume_all ds s (letters ++ letter_of d ∷ []) thrown
              ∙ ap
                  (λ l. (
                    consume_all P (map applied (filter is_applied ds)) s,
                    l,
                    thrown ++ filter is_thrown ds,
                  ))
                  (append_assoc letters (letter_of d ∷ []) (map letter_of (filter is_dead ds))))
      | inr gone ↦
          simp (each_message-throws d s letters bad gone, bad, gone)
            (deliver_all-consume_all ds s letters (thrown ++ d ∷ [])
              ∙ ap
                  (λ t. (
                    consume_all P (map applied (filter is_applied ds)) s,
                    letters ++ map letter_of (filter is_dead ds),
                    t,
                  ))
                  (append_assoc thrown (d ∷ []) (filter is_thrown ds)))
    ]
  ]
