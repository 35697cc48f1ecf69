-- ===== src/Banking/Projection.antt =====
-- The copy of the last status that user-service keeps with each account, from the messages of the topic:
-- apps/user-service/src/kafka/consumers/lead-status.consumer.ts with recordLeadStatus.
use oneandro_clone.Prelude.{
  ℕ, String, ◌≡◌, refl, ap, ◌∙◌, inl, inr, Bool, true, false, Option, none, some, List, [], ◌∷◌,
  find, find-holds, find-map_where_if, ◌==◌, eq_iff, Option-cases, if◌then◌else◌,
}
use oneandro_clone.Users.{User, UserDb, State}
use oneandro_clone.Users.Accounts.{user_has_id, record_lead_status}
use oneandro_clone.Banking.Messages.{Parsed, Message, is_lead_status_event}
use oneandro_clone.Banking.Consumer.{apply_message}

-- The messages of the topic, each with the instant at which it is read.
abbrev pub consume_all : (P : UserDb) → List (Parsed × ℕ) → State P → State P
consume_all P [] s = s
consume_all P ((raw, now) ∷ rest) s = consume_all P rest (apply_message P raw now s).1

-- The last status that a message has for this user, if there is one, and else the given one.
abbrev pub status_after : String → Option String → Option Message → Option String
status_after id before none = before
status_after id before (some event) = if id == event.user_id then some event.status else before

abbrev pub last_status : String → Option String → List (Parsed × ℕ) → Option String
last_status id before [] = before
last_status id before ((raw, now) ∷ rest) =
    last_status id (status_after id before (is_lead_status_event raw)) rest

-- The account, but for what the consumer writes.
pub record SameAccount (u t : User) : Type 0 where
  pub same_email : t.email ≡ u.email
  pub same_password : t.password_hash ≡ u.password_hash
  pub same_role : t.role ≡ u.role
  pub same_active : t.is_active ≡ u.is_active

abbrev recorded : String → ℕ → User → User
recorded status now u = record u {
  last_lead_status = some status;
  last_lead_status_at = some now;
  updated_at = now;
}

module _ (P : UserDb) (id : String) where
  abbrev pub account_in : State P → Option User
  account_in s = find (user_has_id id) (P.users.rows s.users)

  find-record_lead_status :
      (s : State P) (u : User) (user_id status : String) (now : ℕ)
      → account_in s ≡ some u
      → account_in (record_lead_status P user_id status now s)
        ≡ some (if id == user_id then recorded status now u else u)
  unfolding record_lead_status
  find-record_lead_status s u user_id status now found =
      let own : u.id ≡ id =
        (eq_iff u.id id).0 (find-holds (user_has_id id) (P.users.rows s.users) found) in
      let changed =
        find-map_where_if (user_has_id user_id) (user_has_id id) (recorded status now)
          (P.users.rows s.users) u (λ y. refl) found in
      rw (P.users.rows-update_many (user_has_id user_id) (recorded status now) s.users) (
        changed ∙ ap (λ (i : String). some (if i == user_id then recorded status now u else u)) own)

  -- What one message makes of the account.
  record Follows (u : User) (before : Option String) (s : State P) : Type 0 where
    account : User
    found : account_in s ≡ some account
    status : account.last_lead_status ≡ before
    same : SameAccount u account

  recorded-SameAccount :
      (b : Bool) (u : User) (status : String) (now : ℕ)
      → SameAccount u (if b then recorded status now u else u)
  recorded-SameAccount true u status now = record {
    same_email = refl;
    same_password = refl;
    same_role = refl;
    same_active = refl;
  }
  recorded-SameAccount false u status now = record {
    same_email = refl;
    same_password = refl;
    same_role = refl;
    same_active = refl;
  }

  recorded-status_after :
      (b : Bool) (u : User) (status : String) (now : ℕ)
      → (if b then recorded status now u else u).last_lead_status
        ≡ (if b then some status else u.last_lead_status)
  recorded-status_after true u status now = refl
  recorded-status_after false u status now = refl

  apply_message-Follows :
      (raw : Parsed) (now : ℕ) (s : State P) (u : User)
      → account_in s ≡ some u
      → Follows u
          (status_after id u.last_lead_status (is_lead_status_event raw))
          (apply_message P raw now s).1
  unfolding apply_message
  apply_message-Follows raw now s u found = elim (Option-cases (is_lead_status_event raw)) [
    | inl bad ↦
        rw (apply_message, bad)
          (record {
            account = u;
            found = found;
            status = refl;
            same = recorded-SameAccount false u "" now;
          })
    | inr (event, good) ↦
        rw (apply_message, good)
          (record {
            account = if id == event.user_id then recorded event.status now u else u;
            found = find-record_lead_status s u event.user_id event.status now found;
            status = recorded-status_after (id == event.user_id) u event.status now;
            same = recorded-SameAccount (id == event.user_id) u event.status now;
          })
  ]

  -- Whatever messages user-service reads, malformed ones and those of other users among them, an
  -- account that is there keeps its e-mail address, password, role and activity, and its last status
  -- becomes that of the last well-formed message for it, or stays as it was if there is none.
  pub consume_all-last_status :
      (messages : List (Parsed × ℕ)) (s : State P) (u : User)
      → account_in s ≡ some u
      → (t : User) × (account_in (consume_all P messages s) ≡ some t)
        × (t.last_lead_status ≡ last_status id u.last_lead_status messages)
        × SameAccount u t
  consume_all-last_status [] s u found = (u, found, refl, recorded-SameAccount false u "" 0)
  consume_all-last_status ((raw, now) ∷ rest) s u found =
      let step = apply_message-Follows raw now s u found in
      let (t, there, status, kept) =
        consume_all-last_status rest (apply_message P raw now s).1 step.account step.found in
      (
        t,
        there,
        status ∙ ap (λ o. last_status id o rest) step.status,
        record {
          same_email = kept.same_email ∙ step.same.same_email;
          same_password = kept.same_password ∙ step.same.same_password;
          same_role = kept.same_role ∙ step.same.same_role;
          same_active = kept.same_active ∙ step.same.same_active;
        },
      )
