-- ===== src/Banking/Services.antt =====
-- The notifications against the two services that they ask: apps/banking-adapter-mock/src/clients, with
-- lead-service and user-service behind their own guards.
use oneandro_clone.Prelude.{ℕ, String, ◌≡◌, refl, Bool, true, Option, none, some, arith, find}
use oneandro_clone.Common.{system}
use oneandro_clone.Leads.{Lead, LeadDb}
use oneandro_clone.Leads
use oneandro_clone.Leads.Service.{has_id, is_staff, find_by_id_or_throw, find_accessible_or_throw}
use oneandro_clone.Leads.Api.{call_get}
use oneandro_clone.Users.{User, UserDb}
use oneandro_clone.Users
use oneandro_clone.Users.Accounts
use oneandro_clone.Users.Email.{Text}
use oneandro_clone.Users.Accounts.{user_has_id}
use oneandro_clone.Users.Tokens.{TokenConfig}
use oneandro_clone.Users.Auth.{AccessTokenPayload, validate_payload, can_activate}
use oneandro_clone.Banking.Messages.{Message}
use oneandro_clone.Banking.Notifications.{
  EmailContent, Mail, addressed, is_notifiable, build_content,
}
use oneandro_clone.Banking.Consumer.{Outcome, after_notice, on_event, on_event-mailed}
use oneandro_clone.Banking.Handoff.{service_user, fetch_lead}

-- ServiceTokenService.mint, as user-service reads it.
abbrev pub service_payload : Text → AccessTokenPayload
service_payload email = record { sub = "system:banking-adapter-mock"; email = email; role = system }

module _ (c : TokenConfig) (verify_password : String → String → Bool) (U : UserDb)
    (address_text : Text → String) (service_email : Text) (now : ℕ) (us : Users.State U) where
  abbrev pub address_in : Users.Api.Response → Option String
  address_in (Users.Api.a_user (Users.ok body)) = some (address_text body.email)
  address_in _ = none

  -- UserServiceClient.getUser; `none` is its error.
  unfoldable pub get_user : String → Option String
  get_user user_id =
      address_in
        (Users.Api.serve c verify_password U (service_payload service_email)
          (Users.Api.get_by_id user_id) now us).0

  account-found :
      (user_id : String) (u : User)
      → find (user_has_id user_id) (U.users.rows us.users) ≡ some u
      → Users.Accounts.find_by_id_or_throw U user_id us ≡ Users.ok u
  unfolding Users.Accounts.find_by_id_or_throw
  account-found user_id u found =
      rw
        (
          Users.Accounts.find_by_id_or_throw,
          U.users.find_unique-rows (user_has_id user_id) us.users,
          found,
        )
        refl

  get_user-found :
      (user_id : String) (u : User)
      → find (user_has_id user_id) (U.users.rows us.users) ≡ some u
      → get_user user_id ≡ some (address_text u.email)
  unfolding get_user Users.Api.serve Users.Api.authorized Users.Api.handler Users.Api.required_roles
      validate_payload can_activate Users.Api.user_entity
  get_user-found user_id u found = rw (account-found user_id u found) refl

module _ (P : LeadDb) (max_size : ℕ) (s : Leads.State P) where
  abbrev pub reason_in : Option Lead → Option (Option String)
  reason_in none = none
  reason_in (some lead) = some lead.decline_reason

  -- LeadServiceClient.getLead, of which the notifications read the reason.
  unfoldable pub get_lead : String → Option (Option String)
  get_lead lead_id = reason_in (fetch_lead P max_size lead_id s)

  lead-found :
      (lead_id : String) (lead : Lead)
      → find (has_id lead_id) (P.leads.rows s.leads) ≡ some lead
      → find_accessible_or_throw P lead_id service_user s ≡ Leads.ok lead
  unfolding find_accessible_or_throw find_by_id_or_throw is_staff
  lead-found lead_id lead found = ground (arith, P.leads.find_unique-rows (has_id lead_id) s.leads)

  lead-served :
      (lead_id : String)
      → (Leads.Api.serve P max_size (call_get lead_id) service_user s).0
        ≡ Leads.Api.a_lead (find_accessible_or_throw P lead_id service_user s)
  unfolding Leads.Api.serve Leads.Api.handler Leads.Api.endpoint_of Leads.Api.required_roles
      Leads.Api.can_activate
  lead-served lead_id = refl

  get_lead-found :
      (lead_id : String) (lead : Lead)
      → find (has_id lead_id) (P.leads.rows s.leads) ≡ some lead
      → get_lead lead_id ≡ some lead.decline_reason
  unfolding get_lead fetch_lead
  get_lead-found lead_id lead found =
      rw (fetch_lead, lead-served lead_id, lead-found lead_id lead found) refl

module _ (c : TokenConfig) (verify_password : String → String → Bool) (U : UserDb)
    (address_text : Text → String) (service_email : Text) (now : ℕ) (us : Users.State U)
    (P : LeadDb) (max_size : ℕ) (s : Leads.State P) (sender : String) (sends : Mail → Bool) where
  -- The consumer of the partner bank, with the two services that it asks.
  abbrev pub on_event_with_services : Message → Outcome
  on_event_with_services event =
      on_event sender (get_lead P max_size s)
        (get_user c verify_password U address_text service_email now us) sends event

  -- If an event is notifiable and its lead and its user are in the tables of the two services, then neither
  -- service refuses the consumer: it writes the mail of the event and hands it to the server, for the
  -- address that user-service has of the user.
  pub on_event_with_services-mailed :
      (event : Message) (lead : Lead) (u : User)
      → is_notifiable event.status ≡ true
      → find (user_has_id event.user_id) (U.users.rows us.users) ≡ some u
      → find (has_id event.lead_id) (P.leads.rows s.leads) ≡ some lead
      → (content : EmailContent) × (build_content (get_lead P max_size s) event ≡ some content)
        × (on_event_with_services event
            ≡ after_notice sends (addressed sender (address_text u.email) (some content)))
  on_event_with_services-mailed event lead u h known there =
      on_event-mailed sender (get_lead P max_size s)
        (get_user c verify_password U address_text service_email now us) sends event
        (address_text u.email) lead.decline_reason h
        (get_user-found c verify_password U address_text service_email now us event.user_id u known)
        (get_lead-found P max_size s event.lead_id lead there)
