-- ===== src/Leads/HttpExamples.antt =====
-- Concrete requests with their tokens, bodies and answers.
use Prim.Native.String
use Prim.Native.String.append
use oneandro_clone.Prelude.{
  ℕ, zero, suc, String, ◌*◌, ◌/◌, ◌%◌, ◌≡◌, ◌≤◌, refl, ap, ◌∙◌, true, false, Option, none, some,
  List, [], ◌∷◌, ◌++◌, All, arith, leb, leb→le, eqb, if◌then◌else◌, ◌==◌, length,
}
use oneandro_clone.Common.{created, kyc_uploaded, applicant, LeadStatusEvent}
use oneandro_clone.Common.Validation.{
  Validators, Fields, field, is_whitelisted, required, optional, member_of, count_or, count_of,
}
use oneandro_clone.Pagination.{first_pages}
use oneandro_clone.Leads.{Lead, State, http_status}
use mathlib.Core.List.Perm as Permuted
use oneandro_clone.Leads.StateMachine.{assert_valid_transition, can_move, allowed_transitions}
use oneandro_clone.Leads.Service.{
  create, new_lead, transition, no_update, find_by_id_or_throw, status_change, commit_transition,
  announce, apply_update,
}
use oneandro_clone.Leads.Listing.{ListLeadsQuery, where_of, list}
use oneandro_clone.Leads.Requests.{Jwt, Credentials, token_of, authenticate, validate, purpose_text}
use oneandro_clone.Leads.Bodies.{
  list-pages, list_leads_query, create_lead_dto, amount_of, purpose_of,
}
use oneandro_clone.Leads.Http.{
  HttpRequest, http_create, http, status_code, route_of, file_passes, piped,
}
use oneandro_clone.Leads.Api.{required_roles, can_activate, handler}
use oneandro_clone.Leads.Refusals.{http-refused}
use oneandro_clone.Leads.Amounts.{AreLendable, http_all, http_all-AreLendable}
use oneandro_clone.Leads.Interleaving.{
  Running, Pending, of_upload, silent, checked_upload, written, handed_over, Steps, at_rest,
  then_step, IsConsistent, Steps-IsConsistent,
}
use oneandro_clone.Leads.Examples.{db, empty, dto, first, second, third, one_lead}

-- Values that are numbers, in hundredths, or texts.
pub data Raw : Type 0 where
  hundredths : ℕ → Raw
  text : String → Raw

abbrev number_in : Raw → Option ℕ
number_in (hundredths n) = some n
number_in (text s) = none

abbrev text_in : Raw → Option String
text_in (hundredths n) = none
text_in (text s) = some s

pub hundred_min : (v n : ℕ) → leb (n * 100) v ≡ true → n ≤ v / 100
hundred_min v n h = omega (arith, leb→le (n * 100) v h)

pub hundred_max : (v n : ℕ) → leb v (n * 100) ≡ true → v / 100 ≤ n
hundred_max v n h = omega (arith, leb→le v (n * 100) h)

abbrev pub validators : Validators
validators = record {
  Value = Raw;
  Number = ℕ;
  is_null = λ v. false;
  number = number_in;
  text = text_in;
  code_units = λ s. [];
  is_int = λ n. eqb (n % 100) 0;
  is_number = λ places n. true;
  min = λ least n. leb (least * 100) n;
  max = λ most n. leb n (most * 100);
  is_length = λ least most s. true;
  min_length = λ least s. true;
  is_email = λ s. true;
  is_uuid = λ s. true;
  whole = λ n. n / 100;
  cents = λ n. n;
  whole-min = λ v n i h. hundred_min v n h;
  whole-max = λ v n i h. hundred_max v n h;
  cents-min = λ v n i h. leb→le (n * 100) v h;
  cents-max = λ v n i h. leb→le v (n * 100) h;
}

abbrev dropped : ℕ → String → String
dropped zero s = s
dropped (suc n) (String.◌∷◌ c s) = dropped n s
dropped (suc n) String.[] = String.[]

abbrev size : String → ℕ
size String.[] = zero
size (String.◌∷◌ c s) = suc (size s)

pub dropped-size : (s t : String) → dropped (size s) (String.◌++◌ s t) ≡ t
dropped-size String.[] t = append.nil t
dropped-size (String.◌∷◌ c s) t = ap (dropped (suc (size s))) (append.cons c s t) ∙ dropped-size s t

abbrev from_header : Option String → Option String
from_header none = none
from_header (some h) = some (dropped (size "Bearer ") h)

abbrev pub jwt : Jwt
jwt = record {
  from_auth_header = from_header;
  verify = λ token.
      if token == "good"
      then some (record { sub = "a1"; email = "u1@x"; role = applicant })
      else none;
  from_auth_header-bearer = λ token. ap some (dropped-size "Bearer " token);
}

abbrev as_owner : Credentials
as_owner = record { access_token_cookie = some "good"; authorization = none }

abbrev create_body : Fields validators
create_body = ("loanAmountRequested", hundredths 500000) ∷ ("loanPurpose", text "AUTO") ∷ []

abbrev http_create_one : HttpRequest validators
http_create_one = http_create create_body first

abbrev small_body : Fields validators
small_body = ("loanAmountRequested", hundredths 49999) ∷ ("loanPurpose", text "AUTO") ∷ []

-- Tests: the one is created, the other refused by its amount.
created_code : status_code (http validators jwt db 1000 as_owner http_create_one empty).0 ≡ 201
unfolding http authenticate token_of validate route_of file_passes piped create_lead_dto required
    field is_whitelisted amount_of purpose_of member_of purpose_text required_roles can_activate
    handler create new_lead status_change status_code http_status
created_code = refl

refused_code :
    status_code (http validators jwt db 1000 as_owner (http_create small_body first) empty).0 ≡ 400
unfolding http authenticate token_of validate route_of file_passes piped create_lead_dto required
    field is_whitelisted amount_of purpose_of member_of purpose_text required_roles can_activate
    handler create new_lead status_change status_code http_status
refused_code = refl

http-refused_example :
    (http validators jwt db 1000 as_owner (http_create small_body first) one_lead).1 ≡ one_lead
unfolding http authenticate token_of validate route_of file_passes piped create_lead_dto required
    field is_whitelisted amount_of purpose_of member_of purpose_text required_roles can_activate
    handler create new_lead status_change status_code http_status
http-refused_example =
    http-refused validators jwt db 1000 as_owner (http_create small_body first) one_lead
      (omega arith) (omega arith)

http_all-AreLendable_example :
    AreLendable db (http_all validators db jwt 1000 ((as_owner, http_create_one) ∷ []) empty)
http_all-AreLendable_example =
    http_all-AreLendable validators db jwt 1000 ((as_owner, http_create_one) ∷ []) empty tt

abbrev page_query : Fields validators
page_query = ("page", hundredths 100) ∷ ("pageSize", hundredths 200) ∷ []

abbrev parsed_query : ListLeadsQuery
parsed_query = record { page = 1; page_size = 2; status = none }

list-pages_example :
    (length (list db parsed_query (some "a1") one_lead).items ≤ 100)
    × All
        (λ l. where_of none (some "a1") l ≡ true)
        (list db parsed_query (some "a1") one_lead).items
    × (length (
          first_pages db.leads
            (where_of none (some "a1"))
            2
            one_lead.leads
            (list db parsed_query (some "a1") one_lead).total_pages)
        ≡ db.leads.count (where_of none (some "a1")) one_lead.leads)
unfolding list_leads_query is_whitelisted count_or count_of field optional
list-pages_example = list-pages validators page_query parsed_query db (some "a1") one_lead refl

abbrev the_lead : Lead
the_lead = new_lead "a1" dto first

-- Two uploads that have both read the lead and both written; then the event of the second is handed over
-- before that of the first.
abbrev first_write : State db
first_write = (transition db the_lead kyc_uploaded "a1" none no_update second one_lead).1

abbrev silent_one : State db
silent_one = silent db one_lead first_write

abbrev second_write : State db
second_write = (transition db the_lead kyc_uploaded "a1" none no_update third silent_one).1

abbrev silent_two : State db
silent_two = silent db silent_one second_write

abbrev one_upload : List Pending
one_upload = of_upload the_lead "a1" ∷ []

abbrev two_uploads : List Pending
two_uploads = of_upload the_lead "a1" ∷ one_upload

abbrev event_at : ℕ → LeadStatusEvent
event_at now = record {
  lead_id = "l1";
  user_id = "a1";
  status = kyc_uploaded;
  previous_status = some created;
  occurred_at = now;
}

abbrev at_start : Running db
at_start = record { state = one_lead; pending = []; in_flight = [] }

abbrev one_read : Running db
one_read = record { state = one_lead; pending = one_upload; in_flight = [] }

abbrev both_read : Running db
both_read = record { state = one_lead; pending = two_uploads; in_flight = [] }

abbrev one_wrote : Running db
one_wrote = record { state = silent_one; pending = one_upload; in_flight = event_at 20 ∷ [] }

abbrev both_wrote : Running db
both_wrote = record { state = silent_two; pending = []; in_flight = event_at 20 ∷ event_at 30 ∷ [] }

abbrev last_told : Running db
last_told = record {
  state = record silent_two { published = silent_two.published ++ event_at 30 ∷ [] };
  pending = [];
  in_flight = event_at 20 ∷ [];
}

overlapping : Steps db 1000 at_start last_told
unfolding create new_lead find_by_id_or_throw transition commit_transition announce status_change
    assert_valid_transition can_move allowed_transitions apply_update
overlapping =
    then_step at_start both_wrote last_told
      (then_step at_start one_wrote both_wrote
        (then_step at_start both_read one_wrote
          (then_step at_start one_read both_read
            (then_step at_start at_start one_read (at_rest at_start)
              (checked_upload "l1" "a1" the_lead one_lead [] [] refl refl))
            (checked_upload "l1" "a1" the_lead one_lead one_upload [] refl refl))
          (written [] one_upload (of_upload the_lead "a1") second one_lead []))
        (written [] [] (of_upload the_lead "a1") third silent_one (event_at 20 ∷ [])))
      (handed_over (event_at 20 ∷ []) [] (event_at 30) silent_two [])

Steps-IsConsistent_example : IsConsistent db last_told
unfolding create new_lead status_change
Steps-IsConsistent_example =
    Steps-IsConsistent db 1000 at_start last_told overlapping ((refl, tt), Permuted.refl _)
