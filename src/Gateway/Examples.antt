-- ===== src/Gateway/Examples.antt =====
-- A sorted-set server that is a function, and the theorems of the gateway at concrete requests.
use oneandro_clone.Prelude.{
  ℕ, ◌+◌, ◌≤◌, String, ◌≡◌, refl, inr, Bool, true, false, Option, none, some, List, [], ◌∷◌, arith,
  ltb, leb, eqb, ◌<◌, count, filter, ◌==◌, eq_refl, if◌then◌else◌, Option-cases, inl,
}
use oneandro_clone.Users.Email.{Text, text_eq}
use oneandro_clone.Gateway.RateLimit.{
  Entry, is_past, SortedSets, Delivery, sliding_window, decide_window, consume,
}
use oneandro_clone.Gateway.Window.{in_window}
use oneandro_clone.Gateway.Limit.{start, request, in_window-le-limit}
use oneandro_clone.Gateway.Routes.{
  codes, proxy, lead, starts_with, is_under, resolve_route, is_auth_rate_limit_scope,
  strip_api_prefix,
}
use oneandro_clone.Gateway.Pipeline.{Request, GatewayConfig, handle, limited, fate_of}
use oneandro_clone.Common.{RequestUser, applicant}
use oneandro_clone.Gateway.Dashboard.{Fetched, a_body, threw}
use oneandro_clone.Gateway.Pipeline.{extract_token, try_verify}
use oneandro_clone.Gateway.Admission.{decision_for, user_of, handle-forwarded}
use oneandro_clone.Gateway.Limit.{Run}
use oneandro_clone.Gateway.Log.{log_request, sliding_window-log_request}
use oneandro_clone.Gateway.Answer.{Reply, reply_of}
use oneandro_clone.Gateway.Pipeline.{
  Handled, retry_after_seconds, bearer, identity_of, scope_name, scope_limit,
}
use oneandro_clone.Gateway.RateLimit.{rate_limit_key}
use oneandro_clone.Gateway.Retry.{key_of, path, handle_after_retry}
use oneandro_clone.Config.Numbers.{plus, parse_int}

-- The members of every key, and the instant at which it expires.
abbrev Server : Type 0
Server = (String → List Entry) × (String → Option ℕ)

-- In front of the first member with a higher score.
abbrev insert : ℕ → String → List Entry → List Entry
insert score member [] = (score, member) ∷ []
insert score member (e ∷ es) =
    let rest = insert score member es in
    if ltb score e.0 then (score, member) ∷ e ∷ es else e ∷ rest

count-insert :
    (q : Entry → Bool) (score : ℕ) (member : String) (es : List Entry)
    → count q (insert score member es) ≡ count q ((score, member) ∷ es)
count-insert q score member [] = refl
count-insert q score member (e ∷ es) = ground (arith, count-insert q score member es)

-- A member with a lowest score.
abbrev lowest : List Entry → Option Entry
lowest [] = none
lowest (e ∷ es) = elim (lowest es) [
  | none ↦ some e
  | some m ↦ if leb e.0 m.0 then some e else some m
]

lowest-none : (es : List Entry) → lowest es ≡ none → count (λ e. true) es ≡ 0
lowest-none [] h = refl
lowest-none (e ∷ es) h = ground arith

count-lt_mono :
    (a b : ℕ) (es : List Entry)
    → a ≤ b
    → count (λ x. ltb x.0 b) es ≡ 0
    → count (λ x. ltb x.0 a) es ≡ 0
count-lt_mono a b [] le h = refl
count-lt_mono a b (e ∷ es) le h = ground (arith, count-lt_mono a b es le)

count-none_lt : (a : ℕ) (es : List Entry) → count (λ e. true) es ≡ 0 → count (λ x. ltb x.0 a) es ≡ 0
count-none_lt a [] h = refl
count-none_lt a (e ∷ es) h = ground arith

lowest-some :
    (es : List Entry) (m : Entry)
    → lowest es ≡ some m
    → (0 < count (λ x. eqb x.0 m.0) es) × (count (λ x. ltb x.0 m.0) es ≡ 0)
lowest-some [] m h = cc
lowest-some (e ∷ es) m h = elim (Option-cases (lowest es)) [
  | inl alone ↦ ground (arith, lowest-none es alone, count-none_lt e.0 es)
  | inr (n, rest) ↦ ground (arith, lowest-some es n rest, count-lt_mono e.0 n.0 es)
]

abbrev server : SortedSets
server = record {
  Db = Server;
  entries = λ d k. d.0 k;
  deadline = λ d k. d.1 k;
  wait = λ t d. (
    λ k. if is_past (d.1 k) t then [] else d.0 k,
    λ k. if is_past (d.1 k) t then none else d.1 k,
  );
  zremrangebyscore =
      λ k max d. (λ j. if k == j then filter (λ e. ltb max e.0) (d.0 j) else d.0 j, d.1);
  zcard = λ k d. count (λ e. true) (d.0 k);
  zadd = λ k score member d. (λ j. if k == j then insert score member (d.0 j) else d.0 j, d.1);
  pexpire = λ k ms t d. (d.0, λ j. if k == j then some (t + ms) else d.1 j);
  zrange_first = λ k d. lowest (d.0 k);
  entries-wait = λ t k d. refl;
  deadline-wait = λ t k d. refl;
  entries-zremrangebyscore = λ k j max d. refl;
  deadline-zremrangebyscore = λ k j max d. inr refl;
  zcard-count = λ k d. refl;
  count-zadd = λ q k score member d new. rw (eq_refl k) (count-insert q score member (d.0 k));
  entries-zadd_ne = λ k j score member d ne. rw ne refl;
  deadline-zadd = λ k j score member d. refl;
  entries-pexpire = λ k j ms t d. refl;
  deadline-pexpire = λ k j ms t d. refl;
  zrange_first-none = λ k d. lowest-none (d.0 k);
  zrange_first-some = λ k d. lowest-some (d.0 k);
}

abbrev idle : Server
idle = (λ k. [], λ k. none)

in_window-le-limit_example : count (in_window 10 25) (25 ∷ []) ≤ 1
unfolding sliding_window decide_window
in_window-le-limit_example = in_window-le-limit server "k" 10 1 25 (
    request 25 "b" (request 20 "a" (start idle refl refl) (omega arith) (omega arith) refl)
      (omega arith) (omega arith) refl)

abbrev config : GatewayConfig
config = record {
  api_prefix = codes "/api";
  auth_max_requests = 5;
  general_max_requests = 100;
  window_ms = 60000;
}

abbrev anonymous : ℕ → Text → Option RequestUser
anonymous now token = none

abbrev request_to : Text → Request
request_to path = record {
  path = path;
  url = path;
  access_token_cookie = none;
  authorization = none;
  ip = some "10.0.0.1";
}

abbrev lost : Delivery
lost = record { executed = false; answered = false }

handle-forwarded_example :
    (resolve_route (strip_api_prefix (codes "/api/leads") (codes "/api")) ≡ proxy lead)
    × ((decision_for config anonymous server (request_to (codes "/api/leads")) 70000 "m" lost idle (
          user_of config anonymous server
            (request_to (codes "/api/leads"))
            70000
            "m"
            lost
            idle)).allowed
        ≡ true)
unfolding handle strip_api_prefix resolve_route limited fate_of text_eq starts_with is_under consume
handle-forwarded_example =
    handle-forwarded config anonymous server (request_to (codes "/api/leads")) 70000 "m" lost idle
      lead refl

abbrev ann : RequestUser
ann = record { user_id = "u1"; email = "ann@x"; role = applicant }

abbrev accepts : Text → Option RequestUser
accepts token = some ann

abbrev profile : Text → Fetched String
profile token = a_body "Ann"

abbrev no_leads : Text → Fetched String
no_leads token = threw "connect ECONNREFUSED"

-- The server after one request of the key.
abbrev asked : Server
asked = (sliding_window server "k" 20 10 1 "a" idle).1

sliding_window-log_request_example :
    ((sliding_window server "k" 25 10 1 "b" asked).0.allowed
      ≡ (log_request 10 1 25 (20 ∷ [])).allowed)
    × ((sliding_window server "k" 25 10 1 "b" asked).0.remaining
        ≡ (log_request 10 1 25 (20 ∷ [])).remaining)
    × Run server "k" 10 1 25
        (log_request 10 1 25 (20 ∷ [])).log
        (sliding_window server "k" 25 10 1 "b" asked).1
unfolding sliding_window decide_window
sliding_window-log_request_example =
    sliding_window-log_request server "k" 10 1 25 "b"
      (request 20 "a" (start idle refl refl) (omega arith) (omega arith) refl) (omega arith)
      (omega arith) refl

abbrev one_per_minute : GatewayConfig
one_per_minute = record config { general_max_requests = 1 }

abbrev to_leads : Request
to_leads = request_to (codes "/api/leads")

abbrev in_time : Delivery
in_time = record { executed = true; answered = true }

abbrev key : String
key = key_of one_per_minute anonymous server to_leads 71000

abbrev busy : Server
busy = (sliding_window server key 70000 60000 1 "a" idle).1

abbrev refused : Handled × Server
refused = handle one_per_minute anonymous server to_leads 71000 "b" in_time busy

handle_after_retry_example :
    (reply : Reply) × (header : Text) × (reply_of to_leads (codes "/leads") 71000 refused.0
      ≡ some reply)
    × (reply.status ≡ 429)
    × (reply.retry_after ≡ some header)
    × (parse_int header ≡ plus 59)
    × ((handle one_per_minute anonymous server to_leads 130000 "c" lost refused.1).0.fate
        ≡ fate_of (resolve_route (codes "/leads")))
unfolding sliding_window decide_window handle strip_api_prefix resolve_route limited fate_of text_eq
    starts_with is_under consume is_auth_rate_limit_scope extract_token try_verify
    retry_after_seconds bearer identity_of scope_name scope_limit rate_limit_key
handle_after_retry_example =
    handle_after_retry one_per_minute anonymous server to_leads 71000 130000 59 "b" "c" lost
      (request 70000 "a" (start idle refl refl) (omega arith) (omega arith) refl) (omega arith)
      (omega arith) (omega arith) refl (omega arith) refl
