-- ===== src/Gateway/Answer.antt =====
-- apps/api-gateway/src/proxy/gateway.middleware.ts: what the gateway itself answers, and what becomes
-- of a request whose service cannot be reached.
use oneandro_clone.Prelude.{ℕ, Bool, Option, none, some, ◌++◌, max, if◌then◌else◌}
use oneandro_clone.Users.Email.{Text}
use oneandro_clone.Config.Numbers.{to_decimal}
use oneandro_clone.Gateway.Routes.{codes, Service, user, lead, ai, is_auth_rate_limit_scope}
use oneandro_clone.Gateway.Pipeline.{
  Request, Handled, answered_404, answered_429, handled_locally, forwarded, scope_name,
}

-- `errorBody`; the timestamp is the instant of the answer.
pub record ErrorBody : Type 0 where
  pub status_code : ℕ
  pub error : Text
  pub message : Text
  pub path : Text
  pub timestamp : ℕ

unfoldable pub error_body : ℕ → Text → Text → Text → ℕ → ErrorBody
error_body status error message path now = record {
  status_code = status;
  error = error;
  message = message;
  path = path;
  timestamp = now;
}

pub record Reply : Type 0 where
  pub status : ℕ
  pub rate_limit_limit : Option Text
  pub rate_limit_remaining : Option Text
  pub retry_after : Option Text
  pub body : ErrorBody

unfoldable pub too_many_message : Text → ℕ → Text
too_many_message stripped seconds =
    codes "Rate limit exceeded for "
    ++ codes (scope_name (is_auth_rate_limit_scope stripped))
    ++ codes " requests. Retry in "
    ++ to_decimal seconds
    ++ codes "s."

abbrev pub limit_header : Option (ℕ × ℕ) → Option Text
limit_header none = none
limit_header (some quota) = some (to_decimal quota.0)

abbrev pub remaining_header : Option (ℕ × ℕ) → Option Text
remaining_header none = none
remaining_header (some quota) = some (to_decimal (max 0 quota.1))

-- The answer to a request over its quota.
abbrev pub too_many : Request → Text → ℕ → Handled → ℕ → Reply
too_many req stripped now h seconds = record {
  status = 429;
  rate_limit_limit = limit_header h.quota;
  rate_limit_remaining = remaining_header h.quota;
  retry_after = some (to_decimal seconds);
  body = error_body 429 (codes "Too Many Requests") (too_many_message stripped seconds) req.url now;
}

-- The answer of the middleware, if it is the one that answers. `req.url` is still the original url,
-- `stripped` the path without the prefix.
unfoldable pub reply_of : Request → Text → ℕ → Handled → Option Reply
reply_of req stripped now h = elim h.fate [
  | answered_404 ↦ some (record {
    status = 404;
    rate_limit_limit = limit_header h.quota;
    rate_limit_remaining = remaining_header h.quota;
    retry_after = none;
    body = error_body 404 (codes "Not Found") (codes "No route for " ++ stripped) req.url now;
  })
  | answered_429 seconds ↦ some (too_many req stripped now h seconds)
  | handled_locally ↦ none
  | forwarded service ↦ none
]

-- The names that the proxies are built with.
unfoldable pub service_name : Service → Text
service_name user = codes "user-service"
service_name lead = codes "lead-service"
service_name ai = codes "ai-orchestrator"

-- The `error` handler of a proxy: nothing more if the headers have been sent, or if the response is a
-- bare socket. `url` is the url that was forwarded.
unfoldable pub proxy_error : Service → Bool → Bool → Text → ℕ → Option ErrorBody
proxy_error service is_response headers_sent url now =
    if is_response
    then (if headers_sent
        then none
        else some (
            error_body 502 (codes "Bad Gateway") (service_name service ++ codes " is unavailable")
              url now))
    else none
