-- ===== src/Common/Filter.antt =====
-- http-exception.filter.ts, which lead-service, user-service, api-gateway and ai-orchestrator hold in the
-- same words: the answer to an exception.
use oneandro_clone.Prelude.{ℕ, String, ◌≡◌, refl, Option, none, some, List, or_else}

-- `string | string[]`
pub data Messages : Type 0 where
  one_message : String → Messages
  messages : List String → Messages

-- What `getResponse()` returns.
pub data ResponseBody : Type 0 where
  a_text : String → ResponseBody
  an_object : Option Messages → Option String → ResponseBody
  another : ResponseBody

-- What was thrown: an HttpException with its status, its body and its own message, or anything else.
pub data Thrown : Type 0 where
  http_exception : ℕ → ResponseBody → String → Thrown
  unhandled : String → Thrown

pub record ErrorBody : Type 0 where
  pub status_code : ℕ
  pub error : Option String
  pub message : Messages
  pub path : String
  pub timestamp : ℕ
  pub request_id : Option String

-- The request, and the instant of the answer.
pub record RequestInfo : Type 0 where
  pub method : String
  pub url : String
  pub request_id : Option String
  pub now : ℕ

abbrev message_or : Option Messages → String → Messages
message_or none own = one_message own
message_or (some m) own = m

-- `HttpStatus[statusCode]`, of the framework.
module _ (http_status : ℕ → Option String) where
  unfoldable pub message_of : Thrown → Messages
  message_of (http_exception status (a_text t) own) = one_message t
  message_of (http_exception status (an_object m e) own) = message_or m own
  message_of (http_exception status another own) = one_message "Internal server error"
  message_of (unhandled details) = one_message "Internal server error"

  unfoldable pub error_of : Thrown → Option String
  error_of (http_exception status (a_text t) own) = some "Internal Server Error"
  error_of (http_exception status (an_object m e) own) = or_else e (http_status status)
  error_of (http_exception status another own) = some "Internal Server Error"
  error_of (unhandled details) = some "Internal Server Error"

  unfoldable pub status_of : Thrown → ℕ
  status_of (http_exception status body own) = status
  status_of (unhandled details) = 500

  -- The status and the body of the answer, and what is logged.
  unfoldable pub catch_exception : Thrown → RequestInfo → ErrorBody
  catch_exception thrown req = record {
    status_code = status_of thrown;
    error = error_of thrown;
    message = message_of thrown;
    path = req.url;
    timestamp = req.now;
    request_id = req.request_id;
  }

  unfoldable pub logged : Thrown → Option String
  logged (http_exception status body own) = none
  logged (unhandled details) = some details

  -- The answer to an exception that is no HttpException says nothing of it: any two of them are
  -- answered alike, while the log has the details of each.
  pub catch_exception-hidden :
      (details other : String) (req : RequestInfo)
      → (catch_exception (unhandled details) req ≡ catch_exception (unhandled other) req)
        × (logged (unhandled details) ≡ some details)
  unfolding catch_exception message_of error_of status_of logged
  catch_exception-hidden details other req = (refl, refl)
