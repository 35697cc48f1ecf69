-- ===== src/Gateway/Pipeline.antt =====
-- apps/api-gateway/src/proxy/gateway.middleware.ts and src/auth/jwt-verifier.service.ts: what the
-- gateway does with a request. Verifying a token is the work of the JWT library, a parameter.
use oneandro_clone.Prelude.{
  ℕ, ◌+◌, ◌/◌, String, Bool, true, false, Option, none, some, [], ◌∷◌, ◌++◌, eqb, drop, length,
  if◌then◌else◌,
}
use oneandro_clone.Common.{RequestUser}
use oneandro_clone.Users.Email.{Text, text_eq}
use oneandro_clone.Gateway.Routes.{
  codes, starts_with, Service, RouteTarget, proxy, local, not_found, resolve_route,
  is_auth_rate_limit_scope, strip_api_prefix,
}
use oneandro_clone.Gateway.RateLimit.{SortedSets, Delivery, consume}

-- The parts of the request that the middleware reads. `url` is the path with its query.
pub record Request : Type 0 where
  pub path : Text
  pub url : Text
  pub access_token_cookie : Option Text
  pub authorization : Option Text
  pub ip : Option String

pub record GatewayConfig : Type 0 where
  pub api_prefix : Text
  pub auth_max_requests : ℕ
  pub general_max_requests : ℕ
  pub window_ms : ℕ

-- What becomes of the request: an answer with this status, the gateway's own router, or a service.
pub data Fate : Type 0 where
  answered_404 : Fate
  answered_429 : ℕ → Fate
  handled_locally : Fate
  forwarded : Service → Fate

-- The request as it goes on, with the user that was attached, and the headers of the quota.
pub record Handled : Type 0 where
  pub fate : Fate
  pub url : Text
  pub user : Option RequestUser
  pub quota : Option (ℕ × ℕ)

-- JwtVerifierService.extractToken
unfoldable pub bearer : Option Text → Option Text
bearer none = none
bearer (some header) =
    if starts_with header (codes "Bearer ")
    then some (drop (length (codes "Bearer ")) header)
    else none

unfoldable pub extract_token : Option Text → Option Text → Option Text
extract_token none header = bearer header
extract_token (some []) header = bearer header
extract_token (some (c ∷ cs)) header = some (c ∷ cs)

-- `tryVerify`, at an instant: no token, an empty one and one that is not valid then are all anonymous.
unfoldable pub try_verify : (ℕ → Text → Option RequestUser) → ℕ → Option Text → Option RequestUser
try_verify verify now none = none
try_verify verify now (some []) = none
try_verify verify now (some (c ∷ cs)) = verify now (c ∷ cs)

-- The url from its first `?` on.
unfoldable pub query_of : Text → Text
query_of [] = []
query_of (c ∷ cs) = if eqb c b'?' then c ∷ cs else query_of cs

abbrev pub ip_or_unknown : Option String → String
ip_or_unknown none = "unknown"
ip_or_unknown (some ip) = ip

unfoldable pub identity_of : Bool → Option RequestUser → Option String → String
identity_of true user ip = ip_or_unknown ip
identity_of false none ip = ip_or_unknown ip
identity_of false (some u) ip = u.user_id

unfoldable pub scope_name : Bool → String
scope_name true = "auth"
scope_name false = "general"

unfoldable pub scope_limit : GatewayConfig → Bool → ℕ
scope_limit g true = g.auth_max_requests
scope_limit g false = g.general_max_requests

-- Math.ceil(retryAfterMs / 1000)
unfoldable pub retry_after_seconds : ℕ → ℕ
retry_after_seconds ms = (ms + 999) / 1000

-- What the route makes of a request that the limiter lets through.
unfoldable pub fate_of : RouteTarget → Fate
fate_of local = handled_locally
fate_of (proxy service) = forwarded service
fate_of not_found = answered_404

module _ (g : GatewayConfig) (verify : ℕ → Text → Option RequestUser) (R : SortedSets) where
  -- The pipeline after routing, for a path that is neither unknown nor the health check.
  unfoldable pub limited :
      RouteTarget → Text → Text → Request → ℕ → String → Delivery → R.Db → Handled × R.Db
  limited route stripped url req now member del d =
      let user = try_verify verify now (extract_token req.access_token_cookie req.authorization) in
      let auth = is_auth_rate_limit_scope stripped in
      let (decision, d') =
        consume R (scope_name auth) (identity_of auth user req.ip) (scope_limit g auth) g.window_ms
          now member del d in
      (
        record {
          fate =
              if decision.allowed
              then fate_of route
              else answered_429 (retry_after_seconds decision.retry_after_ms);
          url = url;
          user = user;
          quota = some (decision.limit, decision.remaining);
        },
        d',
      )

  -- GatewayMiddleware.use, at the instant `now` of its call of the limiter.
  unfoldable pub handle : Request → ℕ → String → Delivery → R.Db → Handled × R.Db
  handle req now member del d =
      let stripped = strip_api_prefix req.path g.api_prefix in
      let url = stripped ++ query_of req.url in
      elim (resolve_route stripped) [
        | not_found ↦ (record { fate = answered_404; url = req.url; user = none; quota = none }, d)
        | local ↦
            if text_eq stripped (codes "/healthz")
            then (record { fate = handled_locally; url = url; user = none; quota = none }, d)
            else limited local stripped url req now member del d
        | proxy service ↦
            if text_eq stripped (codes "/healthz")
            then (record { fate = handled_locally; url = url; user = none; quota = none }, d)
            else limited (proxy service) stripped url req now member del d
      ]
