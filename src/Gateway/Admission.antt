-- ===== src/Gateway/Admission.antt =====
-- Which requests the gateway lets through, and on whose quota.
use oneandro_clone.Prelude.{
  ℕ, String, ◌≡◌, refl, sym, ◌∙◌, true, Option, ◌++◌, arith, if◌then◌else◌,
}
use oneandro_clone.Common.{RequestUser}
use oneandro_clone.Users.Email.{Text}
use oneandro_clone.Gateway.Routes.{
  Service, RouteTarget, proxy, local, not_found, resolve_route, is_auth_rate_limit_scope,
  strip_api_prefix,
}
use oneandro_clone.Gateway.RateLimit.{SortedSets, Delivery, RateLimitDecision, consume}
use oneandro_clone.Gateway.Pipeline.{
  Request, GatewayConfig, answered_404, answered_429, forwarded, query_of, identity_of, scope_name,
  scope_limit, extract_token, try_verify, retry_after_seconds, fate_of, limited, handle,
}

module _ (g : GatewayConfig) (verify : ℕ → Text → Option RequestUser) (R : SortedSets)
    (req : Request) (now : ℕ) (member : String) (del : Delivery) (d : R.Db) where
  abbrev pub stripped : Text
  stripped = strip_api_prefix req.path g.api_prefix

  -- A request for no service is answered with 404, costs no quota, and reaches no service.
  pub handle-not_found :
      resolve_route stripped ≡ not_found
      → ((handle g verify R req now member del d).0.fate ≡ answered_404)
        × ((handle g verify R req now member del d).1 ≡ d)
  unfolding handle
  handle-not_found h = rw (h, handle) (refl, refl)

  -- The verdict of the limiter on the request, for this user.
  abbrev pub decision_for : Option RequestUser → RateLimitDecision
  decision_for who =
      (consume R (scope_name (is_auth_rate_limit_scope stripped))
        (identity_of (is_auth_rate_limit_scope stripped) who req.ip)
        (scope_limit g (is_auth_rate_limit_scope stripped)) g.window_ms now member del d).0

  abbrev pub user_of : Option RequestUser
  user_of = try_verify verify now (extract_token req.access_token_cookie req.authorization)

  limited-fate :
      (route : RouteTarget) (url : Text)
      → (limited g verify R route stripped url req now member del d).0.fate ≡ (
          if (decision_for user_of).allowed
          then fate_of route
          else answered_429 (retry_after_seconds (decision_for user_of).retry_after_ms))
  unfolding limited
  limited-fate route url = refl

  limited-forwarded_when :
      (route : RouteTarget) (service : Service) (decision : RateLimitDecision)
      → (if decision.allowed
          then fate_of route
          else answered_429 (retry_after_seconds decision.retry_after_ms))
        ≡ forwarded service
      → (fate_of route ≡ forwarded service) × (decision.allowed ≡ true)
  limited-forwarded_when route service decision h = ground arith

  limited-forwarded :
      (route : RouteTarget) (url : Text) (service : Service)
      → (limited g verify R route stripped url req now member del d).0.fate ≡ forwarded service
      → (fate_of route ≡ forwarded service) × ((decision_for user_of).allowed ≡ true)
  limited-forwarded route url service h =
      limited-forwarded_when route service (decision_for user_of) (sym (limited-fate route url) ∙ h)

  handle-forwarded_of :
      (route : RouteTarget) (service : Service)
      → resolve_route stripped ≡ route
      → (handle g verify R req now member del d).0.fate ≡ forwarded service
      → (route ≡ proxy service) × ((decision_for user_of).allowed ≡ true)
  unfolding handle fate_of
  handle-forwarded_of not_found service e h = ground arith
  handle-forwarded_of local service e h =
      ground (arith, limited-forwarded local (stripped ++ query_of req.url) service)
  handle-forwarded_of (proxy s) service e h =
      ground (arith, limited-forwarded (proxy s) (stripped ++ query_of req.url) service)

  -- A request that is forwarded goes to the service of its route, and was let through by the limiter,
  -- on the quota of its scope and of its identity.
  pub handle-forwarded :
      (service : Service)
      → (handle g verify R req now member del d).0.fate ≡ forwarded service
      → (resolve_route stripped ≡ proxy service) × ((decision_for user_of).allowed ≡ true)
  handle-forwarded service h = handle-forwarded_of (resolve_route stripped) service refl h
