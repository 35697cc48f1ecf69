-- ===== src/Gateway/Retry.antt =====
-- A client that waits as long as a refusal of the gateway says.
use oneandro_clone.Prelude.{
  ℕ, ◌+◌, ◌*◌, ◌≤◌, ◌<◌, String, ◌≡◌, refl, sym, ap, ◌∙◌, Bool, true, false, Option, some, List,
  ◌++◌, leb, arith, if◌then◌else◌,
}
use oneandro_clone.Common.{RequestUser}
use oneandro_clone.Users.Email.{Text, text_eq}
use oneandro_clone.Config.Numbers.{plus, parse_int, to_decimal, parse_int-to_decimal_alone}
use oneandro_clone.Gateway.Routes.{
  codes, RouteTarget, proxy, local, not_found, resolve_route, is_auth_rate_limit_scope,
  strip_api_prefix,
}
use oneandro_clone.Gateway.RateLimit.{SortedSets, Delivery, rate_limit_key, sliding_window, consume}
use oneandro_clone.Gateway.Pipeline.{
  Request, GatewayConfig, answered_429, query_of, identity_of, scope_name, scope_limit,
  extract_token, try_verify, retry_after_seconds, fate_of, limited, handle,
}
use oneandro_clone.Gateway.Limit.{Run}
use oneandro_clone.Gateway.RetryAfter.{retry_after_ms_exact}
use oneandro_clone.Gateway.Answer.{Reply, too_many, reply_of}

abbrev is_found : RouteTarget → Bool
is_found not_found = false
is_found local = true
is_found (proxy s) = true

fate_of-found :
    (route : RouteTarget) (s : ℕ) → is_found route ≡ true → fate_of route ≡ answered_429 s → ⊥
unfolding fate_of
fate_of-found not_found s f h = cc
fate_of-found local s f h = cc
fate_of-found (proxy p) s f h = cc

module _ (g : GatewayConfig) (verify : ℕ → Text → Option RequestUser) (R : SortedSets)
    (req : Request) where
  abbrev pub path : Text
  path = strip_api_prefix req.path g.api_prefix

  abbrev pub is_auth : Bool
  is_auth = is_auth_rate_limit_scope path

  -- Whom the token of the request stands for at an instant.
  abbrev pub user_at : ℕ → Option RequestUser
  user_at now = try_verify verify now (extract_token req.access_token_cookie req.authorization)

  -- The key of the quota of the request at an instant, and its limit.
  abbrev pub key_of : ℕ → String
  key_of now = rate_limit_key (scope_name is_auth) (identity_of is_auth (user_at now) req.ip)

  abbrev pub limit_of : ℕ
  limit_of = scope_limit g is_auth

  abbrev url : Text
  url = path ++ query_of req.url

  handle-limited :
      (route : RouteTarget)
      → resolve_route path ≡ route
      → is_found route ≡ true
      → text_eq path (codes "/healthz") ≡ false
      → (now : ℕ) (member : String) (del : Delivery) (d : R.Db)
      → handle g verify R req now member del d
        ≡ limited g verify R route path url req now member del d
  unfolding handle
  handle-limited not_found e found other now member del d = cc
  handle-limited local e found other now member del d = rw (handle, e, other) refl
  handle-limited (proxy s) e found other now member del d = rw (handle, e, other) refl

  refused-limited_of :
      (route : RouteTarget) (now : ℕ) (member : String) (del : Delivery) (d : R.Db) (s : ℕ)
      → resolve_route path ≡ route
      → (handle g verify R req now member del d).0.fate ≡ answered_429 s
      → (is_found route ≡ true) × (text_eq path (codes "/healthz") ≡ false)
  unfolding handle
  refused-limited_of not_found now member del d s e h = ground arith
  refused-limited_of local now member del d s e h = ground arith
  refused-limited_of (proxy p) now member del d s e h = ground arith

  -- What the script says of the request at this instant.
  abbrev script : ℕ → String → R.Db → Bool × ℕ
  script now member d = (
    (sliding_window R (key_of now) now g.window_ms limit_of member d).0.allowed,
    (sliding_window R (key_of now) now g.window_ms limit_of member d).0.retry_after_ms,
  )

  same_key : (now t : ℕ) → user_at t ≡ user_at now → key_of t ≡ key_of now
  same_key now t who =
      ap (λ u. rate_limit_key (scope_name is_auth) (identity_of is_auth u req.ip)) who

  same_script :
      (now t : ℕ) (member : String) (d : R.Db)
      → user_at t ≡ user_at now
      → (script t member d).0
        ≡ (sliding_window R (key_of now) t g.window_ms limit_of member d).0.allowed
  same_script now t member d who =
      ap (λ k. (sliding_window R k t g.window_ms limit_of member d).0.allowed) (same_key now t who)

  limited-script :
      (route : RouteTarget) (now : ℕ) (member : String) (d : R.Db)
      → ((limited g verify R route path url req now member
            (record { executed = true; answered = true })
            d).0.fate
          ≡ (if (script now member d).0
              then fate_of route
              else answered_429 (retry_after_seconds (script now member d).1)))
        × ((limited g verify R route path url req now member
              (record { executed = true; answered = true })
              d).1
            ≡ (sliding_window R (key_of now) now g.window_ms limit_of member d).1)
  unfolding limited consume
  limited-script route now member d = (refl, refl)

  limited-allowed :
      (route : RouteTarget) (now : ℕ) (member : String) (del : Delivery) (d : R.Db)
      → (script now member d).0 ≡ true
      → (limited g verify R route path url req now member del d).0.fate ≡ fate_of route
  unfolding limited consume
  limited-allowed route now member del d h = ground arith

  refused_when :
      (route : RouteTarget) (allowed : Bool) (ms s : ℕ)
      → is_found route ≡ true
      → (if allowed then fate_of route else answered_429 (retry_after_seconds ms)) ≡ answered_429 s
      → (allowed ≡ false) × (ms ≤ s * 1000)
  unfolding retry_after_seconds
  refused_when route true ms s f h = absurd (fate_of-found route s f h)
  refused_when route false ms s f h = ground arith

  abbrev in_time : Delivery
  in_time = record { executed = true; answered = true }

  -- A request that the script refuses is answered with 429 and a Retry-After header, which reads as a
  -- number of seconds; and the same request, made again when that many seconds have passed, meets no
  -- refusal, whether or not the limiter answers then. The conditions: the limiter answered the first
  -- time, its server had seen any sequence of requests of this quota from an empty key, with instants
  -- that do not go back and come after one window, none comes in between, the limit is not 0, and the
  -- token of the request, if it has one, stands for the same user at both instants, so that it has not
  -- expired while the client waited.
  pub handle_after_retry :
      {clock : ℕ} {accepted : List ℕ} {d : R.Db} (now t s : ℕ) (member member' : String)
      (del : Delivery)
      → Run R (key_of now) g.window_ms limit_of clock accepted d
      → clock ≤ now
      → g.window_ms ≤ now
      → 0 < limit_of
      → (handle g verify R req now member in_time d).0.fate ≡ answered_429 s
      → now + s * 1000 ≤ t
      → user_at t ≡ user_at now
      → (reply : Reply) × (header : Text) × (reply_of req path now
            (handle g verify R req now member in_time d).0
          ≡ some reply)
        × (reply.status ≡ 429)
        × (reply.retry_after ≡ some header)
        × (parse_int header ≡ plus s)
        × ((handle g verify R req t member' del
              (handle g verify R req now member in_time d).1).0.fate
            ≡ fate_of (resolve_route path))
  unfolding reply_of
  handle_after_retry {clock} {accepted} {d} now t s member member' del r later era some_limit h long
        who =
      let route = resolve_route path in
      let (found, other) = refused-limited_of route now member in_time d s refl h in
      let first = handle-limited route refl found other now member in_time d in
      let (fate, left) = limited-script route now member d in
      let same : (limited g verify R route path url req now member in_time d).0.fate
          ≡ answered_429 s =
        rw first at h in
      let (refused, told) =
        refused_when route (script now member d).0 (script now member d).1 s found
          (sym fate ∙ same) in
      let exact =
        retry_after_ms_exact R (key_of now) g.window_ms limit_of now t member member' r later era
          (omega (arith, long)) some_limit refused in
      let due : leb (now + (script now member d).1) t ≡ true = ground (arith, told, long) in
      (
        too_many req path now (handle g verify R req now member in_time d).0 s,
        to_decimal s,
        rw (reply_of, h) refl,
        refl,
        refl,
        parse_int-to_decimal_alone s,
        rw
            (
              first,
              left,
              handle-limited route refl found other t member' del
                  (sliding_window R (key_of now) now g.window_ms limit_of member d).1,
            )
            (limited-allowed route t member' del
              (sliding_window R (key_of now) now g.window_ms limit_of member d).1
              (same_script now t member' _ who ∙ exact ∙ due)),
      )
