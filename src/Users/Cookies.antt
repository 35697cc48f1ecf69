-- ===== src/Users/Cookies.antt =====
-- The cookies of apps/user-service/src/auth/auth.controller.ts, with src/auth/auth.constants.ts, and what a
-- browser makes of them behind the gateway.
use oneandro_clone.Prelude.{
  ℕ, String, ◌≡◌, Bool, true, ◌&&◌, Option, none, some, List, [], ◌∷◌, ◌++◌, find, ◌==◌,
}
use oneandro_clone.Users.Email.{Text, text_eq}
use oneandro_clone.Users.Tokens.{TokenMeta, TokenPair}
use oneandro_clone.Gateway.Routes.{codes, starts_with}

-- A cookie that a response sets. All of them are `SameSite: strict`.
pub record SetCookie : Type 0 where
  pub name : String
  pub value : String
  pub http_only : Bool
  pub secure : Bool
  pub domain : Text
  pub path : Text
  pub max_age : ℕ

-- A cookie that a response clears.
pub record ClearedCookie : Type 0 where
  pub name : String
  pub domain : Text
  pub path : Text

abbrev pub access_token_cookie : String
access_token_cookie = "access_token"

abbrev pub refresh_token_cookie : String
refresh_token_cookie = "refresh_token"

abbrev pub refresh_token_cookie_path : Text
refresh_token_cookie_path = codes "/auth"

-- `env === 'production'`
abbrev pub is_prod : Text → Bool
is_prod env = text_eq env (codes "production")

abbrev pub access_cookie : Text → Text → TokenPair → SetCookie
access_cookie env domain tokens = record {
  name = access_token_cookie;
  value = tokens.access_token;
  http_only = true;
  secure = is_prod env;
  domain = domain;
  path = codes "/";
  max_age = tokens.access_token_expires_in_ms;
}

abbrev pub refresh_cookie : Text → Text → TokenPair → SetCookie
refresh_cookie env domain tokens = record {
  name = refresh_token_cookie;
  value = tokens.refresh_token;
  http_only = true;
  secure = is_prod env;
  domain = domain;
  path = refresh_token_cookie_path;
  max_age = tokens.refresh_token_expires_in_ms;
}

-- setAuthCookies, in the environment and with the domain of the configuration.
unfoldable pub set_auth_cookies : Text → Text → TokenPair → List SetCookie
set_auth_cookies env domain tokens =
    access_cookie env domain tokens ∷ refresh_cookie env domain tokens ∷ []

unfoldable pub clear_auth_cookies : Text → List ClearedCookie
clear_auth_cookies domain =
    record { name = access_token_cookie; domain = domain; path = codes "/" }
    ∷ record { name = refresh_token_cookie; domain = domain; path = refresh_token_cookie_path }
    ∷ []

-- `requestMeta`, of the header and the address of the request.
unfoldable pub request_meta : Option String → Option String → TokenMeta
request_meta user_agent ip = record { user_agent = user_agent; ip_address = ip }

-- A browser: whether it sends a cookie with a request for this path. It sends none to a path that does not
-- begin with the path of the cookie (RFC 6265, section 5.1.4).
pub record UserAgent : Type 0 where
  pub sends : Text → SetCookie → Bool
  pub sends-starts_with :
      (path : Text) (c : SetCookie) → sends path c ≡ true → starts_with path c.path ≡ true

-- The cookies that logins and refreshes have set, the last one first.
abbrev pub jar : Text → Text → List TokenPair → List SetCookie
jar env domain [] = []
jar env domain (tokens ∷ before) = set_auth_cookies env domain tokens ++ jar env domain before

abbrev pub value_of : Option SetCookie → Option String
value_of none = none
value_of (some c) = some c.value

-- The refresh cookie of a request for this path.
abbrev pub presented : UserAgent → Text → List SetCookie → Option String
presented agent path cookies =
    value_of
      (find (λ (c : SetCookie). c.name == refresh_token_cookie && agent.sends path c) cookies)
