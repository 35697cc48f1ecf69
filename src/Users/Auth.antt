-- ===== src/Users/Auth.antt =====
-- apps/user-service/src/auth: auth.service.ts, auth.controller.ts and strategies/jwt.strategy.ts,
-- and the roles guard that user-service, lead-service and ai-orchestrator share.
use oneandro_clone.Prelude.{
  ℕ, String, Bool, true, false, not, Option, none, some, List, [], ◌∷◌, ◌++◌, ◌==◌, if◌then◌else◌,
}
use oneandro_clone.Common.{Role, system, role_eq, includes_role}
use oneandro_clone.Users.{
  User, role_of, UserDb, State, Result, ok, err, invalid_credentials, account_disabled,
  account_inactive, no_token_presented,
}
use oneandro_clone.Users.Email.{Text}
use oneandro_clone.Users.Accounts.{CreateUserInput, create, find_by_email, find_by_id_or_throw}
use oneandro_clone.Users.Tokens.{
  TokenMeta, TokenPair, TokenConfig, Fresh, issue_token_pair, rotate_refresh_token, revoke_token,
  revoke_all_for_user,
}

-- The claims of an access token, and the caller that the strategies make of them. The address of a
-- user is a text of code units.
pub record AccessTokenPayload : Type 0 where
  pub sub : String
  pub email : Text
  pub role : Role

pub record Caller : Type 0 where
  pub user_id : String
  pub email : Text
  pub role : Role

-- The cookies of a response: the tokens that it sets, or that both are cleared, or nothing.
pub data Cookies : Type 0 where
  set_tokens : TokenPair → Cookies
  cleared untouched : Cookies

module _ (c : TokenConfig) (verify_password : String → String → Bool) (P : UserDb) where
  abbrev pub with_tokens : User → Result TokenPair × State P → Result (User × TokenPair) × State P
  with_tokens user (err e, s) = (err e, s)
  with_tokens user (ok tokens, s) =
      (ok (user, tokens), record s { registered = s.registered ++ user.id ∷ [] })

  abbrev pub after_create :
      TokenMeta → Fresh → Result User × State P → Result (User × TokenPair) × State P
  after_create meta new (err e, s) = (err e, s)
  after_create meta new (ok user, s) = with_tokens user (issue_token_pair c P user meta new s)

  -- `input` holds the argon2 hash of the password.
  unfoldable pub register :
      CreateUserInput
      → String
      → ℕ
      → TokenMeta
      → Fresh
      → State P
      → Result (User × TokenPair) × State P
  register input id now meta new s = after_create meta new (create P input id now s)

  unfoldable pub validate_credentials : Text → String → State P → Result User
  validate_credentials email password s = elim (find_by_email P email s) [
    | none ↦ err invalid_credentials
    | some user ↦
        if not user.is_active
        then err account_disabled
        else if not (verify_password user.password_hash password)
        then err invalid_credentials
        else ok user
  ]

  abbrev pub set_auth_cookies : Result TokenPair × State P → Result Cookies × State P
  set_auth_cookies (err e, s) = (err e, s)
  set_auth_cookies (ok tokens, s) = (ok (set_tokens tokens), s)

  -- POST /auth/login
  unfoldable pub login : Text → String → TokenMeta → Fresh → State P → Result Cookies × State P
  login email password meta new s = elim (validate_credentials email password s) [
    | err e ↦ (err e, s)
    | ok user ↦ set_auth_cookies (issue_token_pair c P user meta new s)
  ]

  -- POST /auth/refresh, with the refresh cookie of the request.
  unfoldable pub refresh : Option String → TokenMeta → Fresh → State P → Result Cookies × State P
  refresh none meta new s = (err no_token_presented, s)
  refresh (some raw) meta new s =
      if raw == ""
      then (err no_token_presented, s)
      else set_auth_cookies (rotate_refresh_token c P raw meta new s)

  -- POST /auth/logout
  unfoldable pub logout : Option String → State P → Cookies × State P
  logout none s = (cleared, s)
  logout (some raw) s = (cleared, if raw == "" then s else revoke_token c P raw s)

  -- POST /auth/logout-all
  unfoldable pub logout_all : Caller → State P → Cookies × State P
  logout_all caller s = (cleared, revoke_all_for_user c P caller.user_id s)

  -- JwtStrategy.validate: a SYSTEM token is trusted; any other caller is read from the database.
  unfoldable pub validate_payload : AccessTokenPayload → State P → Result Caller
  validate_payload payload s =
      if role_eq payload.role system
      then ok (record { user_id = payload.sub; email = payload.email; role = system })
      else elim (find_by_id_or_throw P payload.sub s) [
        | err e ↦ err account_inactive
        | ok user ↦
            if not user.is_active
            then err account_inactive
            else ok (record { user_id = user.id; email = user.email; role = role_of user.role })
      ]

-- RolesGuard.canActivate, given the roles that the route requires and the role of the user; `false`
-- is the ForbiddenException.
unfoldable pub can_activate : Option (List Role) → Option Role → Bool
can_activate none user = true
can_activate (some []) user = true
can_activate (some (r ∷ rs)) none = false
can_activate (some (r ∷ rs)) (some role) = includes_role (r ∷ rs) role
