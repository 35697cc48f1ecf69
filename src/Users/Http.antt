-- ===== src/Users/Http.antt =====
-- A whole request to apps/user-service: src/auth/auth.controller.ts and src/users/users.controller.ts behind
-- src/common/guards and the pipes, and the status of the answer.
use oneandro_clone.Prelude.{
  ℕ, String, Bool, false, ◌||◌, ◌&&◌, Option, none, some, List, any, ◌==◌, if◌then◌else◌,
}
use oneandro_clone.Common.{Role}
use oneandro_clone.Common.Validation.{Validators, Fields, require, ◌>>=◌, ◌>>◌}
use oneandro_clone.Users.{
  User, as_applicant, UserDb, State, Result, ok, err, http_status, no_token_presented,
}
use oneandro_clone.Users.Accounts.{CreateUserInput, find_by_id_or_throw}
use oneandro_clone.Users.Tokens.{TokenMeta, TokenPair, TokenConfig, Fresh}
use oneandro_clone.Users.Auth.{
  AccessTokenPayload, Caller, Cookies, register, login, refresh, logout, logout_all,
  validate_payload, can_activate,
}
use oneandro_clone.Users.Bodies.{
  RegisterDto, LoginDto, register_dto, login_dto, update_profile_dto, assign_role_dto,
  list_users_query,
}
use oneandro_clone.Users.Api.{
  Call, get_me, update_me, list_users, get_by_id, assign_role, deactivate_user, required_roles,
  Response, unauthorized, forbidden, a_user, a_page, handler,
}

-- A request to UsersController: the parameter of its path and the fields of its body or query.
pub data UsersRequest (V : Validators) : Type 0 where
  http_get_me : UsersRequest V
  http_update_me : Fields V → UsersRequest V
  http_list : Fields V → UsersRequest V
  http_get_by_id : String → UsersRequest V
  http_assign_role : String → Fields V → UsersRequest V
  http_deactivate : String → UsersRequest V

pub data HttpRequest (V : Validators) : Type 0 where
  http_register http_login : Fields V → HttpRequest V
  http_refresh http_logout http_logout_all : HttpRequest V
  http_users : UsersRequest V → HttpRequest V

-- What a request carries besides, and what is made up while it runs: the claims of its access token, if
-- the token is good, its refresh cookie, its origin, the id of a new user, the new token, the instant, and
-- argon2 with the salt of this call.
pub record Context : Type 0 where
  pub claims : Option AccessTokenPayload
  pub refresh_cookie : Option String
  pub meta : TokenMeta
  pub fresh : Fresh
  pub new_id : String
  pub now : ℕ
  pub hash_password : String → String

-- `internal` is an error of Prisma for a name that is null.
pub data HttpReply : Type 0 where
  no_token no_role bad_request internal : HttpReply
  registered : Result (User × TokenPair) → HttpReply
  with_cookies : Result Cookies → HttpReply
  handled : Response → HttpReply

module _ (V : Validators) where
  -- The @Roles() of the handlers.
  unfoldable pub roles_of : UsersRequest V → Option (List Role)
  roles_of http_get_me = required_roles get_me
  roles_of (http_update_me body) =
      required_roles (update_me (record { first_name = none; last_name = none }))
  roles_of (http_list query) = required_roles (list_users none 1 20)
  roles_of (http_get_by_id id) = required_roles (get_by_id id)
  roles_of (http_assign_role id body) = required_roles (assign_role id as_applicant)
  roles_of (http_deactivate id) = required_roles (deactivate_user id)

  -- ParseUUIDPipe and ValidationPipe.
  unfoldable pub piped : UsersRequest V → Option Call
  piped http_get_me = some get_me
  piped (http_update_me body) = do dto ← update_profile_dto V body; some (update_me dto)
  piped (http_list query) = do
    q ← list_users_query V query
    some (list_users q.role q.page q.page_size)
  piped (http_get_by_id id) = do require (V.is_uuid id); some (get_by_id id)
  piped (http_assign_role id body) = do
    require (V.is_uuid id)
    role ← assign_role_dto V body
    some (assign_role id role)
  piped (http_deactivate id) = do require (V.is_uuid id); some (deactivate_user id)

  -- A name that is null passes the pipes, and is refused by Prisma, whose column is required.
  unfoldable pub has_null_name : UsersRequest V → Bool
  has_null_name (http_update_me body) =
      any (λ (f : String × V.Value). (f.0 == "firstName" || f.0 == "lastName") && V.is_null f.1)
        body
  has_null_name http_get_me = false
  has_null_name (http_list query) = false
  has_null_name (http_get_by_id id) = false
  has_null_name (http_assign_role id body) = false
  has_null_name (http_deactivate id) = false

  unfoldable pub create_input : (String → String) → RegisterDto → CreateUserInput
  create_input hash_password dto = record {
    email = V.code_units dto.email;
    password_hash = hash_password dto.password;
    first_name = dto.first_name;
    last_name = dto.last_name;
  }

  module _ (c : TokenConfig) (verify_password : String → String → Bool) (P : UserDb) where
    abbrev pub registered_with : Result (User × TokenPair) × State P → HttpReply × State P
    registered_with (r, s) = (registered r, s)

    abbrev pub cookies_of : Result Cookies × State P → HttpReply × State P
    cookies_of (r, s) = (with_cookies r, s)

    abbrev pub cleared_by : Cookies × State P → HttpReply × State P
    cleared_by (r, s) = (with_cookies (ok r), s)

    abbrev pub answered : Response × State P → HttpReply × State P
    answered (r, s) = (handled r, s)

    -- updateProfile with a name that is null: the account is looked up first.
    abbrev pub refused_by_prisma : Result User → State P → HttpReply × State P
    refused_by_prisma (err e) s = (handled (a_user (err e)), s)
    refused_by_prisma (ok user) s = (internal, s)

    abbrev pub after_pipes :
        UsersRequest V → Option Call → Caller → Context → State P → HttpReply × State P
    after_pipes req none caller ctx s = (bad_request, s)
    after_pipes req (some call) caller ctx s =
        if has_null_name req
        then refused_by_prisma (find_by_id_or_throw P caller.user_id s) s
        else answered (handler P call caller ctx.now s)

    abbrev pub after_guard :
        Result Caller → UsersRequest V → Context → State P → HttpReply × State P
    after_guard (err e) req ctx s = (no_token, s)
    after_guard (ok caller) req ctx s =
        if can_activate (roles_of req) (some caller.role)
        then after_pipes req (piped req) caller ctx s
        else (no_role, s)

    abbrev pub after_register : Option RegisterDto → Context → State P → HttpReply × State P
    after_register none ctx s = (bad_request, s)
    after_register (some dto) ctx s = registered_with (
        register c verify_password P (create_input ctx.hash_password dto) ctx.new_id ctx.now
          ctx.meta ctx.fresh s)

    abbrev pub after_login : Option LoginDto → Context → State P → HttpReply × State P
    after_login none ctx s = (bad_request, s)
    after_login (some dto) ctx s =
        cookies_of
          (login c verify_password P (V.code_units dto.email) dto.password ctx.meta ctx.fresh s)

    abbrev pub after_caller : Result Caller → State P → HttpReply × State P
    after_caller (err e) s = (no_token, s)
    after_caller (ok caller) s = cleared_by (logout_all c verify_password P caller s)

    -- JwtAuthGuard: the caller of a route that is not @Public().
    abbrev pub caller_of : Option AccessTokenPayload → State P → Result Caller
    caller_of none s = err no_token_presented
    caller_of (some payload) s = validate_payload c verify_password P payload s

    unfoldable pub http : Context → HttpRequest V → State P → HttpReply × State P
    http ctx (http_register body) s = after_register (register_dto V body) ctx s
    http ctx (http_login body) s = after_login (login_dto V body) ctx s
    http ctx http_refresh s =
        cookies_of (refresh c verify_password P ctx.refresh_cookie ctx.meta ctx.fresh s)
    http ctx http_logout s = cleared_by (logout c verify_password P ctx.refresh_cookie s)
    http ctx http_logout_all s = after_caller (caller_of ctx.claims s) s
    http ctx (http_users req) s = after_guard (caller_of ctx.claims s) req ctx s

abbrev pub result_status {ℓ} : {A : Type ℓ} → ℕ → Result A → ℕ
result_status success (ok a) = success
result_status success (err e) = http_status e

unfoldable pub status_code : HttpReply → ℕ
status_code no_token = 401
status_code no_role = 403
status_code bad_request = 400
status_code internal = 500
status_code (registered r) = result_status 201 r
status_code (with_cookies r) = result_status 200 r
status_code (handled unauthorized) = 401
status_code (handled forbidden) = 403
status_code (handled (a_user r)) = result_status 200 r
status_code (handled (a_page page)) = 200
