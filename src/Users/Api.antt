-- ===== src/Users/Api.antt =====
-- The routes of apps/user-service/src/users/users.controller.ts, behind the guards of
-- src/common/guards and src/auth/strategies/jwt.strategy.ts.
use oneandro_clone.Prelude.{
  ℕ, String, ◌≡◌, refl, Bool, true, false, Option, none, some, List, [], ◌∷◌, arith, map, find, ◌⊎◌,
  if◌then◌else◌, inl, inr,
}
use oneandro_clone.Common.{Role, loan_officer, underwriter, admin, system, role_eq}
use oneandro_clone.Users.{AssignableRole, User, UserDb, UserError, State, Result, ok, err, role_of}
use oneandro_clone.Users.Email.{Text}
use oneandro_clone.Users.Accounts.{
  UpdateProfileDto, user_has_id, find_by_id_or_throw, update_profile, set_role, deactivate, list,
}
use oneandro_clone.Users.Tokens.{TokenConfig}
use oneandro_clone.Users.Auth.{AccessTokenPayload, Caller, validate_payload, can_activate}
use oneandro_clone.Pagination.{PaginatedResult}

-- A request to one of the routes, with its body.
pub data Call : Type 0 where
  get_me : Call
  update_me : UpdateProfileDto → Call
  list_users : Option AssignableRole → ℕ → ℕ → Call
  get_by_id : String → Call
  assign_role : String → AssignableRole → Call
  deactivate_user : String → Call

-- The @Roles() of each handler.
unfoldable pub required_roles : Call → Option (List Role)
required_roles get_me = none
required_roles (update_me dto) = none
required_roles (list_users role page page_size) = some (admin ∷ loan_officer ∷ underwriter ∷ [])
required_roles (get_by_id id) = some (admin ∷ loan_officer ∷ underwriter ∷ system ∷ [])
required_roles (assign_role id role) = some (admin ∷ [])
required_roles (deactivate_user id) = some (admin ∷ [])

-- UserEntity as it is serialised: the hash of the password is excluded.
pub record UserEntity : Type 0 where
  pub id : String
  pub email : Text
  pub first_name : String
  pub last_name : String
  pub role : Role
  pub is_email_verified : Bool
  pub is_active : Bool
  pub last_lead_status : Option String
  pub last_lead_status_at : Option ℕ
  pub created_at : ℕ
  pub updated_at : ℕ

unfoldable pub user_entity : User → UserEntity
user_entity u = record {
  id = u.id;
  email = u.email;
  first_name = u.first_name;
  last_name = u.last_name;
  role = role_of u.role;
  is_email_verified = u.is_email_verified;
  is_active = u.is_active;
  last_lead_status = u.last_lead_status;
  last_lead_status_at = u.last_lead_status_at;
  created_at = u.created_at;
  updated_at = u.updated_at;
}

abbrev pub serialized : Result User → Result UserEntity
serialized (ok u) = ok (user_entity u)
serialized (err e) = err e

abbrev pub page_of : PaginatedResult User → PaginatedResult UserEntity
page_of r = record {
  items = map user_entity r.items;
  page = r.page;
  page_size = r.page_size;
  total = r.total;
  total_pages = r.total_pages;
}

pub data Response : Type 0 where
  unauthorized forbidden : Response
  a_user : Result UserEntity → Response
  a_page : PaginatedResult UserEntity → Response

module _ (P : UserDb) where
  -- The handler of the route at the instant `now`; an `err` becomes the exception's response.
  unfoldable pub handler : Call → Caller → ℕ → State P → Response × State P
  handler get_me caller now s = (a_user (serialized (find_by_id_or_throw P caller.user_id s)), s)
  handler (update_me dto) caller now s =
      let (r, s') = update_profile P caller.user_id dto now s in (a_user (serialized r), s')
  handler (list_users role page page_size) caller now s =
      (a_page (page_of (list P role page page_size s)), s)
  handler (get_by_id id) caller now s = (a_user (serialized (find_by_id_or_throw P id s)), s)
  handler (assign_role id role) caller now s =
      let (r, s') = set_role P id role now s in (a_user (serialized r), s')
  handler (deactivate_user id) caller now s =
      let (r, s') = deactivate P id now s in (a_user (serialized r), s')

  -- RolesGuard, then the handler.
  unfoldable pub authorized : Call → Caller → ℕ → State P → Response × State P
  authorized call caller now s =
      if can_activate (required_roles call) (some caller.role)
      then handler call caller now s
      else (forbidden, s)

module _ (c : TokenConfig) (verify_password : String → String → Bool) (P : UserDb) where
  -- JwtAuthGuard, then RolesGuard, for a token whose signature is good.
  unfoldable pub serve : AccessTokenPayload → Call → ℕ → State P → Response × State P
  serve payload call now s = elim (validate_payload c verify_password P payload s) [
    | err e ↦ (unauthorized, s)
    | ok caller ↦ authorized P call caller now s
  ]

  -- Whether a call changes an account that is not its caller's.
  abbrev pub is_administrative : Call → Bool
  is_administrative (assign_role id role) = true
  is_administrative (deactivate_user id) = true
  is_administrative _ = false

  caller_of-role :
      (payload : AccessTokenPayload) (s : State P) (u : User) (caller : Caller)
      → find (user_has_id payload.sub) (P.users.rows s.users) ≡ some u
      → role_eq (role_of u.role) admin ≡ false
      → validate_payload c verify_password P payload s ≡ ok caller
      → role_eq caller.role admin ≡ false
  unfolding validate_payload find_by_id_or_throw
  caller_of-role payload s u caller stored other h =
      ground (arith, P.users.find_unique-rows (user_has_id payload.sub) s.users)

  refused :
      (call : Call) (caller : Caller) (now : ℕ) (s : State P)
      → is_administrative call ≡ true
      → role_eq caller.role admin ≡ false
      → authorized P call caller now s ≡ (forbidden, s)
  unfolding authorized required_roles can_activate
  refused get_me caller now s h other = cc
  refused (update_me dto) caller now s h other = cc
  refused (list_users role page page_size) caller now s h other = cc
  refused (get_by_id id) caller now s h other = cc
  refused (assign_role id role) caller now s h other = ground arith
  refused (deactivate_user id) caller now s h other = ground arith

  valid_cases :
      (r : Result Caller) → ((e : UserError) × (r ≡ err e)) ⊎ ((caller : Caller) × (r ≡ ok caller))
  valid_cases (ok caller) = inr (caller, refl)
  valid_cases (err e) = inl (e, refl)

  -- A caller whose row in the database does not have the role ADMIN at this moment, whatever its token
  -- claims, can neither change the role of an account nor deactivate one.
  pub serve-is_administrative :
      (payload : AccessTokenPayload) (call : Call) (now : ℕ) (s : State P) (u : User)
      → is_administrative call ≡ true
      → find (user_has_id payload.sub) (P.users.rows s.users) ≡ some u
      → role_eq (role_of u.role) admin ≡ false
      → (serve payload call now s ≡ (unauthorized, s)) ⊎ (serve payload call now s ≡ (forbidden, s))
  unfolding serve
  serve-is_administrative payload call now s u acts stored other =
      elim (valid_cases (validate_payload c verify_password P payload s)) [
        | inl (e, invalid) ↦ inl (rw (invalid, serve) refl)
        | inr (caller, valid) ↦ inr (
            rw (valid, serve)
              (refused call caller now s acts
                (caller_of-role payload s u caller stored other valid)))
      ]
