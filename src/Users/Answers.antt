-- ===== src/Users/Answers.antt =====
-- What the answers of user-service with a status of 400 to 499 leave behind.
use oneandro_clone.Prelude.{
  ℕ, String, ◌≡◌, ◌≤◌, ◌<◌, ◌⊎◌, inl, inr, refl, ap, Bool, Option, none, some, arith, Bool-cases,
}
use oneandro_clone.Common.Validation.{Validators}
use oneandro_clone.Users.{
  User, UserDb, State, UserError, token_reused, Result, ok, err, http_status,
}
use oneandro_clone.Users.Accounts.{
  update_user, update_profile, set_role, deactivate, find_by_id_or_throw,
}
use oneandro_clone.Users.Tokens.{TokenConfig}
use oneandro_clone.Users.Auth.{Caller, register, login, refresh, logout_all, can_activate}
use oneandro_clone.Users.Refusals.{
  Unchanged, same, register-refused, login-refused, refresh-refused,
}
use oneandro_clone.Users.Api.{
  Call, get_me, update_me, list_users, get_by_id, assign_role, deactivate_user, serialized, handler,
}
use oneandro_clone.Users.Http.{
  UsersRequest, HttpRequest, http_register, http_login, http_refresh, http_logout, http_logout_all,
  http_users, Context, with_cookies, handled, http, status_code, result_status, after_pipes,
  after_guard, refused_by_prisma, has_null_name, roles_of, piped, caller_of, create_input,
  after_register, after_login, after_caller,
}
use oneandro_clone.Users.Bodies.{RegisterDto, LoginDto, register_dto, login_dto}

abbrev pub IsRefusal : ℕ → Type 0
IsRefusal code = (400 ≤ code) × (code < 500)

refused_result :
    {A : Type 0} (success : ℕ) (r : Result A)
    → success ≤ 201
    → IsRefusal (result_status success r)
    → (e : UserError) × (r ≡ err e) × (http_status e < 500)
refused_result success (err e) least h = (e, refl, h.1)
refused_result success (ok a) least h = absurd (omega (arith, h.0, least))

module _ (P : UserDb) where
  update_user-refused :
      (id : String) (change : User → User) (s : State P) (e : UserError)
      → (update_user P id change s).0 ≡ err e
      → http_status e < 500
      → (update_user P id change s).1 ≡ s
  unfolding update_user http_status find_by_id_or_throw
  update_user-refused id change s e h small = ground arith

  serialized-err : (r : Result User) (e : UserError) → serialized r ≡ err e → r ≡ err e
  serialized-err (ok u) e h = cc
  serialized-err (err e') e h = cc

  -- A change of an account that is refused.
  changed-refused :
      (r : Result User × State P) (s : State P)
      → ((e : UserError) → r.0 ≡ err e → http_status e < 500 → r.1 ≡ s)
      → IsRefusal (result_status 200 (serialized r.0))
      → r.1 ≡ s
  changed-refused r s keeps h =
      let (e, failed, small) = refused_result 200 (serialized r.0) (omega arith) h in
      keeps e (serialized-err r.0 e failed) small

  handler-refused :
      (call : Call) (caller : Caller) (now : ℕ) (s : State P)
      → IsRefusal (status_code (handled (handler P call caller now s).0))
      → (handler P call caller now s).1 ≡ s
  unfolding handler status_code update_profile set_role deactivate
  handler-refused get_me caller now s h = refl
  handler-refused (update_me dto) caller now s h =
      changed-refused (update_profile P caller.user_id dto now s) s
        (update_user-refused caller.user_id _ s) h
  handler-refused (list_users role page size) caller now s h = refl
  handler-refused (get_by_id id) caller now s h = refl
  handler-refused (assign_role id role) caller now s h =
      changed-refused (set_role P id role now s) s (update_user-refused id _ s) h
  handler-refused (deactivate_user id) caller now s h =
      changed-refused (deactivate P id now s) s (update_user-refused id _ s) h

module _ (V : Validators) (c : TokenConfig) (verify_password : String → String → Bool)
    (P : UserDb) where
  after_pipes-refused :
      (req : UsersRequest V) (call : Option Call) (caller : Caller) (ctx : Context) (s : State P)
      → IsRefusal (status_code (after_pipes V c verify_password P req call caller ctx s).0)
      → (after_pipes V c verify_password P req call caller ctx s).1 ≡ s
  after_pipes-refused req none caller ctx s h = refl
  after_pipes-refused req (some call) caller ctx s h = elim (Bool-cases (has_null_name V req)) [
    | inl null ↦ rw null (looked_up (find_by_id_or_throw P caller.user_id s))
    | inr named ↦ rw named (handler-refused P call caller ctx.now s (rw named at h))
  ]
    where
      looked_up : (r : Result User) → (refused_by_prisma V c verify_password P r s).1 ≡ s
      looked_up (ok user) = refl
      looked_up (err e) = refl

  after_guard-refused :
      (caller : Result Caller) (req : UsersRequest V) (ctx : Context) (s : State P)
      → IsRefusal (status_code (after_guard V c verify_password P caller req ctx s).0)
      → (after_guard V c verify_password P caller req ctx s).1 ≡ s
  after_guard-refused (err e) req ctx s h = refl
  after_guard-refused (ok caller) req ctx s h =
      elim (Bool-cases (can_activate (roles_of V req) (some caller.role))) [
        | inr stop ↦ rw stop refl
        | inl pass ↦ rw pass (after_pipes-refused req (piped V req) caller ctx s (rw pass at h))
      ]

  unchanged : (s t : State P) → t ≡ s → Unchanged P s t
  unchanged s t e = rw e (same s)

  after_register-refused :
      (dto : Option RegisterDto) (ctx : Context) (s : State P)
      → IsRefusal (status_code (after_register V c verify_password P dto ctx s).0)
      → Unchanged P s (after_register V c verify_password P dto ctx s).1
  unfolding status_code
  after_register-refused none ctx s h = same s
  after_register-refused (some dto) ctx s h =
      let input = create_input V ctx.hash_password dto in
      let (e, failed, small) =
        refused_result 201
          (register c verify_password P input ctx.new_id ctx.now ctx.meta ctx.fresh s).0
          (omega arith) h in
      register-refused c verify_password P input ctx.new_id ctx.now ctx.meta ctx.fresh s e failed
        small

  after_login-refused :
      (dto : Option LoginDto) (ctx : Context) (s : State P)
      → IsRefusal (status_code (after_login V c verify_password P dto ctx s).0)
      → Unchanged P s (after_login V c verify_password P dto ctx s).1
  unfolding status_code
  after_login-refused none ctx s h = same s
  after_login-refused (some dto) ctx s h =
      let email = V.code_units dto.email in
      let (e, failed, small) =
        refused_result 200 (login c verify_password P email dto.password ctx.meta ctx.fresh s).0
          (omega arith) h in
      unchanged s _
        (login-refused c verify_password P email dto.password ctx.meta ctx.fresh s e failed small)

  after_caller-refused :
      (caller : Result Caller) (s : State P)
      → IsRefusal (status_code (after_caller V c verify_password P caller s).0)
      → Unchanged P s (after_caller V c verify_password P caller s).1
  unfolding status_code logout_all
  after_caller-refused (err e) s h = same s
  after_caller-refused (ok caller) s h = absurd (omega (arith, h.0))

  -- A request that is answered with a status from 400 to 499 has changed no account and no token and has
  -- announced no registration, with one exception: a refresh whose token had been used before.
  pub http-Unchanged :
      (ctx : Context) (req : HttpRequest V) (s : State P)
      → 400 ≤ status_code (http V c verify_password P ctx req s).0
      → status_code (http V c verify_password P ctx req s).0 < 500
      → ((req ≡ http_refresh)
          × ((http V c verify_password P ctx req s).0 ≡ with_cookies (err token_reused)))
        ⊎ Unchanged P s (http V c verify_password P ctx req s).1
  unfolding http status_code
  http-Unchanged ctx (http_register body) s least most =
      inr (after_register-refused (register_dto V body) ctx s (least, most))
  http-Unchanged ctx (http_login body) s least most =
      inr (after_login-refused (login_dto V body) ctx s (least, most))
  http-Unchanged ctx http_refresh s least most =
      let (e, failed, small) =
        refused_result 200 (refresh c verify_password P ctx.refresh_cookie ctx.meta ctx.fresh s).0
          (omega arith) (least, most) in
      elim (refresh-refused c verify_password P ctx.refresh_cookie ctx.meta ctx.fresh s e failed
        small) [
          | inl reused ↦ inl (refl, ap with_cookies (rw (← reused) failed))
          | inr kept ↦ inr (unchanged s _ kept)
        ]
  http-Unchanged ctx http_logout s least most = absurd (omega (arith, least))
  http-Unchanged ctx http_logout_all s least most =
      inr (after_caller-refused (caller_of V c verify_password P ctx.claims s) s (least, most))
  http-Unchanged ctx (http_users req) s least most = inr (
      unchanged s _ (
        after_guard-refused (caller_of V c verify_password P ctx.claims s) req ctx s (least, most)))
