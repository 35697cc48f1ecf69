-- ===== src/Users/Refusals.antt =====
-- What the operations of the services leave behind when they fail with another error than one of the
-- server.
use oneandro_clone.Prelude.{
  ℕ, String, ◌≡◌, ◌<◌, ◌⊎◌, inl, inr, refl, Bool, false, Option, none, some, arith, Bool-cases,
  Option-cases, ◌==◌,
}
use oneandro_clone.Users.{
  User, RefreshToken, UserDb, State, UserError, token_reused, Result, ok, err, http_status,
}
use oneandro_clone.Users.Email.{Text}
use oneandro_clone.Users.Accounts.{CreateUserInput, user_has_id, new_user, create}
use oneandro_clone.Users.Tokens.{
  TokenMeta, TokenPair, TokenConfig, Fresh, has_hash, replace_by, new_token,
  issue_token_pair_in_family, issue_token_pair, commit_rotation, rotate_valid, rotate_found,
  rotate_refresh_token,
}
use oneandro_clone.Users.Auth.{
  register, login, refresh, validate_credentials, with_tokens, set_auth_cookies,
}

-- The rows of both tables, and the registrations that were announced.
pub record Unchanged (P : UserDb) (s t : State P) : Type 0 where
  pub users : P.users.rows t.users ≡ P.users.rows s.users
  pub tokens : P.tokens.rows t.tokens ≡ P.tokens.rows s.tokens
  pub registered : t.registered ≡ s.registered

abbrev pub same : {P : UserDb} (s : State P) → Unchanged P s s
same s = record { users = refl; tokens = refl; registered = refl }

Result-cases {ℓ} :
    {A : Type ℓ} (r : Result A) → ((e : UserError) × (r ≡ err e)) ⊎ ((a : A) × (r ≡ ok a))
Result-cases (ok a) = inr (a, refl)
Result-cases (err e) = inl (e, refl)

module _ (c : TokenConfig) (P : UserDb) where
  issue-internal :
      (user : User) (meta : TokenMeta) (new : Fresh) (s : State P) (e : UserError)
      → (issue_token_pair c P user meta new s).0 ≡ err e
      → http_status e ≡ 500
  unfolding issue_token_pair issue_token_pair_in_family http_status
  issue-internal user meta new s e h = ground arith

  commit-internal :
      (user : User) (new : Fresh) (t : RefreshToken) (u : Option RefreshToken × P.tokens.Db)
      (s : State P) (e : UserError)
      → (commit_rotation c P user new t u s).0 ≡ err e
      → http_status e ≡ 500
  unfolding commit_rotation http_status
  commit-internal user new t (none, tokens') s e h = ground arith
  commit-internal user new t (some old, tokens') s e h = ground arith

  -- A rotation that is refused changes nothing, but for one whose token was used before.
  abbrev pub IsRefusedRotation : State P → Result TokenPair × State P → UserError → Type 0
  IsRefusedRotation s out e = (e ≡ token_reused) ⊎ (out.1 ≡ s)

  rotate_valid-refused :
      (existing : RefreshToken) (user : Option User) (meta : TokenMeta) (new : Fresh) (s : State P)
      (e : UserError)
      → (rotate_valid c P existing user meta new s).0 ≡ err e
      → http_status e < 500
      → (rotate_valid c P existing user meta new s).1 ≡ s
  unfolding rotate_valid http_status
  rotate_valid-refused existing none meta new s e h small = refl
  rotate_valid-refused existing (some user) meta new s e h small = ground (
    arith,
    commit-internal user new (new_token c existing.user_id existing.family meta new)
        (P.tokens.update (λ t. t.id == existing.id) (replace_by (c.hash_token new.raw_token))
          s.tokens)
        s e,
  )

  rotate_found-refused :
      (existing : RefreshToken) (meta : TokenMeta) (new : Fresh) (s : State P) (e : UserError)
      → (rotate_found c P existing meta new s).0 ≡ err e
      → http_status e < 500
      → IsRefusedRotation s (rotate_found c P existing meta new s) e
  unfolding rotate_found
  rotate_found-refused existing meta new s e h small = ground (
    arith,
    rotate_valid-refused existing (P.users.find_unique (user_has_id existing.user_id) s.users) meta
        new s e,
  )

  rotate_refresh_token-refused :
      (raw : String) (meta : TokenMeta) (new : Fresh) (s : State P) (e : UserError)
      → (rotate_refresh_token c P raw meta new s).0 ≡ err e
      → http_status e < 500
      → IsRefusedRotation s (rotate_refresh_token c P raw meta new s) e
  unfolding rotate_refresh_token
  rotate_refresh_token-refused raw meta new s e h small =
      elim (Option-cases (P.tokens.find_unique (has_hash (c.hash_token raw)) s.tokens)) [
        | inl missing ↦ inr (rw (missing, rotate_refresh_token) refl)
        | inr (t, found) ↦
            rw (found, rotate_refresh_token)
              (rotate_found-refused t meta new s e (rw (found, rotate_refresh_token) at h) small)
      ]

module _ (c : TokenConfig) (verify_password : String → String → Bool) (P : UserDb) where
  with_tokens-err :
      (user : User) (r : Result TokenPair × State P) (e : UserError)
      → (with_tokens c verify_password P user r).0 ≡ err e
      → r.0 ≡ err e
  with_tokens-err user (err e', s) e h = cc
  with_tokens-err user (ok tokens, s) e h = cc

  set_auth_cookies-err :
      (r : Result TokenPair × State P) (e : UserError)
      → (set_auth_cookies c verify_password P r).0 ≡ err e
      → r.0 ≡ err e
  set_auth_cookies-err (err e', s) e h = cc
  set_auth_cookies-err (ok tokens, s) e h = cc

  clash_keeps :
      (user : User) (d : P.users.Db)
      → (P.users.create user d).0 ≡ false
      → P.users.rows (P.users.create user d).1 ≡ P.users.rows d
  clash_keeps user d h = rw P.users.rows-create (ground (arith, P.users.create-written user d))

  pub register-refused :
      (input : CreateUserInput) (id : String) (now : ℕ) (meta : TokenMeta) (new : Fresh)
      (s : State P) (e : UserError)
      → (register c verify_password P input id now meta new s).0 ≡ err e
      → http_status e < 500
      → Unchanged P s (register c verify_password P input id now meta new s).1
  unfolding register create
  register-refused input id now meta new s e h small =
      elim (Bool-cases (P.users.create (new_user input id now) s.users).0) [
        | inl written ↦ absurd (
            omega (
              arith,
              small,
              issue-internal c P (new_user input id now) meta new _ e
                  (with_tokens-err (new_user input id now) _ e (rw written at h)),
            ))
        | inr clash ↦ rw clash (record {
          users = clash_keeps (new_user input id now) s.users clash;
          tokens = refl;
          registered = refl;
        })
      ]

  pub login-refused :
      (email : Text) (password : String) (meta : TokenMeta) (new : Fresh) (s : State P)
      (e : UserError)
      → (login c verify_password P email password meta new s).0 ≡ err e
      → http_status e < 500
      → (login c verify_password P email password meta new s).1 ≡ s
  unfolding login
  login-refused email password meta new s e h small =
      elim (Result-cases (validate_credentials c verify_password P email password s)) [
        | inl (e', refused) ↦ rw (refused, login) refl
        | inr (user, good) ↦ absurd (
            omega (
              arith,
              small,
              issue-internal c P user meta new s e (
                  set_auth_cookies-err (issue_token_pair c P user meta new s) e
                    (rw (good, login) at h)),
            ))
      ]

  pub refresh-refused :
      (cookie : Option String) (meta : TokenMeta) (new : Fresh) (s : State P) (e : UserError)
      → (refresh c verify_password P cookie meta new s).0 ≡ err e
      → http_status e < 500
      → (e ≡ token_reused) ⊎ ((refresh c verify_password P cookie meta new s).1 ≡ s)
  unfolding refresh
  refresh-refused none meta new s e h small = inr refl
  refresh-refused (some raw) meta new s e h small =
      ground (arith, rotate_refresh_token-refused c P raw meta new s e)
