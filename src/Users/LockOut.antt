-- ===== src/Users/LockOut.antt =====
-- What the state of an account decides: who can log in, and that a deactivated account cannot use
-- its tokens.
use mathlib.Core.Option
use mathlib.Core.Path.{subst}
use oneandro_clone.Prelude.{
  ℕ, String, ◌≡◌, ◌≢◌, refl, sym, ap, ◌∙◌, ◌↔◌, inl, inr, Bool, true, false, Option, none, some,
  arith, find, find-map_where, Option-cases,
}
use oneandro_clone.Common.{system, role_eq}
use oneandro_clone.Users.{User, RefreshToken, UserDb, State, Result, ok, err, account_inactive}
use oneandro_clone.Users.Email.{Text, normalize_email}
use oneandro_clone.Users.Accounts.{
  user_has_id, has_email, find_by_email, find_by_id_or_throw, updated, update_user, deactivate,
}
use oneandro_clone.Users.Tokens.{
  TokenMeta, TokenConfig, Fresh, TokenPair, has_hash, rotate_refresh_token,
}
use oneandro_clone.Users.Families.{rotate_found_cases}
use oneandro_clone.Users.Auth.{AccessTokenPayload, validate_credentials, validate_payload}

module _ (c : TokenConfig) (verify_password : String → String → Bool) (P : UserDb) where
  -- The credentials that are accepted: those of the active account stored under the normalised
  -- address, with a password that its hash verifies.
  pub validate_credentials_iff :
      (email : Text) (password : String) (s : State P) (user : User)
      → (validate_credentials c verify_password P email password s ≡ ok user) ↔ (
          (find (has_email (normalize_email email)) (P.users.rows s.users) ≡ some user)
          × (user.is_active ≡ true)
          × (verify_password user.password_hash password ≡ true))
  unfolding validate_credentials find_by_email
  validate_credentials_iff email password s user = (
    λ h. ground (arith, P.users.find_unique-rows (has_email (normalize_email email)) s.users),
    λ h. ground (arith, P.users.find_unique-rows (has_email (normalize_email email)) s.users),
  )

  -- An account whose row, found by its id, is not active.
  abbrev pub IsInactive : String → State P → Type 0
  IsInactive id s =
      (u : User) × (find (user_has_id id) (P.users.rows s.users) ≡ some u) × (u.is_active ≡ false)

  abbrev switch_off : ℕ → User → User
  switch_off now u = record u { is_active = false; updated_at = now }

  updated_users :
      (out : Option User × P.users.Db) (s : State P) (u : User)
      → out.0 ≡ some u
      → (updated P out s).1.users ≡ out.1
  updated_users (some user, d) s u h = refl
  updated_users (none, d) s u h = cc

  rows-updated :
      (id : String) (now : ℕ) (s : State P) (old : User)
      → find (user_has_id id) (P.users.rows s.users) ≡ some old
      → find (user_has_id id) (
          P.users.rows
            (updated P (P.users.update (user_has_id id) (switch_off now) s.users) s).1.users)
        ≡ some (switch_off now old)
  rows-updated id now s old stored =
      let out = P.users.update (user_has_id id) (switch_off now) s.users in
      rw (
        updated_users out s (switch_off now old) (
            P.users.update-row (user_has_id id) (switch_off now) s.users
            ∙ ap (Option.map (switch_off now)) stored),
        P.users.rows-update,
        find-map_where (user_has_id id) (user_has_id id) (switch_off now) (P.users.rows s.users)
            (λ x. refl) (λ x h. h),
        stored,
      )

  deactivate-IsInactive :
      (id : String) (now : ℕ) (s : State P) (u : User)
      → (deactivate P id now s).0 ≡ ok u
      → IsInactive id (deactivate P id now s).1
  unfolding deactivate update_user find_by_id_or_throw
  deactivate-IsInactive id now s u h =
      elim (Option-cases (P.users.find_unique (user_has_id id) s.users)) [
        | inl missing ↦ cc (rw (missing, deactivate, update_user, find_by_id_or_throw) at h)
        | inr (old, found) ↦
            let stored = sym (P.users.find_unique-rows (user_has_id id) s.users) ∙ found in
            (
              switch_off now old,
              rw (found, deactivate, update_user, find_by_id_or_throw)
                  (rows-updated id now s old stored),
              refl,
            )
      ]

  at_id : (a b : String) (s : State P) → a ≡ b → IsInactive a s → IsInactive b s
  at_id a b s e i = subst (λ k. IsInactive k s) e i

  rotate_inactive :
      (raw : String) (meta : TokenMeta) (new : Fresh) (s : State P) (old : RefreshToken)
      (pair : TokenPair)
      → find (has_hash (c.hash_token raw)) (P.tokens.rows s.tokens) ≡ some old
      → IsInactive old.user_id s
      → (rotate_refresh_token c P raw meta new s).0 ≢ ok pair
  unfolding rotate_refresh_token
  rotate_inactive raw meta new s old pair stored (u, there, off) h =
      let found = P.tokens.find_unique-rows (has_hash (c.hash_token raw)) s.tokens ∙ stored in
      let ended = rw (found, rotate_refresh_token) at h in
      elim (rotate_found_cases c P s old meta new) [
        | inl (used, out) ↦ cc (ap (λ (o : Result TokenPair × State P). o.0) out)
        | inr (inl (e, alive, failed, same)) ↦ cc
        | inr (inr (user, alive, fresh, there', active, done, rows)) ↦
            let same : user ≡ u = cc in cc (ap (λ (x : User). x.is_active) same)
      ]

  validate_inactive :
      (payload : AccessTokenPayload) (s : State P)
      → IsInactive payload.sub s
      → role_eq payload.role system ≡ false
      → validate_payload c verify_password P payload s ≡ err account_inactive
  unfolding validate_payload find_by_id_or_throw
  validate_inactive payload s (u, found, off) user =
      ground (arith, P.users.find_unique-rows (user_has_id payload.sub) s.users)

  -- Once an account is deactivated, user-service accepts none of its refresh tokens, and refuses an access
  -- token of it that claims any role but SYSTEM. (The other services read no accounts, and accept an
  -- access token until it expires.)
  pub deactivate-locks_out :
      (id : String) (now : ℕ) (s : State P) (u : User) (raw : String) (meta : TokenMeta)
      (new : Fresh) (old : RefreshToken) (pair : TokenPair) (payload : AccessTokenPayload)
      → (deactivate P id now s).0 ≡ ok u
      → find (has_hash (c.hash_token raw)) (P.tokens.rows (deactivate P id now s).1.tokens)
        ≡ some old
      → old.user_id ≡ id
      → payload.sub ≡ id
      → role_eq payload.role system ≡ false
      → ((rotate_refresh_token c P raw meta new (deactivate P id now s).1).0 ≢ ok pair)
        × (validate_payload c verify_password P payload (deactivate P id now s).1
            ≡ err account_inactive)
  deactivate-locks_out id now s u raw meta new old pair payload done stored owner sub user =
      let off = deactivate-IsInactive id now s u done in
      (
        rotate_inactive raw meta new (deactivate P id now s).1 old pair stored
            (at_id id old.user_id (deactivate P id now s).1 (sym owner) off),
        validate_inactive payload (deactivate P id now s).1
            (at_id id payload.sub (deactivate P id now s).1 (sym sub) off) user,
      )
