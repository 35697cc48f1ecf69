-- ===== src/Users/Registration.antt =====
-- Accounts and addresses: an address is taken in every spelling, and finds its account in each.
use oneandro_clone.Prelude.{
  ℕ, String, ◌≡◌, refl, sym, ap, Bool, true, false, none, some, List, [], ◌∷◌, ◌++◌, arith, any,
  find, find-append, find-none_of_any,
}
use oneandro_clone.Users.{User, user_clash, UserDb, State, ok, err, email_taken}
use oneandro_clone.Users.Email.{Text, text_eq, text_eq_refl, text_eq_sound, normalize_email}
use oneandro_clone.Users.Accounts.{CreateUserInput, has_email, new_user, create, find_by_email}
use oneandro_clone.Users.Tokens.{TokenMeta, TokenConfig, Fresh}
use oneandro_clone.Users.Auth.{register}

email_none :
    (n : Text) (u : User) (xs : List User)
    → u.email ≡ n
    → any (user_clash u) xs ≡ false
    → find (has_email n) xs ≡ none
email_none n u xs e free =
    find-none_of_any (has_email n) (user_clash u) xs (λ x h. clash x (text_eq_sound x.email n h))
      free
  where
    clash : (x : User) → x.email ≡ n → user_clash u x ≡ true
    clash x f = rw (e, f) (ground (arith, text_eq_refl n))

any-has_email :
    (n : Text) (u x : User) (xs : List User)
    → u.email ≡ n
    → find (has_email n) xs ≡ some x
    → any (user_clash u) xs ≡ true
any-has_email n u x [] e h = cc
any-has_email n u x (y ∷ ys) e h = ground (arith, clash y, any-has_email n u x ys e)
  where
    clash : (y : User) → text_eq y.email n ≡ true → text_eq u.email y.email ≡ true
    clash y f = rw (e, text_eq_sound y.email n f) (text_eq_refl n)

module _ (P : UserDb) (input : CreateUserInput) (id : String) (now : ℕ) (s : State P) where
  create-ok :
      (u : User)
      → (create P input id now s).0 ≡ ok u
      → (u ≡ new_user input id now)
        × (any (user_clash (new_user input id now)) (P.users.rows s.users) ≡ false)
        × (P.users.rows (create P input id now s).1.users
            ≡ P.users.rows s.users ++ new_user input id now ∷ [])
  unfolding create
  create-ok u h = ground (
    arith,
    P.users.create-written (new_user input id now) s.users,
    P.users.rows-create (new_user input id now) s.users,
  )

  email_new_user : (new_user input id now).email ≡ normalize_email input.email
  unfolding new_user
  email_new_user = refl

  found_new :
      find (has_email (normalize_email input.email)) (new_user input id now ∷ [])
      ≡ some (new_user input id now)
  found_new = rw (email_new_user, text_eq_refl)

  -- An account that was created without an error is found by its address in every spelling with
  -- the same normal form.
  pub find_by_email-create :
      (u : User) (email : Text)
      → (create P input id now s).0 ≡ ok u
      → normalize_email email ≡ normalize_email input.email
      → find_by_email P email (create P input id now s).1 ≡ some u
  unfolding find_by_email
  find_by_email-create u email done same =
      let (made, free, rows) = create-ok u done in
      rw
        (
          P.users.find_unique-rows,
          rows,
          same,
          find-append,
          email_none (normalize_email input.email) (new_user input id now) (P.users.rows s.users)
              email_new_user free,
          found_new,
        )
        (ap some (sym made))

  -- An address that is stored in its normal form cannot be registered again in any spelling: the
  -- caller gets a conflict, and no account, token or event is added.
  pub register-taken :
      (c : TokenConfig) (verify_password : String → String → Bool) (meta : TokenMeta) (new : Fresh)
      (owner : User)
      → find (has_email (normalize_email input.email)) (P.users.rows s.users) ≡ some owner
      → ((register c verify_password P input id now meta new s).0 ≡ err email_taken)
        × (P.users.rows (register c verify_password P input id now meta new s).1.users
            ≡ P.users.rows s.users)
        × ((register c verify_password P input id now meta new s).1.tokens ≡ s.tokens)
        × ((register c verify_password P input id now meta new s).1.registered ≡ s.registered)
  unfolding register create
  register-taken c verify_password meta new owner taken =
      let clash =
        any-has_email (normalize_email input.email) (new_user input id now) owner
          (P.users.rows s.users) (unfold new_user in refl) taken in
      ground (
        arith,
        P.users.create-written (new_user input id now) s.users,
        P.users.rows-create (new_user input id now) s.users,
      )
