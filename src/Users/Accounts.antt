-- ===== src/Users/Accounts.antt =====
-- apps/user-service/src/users/users.service.ts
use oneandro_clone.Prelude.{ℕ, String, Bool, true, false, Option, none, some, ◌==◌, if◌then◌else◌}
use oneandro_clone.Common.{role_eq}
use oneandro_clone.Users.{
  AssignableRole, as_applicant, role_of, User, UserDb, State, Result, ok, err, email_taken,
  user_not_found, database_failure,
}
use oneandro_clone.Users.Email.{Text, text_eq, normalize_email}
use oneandro_clone.Pagination.{PaginatedResult, list_page}

pub record CreateUserInput : Type 0 where
  pub email : Text
  pub password_hash : String
  pub first_name : String
  pub last_name : String

-- An absent field does not change the profile.
pub record UpdateProfileDto : Type 0 where
  pub first_name : Option String
  pub last_name : Option String

abbrev pub user_has_id : String → User → Bool
user_has_id id u = u.id == id

abbrev pub has_email : Text → User → Bool
has_email email u = text_eq u.email email

-- The row that `create` writes: the defaults of the schema, and an id and an instant made up by the
-- database.
unfoldable pub new_user : CreateUserInput → String → ℕ → User
new_user input id now = record {
  id = id;
  email = normalize_email input.email;
  password_hash = input.password_hash;
  first_name = input.first_name;
  last_name = input.last_name;
  role = as_applicant;
  is_email_verified = false;
  is_active = true;
  last_lead_status = none;
  last_lead_status_at = none;
  created_at = now;
  updated_at = now;
}

abbrev pub given : Option String → String → String
given none old = old
given (some new) old = new

module _ (P : UserDb) where
  -- A unique column that is broken (P2002) is a conflict.
  unfoldable pub create : CreateUserInput → String → ℕ → State P → Result User × State P
  create input id now s =
      let user = new_user input id now in
      let (written, users') = P.users.create user s.users in
      if written
      then (ok user, record s { users = users' })
      else (err email_taken, record s { users = users' })

  unfoldable pub find_by_email : Text → State P → Option User
  find_by_email email s = P.users.find_unique (has_email (normalize_email email)) s.users

  unfoldable pub find_by_id_or_throw : String → State P → Result User
  find_by_id_or_throw id s = elim (P.users.find_unique (user_has_id id) s.users) [
    | none ↦ err user_not_found
    | some user ↦ ok user
  ]

  -- `prisma.user.update({ where: { id }, data })`, which throws if there is no row.
  abbrev pub updated : Option User × P.users.Db → State P → Result User × State P
  updated (some user, users') s = (ok user, record s { users = users' })
  updated (none, users') s = (err database_failure, s)

  -- findByIdOrThrow, then update.
  unfoldable pub update_user : String → (User → User) → State P → Result User × State P
  update_user id change s = elim (find_by_id_or_throw id s) [
    | err e ↦ (err e, s)
    | ok found ↦ updated (P.users.update (user_has_id id) change s.users) s
  ]

  unfoldable pub update_profile : String → UpdateProfileDto → ℕ → State P → Result User × State P
  update_profile id dto now s =
      update_user id
        (λ u. record u {
          first_name = given dto.first_name u.first_name;
          last_name = given dto.last_name u.last_name;
          updated_at = now;
        })
        s

  unfoldable pub set_role : String → AssignableRole → ℕ → State P → Result User × State P
  set_role id role now s = update_user id (λ u. record u { role = role; updated_at = now }) s

  unfoldable pub deactivate : String → ℕ → State P → Result User × State P
  deactivate id now s = update_user id (λ u. record u { is_active = false; updated_at = now }) s

  unfoldable pub list : Option AssignableRole → ℕ → ℕ → State P → PaginatedResult User
  list role page page_size s =
      list_page P.users
        (λ u. elim role [ none ↦ true | some r ↦ role_eq (role_of u.role) (role_of r) ]) page_size
        s.users page

  -- A status for a user that does not exist changes nothing.
  unfoldable pub record_lead_status : String → String → ℕ → State P → State P
  record_lead_status user_id status now s = record s {
    users =
        P.users.update_many (user_has_id user_id)
          (λ u. record u {
            last_lead_status = some status;
            last_lead_status_at = some now;
            updated_at = now;
          })
          s.users;
  }
