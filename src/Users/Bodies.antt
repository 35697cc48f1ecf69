-- ===== src/Users/Bodies.antt =====
-- The bodies and queries that apps/user-service takes: src/auth/dto/*.ts, src/users/dto/*.ts and
-- src/common/enums/role.enum.ts.
use oneandro_clone.Prelude.{
  ℕ, String, ◌≡◌, refl, Bool, true, false, ◌&&◌, ◌||◌, not, Option, none, some, List, [], ◌∷◌, all,
  any, arith, leb, eqb, Bool-cases, inl, inr,
}
use oneandro_clone.Common.{Role, applicant, loan_officer, underwriter, admin, system}
use oneandro_clone.Common.Validation.{
  Validators, Fields, field, is_whitelisted, require, optional, required, string_of, member_of,
  count_or, ◌>>=◌, ◌>>◌,
}
use oneandro_clone.Users.{
  AssignableRole, as_applicant, as_loan_officer, as_underwriter, as_admin, role_of,
}
use oneandro_clone.Users.Email.{Text}
use oneandro_clone.Users.Accounts.{UpdateProfileDto}

-- The values of the enum Role.
unfoldable pub role_text : Role → String
role_text applicant = "APPLICANT"
role_text loan_officer = "LOAN_OFFICER"
role_text underwriter = "UNDERWRITER"
role_text admin = "ADMIN"
role_text system = "SYSTEM"

-- ASSIGNABLE_ROLES
unfoldable pub assignable_roles : List AssignableRole
assignable_roles = as_applicant ∷ as_loan_officer ∷ as_underwriter ∷ as_admin ∷ []

-- `.` of a regular expression without the flag s: all but the four line terminators.
unfoldable pub is_dot : ℕ → Bool
is_dot c = not (eqb c 10 || eqb c 13 || eqb c 8232 || eqb c 8233)

unfoldable pub is_lower : ℕ → Bool
is_lower c = leb 97 c && leb c 122

unfoldable pub is_upper : ℕ → Bool
is_upper c = leb 65 c && leb c 90

unfoldable pub is_digit : ℕ → Bool
is_digit c = leb 48 c && leb c 57

-- [^A-Za-z0-9]
unfoldable pub is_special : ℕ → Bool
is_special c = not (is_upper c || is_lower c || is_digit c)

-- (?=.*[...]) at the beginning of a text: dots, and then one of the class.
unfoldable pub dots_then : (ℕ → Bool) → Text → Bool
dots_then class [] = false
dots_then class (c ∷ rest) = class c || (is_dot c && dots_then class rest)

-- .+$
unfoldable pub dots_to_end : Text → Bool
dots_to_end [] = false
dots_to_end (c ∷ []) = is_dot c
dots_to_end (c ∷ d ∷ rest) = is_dot c && dots_to_end (d ∷ rest)

-- STRONG_PASSWORD_REGEX
unfoldable pub strong_password : Text → Bool
strong_password t =
    dots_then is_lower t
    && dots_then is_upper t
    && dots_then is_digit t
    && dots_then is_special t
    && dots_to_end t

dots_then-any :
    (class : ℕ → Bool) (t : Text) → all is_dot t ≡ true → dots_then class t ≡ any class t
unfolding dots_then
dots_then-any class [] h = refl
dots_then-any class (c ∷ rest) h = ground (arith, dots_then-any class rest)

dots_to_end-all : (c : ℕ) (t : Text) → dots_to_end (c ∷ t) ≡ all is_dot (c ∷ t)
unfolding dots_to_end
dots_to_end-all c [] = ground arith
dots_to_end-all c (d ∷ rest) = ground (arith, dots_to_end-all d rest)

-- A password passes the pattern exactly if it is on one line, and has a small letter, a capital, a digit
-- and a character that is none of these, wherever they stand.
pub strong_password_lem :
    (t : Text)
    → strong_password t
      ≡ (all is_dot t && any is_lower t && any is_upper t && any is_digit t && any is_special t)
unfolding strong_password dots_then dots_to_end
strong_password_lem [] = refl
strong_password_lem (c ∷ rest) = elim (Bool-cases (all is_dot (c ∷ rest))) [
  | inl line ↦
      rw
        (
          dots_to_end-all c rest,
          dots_then-any is_lower (c ∷ rest) line,
          dots_then-any is_upper (c ∷ rest) line,
          dots_then-any is_digit (c ∷ rest) line,
          dots_then-any is_special (c ∷ rest) line,
          line,
        )
        (ground arith)
  | inr broken ↦ ground (arith, dots_to_end-all c rest)
]

pub record RegisterDto : Type 0 where
  pub email : String
  pub password : String
  pub first_name : String
  pub last_name : String

pub record LoginDto : Type 0 where
  pub email : String
  pub password : String

pub record ListUsersQuery : Type 0 where
  pub page : ℕ
  pub page_size : ℕ
  pub role : Option AssignableRole

abbrev assignable_text : AssignableRole → String
assignable_text role = role_text (role_of role)

module _ (V : Validators) where
  -- @IsEmail()
  unfoldable pub email_of : V.Value → Option String
  email_of v = do s ← V.text v; require (V.is_email s); some s

  -- @IsString() @Length(12, 128) @Matches(STRONG_PASSWORD_REGEX)
  unfoldable pub password_of : V.Value → Option String
  password_of v = do s ← string_of V 12 128 v; require (strong_password (V.code_units s)); some s

  -- @IsString() @MinLength(1)
  unfoldable pub presented_password : V.Value → Option String
  presented_password v = do s ← V.text v; require (V.min_length 1 s); some s

  unfoldable pub register_dto : Fields V → Option RegisterDto
  register_dto body = do
    require (is_whitelisted V ("email" ∷ "password" ∷ "firstName" ∷ "lastName" ∷ []) body)
    email ← required V email_of (field V "email" body)
    password ← required V password_of (field V "password" body)
    first_name ← required V (string_of V 1 100) (field V "firstName" body)
    last_name ← required V (string_of V 1 100) (field V "lastName" body)
    some (record {
      email = email;
      password = password;
      first_name = first_name;
      last_name = last_name;
    })

  unfoldable pub login_dto : Fields V → Option LoginDto
  login_dto body = do
    require (is_whitelisted V ("email" ∷ "password" ∷ []) body)
    email ← required V email_of (field V "email" body)
    password ← required V presented_password (field V "password" body)
    some (record { email = email; password = password })

  unfoldable pub update_profile_dto : Fields V → Option UpdateProfileDto
  update_profile_dto body = do
    require (is_whitelisted V ("firstName" ∷ "lastName" ∷ []) body)
    first_name ← optional V (string_of V 1 100) (field V "firstName" body)
    last_name ← optional V (string_of V 1 100) (field V "lastName" body)
    some (record { first_name = first_name; last_name = last_name })

  -- @IsIn(ASSIGNABLE_ROLES)
  unfoldable pub assignable_role_of : V.Value → Option AssignableRole
  assignable_role_of = member_of V assignable_text assignable_roles

  unfoldable pub assign_role_dto : Fields V → Option AssignableRole
  assign_role_dto body = do
    require (is_whitelisted V ("role" ∷ []) body)
    required V assignable_role_of (field V "role" body)

  unfoldable pub list_users_query : Fields V → Option ListUsersQuery
  list_users_query query = do
    require (is_whitelisted V ("page" ∷ "pageSize" ∷ "role" ∷ []) query)
    page ← count_or V 1 none (field V "page" query)
    page_size ← count_or V 20 (some 100) (field V "pageSize" query)
    role ← optional V assignable_role_of (field V "role" query)
    some (record { page = page; page_size = page_size; role = role })
