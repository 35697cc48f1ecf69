-- ===== src/Users/CookieExamples.antt =====
-- A browser behind the gateway, a password, and the role of an assignment.
use oneandro_clone.Common.{underwriter, system}
use oneandro_clone.Prelude.{◌≢◌, ◌≡◌, ◌⊎◌, ◌↔◌, none, some, [], ◌∷◌, ◌&&◌, all, any, arith}
use oneandro_clone.Users.{AssignableRole, role_of, err, token_reused, http_status}
use oneandro_clone.Common.Validation.{Fields, required, field, is_whitelisted}
use oneandro_clone.Users.Email.{Text, text_eq, normalize_email, trim_start, trim_end}
use oneandro_clone.Users.Accounts.{find_by_email}
use oneandro_clone.Users.Tokens.{TokenPair}
use oneandro_clone.Users.Auth.{login, validate_credentials}
use oneandro_clone.Users.Cookies.{UserAgent}
use oneandro_clone.Users.Bodies.{
  is_dot, is_lower, is_upper, is_digit, is_special, strong_password, strong_password_lem, role_text,
  assignable_role_of, login_dto, email_of, presented_password,
}
use oneandro_clone.Users.Http.{
  HttpRequest, Context, http_login, http_refresh, http, with_cookies, status_code,
}
use oneandro_clone.Users.Refusals.{Unchanged}
use oneandro_clone.Users.Answers.{http-Unchanged}
use oneandro_clone.Users.Assignable.{assignable_role_of_lem}
use oneandro_clone.Users.Examples.{db, config, stored, meta, fresh, checks}
use oneandro_clone.Gateway.Routes.{starts_with}
use oneandro_clone.Leads.HttpExamples.{validators, text}

-- It sends a cookie for the paths that begin with the path of the cookie.
abbrev browser : UserAgent
browser = record { sends = λ path c. starts_with path c.path; sends-starts_with = λ path c h. h }

abbrev logged_in : TokenPair
logged_in = record {
  access_token = "a1";
  refresh_token = "r1";
  access_token_expires_in_ms = 900;
  refresh_token_expires_in_ms = 9000;
}

-- "Str0ng!"
abbrev strong : Text
strong = 83 ∷ 116 ∷ 114 ∷ 48 ∷ 110 ∷ 103 ∷ 33 ∷ []

strong_password_lem_example : strong_password strong ≡ (
    all is_dot strong
    && any is_lower strong
    && any is_upper strong
    && any is_digit strong
    && any is_special strong)
strong_password_lem_example = strong_password_lem strong

assignable_role_of_lem_example :
    ((a : AssignableRole) × (assignable_role_of validators (text "UNDERWRITER") ≡ some a)
      × (role_of a ≡ underwriter))
    ↔ ((validators.text (text "UNDERWRITER") ≡ some (role_text underwriter))
        × (underwriter ≢ system))
assignable_role_of_lem_example = assignable_role_of_lem validators (text "UNDERWRITER") underwriter

abbrev login_body : Fields validators
login_body = ("email", text "bob@x") ∷ ("password", text "guess") ∷ []

abbrev context : Context
context = record {
  claims = none;
  refresh_cookie = none;
  meta = meta;
  fresh = fresh;
  new_id = "u2";
  now = 10;
  hash_password = λ p. p;
}

http-Unchanged_example :
    ((◌≡◌ {A = HttpRequest validators} (http_login login_body) http_refresh)
      × ((http validators config checks db context (http_login login_body) stored).0
          ≡ with_cookies (err token_reused)))
    ⊎ Unchanged db stored
        (http validators config checks db context (http_login login_body) stored).1
unfolding http status_code login validate_credentials find_by_email http_status login_dto required
    field is_whitelisted email_of presented_password normalize_email trim_start trim_end text_eq
http-Unchanged_example =
    http-Unchanged validators config checks db context (http_login login_body) stored (omega arith)
      (omega arith)
