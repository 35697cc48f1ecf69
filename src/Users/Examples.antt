-- ===== src/Users/Examples.antt =====
-- Runs of the services of users on tables that are lists, and the theorems at those runs.
use oneandro_clone.Prelude.{
  arith, String, ◌≡◌, refl, Bool, true, false, none, [], ◌∷◌, count, ◌⊎◌, ◌≢◌, ◌==◌, ◌≤◌,
}
use oneandro_clone.Common.{admin}
use oneandro_clone.Store.ListTable.{list_table}
use oneandro_clone.Users.{
  as_applicant, User, user_clash, RefreshToken, token_clash, UserDb, State, ok, err, token_reused,
  account_inactive,
}
use oneandro_clone.Users.Accounts.{CreateUserInput, find_by_id_or_throw, deactivate, update_user}
use oneandro_clone.Users.Tokens.{
  TokenMeta, TokenConfig, Fresh, new_token, token_pair, issue_token_pair,
  issue_token_pair_in_family, rotate_refresh_token, rotate_found, rotate_valid, commit_rotation,
}
use oneandro_clone.Users.Families.{live, HasOneLive}
use oneandro_clone.Users.Replay.{
  here, next, login, refresh, Reach-HasOneLive, rotate_refresh_token-replayed,
}
use oneandro_clone.Users.Auth.{AccessTokenPayload, validate_payload}
use oneandro_clone.Users.LockOut.{deactivate-locks_out}
use oneandro_clone.Users.Api.{assign_role, serve, unauthorized, forbidden, serve-is_administrative}
use oneandro_clone.Users.Race.{rotate_found_twice}

abbrev pub db : UserDb
db = record { users = list_table User user_clash; tokens = list_table RefreshToken token_clash }

abbrev pub config : TokenConfig
config = record {
  hash_token = λ s. s;
  sign_access_token = λ id email role. id;
  access_ttl_ms = 900;
  refresh_ttl_ms = 9000;
}

abbrev ann : User
ann = record {
  id = "u1";
  email = b'a' ∷ b'@' ∷ b'x' ∷ [];
  password_hash = "h";
  first_name = "Ann";
  last_name = "A";
  role = as_applicant;
  is_email_verified = false;
  is_active = true;
  last_lead_status = none;
  last_lead_status_at = none;
  created_at = 1;
  updated_at = 1;
}

abbrev token : RefreshToken
token = record {
  id = "t1";
  user_id = "u1";
  token_hash = "r1";
  family = "f1";
  revoked = false;
  replaced_by_token_hash = none;
  user_agent = none;
  ip_address = none;
  expires_at = 100;
  created_at = 1;
}

abbrev nobody : State db
nobody = record { users = []; tokens = []; registered = [] }

abbrev pub stored : State db
stored = record { users = ann ∷ []; tokens = token ∷ []; registered = [] }

abbrev pub meta : TokenMeta
meta = record { user_agent = none; ip_address = none }

abbrev pub fresh : Fresh
fresh = record { raw_token = "r2"; token_id = "t2"; family = "f2"; checked_at = 10; issued_at = 11 }

abbrev later : Fresh
later = record { raw_token = "r3"; token_id = "t3"; family = "f3"; checked_at = 20; issued_at = 21 }

abbrev pub checks : String → String → Bool
checks hash password = hash == password

abbrev rotated : State db
rotated = (rotate_refresh_token config db "r1" meta fresh stored).1

empty-HasOneLive : HasOneLive []
empty-HasOneLive = record { at = λ f. omega arith }

-- A login, and a refresh with the token that it gave.
abbrev alone : State db
alone = record nobody { users = ann ∷ [] }

abbrev logged_in : State db
logged_in = (issue_token_pair config db ann meta fresh alone).1

refreshed :
    (rotate_refresh_token config db "r2" meta later logged_in).0 ≡ ok (token_pair config ann later)
unfolding issue_token_pair issue_token_pair_in_family rotate_refresh_token rotate_found rotate_valid
    commit_rotation token_pair new_token
refreshed = refl

Reach-HasOneLive_example :
    HasOneLive (db.tokens.rows (rotate_refresh_token config db "r2" meta later logged_in).1.tokens)
Reach-HasOneLive_example =
    Reach-HasOneLive config db
      (next (next here (login ann meta fresh refl)) (refresh "r2" meta later)) empty-HasOneLive

rotate_refresh_token-replayed_example :
    ((rotate_refresh_token config db "r1" meta later rotated).0 ≡ err token_reused)
    × (count
          (live "f1")
          (db.tokens.rows (rotate_refresh_token config db "r1" meta later rotated).1.tokens)
        ≡ 0)
unfolding rotate_refresh_token rotate_found rotate_valid commit_rotation token_pair new_token
rotate_refresh_token-replayed_example =
    rotate_refresh_token-replayed config db "r1" meta meta fresh later stored rotated token
      (token_pair config ann fresh) refl refl here

abbrev input : CreateUserInput
input = record {
  email = b'A' ∷ b'@' ∷ b'x' ∷ [];
  password_hash = "h";
  first_name = "A";
  last_name = "B";
}

abbrev payload : AccessTokenPayload
payload = record { sub = "u1"; email = ann.email; role = admin }

abbrev ann_off : User
ann_off = record ann { is_active = false; updated_at = 9 }

deactivate-locks_out_example :
    ((rotate_refresh_token config db "r1" meta fresh (deactivate db "u1" 9 stored).1).0
      ≢ ok (token_pair config ann fresh))
    × (validate_payload config checks db payload (deactivate db "u1" 9 stored).1
        ≡ err account_inactive)
unfolding deactivate update_user find_by_id_or_throw
deactivate-locks_out_example =
    deactivate-locks_out config checks db "u1" 9 stored ann_off "r1" meta fresh token
      (token_pair config ann fresh) payload refl refl refl refl refl

serve-is_administrative_example :
    (serve config checks db payload (assign_role "u1" as_applicant) 5 stored
      ≡ (unauthorized, stored))
    ⊎ (serve config checks db payload (assign_role "u1" as_applicant) 5 stored
        ≡ (forbidden, stored))
serve-is_administrative_example =
    serve-is_administrative config checks db payload (assign_role "u1" as_applicant) 5 stored ann
      refl refl refl

rotate_found_twice_example :
    2
    ≤ count (live "f1") (
        db.tokens.rows
          (rotate_found config db token meta later
            (rotate_found config db token meta fresh stored).1).1.tokens)
unfolding rotate_found rotate_valid commit_rotation token_pair new_token
rotate_found_twice_example =
    rotate_found_twice config db token meta meta fresh later stored (token_pair config ann fresh)
      (token_pair config ann later) refl refl refl
