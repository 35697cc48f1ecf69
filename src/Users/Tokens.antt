-- ===== src/Users/Tokens.antt =====
-- apps/user-service/src/auth/token.service.ts
use oneandro_clone.Prelude.{
  ℕ, ◌+◌, ltb, String, Bool, true, false, not, ◌&&◌, Option, none, some, ◌==◌, if◌then◌else◌,
}
use oneandro_clone.Common.{Role}
use oneandro_clone.Users.{
  User, role_of, RefreshToken, UserDb, State, Result, ok, err, invalid_token, token_reused,
  token_expired, account_disabled, database_failure,
}
use oneandro_clone.Users.Email.{Text}
use oneandro_clone.Users.Accounts.{user_has_id}

pub record TokenMeta : Type 0 where
  pub user_agent : Option String
  pub ip_address : Option String

pub record TokenPair : Type 0 where
  pub access_token : String
  pub refresh_token : String
  pub access_token_expires_in_ms : ℕ
  pub refresh_token_expires_in_ms : ℕ

-- What the service takes from node:crypto, from the JWT library and from its configuration.
pub record TokenConfig : Type 0 where
  pub hash_token : String → String
  pub sign_access_token : String → Text → Role → String
  pub access_ttl_ms : ℕ
  pub refresh_ttl_ms : ℕ

-- What one call makes up: the raw token, the id of its row, a family, and the instants at which the
-- old token is checked and the new one is written.
pub record Fresh : Type 0 where
  pub raw_token : String
  pub token_id : String
  pub family : String
  pub checked_at : ℕ
  pub issued_at : ℕ

abbrev pub has_hash : String → RefreshToken → Bool
has_hash h t = t.token_hash == h

abbrev pub in_family : String → RefreshToken → Bool
in_family f t = t.family == f

abbrev pub revoke : RefreshToken → RefreshToken
revoke t = record t { revoked = true }

abbrev pub replace_by : String → RefreshToken → RefreshToken
replace_by hash t = record t { revoked = true; replaced_by_token_hash = some hash }

module _ (c : TokenConfig) where
  unfoldable pub new_token : String → String → TokenMeta → Fresh → RefreshToken
  new_token user_id family meta new = record {
    id = new.token_id;
    user_id = user_id;
    token_hash = c.hash_token new.raw_token;
    family = family;
    revoked = false;
    replaced_by_token_hash = none;
    user_agent = meta.user_agent;
    ip_address = meta.ip_address;
    expires_at = new.issued_at + c.refresh_ttl_ms;
    created_at = new.issued_at;
  }

  unfoldable pub token_pair : User → Fresh → TokenPair
  token_pair user new = record {
    access_token = c.sign_access_token user.id user.email (role_of user.role);
    refresh_token = new.raw_token;
    access_token_expires_in_ms = c.access_ttl_ms;
    refresh_token_expires_in_ms = c.refresh_ttl_ms;
  }

  module _ (P : UserDb) where
    unfoldable pub issue_token_pair_in_family :
        User → String → TokenMeta → Fresh → State P → Result TokenPair × State P
    issue_token_pair_in_family user family meta new s =
        let (written, tokens') = P.tokens.create (new_token user.id family meta new) s.tokens in
        if written
        then (ok (token_pair user new), record s { tokens = tokens' })
        else (err database_failure, record s { tokens = tokens' })

    unfoldable pub issue_token_pair :
        User → TokenMeta → Fresh → State P → Result TokenPair × State P
    issue_token_pair user meta new s = issue_token_pair_in_family user new.family meta new s

    -- Tokens of the family that are revoked already stay as they are.
    unfoldable pub revoke_family : String → State P → State P
    revoke_family family s = record s {
      tokens = P.tokens.update_many (λ t. in_family family t && not t.revoked) revoke s.tokens;
    }

    unfoldable pub revoke_token : String → State P → State P
    revoke_token raw_token s = record s {
      tokens = P.tokens.update_many (has_hash (c.hash_token raw_token)) revoke s.tokens;
    }

    unfoldable pub revoke_all_for_user : String → State P → State P
    revoke_all_for_user user_id s = record s {
      tokens = P.tokens.update_many (λ t. t.user_id == user_id && not t.revoked) revoke s.tokens;
    }

    -- The transaction of a rotation, committed if both writes pass. The second write sees the first.
    unfoldable pub commit_rotation :
        User
        → Fresh
        → RefreshToken
        → Option RefreshToken × P.tokens.Db
        → State P
        → Result TokenPair × State P
    commit_rotation user new replacement (none, tokens') s = (err database_failure, s)
    commit_rotation user new replacement (some old, tokens') s =
        let (written, tokens'') = P.tokens.create replacement tokens' in
        if written
        then (ok (token_pair user new), record s { tokens = tokens'' })
        else (err database_failure, s)

    -- The end of `rotateRefreshToken`, for a token that is neither revoked nor expired. The row of its
    -- user is read with it; the foreign key promises that there is one.
    unfoldable pub rotate_valid :
        RefreshToken → Option User → TokenMeta → Fresh → State P → Result TokenPair × State P
    rotate_valid existing none meta new s = (err database_failure, s)
    rotate_valid existing (some user) meta new s =
        if not user.is_active
        then (err account_disabled, s)
        else commit_rotation user new (new_token existing.user_id existing.family meta new)
            (P.tokens.update (λ t. t.id == existing.id) (replace_by (c.hash_token new.raw_token))
              s.tokens)
            s

    -- The middle of it, for a token whose row was found.
    unfoldable pub rotate_found :
        RefreshToken → TokenMeta → Fresh → State P → Result TokenPair × State P
    rotate_found existing meta new s =
        if existing.revoked
        then (err token_reused, revoke_family existing.family s)
        else if ltb existing.expires_at new.checked_at
        then (err token_expired, s)
        else rotate_valid existing (P.users.find_unique (user_has_id existing.user_id) s.users) meta
            new s

    unfoldable pub rotate_refresh_token :
        String → TokenMeta → Fresh → State P → Result TokenPair × State P
    rotate_refresh_token raw_token meta new s =
        elim (P.tokens.find_unique (has_hash (c.hash_token raw_token)) s.tokens) [
          | none ↦ (err invalid_token, s)
          | some existing ↦ rotate_found existing meta new s
        ]
