-- ===== src/Users/Families.antt =====
-- How the calls of the token service change the table of refresh tokens, and that each family keeps
-- at most one token that is not revoked.
use oneandro_clone.Prelude.{
  ◌≤◌, String, ◌≡◌, refl, sym, ap, ◌∙◌, ◌⊎◌, inl, inr, Bool, true, false, not, ◌&&◌, Option, none,
  some, List, [], ◌∷◌, ◌++◌, arith, any, find, count, map_where, ◌==◌, eq_iff, eq_refl, ltb,
  Bool-cases, Option-cases, count-append, count-none_of_any, count-map_where, count-map_where_lt,
}
use oneandro_clone.Users.{
  User, RefreshToken, UserDb, State, UserError, Result, ok, err, token_reused, token_expired,
  account_disabled, database_failure,
}
use oneandro_clone.Users.Accounts.{user_has_id}
use oneandro_clone.Users.Tokens.{
  TokenMeta, TokenConfig, Fresh, TokenPair, has_hash, in_family, revoke, new_token, replace_by,
  token_pair, issue_token_pair, issue_token_pair_in_family, revoke_family, revoke_token,
  revoke_all_for_user, commit_rotation, rotate_valid, rotate_found, rotate_refresh_token,
}

-- A token of the family that is not revoked.
abbrev pub live : String → RefreshToken → Bool
live f t = in_family f t && not t.revoked

-- What one call may do to the rows.
pub data Change (xs ys : List RefreshToken) : Type 0 where
  kept : ys ≡ xs → Change xs ys
  withdrawn : (p : RefreshToken → Bool) → ys ≡ map_where p revoke xs → Change xs ys
  issued :
      (t : RefreshToken) → any (in_family t.family) xs ≡ false → ys ≡ xs ++ t ∷ [] → Change xs ys
  rotated :
      (presented hash : String) (old t : RefreshToken)
      → find (has_hash presented) xs ≡ some old
      → old.revoked ≡ false
      → t.family ≡ old.family
      → ys ≡ map_where (λ r. r.id == old.id) (replace_by hash) xs ++ t ∷ []
      → Change xs ys

-- Each family has at most one token that is not revoked.
pub record HasOneLive (xs : List RefreshToken) : Type 0 where
  pub at : (f : String) → count (live f) xs ≤ 1

live-in_family : (f : String) (t : RefreshToken) → live f t ≡ true → in_family f t ≡ true
live-in_family f t h = ground arith

-- A token that is issued in a family of its own.
issued-le-one :
    (xs : List RefreshToken) (t : RefreshToken) (f : String)
    → any (in_family t.family) xs ≡ false
    → count (live f) xs ≤ 1
    → count (live f) (xs ++ t ∷ []) ≤ 1
issued-le-one xs t f fresh h = elim (Bool-cases (t.family == f)) [
  | inr other ↦ rw count-append (ground arith)
  | inl same ↦ rw (count-append, none_live ((eq_iff t.family f).0 same)) (ground arith)
]
  where
    none_live : t.family ≡ f → count (live f) xs ≡ 0
    none_live e = count-none_of_any (live f) (in_family f) xs (live-in_family f) (rw (← e) fresh)

-- A rotation revokes the live token that was presented, and adds one of the same family.
rotated-le-one :
    (xs : List RefreshToken) (presented hash f : String) (old t : RefreshToken)
    → find (has_hash presented) xs ≡ some old
    → old.revoked ≡ false
    → t.family ≡ old.family
    → count (live f) xs ≤ 1
    → count (live f) (map_where (λ r. r.id == old.id) (replace_by hash) xs ++ t ∷ []) ≤ 1
rotated-le-one xs presented hash f old t found alive family h =
    rw count-append (elim (Bool-cases (old.family == f)) [
      | inr other ↦ ground (
        arith,
        ap (λ g. g == f) family,
        count-map_where (λ r. r.id == old.id) (live f) (replace_by hash) xs (λ x e. ground arith),
      )
      | inl same ↦ ground (
        arith,
        eq_refl old.id,
        count-map_where_lt (λ r. r.id == old.id) (live f) (has_hash presented) (replace_by hash) xs
            old (λ y. ground arith) found,
      )
    ])

pub Change-HasOneLive : (xs ys : List RefreshToken) → Change xs ys → HasOneLive xs → HasOneLive ys
Change-HasOneLive xs ys (kept e) v = record { at = λ f. rw e (v.at f) }
Change-HasOneLive xs ys (withdrawn p e) v = record {
  at =
      λ f. rw e (omega (arith, v.at f, count-map_where p (live f) revoke xs (λ x h. ground arith)));
}
Change-HasOneLive xs ys (issued t fresh e) v = record {
  at = λ f. rw e (issued-le-one xs t f fresh (v.at f));
}
Change-HasOneLive xs ys (rotated presented hash old t found alive family e) v = record {
  at = λ f. rw e (rotated-le-one xs presented hash f old t found alive family (v.at f));
}

module _ (c : TokenConfig) (P : UserDb) (s : State P) where
  abbrev rows_of : State P → List RefreshToken
  rows_of t = P.tokens.rows t.tokens

  abbrev before : List RefreshToken
  before = rows_of s

  -- The family of a new login is in no row yet.
  pub issue_token_pair-Change :
      (user : User) (meta : TokenMeta) (new : Fresh)
      → any (in_family new.family) before ≡ false
      → Change before (rows_of (issue_token_pair c P user meta new s).1)
  unfolding issue_token_pair issue_token_pair_in_family
  issue_token_pair-Change user meta new fresh =
      let t = new_token c user.id new.family meta new in
      elim (Bool-cases (P.tokens.create t s.tokens).0) [
        | inr refused ↦
            kept
              (ground (arith, P.tokens.rows-create t s.tokens, P.tokens.create-written t s.tokens))
        | inl written ↦
            issued t (unfold new_token in fresh)
              (ground (arith, P.tokens.rows-create t s.tokens, P.tokens.create-written t s.tokens))
      ]

  pub revoke_family-Change : (f : String) → Change before (rows_of (revoke_family c P f s))
  unfolding revoke_family
  revoke_family-Change f = withdrawn _ (P.tokens.rows-update_many _ revoke s.tokens)

  pub revoke_token-Change : (raw : String) → Change before (rows_of (revoke_token c P raw s))
  unfolding revoke_token
  revoke_token-Change raw = withdrawn _ (P.tokens.rows-update_many _ revoke s.tokens)

  pub revoke_all_for_user-Change :
      (user_id : String) → Change before (rows_of (revoke_all_for_user c P user_id s))
  unfolding revoke_all_for_user
  revoke_all_for_user-Change user_id = withdrawn _ (P.tokens.rows-update_many _ revoke s.tokens)

  -- A rotation is committed as a whole, or not at all.
  commit_cases :
      (user : User) (new : Fresh) (t : RefreshToken) (u : Option RefreshToken × P.tokens.Db)
      → (((commit_rotation c P user new t u s).0 ≡ err database_failure)
          × ((commit_rotation c P user new t u s).1 ≡ s))
        ⊎ (((commit_rotation c P user new t u s).0 ≡ ok (token_pair c user new))
            × (rows_of (commit_rotation c P user new t u s).1 ≡ P.tokens.rows u.1 ++ t ∷ []))
  unfolding commit_rotation
  commit_cases user new t (none, d) = inl (refl, refl)
  commit_cases user new t (some old, d) = elim (Bool-cases (P.tokens.create t d).0) [
    | inr refused ↦ inl (ground (arith, P.tokens.create-written t d))
    | inl written ↦ inr (ground (arith, P.tokens.create-written t d, P.tokens.rows-create t d))
  ]

  -- What a rotation may end in, given the row of the token that was presented.
  abbrev pub RotateCases : RefreshToken → Fresh → TokenMeta → Result TokenPair × State P → Type 0
  RotateCases old new meta out =
      ((old.revoked ≡ true) × (out ≡ (err token_reused, revoke_family c P old.family s)))
      ⊎ (((e : UserError) × (old.revoked ≡ false) × (out.0 ≡ err e) × (out.1 ≡ s))
          ⊎ ((user : User) × (old.revoked ≡ false)
              × (new.checked_at ≤ old.expires_at)
              × (find (user_has_id old.user_id) (P.users.rows s.users) ≡ some user)
              × (user.is_active ≡ true)
              × (out.0 ≡ ok (token_pair c user new))
              × (rows_of out.1
                  ≡ map_where (λ r. r.id == old.id) (replace_by (c.hash_token new.raw_token)) before
                    ++ new_token c old.user_id old.family meta new ∷ [])))

  rotate_active_cases :
      (old : RefreshToken) (meta : TokenMeta) (new : Fresh) (user : User)
      → old.revoked ≡ false
      → new.checked_at ≤ old.expires_at
      → find (user_has_id old.user_id) (P.users.rows s.users) ≡ some user
      → user.is_active ≡ true
      → RotateCases old new meta (
          commit_rotation c P user new
            (new_token c old.user_id old.family meta new)
            (P.tokens.update
              (λ t. t.id == old.id)
              (replace_by (c.hash_token new.raw_token))
              s.tokens)
            s)
  rotate_active_cases old meta new user alive fresh found active =
      elim (commit_cases user new (new_token c old.user_id old.family meta new) (
        P.tokens.update (λ t. t.id == old.id) (replace_by (c.hash_token new.raw_token)) s.tokens)) [
          | inl (failed, same) ↦ inr (inl (database_failure, alive, failed, same))
          | inr (done, rows) ↦
              inr (inr (user, alive, fresh, found, active, done, rw P.tokens.rows-update at rows))
        ]

  rotate_found_active :
      (old : RefreshToken) (meta : TokenMeta) (new : Fresh) (user : User)
      → old.revoked ≡ false
      → ltb old.expires_at new.checked_at ≡ false
      → P.users.find_unique (user_has_id old.user_id) s.users ≡ some user
      → user.is_active ≡ true
      → rotate_found c P old meta new s
        ≡ commit_rotation c P user new
            (new_token c old.user_id old.family meta new)
            (P.tokens.update
              (λ t. t.id == old.id)
              (replace_by (c.hash_token new.raw_token))
              s.tokens)
            s
  unfolding rotate_found rotate_valid
  rotate_found_active old meta new user alive fresh found active = ground arith

  pub rotate_found_cases :
      (old : RefreshToken) (meta : TokenMeta) (new : Fresh)
      → RotateCases old new meta (rotate_found c P old meta new s)
  unfolding rotate_found rotate_valid
  rotate_found_cases old meta new = elim (Bool-cases old.revoked) [
    | inl used ↦ inl (used, rw (used, rotate_found))
    | inr alive ↦ elim (Bool-cases (ltb old.expires_at new.checked_at)) [
      | inl late ↦ inr (inl (token_expired, alive, ground arith, ground arith))
      | inr fresh ↦ elim (Option-cases (P.users.find_unique (user_has_id old.user_id) s.users)) [
        | inl missing ↦ inr (inl (database_failure, alive, ground arith, ground arith))
        | inr (user, found) ↦ elim (Bool-cases user.is_active) [
          | inr disabled ↦ inr (inl (account_disabled, alive, ground arith, ground arith))
          | inl active ↦ rw (rotate_found_active old meta new user alive fresh found active) (
              rotate_active_cases old meta new user alive (ground arith)
                (sym (P.users.find_unique-rows _ s.users) ∙ found) active)
        ]
      ]
    ]
  ]

  pub rotate_refresh_token-Change :
      (raw : String) (meta : TokenMeta) (new : Fresh)
      → Change before (rows_of (rotate_refresh_token c P raw meta new s).1)
  unfolding rotate_refresh_token
  rotate_refresh_token-Change raw meta new =
      elim (Option-cases (P.tokens.find_unique (has_hash (c.hash_token raw)) s.tokens)) [
        | inl missing ↦ rw (missing, rotate_refresh_token) (kept refl)
        | inr (old, found) ↦
            rw (found, rotate_refresh_token)
              (elim (rotate_found_cases old meta new) [
                | inl (used, out) ↦ rw out (revoke_family-Change old.family)
                | inr (inl (e, alive, failed, same)) ↦ rw same (kept refl)
                | inr (inr (user, alive, fresh, there, active, done, rows)) ↦
                    rotated (c.hash_token raw) (c.hash_token new.raw_token) old
                      (new_token c old.user_id old.family meta new)
                      (sym (P.tokens.find_unique-rows _ s.tokens) ∙ found) alive
                      (unfold new_token in refl) rows
              ])
      ]
