-- ===== src/Users/Replay.antt =====
-- Refresh tokens over any sequence of calls: one live token to a family, and a token that was
-- rotated away never works again.
use oneandro_clone.Prelude.{
  String, ◌≡◌, refl, ap, ◌∙◌, inl, inr, Bool, true, false, not, ◌&&◌, some, List, [], ◌∷◌, ◌++◌,
  arith, any, find, count, map_where, ◌==◌, eq_refl, if◌then◌else◌, find-append, find-map_where_if,
  count-map_where_zero,
}
use oneandro_clone.Users.{User, RefreshToken, UserDb, State, Result, ok, err, token_reused}
use oneandro_clone.Users.Tokens.{
  TokenMeta, TokenConfig, Fresh, TokenPair, has_hash, in_family, revoke, replace_by, new_token,
  issue_token_pair, revoke_family, revoke_token, revoke_all_for_user, rotate_found,
  rotate_refresh_token,
}
use oneandro_clone.Users.Families.{
  live, Change, kept, withdrawn, issued, rotated, HasOneLive, Change-HasOneLive, rotate_found_cases,
  issue_token_pair-Change, revoke_token-Change, revoke_all_for_user-Change,
  rotate_refresh_token-Change,
}

-- The token with this hash is revoked, and belongs to the family.
pub record IsRevoked (h f : String) (xs : List RefreshToken) : Type 0 where
  pub token : RefreshToken
  pub stored : find (has_hash h) xs ≡ some token
  pub revoked : token.revoked ≡ true
  pub family : token.family ≡ f

-- A change of the rows that keeps the hashes and the families and revokes some tokens.
module _ (h f : String) (p : RefreshToken → Bool) (g : RefreshToken → RefreshToken)
    (xs : List RefreshToken) (hashes : (y : RefreshToken) → has_hash h (g y) ≡ has_hash h y)
    (families : (y : RefreshToken) → (g y).family ≡ y.family)
    (revokes : (y : RefreshToken) → (g y).revoked ≡ true) where
  map_where-IsRevoked : IsRevoked h f xs → IsRevoked h f (map_where p g xs)
  map_where-IsRevoked r = record {
    token = if p r.token then g r.token else r.token;
    stored = find-map_where_if p (has_hash h) g xs r.token hashes r.stored;
    revoked = ground (arith, r.revoked, revokes r.token);
    family = ground (arith, r.family, families r.token);
  }

append-IsRevoked :
    (h f : String) (xs ys : List RefreshToken) → IsRevoked h f xs → IsRevoked h f (xs ++ ys)
append-IsRevoked h f xs ys r = record {
  token = r.token;
  stored = rw (find-append, r.stored);
  revoked = r.revoked;
  family = r.family;
}

Change-IsRevoked :
    (h f : String) (xs ys : List RefreshToken) → Change xs ys → IsRevoked h f xs → IsRevoked h f ys
Change-IsRevoked h f xs ys (kept e) r = rw e r
Change-IsRevoked h f xs ys (withdrawn p e) r =
    rw e (map_where-IsRevoked h f p revoke xs (λ y. refl) (λ y. refl) (λ y. refl) r)
Change-IsRevoked h f xs ys (issued t fresh e) r = rw e (append-IsRevoked h f xs (t ∷ []) r)
Change-IsRevoked h f xs ys (rotated presented hash old t found alive family e) r = rw e (
    append-IsRevoked h f _ (t ∷ []) (
      map_where-IsRevoked h f (λ r. r.id == old.id) (replace_by hash) xs (λ y. refl) (λ y. refl)
        (λ y. refl) r))

module _ (c : TokenConfig) (P : UserDb) where
  abbrev pub token_rows : State P → List RefreshToken
  token_rows s = P.tokens.rows s.tokens

  -- One call of the token service, successful or not, or any other request, which leaves the table of
  -- tokens alone. The family of a login is new.
  pub data Step (s : State P) : State P → Type 0 where
    login :
        (user : User) (meta : TokenMeta) (new : Fresh)
        → any (in_family new.family) (token_rows s) ≡ false
        → Step s (issue_token_pair c P user meta new s).1
    refresh :
        (raw : String) (meta : TokenMeta) (new : Fresh)
        → Step s (rotate_refresh_token c P raw meta new s).1
    logout : (raw : String) → Step s (revoke_token c P raw s)
    logout_all : (user_id : String) → Step s (revoke_all_for_user c P user_id s)
    other : (t : State P) → t.tokens ≡ s.tokens → Step s t

  pub data Reach (s : State P) : State P → Type 0 where
    here : Reach s s
    next : {t u : State P} → Reach s t → Step t u → Reach s u

  Step-Change : (s : State P) {t : State P} → Step s t → Change (token_rows s) (token_rows t)
  Step-Change s (login user meta new fresh) = issue_token_pair-Change c P s user meta new fresh
  Step-Change s (refresh raw meta new) = rotate_refresh_token-Change c P s raw meta new
  Step-Change s (logout raw) = revoke_token-Change c P s raw
  Step-Change s (logout_all user_id) = revoke_all_for_user-Change c P s user_id
  Step-Change s (other t e) = kept (ap P.tokens.rows e)

  -- After any sequence of logins, refreshes, logouts and other requests, every family of refresh
  -- tokens has at most one token that is not revoked, if it was so before, and if the id of the family
  -- that each login makes up is not that of a token that was there.
  pub Reach-HasOneLive :
      {s t : State P} → Reach s t → HasOneLive (token_rows s) → HasOneLive (token_rows t)
  Reach-HasOneLive here v = v
  Reach-HasOneLive (next {t} {u} r st) v =
      Change-HasOneLive (token_rows t) (token_rows u) (Step-Change t st) (Reach-HasOneLive r v)

  Reach-IsRevoked :
      (h f : String) {s t : State P}
      → Reach s t
      → IsRevoked h f (token_rows s)
      → IsRevoked h f (token_rows t)
  Reach-IsRevoked h f here v = v
  Reach-IsRevoked h f (next {t} {u} r st) v =
      Change-IsRevoked h f (token_rows t) (token_rows u) (Step-Change t st)
        (Reach-IsRevoked h f r v)

  rotate-reused :
      (raw : String) (meta : TokenMeta) (new : Fresh) (s : State P) (t : RefreshToken)
      → find (has_hash (c.hash_token raw)) (token_rows s) ≡ some t
      → t.revoked ≡ true
      → rotate_refresh_token c P raw meta new s ≡ (err token_reused, revoke_family c P t.family s)
  unfolding rotate_refresh_token rotate_found
  rotate-reused raw meta new s t stored revoked =
      let found = P.tokens.find_unique-rows (has_hash (c.hash_token raw)) s.tokens ∙ stored in
      rw (found, rotate_refresh_token) (rw revoked)

  family_gone :
      (g f : String) (s : State P) → g ≡ f → count (live f) (token_rows (revoke_family c P g s)) ≡ 0
  unfolding revoke_family
  family_gone g f s e =
      rw (e, P.tokens.rows-update_many)
        (count-map_where_zero (λ t. in_family f t && not t.revoked) (live f) revoke (token_rows s)
          (λ y h. ground arith) (λ y h. h))

  -- A revoked token that is presented: the call fails, and nothing of its family is live after it.
  rotate_revoked :
      (raw f : String) (meta : TokenMeta) (new : Fresh) (s : State P)
      → IsRevoked (c.hash_token raw) f (token_rows s)
      → ((rotate_refresh_token c P raw meta new s).0 ≡ err token_reused)
        × (count (live f) (token_rows (rotate_refresh_token c P raw meta new s).1) ≡ 0)
  rotate_revoked raw f meta new s v =
      rw (rotate-reused raw meta new s v.token v.stored v.revoked)
        (refl, family_gone v.token.family f s v.family)

  rotated_away :
      (raw : String) (old : RefreshToken) (meta : TokenMeta) (new : Fresh) (s : State P)
      (pair : TokenPair)
      → find (has_hash (c.hash_token raw)) (token_rows s) ≡ some old
      → (rotate_found c P old meta new s).0 ≡ ok pair
      → IsRevoked (c.hash_token raw) old.family (token_rows (rotate_found c P old meta new s).1)
  rotated_away raw old meta new s pair found h = elim (rotate_found_cases c P s old meta new) [
    | inl (used, out) ↦ cc (ap (λ (o : Result TokenPair × State P). o.0) out)
    | inr (inl (e, alive, failed, same)) ↦ cc
    | inr (inr (user, alive, fresh, there, active, done, rows)) ↦ rw rows (
        append-IsRevoked (c.hash_token raw) old.family _
          (new_token c old.user_id old.family meta new ∷ [])
          (record {
            token = replace_by (c.hash_token new.raw_token) old;
            stored =
                find-map_where_if (λ r. r.id == old.id) (has_hash (c.hash_token raw))
                  (replace_by (c.hash_token new.raw_token)) (token_rows s) old (λ y. refl) found
                ∙ rw eq_refl;
            revoked = refl;
            family = refl;
          }))
  ]

  -- The rotation of a token leaves it revoked.
  rotate-IsRevoked :
      (raw : String) (meta : TokenMeta) (new : Fresh) (s : State P) (old : RefreshToken)
      (pair : TokenPair)
      → find (has_hash (c.hash_token raw)) (token_rows s) ≡ some old
      → (rotate_refresh_token c P raw meta new s).0 ≡ ok pair
      → IsRevoked
          (c.hash_token raw)
          old.family
          (token_rows (rotate_refresh_token c P raw meta new s).1)
  unfolding rotate_refresh_token
  rotate-IsRevoked raw meta new s old pair stored h =
      let found = P.tokens.find_unique-rows (has_hash (c.hash_token raw)) s.tokens ∙ stored in
      rw (found, rotate_refresh_token)
        (rotated_away raw old meta new s pair stored (rw (found, rotate_refresh_token) at h))

  -- A refresh token that was rotated away never works again: whatever is called in between, presenting
  -- it fails with the error of reuse, and leaves no live token in its family.
  pub rotate_refresh_token-replayed :
      (raw : String) (meta meta' : TokenMeta) (new new' : Fresh) (s t : State P)
      (old : RefreshToken) (pair : TokenPair)
      → find (has_hash (c.hash_token raw)) (token_rows s) ≡ some old
      → (rotate_refresh_token c P raw meta new s).0 ≡ ok pair
      → Reach (rotate_refresh_token c P raw meta new s).1 t
      → ((rotate_refresh_token c P raw meta' new' t).0 ≡ err token_reused)
        × (count (live old.family) (token_rows (rotate_refresh_token c P raw meta' new' t).1) ≡ 0)
  rotate_refresh_token-replayed raw meta meta' new new' s t old pair stored done r =
      rotate_revoked raw old.family meta' new' t (
        Reach-IsRevoked (c.hash_token raw) old.family r
          (rotate-IsRevoked raw meta new s old pair stored done))
