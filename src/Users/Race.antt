-- ===== src/Users/Race.antt =====
-- Two rotations of one refresh token that overlap: each reads the row of the token before the other has
-- written, since the read stands outside of the transaction.
use oneandro_clone.Prelude.{
  ◌≤◌, String, ◌≡◌, ap, inl, inr, true, false, List, [], ◌∷◌, ◌++◌, arith, map_where, count, ◌==◌,
  eq_refl, Bool,
}
use oneandro_clone.Users.{RefreshToken, UserDb, State, Result, ok}
use oneandro_clone.Users.Tokens.{
  TokenMeta, TokenPair, TokenConfig, Fresh, replace_by, new_token, rotate_found,
}
use oneandro_clone.Users.Families.{live, rotate_found_cases}

two_live :
    (f : String) (p : RefreshToken → Bool) (g : RefreshToken → RefreshToken)
    (xs : List RefreshToken) (a b : RefreshToken)
    → live f a ≡ true
    → p a ≡ false
    → live f b ≡ true
    → 2 ≤ count (live f) (map_where p g (xs ++ a ∷ []) ++ b ∷ [])
two_live f p g [] a b ha other hb = ground arith
two_live f p g (x ∷ xs) a b ha other hb = ground (arith, two_live f p g xs a b ha other hb)

module _ (c : TokenConfig) (P : UserDb) (old : RefreshToken) where
  rows-rotated :
      (meta : TokenMeta) (new : Fresh) (s : State P) (pair : TokenPair)
      → (rotate_found c P old meta new s).0 ≡ ok pair
      → P.tokens.rows (rotate_found c P old meta new s).1.tokens
        ≡ map_where
            (λ r. r.id == old.id)
            (replace_by (c.hash_token new.raw_token))
            (P.tokens.rows s.tokens)
          ++ new_token c old.user_id old.family meta new ∷ []
  rows-rotated meta new s pair h = elim (rotate_found_cases c P s old meta new) [
    | inl (used, out) ↦ cc (ap (λ (o : Result TokenPair × State P). o.0) out)
    | inr (inl (e, alive, failed, same)) ↦ cc
    | inr (inr (user, alive, fresh, there, active, done, rows)) ↦ rows
  ]

  live-new_token :
      (meta : TokenMeta) (new : Fresh)
      → live old.family (new_token c old.user_id old.family meta new) ≡ true
  unfolding new_token
  live-new_token meta new = ground (arith, eq_refl old.family)

  own_id :
      (meta : TokenMeta) (new : Fresh)
      → (new.token_id == old.id) ≡ false
      → ((new_token c old.user_id old.family meta new).id == old.id) ≡ false
  unfolding new_token
  own_id meta new h = h

  -- Two rotations of the same token that have both read its row, the second before the first has
  -- written, and that both succeed leave at least two live tokens in its family, if the id made up for
  -- the first is not that of the token itself.
  pub rotate_found_twice :
      (meta meta' : TokenMeta) (new new' : Fresh) (s : State P) (pair pair' : TokenPair)
      → (new.token_id == old.id) ≡ false
      → (rotate_found c P old meta new s).0 ≡ ok pair
      → (rotate_found c P old meta' new' (rotate_found c P old meta new s).1).0 ≡ ok pair'
      → 2
        ≤ count (live old.family) (
            P.tokens.rows
              (rotate_found c P old meta' new' (rotate_found c P old meta new s).1).1.tokens)
  rotate_found_twice meta meta' new new' s pair pair' other first second =
      rw
        (
          rows-rotated meta' new' (rotate_found c P old meta new s).1 pair' second,
          rows-rotated meta new s pair first,
        )
        (two_live old.family (λ r. r.id == old.id) (replace_by (c.hash_token new'.raw_token)) _
          (new_token c old.user_id old.family meta new)
          (new_token c old.user_id old.family meta' new') (live-new_token meta new)
          (own_id meta new other) (live-new_token meta' new'))
