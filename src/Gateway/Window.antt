-- ===== src/Gateway/Window.antt =====
-- The window of the rate limiter at any instant.
use mathlib.Core.Path.{subst}
use oneandro_clone.Prelude.{
  ℕ, ◌+◌, ◌-◌, ◌≤◌, String, ◌≡◌, refl, sym, ◌∙◌, inl, inr, Bool, true, ◌&&◌, some, List, [], ◌∷◌,
  arith, ltb, leb, count, filter, All, ◌==◌, eq_refl, Bool-cases, Option-cases,
}
use oneandro_clone.Gateway.RateLimit.{Entry, SortedSets}

-- Later than `window` before `now`.
abbrev pub is_recent : ℕ → ℕ → ℕ → Bool
is_recent window now s = ltb now (s + window)

-- In the window of this length that ends at `t`.
abbrev pub in_window : ℕ → ℕ → ℕ → Bool
in_window window t s = is_recent window t s && leb s t

count-filter :
    (q p : Entry → Bool) (xs : List Entry) → count q (filter p xs) ≡ count (λ e. q e && p e) xs
count-filter q p [] = refl
count-filter q p (x ∷ xs) = ground (arith, count-filter q p xs)

module _ {A : Type 0} where
  pub count-le :
      (p q : A → Bool) (xs : List A) → ((x : A) → p x ≡ true → q x ≡ true) → count p xs ≤ count q xs
  count-le p q [] h = omega arith
  count-le p q (x ∷ xs) h = ground (arith, h x, count-le p q xs h)

  pub count-ext : (p q : A → Bool) (xs : List A) → ((x : A) → p x ≡ q x) → count p xs ≡ count q xs
  count-ext p q [] h = refl
  count-ext p q (x ∷ xs) h = ground (arith, h x, count-ext p q xs h)

-- The server and the instants at which requests of this key were accepted, up to the instant `clock`.
pub record Tracks (R : SortedSets) (key : String) (window limit clock : ℕ) (accepted : List ℕ)
    (d : R.Db) : Type 0 where
  -- for every later instant, the set holds what was accepted recently
  pub same :
      (now : ℕ)
      → clock ≤ now
      → count (λ e. is_recent window now e.0) (R.entries d key)
        ≡ count (is_recent window now) accepted
  pub past : All (λ s. s ≤ clock) accepted
  pub kept : (t : ℕ) → R.deadline d key ≡ some t → All (λ s. s + window ≤ t) accepted
  pub bounded : (t : ℕ) → count (in_window window t) accepted ≤ limit

All-old :
    (window t : ℕ) (xs : List ℕ)
    → All (λ s. s + window ≤ t) xs
    → (now : ℕ) → t ≤ now
    → count (is_recent window now) xs ≡ 0
All-old window t [] h now le = refl
All-old window t (x ∷ xs) h now le = ground (arith, All-old window t xs h.1 now le)

All-le_of_le : (a b : ℕ) (xs : List ℕ) → a ≤ b → All (λ s. s ≤ a) xs → All (λ s. s ≤ b) xs
All-le_of_le a b [] le h = tt
All-le_of_le a b (x ∷ xs) le h = (omega arith, All-le_of_le a b xs le h.1)

All-add_window :
    (window a : ℕ) (xs : List ℕ) → All (λ s. s ≤ a) xs → All (λ s. s + window ≤ a + window) xs
All-add_window window a [] h = tt
All-add_window window a (x ∷ xs) h = (omega arith, All-add_window window a xs h.1)

-- The set before the decision of the script, and after a request that is let through.
abbrev pub pruned : (R : SortedSets) → String → ℕ → ℕ → R.Db → R.Db
pruned R key window now d = R.zremrangebyscore key (now - window) (R.wait now d)

abbrev pub added : (R : SortedSets) → String → ℕ → ℕ → R.Db → String → R.Db
added R key window now d member =
    R.pexpire key window now (R.zadd key now member (pruned R key window now d))

module _ (R : SortedSets) (key : String) (window limit clock : ℕ) (accepted : List ℕ) (d : R.Db)
    (v : Tracks R key window limit clock accepted d) (now : ℕ) (later : clock ≤ now)
    (era : window ≤ now) where
  -- Waiting may drop the key, but then nothing in it was recent.
  wait-same :
      (t : ℕ)
      → now ≤ t
      → count (λ e. is_recent window t e.0) (R.entries (R.wait now d) key)
        ≡ count (is_recent window t) accepted
  wait-same t le = elim (Option-cases (R.deadline d key)) [
    | inl never ↦ rw (R.entries-wait, never) (v.same t (omega arith))
    | inr (end, at) ↦ elim (Bool-cases (leb end now)) [
      | inl gone ↦
          rw (R.entries-wait, at, gone)
            (sym (All-old window end accepted (v.kept end at) t (ground arith)))
      | inr alive ↦ rw (R.entries-wait, at, alive) (v.same t (omega arith))
    ]
  ]

  wait-kept : (t : ℕ) → R.deadline (R.wait now d) key ≡ some t → All (λ s. s + window ≤ t) accepted
  wait-kept t h = v.kept t (ground (arith, R.deadline-wait now key d))

  recent_stays :
      (t s : ℕ) → now ≤ t → (is_recent window t s && ltb (now - window) s) ≡ is_recent window t s
  recent_stays t s le = ground arith

  pub entries-pruned :
      R.entries (pruned R key window now d) key
      ≡ filter (λ e. ltb (now - window) e.0) (R.entries (R.wait now d) key)
  entries-pruned = rw (R.entries-zremrangebyscore, eq_refl)

  pub prune-same :
      (t : ℕ)
      → now ≤ t
      → count (λ e. is_recent window t e.0) (R.entries (pruned R key window now d) key)
        ≡ count (is_recent window t) accepted
  prune-same t le =
      rw (entries-pruned, count-filter)
        (count-ext _ (λ e. is_recent window t e.0) (R.entries (R.wait now d) key)
            (λ e. recent_stays t e.0 le)
          ∙ wait-same t le)

  pub zcard-pruned : R.zcard key (pruned R key window now d) ≡ count (is_recent window now) accepted
  zcard-pruned =
      rw (R.zcard-count, entries-pruned, count-filter)
        (count-ext _ (λ e. is_recent window now e.0) (R.entries (R.wait now d) key)
            (λ e. ground arith)
          ∙ wait-same now (omega arith))

  prune-kept :
      (t : ℕ)
      → R.deadline (pruned R key window now d) key ≡ some t
      → All (λ s. s + window ≤ t) accepted
  prune-kept t h = elim (R.deadline-zremrangebyscore key key (now - window) (R.wait now d)) [
    | inl none_left ↦ cc
    | inr same ↦ wait-kept t (sym same ∙ h)
  ]

  pub pruned-Tracks : Tracks R key window limit now accepted (pruned R key window now d)
  pruned-Tracks = record {
    same = prune-same;
    past = All-le_of_le clock now accepted later v.past;
    kept = prune-kept;
    bounded = v.bounded;
  }

  bounded-add :
      ltb (R.zcard key (pruned R key window now d)) limit ≡ true
      → (t : ℕ) → count (in_window window t) (now ∷ accepted) ≤ limit
  bounded-add room t = elim (Bool-cases (leb now t)) [
    | inr before ↦ ground (arith, v.bounded t)
    | inl after ↦ ground (
      arith,
      zcard-pruned,
      count-le (in_window window t) (is_recent window now) accepted (λ s h. ground arith),
    )
  ]

  deadline-added :
      (member : String) → R.deadline (added R key window now d member) key ≡ some (now + window)
  deadline-added member = rw (R.deadline-pexpire, eq_refl)

  same_end : (t : ℕ) → some (now + window) ≡ some t → now + window ≡ t
  same_end t h = cc

  added_kept : (t : ℕ) → now + window ≡ t → All (λ s. s + window ≤ t) (now ∷ accepted)
  added_kept t e =
      subst (λ k. All (λ s. s + window ≤ k) (now ∷ accepted)) e
        (
          omega arith,
          All-add_window window now accepted (All-le_of_le clock now accepted later v.past),
        )

  pub added-Tracks :
      (member : String)
      → count (λ e. e.1 == member) (R.entries (pruned R key window now d) key) ≡ 0
      → ltb (R.zcard key (pruned R key window now d)) limit ≡ true
      → Tracks R key window limit now (now ∷ accepted) (added R key window now d member)
  added-Tracks member fresh room = record {
    same = λ t le.
        rw
          (
            R.entries-pexpire,
            R.count-zadd (λ e. is_recent window t e.0) key now member (pruned R key window now d)
                fresh,
          )
          (ground (arith, prune-same t le));
    past = (omega arith, All-le_of_le clock now accepted later v.past);
    kept = λ t h. added_kept t (same_end t (sym (deadline-added member) ∙ h));
    bounded = bounded-add room;
  }
