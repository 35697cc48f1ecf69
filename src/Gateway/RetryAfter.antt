-- ===== src/Gateway/RetryAfter.antt =====
-- The answer to a refused request: when the next one is let through.
use oneandro_clone.Prelude.{
  ℕ, ◌+◌, ◌-◌, ◌≤◌, ◌<◌, String, ◌≡◌, refl, sym, ◌∙◌, inl, inr, true, false, some, List, [], ◌∷◌,
  arith, ltb, leb, eqb, count, filter, All, Option-cases,
}
use oneandro_clone.Gateway.RateLimit.{Entry, SortedSets, retry_after, decide_window, sliding_window}
use oneandro_clone.Gateway.Window.{
  is_recent, in_window, Tracks, pruned, entries-pruned, prune-same, zcard-pruned, pruned-Tracks,
}
use oneandro_clone.Gateway.Limit.{Run, Run-Tracks}

-- With the oldest entry `m` of a set: every entry is recent before `m` is out, and then `m` is not.
before_out :
    (window m t : ℕ) (es : List Entry)
    → t < m + window
    → count (λ x. ltb x.0 m) es ≡ 0
    → count (λ e. is_recent window t e.0) es ≡ count (λ e. true) es
before_out window m t [] h low = refl
before_out window m t (e ∷ es) h low = ground (arith, before_out window m t es)

some_out :
    (window m t : ℕ) (es : List Entry)
    → m + window ≤ t
    → count (λ e. is_recent window t e.0) es + count (λ x. eqb x.0 m) es ≤ count (λ e. true) es
some_out window m t [] h = omega arith
some_out window m t (e ∷ es) h = ground (arith, some_out window m t es)

All-in_window :
    (window t : ℕ) (xs : List ℕ)
    → All (λ s. s ≤ t) xs
    → count (is_recent window t) xs ≡ count (in_window window t) xs
All-in_window window t [] h = refl
All-in_window window t (x ∷ xs) h = ground (arith, All-in_window window t xs h.1)

kept_after :
    (a m : ℕ) (es : List Entry) → 0 < count (λ x. eqb x.0 m) (filter (λ e. ltb a e.0) es) → a < m
kept_after a m [] h = absurd (omega arith)
kept_after a m (e ∷ es) h = ground (arith, kept_after a m es)

module _ (R : SortedSets) (key : String) (window limit : ℕ) {clock : ℕ} {accepted : List ℕ}
    {d : R.Db} (now : ℕ) (v : Tracks R key window limit clock accepted d) (later : clock ≤ now)
    (era : window ≤ now) where
  abbrev left : R.Db
  left = pruned R key window now d

  full-le : R.zcard key left ≤ limit
  full-le = ground (
    arith,
    zcard-pruned R key window limit clock accepted d v now later era,
    All-in_window window now accepted
        (pruned-Tracks R key window limit clock accepted d v now later era).past,
    v.bounded now,
  )

  zcard-later :
      (t : ℕ)
      → now ≤ t
      → R.zcard key (pruned R key window t left)
        ≡ count (λ e. is_recent window t e.0) (R.entries left key)
  zcard-later t le =
      zcard-pruned R key window limit now accepted left
        (pruned-Tracks R key window limit clock accepted d v now later era) t le (omega arith)
      ∙ sym (prune-same R key window limit clock accepted d v now later era t le)

  oldest-recent :
      (e : Entry) → 0 < count (λ x. eqb x.0 e.0) (R.entries left key) → now < e.0 + window
  oldest-recent e h =
      let kept : 0
          < count (λ x. eqb x.0 e.0)
              (filter (λ x. ltb (now - window) x.0) (R.entries (R.wait now d) key)) =
        rw (entries-pruned R key window limit clock accepted d v now later era) at h in
      omega (arith, kept_after (now - window) e.0 (R.entries (R.wait now d) key) kept)

  room-later :
      (t : ℕ) (e : Entry)
      → now ≤ t
      → 0 < limit
      → ltb (R.zcard key left) limit ≡ false
      → R.zrange_first key left ≡ some e
      → ltb (R.zcard key (pruned R key window t left)) limit ≡ leb (now + ((e.0 + window) - now)) t
  room-later t e le some_limit full oldest =
      let (there, low) = R.zrange_first-some key left e oldest in
      ground (
        arith,
        zcard-later t le,
        full-le,
        oldest-recent e there,
        R.zcard-count key left,
        before_out window e.0 t (R.entries left key),
        some_out window e.0 t (R.entries left key),
      )

module _ (R : SortedSets) (key : String) (window limit : ℕ) where
  allowed-zcard :
      (now : ℕ) (member : String) (d : R.Db)
      → (sliding_window R key now window limit member d).0.allowed
        ≡ ltb (R.zcard key (pruned R key window now d)) limit
  unfolding sliding_window decide_window
  allowed-zcard now member d = ground arith

  refused-left :
      (now : ℕ) (member : String) (d : R.Db)
      → (sliding_window R key now window limit member d).0.allowed ≡ false
      → ((sliding_window R key now window limit member d).1 ≡ pruned R key window now d)
        × ((sliding_window R key now window limit member d).0.retry_after_ms
            ≡ retry_after (R.zrange_first key (pruned R key window now d)) now window)
  unfolding sliding_window decide_window
  refused-left now member d h = ground arith

  -- A refused request is told exactly how long to wait: until `retry_after_ms` have passed, the next
  -- request of the key is refused, and from then on it is let through, if none comes in between and
  -- the limit is not 0.
  pub retry_after_ms_exact :
      {clock : ℕ} {accepted : List ℕ} {d : R.Db} (now t : ℕ) (member member' : String)
      → Run R key window limit clock accepted d
      → clock ≤ now
      → window ≤ now
      → now ≤ t
      → 0 < limit
      → (sliding_window R key now window limit member d).0.allowed ≡ false
      → (sliding_window R key t window limit member'
          (sliding_window R key now window limit member d).1).0.allowed
        ≡ leb (now + (sliding_window R key now window limit member d).0.retry_after_ms) t
  retry_after_ms_exact {clock} {accepted} {d} now t member member' r later era le some_limit
        refused =
      let v = Run-Tracks R key window limit r in
      let full = sym (allowed-zcard now member d) ∙ refused in
      let (same, told) = refused-left now member d refused in
      elim (Option-cases (R.zrange_first key (pruned R key window now d))) [
        | inl nobody ↦ absurd (
            ground (
              arith,
              R.zrange_first-none key (pruned R key window now d),
              R.zcard-count key (pruned R key window now d),
            ))
        | inr (e, oldest) ↦
            rw (same, told, oldest, allowed-zcard)
              (room-later R key window limit now v later era t e le some_limit full oldest)
      ]
