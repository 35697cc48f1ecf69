-- ===== src/Gateway/Limit.antt =====
-- The rate limiter over any sequence of requests.
use oneandro_clone.Prelude.{
  ℕ, ◌≤◌, String, ◌≡◌, inl, inr, none, List, [], ◌∷◌, arith, ltb, count, ◌==◌, if◌then◌else◌,
  Bool-cases,
}
use oneandro_clone.Gateway.RateLimit.{SortedSets, decide_window, sliding_window}
use oneandro_clone.Gateway.Window.{in_window, Tracks, pruned, pruned-Tracks, added-Tracks}

module _ (R : SortedSets) (key : String) (window limit : ℕ) where
  -- A sequence of runs of the script from a server without this key: the instant of the last run, the
  -- instants at which requests of this key were accepted, the last one first, and the server. The
  -- instants do not go back, and the member of a request is new.
  pub data Run : ℕ → List ℕ → R.Db → Type 0 where
    start : (d : R.Db) → R.entries d key ≡ [] → R.deadline d key ≡ none → Run 0 [] d
    request :
        {clock : ℕ} {accepted : List ℕ} {d : R.Db} (now : ℕ) (member : String)
        → Run clock accepted d
        → clock ≤ now
        → window ≤ now
        → count (λ e. e.1 == member) (R.entries (pruned R key window now d) key) ≡ 0
        → Run now
            (if (sliding_window R key now window limit member d).0.allowed
              then now ∷ accepted
              else accepted)
            (sliding_window R key now window limit member d).1

  pub Run-Tracks :
      {clock : ℕ} {accepted : List ℕ} {d : R.Db}
      → Run clock accepted d
      → Tracks R key window limit clock accepted d
  unfolding sliding_window decide_window
  Run-Tracks (start d empty never) = record {
    same = λ now le. rw empty;
    past = tt;
    kept = λ t h. tt;
    bounded = λ t. omega arith;
  }
  Run-Tracks (request {clock} {accepted} {d} now member r later era fresh) =
      let v = Run-Tracks r in
      elim (Bool-cases (ltb (R.zcard key (pruned R key window now d)) limit)) [
        | inl room ↦
            rw room
              (added-Tracks R key window limit clock accepted d v now later era member fresh room)
        | inr full ↦ rw full (pruned-Tracks R key window limit clock accepted d v now later era)
      ]

  -- From a server without the key, however the requests fall, with instants that do not go back,
  -- come after one window, and members that are new, at most `limit` of the key are accepted in
  -- any window of this length.
  pub in_window-le-limit :
      {clock : ℕ} {accepted : List ℕ} {d : R.Db} (t : ℕ)
      → Run clock accepted d
      → count (in_window window t) accepted ≤ limit
  in_window-le-limit t r = (Run-Tracks r).bounded t
