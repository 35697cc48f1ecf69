-- ===== src/Gateway/Log.antt =====
-- The abstract rate limiter: a log of the instants of the accepted requests. The script on the
-- sorted set is a refinement of it.
use mathlib.Core.Path.{subst}
use oneandro_clone.Prelude.{
  ap, ◌∙◌, ℕ, ◌-◌, ◌≤◌, String, ◌≡◌, true, false, Bool, List, ◌∷◌, arith, ltb, count, ◌==◌,
  if◌then◌else◌,
}
use oneandro_clone.Gateway.RateLimit.{SortedSets, decide_window, sliding_window}
use oneandro_clone.Gateway.Window.{is_recent, Tracks, pruned, zcard-pruned}
use oneandro_clone.Gateway.Limit.{Run, request, Run-Tracks}

-- What a request at `now` is told, and the log after it: it is let through while fewer than `limit`
-- of the log are recent.
pub record LogAnswer : Type 0 where
  pub allowed : Bool
  pub remaining : ℕ
  pub log : List ℕ

abbrev pub log_request : ℕ → ℕ → ℕ → List ℕ → LogAnswer
log_request window limit now log =
    let n = count (is_recent window now) log in
    if ltb n limit
    then record { allowed = true; remaining = limit - n - 1; log = now ∷ log }
    else record { allowed = false; remaining = 0; log = log }

module _ (R : SortedSets) (key : String) (window limit : ℕ) where
  decide-log :
      {clock : ℕ} {accepted : List ℕ} {d : R.Db} (now : ℕ) (member : String)
      → Tracks R key window limit clock accepted d
      → clock ≤ now
      → window ≤ now
      → ((sliding_window R key now window limit member d).0.allowed
          ≡ (log_request window limit now accepted).allowed)
        × ((sliding_window R key now window limit member d).0.remaining
            ≡ (log_request window limit now accepted).remaining)
  unfolding sliding_window decide_window
  decide-log {clock} {accepted} {d} now member v later era =
      ground (arith, zcard-pruned R key window limit clock accepted d v now later era)

  log_after :
      (now : ℕ) (accepted : List ℕ)
      → (if (log_request window limit now accepted).allowed then now ∷ accepted else accepted)
        ≡ (log_request window limit now accepted).log
  log_after now accepted = ground arith

  -- Every step of the script is a step of the abstract limiter: from a server that stands for a log, a
  -- request is answered as the log answers it, with the same rest of the quota, and the server
  -- then stands for the new log. The instants do not go back, come after one window, and the member is
  -- new.
  pub sliding_window-log_request :
      {clock : ℕ} {accepted : List ℕ} {d : R.Db} (now : ℕ) (member : String)
      → Run R key window limit clock accepted d
      → clock ≤ now
      → window ≤ now
      → count (λ e. e.1 == member) (R.entries (pruned R key window now d) key) ≡ 0
      → ((sliding_window R key now window limit member d).0.allowed
          ≡ (log_request window limit now accepted).allowed)
        × ((sliding_window R key now window limit member d).0.remaining
            ≡ (log_request window limit now accepted).remaining)
        × Run R key window limit now
            (log_request window limit now accepted).log
            (sliding_window R key now window limit member d).1
  sliding_window-log_request {clock} {accepted} {d} now member r later era fresh =
      let (same, rest) = decide-log now member (Run-Tracks R key window limit r) later era in
      (
        same,
        rest,
        subst
            (λ log.
              Run R key window limit now log (sliding_window R key now window limit member d).1)
            (ap (λ (b : Bool). if b then now ∷ accepted else accepted) same
              ∙ log_after now accepted)
            (request now member r later era fresh),
      )
