-- ===== src/Gateway/RateLimit.antt =====
-- apps/api-gateway/src/rate-limit/sliding-window-rate-limiter.service.ts, with its Lua script.
use Prim.Native.String
use oneandro_clone.Prelude.{
  ℕ, ◌+◌, ◌-◌, String, ◌≡◌, ◌⊎◌, Bool, true, false, ◌&&◌, Option, none, some, List, [], ◌∷◌, ltb,
  leb, eqb, ◌<◌, count, filter, ◌==◌, if◌then◌else◌,
}

-- A member of a sorted set, with its score.
abbrev pub Entry : Type 0
Entry = ℕ × String

abbrev pub is_past : Option ℕ → ℕ → Bool
is_past none t = false
is_past (some d) t = leb d t

-- The Redis server that the gateway replicas share: the commands of the script, and the documented
-- behaviour that it relies on. Instants are in milliseconds.
pub record SortedSets : Type 1 where
  pub Db : Type 0
  -- the members of a key, the lowest score first, and the instant at which the key expires
  pub entries : Db → String → List Entry
  pub deadline : Db → String → Option ℕ
  -- the server at this instant: keys whose time has come are gone
  pub wait : ℕ → Db → Db
  -- ZREMRANGEBYSCORE key -inf max
  pub zremrangebyscore : String → ℕ → Db → Db
  pub zcard : String → Db → ℕ
  pub zadd : String → ℕ → String → Db → Db
  -- PEXPIRE key ms, at this instant
  pub pexpire : String → ℕ → ℕ → Db → Db
  -- ZRANGE key 0 0 WITHSCORES
  pub zrange_first : String → Db → Option Entry
  pub entries-wait :
      (t : ℕ) (k : String) (d : Db)
      → entries (wait t d) k ≡ (if is_past (deadline d k) t then [] else entries d k)
  pub deadline-wait :
      (t : ℕ) (k : String) (d : Db)
      → deadline (wait t d) k ≡ (if is_past (deadline d k) t then none else deadline d k)
  pub entries-zremrangebyscore :
      (k j : String) (max : ℕ) (d : Db)
      → entries (zremrangebyscore k max d) j
        ≡ (if k == j then filter (λ e. ltb max e.0) (entries d j) else entries d j)
  -- a key without members is gone
  pub deadline-zremrangebyscore :
      (k j : String) (max : ℕ) (d : Db)
      → (deadline (zremrangebyscore k max d) j ≡ none)
        ⊎ (deadline (zremrangebyscore k max d) j ≡ deadline d j)
  pub zcard-count : (k : String) (d : Db) → zcard k d ≡ count (λ e. true) (entries d k)
  -- a member that is new is added among the others, by its score
  pub count-zadd :
      (q : Entry → Bool) (k : String) (score : ℕ) (member : String) (d : Db)
      → count (λ e. e.1 == member) (entries d k) ≡ 0
      → count q (entries (zadd k score member d) k) ≡ count q ((score, member) ∷ entries d k)
  pub entries-zadd_ne :
      (k j : String) (score : ℕ) (member : String) (d : Db)
      → (k == j) ≡ false
      → entries (zadd k score member d) j ≡ entries d j
  pub deadline-zadd :
      (k j : String) (score : ℕ) (member : String) (d : Db)
      → deadline (zadd k score member d) j ≡ deadline d j
  pub entries-pexpire :
      (k j : String) (ms t : ℕ) (d : Db) → entries (pexpire k ms t d) j ≡ entries d j
  pub deadline-pexpire :
      (k j : String) (ms t : ℕ) (d : Db)
      → deadline (pexpire k ms t d) j ≡ (if k == j then some (t + ms) else deadline d j)
  -- the answer is nothing only for a key without members, else a member with a lowest score
  pub zrange_first-none :
      (k : String) (d : Db) → zrange_first k d ≡ none → count (λ e. true) (entries d k) ≡ 0
  pub zrange_first-some :
      (k : String) (d : Db) (e : Entry)
      → zrange_first k d ≡ some e
      → (0 < count (λ x. eqb x.0 e.0) (entries d k)) × (count (λ x. ltb x.0 e.0) (entries d k) ≡ 0)

-- [allowed, remaining, retryAfterMs]
pub record SlidingWindowResult : Type 0 where
  pub allowed : Bool
  pub remaining : ℕ
  pub retry_after_ms : ℕ

pub record RateLimitDecision : Type 0 where
  pub allowed : Bool
  pub limit : ℕ
  pub remaining : ℕ
  pub retry_after_ms : ℕ

-- Whether the script ran on the server, and whether its answer came in time.
pub record Delivery : Type 0 where
  pub executed : Bool
  pub answered : Bool

-- `ratelimit:${scope}:${identity}`
unfoldable pub rate_limit_key : String → String → String
rate_limit_key scope identity =
    String.◌++◌ "ratelimit:" (String.◌++◌ scope (String.◌++◌ ":" identity))

abbrev pub retry_after : Option Entry → ℕ → ℕ → ℕ
retry_after none now window = window
retry_after (some oldest) now window = (oldest.0 + window) - now

module _ (R : SortedSets) where
  -- The end of SLIDING_WINDOW_LUA, after the pruning. The script runs at the instant `now` of the
  -- caller: the clocks of the replicas and of the server are taken to agree.
  unfoldable pub decide_window : String → ℕ → ℕ → ℕ → String → R.Db → SlidingWindowResult × R.Db
  decide_window key now window limit member pruned =
      let n = R.zcard key pruned in
      if ltb n limit
      then (
        record { allowed = true; remaining = limit - n - 1; retry_after_ms = 0 },
        R.pexpire key window now (R.zadd key now member pruned),
      )
      else (
        record {
          allowed = false;
          remaining = 0;
          retry_after_ms = retry_after (R.zrange_first key pruned) now window;
        },
        pruned,
      )

  -- SLIDING_WINDOW_LUA; `now - window` is not negative, as both are instants of this era.
  unfoldable pub sliding_window : String → ℕ → ℕ → ℕ → String → R.Db → SlidingWindowResult × R.Db
  sliding_window key now window limit member d =
      decide_window key now window limit member
        (R.zremrangebyscore key (now - window) (R.wait now d))

  -- `consume`: without an answer in time the request is let through, whether or not the script ran.
  unfoldable pub consume :
      String → String → ℕ → ℕ → ℕ → String → Delivery → R.Db → RateLimitDecision × R.Db
  consume scope identity limit window now member del d =
      let (r, d') = sliding_window (rate_limit_key scope identity) now window limit member d in
      (
        if del.executed && del.answered
            then record {
              allowed = r.allowed;
              limit = limit;
              remaining = r.remaining;
              retry_after_ms = r.retry_after_ms;
            }
            else record { allowed = true; limit = limit; remaining = limit; retry_after_ms = 0 },
        if del.executed then d' else d,
      )
