-- ===== src/Ai/Api.antt =====
-- The routes of apps/ai-orchestrator: src/tier1-qa/qa.controller.ts and
-- src/tier2-underwriting/underwriting.controller.ts, behind src/common/guards/roles.guard.ts, which is
-- the guard of lead-service. The ids of leads are UUIDs.
use oneandro_clone.Prelude.{
  ℕ, zero, suc, String, ◌≡◌, refl, inl, inr, ◌⊎◌, Bool, true, false, Option, none, some, List, [],
  ◌∷◌, arith, ◌==◌, Bool-cases, if◌then◌else◌,
}
use oneandro_clone.Common.{Role, loan_officer, underwriter, admin, RequestUser, includes_role}
use oneandro_clone.Store.{Table}
use oneandro_clone.Gateway.Routes.{codes, starts_with}
use oneandro_clone.Leads.Api.{can_activate}
use oneandro_clone.Ai.Underwriting.{
  Services, UnderwritingRun, run_clash, UnderwritingRunResult, run,
}
use oneandro_clone.Ai.Cache.{Models, Cache, CacheConfig, QaAnswer, ask}
use oneandro_clone.Ai.Vectors.{
  Database, DocumentChunk, IngestDocumentInput, IngestResult, TextModels, ingest,
}

pub data Endpoint : Type 0 where
  post_ask post_ingest post_run get_runs : Endpoint

-- The @Roles() of each handler.
unfoldable pub required_roles : Endpoint → Option (List Role)
required_roles post_ask = none
required_roles post_ingest = some (admin ∷ [])
required_roles post_run = some (loan_officer ∷ underwriter ∷ admin ∷ [])
required_roles get_runs = some (loan_officer ∷ underwriter ∷ admin ∷ [])

abbrev string_drop : ℕ → String → String
string_drop zero s = s
string_drop (suc n) String.[] = ""
string_drop (suc n) (String.◌∷◌ c s) = string_drop n s

-- The token in an `Authorization` header.
abbrev from_header : Option String → Option String
from_header none = none
from_header (some header) =
    if starts_with (codes header) (codes "Bearer ") then some (string_drop 7 header) else none

-- extractBearerToken, of the cookie and the header; `none` is the UnauthorizedException.
unfoldable pub extract_bearer_token : Option String → Option String → Option String
extract_bearer_token none header = from_header header
extract_bearer_token (some cookie) header = if cookie == "" then from_header header else some cookie

-- The roles that may change the chunks, and those that may change the runs.
abbrev pub may_ingest : Role → Bool
may_ingest role = includes_role (admin ∷ []) role

abbrev pub may_run : Role → Bool
may_run role = includes_role (loan_officer ∷ underwriter ∷ admin ∷ []) role

not_admin : (role : Role) → may_run role ≡ false → may_ingest role ≡ false
not_admin role h = ground arith

module _ (V : Services) (R : Table (UnderwritingRun V.Score) run_clash) (M : Models)
    (cfg : CacheConfig M) (P : Database) (T : TextModels P) where
  -- What the service keeps.
  pub record State : Type 0 where
    pub runs : R.Db
    pub cache : Cache M
    pub chunks : List (DocumentChunk P)

  -- A request to one of the routes, with the ids and the instant that are made up while it runs.
  pub data Call : Type 0 where
    call_ask : String → String → ℕ → Call
    call_ingest : IngestDocumentInput P → String → ℕ → Call
    call_run : String → String → Option String → Option String → String → ℕ → Call
    call_runs : String → Call

  unfoldable pub endpoint_of : Call → Endpoint
  endpoint_of (call_ask question id now) = post_ask
  endpoint_of (call_ingest input id seed) = post_ingest
  endpoint_of (call_run lead_id question cookie header id now) = post_run
  endpoint_of (call_runs lead_id) = get_runs

  pub data Answer : Type 0 where
    forbidden unauthorized failed : Answer
    answered : QaAnswer M → Answer
    ingested : IngestResult P → Answer
    ran : UnderwritingRunResult V.Score → Answer
    listed : List (UnderwritingRun V.Score) → Answer

  abbrev or_failed : {A : Type 0} → (A → Answer) → Option A → Answer
  or_failed f none = failed
  or_failed f (some a) = f a

  unfoldable pub run_with : String → String → Option String → String → ℕ → State → Answer × State
  run_with lead_id question none id now s = (unauthorized, s)
  run_with lead_id question (some token) id now s =
      let (out, runs) = run V R lead_id question token id now s.runs in
      (or_failed ran out, record s { runs = runs })

  -- The handlers.
  unfoldable pub handle_call : Call → State → Answer × State
  handle_call (call_ask question id now) s =
      let (out, cache) = ask M cfg question id now s.cache in
      (or_failed answered out, record s { cache = cache })
  handle_call (call_ingest input id seed) s =
      let (out, chunks) = ingest P T id seed input s.chunks in
      (or_failed ingested out, record s { chunks = chunks })
  handle_call (call_run lead_id question cookie header id now) s =
      run_with lead_id question (extract_bearer_token cookie header) id now s
  handle_call (call_runs lead_id) s =
      (listed (R.find_many (λ (r : UnderwritingRun V.Score). r.lead_id == lead_id) s.runs), s)

  -- A request of this caller, behind the guard.
  unfoldable pub serve : Call → RequestUser → State → Answer × State
  serve call caller s =
      if can_activate (required_roles (endpoint_of call)) caller.role
      then handle_call call s
      else (forbidden, s)

  run_with-chunks :
      (lead_id question : String) (token : Option String) (id : String) (now : ℕ) (s : State)
      → ((run_with lead_id question token id now s).1.chunks ≡ s.chunks)
        × ((run_with lead_id question token id now s).1.cache ≡ s.cache)
  unfolding run_with
  run_with-chunks lead_id question none id now s = (refl, refl)
  run_with-chunks lead_id question (some token) id now s = (refl, refl)

  serve-chunks :
      (call : Call) (caller : RequestUser) (s : State)
      → may_ingest caller.role ≡ false
      → (serve call caller s).1.chunks ≡ s.chunks
  unfolding serve handle_call endpoint_of required_roles can_activate
  serve-chunks (call_ask question id now) caller s h = refl
  serve-chunks (call_ingest input id seed) caller s h = rw h refl
  serve-chunks (call_run lead_id question cookie header id now) caller s h =
      elim (Bool-cases (may_run caller.role)) [
        | inl may ↦
            rw may
              (run_with-chunks lead_id question (extract_bearer_token cookie header) id now s).0
        | inr barred ↦ rw barred refl
      ]
  serve-chunks (call_runs lead_id) caller s h = elim (Bool-cases (may_run caller.role)) [
    | inl may ↦ rw may refl
    | inr barred ↦ rw barred refl
  ]

  serve-runs :
      (call : Call) (caller : RequestUser) (s : State)
      → may_run caller.role ≡ false
      → (endpoint_of call ≡ post_ask) ⊎ (serve call caller s ≡ (forbidden, s))
  unfolding serve endpoint_of required_roles can_activate
  serve-runs (call_ask question id now) caller s h = inl refl
  serve-runs (call_ingest input id seed) caller s h =
      let barred : may_ingest caller.role ≡ false = not_admin caller.role h in inr (rw barred refl)
  serve-runs (call_run lead_id question cookie header id now) caller s h = inr (rw h refl)
  serve-runs (call_runs lead_id) caller s h = inr (rw h refl)

  -- Only an administrator changes the document chunks, on which the answers rest; and a caller who is no
  -- loan officer, underwriter or administrator is refused every request but questions, without effect.
  pub serve_reserved :
      (call : Call) (caller : RequestUser) (s : State)
      → ((may_ingest caller.role ≡ true) ⊎ ((serve call caller s).1.chunks ≡ s.chunks))
        × ((may_run caller.role ≡ true)
            ⊎ ((endpoint_of call ≡ post_ask) ⊎ (serve call caller s ≡ (forbidden, s))))
  serve_reserved call caller s = (
    elim (Bool-cases (may_ingest caller.role)) [
      | inl may ↦ inl may
      | inr barred ↦ inr (serve-chunks call caller s barred)
    ],
    elim (Bool-cases (may_run caller.role)) [
      | inl may ↦ inl may
      | inr barred ↦ inr (serve-runs call caller s barred)
    ],
  )
