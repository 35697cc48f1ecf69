-- ===== src/Ai/Examples.antt =====
-- A run of the underwriting graph with small models, and the theorems at it.
use oneandro_clone.Prelude.{
  ℕ, String, ◌≡◌, refl, true, false, some, List, [], ◌∷◌, ◌⊎◌, ltb, eqb, ◌+◌, ◌*◌, ◌/◌, take, All,
  arith,
}
use oneandro_clone.Store.{Table}
use oneandro_clone.Store.ListTable.{list_table}
use oneandro_clone.Ai.Underwriting.{
  approve, prior_runs_for_lead, SimilarityResult, LeadSnapshot, Services, UnderwritingRun,
  run_clash, UnderwritingRunResult,
}
use oneandro_clone.Ai.Cache.{
  Models, SemanticCacheHit, Cache, CacheConfig, scan, prune, hit_of, lookup, store,
}
use oneandro_clone.Ai.Cosine.{Floats, sums, quotient, cosine_similarity}
use oneandro_clone.Ai.Best.{IsNoBetter, IsOfOne, lookup-IsNoBetter, lookup-store}
use oneandro_clone.Common.{RequestUser, loan_officer}
use oneandro_clone.Ai.Api.{
  State, Call, call_ingest, serve, may_ingest, may_run, endpoint_of, post_ask, forbidden,
  serve_reserved,
}
use oneandro_clone.Ai.ChunkExamples.{database, chunks, texts, document}

abbrev snapshot : LeadSnapshot
snapshot = record {
  id = "l1";
  status = "CREDIT_CHECKED";
  loan_amount_requested = "5000.00";
  loan_purpose = "AUTO";
  credit_score_snapshot = some 700;
}

abbrev policy : SimilarityResult
policy = record { id = "p1"; source = "policy:x"; content = "Scores from 680 pass." }

abbrev pub services : Services
services = record {
  Score = ℕ;
  Embedding = String;
  Rows = List String;
  get_lead_snapshot = λ id token. some snapshot;
  route = λ question lead. some true;
  select_template = λ id question. some prior_runs_for_lead;
  run_template = λ template id. some [];
  embed_query = λ question. some question;
  similarity_search = λ embedding k prefix. some (policy ∷ []);
  rerank = λ question texts n. some (0 ∷ []);
  synthesize = λ question lead rows docs. some (approve, "The score is above 680.", 1);
}

abbrev pub runs : Table (UnderwritingRun ℕ) run_clash
runs = list_table (UnderwritingRun ℕ) run_clash

abbrev pub answer : UnderwritingRunResult ℕ
answer = record {
  run = record {
    id = "r1";
    lead_id = "l1";
    question = "Approve?";
    decision = approve;
    rationale = "The score is above 680.";
    confidence_score = 1;
    used_sql_template = some prior_runs_for_lead;
    retrieved_source_ids = "p1" ∷ [];
    created_at = 5;
  };
  warnings = [];
}

ltb_irrefl : (a : ℕ) → ltb a a ≡ false
ltb_irrefl a = ground arith

ltb_trans : (a b c : ℕ) → ltb a b ≡ true → ltb b c ≡ true → ltb a c ≡ true
ltb_trans a b c h k = ground arith

-- The arithmetic on whole numbers.
abbrev floats : Floats
floats = record {
  Float = ℕ;
  zero = 0;
  add = λ a b. a + b;
  mul = λ a b. a * b;
  div = λ a b. a / b;
  sqrt = λ a. a;
  same = eqb;
  below = ltb;
  below-irrefl = ltb_irrefl;
  below-trans = ltb_trans;
}

abbrev models : Models
models = record {
  floats = floats;
  embed_query = λ question. some (1 ∷ []);
  similarity_search = λ embedding k prefix. some [];
  answer = λ question chunks. some "Yes";
}

abbrev cache_config : CacheConfig models
cache_config = record { ttl_seconds = 60; similarity_threshold = 0; max_candidates = 10 }

abbrev cached : Cache models
cached = record {
  index = (100000, "e1") ∷ [];
  entries =
      λ id. some (record { query = "q"; answer = "Yes"; embedding = 1 ∷ []; cached_at = 100000 });
}

abbrev hit : SemanticCacheHit models
hit = record { answer = "Yes"; score = 1; cached_at = 100000 }

lookup-IsNoBetter_example :
    IsOfOne models
      (1 ∷ [])
      cached.entries
      "Yes"
      1
      (take 10 (prune models cache_config 120000 cached.index))
    × All
        (λ c. IsNoBetter models (1 ∷ []) 1 (cached.entries c.1))
        (take 10 (prune models cache_config 120000 cached.index))
unfolding lookup prune scan hit_of cosine_similarity sums quotient
lookup-IsNoBetter_example = lookup-IsNoBetter models cache_config 120000 (1 ∷ []) cached hit refl

lookup-store_example :
    (lookup models cache_config 120000
      (1 ∷ [])
      (store models "e2" 110000 "p" "No" (1 ∷ []) cached)).0
    ≡ some (record {
      answer = "No";
      score = cosine_similarity floats (1 ∷ []) (1 ∷ []);
      cached_at = 110000;
    })
unfolding prune cosine_similarity sums quotient
lookup-store_example =
    lookup-store models cache_config 110000 120000 "e2" "p" "No" (1 ∷ []) cached (omega arith)
      (omega arith) refl (refl, tt)

abbrev service : State services runs models cache_config database texts
service = record { runs = []; cache = cached; chunks = chunks }

abbrev clerk : RequestUser
clerk = record { user_id = "u2"; email = "bob@x"; role = loan_officer }

abbrev upload_policy : Call services runs models cache_config database texts
upload_policy = call_ingest document "d2" 7

serve_reserved_example :
    ((may_ingest loan_officer ≡ true)
      ⊎ ((serve services runs models cache_config database texts upload_policy clerk
            service).1.chunks
          ≡ chunks))
    × ((may_run loan_officer ≡ true)
        ⊎ ((endpoint_of services runs models cache_config database texts upload_policy ≡ post_ask)
            ⊎ (serve services runs models cache_config database texts upload_policy clerk service
                ≡ (forbidden, service))))
serve_reserved_example =
    serve_reserved services runs models cache_config database texts upload_policy clerk service
