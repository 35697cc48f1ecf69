-- ===== src/Ai/Underwriting.antt =====
-- apps/ai-orchestrator/src/tier2-underwriting/graph: state.ts, nodes/*.ts and underwriter-graph.ts.
-- A call of a model or of a database that throws is `none`, and the run ends there.
use oneandro_clone.Prelude.{
  ℕ, zero, suc, String, Bool, true, false, Option, none, some, List, [], ◌∷◌, ◌++◌, map, length,
  min, ◌==◌, if◌then◌else◌,
}
use oneandro_clone.Store.{Table}

infixl 5 ◌>>=◌
abbrev pub ◌>>=◌ {k ℓ} :
    {Out : Type ℓ} {Value : Type k} → Option Value → (Value → Option Out) → Option Out
some value >>= rest = rest value
none >>= rest = none

-- `xs[i]`
abbrev pub get_elem? {ℓ} : {A : Type ℓ} → List A → ℕ → Option A
get_elem? [] i = none
get_elem? (x ∷ xs) zero = some x
get_elem? (x ∷ xs) (suc i) = get_elem? xs i

pub data Decision : Type 0 where
  approve decline refer : Decision

-- SQL_TEMPLATES
pub data SqlTemplate : Type 0 where
  prior_runs_for_lead decision_counts_for_lead : SqlTemplate

-- Of a chunk, the fields that the graph reads.
pub record SimilarityResult : Type 0 where
  pub id : String
  pub source : String
  pub content : String

pub record LeadSnapshot : Type 0 where
  pub id : String
  pub status : String
  pub loan_amount_requested : String
  pub loan_purpose : String
  pub credit_score_snapshot : Option ℕ

-- What the graph calls and does not implement. A prompt is given by what it is filled with; the output
-- of the model passed the schema of its node. `Score` is a number from 0 to 1.
pub record Services : Type 1 where
  pub Score : Type 0
  pub Embedding : Type 0
  pub Rows : Type 0
  pub get_lead_snapshot : String → String → Option LeadSnapshot
  pub route : String → LeadSnapshot → Option Bool
  pub select_template : String → String → Option SqlTemplate
  pub run_template : SqlTemplate → String → Option Rows
  pub embed_query : String → Option Embedding
  pub similarity_search : Embedding → ℕ → String → Option (List SimilarityResult)
  -- the positions of the documents that the reranker keeps, the best first
  pub rerank : String → List String → ℕ → Option (List ℕ)
  pub synthesize :
      String
      → LeadSnapshot
      → Option Rows
      → List SimilarityResult
      → Option (Decision × String × Score)

module _ (V : Services) where
  -- UnderwritingState
  pub record UnderwritingState : Type 0 where
    pub lead_id : String
    pub question : String
    pub lead_snapshot : LeadSnapshot
    pub needs_financial_lookup : Bool
    pub sql_template_id : Option SqlTemplate
    pub sql_result : Option V.Rows
    pub retrieved_docs : List SimilarityResult
    pub reranked_docs : List SimilarityResult
    pub decision : Option Decision
    pub rationale : Option String
    pub confidence_score : Option V.Score
    pub warnings : List String

  unfoldable pub initial_state : String → String → LeadSnapshot → UnderwritingState
  initial_state lead_id question snapshot = record {
    lead_id = lead_id;
    question = question;
    lead_snapshot = snapshot;
    needs_financial_lookup = false;
    sql_template_id = none;
    sql_result = none;
    retrieved_docs = [];
    reranked_docs = [];
    decision = none;
    rationale = none;
    confidence_score = none;
    warnings = [];
  }

  unfoldable pub router_node : UnderwritingState → Option UnderwritingState
  router_node s = do
    needed ← V.route s.question s.lead_snapshot
    some (record s { needs_financial_lookup = needed })

  unfoldable pub db_agent_node : UnderwritingState → Option UnderwritingState
  db_agent_node s = do
    template ← V.select_template s.lead_id s.question
    rows ← V.run_template template s.lead_id
    some (record s { sql_template_id = some template; sql_result = some rows })

  -- retrievedDocs[index] for each result. A position past the end gives undefined, on which the next
  -- node throws: the run ends, here one node earlier.
  unfoldable pub pick : List SimilarityResult → List ℕ → Option (List SimilarityResult)
  pick docs [] = some []
  pick docs (i ∷ rest) = do d ← get_elem? docs i; ds ← pick docs rest; some (d ∷ ds)

  abbrev pub no_documents : String
  no_documents =
      "No policy documents matched this question — synthesis will proceed on lead data alone."

  -- The warnings of an update are added to those of the state; the other fields replace theirs.
  unfoldable pub rerank_documents :
      UnderwritingState → List SimilarityResult → Option UnderwritingState
  rerank_documents s [] = some (record s {
    retrieved_docs = [];
    reranked_docs = [];
    warnings = s.warnings ++ no_documents ∷ [];
  })
  rerank_documents s (d ∷ ds) = do
    indices ←
        V.rerank s.question (map (λ (x : SimilarityResult). x.content) (d ∷ ds))
          (min 4 (length (d ∷ ds)))
    kept ← pick (d ∷ ds) indices
    some (record s { retrieved_docs = d ∷ ds; reranked_docs = kept })

  unfoldable pub reranker_node : UnderwritingState → Option UnderwritingState
  reranker_node s = do
    embedding ← V.embed_query s.question
    docs ← V.similarity_search embedding 10 "policy:"
    rerank_documents s docs

  unfoldable pub synthesis_node : UnderwritingState → Option UnderwritingState
  synthesis_node s = do
    result ← V.synthesize s.question s.lead_snapshot s.sql_result s.reranked_docs
    some (record s {
      decision = some result.0;
      rationale = some result.1;
      confidence_score = some result.2;
    })

  -- The edges of buildGraph.
  unfoldable pub after_router : UnderwritingState → Option UnderwritingState
  after_router s = if s.needs_financial_lookup then db_agent_node s else some s

  unfoldable pub invoke : UnderwritingState → Option UnderwritingState
  invoke s = do
    routed ← router_node s
    looked_up ← after_router routed
    reranked ← reranker_node looked_up
    synthesis_node reranked

-- A row of underwriting_runs, and the answer to the caller.
pub record UnderwritingRun (Score : Type 0) : Type 0 where
  pub id : String
  pub lead_id : String
  pub question : String
  pub decision : Decision
  pub rationale : String
  pub confidence_score : Score
  pub used_sql_template : Option SqlTemplate
  pub retrieved_source_ids : List String
  pub created_at : ℕ

abbrev pub run_clash : {Score : Type 0} → UnderwritingRun Score → UnderwritingRun Score → Bool
run_clash a b = a.id == b.id

pub record UnderwritingRunResult (Score : Type 0) : Type 0 where
  pub run : UnderwritingRun Score
  pub warnings : List String

module _ (V : Services) (T : Table (UnderwritingRun V.Score) run_clash) where
  -- The row for a final state; an absent or empty field of the decision is an exception.
  unfoldable pub row_of :
      String → String → UnderwritingState V → String → ℕ → Option (UnderwritingRun V.Score)
  row_of lead_id question final id now = do
    decision ← final.decision
    rationale ← final.rationale
    score ← final.confidence_score
    if rationale == ""
        then none
        else some (record {
          id = id;
          lead_id = lead_id;
          question = question;
          decision = decision;
          rationale = rationale;
          confidence_score = score;
          used_sql_template = final.sql_template_id;
          retrieved_source_ids = map (λ (d : SimilarityResult). d.id) final.reranked_docs;
          created_at = now;
        })

  -- `run` up to its insertion: the row and the warnings.
  unfoldable pub prepare :
      String → String → String → String → ℕ → Option (UnderwritingRunResult V.Score)
  prepare lead_id question bearer_token id now = do
    snapshot ← V.get_lead_snapshot lead_id bearer_token
    final ← invoke V (initial_state V lead_id question snapshot)
    row ← row_of lead_id question final id now
    some (record { run = row; warnings = final.warnings })

  abbrev pub written :
      UnderwritingRunResult V.Score → Bool × T.Db → Option (UnderwritingRunResult V.Score) × T.Db
  written result (true, d) = (some result, d)
  written result (false, d) = (none, d)

  unfoldable pub run :
      String → String → String → String → ℕ → T.Db → Option (UnderwritingRunResult V.Score) × T.Db
  run lead_id question bearer_token id now d = elim (prepare lead_id question bearer_token id now) [
    | none ↦ (none, d)
    | some result ↦ written result (T.create result.run d)
  ]
