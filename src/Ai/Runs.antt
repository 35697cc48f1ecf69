-- ===== src/Ai/Runs.antt =====
-- What a run of the underwriting graph has consulted, decided and saved.
use oneandro_clone.Prelude.{
  ℕ, String, ◌≡◌, inl, inr, Bool, true, false, Option, none, some, [], ◌∷◌, ◌++◌, arith,
  Option-cases,
}
use oneandro_clone.Store.{Table}
use oneandro_clone.Ai.Underwriting.{
  ◌>>=◌, SqlTemplate, LeadSnapshot, Services, UnderwritingState, initial_state, router_node,
  db_agent_node, rerank_documents, reranker_node, synthesis_node, after_router, invoke,
  UnderwritingRun, run_clash, UnderwritingRunResult, row_of, prepare, run,
}

-- The run consults the history of the lead exactly if the router asked for it.
abbrev pub lookup_of : (V : Services) → String → String → Bool → Option (Option SqlTemplate)
lookup_of V lead_id question false = some none
lookup_of V lead_id question true = V.select_template lead_id question >>= λ t. some (some t)

module _ (V : Services) where
  synthesis-keeps :
      (s t : UnderwritingState V)
      → synthesis_node V s ≡ some t
      → t.sql_template_id ≡ s.sql_template_id
  unfolding synthesis_node
  synthesis-keeps s t h = ground arith

  reranker-keeps :
      (s t : UnderwritingState V)
      → reranker_node V s ≡ some t
      → t.sql_template_id ≡ s.sql_template_id
  unfolding reranker_node rerank_documents
  reranker-keeps s t h = ground arith

  lookup-keeps :
      (s t : UnderwritingState V) (needed : Bool)
      → V.route s.question s.lead_snapshot ≡ some needed
      → s.sql_template_id ≡ none
      → (router_node V s >>= after_router V) ≡ some t
      → lookup_of V s.lead_id s.question needed ≡ some t.sql_template_id
  unfolding router_node after_router db_agent_node
  lookup-keeps s t needed asked first h = ground arith

  invoke-lookup :
      (s t : UnderwritingState V) (needed : Bool)
      → V.route s.question s.lead_snapshot ≡ some needed
      → s.sql_template_id ≡ none
      → invoke V s ≡ some t
      → lookup_of V s.lead_id s.question needed ≡ some t.sql_template_id
  unfolding invoke
  invoke-lookup s t needed asked first h = elim (Option-cases (router_node V s)) [
    | inl failed ↦ cc (rw (failed, invoke) at h)
    | inr (routed, passed) ↦ elim (Option-cases (after_router V routed)) [
      | inl failed ↦ cc (rw failed at (rw (passed, invoke) at h))
      | inr (looked, found) ↦ elim (Option-cases (reranker_node V looked)) [
        | inl failed ↦ cc (rw failed at (rw found at (rw (passed, invoke) at h)))
        | inr (reranked, ranked) ↦ cc (
          lookup-keeps s looked needed asked first (rw passed found),
          reranker-keeps looked reranked ranked,
          synthesis-keeps reranked t (rw ranked at (rw found at (rw (passed, invoke) at h))),
        )
      ]
    ]
  ]

  prepare-lookup :
      (lead_id question bearer_token id : String) (now : ℕ)
      (T : Table (UnderwritingRun V.Score) run_clash) (snapshot : LeadSnapshot) (needed : Bool)
      (r : UnderwritingRunResult V.Score)
      → V.get_lead_snapshot lead_id bearer_token ≡ some snapshot
      → V.route question snapshot ≡ some needed
      → prepare V T lead_id question bearer_token id now ≡ some r
      → lookup_of V lead_id question needed ≡ some r.run.used_sql_template
  unfolding prepare row_of initial_state
  prepare-lookup lead_id question bearer_token id now T snapshot needed r loaded asked h =
      elim (Option-cases (invoke V (initial_state V lead_id question snapshot))) [
        | inl failed ↦ cc (rw failed at (rw (loaded, prepare) at h))
        | inr (final, ended) ↦
            ground (arith, invoke-lookup (initial_state V lead_id question snapshot) final needed)
      ]

  module _ (lead_id question bearer_token id : String) (now : ℕ)
      (T : Table (UnderwritingRun V.Score) run_clash) (d : T.Db) where
    -- A run that gives an answer has added exactly this run to the table.
    pub run-saved :
        (r : UnderwritingRunResult V.Score)
        → (run V T lead_id question bearer_token id now d).0 ≡ some r
        → T.rows (run V T lead_id question bearer_token id now d).1 ≡ T.rows d ++ r.run ∷ []
    unfolding run
    run-saved r h = elim (Option-cases (prepare V T lead_id question bearer_token id now)) [
      | inl failed ↦ cc (rw (failed, run) at h)
      | inr (result, made) ↦
          ground (arith, T.create-written result.run d, T.rows-create result.run d)
    ]

    -- If the snapshot of the lead is given and the router answers, a run that gives an answer
    -- has consulted the history of the lead exactly if the router asked for it, by the query
    -- that the model chose among the fixed ones.
    pub run-lookup :
        (snapshot : LeadSnapshot) (needed : Bool) (r : UnderwritingRunResult V.Score)
        → V.get_lead_snapshot lead_id bearer_token ≡ some snapshot
        → V.route question snapshot ≡ some needed
        → (run V T lead_id question bearer_token id now d).0 ≡ some r
        → lookup_of V lead_id question needed ≡ some r.run.used_sql_template
    unfolding run
    run-lookup snapshot needed r loaded asked h =
        elim (Option-cases (prepare V T lead_id question bearer_token id now)) [
          | inl failed ↦ cc (rw (failed, run) at h)
          | inr (result, made) ↦ ground (
            arith,
            prepare-lookup lead_id question bearer_token id now T snapshot needed result loaded
                asked,
          )
        ]
