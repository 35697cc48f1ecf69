-- ===== src/Ai/Queries.antt =====
-- runTemplate of apps/ai-orchestrator/src/tier2-underwriting/graph/nodes/db-agent.node.ts: the queries
-- that the model may choose from, on the table of the underwriting runs.
use mathlib.Core.List.{Perm}
use oneandro_clone.Prelude.{
  ℕ, String, ◌≡◌, refl, Bool, true, List, [], ◌∷◌, ◌++◌, map, take, drop, filter, count, All, eqb,
  leb, ◌==◌, if◌then◌else◌,
}
use oneandro_clone.Ai.Underwriting.{
  Decision, approve, decline, refer, SqlTemplate, prior_runs_for_lead, decision_counts_for_lead,
  UnderwritingRun,
}
use oneandro_clone.Ai.Vectors.{IsOrdered}
use oneandro_clone.Ai.Nearest.{take-before-drop, take-append-drop}

abbrev pub decision_index : Decision → ℕ
decision_index approve = 0
decision_index decline = 1
decision_index refer = 2

abbrev pub decision_eq : Decision → Decision → Bool
decision_eq a b = eqb (decision_index a) (decision_index b)

pub record DecisionCountRow : Type 0 where
  pub decision : Decision
  pub count : ℕ

-- How many there are of a decision in the rows of a grouping.
abbrev pub counted : Decision → List DecisionCountRow → ℕ
counted d [] = 0
counted d (r ∷ rs) = if decision_eq r.decision d then r.count else counted d rs

-- What the database does: ORDER BY created_at DESC, and GROUP BY decision with COUNT(*).
pub record Sql (Score : Type 0) : Type 0 where
  pub newest_first : List (UnderwritingRun Score) → List (UnderwritingRun Score)
  pub newest_first-Perm : (runs : List (UnderwritingRun Score)) → Perm (newest_first runs) runs
  pub newest_first-IsOrdered :
      (runs : List (UnderwritingRun Score))
      → IsOrdered
          (λ (a b : UnderwritingRun Score). leb b.created_at a.created_at)
          (newest_first runs)
  pub count_by_decision : List (UnderwritingRun Score) → List DecisionCountRow
  pub count_by_decision-count :
      (runs : List (UnderwritingRun Score)) (d : Decision)
      → counted d (count_by_decision runs)
        ≡ count (λ (r : UnderwritingRun Score). decision_eq r.decision d) runs

pub record PriorRunRow (Score : Type 0) : Type 0 where
  pub decision : Decision
  pub confidence_score : Score
  pub created_at : ℕ

-- `{ priorRuns }` or `{ decisionCounts }`
pub data QueryResult (Score : Type 0) : Type 0 where
  prior_runs : List (PriorRunRow Score) → QueryResult Score
  decision_counts : List DecisionCountRow → QueryResult Score

module _ {Score : Type 0} (S : Sql Score) where
  abbrev pub of_lead : String → List (UnderwritingRun Score) → List (UnderwritingRun Score)
  of_lead lead_id runs = filter (λ (r : UnderwritingRun Score). r.lead_id == lead_id) runs

  unfoldable pub prior_run_row : UnderwritingRun Score → PriorRunRow Score
  prior_run_row r = record {
    decision = r.decision;
    confidence_score = r.confidence_score;
    created_at = r.created_at;
  }

  unfoldable pub run_template :
      SqlTemplate → String → List (UnderwritingRun Score) → QueryResult Score
  run_template prior_runs_for_lead lead_id runs =
      prior_runs (map prior_run_row (take 5 (S.newest_first (of_lead lead_id runs))))
  run_template decision_counts_for_lead lead_id runs =
      decision_counts (S.count_by_decision (of_lead lead_id runs))

  -- The model that chooses the template chooses among the last five runs of the lead and the counts of
  -- its decisions: the runs that are returned are some of those of the lead, none of the others is
  -- newer, and every count is that of the runs of the lead with this decision.
  pub run_template_lem :
      (lead_id : String) (runs : List (UnderwritingRun Score)) (d : Decision)
      → (shown left : List (UnderwritingRun Score)) × (counts : List DecisionCountRow)
        × (run_template prior_runs_for_lead lead_id runs ≡ prior_runs (map prior_run_row shown))
        × Perm (shown ++ left) (of_lead lead_id runs)
        × All
            (λ (a : UnderwritingRun Score).
              All (λ (b : UnderwritingRun Score). leb b.created_at a.created_at ≡ true) left)
            shown
        × (run_template decision_counts_for_lead lead_id runs ≡ decision_counts counts)
        × (counted d counts
            ≡ count
                (λ (r : UnderwritingRun Score). decision_eq r.decision d)
                (of_lead lead_id runs))
  unfolding run_template
  run_template_lem lead_id runs d =
      let sorted = S.newest_first (of_lead lead_id runs) in
      (
        take 5 sorted,
        drop 5 sorted,
        S.count_by_decision (of_lead lead_id runs),
        refl,
        rw (take-append-drop 5 sorted) (S.newest_first-Perm (of_lead lead_id runs)),
        take-before-drop (λ (a b : UnderwritingRun Score). leb b.created_at a.created_at) 5 sorted
            (S.newest_first-IsOrdered (of_lead lead_id runs)),
        refl,
        S.count_by_decision-count (of_lead lead_id runs) d,
      )
