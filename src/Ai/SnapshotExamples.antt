-- ===== src/Ai/SnapshotExamples.antt =====
-- A run of the graph on a lead of lead-service.
use oneandro_clone.Prelude.{ℕ, String, ◌≡◌, ◌⊎◌, refl, true, some, [], find}
use oneandro_clone.Common.{RequestUser}
use oneandro_clone.Leads.{Lead}
use oneandro_clone.Leads.Service.{
  has_id, is_staff, find_accessible_or_throw, find_by_id_or_throw, create, new_lead, status_change,
}
use oneandro_clone.Leads.Api.{serve, can_activate, required_roles, endpoint_of, handler}
use oneandro_clone.Leads.Requests.{request, authenticate, token_of, validate}
use oneandro_clone.Leads.Examples.{db, one_lead}
use oneandro_clone.Leads.HttpExamples.{jwt}
use oneandro_clone.Ai.Snapshot.{get_lead_snapshot, bearer, run-authenticate}
use oneandro_clone.Ai.Examples.{services, runs, answer}
use oneandro_clone.Ai.Underwriting.{
  run, prepare, row_of, invoke, initial_state, router_node, after_router, db_agent_node,
  reranker_node, rerank_documents, pick, synthesis_node,
}

abbrev amount_text : ℕ → String
amount_text cents = "5000.00"

run-authenticate_example :
    (user : RequestUser) × (lead : Lead) × (authenticate jwt
        (bearer jwt db 1000 amount_text one_lead "good")
      ≡ some user)
    × (find (has_id "l1") (db.leads.rows one_lead.leads) ≡ some lead)
    × ((lead.user_id ≡ user.user_id) ⊎ (is_staff user.role ≡ true))
unfolding run prepare row_of invoke initial_state router_node after_router db_agent_node
    reranker_node rerank_documents pick synthesis_node get_lead_snapshot request authenticate
    token_of serve can_activate required_roles endpoint_of handler find_accessible_or_throw
    find_by_id_or_throw create new_lead validate status_change
run-authenticate_example =
    run-authenticate jwt db 1000 amount_text one_lead services runs "l1" "Approve?" "good" "r1" 5 []
      answer refl
