-- ===== src/Ai/Snapshot.antt =====
-- apps/ai-orchestrator/src/tier2-underwriting/clients/lead-service.client.ts: the graph asks lead-service
-- for the lead, with the token of its caller.
use Prim.Native.String
use oneandro_clone.Prelude.{
  ℕ, String, ◌≡◌, ◌⊎◌, inl, inr, true, Option, none, some, find, Option-cases,
}
use oneandro_clone.Common.{RequestUser}
use oneandro_clone.Store.{Table}
use oneandro_clone.Leads.{Lead, LeadDb, State, ok}
use oneandro_clone.Leads.Service.{has_id, is_staff, find_accessible_or_throw}
use oneandro_clone.Leads.Moves.{Result-cases}
use oneandro_clone.Leads.Uploads.{find_accessible-ok}
use oneandro_clone.Leads.Api.{
  call_get, a_lead, serve, handler, endpoint_of, required_roles, can_activate,
}
use oneandro_clone.Leads.Requests.{
  Jwt, Credentials, Reply, replied, authenticate, request, LeadEntity, lead_entity,
}
use oneandro_clone.Ai.Underwriting.{
  LeadSnapshot, Services, UnderwritingRun, run_clash, UnderwritingRunResult, prepare, run,
}

unfoldable pub snapshot_of : LeadEntity → LeadSnapshot
snapshot_of body = record {
  id = body.id;
  status = body.status;
  loan_amount_requested = body.loan_amount_requested;
  loan_purpose = body.loan_purpose;
  credit_score_snapshot = body.credit_score_snapshot;
}

module _ (J : Jwt) (P : LeadDb) (max_size : ℕ) (amount_text : ℕ → String) (s : State P) where
  abbrev pub snapshot_in : Reply → Option LeadSnapshot
  snapshot_in (replied (a_lead (ok lead))) = some (snapshot_of (lead_entity amount_text lead))
  snapshot_in _ = none

  abbrev pub bearer : String → Credentials
  bearer token = record {
    access_token_cookie = none;
    authorization = some (String.◌++◌ "Bearer " token);
  }

  -- getLeadSnapshot; `none` is the ServiceUnavailableException.
  unfoldable pub get_lead_snapshot : String → String → Option LeadSnapshot
  get_lead_snapshot lead_id token =
      snapshot_in (request J P max_size (bearer token) (call_get lead_id) s).0

  -- The services of the graph, with lead-service in this state.
  abbrev pub with_lead_service : Services → Services
  with_lead_service V = record V { get_lead_snapshot = get_lead_snapshot }

  snapshot-found :
      (lead_id token : String) (snapshot : LeadSnapshot)
      → get_lead_snapshot lead_id token ≡ some snapshot
      → (user : RequestUser) × (lead : Lead) × (authenticate J (bearer token) ≡ some user)
        × (find_accessible_or_throw P lead_id user s ≡ ok lead)
  unfolding get_lead_snapshot request serve handler endpoint_of required_roles can_activate
  snapshot-found lead_id token snapshot h = elim (Option-cases (authenticate J (bearer token))) [
    | inl nobody ↦ cc (rw (get_lead_snapshot, request, nobody) at h)
    | inr (user, known) ↦ (elim (Result-cases (find_accessible_or_throw P lead_id user s)) [
      | inl (e, refused) ↦ cc (rw refused at (rw (get_lead_snapshot, request, known) at h))
      | inr (lead, passed) ↦ (user, lead, known, passed)
    ])
  ]

  module _ (V : Services) (T : Table (UnderwritingRun V.Score) run_clash)
      (lead_id question token id : String) (now : ℕ) (d : T.Db) where
    prepare-snapshot :
        (r : UnderwritingRunResult V.Score)
        → prepare (with_lead_service V) T lead_id question token id now ≡ some r
        → (snapshot : LeadSnapshot) × (get_lead_snapshot lead_id token ≡ some snapshot)
    unfolding prepare
    prepare-snapshot r h = elim (Option-cases (get_lead_snapshot lead_id token)) [
      | inl failed ↦ cc (rw (prepare, failed) at h)
      | inr found ↦ found
    ]

    -- An underwriting run gives an answer only for a caller whom lead-service itself lets read the lead: the
    -- token is good there, the lead is in its table, and the caller owns it or is staff.
    pub run-authenticate :
        (r : UnderwritingRunResult V.Score)
        → (run (with_lead_service V) T lead_id question token id now d).0 ≡ some r
        → (user : RequestUser) × (lead : Lead) × (authenticate J (bearer token) ≡ some user)
          × (find (has_id lead_id) (P.leads.rows s.leads) ≡ some lead)
          × ((lead.user_id ≡ user.user_id) ⊎ (is_staff user.role ≡ true))
    unfolding run
    run-authenticate r h =
        elim (Option-cases (prepare (with_lead_service V) T lead_id question token id now)) [
          | inl failed ↦ cc (rw (run, failed) at h)
          | inr (result, made) ↦
              let (snapshot, given) = prepare-snapshot result made in
              let (user, lead, known, passed) = snapshot-found lead_id token snapshot given in
              let (found, may) = find_accessible-ok P lead_id user s lead passed in
              (user, lead, known, found, may)
        ]
