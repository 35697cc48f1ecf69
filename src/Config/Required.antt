-- ===== src/Config/Required.antt =====
-- Which services start in which environment.
use oneandro_clone.Prelude.{String, ◌≡◌, List, [], ◌∷◌}
use oneandro_clone.Users.Email.{Text}
use oneandro_clone.Config.{stopped_by}
use oneandro_clone.Config.Env.{Env, first_unset, stopped_by-required, first_unset-nil}
use oneandro_clone.Config.LeadService
use oneandro_clone.Config.UserService
use oneandro_clone.Config.ApiGateway
use oneandro_clone.Config.BankingAdapter
use oneandro_clone.Config.AiOrchestrator

abbrev pub lead_service_variables : List String
lead_service_variables = "JWT_ACCESS_SECRET" ∷ "DATABASE_URL" ∷ []

abbrev pub user_service_variables : List String
user_service_variables = "JWT_ACCESS_SECRET" ∷ "DATABASE_URL" ∷ []

abbrev pub api_gateway_variables : List String
api_gateway_variables =
    "JWT_ACCESS_SECRET" ∷ "REDIS_PASSWORD" ∷ "USER_SERVICE_URL" ∷ "LEAD_SERVICE_URL"
    ∷ "AI_ORCHESTRATOR_URL" ∷ []

abbrev pub banking_adapter_variables : List String
banking_adapter_variables = "JWT_ACCESS_SECRET" ∷ "USER_SERVICE_URL" ∷ "LEAD_SERVICE_URL" ∷ []

abbrev pub ai_orchestrator_variables : List String
ai_orchestrator_variables =
    "JWT_ACCESS_SECRET" ∷ "DATABASE_URL" ∷ "REDIS_PASSWORD" ∷ "OPENAI_API_KEY" ∷ "COHERE_API_KEY"
    ∷ []

lead_service-load :
    (env : Env) → stopped_by (LeadService.load env) ≡ first_unset env lead_service_variables
unfolding LeadService.load
lead_service-load env = stopped_by-required env "JWT_ACCESS_SECRET" _ _ (λ jwt_access_secret.
    stopped_by-required env "DATABASE_URL" _ _ (λ database_url. first_unset-nil env))

user_service-load :
    (env : Env) → stopped_by (UserService.load env) ≡ first_unset env user_service_variables
unfolding UserService.load
user_service-load env = stopped_by-required env "JWT_ACCESS_SECRET" _ _ (λ jwt_access_secret.
    stopped_by-required env "DATABASE_URL" _ _ (λ database_url. first_unset-nil env))

api_gateway-load :
    (env : Env) → stopped_by (ApiGateway.load env) ≡ first_unset env api_gateway_variables
unfolding ApiGateway.load
api_gateway-load env = stopped_by-required env "JWT_ACCESS_SECRET" _ _ (λ jwt_access_secret.
    stopped_by-required env "REDIS_PASSWORD" _ _ (λ redis_password.
      stopped_by-required env "USER_SERVICE_URL" _ _ (λ user_service_url.
        stopped_by-required env "LEAD_SERVICE_URL" _ _ (λ lead_service_url.
          stopped_by-required env "AI_ORCHESTRATOR_URL" _ _
            (λ ai_orchestrator_url. first_unset-nil env)))))

banking_adapter-load :
    (env : Env) → stopped_by (BankingAdapter.load env) ≡ first_unset env banking_adapter_variables
unfolding BankingAdapter.load
banking_adapter-load env = stopped_by-required env "JWT_ACCESS_SECRET" _ _ (λ jwt_access_secret.
    stopped_by-required env "USER_SERVICE_URL" _ _ (λ user_service_url.
      stopped_by-required env "LEAD_SERVICE_URL" _ _ (λ lead_service_url. first_unset-nil env)))

ai_orchestrator-load :
    {Float : Type 0} (parse_float : Text → Float) (env : Env)
    → stopped_by (AiOrchestrator.load parse_float env) ≡ first_unset env ai_orchestrator_variables
unfolding AiOrchestrator.load
ai_orchestrator-load parse_float env =
    stopped_by-required env "JWT_ACCESS_SECRET" _ _ (λ jwt_access_secret.
      stopped_by-required env "DATABASE_URL" _ _ (λ database_url.
        stopped_by-required env "REDIS_PASSWORD" _ _ (λ redis_password.
          stopped_by-required env "OPENAI_API_KEY" _ _ (λ openai_api_key.
            stopped_by-required env "COHERE_API_KEY" _ _ (λ cohere_api_key. first_unset-nil env)))))

-- The configuration of every service loads, that is, does not throw, exactly if each of its required
-- variables is there and not blank; otherwise its error names the first one that is not, in the order of
-- the configuration. (What is loaded may still keep the service from starting, such as a port that is no
-- number.)
pub load-required :
    {Float : Type 0} (parse_float : Text → Float) (env : Env)
    → (stopped_by (LeadService.load env) ≡ first_unset env lead_service_variables)
      × (stopped_by (UserService.load env) ≡ first_unset env user_service_variables)
      × (stopped_by (ApiGateway.load env) ≡ first_unset env api_gateway_variables)
      × (stopped_by (BankingAdapter.load env) ≡ first_unset env banking_adapter_variables)
      × (stopped_by (AiOrchestrator.load parse_float env)
          ≡ first_unset env ai_orchestrator_variables)
load-required parse_float env = (
  lead_service-load env,
  user_service-load env,
  api_gateway-load env,
  banking_adapter-load env,
  ai_orchestrator-load parse_float env,
)
