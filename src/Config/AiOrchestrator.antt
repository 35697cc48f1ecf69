-- ===== src/Config/AiOrchestrator.antt =====
-- apps/ai-orchestrator/src/config/configuration.ts. The groups of the configuration are flattened into one record.
-- `parseFloat` is of the language, a parameter.
use oneandro_clone.Prelude.{◌*◌, Bool, List, Option}
use oneandro_clone.Users.Email.{Text}
use oneandro_clone.Gateway.Routes.{codes}
use oneandro_clone.Config.{Boot, up, ◌>>=◌}
use oneandro_clone.Config.Numbers.{Integer, to_decimal}
use oneandro_clone.Config.Env.{
  Env, required, or_default, int_or_default, list_or_default, flag_or_default,
}

pub record AppConfig (Float : Type 0) : Type 0 where
  pub env : Text
  pub port : Integer
  pub service_name : Text
  pub cors_origins : List Text
  pub swagger_enabled : Bool
  pub jwt_access_secret : Text
  pub database_url : Text
  pub redis_host : Text
  pub redis_port : Integer
  pub redis_password : Text
  pub openai_api_key : Text
  pub openai_chat_model : Text
  pub openai_embedding_model : Text
  pub cohere_api_key : Text
  pub cohere_rerank_model : Text
  pub tracing_enabled : Bool
  pub langsmith_api_key : Option Text
  pub langsmith_project : Text
  pub langsmith_endpoint : Option Text
  pub ttl_seconds : Integer
  pub similarity_threshold : Float
  pub max_candidates : Integer
  pub lead_service_url : Text

unfoldable pub load : {Float : Type 0} → (Text → Float) → Env → Boot (AppConfig Float)
load parse_float env = do
  jwt_access_secret ← required env "JWT_ACCESS_SECRET"
  database_url ← required env "DATABASE_URL"
  redis_password ← required env "REDIS_PASSWORD"
  openai_api_key ← required env "OPENAI_API_KEY"
  cohere_api_key ← required env "COHERE_API_KEY"
  up (record {
    env = or_default env "NODE_ENV" (codes "development");
    port = int_or_default env "PORT" (codes "3003");
    service_name = or_default env "SERVICE_NAME" (codes "ai-orchestrator");
    cors_origins = list_or_default env "CORS_ORIGINS" (codes "http://localhost:3000");
    swagger_enabled = flag_or_default env "SWAGGER_ENABLED" (codes "true");
    jwt_access_secret = jwt_access_secret;
    database_url = database_url;
    redis_host = or_default env "REDIS_HOST" (codes "redis");
    redis_port = int_or_default env "REDIS_PORT" (codes "6379");
    redis_password = redis_password;
    openai_api_key = openai_api_key;
    openai_chat_model = or_default env "OPENAI_CHAT_MODEL" (codes "gpt-4o-mini");
    openai_embedding_model =
        or_default env "OPENAI_EMBEDDING_MODEL" (codes "text-embedding-3-small");
    cohere_api_key = cohere_api_key;
    cohere_rerank_model = or_default env "COHERE_RERANK_MODEL" (codes "rerank-v3.5");
    tracing_enabled = flag_or_default env "LANGCHAIN_TRACING_V2" (codes "false");
    langsmith_api_key = env "LANGCHAIN_API_KEY";
    langsmith_project = or_default env "LANGCHAIN_PROJECT" (codes "oneandro-clone-dev");
    langsmith_endpoint = env "LANGCHAIN_ENDPOINT";
    ttl_seconds = int_or_default env "SEMANTIC_CACHE_TTL_SECONDS" (to_decimal (24 * 60 * 60));
    similarity_threshold =
        parse_float (or_default env "SEMANTIC_CACHE_SIMILARITY_THRESHOLD" (codes "0.92"));
    max_candidates = int_or_default env "SEMANTIC_CACHE_MAX_CANDIDATES" (codes "500");
    lead_service_url = or_default env "LEAD_SERVICE_URL" (codes "http://lead-service-1:3002");
  })
