-- ===== src/Config/ApiGateway.antt =====
-- apps/api-gateway/src/config/configuration.ts. The groups of the configuration are flattened into one record.
use oneandro_clone.Prelude.{List}
use oneandro_clone.Users.Email.{Text}
use oneandro_clone.Gateway.Routes.{codes}
use oneandro_clone.Config.{Boot, up, ◌>>=◌}
use oneandro_clone.Config.Numbers.{Integer}
use oneandro_clone.Config.Env.{Env, required, or_default, int_or_default, list_or_default}

pub record AppConfig : Type 0 where
  pub env : Text
  pub port : Integer
  pub service_name : Text
  pub cors_origins : List Text
  pub api_prefix : Text
  pub jwt_access_secret : Text
  pub redis_host : Text
  pub redis_port : Integer
  pub redis_password : Text
  pub window_ms : Integer
  pub general_max_requests : Integer
  pub auth_max_requests : Integer
  pub user_service_url : Text
  pub lead_service_url : Text
  pub ai_orchestrator_url : Text

unfoldable pub load : Env → Boot AppConfig
load env = do
  jwt_access_secret ← required env "JWT_ACCESS_SECRET"
  redis_password ← required env "REDIS_PASSWORD"
  user_service_url ← required env "USER_SERVICE_URL"
  lead_service_url ← required env "LEAD_SERVICE_URL"
  ai_orchestrator_url ← required env "AI_ORCHESTRATOR_URL"
  up (record {
    env = or_default env "NODE_ENV" (codes "development");
    port = int_or_default env "PORT" (codes "3000");
    service_name = or_default env "SERVICE_NAME" (codes "api-gateway");
    cors_origins = list_or_default env "CORS_ORIGINS" (codes "http://localhost:3000");
    api_prefix = or_default env "API_PREFIX" (codes "/api/v1");
    jwt_access_secret = jwt_access_secret;
    redis_host = or_default env "REDIS_HOST" (codes "redis");
    redis_port = int_or_default env "REDIS_PORT" (codes "6379");
    redis_password = redis_password;
    window_ms = int_or_default env "RATE_LIMIT_WINDOW_MS" (codes "60000");
    general_max_requests = int_or_default env "RATE_LIMIT_MAX_REQUESTS" (codes "100");
    auth_max_requests = int_or_default env "RATE_LIMIT_AUTH_MAX_REQUESTS" (codes "5");
    user_service_url = user_service_url;
    lead_service_url = lead_service_url;
    ai_orchestrator_url = ai_orchestrator_url;
  })
