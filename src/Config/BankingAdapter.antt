-- ===== src/Config/BankingAdapter.antt =====
-- apps/banking-adapter-mock/src/config/configuration.ts. The groups of the configuration are flattened into one record.
use oneandro_clone.Prelude.{List}
use oneandro_clone.Users.Email.{Text}
use oneandro_clone.Gateway.Routes.{codes}
use oneandro_clone.Config.{Boot, up, ◌>>=◌}
use oneandro_clone.Config.Numbers.{Integer}
use oneandro_clone.Config.Env.{Env, required, or_default, int_or_default, list_or_default}

pub record AppConfig : Type 0 where
  pub env : Text
  pub port : Integer
  pub service_name : Text
  pub jwt_access_secret : Text
  pub kafka_brokers : List Text
  pub kafka_client_id : Text
  pub kafka_lead_status_topic : Text
  pub user_service_url : Text
  pub lead_service_url : Text
  pub smtp_host : Text
  pub smtp_port : Integer
  pub smtp_from_address : Text
  pub min_delay_ms : Integer
  pub max_delay_ms : Integer

unfoldable pub load : Env → Boot AppConfig
load env = do
  jwt_access_secret ← required env "JWT_ACCESS_SECRET"
  user_service_url ← required env "USER_SERVICE_URL"
  lead_service_url ← required env "LEAD_SERVICE_URL"
  up (record {
    env = or_default env "NODE_ENV" (codes "development");
    port = int_or_default env "PORT" (codes "3004");
    service_name = or_default env "SERVICE_NAME" (codes "banking-adapter-mock");
    jwt_access_secret = jwt_access_secret;
    kafka_brokers = list_or_default env "KAFKA_BROKER" (codes "kafka:9092");
    kafka_client_id = or_default env "KAFKA_CLIENT_ID" (codes "banking-adapter-mock");
    kafka_lead_status_topic =
        or_default env "KAFKA_TOPIC_LEAD_STATUS_EVENTS" (codes "lead-status-events");
    user_service_url = user_service_url;
    lead_service_url = lead_service_url;
    smtp_host = or_default env "SMTP_HOST" (codes "mailhog");
    smtp_port = int_or_default env "SMTP_PORT" (codes "1025");
    smtp_from_address = or_default env "SMTP_FROM_ADDRESS" (codes "notifications@oneandro.local");
    min_delay_ms = int_or_default env "HANDOFF_MIN_DELAY_MS" (codes "3000");
    max_delay_ms = int_or_default env "HANDOFF_MAX_DELAY_MS" (codes "8000");
  })
