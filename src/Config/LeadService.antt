-- ===== src/Config/LeadService.antt =====
-- apps/lead-service/src/config/configuration.ts. The groups of the configuration are flattened into one record.
use oneandro_clone.Prelude.{◌*◌, Bool, List}
use oneandro_clone.Users.Email.{Text}
use oneandro_clone.Gateway.Routes.{codes}
use oneandro_clone.Config.{Boot, up, ◌>>=◌}
use oneandro_clone.Config.Numbers.{Integer, to_decimal}
use oneandro_clone.Config.Env.{
  Env, required, or_default, int_or_default, list_or_default, flag_or_default,
}

pub record AppConfig : Type 0 where
  pub env : Text
  pub port : Integer
  pub service_name : Text
  pub cors_origins : List Text
  pub swagger_enabled : Bool
  pub jwt_access_secret : Text
  pub database_url : Text
  pub kafka_brokers : List Text
  pub kafka_client_id : Text
  pub kafka_lead_status_topic : Text
  pub kyc_storage_dir : Text
  pub kyc_max_file_size_bytes : Integer

unfoldable pub load : Env → Boot AppConfig
load env = do
  jwt_access_secret ← required env "JWT_ACCESS_SECRET"
  database_url ← required env "DATABASE_URL"
  up (record {
    env = or_default env "NODE_ENV" (codes "development");
    port = int_or_default env "PORT" (codes "3002");
    service_name = or_default env "SERVICE_NAME" (codes "lead-service");
    cors_origins = list_or_default env "CORS_ORIGINS" (codes "http://localhost:3000");
    swagger_enabled = flag_or_default env "SWAGGER_ENABLED" (codes "true");
    jwt_access_secret = jwt_access_secret;
    database_url = database_url;
    kafka_brokers = list_or_default env "KAFKA_BROKER" (codes "kafka:9092");
    kafka_client_id = or_default env "KAFKA_CLIENT_ID" (codes "lead-service");
    kafka_lead_status_topic =
        or_default env "KAFKA_TOPIC_LEAD_STATUS_EVENTS" (codes "lead-status-events");
    kyc_storage_dir = or_default env "KYC_STORAGE_DIR" (codes "/app/storage/kyc");
    kyc_max_file_size_bytes =
        int_or_default env "KYC_MAX_FILE_SIZE_BYTES" (to_decimal (10 * 1024 * 1024));
  })
