-- ===== src/Config/Examples.antt =====
-- A service that starts, and readings of values.
use oneandro_clone.Prelude.{◌≡◌, refl, none, some, [], ◌∷◌, ◌==◌, if◌then◌else◌}
use oneandro_clone.Gateway.Routes.{codes}
use oneandro_clone.Config.{stopped_by}
use oneandro_clone.Config.Env.{Env, first_unset}
use oneandro_clone.Config.Numbers.{plus, is_digit, parse_int, to_decimal}
use oneandro_clone.Config.Lists.{split, join}
use oneandro_clone.Config.LeadService
use oneandro_clone.Config.UserService
use oneandro_clone.Config.ApiGateway
use oneandro_clone.Config.BankingAdapter
use oneandro_clone.Config.AiOrchestrator
use oneandro_clone.Config.Required.{
  lead_service_variables, user_service_variables, api_gateway_variables, banking_adapter_variables,
  ai_orchestrator_variables, load-required,
}
use oneandro_clone.Prelude.{true}
use oneandro_clone.Users.Email.{text_eq, trim_start, trim_end, is_space}
use oneandro_clone.Config.Env.{
  is_blank, required, or_default, int_or_default, list_or_default, flag_or_default,
}
use oneandro_clone.Config.Numbers.{is_digit, read_digits, digits_of}
use oneandro_clone.Config.Written.{load-written}

-- Only what lead-service and user-service require is set; the secret of redis is blank.
abbrev env : Env
env name =
    if name == "JWT_ACCESS_SECRET"
    then some (codes "s3cret")
    else if name == "DATABASE_URL"
    then some (codes "postgres://db")
    else if name == "REDIS_PASSWORD"
    then some (codes "  ")
    else none

load-required_example :
    (stopped_by (LeadService.load env) ≡ first_unset env lead_service_variables)
    × (stopped_by (UserService.load env) ≡ first_unset env user_service_variables)
    × (stopped_by (ApiGateway.load env) ≡ first_unset env api_gateway_variables)
    × (stopped_by (BankingAdapter.load env) ≡ first_unset env banking_adapter_variables)
    × (stopped_by (AiOrchestrator.load parse_int env) ≡ first_unset env ai_orchestrator_variables)
load-required_example = load-required parse_int env

-- What lead-service requires, and three values of its own.
abbrev written : Env
written name =
    if name == "PORT"
    then some (to_decimal 80)
    else if name == "KYC_MAX_FILE_SIZE_BYTES"
    then some (to_decimal 50)
    else if name == "KAFKA_BROKER"
    then some (join b',' (codes "a:1") (codes "b:2" ∷ []))
    else env name

abbrev configured : LeadService.AppConfig
configured = record {
  env = codes "development";
  port = plus 80;
  service_name = codes "lead-service";
  cors_origins = codes "http://localhost:3000" ∷ [];
  swagger_enabled = true;
  jwt_access_secret = codes "s3cret";
  database_url = codes "postgres://db";
  kafka_brokers = codes "a:1" ∷ codes "b:2" ∷ [];
  kafka_client_id = codes "lead-service";
  kafka_lead_status_topic = codes "lead-status-events";
  kyc_storage_dir = codes "/app/storage/kyc";
  kyc_max_file_size_bytes = plus 50;
}

load-written_example :
    (configured.port ≡ plus 80)
    × (configured.kyc_max_file_size_bytes ≡ plus 50)
    × (configured.kafka_brokers ≡ codes "a:1" ∷ codes "b:2" ∷ [])
unfolding LeadService.load required is_blank text_eq trim_start trim_end is_space or_default
    int_or_default list_or_default flag_or_default parse_int read_digits is_digit to_decimal
    digits_of split
load-written_example =
    load-written written configured 80 50 (codes "a:1") (codes "b:2" ∷ []) refl refl refl refl refl
      (refl, tt)
