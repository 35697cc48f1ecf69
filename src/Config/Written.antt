-- ===== src/Config/Written.antt =====
-- Values in the environment of lead-service, and what its configuration makes of them.
use oneandro_clone.Prelude.{
  ℕ, ◌*◌, String, ◌≡◌, refl, sym, ap, ◌∙◌, inl, inr, ◌⊎◌, some, List, [], ◌∷◌, All,
}
use oneandro_clone.Users.Email.{Text}
use oneandro_clone.Gateway.Routes.{codes}
use oneandro_clone.Config.{Boot, up, missing}
use oneandro_clone.Config.Numbers.{Integer, nan, plus, to_decimal, parse_int-to_decimal_alone}
use oneandro_clone.Config.Lists.{join, IsWhole, split-join}
use oneandro_clone.Config.Env.{Env, required, or_default, int_or_default, list_or_default}
use oneandro_clone.Config.LeadService.{AppConfig, load}

Boot-cases :
    {A : Type 0} (b : Boot A) → ((a : A) × (b ≡ up a)) ⊎ ((name : String) × (b ≡ missing name))
Boot-cases (up a) = inl (a, refl)
Boot-cases (missing name) = inr (name, refl)

abbrev numbers_of : Boot AppConfig → Integer × Integer
numbers_of (up cfg) = (cfg.port, cfg.kyc_max_file_size_bytes)
numbers_of (missing name) = (nan, nan)

abbrev brokers_of : Boot AppConfig → List Text
brokers_of (up cfg) = cfg.kafka_brokers
brokers_of (missing name) = []

int_or_default-written :
    (env : Env) (name : String) (value : Text) (n : ℕ)
    → env name ≡ some (to_decimal n)
    → int_or_default env name value ≡ plus n
unfolding int_or_default or_default
int_or_default-written env name value n h = rw (or_default, h) (parse_int-to_decimal_alone n)

list_or_default-written :
    (env : Env) (name : String) (value piece : Text) (pieces : List Text)
    → env name ≡ some (join b',' piece pieces)
    → IsWhole b',' piece
    → All (IsWhole b',') pieces
    → list_or_default env name value ≡ piece ∷ pieces
unfolding list_or_default or_default
list_or_default-written env name value piece pieces h whole rest =
    rw (or_default, h) (split-join b',' piece pieces whole rest)

load-fields :
    (env : Env) (cfg : AppConfig)
    → load env ≡ up cfg
    → (cfg.port ≡ int_or_default env "PORT" (codes "3002"))
      × (cfg.kyc_max_file_size_bytes
          ≡ int_or_default env "KYC_MAX_FILE_SIZE_BYTES" (to_decimal (10 * 1024 * 1024)))
      × (cfg.kafka_brokers ≡ list_or_default env "KAFKA_BROKER" (codes "kafka:9092"))
unfolding load
load-fields env cfg h = elim (Boot-cases (required env "JWT_ACCESS_SECRET")) [
  | inr (name, stop) ↦ cc (rw (load, stop) at h)
  | inl (secret, set) ↦ (elim (Boot-cases (required env "DATABASE_URL")) [
    | inr (name, stop) ↦ cc (rw (load, set, stop) at h)
    | inl (url, there) ↦
        let done = rw (load, set, there) at h in
        (
          sym (ap (λ b. (numbers_of b).0) done),
          sym (ap (λ b. (numbers_of b).1) done),
          sym (ap brokers_of done),
        )
  ])
]

-- If the configuration of lead-service loads, a port and a limit on the size of files that were written as decimals, and
-- brokers that were written with commas between, none of them with a comma in it, are what its
-- configuration holds.
pub load-written :
    (env : Env) (cfg : AppConfig) (port size : ℕ) (broker : Text) (brokers : List Text)
    → load env ≡ up cfg
    → env "PORT" ≡ some (to_decimal port)
    → env "KYC_MAX_FILE_SIZE_BYTES" ≡ some (to_decimal size)
    → env "KAFKA_BROKER" ≡ some (join b',' broker brokers)
    → IsWhole b',' broker
    → All (IsWhole b',') brokers
    → (cfg.port ≡ plus port)
      × (cfg.kyc_max_file_size_bytes ≡ plus size)
      × (cfg.kafka_brokers ≡ broker ∷ brokers)
load-written env cfg port size broker brokers started p q k whole rest =
    let (a, b, c) = load-fields env cfg started in
    (
      a ∙ int_or_default-written env "PORT" (codes "3002") port p,
      b
          ∙ int_or_default-written env "KYC_MAX_FILE_SIZE_BYTES" (to_decimal (10 * 1024 * 1024))
              size q,
      c
          ∙ list_or_default-written env "KAFKA_BROKER" (codes "kafka:9092") broker brokers k whole
              rest,
    )
