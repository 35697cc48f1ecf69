-- ===== src/Config.antt =====
-- The configuration.ts of every service: how a service reads its environment when it starts.
pub mod Numbers
pub mod Lists
pub mod Env
pub mod LeadService
pub mod UserService
pub mod ApiGateway
pub mod BankingAdapter
pub mod AiOrchestrator
pub mod Required
pub mod Written
mod Examples
use oneandro_clone.Prelude.{String, Option, none, some}

-- `throw new Error(`Missing required environment variable: ${name}`)`: the name that is missing.
pub data Boot {ℓ} (A : Type ℓ) : Type ℓ where
  up : A → Boot A
  missing : String → Boot A

infixl 5 ◌>>=◌
abbrev pub ◌>>=◌ {ℓ κ} : {A : Type ℓ} {B : Type κ} → Boot A → (A → Boot B) → Boot B
up a >>= f = f a
missing name >>= f = missing name

-- Which variable stopped the service, if one did.
abbrev pub stopped_by {ℓ} : {A : Type ℓ} → Boot A → Option String
stopped_by (up a) = none
stopped_by (missing name) = some name
