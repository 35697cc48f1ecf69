-- ===== src/Ai/Tracing.antt =====
-- apps/ai-orchestrator/src/telemetry/langsmith.provider.ts: the tags and the metadata of a run.
use Prim.Native.String
use oneandro_clone.Prelude.{
  String, ◌≡◌, refl, Bool, false, Option, none, some, List, [], ◌∷◌, or_else, truthy, ◌==◌,
  if◌then◌else◌,
}

pub data Tier : Type 0 where
  tier1_qa tier2_underwriting : Tier

unfoldable pub tier_text : Tier → String
tier_text tier1_qa = "tier1-qa"
tier_text tier2_underwriting = "tier2-underwriting"

pub record TraceContext : Type 0 where
  pub tier : Tier
  pub lead_id : Option String
  pub user_id : Option String
  pub cache_hit : Option Bool

pub data MetadataValue : Type 0 where
  text : String → MetadataValue
  flag : Bool → MetadataValue

-- The fields of an object by their names.
abbrev pub Metadata : Type 0
Metadata = String → Option MetadataValue

-- `RunnableConfig`, as far as it is read or written here.
pub record RunnableConfig : Type 0 where
  pub run_name : Option String
  pub tags : Option (List String)
  pub metadata : Metadata

abbrev tags_or_none : Option (List String) → List String
tags_or_none none = []
tags_or_none (some tags) = tags

abbrev truthy_text : Option String → Option MetadataValue
truthy_text none = none
truthy_text (some t) = if t == "" then none else some (text t)

abbrev flag_if_set : Option Bool → Option MetadataValue
flag_if_set none = none
flag_if_set (some b) = some (flag b)

-- The fields that the service writes itself.
unfoldable pub standard_metadata : TraceContext → Metadata
standard_metadata context key =
    if key == "service"
    then some (text "ai-orchestrator")
    else if key == "tier"
    then some (text (tier_text context.tier))
    else if key == "leadId"
    then truthy_text context.lead_id
    else if key == "userId"
    then truthy_text context.user_id
    else if key == "cacheHit"
    then flag_if_set context.cache_hit
    else none

abbrev named : Option String → String → String
named none tier = tier
named (some lead_id) tier =
    if lead_id == "" then tier else String.◌++◌ tier (String.◌++◌ ":lead-" lead_id)

unfoldable pub run_name_of : TraceContext → String
run_name_of context = named context.lead_id (tier_text context.tier)

-- traceConfig
unfoldable pub trace_config : TraceContext → RunnableConfig → RunnableConfig
trace_config context overrides = record {
  run_name = or_else overrides.run_name (some (run_name_of context));
  tags = some (tier_text context.tier ∷ tags_or_none overrides.tags);
  metadata = λ key. or_else (overrides.metadata key) (standard_metadata context key);
}

-- What onModuleInit logs: that runs are not traced, or that the traces will be dropped.
pub data Warning : Type 0 where
  tracing_disabled api_key_unset : Warning

unfoldable pub on_module_init : Bool → Option String → List Warning
on_module_init tracing_enabled api_key =
    if tracing_enabled
    then (if truthy api_key then [] else api_key_unset ∷ [])
    else tracing_disabled ∷ []

-- A run of a lead is found by its tier and its lead, unless the caller names another lead itself.
pub trace_config-standard_metadata :
    (context : TraceContext) (overrides : RunnableConfig) (lead_id : String)
    → context.lead_id ≡ some lead_id
    → (lead_id == "") ≡ false
    → overrides.metadata "leadId" ≡ none
    → ((trace_config context overrides).metadata "leadId" ≡ some (text lead_id))
      × ((trace_config context overrides).tags
          ≡ some (tier_text context.tier ∷ tags_or_none overrides.tags))
unfolding trace_config standard_metadata
trace_config-standard_metadata context overrides lead_id known not_empty own =
    (rw (own, known, not_empty) refl, refl)
