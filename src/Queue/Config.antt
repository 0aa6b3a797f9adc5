-- ===== src/Queue/Config.antt =====
-- owlclaw/triggers/queue/config.py: the configuration of a queue trigger and its validation. The
-- two floats of the backoff are given in thousandths.
pub mod Validation
use owlclaw.Base.{
  Bool, List, Option, String, [], false, if◌then◌else◌, is_empty, member, none, not, some, strip,
  ◌||◌, ◌∷◌,
}
use owlclaw.Base.Int.{leb_ℤ, ltb_ℤ, pos, ℤ}

pub record QueueTriggerConfig : Type 0 where
  pub queue_name : String
  pub consumer_group : String
  pub concurrency : ℤ
  pub ack_policy : String
  pub max_retries : ℤ
  pub retry_backoff_base : ℤ
  pub retry_backoff_multiplier : ℤ
  pub idempotency_window : ℤ
  pub enable_dedup : Bool
  pub parser_type : String
  pub event_name_header : String
  pub default_tenant_id : String
  pub trust_tenant_header : Bool
  pub tenant_header_name : String
  pub trusted_producer_header : String
  pub trusted_producers : Option (List String)
  pub tenant_signature_header : String
  pub tenant_signature_secret_env : Option String
  pub tenant_signature_secret_envs : Option (List String)
  pub governance_fail_open : Bool
  pub focus : Option String

abbrev pub ack_policies : List String
ack_policies = "ack" ∷ "nack" ∷ "requeue" ∷ "dlq" ∷ []

abbrev pub parser_types : List String
parser_types = "json" ∷ "text" ∷ "binary" ∷ []

-- `not s.strip()`
abbrev pub is_blank : String → Bool
is_blank s = is_empty (strip s)

abbrev pub any_blank : List String → Bool
any_blank [] = false
any_blank (s ∷ ss) = is_blank s || any_blank ss

abbrev pub given : {A : Type 0} → (A → Bool) → Option A → Bool
given test none = false
given test (some a) = test a

-- The tests of `validate_config` in order, each with its message.
unfoldable pub config_checks : QueueTriggerConfig → List (Bool × String)
config_checks c =
    (is_blank c.queue_name, "queue_name is required")
    ∷ (is_blank c.consumer_group, "consumer_group is required")
    ∷ (leb_ℤ c.concurrency (pos 0), "concurrency must be positive")
    ∷ (ltb_ℤ c.max_retries (pos 0), "max_retries must be non-negative")
    ∷ (leb_ℤ c.retry_backoff_base (pos 0), "retry_backoff_base must be positive")
    ∷ (ltb_ℤ c.retry_backoff_multiplier (pos 1000), "retry_backoff_multiplier must be >= 1")
    ∷ (leb_ℤ c.idempotency_window (pos 0), "idempotency_window must be positive")
    ∷ (
      not (member c.ack_policy ack_policies),
      "ack_policy must be one of ['ack', 'dlq', 'nack', 'requeue']",
    )
    ∷ (
      not (member c.parser_type parser_types),
      "parser_type must be one of ['binary', 'json', 'text']",
    )
    ∷ (is_blank c.default_tenant_id, "default_tenant_id is required")
    ∷ (is_blank c.tenant_header_name, "tenant_header_name is required")
    ∷ (is_blank c.trusted_producer_header, "trusted_producer_header is required")
    ∷ (is_blank c.tenant_signature_header, "tenant_signature_header is required")
    ∷ (given any_blank c.trusted_producers, "trusted_producers entries must be non-empty strings")
    ∷ (
      given is_blank c.tenant_signature_secret_env,
      "tenant_signature_secret_env must be non-empty when provided",
    )
    ∷ (
      given any_blank c.tenant_signature_secret_envs,
      "tenant_signature_secret_envs entries must be non-empty strings",
    )
    ∷ []

unfoldable pub messages_of : List (Bool × String) → List String
messages_of [] = []
messages_of ((wrong, message) ∷ checks) =
    let rest = messages_of checks in if wrong then message ∷ rest else rest

-- `validate_config`
unfoldable pub validate_config : QueueTriggerConfig → List String
unfolding config_checks messages_of
validate_config c = messages_of (config_checks c)
