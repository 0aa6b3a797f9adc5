-- ===== src/Queue/Effects.antt =====
-- owlclaw/triggers/queue/trigger.py: what leaves a `QueueTrigger` and what comes back. Every call to
-- the outside is an `Effect` in a list, the newest first; what the other side answers is a function of
-- that list, which begins with the call itself.
use owlclaw.Base.{Bool, List, Option, String, ℕ}
use owlclaw.Base.Dict.{Dict}
use owlclaw.Base.Int.{ℤ}
use owlclaw.Base.Value.{Fields, Value}
use owlclaw.Queue.Config.{QueueTriggerConfig}
use owlclaw.Queue.Idempotency.{IdempotencyStore}
use owlclaw.Queue.Models.{Decoders, Payload, RawMessage, Timestamp}
use owlclaw.Queue.Redaction.{Patterns}
use owlclaw.Queue.Tenant.{Secrets}

-- What is done with a message in the end: `ack`, `nack(requeue=…)` or `send_to_dlq(reason=…)`.
pub data Disposition : Type 0 where
  acked : Disposition
  nacked : Bool → Disposition
  dead_lettered : String → Disposition

-- The context that the governance check gets, without the constant `source`.
pub record GovernanceContext : Type 0 where
  pub queue : String
  pub message_id : String
  pub tenant_id : String
  pub event_name : String

-- The arguments of `trigger_event`; the payload's `received_at` is kept as the time itself.
pub record TriggerRequest : Type 0 where
  pub event_name : String
  pub message : Payload
  pub headers : Dict String String
  pub source : String
  pub message_id : String
  pub received_at : Timestamp
  pub trace_id : String
  pub focus : Option String
  pub tenant_id : String

pub record ExecutionOutput : Type 0 where
  pub status : String
  pub duration_ms : ℕ
  pub agent_run_id : Option String

-- The arguments of `record_execution` that are not the same in every call.
pub record LedgerEntry : Type 0 where
  pub tenant_id : String
  pub run_id : String
  pub input_params : Dict String (Option String)
  pub output_result : Option ExecutionOutput
  pub decision_reasoning : String
  pub execution_time_ms : ℕ
  pub status : String
  pub error_message : Option String

-- numerator / 1000 ^ places seconds
pub record Delay : Type 0 where
  pub numerator : ℕ
  pub places : ℕ

pub data Effect : Type 0 where
  asked_permission : GovernanceContext → Effect
  asked_store : String → Effect
  wrote_store : String → Value → ℤ → Effect
  triggered : TriggerRequest → Effect
  slept : Delay → Effect
  settled : RawMessage → Disposition → Effect
  recorded : LedgerEntry → Effect
  connected disconnected : Effect

-- What `check_permission` does: it raises, or returns a bool, a dict or an object with attributes.
pub data GovernanceReply : Type 0 where
  check_raised : GovernanceReply
  said : Bool → GovernanceReply
  said_dict said_object : Fields → GovernanceReply

-- What `trigger_event` returns: `None`, a dict or an object with attributes.
pub data TriggerResult : Type 0 where
  no_result : TriggerResult
  dict_result object_result : Fields → TriggerResult

pub data TriggerOutcome : Type 0 where
  trigger_returned : TriggerResult → TriggerOutcome
  trigger_raised : String → TriggerOutcome

-- The code outside: clocks in microseconds, `str`, the runtime, the governance layer, the ledger
-- and the adapter, each call of which returns (`true`) or raises.
pub record Externals : Type 0 where
  pub decoders : Decoders
  pub secrets : Secrets
  pub patterns : Patterns
  pub text_of : Value → String
  pub clock : List Effect → ℕ
  pub perf_counter : List Effect → ℕ
  pub check_permission : Option (List Effect → GovernanceReply)
  pub trigger_event : Option (List Effect → TriggerOutcome)
  pub has_ledger : Bool
  pub adapter_ok : List Effect → Bool

-- What the constructor is given.
pub record Setup (S : Type 0) : Type 0 where
  pub config : QueueTriggerConfig
  pub store : Option (IdempotencyStore S)
  pub externals : Externals
