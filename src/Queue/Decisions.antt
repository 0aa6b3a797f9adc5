-- ===== src/Queue/Decisions.antt =====
-- owlclaw/triggers/queue/trigger.py: the pure parts of a message's processing: what a governance
-- reply means, which of the adapter's calls a policy asks for, and what is read off a result.
pub mod Policies
use owlclaw.Base.{
  Bool, Option, String, false, if◌then◌else◌, none, some, string_eq, string_pair_eq, true, ◌==◌,
}
use owlclaw.Base.Value.{Value, dict, end, field, find_field, get_field, is_set, null, str}
use owlclaw.Queue.Effects.{
  Disposition, GovernanceReply, TriggerResult, acked, check_raised, dead_lettered, dict_result,
  nacked, no_result, object_result, said, said_dict, said_object,
}
use owlclaw.Queue.Models.{MessageEnvelope}
use owlclaw.Queue.Tenant.{or_missing, or_text}

pub record GovernanceDecision : Type 0 where
  pub allowed : Bool
  pub reason : String
  pub policies : Value

abbrev pub allow : Bool → GovernanceDecision
allow b = record { allowed = b; reason = ""; policies = null }

-- `bool(result.get("allowed", True))` and `str(result.get("reason", ""))`
abbrev set_or_true : Option Value → Bool
set_or_true none = true
set_or_true (some value) = is_set value

abbrev text_or_empty : (Value → String) → Option Value → String
text_or_empty text_of none = ""
text_or_empty text_of (some value) = text_of value

abbrev dict_or_none : Value → Value
dict_or_none (dict fields) = dict fields
dict_or_none _ = null

-- What `_check_governance` makes of the reply.
unfoldable pub decide : Bool → (Value → String) → GovernanceReply → GovernanceDecision
decide fail_open text_of check_raised = record {
  allowed = fail_open;
  reason = "governance_unavailable";
  policies = null;
}
decide fail_open text_of (said b) = allow b
decide fail_open text_of (said_dict fields) = record {
  allowed = set_or_true (find_field fields "allowed");
  reason = text_or_empty text_of (find_field fields "reason");
  policies = get_field fields "policies";
}
decide fail_open text_of (said_object fields) = record {
  allowed = set_or_true (find_field fields "allowed");
  reason = text_or_empty text_of (find_field fields "reason");
  policies = dict_or_none (get_field fields "policies");
}

-- The adapter's call behind a rejection, by the policy.
unfoldable pub rejection_disposition : String → String → Disposition
rejection_disposition policy reason =
    if policy == "dlq"
    then dead_lettered reason
    else if policy == "requeue"
    then nacked true
    else if policy == "nack"
    then nacked false
    else acked

-- The adapter's call behind an error, by the policy: the body of `_handle_processing_error`.
unfoldable pub error_disposition : String → String → Disposition
error_disposition policy reason =
    if policy == "ack"
    then acked
    else if policy == "nack"
    then nacked false
    else if policy == "requeue"
    then nacked true
    else dead_lettered reason

abbrev pub dedup_key_of : MessageEnvelope → String
dedup_key_of envelope = or_text (or_missing envelope.dedup_key) envelope.message_id

-- The value of `run_id or agent_run_id`.
abbrev first_set : Value → Value → Value
first_set value rest = if is_set value then value else rest

abbrev text_unless_none : (Value → String) → Value → Option String
text_unless_none text_of null = none
text_unless_none text_of value = some (text_of value)

-- `_extract_agent_run_id`
unfoldable pub extract_agent_run_id : (Value → String) → TriggerResult → Option String
extract_agent_run_id text_of no_result = none
extract_agent_run_id text_of (dict_result fields) =
    text_unless_none text_of
      (first_set (get_field fields "run_id") (get_field fields "agent_run_id"))
extract_agent_run_id text_of (object_result fields) =
    text_unless_none text_of
      (first_set (get_field fields "run_id") (get_field fields "agent_run_id"))

-- The reason that a rejection is recorded and settled with.
abbrev pub reason_of : GovernanceDecision → String
reason_of decision = or_text decision.reason "governance_rejected"

abbrev pub processed_value : String → Value
processed_value trace_id =
    dict (field "trace_id" (str trace_id) (field "status" (str "processed") end))
