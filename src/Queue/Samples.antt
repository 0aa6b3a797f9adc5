-- ===== src/Queue/Samples.antt =====
-- A configuration, a code outside and messages of owlclaw/triggers/queue to run on.
use owlclaw.Base.{
  List, Option, String, [], arith, concat, eq_iff, false, if◌then◌else◌, is_empty, length, lower,
  ltb, none, refl, some, string_eq, string_pair_eq, strip, true, ◌+◌, ◌<◌, ◌==◌, ◌∷◌, ◌≡◌, ◌≢◌,
}
use owlclaw.Base.Dict.{Dict, get, put}
use owlclaw.Base.Int.{pos}
use owlclaw.Base.Value.{null}
use owlclaw.Queue.Checks.{check_governance}
use owlclaw.Queue.Config.{QueueTriggerConfig}
use owlclaw.Queue.Effects.{
  Effect, Externals, GovernanceReply, Setup, TriggerOutcome, asked_store, check_raised, no_result,
  trigger_raised, trigger_returned,
}
use owlclaw.Queue.Idempotency.{Entries, lifetime, mock_exists, mock_store, purge_expired}
use owlclaw.Queue.Models.{MessageEnvelope, RawMessage, from_raw_message, parsed_as, text_payload}
use owlclaw.Queue.Processing.{process_message, processed, result_of}
use owlclaw.Queue.Processing.Dedup.{IsRemembering}
use owlclaw.Queue.Processing.Messages.{Reaches, parse_of}
use owlclaw.Queue.Redaction.{Patterns}
use owlclaw.Queue.Retry.{attempt_from}
use owlclaw.Queue.Retry.Attempts.{triggers}
use owlclaw.Queue.Runtime.{QueueTrigger, create_parser, no_metrics, returned}
use owlclaw.Queue.Tenant.{Secrets, default_tenant, resolve_tenant_id}
use owlclaw.Queue.Worker.{Worker, waiting}

abbrev pub config : QueueTriggerConfig
config = record {
  queue_name = "orders";
  consumer_group = "workers";
  concurrency = pos 1;
  ack_policy = "requeue";
  max_retries = pos 2;
  retry_backoff_base = pos 1000;
  retry_backoff_multiplier = pos 2000;
  idempotency_window = pos 3600;
  enable_dedup = true;
  parser_type = "text";
  event_name_header = "x-event-name";
  default_tenant_id = "default";
  trust_tenant_header = true;
  tenant_header_name = "x-tenant-id";
  trusted_producer_header = "x-producer-id";
  trusted_producers = none;
  tenant_signature_header = "x-tenant-signature";
  tenant_signature_secret_env = some "QUEUE_SECRET";
  tenant_signature_secret_envs = none;
  governance_fail_open = false;
  focus = none;
}

-- An HMAC that puts the secret before the text, and a comparison that refuses one character.
abbrev pub secrets : Secrets
secrets = record {
  getenv = λ name. "key";
  hmac_sha256 = λ secret text. concat (secret ∷ text ∷ []);
  compare_digest = λ a b. if a == "é" then none else some (a == b);
}

-- A runtime that raises on its first call.
abbrev pub flaky : List Effect → TriggerOutcome
flaky history =
    if ltb 1 (triggers history) then trigger_returned no_result else trigger_raised "busy"

abbrev pub patterns : Patterns
patterns = record { key_values = λ s. s; bearers = λ s. s; openai_keys = λ s. s }

abbrev pub externals_of : Option (List Effect → GovernanceReply) → Externals
externals_of check_permission = record {
  decoders = record { utf8 = λ s. parsed_as s; loads = λ s. parsed_as null };
  secrets = secrets;
  patterns = patterns;
  text_of = λ value. "";
  clock = length;
  perf_counter = length;
  check_permission = check_permission;
  trigger_event = some flaky;
  has_ledger = true;
  adapter_ok = λ history. true;
}

abbrev pub setup : Setup Entries
setup = record { config = config; store = some mock_store; externals = externals_of none }

abbrev pub crashed : List Effect → GovernanceReply
crashed history = check_raised

abbrev pub guarded : Setup Entries
guarded = record {
  config = config;
  store = some mock_store;
  externals = externals_of (some crashed);
}

abbrev pub raw_of : String → Dict String String → RawMessage
raw_of message_id headers = record {
  message_id = message_id;
  body = "sell";
  headers = headers;
  timestamp = record { micros = 5; offset = none };
}

abbrev pub plain : RawMessage
plain = raw_of "m1" []

abbrev pub again : RawMessage
again = raw_of "m1" []

abbrev pub signed : RawMessage
signed = raw_of "m2" (("x-tenant-id", "acme") ∷ ("x-tenant-signature", "keym2:acme:") ∷ [])

abbrev pub forged : RawMessage
forged = raw_of "m3" (("x-tenant-id", "acme") ∷ ("x-tenant-signature", "é") ∷ [])

abbrev pub envelope : RawMessage → MessageEnvelope
envelope raw = record {
  message_id = raw.message_id;
  payload = text_payload raw.body;
  headers = raw.headers;
  received_at = record { micros = 5; offset = some (pos 0) };
  source = "orders";
  dedup_key = none;
  event_name = none;
  tenant_id = get raw.headers "x-tenant-id";
}

abbrev pub idle : QueueTrigger Entries
idle = record {
  running = true;
  paused = true;
  workers = 1;
  processed_count = 0;
  failed_count = 0;
  dedup_hits = 0;
  metrics = no_metrics;
  entries = [];
  effects = [];
}

abbrev pub worker : Worker Entries
worker = record { phase = waiting; trigger = idle }

pub plain_parsed : parse_of setup plain ≡ parsed_as (envelope plain)
unfolding from_raw_message create_parser strip lower get
plain_parsed = refl

pub forged_parsed : parse_of setup forged ≡ parsed_as (envelope forged)
unfolding from_raw_message create_parser strip lower get
forged_parsed = refl

pub plain_tenant : resolve_tenant_id secrets config (envelope plain) ≡ some "default"
unfolding resolve_tenant_id strip lower get
plain_tenant = refl

pub signed_tenant : resolve_tenant_id secrets config (envelope signed) ≡ some "acme"
unfolding resolve_tenant_id strip lower get
signed_tenant = refl

pub forged_tenant : resolve_tenant_id secrets config (envelope forged) ≡ none
unfolding resolve_tenant_id strip lower get
forged_tenant = refl

pub plain-Reaches : Reaches setup (parse_of setup plain)
plain-Reaches = rw plain_parsed ("default", plain_tenant)

pub plain_processed :
    (process_message setup plain idle).0 ≡ returned (result_of plain processed none)
unfolding process_message strip lower get mock_store put mock_exists purge_expired attempt_from
plain_processed = refl

pub plain_asked :
    setup.externals.clock (
      asked_store "m1"
      ∷ (check_governance setup
          (envelope again)
          "default"
          (process_message setup plain idle).1).1.effects)
    < setup.externals.clock idle.effects + lifetime config.idempotency_window
unfolding process_message strip lower get mock_store put mock_exists purge_expired attempt_from
plain_asked = omega arith

pub acme_differs : "acme" ≢ default_tenant config
unfolding strip is_empty
acme_differs e = let h : false ≡ true = (eq_iff "acme" "default").1 e in absurd (cc)

pub setup-IsRemembering : IsRemembering setup
setup-IsRemembering = record {
  uses_mock = refl;
  dedups = refl;
  forward = λ effect effects. omega arith;
}
