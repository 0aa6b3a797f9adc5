-- ===== src/Queue/Runtime.antt =====
-- owlclaw/triggers/queue/trigger.py: the state of a `QueueTrigger`, its counters, and the calls that
-- start, stop and pause it.
use owlclaw.Base.{
  Bool, List, Option, String, [], false, if◌then◌else◌, lower, none, some, string_eq,
  string_pair_eq, strip, suc, true, ℕ, ◌+◌, ◌==◌, ◌∷◌,
}
use owlclaw.Base.Int.{pos_part}
use owlclaw.Queue.Config.{validate_config}
use owlclaw.Queue.Effects.{Disposition, Effect, Setup, connected, disconnected, settled}
use owlclaw.Queue.Models.{MessageParser, RawMessage, binary_parser, json_parser, text_parser}

-- The counters of `QueueTriggerMetrics`; latencies are in microseconds.
pub record Metrics : Type 0 where
  pub processed_total : ℕ
  pub failed_total : ℕ
  pub retries_total : ℕ
  pub dedup_hits_total : ℕ
  pub latency_sum : ℕ
  pub latency_count : ℕ

-- The fields of a `QueueTrigger` that change, the store's among them.
pub record QueueTrigger (S : Type 0) : Type 0 where
  pub running : Bool
  pub paused : Bool
  pub workers : ℕ
  pub processed_count : ℕ
  pub failed_count : ℕ
  pub dedup_hits : ℕ
  pub metrics : Metrics
  pub entries : S
  pub effects : List Effect

abbrev pub no_metrics : Metrics
no_metrics = record {
  processed_total = 0;
  failed_total = 0;
  retries_total = 0;
  dedup_hits_total = 0;
  latency_sum = 0;
  latency_count = 0;
}

-- `_create_parser`
unfoldable pub create_parser : String → MessageParser
create_parser parser_type =
    let name = strip (lower parser_type) in
    if name == "text" then text_parser else if name == "binary" then binary_parser else json_parser

-- A call that returns, or raises.
pub data Reply (A : Type 0) : Type 0 where
  returned : A → Reply A
  raised : Reply A

module _ {S : Type 0} where
  abbrev fresh_or_none : List String → S → Option (QueueTrigger S)
  fresh_or_none [] entries = some (record {
    running = false;
    paused = false;
    workers = 0;
    processed_count = 0;
    failed_count = 0;
    dedup_hits = 0;
    metrics = no_metrics;
    entries = entries;
    effects = [];
  })
  fresh_or_none (error ∷ errors) entries = none

  -- `__init__`; `none` is its ValueError.
  unfoldable pub new_trigger : Setup S → S → Option (QueueTrigger S)
  unfolding validate_config
  new_trigger setup entries = fresh_or_none (validate_config setup.config) entries

  abbrev pub log : Effect → QueueTrigger S → QueueTrigger S
  log effect t = record t { effects = effect ∷ t.effects }

  -- `_metrics.record_success`, with the trigger's own counter
  abbrev pub count_success : ℕ → QueueTrigger S → QueueTrigger S
  count_success duration t = record t {
    processed_count = suc t.processed_count;
    metrics = record t.metrics {
      processed_total = suc t.metrics.processed_total;
      latency_sum = t.metrics.latency_sum + duration;
      latency_count = suc t.metrics.latency_count;
    };
  }

  -- `_metrics.record_failure`, with the trigger's own counter
  abbrev pub count_failure : QueueTrigger S → QueueTrigger S
  count_failure t = record t {
    failed_count = suc t.failed_count;
    metrics = record t.metrics { failed_total = suc t.metrics.failed_total };
  }

  -- `_metrics.record_retry`
  abbrev pub count_retry : QueueTrigger S → QueueTrigger S
  count_retry t = record t {
    metrics = record t.metrics { retries_total = suc t.metrics.retries_total };
  }

  -- `_metrics.record_dedup_hit`, with the trigger's own counter
  abbrev pub count_dedup_hit : QueueTrigger S → QueueTrigger S
  count_dedup_hit t = record t {
    dedup_hits = suc t.dedup_hits;
    metrics = record t.metrics { dedup_hits_total = suc t.metrics.dedup_hits_total };
  }

  -- The rest of `start` and of `stop`, behind a call of the adapter that returned or raised.
  abbrev pub start_workers : Setup S → Bool → QueueTrigger S → Reply Unit × QueueTrigger S
  start_workers setup false t = (raised, t)
  start_workers setup true t =
      (returned tt, record t { workers = pos_part setup.config.concurrency })

  abbrev pub stop_workers : Bool → QueueTrigger S → Reply Unit × QueueTrigger S
  stop_workers false t = (raised, t)
  stop_workers true t = (returned tt, record t { workers = 0 })

  abbrev pub start_if : Bool → Setup S → QueueTrigger S → Reply Unit × QueueTrigger S
  start_if true setup t = (raised, t)
  start_if false setup t =
      let t' = record (log connected t) { running = true; paused = false } in
      start_workers setup (setup.externals.adapter_ok t'.effects) t'

  -- `start`; it raises when the trigger runs already.
  unfoldable pub start : Setup S → QueueTrigger S → Reply Unit × QueueTrigger S
  start setup t = start_if t.running setup t

  -- `stop`
  unfoldable pub stop : Setup S → QueueTrigger S → Reply Unit × QueueTrigger S
  stop setup t =
      let t' = record (log disconnected t) { running = false; paused = false } in
      stop_workers (setup.externals.adapter_ok t'.effects) t'

  -- `pause` and `resume`
  unfoldable pub pause_trigger : QueueTrigger S → QueueTrigger S
  pause_trigger t = record t { paused = true }

  unfoldable pub resume_trigger : QueueTrigger S → QueueTrigger S
  resume_trigger t = record t { paused = false }

  -- The adapter's call that ends a message.
  abbrev pub settle_message :
      Setup S → RawMessage → Disposition → QueueTrigger S → Reply Unit × QueueTrigger S
  settle_message setup raw d t =
      let t' = log (settled raw d) t in
      (if setup.externals.adapter_ok t'.effects then returned tt else raised, t')
