-- ===== src/Queue/Processing/Dedup/Duplicates.antt =====
-- owlclaw/triggers/queue/trigger.py: a second message with the deduplication key of a processed one.
use owlclaw.Base.{List, String, arith, some, ◌+◌, ◌<◌, ◌∷◌, ◌≡◌}
use owlclaw.Queue.Checks.{check_governance}
use owlclaw.Queue.Decisions.{dedup_key_of}
use owlclaw.Queue.Effects.{Setup, asked_store}
use owlclaw.Queue.Idempotency.{Entries, lifetime}
use owlclaw.Queue.Models.{MessageEnvelope, RawMessage, parsed_as}
use owlclaw.Queue.Processing.{
  ProcessResult, ProcessStatus, deduplicated, governance_rejected, parse_error, process_message,
  processed, processing_error,
}
use owlclaw.Queue.Processing.Calls.{seen-triggers}
use owlclaw.Queue.Processing.Dedup.{Holds, IsRemembering, seen_before_live}
use owlclaw.Queue.Processing.Dedup.Once.{check_governance-Holds, run_events-Holds}
use owlclaw.Queue.Processing.Dedup.Window.{IfProcessed, OnProcessed, process_message-Remembers}
use owlclaw.Queue.Processing.Messages.{parse_of}
use owlclaw.Queue.Processing.Settlement.{result_status}
use owlclaw.Queue.Retry.Attempts.{triggers}
use owlclaw.Queue.Runtime.{QueueTrigger, Reply, returned}
use owlclaw.Queue.Tenant.{resolve_tenant_id}
use owlclaw.Queue.Worker.{Event, Worker, run_events}

from_processed :
    (status : ProcessStatus) (P : Type 0) → status ≡ processed → OnProcessed status P → P
from_processed processed P same p = p
from_processed deduplicated P same p = absurd (cc)
from_processed governance_rejected P same p = absurd (cc)
from_processed processing_error P same p = absurd (cc)
from_processed parse_error P same p = absurd (cc)

taken :
    (reply : Reply ProcessResult) (result : ProcessResult) (P : Type 0)
    → reply ≡ returned result
    → result.status ≡ processed
    → IfProcessed result_status reply P
    → P
taken reply result P answers done h =
    from_processed result.status P done
      (let h' : IfProcessed result_status (returned result) P = rw answers at h in h')

-- With deduplication on, over a `MockIdempotencyStore` whose clock does not go back: once a message is
-- processed, and whatever the worker does next, another message with its deduplication key does not
-- call the runtime, if the store is asked before the idempotency window, counted from the moment the
-- first message was taken up, is over.
pub process_message-once :
    (setup : Setup Entries) (r : IsRemembering setup) (raw raw' : RawMessage)
    (envelope envelope' : MessageEnvelope) (tenant_id : String) (result : ProcessResult)
    (t : QueueTrigger Entries) (events : List Event) (w : Worker Entries)
    → parse_of setup raw ≡ parsed_as envelope
    → (process_message setup raw t).0 ≡ returned result
    → result.status ≡ processed
    → w.trigger ≡ (process_message setup raw t).1
    → parse_of setup raw' ≡ parsed_as envelope'
    → dedup_key_of envelope' ≡ dedup_key_of envelope
    → resolve_tenant_id setup.externals.secrets setup.config envelope' ≡ some tenant_id
    → let t' = (run_events setup events w).trigger in
      let checked = (check_governance setup envelope' tenant_id t').1 in
      setup.externals.clock (asked_store (dedup_key_of envelope') ∷ checked.effects)
        < setup.externals.clock t.effects + lifetime setup.config.idempotency_window
      → triggers (process_message setup raw' t').1.effects ≡ triggers t'.effects
process_message-once setup r raw raw' envelope envelope' tenant_id result t events w parsed answers
      done after parsed' same resolved early =
    let key = dedup_key_of envelope in
    let deadline = setup.externals.clock t.effects + lifetime setup.config.idempotency_window in
    let run = process_message setup raw t in
    let t' = (run_events setup events w).trigger in
    let checked = (check_governance setup envelope' tenant_id t').1 in
    let first : Holds setup (some key) deadline run.1 =
      taken run.0 result (Holds setup (some key) deadline run.1) answers done
        (process_message-Remembers setup r deadline raw envelope t parsed (omega arith, λ _. tt)) in
    let later : Holds setup (some key) deadline t' =
      run_events-Holds setup r (some key) deadline events w (rw after first) in
    let asked : Holds setup (some key) deadline checked =
      check_governance-Holds setup r (some key) deadline envelope' tenant_id t' later in
    seen-triggers setup raw' envelope' tenant_id t' parsed' resolved
      (rw same (seen_before_live setup r key deadline checked asked (rw same at early)))
