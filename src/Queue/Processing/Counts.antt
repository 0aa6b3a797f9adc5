-- ===== src/Queue/Processing/Counts.antt =====
-- What the counters tell of a message that the adapter was called for.
use owlclaw.Base.{Option, String, ap, arith, none, refl, suc, sym, ℕ, ◌+◌, ◌-◌, ◌∙◌, ◌∷◌, ◌≡◌}
use owlclaw.Queue.Checks.{record_entry, success_entry}
use owlclaw.Queue.Effects.{Disposition, Setup}
use owlclaw.Queue.Models.{MessageEnvelope, RawMessage}
use owlclaw.Queue.Processing.{
  EnvelopeResult, ProcessResult, ProcessStatus, deduplicated, finish_message, governance_rejected,
  parse_error, processed, processing_error, result_of, trace_id_of,
}
use owlclaw.Queue.Processing.Frames.{Frames, Frames-trans, record_entry-Quiet}
use owlclaw.Queue.Processing.Settlement.{IsFitting, Says, bump, envelope_status, result_status}
use owlclaw.Queue.Retry.Attempts.{settlements}
use owlclaw.Queue.Runtime.{QueueTrigger, Reply, raised, returned}

-- What is counted before the adapter is called.
abbrev pub counted : ProcessStatus → ℕ
counted processed = 0
counted deduplicated = 1
counted governance_rejected = 1
counted processing_error = 1
counted parse_error = 1

module _ {S : Type 0} where
  -- The messages that the trigger's own counters know of.
  abbrev pub total : QueueTrigger S → ℕ
  total t = t.processed_count + t.failed_count + t.dedup_hits

  -- The trigger's counters are those of its metrics.
  abbrev pub IsBalanced : QueueTrigger S → Type 0
  IsBalanced t =
      (t.metrics.processed_total ≡ t.processed_count)
      × (t.metrics.failed_total ≡ t.failed_count)
      × (t.metrics.dedup_hits_total ≡ t.dedup_hits)
      × (t.metrics.latency_count ≡ t.processed_count)

  abbrev pub Tally :
      {A : Type 0} → ProcessStatus → Reply A → QueueTrigger S → QueueTrigger S → Type 0
  Tally status (returned a) t t' = total t' ≡ suc (total t)
  Tally status raised t t' = total t' ≡ counted status + total t

  abbrev pub Accounted :
      Setup S → RawMessage → QueueTrigger S → Reply ProcessResult × QueueTrigger S → Type 0
  Accounted setup raw t (reply, t') =
      (status : ProcessStatus) × (d : Disposition) × (settlements t'.effects
        ≡ (raw, d) ∷ settlements t.effects)
      × IsFitting setup.config status d
      × Says result_status status reply
      × Tally status reply t t'
      × (IsBalanced t → IsBalanced t')

  total-Frames : (t t' : QueueTrigger S) → Frames t t' → total t' ≡ total t
  total-Frames t t' h = ap (λ (x : QueueTrigger S). total x) h

  IsBalanced-Frames : (t t' : QueueTrigger S) → Frames t t' → IsBalanced t → IsBalanced t'
  IsBalanced-Frames t t' h (a, b, c, d) = (
    ap (λ (x : QueueTrigger S). x.metrics.processed_total) h
        ∙ a
        ∙ sym (ap (λ (x : QueueTrigger S). x.processed_count) h),
    ap (λ (x : QueueTrigger S). x.metrics.failed_total) h
        ∙ b
        ∙ sym (ap (λ (x : QueueTrigger S). x.failed_count) h),
    ap (λ (x : QueueTrigger S). x.metrics.dedup_hits_total) h
        ∙ c
        ∙ sym (ap (λ (x : QueueTrigger S). x.dedup_hits) h),
    ap (λ (x : QueueTrigger S). x.metrics.latency_count) h
        ∙ d
        ∙ sym (ap (λ (x : QueueTrigger S). x.processed_count) h),
  )

  total-bump :
      (status : ProcessStatus) (t : QueueTrigger S)
      → total (bump status t) ≡ counted status + total t
  total-bump processed t = omega arith
  total-bump deduplicated t = omega arith
  total-bump governance_rejected t = omega arith
  total-bump processing_error t = omega arith
  total-bump parse_error t = omega arith

  bump-IsBalanced :
      (status : ProcessStatus) (t : QueueTrigger S) → IsBalanced t → IsBalanced (bump status t)
  bump-IsBalanced processed t h = h
  bump-IsBalanced deduplicated t (a, b, c, d) = (a, b, ap suc c, d)
  bump-IsBalanced governance_rejected t (a, b, c, d) = (a, ap suc b, c, d)
  bump-IsBalanced processing_error t (a, b, c, d) = (a, ap suc b, c, d)
  bump-IsBalanced parse_error t (a, b, c, d) = (a, ap suc b, c, d)

  -- The same for a status that is counted before the adapter's call.
  pub returned-Accounted :
      (setup : Setup S) (raw : RawMessage) (status : ProcessStatus) (d : Disposition)
      (detail : Option String) (t t' : QueueTrigger S)
      → counted status ≡ 1
      → settlements t'.effects ≡ (raw, d) ∷ settlements t.effects
      → IsFitting setup.config status d
      → Frames (bump status t) t'
      → Accounted setup raw t (returned (result_of raw status detail), t')
  returned-Accounted setup raw status d detail t t' once settles fit frames = (
    status,
    d,
    settles,
    fit,
    refl,
    omega (arith, total-Frames (bump status t) t' frames, total-bump status t),
    λ h. IsBalanced-Frames (bump status t) t' frames (bump-IsBalanced status t h),
  )

  pub raised-Accounted :
      (setup : Setup S) (raw : RawMessage) (status : ProcessStatus) (d : Disposition)
      (t t' : QueueTrigger S)
      → settlements t'.effects ≡ (raw, d) ∷ settlements t.effects
      → IsFitting setup.config status d
      → Frames (bump status t) t'
      → Accounted setup raw t (raised, t')
  raised-Accounted setup raw status d t t' settles fit frames = (
    status,
    d,
    settles,
    fit,
    tt,
    omega (arith, total-Frames (bump status t) t' frames, total-bump status t),
    λ h. IsBalanced-Frames (bump status t) t' frames (bump-IsBalanced status t h),
  )

  success-Accounted :
      (setup : Setup S) (raw : RawMessage) (envelope : MessageEnvelope) (started : ℕ)
      (run_id : Option String) (tenant_id : String) (d : Disposition) (t t' : QueueTrigger S)
      → settlements t'.effects ≡ (raw, d) ∷ settlements t.effects
      → IsFitting setup.config processed d
      → Frames t t'
      → Accounted setup raw t
          (finish_message setup raw envelope started (returned (processed, run_id, tenant_id), t'))
  unfolding finish_message
  success-Accounted setup raw envelope started run_id tenant_id d t t' settles fit frames =
      let duration = setup.externals.perf_counter t'.effects - started in
      let entry = success_entry setup envelope tenant_id (trace_id_of raw) duration run_id in
      let recording = record_entry-Quiet setup entry t' in
      let t'' = record_entry setup entry t' in
      let all = Frames-trans t t' t'' frames recording.0 in
      (
        processed,
        d,
        recording.1 ∙ settles,
        fit,
        refl,
        omega (arith, total-Frames t t'' all),
        λ h. let (a, b, c, e) = IsBalanced-Frames t t'' all h in (ap suc a, b, c, ap suc e),
      )

  pub finish_message-Accounted :
      (setup : Setup S) (raw : RawMessage) (envelope : MessageEnvelope) (started : ℕ)
      (status : ProcessStatus) (d : Disposition) (reply : Reply EnvelopeResult)
      (t t' : QueueTrigger S)
      → settlements t'.effects ≡ (raw, d) ∷ settlements t.effects
      → IsFitting setup.config status d
      → Frames (bump status t) t'
      → Says envelope_status status reply
      → Accounted setup raw t (finish_message setup raw envelope started (reply, t'))
  unfolding finish_message
  finish_message-Accounted setup raw envelope started status d raised t t' settles fit frames says =
      raised-Accounted setup raw status d t t' settles fit frames
  finish_message-Accounted setup raw envelope started status d (returned (s, run_id, tenant_id)) t
        t' settles fit frames says =
      go s (rw says fit) (rw says frames)
    where
      go :
          (s : ProcessStatus)
          → IsFitting setup.config s d
          → Frames (bump s t) t'
          → Accounted setup raw t
              (finish_message setup raw envelope started (returned (s, run_id, tenant_id), t'))
      go processed fit frames =
          success-Accounted setup raw envelope started run_id tenant_id d t t' settles fit frames
      go deduplicated fit frames =
          returned-Accounted setup raw deduplicated d none t t' refl settles fit frames
      go governance_rejected fit frames =
          returned-Accounted setup raw governance_rejected d none t t' refl settles fit frames
      go processing_error fit frames =
          returned-Accounted setup raw processing_error d none t t' refl settles fit frames
      go parse_error fit frames =
          returned-Accounted setup raw parse_error d none t t' refl settles fit frames
