-- ===== src/Queue/Config/Validation.antt =====
-- What a configuration without errors is good for.
use owlclaw.Base.{
  All, Bool, List, String, [], arith, false, member, not, refl, true, ℕ, ◌<◌, ◌∷◌, ◌≡◌,
}
use owlclaw.Base.Int.{leb_ℤ, ltb_ℤ, negsuc, pos, pos_part, ℤ}
use owlclaw.Queue.Config.{
  QueueTriggerConfig, ack_policies, config_checks, is_blank, messages_of, parser_types,
  validate_config,
}

-- The fields that the trigger relies on.
abbrev pub IsUsable : QueueTriggerConfig → Type 0
IsUsable c =
    (0 < pos_part c.concurrency)
    × ((n : ℕ) × (c.max_retries ≡ pos n))
    × (0 < pos_part c.idempotency_window)
    × (member c.ack_policy ack_policies ≡ true)
    × (member c.parser_type parser_types ≡ true)
    × (is_blank c.default_tenant_id ≡ false)

messages_of-nil :
    (checks : List (Bool × String))
    → messages_of checks ≡ []
    → All (λ check. check.0 ≡ false) checks
unfolding messages_of
messages_of-nil [] e = tt
messages_of-nil ((false, message) ∷ checks) e = (refl, messages_of-nil checks e)
messages_of-nil ((true, message) ∷ checks) e = absurd (cc)

positive : (z : ℤ) → leb_ℤ z (pos 0) ≡ false → 0 < pos_part z
positive (pos n) h = ground arith
positive (negsuc n) h = ground arith

natural : (z : ℤ) → ltb_ℤ z (pos 0) ≡ false → (n : ℕ) × (z ≡ pos n)
natural (pos n) h = (n, refl)
natural (negsuc n) h = absurd (ground arith)

false-not : (b : Bool) → not b ≡ false → b ≡ true
false-not true h = refl
false-not false h = absurd (cc)

-- A configuration that `validate_config` finds no error in has a worker to start, retries and a window
-- that are no negative numbers, one of the four policies, one of the three parsers and a default tenant.
pub validate_config-IsUsable : (c : QueueTriggerConfig) → validate_config c ≡ [] → IsUsable c
unfolding validate_config config_checks
validate_config-IsUsable c e =
    let (_, (_, (workers, (retries, (_, (_, (window, (policy, (parser, (tenant, _)))))))))) =
      messages_of-nil (config_checks c) e in
    (
      positive c.concurrency workers,
      natural c.max_retries retries,
      positive c.idempotency_window window,
      false-not (member c.ack_policy ack_policies) policy,
      false-not (member c.parser_type parser_types) parser,
      tenant,
    )
