-- ===== src/Queue/Decisions/Policies.antt =====
-- owlclaw/triggers/queue/trigger.py: the two places that read `ack_policy`.
use owlclaw.Base.{
  Bool-cases, String, arith, eq_iff, false, if◌then◌else◌, inl, inr, member, refl, string_eq,
  string_pair_eq, ◌==◌, ◌≡◌,
}
use owlclaw.Queue.Config.{ack_policies}
use owlclaw.Queue.Decisions.{error_disposition, rejection_disposition}
use owlclaw.Queue.Effects.{acked}

swapped : (a b : String) → (a == b) ≡ false → (b == a) ≡ false
swapped a b h = ground (arith, eq_iff a b, eq_iff b a)

-- A rejected message and one that fails are disposed of the same way, for the four policies of a valid
-- configuration; for any other text the one is acked and the other goes to the dead-letter queue.

-- A rejected message and one that fails are disposed of the same way, for the four policies of a valid
-- configuration; for any other text the one is acked and the other goes to the dead-letter queue.
pub disposition_agrees :
    (policy reason : String)
    → rejection_disposition policy reason
      ≡ (if member policy ack_policies then error_disposition policy reason else acked)
unfolding rejection_disposition error_disposition member
disposition_agrees policy reason = elim (Bool-cases (policy == "ack")) [
  | inl e ↦ rw ((eq_iff policy "ack").0 e) refl
  | inr a ↦ elim (Bool-cases (policy == "nack")) [
    | inl e ↦ rw ((eq_iff policy "nack").0 e) refl
    | inr n ↦ elim (Bool-cases (policy == "requeue")) [
      | inl e ↦ rw ((eq_iff policy "requeue").0 e) refl
      | inr r ↦ elim (Bool-cases (policy == "dlq")) [
        | inl e ↦ rw ((eq_iff policy "dlq").0 e) refl
        | inr d ↦
            rw
              (
                a,
                n,
                r,
                d,
                swapped policy "ack" a,
                swapped policy "nack" n,
                swapped policy "requeue" r,
                swapped policy "dlq" d,
              )
              refl
      ]
    ]
  ]
]
