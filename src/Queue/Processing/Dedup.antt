-- ===== src/Queue/Processing/Dedup.antt =====
-- owlclaw/triggers/queue: a key in a `MockIdempotencyStore`, from its write to its expiry.
pub mod Kept
pub mod Once
pub mod Window
pub mod Duplicates
use owlclaw.Base.{
  Bool-cases, List, Option, Option-cases, String, ap, arith, eq_iff, inl, inr, leb, leb→le, none,
  refl, some, string_eq, string_pair_eq, sym, true, ℕ, ◌+◌, ◌<◌, ◌==◌, ◌∙◌, ◌∷◌, ◌≡◌, ◌≤◌,
}
use owlclaw.Base.Dict.{get, get-put, get-put_self, get-remove, put, remove}
use owlclaw.Base.Options.{same_value}
use owlclaw.Base.Value.{Value}
use owlclaw.Queue.Checks.{ask_store, remember, seen_before, write_store}
use owlclaw.Queue.Decisions.{processed_value}
use owlclaw.Queue.Effects.{Effect, Setup, asked_store, wrote_store}
use owlclaw.Queue.Idempotency.{Entries, lifetime, mock_exists, mock_set, mock_store, purge_expired}
use owlclaw.Queue.Runtime.{QueueTrigger, log}

-- An entry under the key that is live before `deadline`.
abbrev pub HasUntil : String → ℕ → Entries → Type 0
HasUntil key deadline items =
    (value : Value) × (expires_at : ℕ) × (get items key ≡ some (value, expires_at))
    × (deadline ≤ expires_at)

remove-HasUntil :
    (key j : String) (deadline now : ℕ) (items : Entries) (value : Value) (expires_at : ℕ)
    → now < deadline
    → get items j ≡ some (value, expires_at)
    → leb expires_at now ≡ true
    → HasUntil key deadline items
    → HasUntil key deadline (remove items j)
remove-HasUntil key j deadline now items value expires_at early found over (v, e, here, late) =
    elim (Bool-cases (j == key)) [
      | inl same ↦
          let here' : get items j ≡ some (v, e) = rw ((eq_iff j key).0 same) here in
          let times : e ≡ expires_at =
            ap (λ (p : Value × ℕ). p.1)
              (same_value (v, e) (value, expires_at) (sym here' ∙ found)) in
          absurd (omega (arith, leb→le expires_at now over, times))
      | inr distinct ↦ (v, e, rw (get-remove items j key) (rw distinct here), late)
    ]

purge-HasUntil :
    (key j : String) (deadline now : ℕ) (items : Entries)
    → now < deadline
    → HasUntil key deadline items
    → HasUntil key deadline (purge_expired items now j)
unfolding purge_expired
purge-HasUntil key j deadline now items early h = elim (Option-cases (get items j)) [
  | inl gone ↦ rw gone h
  | inr ((value, expires_at), found) ↦ rw found (elim (Bool-cases (leb expires_at now)) [
    | inl over ↦
        rw over (remove-HasUntil key j deadline now items value expires_at early found over h)
    | inr still ↦ rw still h
  ])
]

put-HasUntil :
    (key j : String) (deadline expires_at : ℕ) (items : Entries) (value : Value)
    → deadline ≤ expires_at
    → HasUntil key deadline items
    → HasUntil key deadline (put items j (value, expires_at))
put-HasUntil key j deadline expires_at items value late (v, e, here, later) =
    elim (Bool-cases (j == key)) [
      | inl same ↦
          (value, expires_at, rw (get-put items j key (value, expires_at)) (rw same refl), late)
      | inr distinct ↦
          (v, e, rw (get-put items j key (value, expires_at)) (rw distinct here), later)
    ]

-- The same for a key, where one is asked for.
abbrev pub HeldUntil : Option String → ℕ → Entries → Type 0
HeldUntil none deadline items = Unit
HeldUntil (some key) deadline items = HasUntil key deadline items

purge-HeldUntil :
    (k : Option String) (j : String) (deadline now : ℕ) (items : Entries)
    → now < deadline
    → HeldUntil k deadline items
    → HeldUntil k deadline (purge_expired items now j)
purge-HeldUntil none j deadline now items early h = tt
purge-HeldUntil (some key) j deadline now items early h =
    purge-HasUntil key j deadline now items early h

put-HeldUntil :
    (k : Option String) (j : String) (deadline expires_at : ℕ) (items : Entries) (value : Value)
    → deadline ≤ expires_at
    → HeldUntil k deadline items
    → HeldUntil k deadline (put items j (value, expires_at))
put-HeldUntil none j deadline expires_at items value late h = tt
put-HeldUntil (some key) j deadline expires_at items value late h =
    put-HasUntil key j deadline expires_at items value late h

-- Deduplication is on, the store is a `MockIdempotencyStore`, and its clock does not go back.
pub record IsRemembering (setup : Setup Entries) : Type 0 where
  pub uses_mock : setup.store ≡ some mock_store
  pub dedups : setup.config.enable_dedup ≡ true
  pub forward :
      (effect : Effect) (effects : List Effect)
      → setup.externals.clock effects ≤ setup.externals.clock (effect ∷ effects)

-- Before the deadline the key is there; the deadline is no later than an entry written now would
-- expire.
abbrev pub Holds : Setup Entries → Option String → ℕ → QueueTrigger Entries → Type 0
Holds setup k deadline t =
    (deadline ≤ setup.externals.clock t.effects + lifetime setup.config.idempotency_window)
    × (setup.externals.clock t.effects < deadline → HeldUntil k deadline t.entries)

module _ (setup : Setup Entries) (r : IsRemembering setup) where
  pub log-Holds :
      (k : Option String) (deadline : ℕ) (effect : Effect) (t : QueueTrigger Entries)
      → Holds setup k deadline t
      → Holds setup k deadline (log effect t)
  log-Holds k deadline effect t (near, h) = (
    omega (arith, r.forward effect t.effects),
    λ early. h (omega (arith, r.forward effect t.effects)),
  )

  asks :
      (key : String) (t : QueueTrigger Entries)
      → seen_before setup key t ≡ ask_store setup key true (some mock_store) t
  unfolding seen_before
  asks key t =
      ap (λ b. ask_store setup key b setup.store t) r.dedups
      ∙ ap (λ o. ask_store setup key true o t) r.uses_mock

  pub seen_before-Holds :
      (k : Option String) (j : String) (deadline : ℕ) (t : QueueTrigger Entries)
      → Holds setup k deadline t
      → Holds setup k deadline (seen_before setup j t).1
  unfolding mock_store mock_exists
  seen_before-Holds k j deadline t h =
      let (near, kept) = log-Holds k deadline (asked_store j) t h in
      rw (asks j t) (
        near,
        λ early.
            purge-HeldUntil k j deadline (setup.externals.clock (asked_store j ∷ t.effects))
              t.entries early (kept early),
      )

  -- Within the time the key is live, it was seen before.
  pub seen_before_live :
      (key : String) (deadline : ℕ) (t : QueueTrigger Entries)
      → Holds setup (some key) deadline t
      → setup.externals.clock (asked_store key ∷ t.effects) < deadline
      → (seen_before setup key t).0 ≡ true
  unfolding mock_store mock_exists
  seen_before_live key deadline t h early =
      let (near, kept) = log-Holds (some key) deadline (asked_store key) t h in
      let (v, e, here, late) =
        purge-HasUntil key key deadline (setup.externals.clock (asked_store key ∷ t.effects))
          t.entries early (kept early) in
      rw (asks key t) (rw here refl)

  writes :
      (key trace_id : String) (t : QueueTrigger Entries)
      → remember setup key trace_id t
        ≡ write_store setup key (processed_value trace_id) true (some mock_store) t
  unfolding remember
  writes key trace_id t =
      ap (λ b. write_store setup key (processed_value trace_id) b setup.store t) r.dedups
      ∙ ap (λ o. write_store setup key (processed_value trace_id) true o t) r.uses_mock

  pub remember-Holds :
      (k : Option String) (j trace_id : String) (deadline : ℕ) (t : QueueTrigger Entries)
      → Holds setup k deadline t
      → Holds setup k deadline (remember setup j trace_id t)
  unfolding mock_store mock_set
  remember-Holds k j trace_id deadline t h =
      let value = processed_value trace_id in
      let effect = wrote_store j value setup.config.idempotency_window in
      let (near, kept) = log-Holds k deadline effect t h in
      rw (writes j trace_id t) (
        near,
        λ early.
            put-HeldUntil k j deadline
              (setup.externals.clock (effect ∷ t.effects)
                + lifetime setup.config.idempotency_window)
              t.entries value near (kept early),
      )

  -- What is written is held for the whole window.
  pub remember-Holds_key :
      (key trace_id : String) (deadline : ℕ) (t : QueueTrigger Entries)
      → deadline ≤ setup.externals.clock t.effects + lifetime setup.config.idempotency_window
      → Holds setup (some key) deadline (remember setup key trace_id t)
  unfolding mock_store mock_set
  remember-Holds_key key trace_id deadline t near =
      let value = processed_value trace_id in
      let effect = wrote_store key value setup.config.idempotency_window in
      let now = setup.externals.clock (effect ∷ t.effects) in
      let expires_at = now + lifetime setup.config.idempotency_window in
      let near' : deadline ≤ expires_at = omega (arith, r.forward effect t.effects) in
      rw (writes key trace_id t)
        (near', λ early. (value, expires_at, get-put_self t.entries key (value, expires_at), near'))
