-- ===== src/Queue/Idempotency.antt =====
-- owlclaw/triggers/queue/idempotency.py: the interface `IdempotencyStore`, whose calls may raise,
-- and `MockIdempotencyStore`. A time is a number of microseconds; `now` is an argument.
pub mod Refinement
use owlclaw.Base.{
  Bool, Option, String, false, if◌then◌else◌, leb, ltb, none, some, string_eq, string_pair_eq, true,
  ℕ, ◌*◌, ◌+◌,
}
use owlclaw.Base.Dict.{Dict, get, put, remove}
use owlclaw.Base.Int.{pos_part, ℤ}
use owlclaw.Base.Value.{Value}
use owlclaw.Security.RiskGate.{second}

-- `none` is a call that raises.
pub record IdempotencyStore (S : Type 0) : Type 0 where
  pub exists : S → ℕ → String → Option (Bool × S)
  pub set : S → ℕ → String → Value → ℤ → Option S
  pub get_value : S → ℕ → String → Option (Option Value × S)

-- `_items`: each key's value and the time it expires.
abbrev pub Entries : Type 0
Entries = Dict String (Value × ℕ)

abbrev keep_or_drop : Entries → ℕ → String → Option (Value × ℕ) → Entries
keep_or_drop items now key none = items
keep_or_drop items now key (some (value, expires_at)) =
    if leb expires_at now then remove items key else items

-- `_purge_expired`
unfoldable pub purge_expired : Entries → ℕ → String → Entries
purge_expired items now key = keep_or_drop items now key (get items key)

abbrev pub is_some : {A : Type 0} → Option A → Bool
is_some none = false
is_some (some a) = true

abbrev pub value_of : Option (Value × ℕ) → Option Value
value_of none = none
value_of (some (value, expires_at)) = some value

-- `max(1, int(ttl))` seconds
abbrev pub lifetime : ℤ → ℕ
lifetime ttl = (if ltb 1 (pos_part ttl) then pos_part ttl else 1) * second

-- `exists`
unfoldable pub mock_exists : Entries → ℕ → String → Bool × Entries
mock_exists items now key =
    let items' = purge_expired items now key in (is_some (get items' key), items')

-- `set`
unfoldable pub mock_set : Entries → ℕ → String → Value → ℤ → Entries
mock_set items now key value ttl = put items key (value, now + lifetime ttl)

-- `get`
unfoldable pub mock_get : Entries → ℕ → String → Option Value × Entries
mock_get items now key =
    let items' = purge_expired items now key in (value_of (get items' key), items')

-- `MockIdempotencyStore`, no call of which raises.
unfoldable pub mock_store : IdempotencyStore Entries
mock_store = record {
  exists = λ items now key. some (mock_exists items now key);
  set = λ items now key value ttl. some (mock_set items now key value ttl);
  get_value = λ items now key. some (mock_get items now key);
}
