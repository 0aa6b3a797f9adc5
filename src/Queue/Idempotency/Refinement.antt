-- ===== src/Queue/Idempotency/Refinement.antt =====
-- owlclaw/triggers/queue/idempotency.py: `MockIdempotencyStore` beside a table of what was written.
use mathlib.Core.Path.{ap₂}
use owlclaw.Base.{
  Bool, Bool-cases, List, Option, Option-cases, String, [], ap, arith, eq_iff, if◌then◌else◌, inl,
  inr, leb, leb→le, none, refl, some, string_eq, string_pair_eq, true, ℕ, ◌+◌, ◌==◌, ◌∙◌, ◌∷◌, ◌≡◌,
  ◌≤◌,
}
use owlclaw.Base.Dict.{get, get-empty, get-put, get-remove, get-remove_self, remove}
use owlclaw.Base.Int.{ℤ}
use owlclaw.Base.Value.{Value}
use owlclaw.Queue.Idempotency.{
  Entries, is_some, lifetime, mock_exists, mock_get, mock_set, purge_expired, value_of,
}

pub data StoreCall : Type 0 where
  ask : String → StoreCall
  fetch : String → StoreCall
  write : String → Value → ℤ → StoreCall

pub data StoreReply : Type 0 where
  held : Bool → StoreReply
  fetched : Option Value → StoreReply
  written : StoreReply

-- What a client knows: what was last written under each key, and until when it is live.
abbrev pub Book : Type 0
Book = String → Option (Value × ℕ)

abbrev pub live : ℕ → Option (Value × ℕ) → Option Value
live now none = none
live now (some (value, expires_at)) = if leb expires_at now then none else some value

abbrev pub call_store : Entries → ℕ → StoreCall → StoreReply × Entries
call_store items now (ask key) = let (b, items') = mock_exists items now key in (held b, items')
call_store items now (fetch key) = let (v, items') = mock_get items now key in (fetched v, items')
call_store items now (write key value ttl) = (written, mock_set items now key value ttl)

abbrev pub call_book : Book → ℕ → StoreCall → StoreReply × Book
call_book f now (ask key) = (held (is_some (live now (f key))), f)
call_book f now (fetch key) = (fetched (live now (f key)), f)
call_book f now (write key value ttl) =
    (written, λ j. if key == j then some (value, now + lifetime ttl) else f j)

unfoldable pub run_store : Entries → List (ℕ × StoreCall) → List StoreReply
run_store items [] = []
run_store items ((now, call) ∷ calls) =
    let (reply, items') = call_store items now call in reply ∷ run_store items' calls

unfoldable pub run_book : Book → List (ℕ × StoreCall) → List StoreReply
run_book f [] = []
run_book f ((now, call) ∷ calls) =
    let (reply, f') = call_book f now call in reply ∷ run_book f' calls

-- Calls at times that do not go back, from `start` on.
abbrev pub InOrder : ℕ → List (ℕ × StoreCall) → Type 0
InOrder start [] = Unit
InOrder start ((now, call) ∷ calls) = (start ≤ now) × InOrder now calls

-- A store and a book that no call from `start` on tells apart.
abbrev Agree : ℕ → Entries → Book → Type 0
Agree start items f =
    (now : ℕ) (key : String) → start ≤ now → live now (get items key) ≡ live now (f key)

live-remove :
    (items : Entries) (start now : ℕ) (key j : String) (value : Value) (expires_at : ℕ)
    → start ≤ now
    → get items key ≡ some (value, expires_at)
    → leb expires_at start ≡ true
    → live now (get (remove items key) j) ≡ live now (get items j)
live-remove items start now key j value expires_at h found over =
    rw (get-remove items key j) (elim (Bool-cases (key == j)) [
      | inl same ↦
          let here : get items j ≡ some (value, expires_at) = rw (← (eq_iff key j).0 same) found in
          rw (same, here) (ground (arith, leb→le expires_at start over))
      | inr distinct ↦ rw distinct refl
    ])

live-purge :
    (items : Entries) (start now : ℕ) (key j : String)
    → start ≤ now
    → live now (get (purge_expired items start key) j) ≡ live now (get items j)
unfolding purge_expired
live-purge items start now key j h = elim (Option-cases (get items key)) [
  | inl gone ↦ rw gone refl
  | inr ((value, expires_at), found) ↦ rw found (elim (Bool-cases (leb expires_at start)) [
    | inl over ↦ rw over (live-remove items start now key j value expires_at h found over)
    | inr still ↦ rw still refl
  ])
]

-- What is left of the asked entry at once is what is live.
held-purge :
    (items : Entries) (now : ℕ) (key : String)
    → value_of (get (purge_expired items now key) key) ≡ live now (get items key)
unfolding purge_expired
held-purge items now key = elim (Option-cases (get items key)) [
  | inl gone ↦ rw (gone, gone) refl
  | inr ((value, expires_at), found) ↦ rw found (elim (Bool-cases (leb expires_at now)) [
    | inl over ↦ rw (over, get-remove_self items key) refl
    | inr still ↦ rw (still, found) refl
  ])
]

is_some-value_of : (o : Option (Value × ℕ)) → is_some o ≡ is_some (value_of o)
is_some-value_of none = refl
is_some-value_of (some (value, expires_at)) = refl

call_refines :
    (items : Entries) (f : Book) (start now : ℕ) (call : StoreCall)
    → start ≤ now
    → Agree start items f
    → ((call_store items now call).0 ≡ (call_book f now call).0)
      × Agree now (call_store items now call).1 (call_book f now call).1
unfolding mock_exists mock_get mock_set
call_refines items f start now (ask key) h agree = (
  ap held (
      is_some-value_of (get (purge_expired items now key) key)
      ∙ ap is_some (held-purge items now key ∙ agree now key h)),
  λ later j k. live-purge items now later key j k ∙ agree later j (omega arith),
)
call_refines items f start now (fetch key) h agree = (
  ap fetched (held-purge items now key ∙ agree now key h),
  λ later j k. live-purge items now later key j k ∙ agree later j (omega arith),
)
call_refines items f start now (write key value ttl) h agree = (
  refl,
  λ later j k. ground (arith, get-put items key j (value, now + lifetime ttl), agree later j),
)

-- From a store and a book that agree, calls at times that do not go back get the same replies.
pub run_store_refines :
    (calls : List (ℕ × StoreCall)) (items : Entries) (f : Book) (start : ℕ)
    → InOrder start calls
    → Agree start items f
    → run_store items calls ≡ run_book f calls
unfolding run_store run_book
run_store_refines [] items f start order agree = refl
run_store_refines ((now, call) ∷ calls) items f start order agree =
    let step = call_refines items f start now call order.0 agree in
    ap₂ (λ r rs. r ∷ rs) step.0
      (run_store_refines calls (call_store items now call).1 (call_book f now call).1 now order.1
        step.1)

-- For every sequence of calls at times that do not go back, a new `MockIdempotencyStore` gives the
-- replies of a table that never forgets an entry and takes it as absent from its expiry on.
pub run_store-new :
    (calls : List (ℕ × StoreCall)) (start : ℕ)
    → InOrder start calls
    → run_store [] calls ≡ run_book (λ key. none) calls
run_store-new calls start order =
    run_store_refines calls [] (λ key. none) start order (λ now key h. rw (get-empty key) refl)
