-- ===== src/Governance/Ledger/Bounds.antt =====
-- How many records the ledger keeps.
use Prim.Native.Nat.{min}
use owlclaw.Base.{
  List, Option, [], arith, false, length, length-append, length-drop_last, nat_eq, none, some, suc,
  ℕ, ◌++◌, ◌<◌, ◌∷◌, ◌≡◌, ◌≤◌,
}
use owlclaw.Base.Options.{◌>>=◌}
use owlclaw.Governance.Ledger.{
  Execution, InMemoryLedger, InMemoryRecord, append_record, build_record, last_records,
  record_execution,
}

length-last_records :
    (n : ℕ) (records : List InMemoryRecord)
    → 0 < n
    → n ≤ length records
    → length (last_records n records) ≡ n
unfolding last_records
length-last_records n records h k = rw (nonzero n h) (length-drop_last n records k)
  where
    nonzero : (n : ℕ) → 0 < n → nat_eq n 0 ≡ false
    nonzero n h = ground arith

length-append_record :
    (ledger : InMemoryLedger) (added : InMemoryRecord)
    → 0 < ledger.max_records
    → length ledger.records ≤ ledger.max_records
    → length (append_record ledger added).records
      ≡ min ledger.max_records (suc (length ledger.records))
unfolding append_record
length-append_record ledger added h k = ground (
  arith,
  length-append ledger.records (added ∷ []),
  length-last_records ledger.max_records (ledger.records ++ added ∷ []),
)

-- A recorded execution was appended.
pub record_execution_appends :
    (ledger ledger' : InMemoryLedger) (args : Execution)
    → record_execution ledger args ≡ some ledger'
    → (added : InMemoryRecord) × (append_record ledger added ≡ ledger')
unfolding record_execution
record_execution_appends ledger ledger' args = go (build_record args)
  where
    go :
        (built : Option InMemoryRecord)
        → (built >>= λ added. some (append_record ledger added)) ≡ some ledger'
        → (added : InMemoryRecord) × (append_record ledger added ≡ ledger')
    go none e = absurd (cc)
    go (some added) e = (added, cc)

-- A ledger with a positive bound that holds at most that many records takes one more, and then
-- holds one more or is full.
pub length-record_execution :
    (ledger ledger' : InMemoryLedger) (args : Execution)
    → 0 < ledger.max_records
    → length ledger.records ≤ ledger.max_records
    → record_execution ledger args ≡ some ledger'
    → length ledger'.records ≡ min ledger.max_records (suc (length ledger.records))
length-record_execution ledger ledger' args h k e =
    let (added, appended) = record_execution_appends ledger ledger' args e in
    rw (← appended) (length-append_record ledger added h k)

-- With the bound 0 nothing is ever dropped: each execution adds a record.
pub length-record_execution_unbounded :
    (ledger ledger' : InMemoryLedger) (args : Execution)
    → ledger.max_records ≡ 0
    → record_execution ledger args ≡ some ledger'
    → length ledger'.records ≡ suc (length ledger.records)
unfolding append_record last_records
length-record_execution_unbounded ledger ledger' args h e =
    let (added, appended) = record_execution_appends ledger ledger' args e in
    rw (← appended) (ground (arith, length-append ledger.records (added ∷ [])))
