-- ===== src/Governance/Ledger.antt =====
-- owlclaw/governance/ledger_inmemory.py: `InMemoryLedger`, and the filters and the cost summary of
-- owlclaw/governance/ledger.py that it takes and returns.
-- A time is a number of microseconds, a date a number of days, an amount of money an integer
-- number of the smallest unit. The id and the creation time of a record are arguments.
pub mod Query
pub mod Bounds
pub mod Costs
mod Examples
use owlclaw.Base.{
  Bool, List, Option, String, [], drop, false, if◌then◌else◌, is_empty, keep_if, leb, length, ltb,
  nat_eq, none, some, string_eq, string_pair_eq, strip, take, ℕ, ◌&&◌, ◌*◌, ◌++◌, ◌+◌, ◌-◌, ◌==◌,
  ◌∷◌,
}
use owlclaw.Base.Options.{◌>>=◌}
use owlclaw.Base.Dict.{Dict, get, put}
use owlclaw.Base.Int.{pos, ℤ, ◌+ℤ◌}
use owlclaw.Base.Sort.{sort_by}
use owlclaw.Base.Value.{Value, dict, end, str}

pub record LedgerQueryFilters : Type 0 where
  pub agent_id : Option String
  pub capability_name : Option String
  pub status : Option String
  pub execution_mode : Option String
  pub start_date : Option ℕ
  pub end_date : Option ℕ
  pub limit : Option ℕ
  pub offset : Option ℕ
  pub order_by : Option String

pub record CostSummary : Type 0 where
  pub total_cost : ℤ
  pub by_agent : Dict String ℤ
  pub by_capability : Dict String ℤ

pub record InMemoryRecord : Type 0 where
  pub id : String
  pub tenant_id : String
  pub agent_id : String
  pub run_id : String
  pub capability_name : String
  pub task_type : String
  pub input_params : Value
  pub output_result : Value
  pub decision_reasoning : Option String
  pub execution_time_ms : ℕ
  pub llm_model : String
  pub llm_tokens_input : ℕ
  pub llm_tokens_output : ℕ
  pub estimated_cost : ℤ
  pub status : String
  pub error_message : Option String
  pub migration_weight : Option ℕ
  pub execution_mode : Option String
  pub risk_level : Option ℤ
  pub approval_by : Option String
  pub approval_time : Option ℕ
  pub created_at : ℕ

pub record InMemoryLedger : Type 0 where
  pub records : List InMemoryRecord
  pub max_records : ℕ

-- The arguments of `record_execution`: those that it checks, and the record of the others.
pub record Execution : Type 0 where
  pub tenant_id : Value
  pub agent_id : Value
  pub run_id : Value
  pub capability_name : Value
  pub task_type : Value
  pub input_params : Value
  pub rest : InMemoryRecord

-- `_require`; `none` is its ValueError.
unfoldable pub require_text : Value → Option String
require_text (str s) = if is_empty (strip s) then none else some (strip s)
require_text _ = none

abbrev pub dict_or_empty : Value → Value
dict_or_empty (dict fields) = dict fields
dict_or_empty _ = dict end

-- `records[-n:]`: for n = 0 this is the whole list.
unfoldable pub last_records : ℕ → List InMemoryRecord → List InMemoryRecord
last_records n records = if nat_eq n 0 then records else drop (length records - n) records

-- The record that `record_execution` builds.
unfoldable pub build_record : Execution → Option InMemoryRecord
unfolding require_text
build_record args = do
  tenant_id ← require_text args.tenant_id
  agent_id ← require_text args.agent_id
  run_id ← require_text args.run_id
  capability_name ← require_text args.capability_name
  task_type ← require_text args.task_type
  some (record args.rest {
    tenant_id = tenant_id;
    agent_id = agent_id;
    run_id = run_id;
    capability_name = capability_name;
    task_type = task_type;
    input_params = dict_or_empty args.input_params;
  })

-- `self._records.append(record)`, and the bound on the list.
unfoldable pub append_record : InMemoryLedger → InMemoryRecord → InMemoryLedger
unfolding last_records
append_record ledger added =
    let records = ledger.records ++ added ∷ [] in
    record ledger {
      records =
          if ltb ledger.max_records (length records)
          then last_records ledger.max_records records
          else records;
    }

-- `record_execution`
unfoldable pub record_execution : InMemoryLedger → Execution → Option InMemoryLedger
unfolding build_record append_record
record_execution ledger args = do added ← build_record args; some (append_record ledger added)

abbrev pub day : ℕ
day = 86400000000

-- `if value is not None: results = [r for r in results if column(r) == value]`
unfoldable pub keep_equal :
    (InMemoryRecord → String) → Option String → List InMemoryRecord → List InMemoryRecord
keep_equal column none results = results
keep_equal column (some value) results = keep_if (λ r. column r == value) results

abbrev pub mode_is : Option String → String → Bool
mode_is none value = false
mode_is (some mode) value = mode == value

unfoldable pub keep_mode : Option String → List InMemoryRecord → List InMemoryRecord
keep_mode none results = results
keep_mode (some value) results = keep_if (λ r. mode_is r.execution_mode value) results

-- Records from the first microsecond of a day on.
unfoldable pub keep_from : Option ℕ → List InMemoryRecord → List InMemoryRecord
keep_from none results = results
keep_from (some date) results = keep_if (λ r. leb (date * day) r.created_at) results

-- Records up to the last microsecond of a day.
unfoldable pub keep_until : Option ℕ → List InMemoryRecord → List InMemoryRecord
keep_until none results = results
keep_until (some date) results = keep_if (λ r. leb r.created_at (date * day + (day - 1))) results

abbrev pub newest_first : InMemoryRecord → InMemoryRecord → Bool
newest_first r s = ltb r.created_at s.created_at

abbrev pub oldest_first : InMemoryRecord → InMemoryRecord → Bool
oldest_first r s = ltb s.created_at r.created_at

unfoldable pub order_results : Option String → List InMemoryRecord → List InMemoryRecord
order_results none results = results
order_results (some order) results =
    if order == "created_at DESC"
    then sort_by newest_first results
    else if order == "created_at ASC"
    then sort_by oldest_first results
    else results

abbrev pub slice_from : Option ℕ → List InMemoryRecord → List InMemoryRecord
slice_from none results = results
slice_from (some offset) results = drop offset results

abbrev pub slice_to : Option ℕ → List InMemoryRecord → List InMemoryRecord
slice_to none results = results
slice_to (some limit) results = take limit results

-- The filters of `query_records`, one after the other.
unfoldable pub select_records : InMemoryLedger → String → LedgerQueryFilters → List InMemoryRecord
unfolding keep_equal keep_mode keep_from keep_until
select_records ledger tenant_id filters = keep_until filters.end_date (
    keep_from filters.start_date (
      keep_mode filters.execution_mode (
        keep_equal (λ r. r.status) filters.status
          (keep_equal (λ r. r.capability_name) filters.capability_name
            (keep_equal (λ r. r.agent_id) filters.agent_id
              (keep_if (λ r. r.tenant_id == tenant_id) ledger.records))))))

-- `query_records`
unfoldable pub query_records : InMemoryLedger → String → LedgerQueryFilters → List InMemoryRecord
unfolding order_results
query_records ledger tenant_id filters = slice_to filters.limit (
    slice_from filters.offset
      (order_results filters.order_by (select_records ledger tenant_id filters)))

abbrev pub or_zero : Option ℤ → ℤ
or_zero none = pos 0
or_zero (some amount) = amount

unfoldable pub total_cost_of : List InMemoryRecord → ℤ
total_cost_of [] = pos 0
total_cost_of (r ∷ rs) = r.estimated_cost +ℤ total_cost_of rs

-- The loop that fills `by_capability`.
unfoldable pub add_costs : Dict String ℤ → List InMemoryRecord → Dict String ℤ
add_costs costs [] = costs
add_costs costs (r ∷ rs) =
    add_costs
      (put costs r.capability_name (or_zero (get costs r.capability_name) +ℤ r.estimated_cost)) rs

-- `get_cost_summary`
unfoldable pub get_cost_summary : InMemoryLedger → String → String → ℕ → ℕ → CostSummary
get_cost_summary ledger tenant_id agent_id start_date end_date =
    let matching =
      keep_if
        (λ r.
          r.tenant_id == tenant_id
          && r.agent_id == agent_id
          && leb (start_date * day) r.created_at
          && leb r.created_at (end_date * day + (day - 1)))
        ledger.records in
    let total = total_cost_of matching in
    record {
      total_cost = total;
      by_agent = (agent_id, total) ∷ [];
      by_capability = add_costs [] matching;
    }
