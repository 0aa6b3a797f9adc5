-- ===== src/Governance/Ledger/Examples.antt =====
-- Runs of the ledger of owlclaw/governance/ledger_inmemory.py.
use owlclaw.Base.{String, [], is_empty, none, refl, some, strip, ℕ, ◌++◌, ◌∷◌, ◌≡◌}
use owlclaw.Base.Int.{pos}
use owlclaw.Base.Sort.{sort_by}
use owlclaw.Base.Value.{dict, end, null, str}
use owlclaw.Governance.Ledger.{
  Execution, InMemoryLedger, InMemoryRecord, LedgerQueryFilters, append_record, build_record,
  keep_equal, keep_from, keep_mode, keep_until, last_records, query_records, record_execution,
  require_text, select_records,
}

abbrev record_of : String → String → ℕ → InMemoryRecord
record_of capability_name status created_at = record {
  id = "id";
  tenant_id = "acme";
  agent_id = "trader";
  run_id = "run";
  capability_name = capability_name;
  task_type = "task";
  input_params = dict end;
  output_result = null;
  decision_reasoning = none;
  execution_time_ms = 1;
  llm_model = "m";
  llm_tokens_input = 0;
  llm_tokens_output = 0;
  estimated_cost = pos 7;
  status = status;
  error_message = none;
  migration_weight = none;
  execution_mode = none;
  risk_level = none;
  approval_by = none;
  approval_time = none;
  created_at = created_at;
}

abbrev ledger_of : ℕ → InMemoryLedger
ledger_of most = record {
  records = record_of "buy" "success" 1 ∷ record_of "buy" "error" 2 ∷ [];
  max_records = most;
}

abbrev sell : Execution
sell = record {
  tenant_id = str " acme ";
  agent_id = str "trader";
  run_id = str "run";
  capability_name = str "sell";
  task_type = str "task";
  input_params = null;
  rest = record_of "" "success" 3;
}

abbrev two_newest : LedgerQueryFilters
two_newest = record {
  agent_id = some "trader";
  capability_name = none;
  status = none;
  execution_mode = none;
  start_date = none;
  end_date = some 0;
  limit = some 2;
  offset = none;
  order_by = some "created_at DESC";
}

abbrev full : InMemoryLedger
full = record (ledger_of 2) {
  records = record_of "buy" "error" 2 ∷ record_of "sell" "success" 3 ∷ [];
}

abbrev grown : InMemoryLedger
grown = record (ledger_of 0) {
  records = (ledger_of 0).records ++ record_of "sell" "success" 3 ∷ [];
}

drops_oldest : record_execution (ledger_of 2) sell ≡ some full
unfolding record_execution strip last_records require_text is_empty append_record build_record
drops_oldest = refl

keeps_all : record_execution (ledger_of 0) sell ≡ some grown
unfolding record_execution strip last_records require_text is_empty append_record build_record
keeps_all = refl

newest_of_full :
    query_records full "acme" two_newest
    ≡ record_of "sell" "success" 3 ∷ record_of "buy" "error" 2 ∷ []
unfolding query_records sort_by select_records keep_equal keep_until keep_from keep_mode
newest_of_full = refl
