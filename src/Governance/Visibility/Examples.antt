-- ===== src/Governance/Visibility/Examples.antt =====
-- Runs of the filter of owlclaw/governance/visibility.py: two capabilities, one of them critical,
-- and evaluators that fail or refuse.
use owlclaw.Base.{
  All, List, Option, String, [], arith, false, is_empty, lower, map, member, none, refl, some,
  string_eq, string_pair_eq, strip, ℕ, ◌++◌, ◌==◌, ◌∷◌, ◌≡◌, ◌≢◌,
}
use owlclaw.Base.Dict.{get}
use owlclaw.Base.Value.{end}
use owlclaw.Governance.Constraints.CircuitBreaker.{CircuitBreaker, opened}
use owlclaw.Governance.Ledger.{InMemoryLedger}
use owlclaw.Governance.View.{CapabilityView, RunContext, is_confirmed}
use owlclaw.Governance.Visibility.{
  Draw, Evaluator, FailPolicy, FilterState, VisibilityFilter, close_policy, evaluate_risk_gate,
  filter_capabilities, filter_from, gather_results, hinted, open_policy, raised, settle, visit,
}
use owlclaw.Governance.Visibility.Breaker.{
  IsOpen, beside, breaker_evaluator, filter_capabilities_breaks,
}
use owlclaw.Governance.Visibility.Gate.{IsCleared, filter_capabilities-IsCleared}
use owlclaw.Governance.Visibility.Veto.{
  NeverHides, filter_capabilities_open, filter_capabilities_veto,
}
use owlclaw.Security.RiskGate

abbrev view_of : String → String → CapabilityView
view_of name risk_level = record {
  name = name;
  description = "";
  task_type = "report";
  constraints = end;
  focus = [];
  risk_level = risk_level;
  requires_confirmation = false;
}

abbrev no_names : RunContext
no_names = record { tenant_id = "acme"; confirmed_capabilities = none }

abbrev draws : ℕ → Draw
draws i = record { now = i; op_id = "op" }

abbrev entries : List (Option CapabilityView)
entries = some (view_of "read" "low") ∷ none ∷ some (view_of "deploy" "critical") ∷ []

abbrev start : FilterState Unit
start = record {
  gate = record { timeout_seconds = 60; pending = []; audit_log = none };
  world = tt;
}

abbrev failing : Evaluator Unit
failing view agent_id context w = (raised, w)

abbrev filter_of : FailPolicy → VisibilityFilter Unit
filter_of policy = record {
  fail_policy = policy;
  evaluators = failing ∷ [];
  inject_quality_score = false;
  quality_cache = [];
}

open_shows_one :
    (filter_capabilities (filter_of open_policy) "a" no_names draws entries start).0
    ≡ view_of "read" "low" ∷ []
unfolding filter_capabilities filter_from visit evaluate_risk_gate gather_results settle hinted
    RiskGate.evaluate is_confirmed RiskGate.pause_operation RiskGate.normalize_level RiskGate.audit
    RiskGate.supported_levels is_empty strip member lower
open_shows_one = refl

filter_capabilities-IsCleared_example :
    All
      (IsCleared no_names)
      (filter_capabilities (filter_of open_policy) "a" no_names draws entries start).0
filter_capabilities-IsCleared_example =
    filter_capabilities-IsCleared (filter_of open_policy) "a" no_names draws entries start

filter_capabilities_veto_example :
    All
      (λ view. (view.name == "read") ≡ false)
      (filter_capabilities (filter_of close_policy) "a" no_names draws entries start).0
filter_capabilities_veto_example =
    filter_capabilities_veto (filter_of close_policy) "a" no_names draws entries start [] failing []
      (λ name. name == "read") refl refl (λ view w b. refl)

failing-NeverHides : NeverHides "a" no_names failing
failing-NeverHides view w = refl

filter_capabilities_open_example :
    (filter_capabilities (filter_of open_policy) "a" no_names draws entries start).0
    ≡ (filter_capabilities
        (record (filter_of open_policy) { evaluators = [] })
        "a"
        no_names
        draws
        entries
        start).0
filter_capabilities_open_example =
    filter_capabilities_open (filter_of open_policy) "a" no_names draws entries start refl
      (failing-NeverHides, tt)

abbrev no_ledger : InMemoryLedger
no_ledger = record { records = []; max_records = 10 }

abbrev broken : CircuitBreaker
broken = record {
  failure_threshold = 2;
  recovery_timeout = 300;
  states = (("a", "read"), (opened, some 4)) ∷ [];
}

abbrev breaker_filter : VisibilityFilter (CircuitBreaker × Unit)
breaker_filter = record {
  fail_policy = open_policy;
  evaluators =
      map beside (failing ∷ []) ++ breaker_evaluator (λ v. 5) (λ v. no_ledger) ∷ map beside [];
  inject_quality_score = false;
  quality_cache = [];
}

abbrev breaker_start : FilterState (CircuitBreaker × Unit)
breaker_start = record { gate = start.gate; world = (broken, tt) }

read_opened : get broken.states ("a", "read") ≡ some (opened, some 4)
unfolding get
read_opened = refl

filter_capabilities_breaks_example :
    All
      (λ view. view.name ≢ "read")
      (filter_capabilities breaker_filter "a" no_names draws entries breaker_start).0
    × IsOpen
        ("a", "read")
        4
        300
        (filter_capabilities breaker_filter "a" no_names draws entries breaker_start).1.world.0
filter_capabilities_breaks_example =
    filter_capabilities_breaks (λ v. 5) (λ v. no_ledger) "a" "read" 4 300 (λ v. omega arith)
      no_names breaker_filter (failing ∷ []) [] draws entries breaker_start refl (read_opened, refl)
