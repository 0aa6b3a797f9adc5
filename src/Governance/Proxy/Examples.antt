-- ===== src/Governance/Proxy/Examples.antt =====
-- Runs of owlclaw/governance/proxy.py: a caller that is too fast, one whose circuit is open, and one
-- whose trial calls never came back.
use owlclaw.Base.{
  List, Option, String, [], arith, is_empty, keep_if, length, none, refl, some, string_eq,
  string_pair_eq, strip, true, ℕ, ◌∷◌, ◌≡◌, ◌≤◌,
}
use owlclaw.Base.Dict.{Dict, get, put}
use owlclaw.Base.Int.{pos}
use owlclaw.Base.Value.{Value, end, field, str}
use owlclaw.Governance.Ledger.{append_record, build_record, record_execution}
use owlclaw.Governance.Proxy.{
  Circuit, Dollars, GovernanceProxy, Reading, Refusal, circuit_half_open, drop_old, gate, nan_usd,
  qps_of, usd,
}
use owlclaw.Governance.Proxy.Audit.{IsAudited, IsNamed, acompletion-IsAudited}
use owlclaw.Governance.Proxy.Completion.{Call, acompletion, completed, llm_returned, other_response}
use owlclaw.Governance.Proxy.HalfOpen.{IsSpent, gate_never_recovers}
use owlclaw.Governance.Proxy.Rate.{admit_all, admit_all-last_second, is_recent, window_of}
use owlclaw.Governance.Proxy.Spending.{IsPaid, acompletion-IsPaid}
use owlclaw.Governance.Proxy.Traces.{ProxyEvent, answers, asks, fails, perform_all}

abbrev proxy_of : Dict String Circuit → GovernanceProxy
proxy_of circuits = record {
  daily_limit = usd (pos 100);
  monthly_limit = usd (pos 1000);
  default_qps = 2;
  per_service_qps = [];
  failure_threshold = 2;
  recovery_timeout_seconds = 60;
  half_open_max_calls = 1;
  passthrough_on_error = true;
  tenant_id = "acme";
  agent_id = "proxy";
  daily_usage = [];
  monthly_usage = [];
  rate_windows = [];
  circuits = circuits;
  ledger = record { records = []; max_records = 20000 };
}

abbrev trying : Circuit
trying = record {
  phase = circuit_half_open;
  consecutive_failures = 2;
  opened_at = 5;
  half_open_calls = 1;
}

abbrev at_time : ℕ → Reading
at_time now = record { today = 1; month = 1; rate_now = now; circuit_now = now }

abbrev ask : Call
ask = record {
  caller = "mionyee";
  model = "m";
  reading = at_time 9;
  today = 1;
  month = 1;
  failed_at = 9;
  elapsed_ms = 1;
  recorded_at = 9;
  record_id = "r1";
  run_id = "govproxy-1";
  outcome = llm_returned (other_response "hi");
}

abbrev no_tokens : Value → Option Dollars
no_tokens value = none

no_window : window_of (proxy_of []) "mionyee" ≡ []
unfolding get
no_window = refl

default_limit : qps_of (proxy_of []) "mionyee" ≡ pos 2
unfolding get
default_limit = refl

ask-IsNamed : IsNamed (proxy_of []) ask
unfolding strip is_empty
ask-IsNamed = (refl, refl, refl, refl)

trying-IsSpent : IsSpent (proxy_of (("mionyee", trying) ∷ [])) "mionyee"
unfolding get
trying-IsSpent = (refl, omega arith)

third_waits :
    (admit_all (proxy_of []) "mionyee" (1 ∷ 2 ∷ 3 ∷ 2000002 ∷ []) []).1 ≡ 1 ∷ 2 ∷ 2000002 ∷ []
unfolding admit_all get put drop_old
third_waits = refl

abbrev others_ask : List ProxyEvent
others_ask =
    asks "other" (at_time 7)
    ∷ answers "other" 1 1 (usd (pos 4))
    ∷ fails "other" 8
    ∷ asks "mionyee" (at_time 9)
    ∷ []

gate_never_recovers_example :
    (refusal : Refusal) × ((gate
        (perform_all (proxy_of (("mionyee", trying) ∷ [])) others_ask)
        "mionyee"
        (at_time 900000000)).0
      ≡ some refusal)
gate_never_recovers_example =
    gate_never_recovers "mionyee" (proxy_of (("mionyee", trying) ∷ [])) others_ask
      (at_time 900000000) trying-IsSpent ((λ same. tt), (refl, (refl, ((λ same. tt), tt))))

admit_all-last_second_example :
    let (p', admitted) = admit_all (proxy_of []) "mionyee" (1 ∷ 2 ∷ 3 ∷ []) [] in
    let recent = keep_if (is_recent 3) admitted in
    (window_of p' "mionyee" ≡ recent) × (length recent ≤ 2)
admit_all-last_second_example =
    admit_all-last_second 2 0 (1 ∷ 2 ∷ 3 ∷ []) (proxy_of []) "mionyee" default_limit no_window
      (omega arith, (omega arith, (omega arith, tt)))

acompletion-IsAudited_example :
    IsAudited
      (proxy_of [])
      ask
      (gate (proxy_of []) "mionyee" (at_time 9)).0
      ask.outcome
      (acompletion no_tokens (proxy_of []) ask)
acompletion-IsAudited_example =
    acompletion-IsAudited no_tokens (proxy_of []) ask ask-IsNamed (omega arith)

abbrev spoilt : GovernanceProxy
spoilt = record (proxy_of []) { daily_usage = (("mionyee", 1), nan_usd) ∷ [] }

passed_through :
    acompletion no_tokens spoilt ask ≡ (completed (field "raw_response" (str "hi") end), spoilt)
unfolding acompletion get
passed_through = refl

ask_answered :
    (acompletion no_tokens (proxy_of []) ask).0 ≡ completed (field "raw_response" (str "hi") end)
unfolding acompletion get put drop_old record_execution build_record append_record strip is_empty
ask_answered = refl

acompletion-IsPaid_example :
    IsPaid no_tokens
      (proxy_of [])
      ask
      (field "raw_response" (str "hi") end)
      (gate (proxy_of []) "mionyee" (at_time 9)).0
      (acompletion no_tokens (proxy_of []) ask).1
acompletion-IsPaid_example =
    acompletion-IsPaid no_tokens (proxy_of []) ask (field "raw_response" (str "hi") end)
      ask_answered
