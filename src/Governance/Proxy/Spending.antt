-- ===== src/Governance/Proxy/Spending.antt =====
-- owlclaw/governance/proxy.py: the budget before and behind a call that gives a response.
use owlclaw.Base.{
  Bool, Option, String, ap, arith, false, if◌then◌else◌, inl, inr, none, refl, some, string_eq,
  string_pair_eq, sym, true, ℕ, ◌∙◌, ◌≡◌, ◌≢◌, ◌⊎◌,
}
use owlclaw.Base.Dict.{get, get-put_self}
use owlclaw.Base.Int.{leb_ℤ, pos, ◌<ℤ◌}
use owlclaw.Base.Value.{Fields, Value, dict, get_field, null}
use owlclaw.Governance.Ledger.{InMemoryLedger, day, record_execution}
use owlclaw.Governance.Proxy.{
  Dollars, GovernanceProxy, Reading, Refusal, Verdict, add_dollars, amount_or_zero, at_least,
  budget_refusal, check_budget, check_circuit, check_rate_limit, consume_budget, day_used, gate,
  gate_error, month_used, nan_usd, on_failure, on_success, rejection, then_check, usage_key_eq, usd,
}
use owlclaw.Governance.Proxy.Completion.{
  Call, Completion, LlmOutcome, acompletion, behind_gate, call_failed, cancelled, completed,
  cost_of_usage, estimate_cost, event_of, fail_call, finish_call, ledger_error, ledger_failed,
  llm_cancelled, llm_raised, llm_returned, model_raised, normalize_response, passthrough_call,
  rejected_for, twice, with_ledger,
}
use owlclaw.Governance.Proxy.Traces.{then_check-keeps}

-- `used` is below `limit`, and neither is NaN.
abbrev pub Below : Dollars → Dollars → Type 0
Below (usd used) (usd limit) = used <ℤ limit
Below _ _ = ⊥

-- Both limits are above what is used.
abbrev pub IsWithin : GovernanceProxy → String → ℕ → ℕ → Type 0
IsWithin p caller today month =
    Below (day_used p caller today) p.daily_limit
    × Below (month_used p caller month) p.monthly_limit

abbrev from_some : Bool → Option Bool → Bool
from_some default none = default
from_some default (some b) = b

at_least-Below : (used limit : Dollars) → at_least used limit ≡ some false → Below used limit
at_least-Below (usd used) (usd limit) e =
    let below : leb_ℤ limit used ≡ false = ap (λ o. from_some true o) e in ground arith
at_least-Below (usd used) nan_usd e = absurd (cc)
at_least-Below nan_usd limit e = absurd (cc)

refused_less :
    (daily monthly : Option Bool)
    → budget_refusal daily monthly ≡ none
    → (daily ≡ some false) × (monthly ≡ some false)
refused_less none monthly e = absurd (cc)
refused_less (some true) monthly e = absurd (cc)
refused_less (some false) none e = absurd (cc)
refused_less (some false) (some true) e = absurd (cc)
refused_less (some false) (some false) e = (refl, refl)

check_budget-IsWithin :
    (p : GovernanceProxy) (caller : String) (today month : ℕ)
    → (check_budget p caller today month).0 ≡ none
    → IsWithin p caller today month
unfolding check_budget
check_budget-IsWithin p caller today month e =
    let (day_fits, month_fits) =
      refused_less (at_least (day_used p caller today) p.daily_limit)
        (at_least (month_used p caller month) p.monthly_limit) e in
    (
      at_least-Below (day_used p caller today) p.daily_limit day_fits,
      at_least-Below (month_used p caller month) p.monthly_limit month_fits,
    )

then_check-none :
    (v : Verdict) (check : GovernanceProxy → Verdict) → (then_check v check).0 ≡ none → v.0 ≡ none
then_check-none (none, p) check e = refl
then_check-none (some refusal, p) check e = e

gate-IsWithin :
    (p : GovernanceProxy) (caller : String) (reading : Reading)
    → (gate p caller reading).0 ≡ none
    → IsWithin p caller reading.today reading.month
unfolding gate
gate-IsWithin p caller reading e =
    let budget = check_budget p caller reading.today reading.month in
    let rate = then_check budget (λ q. check_rate_limit q caller reading.rate_now) in
    check_budget-IsWithin p caller reading.today reading.month (
      then_check-none budget (λ q. check_rate_limit q caller reading.rate_now)
        (then_check-none rate (λ q. check_circuit q caller reading.circuit_now) e))

-- The usage, and whether calls are passed through, are what they were.
abbrev pub KeepsUsage : GovernanceProxy → GovernanceProxy → Type 0
KeepsUsage p p' =
    (p'.daily_usage ≡ p.daily_usage)
    × (p'.monthly_usage ≡ p.monthly_usage)
    × (p'.passthrough_on_error ≡ p.passthrough_on_error)

gate-usage :
    (p : GovernanceProxy) (caller : String) (reading : Reading)
    → KeepsUsage p (gate p caller reading).1
unfolding gate check_budget check_rate_limit check_circuit
gate-usage p caller reading =
    let P : GovernanceProxy → Type 0 = λ q. KeepsUsage p q in
    let budget = check_budget p caller reading.today reading.month in
    let rate = then_check budget (λ q. check_rate_limit q caller reading.rate_now) in
    then_check-keeps P rate (λ q. check_circuit q caller reading.circuit_now)
      (then_check-keeps P budget (λ q. check_rate_limit q caller reading.rate_now)
        (refl, refl, refl) (λ q k. k))
      (λ q k. k)

-- The response has a dict under "usage", whose "total_tokens" reads as the number `tokens`.
abbrev pub TellsTokens : (Value → Option Dollars) → Fields → Dollars → Type 0
TellsTokens tokens_of response tokens =
    (usage : Fields) × (get_field response "usage" ≡ dict usage)
    × (tokens_of (get_field usage "total_tokens") ≡ some tokens)

-- Two millionths of a dollar for each token that the response tells, or nothing.
abbrev pub IsCost : (Value → Option Dollars) → Fields → Dollars → Type 0
IsCost tokens_of response cost =
    ((tokens : Dollars) × TellsTokens tokens_of response tokens
      × (cost ≡ add_dollars tokens tokens))
    ⊎ (((tokens : Dollars) → TellsTokens tokens_of response tokens → ⊥) × (cost ≡ usd (pos 0)))

abbrev fields_or : Fields → Value → Fields
fields_or default (dict fields) = fields
fields_or default _ = default

estimate_cost-IsCost :
    (tokens_of : Value → Option Dollars) (response : Fields)
    → IsCost tokens_of response (estimate_cost tokens_of response)
unfolding estimate_cost
estimate_cost-IsCost tokens_of response = go (get_field response "usage") refl
  where
    told :
        (usage : Fields) (o : Option Dollars)
        → get_field response "usage" ≡ dict usage
        → tokens_of (get_field usage "total_tokens") ≡ o
        → IsCost tokens_of response (twice o)
    told usage none e f = inr (
      (λ tokens (usage', e', f').
          let same : usage' ≡ usage = ap (λ v. fields_or usage v) (sym e' ∙ e) in
          let f'' : tokens_of (get_field usage "total_tokens") ≡ some tokens = rw same at f' in
          absurd (cc)),
      refl,
    )
    told usage (some tokens) e f = inl (tokens, (usage, e, f), refl)

    go :
        (v : Value)
        → get_field response "usage" ≡ v
        → IsCost tokens_of response (cost_of_usage tokens_of v)
    go (dict usage) e = told usage (tokens_of (get_field usage "total_tokens")) e refl
    go _ e = inr ((λ tokens (usage', e', f'). absurd (cc)), refl)

-- What a response adds to the usage of its day and its month.
abbrev pub Charges :
    (Value → Option Dollars) → GovernanceProxy → Call → Fields → GovernanceProxy → Type 0
Charges tokens_of p call response p' =
    (cost : Dollars) × IsCost tokens_of response cost
    × (day_used p' call.caller call.today ≡ add_dollars (day_used p call.caller call.today) cost)
    × (month_used p' call.caller call.month
        ≡ add_dollars (month_used p call.caller call.month) cost)

fail_call_gives :
    (p : GovernanceProxy) (call : Call) (reason : String) (response : Fields)
    → (fail_call p call reason).0 ≢ completed response
unfolding fail_call
fail_call_gives p call reason response =
    let q = on_failure p call.caller call.failed_at in
    go q (record_execution q.ledger (event_of q call "failure" reason null (usd (pos 0))))
  where
    go :
        (q : GovernanceProxy) (o : Option InMemoryLedger)
        → (with_ledger q o call_failed ledger_error).0 ≢ completed response
    go q none e = absurd (cc)
    go q (some ledger) e = absurd (cc)

response_of : Completion → Fields → Fields
response_of (completed fields) default = fields
response_of (rejected_for reason) default = default
response_of call_failed default = default
response_of ledger_failed default = default
response_of cancelled default = default
response_of (model_raised reason) default = default

charges :
    (p : GovernanceProxy) (caller : String) (today month : ℕ) (cost : Dollars)
    → let q = on_success (consume_budget p caller today month cost) caller in
      (day_used q caller today ≡ add_dollars (day_used p caller today) cost)
      × (month_used q caller month ≡ add_dollars (month_used p caller month) cost)
unfolding on_success consume_budget
charges p caller today month cost = (
  ap amount_or_zero (
      get-put_self ⦃e = usage_key_eq⦄ p.daily_usage (caller, today)
        (add_dollars (day_used p caller today) cost)),
  ap amount_or_zero (
      get-put_self ⦃e = usage_key_eq⦄ p.monthly_usage (caller, month)
        (add_dollars (month_used p caller month) cost)),
)

finish_call-Charges :
    (tokens_of : Value → Option Dollars) (p : GovernanceProxy) (call : Call) (outcome : LlmOutcome)
    (response : Fields)
    → (finish_call tokens_of p call outcome).0 ≡ completed response
    → Charges tokens_of p call response (finish_call tokens_of p call outcome).1
unfolding finish_call on_success consume_budget response_of
finish_call-Charges tokens_of p call llm_cancelled response e = absurd (cc)
finish_call-Charges tokens_of p call (llm_raised reason) response e =
    absurd (fail_call_gives p call reason response e)
finish_call-Charges tokens_of p call (llm_returned raw) response e =
    go (record_execution q.ledger (event_of q call "success" "" (dict told_fields) cost)) e
  where
    told_fields : Fields
    told_fields = normalize_response raw

    cost : Dollars
    cost = estimate_cost tokens_of told_fields

    q : GovernanceProxy
    q = on_success (consume_budget p call.caller call.today call.month cost) call.caller

    charged : Charges tokens_of p call told_fields q
    charged =
        let (day, month) = charges p call.caller call.today call.month cost in
        (cost, estimate_cost-IsCost tokens_of told_fields, day, month)

    go :
        (o : Option InMemoryLedger)
        → (with_ledger q o (completed told_fields) (λ q'. fail_call q' call "ValueError")).0
          ≡ completed response
        → Charges tokens_of p call response
            (with_ledger q o (completed told_fields) (λ q'. fail_call q' call "ValueError")).1
    go none e = absurd (fail_call_gives q call "ValueError" response e)
    go (some ledger) e =
        let same : told_fields ≡ response = ap (λ c. response_of c told_fields) e in
        rw (← same) charged

blocked_gives :
    (tokens_of : Value → Option Dollars) (q : GovernanceProxy) (call : Call) (reason : String)
    (response : Fields)
    → (behind_gate tokens_of call (some (rejection reason), q)).0 ≢ completed response
blocked_gives tokens_of q call reason response =
    go (record_execution q.ledger (event_of q call "blocked" reason null (usd (pos 0))))
  where
    go :
        (o : Option InMemoryLedger)
        → (with_ledger q o (rejected_for reason) ledger_error).0 ≢ completed response
    go none e = absurd (cc)
    go (some ledger) e = absurd (cc)

passes_through :
    (b : Bool) (completion : Completion) (response : Fields)
    → (if b then completion else call_failed) ≡ completed response
    → b ≡ true
passes_through true completion response e = refl
passes_through false completion response e = absurd (cc)

-- What a response goes with: a check of the gate raised and the call was passed through, or the budget
-- allowed the call and was charged.
abbrev pub IsPaid :
    (Value → Option Dollars)
    → GovernanceProxy
    → Call
    → Fields
    → Option Refusal
    → GovernanceProxy
    → Type 0
IsPaid tokens_of p call response (some (rejection reason)) p' = ⊥
IsPaid tokens_of p call response (some gate_error) p' =
    (p.passthrough_on_error ≡ true) × KeepsUsage p p'
IsPaid tokens_of p call response none p' =
    IsWithin p call.caller call.reading.today call.reading.month
    × Charges tokens_of p call response p'

behind_gate-IsPaid :
    (tokens_of : Value → Option Dollars) (p q : GovernanceProxy) (call : Call)
    (refusal : Option Refusal) (response : Fields)
    → KeepsUsage p q
    → (refusal ≡ none → IsWithin p call.caller call.reading.today call.reading.month)
    → (behind_gate tokens_of call (refusal, q)).0 ≡ completed response
    → IsPaid tokens_of p call response refusal (behind_gate tokens_of call (refusal, q)).1
behind_gate-IsPaid tokens_of p q call (some (rejection reason)) response same within e =
    absurd (blocked_gives tokens_of q call reason response e)
behind_gate-IsPaid tokens_of p q call (some gate_error) response (day, month, through) within e = (
  sym through ∙ passes_through q.passthrough_on_error (passthrough_call call.outcome) response e,
  (day, month, through),
)
behind_gate-IsPaid tokens_of p q call none response (day, month, through) within e =
    let (cost, known, day_charged, month_charged) =
      finish_call-Charges tokens_of q call call.outcome response e in
    (
      within refl,
      (
        cost,
        known,
        day_charged
            ∙ ap
                (λ u.
                  add_dollars (amount_or_zero (get ⦃e = usage_key_eq⦄ u (call.caller, call.today)))
                    cost)
                day,
        month_charged
            ∙ ap
                (λ u.
                  add_dollars (amount_or_zero (get ⦃e = usage_key_eq⦄ u (call.caller, call.month)))
                    cost)
                month,
      ),
    )

-- A caller gets a response only if the gate does not reject the call. If the gate lets it in, its usage
-- of the day and of the month was below the limits, and then both grow by two millionths of a dollar
-- for each token that the response tells; if a check of the gate raises another error, the proxy
-- passes calls through, and the usage is what it was.
pub acompletion-IsPaid :
    (tokens_of : Value → Option Dollars) (p : GovernanceProxy) (call : Call) (response : Fields)
    → (acompletion tokens_of p call).0 ≡ completed response
    → IsPaid tokens_of p call response
        (gate p call.caller call.reading).0
        (acompletion tokens_of p call).1
unfolding acompletion
acompletion-IsPaid tokens_of p call response e =
    behind_gate-IsPaid tokens_of p (gate p call.caller call.reading).1 call
      (gate p call.caller call.reading).0 response (gate-usage p call.caller call.reading)
      (gate-IsWithin p call.caller call.reading) e
