-- ===== src/Lib.antt =====
-- Governance, security, the signal, queue and database triggers, short-term memory and hub
-- reviews of OwlClaw.
--
-- OwlClaw runs agents on behalf of tenants. Before a run, governance decides which capabilities
-- the agent sees: `VisibilityFilter.filter_capabilities` asks the risk gate about each
-- capability, then the registered constraints, and treats a constraint that fails by its fail
-- policy. The constraints read the ledger of past calls, which also bounds its own size. A proxy
-- guards each call of a model by a budget, a rate and a circuit and records it in a ledger of
-- its own. A model router picks the language model of a task, an approval queue holds what waits
-- for a person, manual signals pause, resume, trigger and instruct agents, a queue trigger
-- starts runs from messages, with retries, deduplication, a governance check and a call of the
-- adapter that ends each message, an aggregator gathers the changes of a database into batches, a
-- migration gate decides whether an action runs, a short-term
-- memory keeps the rounds of a run within a limit of tokens, and the hub reviews the skills that
-- publishers submit.
--
-- Files, and the code they model:
--   Governance/Coerce, Governance/View   owlclaw/governance/visibility.py: the coercions,
--     `FilterResult`, `RunContext`, `CapabilityView`
--   Governance/Visibility                owlclaw/governance/visibility.py: `VisibilityFilter`; its
--     children are about one round of the loop (Visit), the risk gate (Gate), evaluators that
--     fail (Veto) or have a state (Stateful), and the circuit breaker among them (Breaker)
--   Security/RiskGate                    owlclaw/security/risk_gate.py: `RiskGate`; Policy and Queue
--   Governance/Ledger                    owlclaw/governance/ledger_inmemory.py: `InMemoryLedger`,
--     with `LedgerQueryFilters` and `CostSummary` of owlclaw/governance/ledger.py; Query, Bounds, Costs
--   Governance/Constraints/*             owlclaw/governance/constraints/*.py, one file for each
--     constraint: Budget, CircuitBreaker, RateLimit, RiskConfirmation, Time
--   Governance/ApprovalQueue             owlclaw/governance/approval_queue.py:
--     `InMemoryApprovalQueue`; Finality, Decisions, Listing
--   Governance/Router                    owlclaw/governance/router.py: `Router`
--   Governance/MigrationGate             owlclaw/governance/migration_gate.py: `MigrationGate`;
--     Weights, Decisions
--   Governance/Proxy                     owlclaw/governance/proxy.py: `GovernanceProxy`; Completion is
--     `acompletion` with the ledger; Traces is about its state through
--     overlapping calls, and Rate, Circuits, HalfOpen, Spending and Audit about its checks
--   Signal/Models, State, Handlers, Router   owlclaw/triggers/signal/{models,state,handlers,router}.py
--   Queue                                owlclaw/triggers/queue: Config (config.py, `validate_config`),
--     Models (models.py, parsers.py), Idempotency (idempotency.py; its Refinement compares the store
--     with a table), Redaction (security.py), and of trigger.py Tenant, Effects and Runtime (state and
--     counters), Retry, Decisions and Checks (governance, ledger, store), Processing (one message),
--     Worker (`_consume_loop`)
--   DbChange/Aggregator                  owlclaw/triggers/db_change/aggregator.py: `EventAggregator`;
--     Accounts follows the events, Schedule the debounce task
--   Agent/Stm                            owlclaw/agent/memory/stm.py: `STMManager`; Window and
--     Counting are about its rounds and its counter of tokens
--   Owlhub/Ids, Owlhub/Review            owlclaw/owlhub/review/system.py: the review ids and
--     `ReviewSystem`; Appeals holds its lists and appeals, Lifecycle what a decision leaves
--   Base                                 Python's values, texts, dicts, sorting and integers, and the
--     lemmas on lists that the parts share
-- Every Examples file runs its part on concrete inputs.
--
-- Conventions. A method that changes its object takes the object and returns the new one, with
-- the result; an exception is `none`, a failure of a data type, or an outcome. The name of a
-- definition is the method's, without the leading underscore. The current time, fresh ids and
-- what `Decimal` arithmetic needs are arguments: a time is a number of microseconds, a date a
-- number of days, an amount an integer number of a small unit. A `dict` is an association list
-- in insertion order with one entry for each key (Base/Dict); `str.strip` removes the characters
-- that `str.isspace` knows, and `str.lower` is that of ASCII letters. A configuration value is a
-- `Value` (Base/Value). Each loop of the code goes over a list or a number of attempts and is
-- structural recursion. What the queue trigger calls outside is a list of effects; the answers
-- of the adapter, the runtime, the governance layer and the clocks are functions of that list,
-- so that they may depend on all that happened before. Only `decimal` of Base/Number, the digits
-- of a number, runs on fuel: it gets one more than the number, which is more than the count of
-- its digits.
--
-- Not modelled: the interleaving of evaluators inside one `asyncio.gather`, and the cancellation
-- of a task, so that a method is one step; the database paths of the ledger and of the signal
-- state; the HTTP endpoints; infinite amounts, and NaN amounts outside the proxy; negative
-- limits, offsets and bounds; the amounts inside the reason that the budget gives; the rendering
-- of the short-term memory; JSON text and path resolution of the review files, since a valid id
-- holds no separator; the rule sets of the validator of the hub, whose answer is an argument;
-- what happens to a queue trigger between the steps of a message in flight, such as a pause, a
-- stop or the work of another worker; its Redis store and the reading of its configuration file.
-- The parts of the repository that are left out altogether are command line, console,
-- integrations, configuration loading, the agent runtime and the webhook, cron and API triggers,
-- and of the database trigger all but its aggregator.
pub mod Base
pub mod Agent
pub mod Security
pub mod Governance
pub mod Owlhub
pub mod Signal
pub mod Queue
pub mod DbChange
