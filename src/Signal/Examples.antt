-- ===== src/Signal/Examples.antt =====
-- Runs of owlclaw/triggers/signal: an agent is paused, instructed and asked for what it got.
use owlclaw.Base.{
  Bool, Option, String, [], arith, false, if◌then◌else◌, keep_if, length, map, none, pair_eq, refl,
  some, string_eq, string_pair_eq, true, ℕ, ◌++◌, ◌∷◌, ◌≡◌, ◌≤◌,
}
use owlclaw.Base.Dict.{get}
use owlclaw.Base.Int.{pos}
use owlclaw.Signal.Handlers.{HandlerSetup, default_handlers, handle_pause, run_failed}
use owlclaw.Signal.Models.{
  PendingInstruction, Signal, SignalType, cli, create_instruction, pause_signal,
}
use owlclaw.Signal.Router.{SignalRouter, authorize, dispatch, finish, run_handler}
use owlclaw.Signal.State.{
  AgentStateManager, add_instruction, consume_instructions, get_state, is_live, key_of, mark,
  push_instruction, state_of, state_or_fresh,
}
use owlclaw.Signal.State.Bounds.{IsBounded, add_instruction-newest, newest}
use owlclaw.Signal.State.Consumption.{consume_instructions_lem}

abbrev signal_of : SignalType → Signal
signal_of type = record {
  type = type;
  source = cli;
  agent_id = "trader";
  tenant_id = " acme ";
  operator = "ann";
  message = "sell";
  focus = none;
  ttl_seconds = pos 0;
  id = "s1";
}

abbrev manager : ℕ → AgentStateManager
manager most = record { max_pending_instructions = most; states = [] }

abbrev order : String → PendingInstruction
order content = create_instruction 0 content "ann" cli 60

abbrev one_pending : AgentStateManager
one_pending = record {
  max_pending_instructions = 1;
  states =
      (("acme", "trader"), record { paused = false; pending_instructions = order "buy" ∷ [] }) ∷ [];
}

abbrev setup : HandlerSetup
setup = record {
  trigger_event = λ signal. run_failed;
  governance = none;
  on_pause = none;
  on_resume = none;
  default_ttl_seconds = 60;
}

abbrev router_of : Option (Signal → Bool × Option String) → SignalRouter
router_of authorizer = record {
  handlers = default_handlers setup;
  authorizer = authorizer;
  ledger = some [];
}

abbrev deny : Signal → Bool × Option String
deny signal = (false, none)

denied : (authorize (router_of (some deny)) (signal_of pause_signal)).0 ≡ false
unfolding authorize
denied = refl

allowed : (authorize (router_of none) (signal_of pause_signal)).0 ≡ true
unfolding authorize
allowed = refl

pause_replies :
    (dispatch (router_of none) 0 (signal_of pause_signal) (manager 1)).0.status ≡ "paused"
unfolding dispatch authorize default_handlers run_handler handle_pause get_state state_of get finish
pause_replies = refl

nothing_pending : (state_of (manager 0) "trader" "acme").pending_instructions ≡ []
unfolding state_of get
nothing_pending = refl

one_pending-IsBounded : IsBounded one_pending
unfolding state_of get
one_pending-IsBounded = record {
  positive = omega arith;
  fits = λ agent tenant. go (pair_eq ("acme", "trader") (key_of agent tenant));
}
  where
    go :
        (b : Bool)
        → length
            (state_or_fresh (
              if b
              then some (record { paused = false; pending_instructions = order "buy" ∷ [] })
              else none)).pending_instructions
          ≤ 1
    go true = omega arith
    go false = omega arith

add_instruction-newest_example :
    (m' : AgentStateManager) × (add_instruction one_pending "trader" "acme" (order "sell")
      ≡ some m')
    × IsBounded m'
    × ((state_of m' "trader" "acme").pending_instructions
        ≡ newest 1
            ((state_of one_pending "trader" "acme").pending_instructions ++ order "sell" ∷ []))
add_instruction-newest_example =
    add_instruction-newest one_pending "trader" "acme" (order "sell") one_pending-IsBounded

pop_raises : add_instruction (manager 0) "trader" "acme" (order "sell") ≡ none
unfolding add_instruction push_instruction
pop_raises = rw nothing_pending refl

consume_instructions_lem_example :
    let (m', consumed) = consume_instructions one_pending "trader" "acme" 5 in
    (consumed
      ≡ map
          (mark 5)
          (keep_if (is_live 5) (state_of one_pending "trader" "acme").pending_instructions))
    × ((state_of m' "trader" "acme").pending_instructions ≡ [])
consume_instructions_lem_example = consume_instructions_lem one_pending "trader" "acme" 5
