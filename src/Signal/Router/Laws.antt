-- ===== src/Signal/Router/Laws.antt =====
-- What a dispatched signal does to the agents' states and to the ledger.
use owlclaw.Base.{
  Bool-cases, List, Option, String, [], arith, false, inl, inr, none, refl, some, true, ℕ, ◌++◌,
  ◌∷◌, ◌≡◌,
}
use owlclaw.Signal.Handlers.{
  Handled, Handler, HandlerSetup, default_handlers, handle_pause, handle_resume, raised_error,
  replied,
}
use owlclaw.Signal.Handlers.Pausing.{SetsPaused, handle_pause-SetsPaused, handle_resume-SetsPaused}
use owlclaw.Signal.Models.{Signal, SignalResult, pause_signal, resume_signal}
use owlclaw.Signal.Router.{
  RouterEntry, SignalRouter, authorize, dispatch, entry_of, finish, record_entry, run_handler,
}
use owlclaw.Signal.State.{AgentStateManager}

-- A signal that the authorizer turns down changes no state, whatever the handlers are; it is
-- answered with "unauthorized" and recorded as blocked.
pub dispatch_unauthorized :
    (router : SignalRouter) (now : ℕ) (signal : Signal) (m : AgentStateManager)
    → (authorize router signal).0 ≡ false
    → let (result, router', m') = dispatch router now signal m in
      (m' ≡ m)
      × (result.error_code ≡ some "unauthorized")
      × (router' ≡ record_entry router signal result "blocked")
unfolding dispatch
dispatch_unauthorized router now signal m h = rw h (refl, refl, refl)

abbrev pub entries_after : Option (List RouterEntry) → List RouterEntry → Option (List RouterEntry)
entries_after none new = none
entries_after (some entries) new = some (entries ++ new)

-- One entry more, which holds the signal and the reply.
abbrev pub RecordsReply : SignalRouter → Signal → SignalResult → SignalRouter → Type 0
RecordsReply router signal result router' =
    (status : String) × (router'.ledger
      ≡ entries_after router.ledger (entry_of signal result status ∷ []))

ledger-record_entry :
    (router : SignalRouter) (signal : Signal) (result : SignalResult) (status : String)
    → RecordsReply router signal result (record_entry router signal result status)
unfolding record_entry
ledger-record_entry router signal result status = (status, ground arith)

run_handler-RecordsReply :
    (router : SignalRouter) (now : ℕ) (signal : Signal) (m : AgentStateManager)
    (handler : Option Handler)
    → RecordsReply router signal
        (run_handler router now signal m handler).0
        (run_handler router now signal m handler).1
unfolding run_handler
run_handler-RecordsReply router now signal m none = ledger-record_entry router signal _ "failed"
run_handler-RecordsReply router now signal m (some handler) = go (handler now signal m).0
  where
    go :
        (handled : Handled)
        → RecordsReply router signal
            (finish router signal handled).0
            (finish router signal handled).1
    go (replied result) = ledger-record_entry router signal result "success"
    go raised_error = ledger-record_entry router signal _ "failed"

-- Every signal, allowed or not and whatever its handler does, adds one entry to an attached ledger,
-- with the tenant, the agent and the contents of the signal and with the result that is returned.
pub dispatch-RecordsReply :
    (router : SignalRouter) (now : ℕ) (signal : Signal) (m : AgentStateManager)
    → let (result, router', m') = dispatch router now signal m in
      RecordsReply router signal result router'
unfolding dispatch
dispatch-RecordsReply router now signal m = elim (Bool-cases (authorize router signal).0) [
  | inl allowed ↦
      rw allowed (run_handler-RecordsReply router now signal m (router.handlers signal.type))
  | inr denied ↦ rw denied (ledger-record_entry router signal _ "blocked")
]

-- An allowed signal leaves the states that its handler leaves.
states-dispatch :
    (router : SignalRouter) (now : ℕ) (signal : Signal) (m : AgentStateManager) (handler : Handler)
    → (authorize router signal).0 ≡ true
    → router.handlers signal.type ≡ some handler
    → (dispatch router now signal m).2 ≡ (handler now signal m).1
unfolding dispatch
states-dispatch router now signal m handler allowed found = rw (allowed, found) refl

module _ (setup : HandlerSetup) (router : SignalRouter) (now : ℕ) (signal : Signal)
    (m : AgentStateManager) (allowed : (authorize router signal).0 ≡ true)
    (wired : router.handlers ≡ default_handlers setup) where
  -- An allowed pause signal leaves its agent paused with the same instructions, and every other
  -- agent as it was, also where the callback raises.
  pub dispatch_pause :
      signal.type ≡ pause_signal
      → SetsPaused true signal.agent_id signal.tenant_id m (dispatch router now signal m).2
  unfolding default_handlers
  dispatch_pause e =
      rw
        (states-dispatch router now signal m (handle_pause setup.on_pause) allowed
          (rw (wired, e) refl))
        (handle_pause-SetsPaused setup.on_pause now signal m)

  -- An allowed resume signal leaves its agent running with the same instructions, and every other
  -- agent as it was, also where the callback raises.
  pub dispatch_resume :
      signal.type ≡ resume_signal
      → SetsPaused false signal.agent_id signal.tenant_id m (dispatch router now signal m).2
  unfolding default_handlers
  dispatch_resume e =
      rw
        (states-dispatch router now signal m (handle_resume setup.on_resume) allowed
          (rw (wired, e) refl))
        (handle_resume-SetsPaused setup.on_resume now signal m)
