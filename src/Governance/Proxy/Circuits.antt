-- ===== src/Governance/Proxy/Circuits.antt =====
-- owlclaw/governance/proxy.py: when failures open the circuit of a caller.
use owlclaw.Base.{List, String, [], string_eq, string_pair_eq, ℕ, ◌∷◌}
use owlclaw.Governance.Proxy.{GovernanceProxy, on_failure}

-- `_on_failure` at each of the times.
unfoldable pub fail_all : GovernanceProxy → String → List ℕ → GovernanceProxy
unfolding on_failure
fail_all p caller [] = p
fail_all p caller (now ∷ times) = fail_all (on_failure p caller now) caller times
