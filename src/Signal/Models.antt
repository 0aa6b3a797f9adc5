-- ===== src/Signal/Models.antt =====
-- owlclaw/triggers/signal/models.py. Times are microseconds; a signal's id is its text, and its
-- creation time, which no code modelled here reads, is left out.
use owlclaw.Base.{Bool, Option, String, false, leb, ℕ, ◌*◌, ◌+◌}
use owlclaw.Base.Int.{ℤ}
use owlclaw.Security.RiskGate.{second}

pub data SignalType : Type 0 where
  pause_signal resume_signal trigger_signal instruct_signal : SignalType

pub data SignalSource : Type 0 where
  cli api mcp : SignalSource

pub record Signal : Type 0 where
  pub type : SignalType
  pub source : SignalSource
  pub agent_id : String
  pub tenant_id : String
  pub operator : String
  pub message : String
  pub focus : Option String
  pub ttl_seconds : ℤ
  pub id : String

pub record SignalResult : Type 0 where
  pub status : String
  pub message : Option String
  pub run_id : Option String
  pub error_code : Option String

pub record PendingInstruction : Type 0 where
  pub content : String
  pub operator : String
  pub source : SignalSource
  pub created_at : ℕ
  pub expires_at : ℕ
  pub consumed : Bool

-- `PendingInstruction.create`, for a lifetime that is not negative
unfoldable pub create_instruction : ℕ → String → String → SignalSource → ℕ → PendingInstruction
create_instruction now content operator source ttl_seconds = record {
  content = content;
  operator = operator;
  source = source;
  created_at = now;
  expires_at = now + ttl_seconds * second;
  consumed = false;
}

-- `is_expired`
abbrev pub is_expired : ℕ → PendingInstruction → Bool
is_expired now instruction = leb instruction.expires_at now
