-- ===== src/Queue/Models.antt =====
-- owlclaw/triggers/queue/models.py and parsers.py. The bytes of a body are a text of their code
-- points. Decoding UTF-8 and reading JSON are the arguments `Decoders`.
use owlclaw.Base.{Option, String, [], concat, none, some, string_eq, string_pair_eq, ℕ, ◌∷◌}
use owlclaw.Base.Dict.{Dict, get}
use owlclaw.Base.Int.{pos, ℤ}
use owlclaw.Base.Value.{Fields, Value, dict}

-- A `datetime`: microseconds, and the offset of its zone, where it has one.
pub record Timestamp : Type 0 where
  pub micros : ℕ
  pub offset : Option ℤ

pub record RawMessage : Type 0 where
  pub message_id : String
  pub body : String
  pub headers : Dict String String
  pub timestamp : Timestamp

pub data Payload : Type 0 where
  object_payload : Fields → Payload
  text_payload bytes_payload : String → Payload

pub record MessageEnvelope : Type 0 where
  pub message_id : String
  pub payload : Payload
  pub headers : Dict String String
  pub received_at : Timestamp
  pub source : String
  pub dedup_key : Option String
  pub event_name : Option String
  pub tenant_id : Option String

-- What parsing a body does: a payload, a `ParseError`, or another exception.
pub data Parsed (A : Type 0) : Type 0 where
  parsed_as : A → Parsed A
  parse_failed : String → Parsed A
  parse_crashed : Parsed A

-- `body.decode("utf-8")` with the text of its UnicodeDecodeError, and `json.loads`.
pub record Decoders : Type 0 where
  pub utf8 : String → Parsed String
  pub loads : String → Parsed Value

pub data MessageParser : Type 0 where
  json_parser text_parser binary_parser : MessageParser

abbrev and_then : {A B : Type 0} → Parsed A → (A → Parsed B) → Parsed B
and_then (parsed_as a) f = f a
and_then (parse_failed detail) f = parse_failed detail
and_then parse_crashed f = parse_crashed

abbrev blame : {A : Type 0} → String → Parsed A → Parsed A
blame text (parsed_as a) = parsed_as a
blame text (parse_failed detail) = parse_failed (concat (text ∷ detail ∷ []))
blame text parse_crashed = parse_crashed

abbrev json_object : Value → Parsed Payload
json_object (dict fields) = parsed_as (object_payload fields)
json_object _ = parse_failed "JSON payload must decode to an object"

-- `JSONParser.parse`, `TextParser.parse` and `BinaryParser.parse`
unfoldable pub parse : Decoders → MessageParser → String → Parsed Payload
parse d json_parser body =
    and_then (blame "Failed to parse JSON payload: " (and_then (d.utf8 body) d.loads)) json_object
parse d text_parser body =
    and_then (blame "Failed to parse text payload: " (d.utf8 body))
      (λ s. parsed_as (text_payload s))
parse d binary_parser body = parsed_as (bytes_payload body)

abbrev utc : Option ℤ → Option ℤ
utc none = some (pos 0)
utc (some offset) = some offset

abbrev envelope_of : RawMessage → String → Payload → MessageEnvelope
envelope_of raw source payload = record {
  message_id = raw.message_id;
  payload = payload;
  headers = raw.headers;
  received_at = record { micros = raw.timestamp.micros; offset = utc raw.timestamp.offset };
  source = source;
  dedup_key = get raw.headers "x-dedup-key";
  event_name = get raw.headers "x-event-name";
  tenant_id = get raw.headers "x-tenant-id";
}

-- `MessageEnvelope.from_raw_message`
unfoldable pub from_raw_message :
    Decoders → RawMessage → String → MessageParser → Parsed MessageEnvelope
unfolding parse
from_raw_message d raw source parser =
    and_then (parse d parser raw.body) (λ payload. parsed_as (envelope_of raw source payload))
