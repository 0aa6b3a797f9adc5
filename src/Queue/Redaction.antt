-- ===== src/Queue/Redaction.antt =====
-- owlclaw/triggers/queue/security.py: what is blotted out of texts and values before they are
-- logged or kept. The substitutions of the three regular expressions are arguments. A set, which
-- the code leaves as it is, is `other` here, and the keys of a dict are texts.
pub mod Secrecy
use Prim.Native.Char.{code}
use owlclaw.Base.{
  Bool, List, String, [], false, if◌then◌else◌, is_empty, lower, nat_eq, true, ◌&&◌, ◌||◌, ◌∷◌,
}
use owlclaw.Base.Value.{
  Fields, Items, Value, bool, cons, dict, end, field, float, inf, int, list, nan, nil, null, other,
  str,
}

pub record Patterns : Type 0 where
  pub key_values : String → String
  pub bearers : String → String
  pub openai_keys : String → String

abbrev pub sensitive_keys : List String
sensitive_keys = "password" ∷ "passwd" ∷ "pwd" ∷ "token" ∷ "api_key" ∷ "apikey" ∷ "secret" ∷ []

unfoldable pub starts_with : String → String → Bool
starts_with String.[] s = true
starts_with (String.◌∷◌ c prefix) String.[] = false
starts_with (String.◌∷◌ c prefix) (String.◌∷◌ d s) =
    nat_eq (code c) (code d) && starts_with prefix s

-- `part in s`
unfoldable pub contains_text : String → String → Bool
contains_text part String.[] = is_empty part
contains_text part (String.◌∷◌ c s) = starts_with part (String.◌∷◌ c s) || contains_text part s

abbrev any_in : List String → String → Bool
any_in [] s = false
any_in (part ∷ parts) s = contains_text part s || any_in parts s

-- `any(marker in key_lower for marker in _SENSITIVE_KEYS)`
unfoldable pub is_sensitive : String → Bool
unfolding contains_text starts_with
is_sensitive key = any_in sensitive_keys (lower key)

-- `redact_sensitive_text`, and `redact_error_message` of an exception's text
unfoldable pub redact_text : Patterns → String → String
redact_text p text = p.openai_keys (p.bearers (p.key_values text))

unfoldable mutual
  -- `redact_sensitive_data`
  pub redact_value : Patterns → Value → Value
  redact_value p (dict fields) = dict (redact_fields p fields)
  redact_value p (list items) = list (redact_items p items)
  redact_value p (str s) = str (redact_text p s)
  redact_value p null = null
  redact_value p nan = nan
  redact_value p other = other
  redact_value p (inf b) = inf b
  redact_value p (bool b) = bool b
  redact_value p (int z) = int z
  redact_value p (float m d) = float m d

  pub redact_items : Patterns → Items → Items
  redact_items p nil = nil
  redact_items p (cons value items) = cons (redact_value p value) (redact_items p items)

  pub redact_fields : Patterns → Fields → Fields
  redact_fields p end = end
  redact_fields p (field key value fields) =
      let rest = redact_fields p fields in
      let redacted = redact_value p value in
      if is_sensitive key then field key (str "***") rest else field key redacted rest
