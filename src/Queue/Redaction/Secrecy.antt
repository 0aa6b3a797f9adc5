-- ===== src/Queue/Redaction/Secrecy.antt =====
-- What a redacted value shows.
use owlclaw.Base.{Bool-cases, inl, inr, refl, true, ◌≡◌}
use owlclaw.Base.Value.{
  Fields, Items, Value, bool, cons, dict, end, field, float, inf, int, list, nan, nil, null, other,
  str,
}
use owlclaw.Governance.View.{hidden}
use owlclaw.Queue.Redaction.{Patterns, is_sensitive, redact_fields, redact_items, redact_value}

mutual
  -- Under a sensitive key, at any depth, stands "***".
  pub IsSecret : Value → Type 0
  IsSecret (dict fields) = AreSecret fields
  IsSecret (list items) = AllSecret items
  IsSecret null = Unit
  IsSecret nan = Unit
  IsSecret other = Unit
  IsSecret (inf b) = Unit
  IsSecret (bool b) = Unit
  IsSecret (int z) = Unit
  IsSecret (float m d) = Unit
  IsSecret (str s) = Unit

  pub AllSecret : Items → Type 0
  AllSecret nil = Unit
  AllSecret (cons value items) = IsSecret value × AllSecret items

  pub AreSecret : Fields → Type 0
  AreSecret end = Unit
  AreSecret (field key value fields) =
      (is_sensitive key ≡ true → value ≡ str "***") × IsSecret value × AreSecret fields

mutual
  unfolding redact_value IsSecret

  value-IsSecret : (p : Patterns) (value : Value) → IsSecret (redact_value p value)
  value-IsSecret p (dict fields) = fields-AreSecret p fields
  value-IsSecret p (list items) = items-AllSecret p items
  value-IsSecret p null = tt
  value-IsSecret p nan = tt
  value-IsSecret p other = tt
  value-IsSecret p (inf b) = tt
  value-IsSecret p (bool b) = tt
  value-IsSecret p (int z) = tt
  value-IsSecret p (float m d) = tt
  value-IsSecret p (str s) = tt

  items-AllSecret : (p : Patterns) (items : Items) → AllSecret (redact_items p items)
  items-AllSecret p nil = tt
  items-AllSecret p (cons value items) = (value-IsSecret p value, items-AllSecret p items)

  fields-AreSecret : (p : Patterns) (fields : Fields) → AreSecret (redact_fields p fields)
  fields-AreSecret p end = tt
  fields-AreSecret p (field key value fields) = elim (Bool-cases (is_sensitive key)) [
    | inl hidden ↦ rw hidden (λ _. refl, tt, fields-AreSecret p fields)
    | inr plain ↦ rw plain (λ named. absurd (cc), value-IsSecret p value, fields-AreSecret p fields)
  ]

-- In what `redact_sensitive_data` gives, every key that names a credential, in whatever dict inside
-- dicts and lists it stands, has the value "***".
pub redact_value-IsSecret : (p : Patterns) (value : Value) → IsSecret (redact_value p value)
redact_value-IsSecret p value = value-IsSecret p value
