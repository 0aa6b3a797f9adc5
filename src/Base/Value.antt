-- ===== src/Base/Value.antt =====
-- A value of the dynamic language, as configuration and skill files hold it.
-- `float m d` is the finite float m / (d + 1). A tuple is a `list` of its items, and so
-- is a set where the code treats it like one; any other object is `other`.
use owlclaw.Base.{
  Bool, Option, String, false, if◌then◌else◌, is_empty, none, not, some, string_eq, string_pair_eq,
  true, zero, ℕ, ◌==◌,
}
use owlclaw.Base.Int.{pos, ℤ}

mutual
  pub data Value : Type 0 where
    null nan other : Value
    inf : Bool → Value
    bool : Bool → Value
    int : ℤ → Value
    float : ℤ → ℕ → Value
    str : String → Value
    list : Items → Value
    dict : Fields → Value

  pub data Items : Type 0 where
    nil : Items
    cons : Value → Items → Items

  pub data Fields : Type 0 where
    end : Fields
    field : String → Value → Fields → Fields

-- `d.get(key)`, with `None` for a missing key.
unfoldable pub get_field : Fields → String → Value
get_field end key = Value.null
get_field (field k v d) key = if k == key then v else get_field d key

-- The value under a key, if there is one.
unfoldable pub find_field : Fields → String → Option Value
find_field end key = none
find_field (field k v d) key = if k == key then some v else find_field d key

abbrev pub is_zero : ℤ → Bool
is_zero (pos zero) = true
is_zero _ = false

-- The truth value of a value.
unfoldable pub is_set : Value → Bool
is_set (bool b) = b
is_set (int z) = not (is_zero z)
is_set (float m d) = not (is_zero m)
is_set (str s) = not (is_empty s)
is_set (list nil) = false
is_set (dict end) = false
is_set null = false
is_set _ = true
