-- ===== src/Governance/MigrationGate.antt =====
-- owlclaw/governance/migration_gate.py: `MigrationGate`.
-- Whether the random draw is below the probability that the floats of the code give at a weight is
-- the argument `below`; the two floats of an outcome are left out. What the configuration file
-- holds, and its modification time if it has one, are arguments.
pub mod Weights
pub mod Decisions
mod Examples
use owlclaw.Base.{
  Bool, Option, String, [], false, if◌then◌else◌, is_empty, leb, ltb, none, some, string_eq,
  string_pair_eq, strip, true, ℕ, ◌==◌, ◌∷◌,
}
use owlclaw.Base.Dict.{Dict, get, put}
use owlclaw.Base.Int.{negsuc, pos, ℤ}
use owlclaw.Base.Number.{int_of_text, truncate}
use owlclaw.Base.Options.{◌>>=◌}
use owlclaw.Base.Value.{Fields, Value, dict, end, field, float, get_field, inf, int, str}
use owlclaw.Governance.Constraints.RateLimit.Limits.{below}

pub data MigrationDecision : Type 0 where
  observe_only auto_execute require_approval : MigrationDecision

pub record MigrationOutcome : Type 0 where
  pub decision : MigrationDecision
  pub migration_weight : ℕ

pub record ConfigFile : Type 0 where
  pub content : Fields
  pub mtime : Option ℕ

pub record MigrationGate : Type 0 where
  pub weights : Dict String ℕ
  pub auto_reload : Bool
  pub config_mtime : Option ℕ

abbrev pub in_range : ℤ → Option ℕ
in_range (pos n) = if leb n 100 then some n else none
in_range (negsuc n) = none

abbrev pub in_range_or_none : Option ℤ → Option ℕ
in_range_or_none none = none
in_range_or_none (some z) = in_range z

-- `_normalize_weight`: the inner `none` is a ValueError or a TypeError, the outer one the
-- OverflowError of `int(inf)`.
unfoldable pub normalize_weight : Value → Option (Option ℕ)
normalize_weight (int z) = some (in_range z)
normalize_weight (float m d) = some (in_range (truncate m d))
normalize_weight (str s) = some (in_range_or_none (int_of_text s))
normalize_weight (inf positive) = none
normalize_weight _ = some none

-- `_extract_weight_from_skill`
unfoldable pub extract_weight : Fields → Option (Option ℕ)
unfolding normalize_weight
extract_weight skill_owlclaw = normalize_weight (get_field skill_owlclaw "migration_weight")

abbrev pub dict_fields : Value → Fields
dict_fields (dict fields) = fields
dict_fields _ = end

abbrev pub put_weight : Dict String ℕ → String → Option ℕ → Dict String ℕ
put_weight out name none = out
put_weight out name (some weight) = put out (strip name) weight

-- The loop over `entries` of `_parse_weights_from_config`.
unfoldable pub collect_entries : Dict String ℕ → Fields → Option (Dict String ℕ)
collect_entries out end = some out
collect_entries out (field name payload rest) = extract_weight (dict_fields payload) >>= λ weight.
    collect_entries (put_weight out name weight) rest

-- The loop over `skills` of `_parse_weights_from_config`.
unfoldable pub collect_skills : Dict String ℕ → Fields → Option (Dict String ℕ)
collect_skills out end = some out
collect_skills out (field name (dict payload) rest) =
    let skipped = collect_skills out rest in
    if name == "entries"
    then skipped
    else extract_weight payload >>= λ weight. collect_skills (put_weight out name weight) rest
collect_skills out (field name _ rest) = collect_skills out rest

unfoldable pub parse_skills : Value → Option (Dict String ℕ)
unfolding collect_entries collect_skills
parse_skills (dict skills) =
    collect_entries [] (dict_fields (get_field skills "entries")) >>= λ out.
    collect_skills out skills
parse_skills _ = some []

-- `_parse_weights_from_config`
unfoldable pub parse_weights : Fields → Option (Dict String ℕ)
unfolding parse_skills
parse_weights config = parse_skills (get_field config "skills")

-- `d.update(e)`
unfoldable pub update : Dict String ℕ → Dict String ℕ → Dict String ℕ
update d [] = d
update d ((name, weight) ∷ e) = update (put d name weight) e

-- `refresh_from_config`
unfoldable pub refresh_from_config : MigrationGate → ConfigFile → Option MigrationGate
unfolding parse_weights update
refresh_from_config g file = parse_weights file.content >>= λ loaded.
    some (record g { weights = update g.weights loaded; config_mtime = file.mtime })

abbrev pub needs_reload : Option ℕ → Option ℕ → Bool
needs_reload seen none = false
needs_reload none (some current) = true
needs_reload (some seen) (some current) = ltb seen current

-- `_refresh_if_config_changed`
unfoldable pub refresh_if_changed : MigrationGate → ConfigFile → Option MigrationGate
refresh_if_changed g file =
    if needs_reload g.config_mtime file.mtime then refresh_from_config g file else some g

-- The loop of `__init__` over the given weights.
unfoldable pub add_weights : Dict String ℕ → Dict String Value → Option (Dict String ℕ)
add_weights out [] = some out
add_weights out ((name, value) ∷ rest) = normalize_weight value >>= λ read.
    read >>= λ weight. add_weights (put out (strip name) weight) rest

-- `__init__`; `none` is one of its errors.
unfoldable pub new_migration_gate : Dict String Value → Bool → ConfigFile → Option MigrationGate
unfolding add_weights
new_migration_gate skill_weights auto_reload file = add_weights [] skill_weights >>= λ weights.
    refresh_from_config
      (record { weights = weights; auto_reload = auto_reload; config_mtime = none }) file

-- `set_weight`; `none` is one of its errors.
unfoldable pub set_weight : MigrationGate → String → Value → Option MigrationGate
set_weight g skill_name value =
    if is_empty (strip skill_name)
    then none
    else normalize_weight value >>= λ read.
        read >>= λ weight. some (record g { weights = put g.weights (strip skill_name) weight })

abbrev pub weight_or : Option ℕ → Option ℕ → ℕ
weight_or (some inline) stored = inline
weight_or none (some weight) = weight
weight_or none none = 100

-- `get_weight`; `none` is an OverflowError.
unfoldable pub get_weight :
    MigrationGate → ConfigFile → String → Fields → Option (MigrationGate × ℕ)
unfolding refresh_if_changed
get_weight g file skill_name skill_owlclaw =
    (if g.auto_reload then refresh_if_changed g file else some g) >>= λ g'.
    extract_weight skill_owlclaw >>= λ inline.
    some (g', weight_or inline (get g'.weights (strip skill_name)))

-- The decision of `evaluate` at a weight.
unfoldable pub decide_at : (ℕ → Bool) → ℕ → MigrationDecision
decide_at below weight =
    if leb weight 0
    then observe_only
    else if leb 100 weight
    then auto_execute
    else if below weight
    then auto_execute
    else require_approval

-- `evaluate`
unfoldable pub evaluate_action :
    MigrationGate
    → ConfigFile
    → String
    → Fields
    → (ℕ → Bool)
    → Option (MigrationGate × MigrationOutcome)
unfolding get_weight decide_at
evaluate_action g file skill_name skill_owlclaw below =
    get_weight g file skill_name skill_owlclaw >>= λ r.
    some (r.0, record { decision = decide_at below r.1; migration_weight = r.1 })
