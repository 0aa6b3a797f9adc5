-- ===== src/Governance/MigrationGate/Examples.antt =====
-- Runs of owlclaw/governance/migration_gate.py: a configuration file that sets two weights.
use owlclaw.Base.{
  Bool, [], arith, false, refl, some, string_eq, string_pair_eq, strip, true, ℕ, ◌<◌, ◌↔◌, ◌∷◌, ◌≡◌,
  ◌⊎◌,
}
use owlclaw.Base.Dict.{get, put}
use owlclaw.Base.Int.{pos}
use owlclaw.Base.Value.{Fields, dict, end, field, get_field, int}
use owlclaw.Governance.MigrationGate.{
  ConfigFile, MigrationGate, MigrationOutcome, auto_execute, collect_entries, collect_skills,
  decide_at, evaluate_action, extract_weight, get_weight, normalize_weight, observe_only,
  parse_skills, parse_weights, refresh_from_config, refresh_if_changed, require_approval, update,
}
use owlclaw.Governance.MigrationGate.Decisions.{evaluate_action_decides}

abbrev weight_field : ℕ → Fields
weight_field weight = field "migration_weight" (int (pos weight)) end

abbrev config_file : ConfigFile
config_file = record {
  content =
      field "skills"
        (dict (
          field "entries" (dict (field " buy " (dict (weight_field 30)) end))
            (field "sell" (dict (weight_field 101)) end)))
        end;
  mtime = some 5;
}

abbrev gate : MigrationGate
gate = record { weights = ("buy", 10) ∷ []; auto_reload = true; config_mtime = some 4 }

abbrev reloaded : MigrationGate
reloaded = record { weights = ("buy", 30) ∷ []; auto_reload = true; config_mtime = some 5 }

abbrev never : ℕ → Bool
never weight = false

finds_thirty : get_weight gate config_file " buy" end ≡ some (reloaded, 30)
unfolding get_weight refresh_if_changed refresh_from_config parse_weights parse_skills
    collect_entries collect_skills extract_weight normalize_weight get_field update put get strip
finds_thirty = refl

abbrev outcome : MigrationOutcome
outcome = record { decision = require_approval; migration_weight = 30 }

waits : evaluate_action gate config_file " buy" end never ≡ some (reloaded, outcome)
unfolding evaluate_action decide_at
waits = rw finds_thirty refl

evaluate_action_decides_example :
    ((outcome.decision ≡ observe_only) ↔ (outcome.migration_weight ≡ 0))
    × ((outcome.decision ≡ auto_execute)
        ↔ (outcome.migration_weight ≡ 100)
          ⊎ (0 < outcome.migration_weight) × (never outcome.migration_weight ≡ true))
evaluate_action_decides_example =
    evaluate_action_decides gate reloaded config_file " buy" end never outcome (omega arith, tt)
      waits
