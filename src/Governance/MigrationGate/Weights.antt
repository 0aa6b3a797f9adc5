-- ===== src/Governance/MigrationGate/Weights.antt =====
-- The weights of owlclaw/governance/migration_gate.py stay between 0 and 100, and they decide.
use mathlib.Core.Path.{subst}
use owlclaw.Base.{
  All, Bool, Bool-cases, Option, String, [], ap, arith, false, if◌then◌else◌, inl, inr, is_empty,
  none, refl, some, string_eq, string_pair_eq, strip, true, ℕ, ◌==◌, ◌∙◌, ◌∷◌, ◌≡◌, ◌≤◌,
}
use owlclaw.Base.Dict.{Dict, get, put}
use owlclaw.Base.Int.{negsuc, pos, ℤ}
use owlclaw.Base.Number.{int_of_text, truncate}
use owlclaw.Base.Options.{bind-some, same_value}
use owlclaw.Base.Value.{Fields, Value, dict, end, field, float, get_field, int, str}
use owlclaw.Governance.MigrationGate.{
  ConfigFile, MigrationGate, add_weights, collect_entries, collect_skills, dict_fields,
  extract_weight, get_weight, in_range, in_range_or_none, needs_reload, new_migration_gate,
  normalize_weight, parse_skills, parse_weights, put_weight, refresh_from_config,
  refresh_if_changed, set_weight, update, weight_or,
}

-- Every weight of the dict is at most 100.
abbrev pub IsBounded : Dict String ℕ → Type 0
IsBounded weights = All (λ (e : String × ℕ). e.1 ≤ 100) weights

put-IsBounded :
    (d : Dict String ℕ) (name : String) (weight : ℕ)
    → weight ≤ 100
    → IsBounded d
    → IsBounded (put d name weight)
unfolding put
put-IsBounded [] name weight k h = (k, tt)
put-IsBounded ((n, w) ∷ d) name weight k h = elim (Bool-cases (n == name)) [
  | inl same ↦ rw same (k, h.1)
  | inr differs ↦ rw differs (h.0, put-IsBounded d name weight k h.1)
]

get-le : (d : Dict String ℕ) (name : String) (w : ℕ) → IsBounded d → get d name ≡ some w → w ≤ 100
unfolding get
get-le [] name w h e = absurd (cc)
get-le ((n, v) ∷ d) name w h e = elim (Bool-cases (n == name)) [
  | inl same ↦ subst (λ (n : ℕ). n ≤ 100) (same_value _ _ (rw same at e)) h.0
  | inr differs ↦ get-le d name w h.1 (rw differs at e)
]

in_range-le : (z : ℤ) (w : ℕ) → in_range z ≡ some w → w ≤ 100
in_range-le (pos n) w e = ground (arith, e)
in_range-le (negsuc n) w e = absurd (cc)

normalize_weight-le : (v : Value) (w : ℕ) → normalize_weight v ≡ some (some w) → w ≤ 100
unfolding normalize_weight
normalize_weight-le (int z) w e = in_range-le z w (same_value _ _ e)
normalize_weight-le (float m d) w e = in_range-le (truncate m d) w (same_value _ _ e)
normalize_weight-le (str s) w e = go (int_of_text s) (same_value _ _ e)
  where
    go : (o : Option ℤ) → in_range_or_none o ≡ some w → w ≤ 100
    go none e = absurd (cc)
    go (some z) e = in_range-le z w e
normalize_weight-le _ w e = absurd (cc)

put_weight-IsBounded :
    (d : Dict String ℕ) (name : String) (payload : Fields) (o : Option ℕ)
    → extract_weight payload ≡ some o
    → IsBounded d
    → IsBounded (put_weight d name o)
unfolding extract_weight
put_weight-IsBounded d name payload none e h = h
put_weight-IsBounded d name payload (some w) e h =
    put-IsBounded d (strip name) w (normalize_weight-le _ w e) h

collect_entries-IsBounded :
    (out : Dict String ℕ) (entries : Fields) (d : Dict String ℕ)
    → collect_entries out entries ≡ some d
    → IsBounded out
    → IsBounded d
unfolding collect_entries
collect_entries-IsBounded out end d e h = subst IsBounded (same_value _ _ e) h
collect_entries-IsBounded out (field name payload rest) d e h =
    let (o, found, more) = bind-some (extract_weight (dict_fields payload)) _ d e in
    collect_entries-IsBounded (put_weight out name o) rest d more
      (put_weight-IsBounded out name (dict_fields payload) o found h)

collect_skills-IsBounded :
    (out : Dict String ℕ) (skills : Fields) (d : Dict String ℕ)
    → collect_skills out skills ≡ some d
    → IsBounded out
    → IsBounded d
unfolding collect_skills
collect_skills-IsBounded out end d e h = subst IsBounded (same_value _ _ e) h
collect_skills-IsBounded out (field name (dict payload) rest) d e h =
    elim (Bool-cases (name == "entries")) [
      | inl skipped ↦ collect_skills-IsBounded out rest d (rw skipped at e) h
      | inr kept ↦
          let (o, found, more) = bind-some (extract_weight payload) _ d (rw kept at e) in
          collect_skills-IsBounded (put_weight out name o) rest d more
            (put_weight-IsBounded out name payload o found h)
    ]
collect_skills-IsBounded out (field name _ rest) d e h = collect_skills-IsBounded out rest d e h

parse_skills-IsBounded : (v : Value) (d : Dict String ℕ) → parse_skills v ≡ some d → IsBounded d
unfolding parse_skills
parse_skills-IsBounded (dict skills) d e =
    let (out, entries, more) =
      bind-some (collect_entries [] (dict_fields (get_field skills "entries"))) _ d e in
    collect_skills-IsBounded out skills d more (collect_entries-IsBounded [] _ out entries tt)
parse_skills-IsBounded _ d e = subst IsBounded (same_value _ _ e) tt

update-IsBounded : (d e : Dict String ℕ) → IsBounded d → IsBounded e → IsBounded (update d e)
unfolding update
update-IsBounded d [] h k = h
update-IsBounded d ((name, w) ∷ e) h k =
    update-IsBounded (put d name w) e (put-IsBounded d name w k.0 h) k.1

refresh_from_config-IsBounded :
    (g g' : MigrationGate) (file : ConfigFile)
    → refresh_from_config g file ≡ some g'
    → IsBounded g.weights
    → IsBounded g'.weights
unfolding refresh_from_config parse_weights
refresh_from_config-IsBounded g g' file e h =
    let (loaded, parsed, made) =
      bind-some (parse_skills (get_field file.content "skills")) _ g' e in
    subst (λ (g : MigrationGate). IsBounded g.weights) (same_value _ _ made)
      (update-IsBounded g.weights loaded h (parse_skills-IsBounded _ loaded parsed))

refresh_if_changed-IsBounded :
    (g g' : MigrationGate) (file : ConfigFile)
    → refresh_if_changed g file ≡ some g'
    → IsBounded g.weights
    → IsBounded g'.weights
unfolding refresh_if_changed
refresh_if_changed-IsBounded g g' file e h =
    elim (Bool-cases (needs_reload g.config_mtime file.mtime)) [
      | inl changed ↦ refresh_from_config-IsBounded g g' file (rw changed at e) h
      | inr same ↦
          subst (λ (g : MigrationGate). IsBounded g.weights) (same_value _ _ (rw same at e)) h
    ]

-- The gate that `get_weight` goes on with.
reloaded-IsBounded :
    (g g' : MigrationGate) (file : ConfigFile) (reloads : Bool)
    → (if reloads then refresh_if_changed g file else some g) ≡ some g'
    → IsBounded g.weights
    → IsBounded g'.weights
reloaded-IsBounded g g' file true e h = refresh_if_changed-IsBounded g g' file e h
reloaded-IsBounded g g' file false e h =
    subst (λ (g : MigrationGate). IsBounded g.weights) (same_value _ _ e) h

weight_or-le :
    (d : Dict String ℕ) (name : String) (skill : Fields) (inline : Option ℕ)
    → IsBounded d
    → extract_weight skill ≡ some inline
    → weight_or inline (get d name) ≤ 100
unfolding extract_weight
weight_or-le d name skill (some w) h e = normalize_weight-le _ w e
weight_or-le d name skill none h e = go (get d name) refl
  where
    go : (o : Option ℕ) → get d name ≡ o → weight_or none o ≤ 100
    go none e = omega arith
    go (some w) e = get-le d name w h e

-- Whatever the configuration file and the skill hold, and whether or not the file is read again, a
-- weight that is found is at most 100, and the weights that are kept stay at most 100.
pub get_weight-IsBounded :
    (g g' : MigrationGate) (file : ConfigFile) (skill_name : String) (skill_owlclaw : Fields)
    (weight : ℕ)
    → IsBounded g.weights
    → get_weight g file skill_name skill_owlclaw ≡ some (g', weight)
    → IsBounded g'.weights × (weight ≤ 100)
unfolding get_weight
get_weight-IsBounded g g' file skill_name skill_owlclaw weight h e =
    let (g'', loaded, rest) =
      bind-some (if g.auto_reload then refresh_if_changed g file else some g) _ (g', weight) e in
    let (inline, found, made) = bind-some (extract_weight skill_owlclaw) _ (g', weight) rest in
    let bounded = reloaded-IsBounded g g'' file g.auto_reload loaded h in
    subst (λ (r : MigrationGate × ℕ). IsBounded r.0.weights × (r.1 ≤ 100)) (same_value _ _ made)
      (bounded, weight_or-le g''.weights (strip skill_name) skill_owlclaw inline bounded found)

add_weights-IsBounded :
    (out : Dict String ℕ) (given : Dict String Value) (d : Dict String ℕ)
    → add_weights out given ≡ some d
    → IsBounded out
    → IsBounded d
unfolding add_weights
add_weights-IsBounded out [] d e h = subst IsBounded (same_value _ _ e) h
add_weights-IsBounded out ((name, value) ∷ rest) d e h =
    let (read, known, more) = bind-some (normalize_weight value) _ d e in
    let (weight, valid, last) = bind-some read _ d more in
    add_weights-IsBounded (put out (strip name) weight) rest d last (
      put-IsBounded out (strip name) weight
        (normalize_weight-le value weight (known ∙ ap some valid)) h)

-- A gate that is built keeps only weights of at most 100.
pub new_migration_gate-IsBounded :
    (given : Dict String Value) (auto_reload : Bool) (file : ConfigFile) (g : MigrationGate)
    → new_migration_gate given auto_reload file ≡ some g
    → IsBounded g.weights
unfolding new_migration_gate
new_migration_gate-IsBounded given auto_reload file g e =
    let (weights, added, made) = bind-some (add_weights [] given) _ g e in
    refresh_from_config-IsBounded _ g file made (add_weights-IsBounded [] given weights added tt)

-- A weight that is set leaves only weights of at most 100.
pub set_weight-IsBounded :
    (g g' : MigrationGate) (skill_name : String) (value : Value)
    → IsBounded g.weights
    → set_weight g skill_name value ≡ some g'
    → IsBounded g'.weights
unfolding set_weight
set_weight-IsBounded g g' skill_name value h e = elim (Bool-cases (is_empty (strip skill_name))) [
  | inl blank ↦ absurd (cc (rw blank at e))
  | inr named ↦
      let (read, known, more) = bind-some (normalize_weight value) _ g' (rw named at e) in
      let (weight, valid, made) = bind-some read _ g' more in
      subst (λ (g : MigrationGate). IsBounded g.weights) (same_value _ _ made)
        (put-IsBounded g.weights (strip skill_name) weight
          (normalize_weight-le value weight (known ∙ ap some valid)) h)
]
