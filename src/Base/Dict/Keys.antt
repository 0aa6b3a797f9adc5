-- ===== src/Base/Dict/Keys.antt =====
-- Dicts hold one entry for each key; what deleting a list of keys leaves.
use mathlib.Core.Path.{◌≡◌, refl}
use mathlib.Core.Bool.{Bool, false, ◌||◌}
use mathlib.Core.Option.{Option, none, some}
use mathlib.Core.List.{List, [], ◌∷◌}
use native.Mathlib.Omega.{arith}
use owlclaw.Base.{Bool-cases, Eq, if◌then◌else◌, inl, inr, string_eq, string_pair_eq}
use owlclaw.Base.Dict.{Dict, get, get-put, get-remove, put, remove}

abbrev pub holds {ℓ} : {V : Type ℓ} → (V → Bool) → Option V → Bool
holds p none = false
holds p (some v) = p v

unfoldable pub contains {ℓ} : {K : Type ℓ} ⦃e : Eq K⦄ → List K → K → Bool
contains ⦃e⦄ [] k = false
contains ⦃e⦄ (j ∷ js) k = e.beq j k || contains js k

module _ {ℓ κ} {K : Type ℓ} {V : Type κ} ⦃e : Eq K⦄ where
  abbrev pub IsUnique : Dict K V → Type κ
  IsUnique [] = Unit
  IsUnique ((k, v) ∷ d) = (get d k ≡ none) × IsUnique d

  -- `[k for k, v in d.items() if p(v)]`
  unfoldable pub keys_if : (V → Bool) → Dict K V → List K
  keys_if p [] = []
  keys_if p ((k, v) ∷ d) = let rest = keys_if p d in if p v then k ∷ rest else rest

  -- `for k in ks: d.pop(k, None)`
  unfoldable pub remove_all : Dict K V → List K → Dict K V
  remove_all d [] = d
  remove_all d (k ∷ ks) = remove_all (remove d k) ks

  pub put-IsUnique : (d : Dict K V) (k : K) (v : V) → IsUnique d → IsUnique (put d k v)
  unfolding put get
  put-IsUnique [] k v h = (refl, tt)
  put-IsUnique ((j, w) ∷ d) k v h = elim (Bool-cases (e.beq j k)) [
    | inl same ↦ rw same h
    | inr other ↦
        rw other (
          ground (arith, get-put d k j v, e.beq_iff j k, e.beq_iff k j, h.0),
          put-IsUnique d k v h.1,
        )
  ]

  pub remove-IsUnique : (d : Dict K V) (k : K) → IsUnique d → IsUnique (remove d k)
  unfolding remove get
  remove-IsUnique [] k h = tt
  remove-IsUnique ((j, w) ∷ d) k h = elim (Bool-cases (e.beq j k)) [
    | inl same ↦ rw same (remove-IsUnique d k h.1)
    | inr other ↦ rw other (ground (arith, get-remove d k j, h.0), remove-IsUnique d k h.1)
  ]

  pub remove_all-IsUnique : (d : Dict K V) (ks : List K) → IsUnique d → IsUnique (remove_all d ks)
  unfolding remove_all
  remove_all-IsUnique d [] h = h
  remove_all-IsUnique d (k ∷ ks) h = remove_all-IsUnique (remove d k) ks (remove-IsUnique d k h)

  pub get-remove_all :
      (d : Dict K V) (ks : List K) (j : K)
      → get (remove_all d ks) j ≡ (if contains ks j then none else get d j)
  unfolding remove_all contains
  get-remove_all d [] j = refl
  get-remove_all d (k ∷ ks) j = ground (arith, get-remove_all (remove d k) ks j, get-remove d k j)

  pub contains-keys_if :
      (p : V → Bool) (d : Dict K V) (j : K)
      → IsUnique d
      → contains (keys_if p d) j ≡ holds p (get d j)
  unfolding contains keys_if get
  contains-keys_if p [] j h = refl
  contains-keys_if p ((k, v) ∷ d) j h = ground (arith, contains-keys_if p d j h.1, e.beq_iff k j)
