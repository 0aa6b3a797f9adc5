-- ===== src/Base/Text/Strip.antt =====
-- Trimming a text twice is trimming it once.
use owlclaw.Base.{
  Bool-cases, String, inl, inr, is_empty, is_space, lstrip, refl, rstrip, strip, ◌&&◌, ◌≡◌,
}

rstrip_idem : (s : String) → rstrip (rstrip s) ≡ rstrip s
unfolding rstrip
rstrip_idem String.[] = refl
rstrip_idem (String.◌∷◌ c s) = elim (Bool-cases (is_empty (rstrip s) && is_space c)) [
  | inl gone ↦ rw gone refl
  | inr kept ↦ rw kept (rw (rstrip_idem s, kept) refl)
]

lstrip-rstrip-lstrip : (s : String) → lstrip (rstrip (lstrip s)) ≡ rstrip (lstrip s)
unfolding lstrip rstrip
lstrip-rstrip-lstrip String.[] = refl
lstrip-rstrip-lstrip (String.◌∷◌ c s) = elim (Bool-cases (is_space c)) [
  | inl space ↦ rw space (lstrip-rstrip-lstrip s)
  | inr solid ↦ elim (Bool-cases (is_empty (rstrip s))) [
    | inl e ↦ rw (solid, e) (simp solid)
    | inr e ↦ rw (solid, e) (simp solid)
  ]
]

pub strip_idem : (s : String) → strip (strip s) ≡ strip s
unfolding strip
strip_idem s = rw (lstrip-rstrip-lstrip s, rstrip_idem) refl
