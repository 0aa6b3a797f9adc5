-- ===== src/Base/Number/Digits.antt =====
-- The digits of a number never run out of fuel.
use owlclaw.Base.{Bool-cases, arith, false, inl, inr, ltb, refl, suc, zero, ℕ, ◌/◌, ◌<◌, ◌≡◌}
use owlclaw.Base.Number.{decimal}

-- Any two amounts of fuel above the number give the same digits.
pub decimal_fuel : (m k n : ℕ) → n < m → n < k → decimal m n ≡ decimal k n
unfolding decimal
decimal_fuel zero k n h h' = absurd (omega arith)
decimal_fuel (suc m) zero n h h' = absurd (omega arith)
decimal_fuel (suc m) (suc k) n h h' = elim (Bool-cases (ltb n 10)) [
  | inl short ↦ rw short refl
  | inr long ↦ rw (long, decimal_fuel m k (n / 10) (smaller n m long h) (smaller n k long h')) refl
]
  where
    smaller : (n m : ℕ) → ltb n 10 ≡ false → n < suc m → n / 10 < m
    smaller n m e l = ground arith
