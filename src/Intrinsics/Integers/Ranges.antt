-- ===== src/Intrinsics/Integers/Ranges.antt =====
-- The values of the integer types of include/noam/intrinsics.hpp, and which of them
-- `std::from_chars` reads.
use noam.Base.{
  ℕ, zero, suc, ◌-◌, ◌^◌, ◌<◌, ◌≡◌, ◌↔◌, Bool, true, false, ◌&&◌, leb, Bool-cases, inl, inr, arith,
}
use noam.Base.Int.{ℤ, pos, negsuc}
use noam.Intrinsics.Integers.{IntegerType, greatest, least}

-- The values of a type of `bits` bits: in two's complement, those whose sign is that of the highest
-- bit; without a sign, those that the bits count.
abbrev pub HasBits : Bool → ℕ → ℤ → Type 0
HasBits true bits (pos n) = n < 2 ^ (bits - 1)
HasBits true bits (negsuc n) = n < 2 ^ (bits - 1)
HasBits false bits (pos n) = n < 2 ^ bits
HasBits false bits (negsuc n) = ⊥

abbrev pub InRange : IntegerType → ℤ → Type 0
InRange t v = HasBits t.signed t.bits v

-- The test that `std::from_chars` makes of a value.
abbrev pub reads_value : IntegerType → ℤ → Bool
reads_value t (pos n) = leb n (greatest t)
reads_value t (negsuc n) = t.signed && leb (suc n) (least t)

pow-pos : (k : ℕ) → 0 < 2 ^ k
pow-pos zero = omega arith
pow-pos (suc k) = omega (arith, pow-pos k)

pub reads_value_iff : (t : IntegerType) (v : ℤ) → (reads_value t v ≡ true) ↔ InRange t v
reads_value_iff t (pos n) = elim (Bool-cases t.signed) [
  | inl s ↦ rw s ((λ h. ground (arith, h, pow-pos (t.bits - 1))), λ h. ground (arith, h))
  | inr s ↦ rw s ((λ h. ground (arith, h, pow-pos t.bits)), λ h. ground (arith, h))
]
reads_value_iff t (negsuc n) = elim (Bool-cases t.signed) [
  | inl s ↦ rw s ((λ h. ground (arith, h)), λ h. ground (arith, h))
  | inr s ↦ rw s ((λ h. cc), λ h. elim h [ ])
]
