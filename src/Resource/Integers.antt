-- ===== src/Resource/Integers.antt =====
-- Quantities that are integers, which shows that the laws of Resource.antt can hold.
use clusterrouter.Base.{
  suc, ◌+◌, ◌≡◌, ◌↔◌, refl, ap, Bool, true, false, ℤ, pos, negsuc, sub_ℕ, is_positive, arith, ◌==◌,
}
use clusterrouter.Resource.{Quantities}

abbrev pub plus_ℤ : ℤ → ℤ → ℤ
plus_ℤ (pos a) (pos b) = pos (a + b)
plus_ℤ (pos a) (negsuc b) = sub_ℕ a (suc b)
plus_ℤ (negsuc a) (pos b) = sub_ℕ b (suc a)
plus_ℤ (negsuc a) (negsuc b) = negsuc (a + b + 1)

abbrev pub negate : ℤ → ℤ
negate (pos a) = sub_ℕ 0 a
negate (negsuc a) = pos (suc a)

abbrev pub is_zero_ℤ : ℤ → Bool
is_zero_ℤ (pos a) = a == 0
is_zero_ℤ (negsuc a) = false

abbrev pub equal_ℤ : ℤ → ℤ → Bool
equal_ℤ (pos a) (pos b) = a == b
equal_ℤ (negsuc a) (negsuc b) = a == b
equal_ℤ _ _ = false

pub plus_comm : (a b : ℤ) → plus_ℤ a b ≡ plus_ℤ b a
plus_comm (pos a) (pos b) = ap pos (omega arith)
plus_comm (pos a) (negsuc b) = refl
plus_comm (negsuc a) (pos b) = refl
plus_comm (negsuc a) (negsuc b) = ap negsuc (omega arith)

pub plus_zero : (a : ℤ) → plus_ℤ a (pos 0) ≡ a
plus_zero (pos a) = ap pos (omega arith)
plus_zero (negsuc a) = ground arith

pub minus_plus : (a b : ℤ) → plus_ℤ (plus_ℤ a b) (negate b) ≡ a
minus_plus (pos a) (pos b) = ground arith
minus_plus (pos a) (negsuc b) = ground arith
minus_plus (negsuc a) (pos b) = ground arith
minus_plus (negsuc a) (negsuc b) = ground arith

pub zero_iff : (a : ℤ) → (is_zero_ℤ a ≡ true) ↔ (a ≡ pos 0)
zero_iff (pos a) = (λ h. ground arith, λ h. ground arith)
zero_iff (negsuc a) = (λ h. ground arith, λ h. ground arith)

pub equality_iff : (a b : ℤ) → (equal_ℤ a b ≡ true) ↔ (a ≡ b)
equality_iff (pos a) (pos b) = (λ h. ground arith, λ h. ground arith)
equality_iff (pos a) (negsuc b) = (λ h. ground arith, λ h. ground arith)
equality_iff (negsuc a) (pos b) = (λ h. ground arith, λ h. ground arith)
equality_iff (negsuc a) (negsuc b) = (λ h. ground arith, λ h. ground arith)

abbrev pub integers : Quantities
integers = record {
  Quantity = ℤ;
  zero_quantity = pos 0;
  add = plus_ℤ;
  sub = λ a b. plus_ℤ a (negate b);
  is_zero = is_zero_ℤ;
  equal = equal_ℤ;
  exceeds = λ a b. is_positive (plus_ℤ a (negate b));
  add_comm = plus_comm;
  add_zero = plus_zero;
  sub_zero = plus_zero;
  sub-add = minus_plus;
  is_zero_iff = zero_iff;
  equal_iff = equality_iff;
}

pub plus_minus : (a b : ℤ) → plus_ℤ (plus_ℤ a (negate b)) b ≡ a
plus_minus (pos a) (pos b) = ground arith
plus_minus (pos a) (negsuc b) = ground arith
plus_minus (negsuc a) (pos b) = ground arith
plus_minus (negsuc a) (negsuc b) = ground arith
