-- ===== src/Base/Signed.antt =====
-- Signed integers over the native numbers, for Go's `time.Duration`: an instant is a number of
-- nanoseconds since Go's zero time, and a duration may be negative.
use Prim.Native.Nat.{ℕ, suc, ◌+◌, ◌-◌}
use mathlib.Core.Bool.{Bool, false}
use clusterrouter.Base.Tests.{leb, if◌then◌else◌}

-- `negsuc n` is -(n + 1).
pub data ℤ : Type 0 where
  pos : ℕ → ℤ
  negsuc : ℕ → ℤ

-- a - b, as an integer.
abbrev pub sub_ℕ : ℕ → ℕ → ℤ
sub_ℕ a b = if leb b a then pos (a - b) else negsuc (b - a - 1)

-- An instant moved by a duration. Go's times before its zero time are outside the model.
abbrev pub shift : ℕ → ℤ → ℕ
shift t (pos d) = t + d
shift t (negsuc d) = t - suc d

-- Whether a duration is above zero.
abbrev pub is_positive : ℤ → Bool
is_positive (pos d) = leb 1 d
is_positive (negsuc d) = false
