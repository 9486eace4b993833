-- ===== src/Prelude/Int.antt =====
-- Signed integers over the native numbers. `negsuc n` is -(n + 1).
use Prim.Native.Nat.{ℕ, ◌-◌, ◌<◌}
use mathlib.Core.Path.{◌≡◌}
use mathlib.Core.Logic.{◌↔◌}
use mathlib.Core.Bool.{Bool, true, false}
use native.Mathlib.Omega.{arith}
use security_scan.Prelude.Tests.{leb, if◌then◌else◌}

pub data ℤ : Type 0 where
  pos : ℕ → ℤ
  negsuc : ℕ → ℤ

-- a - b, as an integer.
abbrev pub sub_ℕ : ℕ → ℕ → ℤ
sub_ℕ a b = if leb b a then pos (a - b) else negsuc (b - a - 1)

-- 0 < a
abbrev pub is_pos : ℤ → Bool
is_pos (pos n) = if leb 1 n then true else false
is_pos (negsuc n) = false

-- The test of a number as a condition: only 0 is false.
abbrev pub is_nonzero : ℤ → Bool
is_nonzero (pos n) = if leb 1 n then true else false
is_nonzero (negsuc n) = true

pub is_pos-sub_ℕ : (a b : ℕ) → (is_pos (sub_ℕ a b) ≡ true) ↔ (b < a)
is_pos-sub_ℕ a b = ground arith
