-- ===== src/Base/Bits.antt =====
-- Bit tests on unsigned words, in the form that the arithmetic tactics read at a numeral index. `w & (1 << k)` as a condition is `has_bit w k`.
use Prim.Native.Nat.{ℕ, ◌/◌, ◌%◌, ◌^◌}
use mathlib.Core.Bool.{Bool}
use wlc.Base.Tests.{◌==◌}

abbrev pub has_bit : ℕ → ℕ → Bool
has_bit w k = w / 2 ^ k % 2 == 1
