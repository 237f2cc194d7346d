-- ===== src/Prelude/Int.antt =====
-- Signed integers over the native numbers, and the value of a 32-bit pattern.
use Prim.Native.Nat.{ℕ, ◌-◌, ◌^◌}
use unix_thread_ipc.Prelude.Tests.{ltb, if◌then◌else◌}

-- `negsuc n` is -(n + 1).
pub data ℤ : Type 0 where
  pos : ℕ → ℤ
  negsuc : ℕ → ℤ

-- The `int` with a given bit pattern (two's complement).
abbrev pub int32 : ℕ → ℤ
int32 w = if ltb w (2 ^ 31) then pos w else negsuc (2 ^ 32 - 1 - w)
