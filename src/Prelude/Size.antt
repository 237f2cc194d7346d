-- ===== src/Prelude/Size.antt =====
-- `size_t` arithmetic, which wraps at 2^64.
use Prim.Native.Nat.{ℕ, ◌+◌, ◌-◌, ◌%◌, ◌^◌, ◌<◌}
use mathlib.Core.Path.{◌≡◌}
use native.Mathlib.Decide.{dec_lt}
use native.Mathlib.Nat.{mod-eq_of_lt, mod-eq-sub-mod}
use native.Mathlib.Omega.{arith}
use unix_thread_ipc.Prelude.Tests.{ltb, if◌then◌else◌}

abbrev pub add_size : ℕ → ℕ → ℕ
add_size a b = (a + b) % 2 ^ 64

-- `-` on ℕ stops at 0, so the modulus is added first.
abbrev pub sub_size : ℕ → ℕ → ℕ
sub_size a b = (a + 2 ^ 64 - b) % 2 ^ 64

-- `a % n` for an `a` below `2 * n`.
pub mod_once : (a n : ℕ) → a < n + n → a % n ≡ (if ltb a n then a else a - n)
mod_once a n h = elim (dec_lt a n) [
  | yes p ↦ ground (arith, mod-eq_of_lt p)
  | no p ↦ ground (
    arith,
    mod-eq-sub-mod {n = a} {m = n} (omega arith),
    mod-eq_of_lt {n = a - n} {m = n} (omega arith),
  )
]
