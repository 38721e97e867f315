-- ===== src/Base/Store.antt =====
-- The memory words that the kernel reaches through pointers.
use Prim.Native.Nat.{ℕ, ◌^◌, ◌%◌, ◌+◌, ◌-◌}
use mathlib.Core.Path.{◌≡◌}
use mathlib.Core.Logic.{◌≢◌}
use native.Mathlib.Omega.{arith}
use riscy_os.Base.Tests.{◌==◌, if◌then◌else◌}

-- Word-addressed reads: the 32-bit word at each (aligned) address.
abbrev pub Mem : Type 0
Mem = ℕ → ℕ

unfoldable pub write : Mem → ℕ → ℕ → Mem
write m a v x = if x == a then v else m x

pub write_self : (m : Mem) (a v : ℕ) → write m a v a ≡ v
unfolding write
write_self m a v = ground arith

pub write_ne : (m : Mem) (a v x : ℕ) → x ≢ a → write m a v x ≡ m x
unfolding write
write_ne m a v x h = ground arith

abbrev pub u32_mod : ℕ
u32_mod = 2 ^ 32

-- uint32_t addition and subtraction.
abbrev pub add32 : ℕ → ℕ → ℕ
add32 a b = (a + b) % u32_mod

abbrev pub sub32 : ℕ → ℕ → ℕ
sub32 a b = (a + u32_mod - b) % u32_mod
