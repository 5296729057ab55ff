-- ===== src/Prelude/Words.antt =====
-- Machine words of the platform: `int` of 32 bits, `unsigned long` of 64 bits.
use Prim.Native.Nat.{ℕ, ◌-◌, ◌%◌, ◌<◌}
use mathlib.Core.Path.{◌≡◌}
use native.Mathlib.Omega.{arith}
use dictd.Prelude.Tests.{ltb, if◌then◌else◌}
use dictd.Prelude.Int.{ℤ, pos, negsuc}

abbrev pub int_max : ℕ
int_max = 0x7fff_ffff

abbrev pub u32_mod : ℕ
u32_mod = 0x1_0000_0000

abbrev pub ulong_mod : ℕ
ulong_mod = 0x1_0000_0000_0000_0000

-- `(int) x` of an unsigned value.
unfoldable pub to_int : ℕ → ℤ
to_int x = let low = x % u32_mod in if ltb int_max low then negsuc (u32_mod - 1 - low) else pos low

pub to_int_small : (x : ℕ) → x < 0x8000_0000 → to_int x ≡ pos x
unfolding to_int
to_int_small x h = ground arith
