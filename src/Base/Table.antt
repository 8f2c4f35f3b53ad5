-- ===== src/Base/Table.antt =====
-- A claim about every value below a bound, checked by evaluation.
use native.Mathlib.Omega.{arith}
use mathlib.Core.Bool.{Bool, true, false}
use mathlib.Core.Path.{◌≡◌}
use blocxxi.Base.Tests.{if◌then◌else◌}
use Prim.Native.Nat.{ℕ, zero, suc, ◌<◌}

-- The test passes at every number below the bound.
unfoldable pub passes_below : (ℕ → Bool) → ℕ → Bool
passes_below test zero = true
passes_below test (suc bound) =
    let others = passes_below test bound in if test bound then others else false

pub passes_below-at :
    (test : ℕ → Bool) (bound byte : ℕ)
    → byte < bound
    → passes_below test bound ≡ true
    → test byte ≡ true
unfolding passes_below
passes_below-at test zero byte below passed = absurd (omega arith)
passes_below-at test (suc bound) byte below passed = ground (arith, passes_below-at test bound byte)
