-- ===== src/Base/Tables.antt =====
-- Over a small range a fact is checked by evaluation, value by value.
use Prim.Native.Nat.{ℕ, zero, suc, ◌<◌}
use mathlib.Core.Bool.{Bool, true, false}
use mathlib.Core.Path.{◌≡◌}
use native.Mathlib.Decide.{ℕ_discrete}
use native.Mathlib.Omega.{arith}
use linda.Base.Tests.{if◌then◌else◌}

-- Whether a test holds of each of the first `bound` numbers.
unfoldable pub tabulate : (ℕ → Bool) → ℕ → Bool
tabulate test zero = true
tabulate test (suc bound) = let below = tabulate test bound in if test bound then below else false

if-both : (b c : Bool) → (if b then c else false) ≡ true → (b ≡ true) × (c ≡ true)
if-both b c h = (ground arith, ground arith)

pub tabulate-at :
    (test : ℕ → Bool) {bound : ℕ} (value : ℕ)
    → value < bound
    → tabulate test bound ≡ true
    → test value ≡ true
unfolding tabulate
tabulate-at test {bound = zero} value lt t = absurd (omega arith)
tabulate-at test {bound = suc bound} value lt t =
    let (last, below) = if-both (test bound) (tabulate test bound) t in
    elim (ℕ_discrete value bound) [
      | yes e ↦ rw e last
      | no d ↦ tabulate-at test {bound = bound} value (omega arith) below
    ]
