-- ===== src/Common/Assign.antt =====
-- Functions on the numbers, changed at one place.
use Prim.Native.Nat.{ℕ}
use mathlib.Core.Path.{◌≡◌}
use mathlib.Core.Logic.{◌≢◌}
use native.Mathlib.Omega.{arith}
use crossbeam_channel.Common.Tests.{◌==◌, if◌then◌else◌}

module _ {ℓ} {B : Type ℓ} where
  unfoldable pub assign : (ℕ → B) → ℕ → B → ℕ → B
  assign f i v j = if j == i then v else f j

  pub assign_self : (f : ℕ → B) (i : ℕ) (v : B) → assign f i v i ≡ v
  unfolding assign
  assign_self f i v = ground arith

  pub assign_ne : (f : ℕ → B) (i j : ℕ) (v : B) → j ≢ i → assign f i v j ≡ f j
  unfolding assign
  assign_ne f i j v h = ground arith
