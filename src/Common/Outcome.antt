-- ===== src/Common/Outcome.antt =====
-- Rust's `Result`, and the rounds of a loop around a weak compare-and-exchange.
use mathlib.Core.Bool.{Bool, true, false}
use mathlib.Core.List.{List, [], ◌∷◌}

pub data Result {ℓ κ} (A : Type ℓ) (E : Type κ) : Type (ℓ ⊔ κ) where
  ok : A → Result A E
  err : E → Result A E

abbrev pub map_err {ℓ κ μ} :
    {A : Type ℓ} {E : Type κ} {F : Type μ} → (E → F) → Result A E → Result A F
map_err f (ok a) = ok a
map_err f (err e) = err (f e)

-- In some round the weak compare-and-exchange does not fail for no reason.
abbrev pub Succeeds : List Bool → Type 0
Succeeds [] = ⊥
Succeeds (true ∷ rounds) = Succeeds rounds
Succeeds (false ∷ rounds) = Unit {0}
