-- ===== src/Common/Tests.antt =====
-- Boolean tests on the native numbers and the conditional.
use Prim.Native.Nat.{ℕ, ◌≤◌, ◌<◌, compare, Ordering}
use mathlib.Core.Path.{◌≡◌, refl}
use mathlib.Core.Logic.{◌≢◌, ◌⊎◌, inl, inr}
use mathlib.Core.Bool.{Bool, true, false}
use mathlib.Core.Option.{Option, none, some}
use native.Mathlib.Omega.{arith}

abbrev pub ltb : ℕ → ℕ → Bool
ltb a b = elim (compare a b) [ Ordering.lt ↦ true | _ ↦ false ]

abbrev pub leb : ℕ → ℕ → Bool
leb a b = elim (compare a b) [ Ordering.gt ↦ false | _ ↦ true ]

infix 50 ◌==◌
abbrev pub ◌==◌ : ℕ → ℕ → Bool
a == b = elim (compare a b) [ Ordering.eq ↦ true | _ ↦ false ]

infix 1 if◌then◌else◌
abbrev pub if◌then◌else◌ {ℓ} : {A : Type ℓ} → Bool → A → A → A
if true then x else y = x
if false then x else y = y

pub Bool-cases : (b : Bool) → (b ≡ true) ⊎ (b ≡ false)
Bool-cases true = inl refl
Bool-cases false = inr refl

pub Option-cases {ℓ} : {A : Type ℓ} (o : Option A) → (o ≡ none) ⊎ ((a : A) × (o ≡ some a))
Option-cases none = inl refl
Option-cases (some a) = inr (a, refl)

pub ltb_of_lt : {a b : ℕ} → a < b → ltb a b ≡ true
ltb_of_lt h = ground arith

pub ltb_of_le : {a b : ℕ} → b ≤ a → ltb a b ≡ false
ltb_of_le h = ground arith

pub eqb_self : (a : ℕ) → (a == a) ≡ true
eqb_self a = ground arith

pub eqb_of_eq : {a b : ℕ} → a ≡ b → (a == b) ≡ true
eqb_of_eq h = ground arith

pub eqb_of_ne : {a b : ℕ} → a ≢ b → (a == b) ≡ false
eqb_of_ne h = ground arith

pub eq_of_eqb : {a b : ℕ} → (a == b) ≡ true → a ≡ b
eq_of_eqb h = ground arith
