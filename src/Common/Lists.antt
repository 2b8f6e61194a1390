-- ===== src/Common/Lists.antt =====
-- Lists with native indices: lengths, reads, writes, sublists.
use Prim.Native.Nat.{ℕ, zero, suc, ◌+◌, ◌<◌}
use mathlib.Core.Path.{◌≡◌, refl, ap}
use mathlib.Core.Logic.{◌≢◌}
use mathlib.Core.List.{List, [], ◌∷◌, ◌++◌}
use mathlib.Core.Option.{Option, none, some}
use native.Mathlib.Omega.{arith}

module _ {ℓ} {A : Type ℓ} where
  abbrev pub length : List A → ℕ
  length [] = 0
  length (x ∷ xs) = suc (length xs)

  abbrev pub get_elem? : List A → ℕ → Option A
  get_elem? [] i = none
  get_elem? (x ∷ xs) zero = some x
  get_elem? (x ∷ xs) (suc i) = get_elem? xs i

  -- A write out of bounds changes nothing.
  abbrev pub set : List A → ℕ → A → List A
  set [] i v = []
  set (x ∷ xs) zero v = v ∷ xs
  set (x ∷ xs) (suc i) v = x ∷ set xs i v

  -- The list without the element at an index.
  abbrev pub remove_at : List A → ℕ → List A
  remove_at [] i = []
  remove_at (x ∷ xs) zero = xs
  remove_at (x ∷ xs) (suc i) = x ∷ remove_at xs i

  pub length-append : (xs ys : List A) → length (xs ++ ys) ≡ length xs + length ys
  length-append [] ys = omega arith
  length-append (x ∷ xs) ys = omega (arith, length-append xs ys)

  pub length-set : (xs : List A) (i : ℕ) (v : A) → length (set xs i v) ≡ length xs
  length-set [] i v = refl
  length-set (x ∷ xs) zero v = refl
  length-set (x ∷ xs) (suc i) v = ap suc (length-set xs i v)

  pub get_elem?-set_self :
      (xs : List A) (i : ℕ) (v : A) → i < length xs → get_elem? (set xs i v) i ≡ some v
  get_elem?-set_self [] i v h = absurd (omega arith)
  get_elem?-set_self (x ∷ xs) zero v h = refl
  get_elem?-set_self (x ∷ xs) (suc i) v h = get_elem?-set_self xs i v (omega arith)

  pub get_elem?-set_ne :
      (xs : List A) (i j : ℕ) (v : A) → i ≢ j → get_elem? (set xs i v) j ≡ get_elem? xs j
  get_elem?-set_ne [] i j v h = refl
  get_elem?-set_ne (x ∷ xs) zero zero v h = absurd (h refl)
  get_elem?-set_ne (x ∷ xs) zero (suc j) v h = refl
  get_elem?-set_ne (x ∷ xs) (suc i) zero v h = refl
  get_elem?-set_ne (x ∷ xs) (suc i) (suc j) v h = get_elem?-set_ne xs i j v (λ e. h (ap suc e))

  pub get_elem?-append_left :
      (xs ys : List A) (i : ℕ) → i < length xs → get_elem? (xs ++ ys) i ≡ get_elem? xs i
  get_elem?-append_left [] ys i h = absurd (omega arith)
  get_elem?-append_left (x ∷ xs) ys zero h = refl
  get_elem?-append_left (x ∷ xs) ys (suc i) h = get_elem?-append_left xs ys i (omega arith)

  pub get_elem?-append_length :
      (xs : List A) (x : A) → get_elem? (xs ++ (x ∷ [])) (length xs) ≡ some x
  get_elem?-append_length [] x = refl
  get_elem?-append_length (y ∷ xs) x = get_elem?-append_length xs x

  pub lt-length_of_get_elem? :
      (xs : List A) (i : ℕ) (x : A) → get_elem? xs i ≡ some x → i < length xs
  lt-length_of_get_elem? [] i x h = cc
  lt-length_of_get_elem? (y ∷ xs) zero x h = omega arith
  lt-length_of_get_elem? (y ∷ xs) (suc i) x h = omega (arith, lt-length_of_get_elem? xs i x h)

  pub get_elem?_of_lt : (xs : List A) (i : ℕ) → i < length xs → (x : A) × (get_elem? xs i ≡ some x)
  get_elem?_of_lt [] i h = absurd (omega arith)
  get_elem?_of_lt (x ∷ xs) zero h = (x, refl)
  get_elem?_of_lt (x ∷ xs) (suc i) h = get_elem?_of_lt xs i (omega arith)

-- The same element `n` times.
abbrev pub repeat {ℓ} : {A : Type ℓ} → A → ℕ → List A
repeat a zero = []
repeat a (suc n) = a ∷ repeat a n
