-- ===== src/Shuffle.antt =====
-- `shuffle` of src/utils.rs, with the generator of the thread as its state.
use Prim.Native.Nat.{bit_xor}
use native.Mathlib.Nat.{mod-lt, mul-le-mul_right}
use native.Mathlib.Decide.{dec_lt, ℕ_discrete}
use crossbeam_channel.Common.{
  ℕ, zero, suc, ◌+◌, ◌-◌, ◌*◌, ◌/◌, ◌%◌, ◌^◌, ◌≤◌, ◌<◌, ◌≡◌, refl, ◌∙◌, arith, Bool, true, false,
  leb, if◌then◌else◌, List, [], ◌∷◌, Option, none, some, length, get_elem?, set, length-set, subst,
  get_elem?-set_self, get_elem?-set_ne,
}

-- The 32-bit variant of xorshift.
unfoldable pub xorshift : ℕ → ℕ
xorshift x =
    let a = bit_xor x ((x * 2 ^ 13) % 2 ^ 32) % 2 ^ 32 in
    let b = bit_xor a (a / 2 ^ 17) % 2 ^ 32 in bit_xor b ((b * 2 ^ 5) % 2 ^ 32) % 2 ^ 32

-- `((x as u64).wrapping_mul(n as u64) >> 32) as u32 as usize`
unfoldable pub pick : ℕ → ℕ → ℕ
pick x n = (x * n) % 2 ^ 64 / 2 ^ 32 % 2 ^ 32

module _ {A : Type 0} where
  -- None is a panic.
  unfoldable pub swap : ℕ → ℕ → List A → Option (List A)
  swap i j v = elim (get_elem? v i) [
    | none ↦ none
    | some a ↦ elim (get_elem? v j) [ none ↦ none | some b ↦ some (set (set v i b) j a) ]
  ]

  -- The rounds of the loop from `i` on.
  unfoldable pub shuffle_from : ℕ → ℕ → ℕ → List A → Option (List A × ℕ)
  unfolding xorshift pick swap
  shuffle_from zero i rng v = some (v, rng)
  shuffle_from (suc n) i rng v =
      let x = xorshift rng in
      elim (swap i (pick x (i + 1)) v) [ none ↦ none | some v' ↦ shuffle_from n (i + 1) x v' ]

  unfoldable pub shuffle : ℕ → List A → Option (List A × ℕ)
  unfolding shuffle_from
  shuffle rng v = if leb (length v) 1 then some (v, rng) else shuffle_from (length v - 1) 1 rng v

xorshift-lt : (x : ℕ) → xorshift x < 2 ^ 32
unfolding xorshift
xorshift-lt x = mod-lt _ (omega arith)

-- The choice among `n` is one of them.
pick-lt : (x n : ℕ) → x < 2 ^ 32 → 0 < n → pick x n < n
unfolding pick
pick-lt x n h p =
    let le : x * n ≤ 4294967295 * n = mul-le-mul_right n (omega arith) in omega (arith, le)

get_elem?-below :
    {A : Type 0} (v : List A) (i : ℕ) → i < length v → (a : A) × (get_elem? v i ≡ some a)
get_elem?-below [] i h = absurd (omega arith)
get_elem?-below (x ∷ v) zero h = (x, refl)
get_elem?-below (x ∷ v) (suc i) h = get_elem?-below v i (omega arith)

abbrev one_if : Bool → ℕ
one_if true = 1
one_if false = 0

-- How many elements pass a test.
abbrev pub count : {A : Type 0} → (A → Bool) → List A → ℕ
count p [] = 0
count p (x ∷ v) = one_if (p x) + count p v

count-set :
    {A : Type 0} (p : A → Bool) (v : List A) (i : ℕ) (a b : A)
    → get_elem? v i ≡ some a
    → count p (set v i b) + one_if (p a) ≡ count p v + one_if (p b)
count-set p [] i a b e = cc
count-set p (x ∷ v) zero a b e = ground (arith, e)
count-set p (x ∷ v) (suc i) a b e = omega (arith, count-set p v i a b e)

get_elem?-swap :
    {A : Type 0} (v : List A) (i j : ℕ) (b : A)
    → i < length v
    → get_elem? v j ≡ some b
    → get_elem? (set v i b) j ≡ some b
get_elem?-swap v i j b h e = elim (ℕ_discrete i j) [
  | yes same ↦ subst (λ t. get_elem? (set v i b) t ≡ some b) same (get_elem?-set_self v i b h)
  | no n ↦ get_elem?-set_ne v i j b n ∙ e
]

module _ {A : Type 0} (p : A → Bool) where
  swap_lem :
      (i j : ℕ) (v : List A)
      → i < length v
      → j < length v
      → (v' : List A) × (swap i j v ≡ some v') × (length v' ≡ length v) × (count p v' ≡ count p v)
  unfolding swap
  swap_lem i j v hi hj =
      let (a, ea) = get_elem?-below v i hi in
      let (b, eb) = get_elem?-below v j hj in
      let first = count-set p v i a b ea in
      let second = count-set p (set v i b) j b a (get_elem?-swap v i j b hi eb) in
      (
        set (set v i b) j a,
        ground (arith, ea, eb),
        length-set (set v i b) j a ∙ length-set v i b,
        omega (arith, first, second),
      )

  shuffle_from_lem :
      (n i rng : ℕ) (v : List A)
      → i + n ≡ length v
      → (v' : List A) × (rng' : ℕ) × (shuffle_from n i rng v ≡ some (v', rng'))
        × (length v' ≡ length v)
        × (count p v' ≡ count p v)
  unfolding shuffle_from
  shuffle_from_lem zero i rng v e = (v, rng, refl, refl, refl)
  shuffle_from_lem (suc n) i rng v e =
      let j_lt = pick-lt (xorshift rng) (i + 1) (xorshift-lt rng) (omega arith) in
      let (v1, e1, l1, c1) =
        swap_lem i (pick (xorshift rng) (i + 1)) v (omega arith) (omega (arith, j_lt)) in
      let (v2, r, e2, l2, c2) = shuffle_from_lem n (i + 1) (xorshift rng) v1 (omega (arith, l1)) in
      (v2, r, ground (arith, e1, e2), l2 ∙ l1, c2 ∙ c1)

  -- Whatever the state of the generator, `shuffle` does not swap out of bounds, and it returns as many
  -- elements as it was given, as many of which pass any test: it permutes them.
  pub shuffle-count :
      (rng : ℕ) (v : List A)
      → (v' : List A) × (rng' : ℕ) × (shuffle rng v ≡ some (v', rng'))
        × (length v' ≡ length v)
        × (count p v' ≡ count p v)
  unfolding shuffle
  shuffle-count rng v = elim (dec_lt 1 (length v)) [
    | yes many ↦
        let (v', r, e, l, c) = shuffle_from_lem (length v - 1) 1 rng v (omega arith) in
        (v', r, ground (arith, e), l, c)
    | no few ↦ (v, rng, ground arith, refl, refl)
  ]
