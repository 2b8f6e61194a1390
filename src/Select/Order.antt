-- ===== src/Select/Order.antt =====
-- The handles that `run_select` (src/select.rs) has shuffled are those that it was given.
use crossbeam_channel.Common.{
  ℕ, zero, suc, ◌+◌, ◌-◌, ◌≡◌, ◌⊎◌, inl, inr, sym, ◌∙◌, ap, arith, List, [], ◌∷◌, some, length,
  get_elem?, set, leb, Option-cases, Bool-cases,
}
use crossbeam_channel.Shuffle.{xorshift, pick, swap, shuffle_from, shuffle}

module _ {A : Type 0} where
  -- The element stands somewhere in the list.
  abbrev pub In : A → List A → Type 0
  In x v = (n : ℕ) × (get_elem? v n ≡ some x)

  set-cases :
      (v : List A) (i n : ℕ) (b x : A)
      → get_elem? (set v i b) n ≡ some x
      → (b ≡ x) ⊎ (get_elem? v n ≡ some x)
  set-cases [] i n b x e = inr e
  set-cases (y ∷ v) zero zero b x e = inl (ground arith)
  set-cases (y ∷ v) zero (suc n) b x e = inr e
  set-cases (y ∷ v) (suc i) zero b x e = inr e
  set-cases (y ∷ v) (suc i) (suc n) b x e = set-cases v i n b x e

  swap-In : (i j : ℕ) (v v' : List A) (x : A) → swap i j v ≡ some v' → In x v' → In x v
  unfolding swap
  swap-In i j v v' x e (n, m) = elim (Option-cases (get_elem? v i)) [
    | inl f ↦ absurd (ground arith)
    | inr (a, f) ↦ elim (Option-cases (get_elem? v j)) [
      | inl g ↦ absurd (ground arith)
      | inr (b, g) ↦
          let same : v' ≡ set (set v i b) j a = ground arith in
          let m' : get_elem? (set (set v i b) j a) n ≡ some x =
            ap (λ u. get_elem? u n) (sym same) ∙ m in
          elim (set-cases (set v i b) j n a x m') [
            | inl q ↦ (i, f ∙ ap some q)
            | inr h ↦ elim (set-cases v i n b x h) [ inl q ↦ (j, g ∙ ap some q) | inr h' ↦ (n, h') ]
          ]
    ]
  ]

  shuffle_from-In :
      (n i rng : ℕ) (v v' : List A) (rng' : ℕ) (x : A)
      → shuffle_from n i rng v ≡ some (v', rng')
      → In x v'
      → In x v
  unfolding shuffle_from
  shuffle_from-In zero i rng v v' rng' x e m =
      let same : v ≡ v' = ground arith in (m.0, ap (λ u. get_elem? u m.0) same ∙ m.1)
  shuffle_from-In (suc n) i rng v v' rng' x e m =
      elim (Option-cases (swap i (pick (xorshift rng) (i + 1)) v)) [
        | inl f ↦ absurd (ground arith)
        | inr (u, f) ↦
            swap-In i (pick (xorshift rng) (i + 1)) v u x f
              (shuffle_from-In n (i + 1) (xorshift rng) u v' rng' x (ground arith) m)
      ]

  -- What `shuffle` returns was in the list.
  pub shuffle-In :
      (rng : ℕ) (v v' : List A) (rng' : ℕ) (x : A)
      → shuffle rng v ≡ some (v', rng')
      → In x v'
      → In x v
  unfolding shuffle
  shuffle-In rng v v' rng' x e m = elim (Bool-cases (leb (length v) 1)) [
    | inl few ↦ let same : v ≡ v' = ground arith in (m.0, ap (λ u. get_elem? u m.0) same ∙ m.1)
    | inr many ↦ shuffle_from-In (length v - 1) 1 rng v v' rng' x (ground arith) m
  ]
