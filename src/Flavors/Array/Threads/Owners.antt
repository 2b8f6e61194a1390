-- ===== src/Flavors/Array/Threads/Owners.antt =====
-- What the threads that are half way through an operation of src/flavors/array.rs keep, whatever the
-- others do.
use native.Mathlib.Decide.{ℕ_discrete}
use crossbeam_channel.Common.{
  ℕ, ◌+◌, ◌%◌, ◌≢◌, sym, ◌∙◌, arith, Bool, true, false, List, [], ◌∷◌, ◌++◌, length, length-append,
  get_elem?-append_left, assign, assign_self, assign_ne,
}
use crossbeam_channel.Flavors.Array.Chan.{ArrayToken}
use crossbeam_channel.Flavors.Array.Threads.{Local, idle, sending, receiving}
use crossbeam_channel.Flavors.Array.Threads.Inv.{Owns, Apart}

module _ {A : Type 0} where
  pub Owns-claim_send :
      (k cap h : ℕ) (log : List A) (turn : ℕ → ℕ) (full : ℕ → Bool) (x : A) (l : Local A)
      → Owns k cap h log turn full l
      → Owns k cap h (log ++ (x ∷ [])) turn full l
  Owns-claim_send k cap h log turn full x idle o = tt
  Owns-claim_send k cap h log turn full x (sending token y p) o =
      ground (arith, length-append log (x ∷ []), get_elem?-append_left log (x ∷ []) p)
  Owns-claim_send k cap h log turn full x (receiving token p) o = ground arith

  pub Owns-claim_recv :
      (k cap h : ℕ) (log : List A) (turn : ℕ → ℕ) (full : ℕ → Bool) (l : Local A)
      → Owns k cap h log turn full l
      → Owns k cap (h + 1) log turn full l
  Owns-claim_recv k cap h log turn full idle o = tt
  Owns-claim_recv k cap h log turn full (sending token y p) o = ground arith
  Owns-claim_recv k cap h log turn full (receiving token p) o = ground arith

  pub Owns-write :
      (k cap h : ℕ) (log : List A) (turn : ℕ → ℕ) (full : ℕ → Bool) (p : ℕ) (token : ArrayToken)
      (x : A) (l : Local A)
      → Owns k cap h log turn full (sending token x p)
      → Apart (sending token x p) l
      → Owns k cap h log turn full l
      → Owns k cap h log turn (assign full (p % cap) true) l
  unfolding assign
  Owns-write k cap h log turn full p token x idle mine a o = tt
  Owns-write k cap h log turn full p token x (sending u y q) mine a o = ground arith
  Owns-write k cap h log turn full p token x (receiving u q) mine a o = ground arith

  pub Owns-read :
      (k cap h : ℕ) (log : List A) (turn : ℕ → ℕ) (full : ℕ → Bool) (p : ℕ) (token : ArrayToken)
      (l : Local A)
      → Owns k cap h log turn full (receiving token p)
      → Apart (receiving token p) l
      → Owns k cap h log turn full l
      → Owns k cap h log (assign turn (p % cap) (p + cap)) (assign full (p % cap) false) l
  unfolding assign
  Owns-read k cap h log turn full p token idle mine a o = tt
  Owns-read k cap h log turn full p token (sending u y q) mine a o = ground arith
  Owns-read k cap h log turn full p token (receiving u q) mine a o = ground arith

  -- A claim that has just been made is nobody else's.
  pub Apart-claim_send :
      (k cap h : ℕ) (log : List A) (turn : ℕ → ℕ) (full : ℕ → Bool) (token : ArrayToken) (x : A)
      (l : Local A)
      → Owns k cap h log turn full l
      → Apart (sending token x (length log)) l × Apart l (sending token x (length log))
  Apart-claim_send k cap h log turn full token x idle o = (tt, tt)
  Apart-claim_send k cap h log turn full token x (sending u y q) o =
      (λ e. omega arith, λ e. omega arith)
  Apart-claim_send k cap h log turn full token x (receiving u q) o = (tt, tt)

  pub Apart-claim_recv :
      (k cap h : ℕ) (log : List A) (turn : ℕ → ℕ) (full : ℕ → Bool) (token : ArrayToken)
      (l : Local A)
      → Owns k cap h log turn full l
      → Apart (receiving token h) l × Apart l (receiving token h)
  Apart-claim_recv k cap h log turn full token idle o = (tt, tt)
  Apart-claim_recv k cap h log turn full token (sending u y q) o = (tt, tt)
  Apart-claim_recv k cap h log turn full token (receiving u q) o =
      (λ e. omega arith, λ e. omega arith)

  pub Apart-idle : (l : Local A) → Apart {A = A} idle l × Apart l idle
  Apart-idle idle = (tt, tt)
  Apart-idle (sending u y q) = (tt, tt)
  Apart-idle (receiving u q) = (tt, tt)

  -- Changing one thread keeps the threads apart, if it comes to stand apart from the others.
  pub assign-Apart :
      (locals : ℕ → Local A) (me : ℕ) (l : Local A)
      → ((i j : ℕ) → i ≢ j → Apart (locals i) (locals j))
      → ((j : ℕ) → j ≢ me → Apart l (locals j) × Apart (locals j) l)
      → (i j : ℕ) → i ≢ j
      → Apart (assign locals me l i) (assign locals me l j)
  assign-Apart locals me l apart mine i j n = elim (ℕ_discrete i me) [
    | yes e ↦
        let other : j ≢ me = λ f. n (e ∙ sym f) in
        rw (e, assign_self, assign_ne locals me j l other) (mine j other).0
    | no o ↦ elim (ℕ_discrete j me) [
      | yes f ↦ rw (f, assign_self, assign_ne locals me i l o) (mine i o).1
      | no u ↦ rw (assign_ne locals me i l o, assign_ne locals me j l u) (apart i j n)
    ]
  ]

  -- And so does what holds of each thread.
  pub assign-all {κ} :
      (P : Local A → Type κ) (locals : ℕ → Local A) (me : ℕ) (l : Local A)
      → P l
      → ((j : ℕ) → j ≢ me → P (locals j))
      → (i : ℕ) → P (assign locals me l i)
  assign-all P locals me l mine others i = elim (ℕ_discrete i me) [
    | yes e ↦ rw (e, assign_self) mine
    | no n ↦ rw (assign_ne locals me i l n) (others i n)
  ]
