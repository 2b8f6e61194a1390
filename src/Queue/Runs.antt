-- ===== src/Queue/Runs.antt =====
-- Calls in a row on an implementation of the queue, and what makes their replies those of the queue.
use crossbeam_channel.Common.{
  ℕ, suc, ◌≡◌, refl, arith, Bool, List, [], ◌∷◌, Option, none, some, length, map, Succeeds,
}
use crossbeam_channel.Context.{Contexts}
use crossbeam_channel.Queue.{Queue, Call, Reply, step, run}

-- A call on the channel by thread `me`, with the rounds that its loop may take.
pub record Invocation (A : Type 0) : Type 0 where
  pub me : ℕ
  pub rounds : List Bool
  pub call : Call A

-- Each call may take a round in which nothing fails for no reason.
abbrev pub AllSucceed : {A : Type 0} → List (Invocation A) → Type 0
AllSucceed [] = Unit {0}
AllSucceed (i ∷ is) = Succeeds i.rounds × AllSucceed is

-- What a call comes to in a channel of type `C`; none: it does not return, or it panics or faults.
abbrev pub Out : Type 0 → Type 0 → Type 0
Out A C = Option (Reply A × C × Contexts)

-- The call gave the reply of the queue and left a channel that models the queue.
abbrev pub Agrees : {A C : Type 0} → (Queue A → C → Type 0) → Reply A × Queue A → Out A C → Type 0
Agrees {C = C} Models (reply, s) out =
    (c : C) × (cxs : Contexts) × (out ≡ some (reply, c, cxs)) × Models s c

-- A type of channels `C` that implements the queue. `Models n s c`: the channel `c` stands for the
-- queue `s`, and can take `n` calls.
pub record Implementation (A C : Type 0) (cap : Option ℕ)
    (perform : Invocation A → C → Contexts → Out A C) : Type 1 where
  pub Models : ℕ → Queue A → C → Type 0
  pub agrees :
      (n : ℕ) (i : Invocation A) (s : Queue A) (c : C) (cxs : Contexts)
      → Succeeds i.rounds
      → Models (suc n) s c
      → Agrees (Models n) (step cap i.call s) (perform i c cxs)

module _ {A C : Type 0} (perform : Invocation A → C → Contexts → Out A C) where
  unfoldable pub run_calls :
      List (Invocation A) → C → Contexts → Option (List (Reply A) × C × Contexts)
  run_calls [] c cxs = some ([], c, cxs)
  run_calls (i ∷ is) c cxs = elim (perform i c cxs) [
    | none ↦ none
    | some (reply, c', cxs') ↦ elim (run_calls is c' cxs') [
      | none ↦ none
      | some (replies, end, after) ↦ some (reply ∷ replies, end, after)
    ]
  ]

  pub run_calls-run :
      {cap : Option ℕ} (impl : Implementation A C cap perform) (is : List (Invocation A))
      (s : Queue A) (c : C) (cxs : Contexts)
      → AllSucceed is
      → impl.Models (length is) s c
      → let (replies, end) = run cap (map (λ i. i.call) is) s in
        (c' : C) × (cxs' : Contexts) × (run_calls is c cxs ≡ some (replies, c', cxs'))
        × impl.Models 0 end c'
  unfolding run_calls run
  run_calls-run impl [] s c cxs live m = (c, cxs, refl, m)
  run_calls-run impl (i ∷ is) s c cxs live m =
      let (c1, cxs1, e1, m1) = impl.agrees (length is) i s c cxs live.0 m in
      let (c2, cxs2, e2, m2) = run_calls-run impl is _ c1 cxs1 live.1 m1 in
      (c2, cxs2, ground (arith, e1, e2), m2)
