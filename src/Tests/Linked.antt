-- ===== src/Tests/Linked.antt =====
-- src/flavors/list.rs on a new channel and on one whose tail is about to leave its block.
use crossbeam_channel.Common.{
  ℕ, zero, suc, ◌≡◌, refl, arith, true, false, List, [], ◌∷◌, none, some, map,
}
use crossbeam_channel.Context.{Contexts}
use crossbeam_channel.Queue
use crossbeam_channel.Queue.{Call, send, recv, count, asks_empty, disconnects}
use crossbeam_channel.Queue.Runs.{Invocation, AllSucceed, run_calls}
use crossbeam_channel.Flavors.List.Chan.{Channel, new, new_block}
use crossbeam_channel.Flavors.List.Query.{drop}
use crossbeam_channel.Flavors.List.Cells.{cell, IsBlock, new_block-IsBlock}
use crossbeam_channel.Flavors.List.Holds.{Holds, link_of}
use crossbeam_channel.Flavors.List.Send.{pushed_within}
use crossbeam_channel.Flavors.List.Push.{pushed_within-Holds}
use crossbeam_channel.Flavors.List.QueryLaws.{numbers, drop-numbers}
use crossbeam_channel.Flavors.List.Refine.{perform, Models, new-Holds, run-refines-Unbounded}

abbrev cxs : Contexts
cxs = λ n. record { select = 0; packet = 0; thread_id = n; unparked = false }

-- Each call is made by thread 0, with one spurious failure.
abbrev by_zero : Call ℕ → Invocation ℕ
by_zero op = record { me = 0; rounds = true ∷ false ∷ []; call = op }

by_zero-AllSucceed : (ops : List (Call ℕ)) → AllSucceed (map by_zero ops)
by_zero-AllSucceed [] = tt
by_zero-AllSucceed (op ∷ ops) = (tt, by_zero-AllSucceed ops)

-- `n` messages sent and received in turn.
abbrev turns : ℕ → List (Call ℕ)
turns zero = []
turns (suc n) = send n ∷ recv ∷ turns n

abbrev calls : List (Call ℕ)
calls = send 7 ∷ send 8 ∷ recv ∷ count ∷ asks_empty ∷ disconnects ∷ send 9 ∷ recv ∷ recv ∷ []

run-refines-Unbounded_example :
    let (replies, end) =
      Queue.run none
        (map (λ i. i.call) (map by_zero calls))
        (record { items = []; dead = false }) in
    (c' : Channel ℕ) × (cxs' : Contexts) × (run_calls perform (map by_zero calls) new cxs
      ≡ some (replies, c', cxs'))
    × Models end c'
unfolding new
run-refines-Unbounded_example =
    run-refines-Unbounded (map by_zero calls) _ new cxs (by_zero-AllSucceed calls)
      (record { first = 0; holds = new-Holds ℕ; dead = refl }) (omega arith)

zero-IsBlock : IsBlock (link_of 0 0) (cell {A = ℕ} 0 []) 0 (new_block 0)
unfolding cell
zero-IsBlock = new_block-IsBlock (cell 0 []) 0 (λ o lt. ground arith)

abbrev one : Channel ℕ
one = pushed_within 0 0 7 (new_block 0) new cxs

one-Holds : Holds 0 (7 ∷ []) one
one-Holds =
    pushed_within-Holds 0 [] 7 new (new-Holds ℕ) (new_block 0) zero-IsBlock 0 cxs (omega arith)

drop-numbers_example : drop 5 one ≡ some (7 ∷ [], numbers 0 1)
drop-numbers_example = drop-numbers one-Holds (omega arith) 5 (omega arith)
