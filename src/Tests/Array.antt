-- ===== src/Tests/Array.antt =====
-- src/flavors/array.rs on small channels: a thread that sends, one that receives, and calls in a row.
use crossbeam_channel.Common.{
  ℕ, ◌+◌, ◌≤◌, ◌≡◌, ◌≢◌, refl, arith, true, false, List, [], ◌∷◌, some, ok, length, get_elem?, map,
  assign,
}
use crossbeam_channel.Common.Word.{next_power, power_from}
use crossbeam_channel.Context.{Contexts}
use crossbeam_channel.Queue
use crossbeam_channel.Queue.Runs.{Invocation, AllSucceed, run_calls}
use crossbeam_channel.Queue.{Call, send, recv, count, disconnects}
use crossbeam_channel.Flavors.Array.Chan.{
  ArrayToken, Channel, Attempt, returns, spins, faults, null_token, initial, with_capacity,
  init_slots, send_attempt, write, recv_attempt, recv_round, recv_check, read,
}
use crossbeam_channel.Flavors.Array.Query.{drop, disconnect}
use crossbeam_channel.Flavors.Array.Stamp.{index_of, lap_of, advance}
use crossbeam_channel.Flavors.Array.Holds.{Holds}
use crossbeam_channel.Flavors.Array.Init.{initial-Holds, with_capacity-Holds}
use crossbeam_channel.Flavors.Array.Send.{pushed, pushed-Holds}
use crossbeam_channel.Flavors.Array.QueryLaws.{drop-eq}
use crossbeam_channel.Flavors.Array.Refine.{perform, Models, run-refines-Queue}
use crossbeam_channel.Flavors.Array.Threads.{
  System, claims_send, writes, claims_recv, disconnects, Reach, here, next, after_claim_send,
  after_write, after_claim_recv, after_disconnect,
}
use crossbeam_channel.Flavors.Array.Threads.Results.{
  start, held, reads_in_order, slots_exclusive, claims_bounded, full_means_full, empty_means_empty,
  end_means_end,
}

-- Thread `n` has the context `n`.
abbrev cxs : Contexts
cxs = λ n. record { select = 0; packet = 0; thread_id = n; unparked = false }

abbrev token_of : Attempt ℕ → ArrayToken
token_of (returns b token c) = token
token_of spins = null_token
token_of faults = null_token

abbrev chan_of : Channel ℕ → Attempt ℕ → Channel ℕ
chan_of c (returns b token c') = c'
chan_of c spins = c
chan_of c faults = c

abbrev empty : System ℕ
empty = start 1 cxs

-- Thread 0 claims a slot for the message 7, writes it, and thread 1 claims it.
abbrev claimed : System ℕ
claimed =
    let a = send_attempt false null_token empty.chan in
    after_claim_send empty 0 7 (token_of a) (chan_of empty.chan a)

abbrev written : System ℕ
written = let a = send_attempt false null_token empty.chan in after_write claimed 0 (token_of a) 7

abbrev taken : System ℕ
taken =
    let a = recv_attempt false null_token written.chan in
    after_claim_recv written 1 (token_of a) (chan_of written.chan a)

claimed-Reach : Reach empty claimed
unfolding send_attempt recv_attempt recv_round recv_check init_slots index_of lap_of advance
    next_power power_from write assign disconnect
claimed-Reach = next here (claims_send empty 0 7 _ _ refl refl)

written-Reach : Reach empty written
unfolding send_attempt recv_attempt recv_round recv_check init_slots index_of lap_of advance
    next_power power_from write assign disconnect
written-Reach = next claimed-Reach (writes claimed 0 7 _ _ refl)

taken-Reach : Reach empty taken
unfolding send_attempt recv_attempt recv_round recv_check init_slots index_of lap_of advance
    next_power power_from write assign disconnect
taken-Reach = next written-Reach (claims_recv written 1 0 _ _ refl refl refl)

reads_in_order_example :
    (x : ℕ) × (c : Channel ℕ) × (after : Contexts) × (get_elem? taken.log 0 ≡ some x)
    × (read 1 (token_of (recv_attempt false null_token written.chan)) taken.chan taken.contexts
        ≡ some (ok x, c, after))
unfolding send_attempt recv_attempt recv_round recv_check init_slots index_of lap_of advance
    next_power power_from write assign disconnect
reads_in_order_example = reads_in_order 1 cxs (omega arith) (omega arith) 1 0 _ taken-Reach refl

-- Threads 0 and 1 both claim a slot of a channel of capacity 2.
abbrev wide : System ℕ
wide = start 2 cxs

abbrev first : System ℕ
first =
    let a = send_attempt false null_token wide.chan in
    after_claim_send wide 0 7 (token_of a) (chan_of wide.chan a)

abbrev second : System ℕ
second =
    let a = send_attempt false null_token first.chan in
    after_claim_send first 1 8 (token_of a) (chan_of first.chan a)

second-Reach : Reach wide second
unfolding send_attempt recv_attempt recv_round recv_check init_slots index_of lap_of advance
    next_power power_from write assign disconnect
second-Reach =
    next (next here (claims_send wide 0 7 _ _ refl refl)) (claims_send first 1 8 _ _ refl refl)

slots_exclusive_example : held (second.locals 1) ≢ some 0
unfolding send_attempt recv_attempt recv_round recv_check init_slots index_of lap_of advance
    next_power power_from write assign disconnect
slots_exclusive_example =
    slots_exclusive 2 cxs (omega arith) (omega arith) 0 1 0 second-Reach (omega arith) refl

claims_bounded_example :
    (send_attempt false null_token taken.chan ≢ faults)
    × (recv_attempt false null_token taken.chan ≢ faults)
    × (taken.taken ≤ length taken.log)
    × (length taken.log ≤ taken.taken + taken.chan.cap)
claims_bounded_example =
    claims_bounded 1 cxs (omega arith) (omega arith) false null_token taken-Reach

full_means_full_example :
    (length written.log ≡ written.taken + written.chan.cap) × (written.chan ≡ written.chan)
unfolding send_attempt recv_attempt recv_round recv_check init_slots index_of lap_of advance
    next_power power_from write assign disconnect
full_means_full_example =
    full_means_full 1 cxs (omega arith) (omega arith) false null_token _ _ written-Reach refl

empty_means_empty_example :
    (length empty.log ≡ empty.taken)
    × (empty.chan.is_disconnected ≡ false)
    × (empty.chan ≡ empty.chan)
unfolding send_attempt recv_attempt recv_round recv_check init_slots index_of lap_of advance
    next_power power_from write assign disconnect
empty_means_empty_example =
    empty_means_empty 1 cxs (omega arith) (omega arith) false null_token _ _ here refl

abbrev ended : System ℕ
ended = after_disconnect empty

-- The channel is disconnected before the last two looks of the round.
end_means_end_example :
    (length ended.log ≡ ended.taken)
    × (ended.chan.is_disconnected ≡ true)
    × (ended.chan ≡ ended.chan)
unfolding send_attempt recv_attempt recv_round recv_check init_slots index_of lap_of advance
    next_power power_from write assign disconnect
end_means_end_example =
    end_means_end 1 cxs (omega arith) (omega arith) false null_token null_token ended.chan here
      (next here (disconnects empty)) (omega arith) refl refl

with_capacity-Holds_example :
    (c : Channel ℕ) × (with_capacity 3 ≡ some c)
    × Holds (next_power 3) 0 [] c
    × (c.cap ≡ 3)
    × (c.is_disconnected ≡ false)
with_capacity-Holds_example = with_capacity-Holds ℕ 3 (omega arith) (omega arith)

three-Holds : Holds (next_power 3) 0 [] (initial {A = ℕ} 3)
three-Holds = initial-Holds ℕ 3 (omega arith) (omega arith)

abbrev one_of_three : Channel ℕ
one_of_three = pushed 0 (next_power 3) 0 [] 7 (initial 3) cxs

drop-eq_example : drop one_of_three ≡ some (7 ∷ [])
drop-eq_example = drop-eq (pushed-Holds three-Holds 0 7 cxs (omega arith))

-- Each call is made by thread 0, with one spurious failure.
abbrev by_zero : Call ℕ → Invocation ℕ
by_zero op = record { me = 0; rounds = true ∷ false ∷ []; call = op }

by_zero-AllSucceed : (ops : List (Call ℕ)) → AllSucceed (map by_zero ops)
by_zero-AllSucceed [] = tt
by_zero-AllSucceed (op ∷ ops) = (tt, by_zero-AllSucceed ops)

abbrev calls : List (Call ℕ)
calls = send 7 ∷ send 8 ∷ recv ∷ count ∷ disconnects ∷ send 9 ∷ recv ∷ recv ∷ []

abbrev script : List (Invocation ℕ)
script = map by_zero calls

run-refines-Queue_example :
    let (replies, end) =
      Queue.run (some 3) (map (λ i. i.call) script) (record { items = []; dead = false }) in
    (c' : Channel ℕ) × (cxs' : Contexts) × (run_calls perform script (initial 3) cxs
      ≡ some (replies, c', cxs'))
    × (Models end c' × (c'.cap ≡ 3))
run-refines-Queue_example =
    run-refines-Queue script _ (initial 3) cxs (by_zero-AllSucceed calls)
      (record { lap = next_power 3; first = 0; holds = three-Holds; dead = refl })
