-- ===== src/Tests/Met.antt =====
-- src/flavors/zero.rs on threads 1 and 2, which meet, and thread 3.
use crossbeam_channel.Common.{
  ℕ, ◌<◌, ◌≡◌, ◌⊎◌, refl, arith, true, false, if◌then◌else◌, ◌==◌, assign, [], none, some, ok, err,
  repeat,
}
use crossbeam_channel.Context.{Contexts, with_context, reset, update}
use crossbeam_channel.Err.{SendTimeoutError}
use crossbeam_channel.Flavors.Blocking.Quiet.{given_up, repeat-AllPast}
use crossbeam_channel.Waker
use crossbeam_channel.Waker.{Entry}
use crossbeam_channel.Flavors.Zero.Packets.{Channel, new, empty_on_stack, message_on_stack}
use crossbeam_channel.Flavors.Zero.Chan.{enqueue_send, enqueue_recv}
use crossbeam_channel.Flavors.Zero.Calls.{try_send, try_recv, disconnect}
use crossbeam_channel.Flavors.Zero.Blocking.{send, recv}
use crossbeam_channel.Flavors.Zero.Owned.{Inv, holds}
use crossbeam_channel.Flavors.Zero.Safe.{new-Inv, enqueue_send-Inv, enqueue_recv-Inv}
use crossbeam_channel.Flavors.Zero.Deliver.{Refuses, Delivers, try_send-Delivers}
use crossbeam_channel.Flavors.Zero.Collect.{FindsNone, Collects, stacked, try_recv-Collects}
use crossbeam_channel.Flavors.Zero.Meet.{
  SameQueues, receiving, sending, partner, recv-meets, send-meets,
}
use crossbeam_channel.Flavors.Zero.Alone.{nobody, send-alone}
use crossbeam_channel.Flavors.Zero.Cut.{cut, cuts, send-cut}

abbrev cxs : Contexts
cxs = λ n. record { select = 0; packet = 0; thread_id = n; unparked = false }

-- Thread 3 has been woken already.
abbrev busy : Contexts
busy = λ n. record { select = if n == 3 then 1 else 0; packet = 0; thread_id = n; unparked = false }

abbrev empty_channel : Channel ℕ
empty_channel = new

-- Thread 3 waits for a message with the context 3.
abbrev one_receiver : Channel ℕ
one_receiver = receiving 20 3 empty_channel

one_receiver-Inv : Inv one_receiver
one_receiver-Inv = enqueue_recv-Inv 20 3 empty_on_stack empty_channel new-Inv refl

-- Thread 3 waits to send.
abbrev one_sender : Channel ℕ
one_sender = sending 20 3 8 empty_channel

one_sender-Inv : Inv one_sender
one_sender-Inv = enqueue_send-Inv 20 3 (message_on_stack 8) empty_channel new-Inv refl

try_send-Delivers_example : Refuses 2 7 one_receiver cxs ⊎ Delivers 2 7 one_receiver cxs
try_send-Delivers_example = try_send-Delivers 2 7 one_receiver cxs one_receiver-Inv

one_sender-stacked :
    (q : ℕ) → 0 < holds q one_sender.senders.entries → stacked (one_sender.packets q) ≡ true
unfolding enqueue_send new holds assign Waker.register_with_packet Waker.new
one_sender-stacked q h = ground arith

try_recv-Collects_example : FindsNone 2 [] one_sender cxs ⊎ Collects 2 [] one_sender cxs
try_recv-Collects_example = try_recv-Collects 2 [] one_sender cxs one_sender-Inv one_sender-stacked

recv-meets_example :
    (c' : Channel ℕ) × (cxs' : Contexts) × (left : Channel ℕ) × (try_send 2 7
        (receiving 10 1 one_receiver)
        (with_context 1 busy)
      ≡ some (ok tt, c', cxs'))
    × (recv 1 10 1 none (partner (try_send 2 7)) one_receiver busy ≡ some (ok 7, left, cxs'))
    × SameQueues one_receiver left
unfolding enqueue_recv new Waker.register_with_packet Waker.new with_context reset update
recv-meets_example =
    recv-meets 1 2 7 1 none 7 one_receiver busy one_receiver-Inv refl (omega arith) tt
      (λ h. absurd (omega (arith, h.1)), tt)

send-meets_example :
    (c' : Channel ℕ) × (cxs' : Contexts) × (left : Channel ℕ) × (try_recv 2 []
        (sending 10 1 7 one_sender)
        (with_context 1 busy)
      ≡ some (ok 7, c', cxs'))
    × (send 1 10 1 (some 50) 7 (partner (try_recv 2 [])) one_sender busy ≡ some (ok tt, left, cxs'))
    × SameQueues one_sender left
unfolding enqueue_send new Waker.register_with_packet Waker.new with_context reset update
send-meets_example =
    send-meets 1 2 7 1 (some 50) 7 [] one_sender busy one_sender-Inv refl (omega arith) tt
      (λ h. absurd (omega (arith, h.1)), tt)

send-alone_example :
    (left : Channel ℕ) × (send 1 10 1 (some 5) 7 (nobody (repeat 6 12)) one_sender cxs
      ≡ some (err (SendTimeoutError.timeout 7), left, given_up 1 (with_context 1 cxs)))
    × SameQueues one_sender left
unfolding enqueue_send new Waker.register_with_packet Waker.new
send-alone_example =
    send-alone 1 7 1 5 (repeat 6 12) 7 one_sender cxs one_sender-Inv refl tt (omega arith, tt)
      (repeat-AllPast 5 6 12 (omega arith)) (omega arith)

send-cut_example :
    let (c', cxs') = disconnect (sending 10 1 7 one_sender) (with_context 1 cxs) in
    (left : Channel ℕ) × (send 1 10 1 none 7 (partner cuts) one_sender cxs
      ≡ some (err (SendTimeoutError.disconnected 7), left, cxs'))
    × SameQueues (cut one_sender) left
unfolding enqueue_send new Waker.register_with_packet Waker.new
send-cut_example = send-cut 1 7 1 none 7 one_sender cxs one_sender-Inv refl tt (omega arith, tt)
