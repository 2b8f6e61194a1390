-- ===== src/Flavors/Zero/Meet.antt =====
-- A call of src/flavors/zero.rs that blocks, and the call of another thread that pairs up with it.
use crossbeam_channel.Common.{
  ℕ, suc, ◌≡◌, ◌≢◌, refl, arith, true, false, List, [], ◌∷◌, Option, none, some, assign, ok,
}
use crossbeam_channel.Context.Wait.{Round}
use crossbeam_channel.Context.{Contexts, with_context, reset, update, hook}
use crossbeam_channel.Waker
use crossbeam_channel.Waker.{Entry, Waker}
use crossbeam_channel.Waker.Queue.{entry}
use crossbeam_channel.Waker.Wake.{
  IsReady, NoneReady, hand_over, hand_over-at, wake_first-last, wake_first-NoneReady,
}
use crossbeam_channel.Flavors.Blocking.Quiet.{wait_until-woken}
use crossbeam_channel.Flavors.Zero.Packets.{
  Packet, Channel, put, empty_on_stack, message_on_stack, take_msg, wait_ready, free,
}
use crossbeam_channel.Flavors.Zero.Chan.{enqueue_send, enqueue_recv}
use crossbeam_channel.Flavors.Zero.Calls.{try_send, try_recv}
use crossbeam_channel.Flavors.Zero.Blocking.{
  Wait, send, recv, block_send, block_recv, finish_send, finish_recv,
}
use crossbeam_channel.Flavors.Zero.Deliver.{delivered, try_send-finds}
use crossbeam_channel.Flavors.Zero.Collect.{collected, try_recv-finds}
use crossbeam_channel.Flavors.Zero.Owned.{Inv}

IsReady-last :
    (cx other address packet : ℕ) (cxs : Contexts)
    → (cxs cx).thread_id ≢ other
    → IsReady other (with_context cx cxs) (entry address packet cx)
unfolding with_context reset update
IsReady-last cx other address packet cxs h = ground arith

-- A round in which nothing happens.
abbrev pub still : Round
still = record { before = λ cxs. cxs; now = 0; meanwhile = λ cxs. cxs }

module _ {A : Type 0} where
  -- Another thread makes one call, which may fail, once this one has joined its queue.
  abbrev pub partner :
      {R : Type 0} → (Channel A → Contexts → Option (R × Channel A × Contexts)) → Wait A
  partner call = record {
    meanwhile = λ c cxs. elim (call c cxs) [ none ↦ (c, cxs) | some (res, c', cxs') ↦ (c', cxs') ];
    waits = still ∷ [];
    readies = (λ c. c) ∷ [];
  }

  -- The same entries and packets.
  abbrev pub SameQueues : Channel A → Channel A → Type 0
  SameQueues c d =
      (d.senders.entries ≡ c.senders.entries)
      × (d.receivers.entries ≡ c.receivers.entries)
      × ((p : ℕ) → d.packets p ≡ c.packets p)
      × (d.is_disconnected ≡ c.is_disconnected)

  -- The channel in which a receiver, or a sender with its message, has joined its queue.
  abbrev pub receiving : ℕ → ℕ → Channel A → Channel A
  receiving address cx c = (enqueue_recv address cx empty_on_stack c).1

  abbrev pub sending : ℕ → ℕ → A → Channel A → Channel A
  sending address cx msg c = (enqueue_send address cx (message_on_stack msg) c).1

  abbrev pub dropped : ℕ → Channel A → Channel A
  dropped ptr c = record c { packets = assign c.packets ptr none }

  finish_recv-ready :
      (ptr : ℕ) (msg : A) (c : Channel A) (p : Packet A)
      → c.packets ptr ≡ some p
      → p.ready ≡ true
      → p.msg ≡ some msg
      → finish_recv ptr ((λ c. c) ∷ []) c
        ≡ some (msg, dropped ptr (put ptr (record p { msg = none }) c))
  unfolding finish_recv wait_ready take_msg free assign
  finish_recv-ready ptr msg c p t r m = ground (arith, t, m)

  finish_send-ready :
      (ptr : ℕ) (c : Channel A) (p : Packet A)
      → c.packets ptr ≡ some p
      → p.ready ≡ true
      → finish_send ptr ((λ c. c) ∷ []) c ≡ some (dropped ptr c)
  unfolding finish_send wait_ready free
  finish_send-ready ptr c p t r = ground (arith, t)

  try_send-fills :
      (other address cx : ℕ) (msg : A) (c : Channel A) (cxs : Contexts)
      → Inv c
      → NoneReady other (with_context cx cxs) c.receivers.entries
      → (cxs cx).thread_id ≢ other
      → try_send other msg (enqueue_recv address cx empty_on_stack c).1 (with_context cx cxs)
        ≡ some (
          ok tt,
          delivered msg c.fresh empty_on_stack c.receivers.entries
              (enqueue_recv address cx empty_on_stack c).1,
          hand_over (entry address c.fresh cx) (with_context cx cxs),
        )
  unfolding enqueue_recv Waker.register_with_packet assign
  try_send-fills other address cx msg c cxs i n h =
      try_send-finds other msg (enqueue_recv address cx empty_on_stack c).1 (with_context cx cxs) _
        (entry address c.fresh cx) c.receivers.entries empty_on_stack
        (wake_first-last other c.receivers.entries (entry address c.fresh cx) (with_context cx cxs)
          n (IsReady-last cx other address c.fresh cxs h))
        (ground (arith, i.start)) (ground arith)

  -- How a call that blocks goes on once it has been woken.
  recv-woken :
      {R : Type 0} (call : Channel A → Contexts → Option (R × Channel A × Contexts)) (res : R)
      (me n cx : ℕ) (deadline : Option ℕ) (msg : A) (c c' left : Channel A) (cxs cxs' : Contexts)
      → c.is_disconnected ≡ false
      → NoneReady me cxs c.senders.entries
      → call (receiving (suc (suc (suc n))) cx c) (with_context cx cxs) ≡ some (res, c', cxs')
      → (cxs' cx).select ≡ suc (suc (suc n))
      → finish_recv c.fresh ((λ c. c) ∷ []) c' ≡ some (msg, left)
      → recv me (suc (suc (suc n))) cx deadline (partner call) c cxs ≡ some (ok msg, left, cxs')
  unfolding recv block_recv hook Waker.wake_one
  recv-woken call res me n cx deadline msg c c' left cxs cxs' d a q s f = ground (
    arith,
    wake_first-NoneReady me c.senders.entries cxs a,
    q,
    wait_until-woken cx n deadline still cxs' s,
    f,
  )

  -- A `recv` that finds no sender and blocks, in a connected channel whose packets are in order,
  -- and a `try_send` that another thread calls on the channel once `recv` has joined its queue, and
  -- that finds no other receiver ready, meet: `try_send` returns `Ok`, and `recv`, which goes on once it is woken, returns that message, whatever its
  -- deadline. Both queues and all packets are as before the two calls.
  pub recv-meets :
      (me other n cx : ℕ) (deadline : Option ℕ) (msg : A) (c : Channel A) (cxs : Contexts)
      → Inv c
      → c.is_disconnected ≡ false
      → (cxs cx).thread_id ≢ other
      → NoneReady me cxs c.senders.entries
      → NoneReady other (with_context cx cxs) c.receivers.entries
      → (c' : Channel A) × (cxs' : Contexts) × (left : Channel A) × (try_send other msg
            (receiving (suc (suc (suc n))) cx c)
            (with_context cx cxs)
          ≡ some (ok tt, c', cxs'))
        × (recv me (suc (suc (suc n))) cx deadline (partner (try_send other msg)) c cxs
            ≡ some (ok msg, left, cxs'))
        × SameQueues c left
  unfolding assign enqueue_recv
  recv-meets me other n cx deadline msg c cxs i d t a b = (
    _,
    _,
    _,
    try_send-fills other (suc (suc (suc n))) cx msg c cxs i b t,
    recv-woken (try_send other msg) (ok tt) me n cx deadline msg c _ _ cxs _ d a
        (try_send-fills other (suc (suc (suc n))) cx msg c cxs i b t)
        (rw (hand_over-at (entry (suc (suc (suc n))) c.fresh cx) (with_context cx cxs) cx)
          (ground arith))
        (finish_recv-ready c.fresh msg
          (delivered msg c.fresh empty_on_stack c.receivers.entries
            (receiving (suc (suc (suc n))) cx c))
          (record { on_stack = true; ready = true; msg = some msg }) (ground arith) refl refl),
    (refl, refl, (λ p. ground (arith, i.later p)), refl),
  )

  try_recv-takes :
      (other address cx : ℕ) (msg : A) (rounds : List (Channel A → Channel A)) (c : Channel A)
      (cxs : Contexts)
      → Inv c
      → NoneReady other (with_context cx cxs) c.senders.entries
      → (cxs cx).thread_id ≢ other
      → try_recv other rounds (sending address cx msg c) (with_context cx cxs)
        ≡ some (
          ok msg,
          collected c.fresh (message_on_stack msg) c.senders.entries (sending address cx msg c),
          hand_over (entry address c.fresh cx) (with_context cx cxs),
        )
  unfolding enqueue_send Waker.register_with_packet assign
  try_recv-takes other address cx msg rounds c cxs i h t =
      try_recv-finds other rounds (sending address cx msg c) (with_context cx cxs) _
        (entry address c.fresh cx) c.senders.entries (message_on_stack msg) msg
        (wake_first-last other c.senders.entries (entry address c.fresh cx) (with_context cx cxs) h
          (IsReady-last cx other address c.fresh cxs t))
        (ground (arith, i.start)) (ground arith) refl refl

  send-woken :
      {R : Type 0} (call : Channel A → Contexts → Option (R × Channel A × Contexts)) (res : R)
      (me n cx : ℕ) (deadline : Option ℕ) (msg : A) (c c' left : Channel A) (cxs cxs' : Contexts)
      → c.is_disconnected ≡ false
      → NoneReady me cxs c.receivers.entries
      → call (sending (suc (suc (suc n))) cx msg c) (with_context cx cxs) ≡ some (res, c', cxs')
      → (cxs' cx).select ≡ suc (suc (suc n))
      → finish_send c.fresh ((λ c. c) ∷ []) c' ≡ some left
      → send me (suc (suc (suc n))) cx deadline msg (partner call) c cxs ≡ some (ok tt, left, cxs')
  unfolding send block_send hook Waker.wake_one
  send-woken call res me n cx deadline msg c c' left cxs cxs' d a q s f = ground (
    arith,
    wake_first-NoneReady me c.receivers.entries cxs a,
    q,
    wait_until-woken cx n deadline still cxs' s,
    f,
  )

  -- A `send` that finds no receiver and blocks, in a connected channel whose packets are in
  -- order, and a `try_recv` that another thread calls on the channel once `send` has joined its
  -- queue, and that finds no other sender ready, meet: `try_recv` returns the message of that `send`, and `send`, which goes on once it is woken, returns `Ok`,
  -- whatever its deadline. Both queues and all packets are as before the two calls.
  pub send-meets :
      (me other n cx : ℕ) (deadline : Option ℕ) (msg : A) (rounds : List (Channel A → Channel A))
      (c : Channel A) (cxs : Contexts)
      → Inv c
      → c.is_disconnected ≡ false
      → (cxs cx).thread_id ≢ other
      → NoneReady me cxs c.receivers.entries
      → NoneReady other (with_context cx cxs) c.senders.entries
      → (c' : Channel A) × (cxs' : Contexts) × (left : Channel A) × (try_recv other rounds
            (sending (suc (suc (suc n))) cx msg c)
            (with_context cx cxs)
          ≡ some (ok msg, c', cxs'))
        × (send me (suc (suc (suc n))) cx deadline msg (partner (try_recv other rounds)) c cxs
            ≡ some (ok tt, left, cxs'))
        × SameQueues c left
  unfolding assign enqueue_send
  send-meets me other n cx deadline msg rounds c cxs i d t a b = (
    _,
    _,
    _,
    try_recv-takes other (suc (suc (suc n))) cx msg rounds c cxs i b t,
    send-woken (try_recv other rounds) (ok msg) me n cx deadline msg c _ _ cxs _ d a
        (try_recv-takes other (suc (suc (suc n))) cx msg rounds c cxs i b t)
        (rw (hand_over-at (entry (suc (suc (suc n))) c.fresh cx) (with_context cx cxs) cx)
          (ground arith))
        (finish_send-ready c.fresh
          (collected c.fresh (message_on_stack msg) c.senders.entries
            (sending (suc (suc (suc n))) cx msg c))
          (record { on_stack = true; ready = true; msg = none }) (ground arith) refl),
    (refl, refl, (λ p. ground (arith, i.later p)), refl),
  )
