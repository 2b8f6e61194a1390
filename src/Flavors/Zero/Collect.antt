-- ===== src/Flavors/Zero/Collect.antt =====
-- What `try_recv` of src/flavors/zero.rs does with the entry that `wake_one` finds.
use crossbeam_channel.Common.{
  ℕ, ◌+◌, ◌<◌, ◌≡◌, ◌≢◌, ◌⊎◌, inl, inr, arith, Bool, true, false, if◌then◌else◌, List, ◌∷◌, ◌++◌,
  Option, none, some, assign, ok, err, Option-cases, Bool-cases,
}
use crossbeam_channel.Context.{Contexts}
use crossbeam_channel.Waker
use crossbeam_channel.Waker.{Entry, Waker}
use crossbeam_channel.Waker.Wake.{
  IsReady, NoneReady, hand_over, wake_first-NoneReady, wake_first-cases,
}
use crossbeam_channel.Err.{TryRecvError}
use crossbeam_channel.Flavors.Zero.Packets.{Packet, Channel, put, read, take_msg, set_ready}
use crossbeam_channel.Flavors.Zero.Chan.{with_senders}
use crossbeam_channel.Flavors.Zero.Calls.{try_recv}
use crossbeam_channel.Flavors.Zero.Owned.{Inv, holds, holds-split, sendable}
use crossbeam_channel.Flavors.Zero.Safe.{fewer-Inv, assign-Inv}

module _ {A : Type 0} where
  -- The message has been taken out of the packet.
  abbrev pub collected : ℕ → Packet A → List Entry → Channel A → Channel A
  collected ptr p es c =
      put ptr (record p { msg = none; ready = true })
        (put ptr (record p { msg = none }) (with_senders c (record c.senders { entries = es })))

  pub try_recv-finds :
      (me : ℕ) (rounds : List (Channel A → Channel A)) (c : Channel A) (cxs after : Contexts)
      (e : Entry) (es : List Entry) (p : Packet A) (msg : A)
      → Waker.wake_first me c.senders.entries cxs ≡ (some e, es, after)
      → e.packet ≢ 0
      → c.packets e.packet ≡ some p
      → p.on_stack ≡ true
      → p.msg ≡ some msg
      → try_recv me rounds c cxs ≡ some (ok msg, collected e.packet p es c, after)
  unfolding try_recv Waker.wake_one read take_msg set_ready assign
  try_recv-finds me rounds c cxs after e es p msg f n q s m = ground (arith, f, q)

  pub try_recv-alone :
      (me : ℕ) (rounds : List (Channel A → Channel A)) (c : Channel A) (cxs : Contexts)
      → NoneReady me cxs c.senders.entries
      → try_recv me rounds c cxs
        ≡ some (
          err (if c.is_disconnected then TryRecvError.disconnected else TryRecvError.empty),
          c,
          cxs,
        )
  unfolding try_recv Waker.wake_one
  try_recv-alone me rounds c cxs n = ground (arith, wake_first-NoneReady me c.senders.entries cxs n)

  -- The packet of an entry that sends, and its message if it is on the stack.
  offered :
      (c : Channel A) (q : ℕ)
      → sendable (c.packets q) ≡ true
      → (p : Packet A) × (c.packets q ≡ some p)
        × ((p.on_stack ≡ false) ⊎ ((p.on_stack ≡ true) × ((msg : A) × (p.msg ≡ some msg))))
  offered c q h = elim (Option-cases (c.packets q)) [
    | inl e ↦ absurd (ground arith)
    | inr (p, e) ↦ elim (Bool-cases p.on_stack) [
      | inr heap ↦ (p, e, inl heap)
      | inl stack ↦ elim (Option-cases p.msg) [
        | inl m ↦ absurd (ground arith)
        | inr (x, m) ↦ (p, e, inr (stack, (x, m)))
      ]
    ]
  ]

  collected-Inv :
      (c : Channel A) (p : Packet A) (xs ys : List Entry) (e : Entry)
      → Inv c
      → c.senders.entries ≡ xs ++ (e ∷ ys)
      → c.packets e.packet ≡ some p
      → Inv (collected e.packet p (xs ++ ys) c)
  unfolding assign
  collected-Inv c p xs ys e i s q =
      assign-Inv once_taken e.packet _
        (assign-Inv fewer e.packet _
          (fewer-Inv c (record c.senders { entries = xs ++ ys }) c.receivers i
            (λ r. rw s (ground (arith, holds-split r xs ys e))) (λ r. omega arith))
          (ground arith) unheld)
        (ground arith) unheld
    where
      fewer : Channel A
      fewer = with_senders c (record c.senders { entries = xs ++ ys })

      once_taken : Channel A
      once_taken = put e.packet (record p { msg = none }) fewer

      unheld : holds e.packet (xs ++ ys) + holds e.packet c.receivers.entries ≡ 0
      unheld = ground (arith, i.once e.packet, s, holds-split e.packet xs ys e)

  abbrev pub stacked : Option (Packet A) → Bool
  stacked none = false
  stacked (some p) = p.on_stack

  -- No entry of another thread waits in the queue of senders.
  abbrev pub FindsNone : ℕ → List (Channel A → Channel A) → Channel A → Contexts → Type 0
  FindsNone me rounds c cxs =
      NoneReady me cxs c.senders.entries
      × (try_recv me rounds c cxs
          ≡ some (
            err (if c.is_disconnected then TryRecvError.disconnected else TryRecvError.empty),
            c,
            cxs,
          ))

  -- The message of the oldest entry of another thread that waits is taken.
  abbrev pub Collects : ℕ → List (Channel A → Channel A) → Channel A → Contexts → Type 0
  Collects me rounds c cxs =
      (e : Entry) × (xs : List Entry) × (ys : List Entry) × (p : Packet A) × (msg : A)
      × (c.senders.entries ≡ xs ++ (e ∷ ys))
      × NoneReady me cxs xs
      × IsReady me cxs e
      × (c.packets e.packet ≡ some p)
      × (p.msg ≡ some msg)
      × (try_recv me rounds c cxs
          ≡ some (ok msg, collected e.packet p (xs ++ ys) c, hand_over e cxs))
      × Inv (collected e.packet p (xs ++ ys) c)

  -- On a channel whose packets are in order, and on which only calls that block wait to send (the
  -- packets in the queue of senders are on the stack), `try_recv` does not panic and waits for no
  -- one. If no sender of another thread waits, it returns empty or disconnected and changes nothing.
  -- If one does, it returns the message of the oldest such sender: the message has left the packet,
  -- which is marked ready, the sender is woken, its entry has left the queue, and the packets are
  -- in order again.
  pub try_recv-Collects :
      (me : ℕ) (rounds : List (Channel A → Channel A)) (c : Channel A) (cxs : Contexts)
      → Inv c
      → ((q : ℕ) → 0 < holds q c.senders.entries → stacked (c.packets q) ≡ true)
      → FindsNone me rounds c cxs ⊎ Collects me rounds c cxs
  unfolding holds
  try_recv-Collects me rounds c cxs i h = elim (wake_first-cases me c.senders.entries cxs) [
    | inl (none_ready, q) ↦ inl (none_ready, try_recv-alone me rounds c cxs none_ready)
    | inr (e, xs, ys, s, before, ready, q) ↦
        let has : 0 < holds e.packet c.senders.entries =
          rw s (ground (arith, holds-split e.packet xs ys e)) in
        let (p, there, kind) = offered c e.packet (i.offers e.packet has) in
        elim kind [
          | inl heap ↦ absurd (ground (arith, h e.packet has))
          | inr (stack, (msg, m)) ↦ inr (
            e,
            xs,
            ys,
            p,
            msg,
            s,
            before,
            ready,
            there,
            m,
            try_recv-finds me rounds c cxs (hand_over e cxs) e (xs ++ ys) p msg q
                (ground (arith, i.null)) there stack m,
            collected-Inv c p xs ys e i s there,
          )
        ]
  ]
