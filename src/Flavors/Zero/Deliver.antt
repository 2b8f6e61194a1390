-- ===== src/Flavors/Zero/Deliver.antt =====
-- What `try_send` and `try_recv` of src/flavors/zero.rs do with the entry that `wake_one` finds.
use crossbeam_channel.Common.{
  ℕ, ◌<◌, ◌≡◌, ◌≢◌, ◌⊎◌, inl, inr, arith, true, false, if◌then◌else◌, List, ◌∷◌, ◌++◌, none, some,
  ok, err, Option-cases,
}
use crossbeam_channel.Context.{Contexts}
use crossbeam_channel.Waker
use crossbeam_channel.Waker.{Entry, Waker}
use crossbeam_channel.Waker.Wake.{
  IsReady, NoneReady, hand_over, wake_first-NoneReady, wake_first-cases,
}
use crossbeam_channel.Err.{TrySendError}
use crossbeam_channel.Flavors.Zero.Packets.{Packet, Channel, put, write}
use crossbeam_channel.Flavors.Zero.Chan.{with_receivers}
use crossbeam_channel.Flavors.Zero.Calls.{try_send, write_unwrap}
use crossbeam_channel.Flavors.Zero.Owned.{Inv, holds, holds-split, fillable}
use crossbeam_channel.Flavors.Zero.Safe.{fewer-Inv, assign-Inv}

module _ {A : Type 0} where
  -- The message is in the packet, and the queue has lost an entry.
  abbrev pub delivered : A → ℕ → Packet A → List Entry → Channel A → Channel A
  delivered msg ptr p es c =
      put ptr (record p { msg = some msg; ready = true })
        (with_receivers c (record c.receivers { entries = es }))

  pub try_send-finds :
      (me : ℕ) (msg : A) (c : Channel A) (cxs after : Contexts) (e : Entry) (es : List Entry)
      (p : Packet A)
      → Waker.wake_first me c.receivers.entries cxs ≡ (some e, es, after)
      → e.packet ≢ 0
      → c.packets e.packet ≡ some p
      → try_send me msg c cxs ≡ some (ok tt, delivered msg e.packet p es c, after)
  unfolding try_send Waker.wake_one write_unwrap write
  try_send-finds me msg c cxs after e es p f n q = ground (arith, f, q)

  pub try_send-alone :
      (me : ℕ) (msg : A) (c : Channel A) (cxs : Contexts)
      → NoneReady me cxs c.receivers.entries
      → try_send me msg c cxs
        ≡ some (
          err (if c.is_disconnected then TrySendError.disconnected msg else TrySendError.full msg),
          c,
          cxs,
        )
  unfolding try_send Waker.wake_one
  try_send-alone me msg c cxs n = ground (arith, wake_first-NoneReady me c.receivers.entries cxs n)

  -- The packet of an entry that receives.
  awaited :
      (c : Channel A) (q : ℕ)
      → fillable (c.packets q) ≡ true
      → (p : Packet A) × (c.packets q ≡ some p) × (p.ready ≡ false) × (p.msg ≡ none)
  awaited c q h = elim (Option-cases (c.packets q)) [
    | inl e ↦ absurd (ground arith)
    | inr (p, e) ↦ elim (Option-cases p.msg) [
      | inl m ↦ (p, e, ground arith, m)
      | inr (x, m) ↦ absurd (ground arith)
    ]
  ]

  delivered-Inv :
      (msg : A) (c : Channel A) (p : Packet A) (xs ys : List Entry) (e : Entry)
      → Inv c
      → c.receivers.entries ≡ xs ++ (e ∷ ys)
      → c.packets e.packet ≡ some p
      → Inv (delivered msg e.packet p (xs ++ ys) c)
  delivered-Inv msg c p xs ys e i s q =
      assign-Inv (with_receivers c (record c.receivers { entries = xs ++ ys })) e.packet _
        (fewer-Inv c c.senders (record c.receivers { entries = xs ++ ys }) i (λ r. omega arith)
          (λ r. rw s (ground (arith, holds-split r xs ys e))))
        (ground arith) (ground (arith, i.once e.packet, s, holds-split e.packet xs ys e))

  -- No entry of another thread waits in the queue of receivers.
  abbrev pub Refuses : ℕ → A → Channel A → Contexts → Type 0
  Refuses me msg c cxs =
      NoneReady me cxs c.receivers.entries
      × (try_send me msg c cxs
          ≡ some (
            err (
                if c.is_disconnected then TrySendError.disconnected msg else TrySendError.full msg),
            c,
            cxs,
          ))

  -- The oldest entry of another thread that waits gets the message.
  abbrev pub Delivers : ℕ → A → Channel A → Contexts → Type 0
  Delivers me msg c cxs =
      (e : Entry) × (xs : List Entry) × (ys : List Entry) × (p : Packet A) × (c.receivers.entries
        ≡ xs ++ (e ∷ ys))
      × NoneReady me cxs xs
      × IsReady me cxs e
      × (c.packets e.packet ≡ some p)
      × (p.ready ≡ false)
      × (p.msg ≡ none)
      × (try_send me msg c cxs
          ≡ some (ok tt, delivered msg e.packet p (xs ++ ys) c, hand_over e cxs))
      × Inv (delivered msg e.packet p (xs ++ ys) c)

  -- On a channel whose packets are in order `try_send` does not panic. If no entry of another thread
  -- waits in the queue of receivers, it returns the message, as disconnected or full, and changes
  -- nothing. If one does, it returns `Ok`: the message is in the packet of the oldest such entry,
  -- which was empty and is ready now, its thread is woken with that packet, the entry has left the
  -- queue, and the packets are in order again.
  pub try_send-Delivers :
      (me : ℕ) (msg : A) (c : Channel A) (cxs : Contexts)
      → Inv c
      → Refuses me msg c cxs ⊎ Delivers me msg c cxs
  unfolding holds
  try_send-Delivers me msg c cxs i = elim (wake_first-cases me c.receivers.entries cxs) [
    | inl (none_ready, q) ↦ inl (none_ready, try_send-alone me msg c cxs none_ready)
    | inr (e, xs, ys, s, before, ready, q) ↦
        let has : 0 < holds e.packet c.receivers.entries =
          rw s (ground (arith, holds-split e.packet xs ys e)) in
        let (p, there, r, m) = awaited c e.packet (i.awaits e.packet has) in
        inr (
          e,
          xs,
          ys,
          p,
          s,
          before,
          ready,
          there,
          r,
          m,
          try_send-finds me msg c cxs (hand_over e cxs) e (xs ++ ys) p q (ground (arith, i.null))
              there,
          delivered-Inv msg c p xs ys e i s there,
        )
  ]
