-- ===== src/Flavors/Zero/Safe.antt =====
-- The operations of src/flavors/zero.rs keep the packets of the two queues apart and in their states.
use crossbeam_channel.Common.{ℕ, ◌+◌, ◌≤◌, ◌≡◌, refl, arith, true, [], ◌∷◌, Option, some, assign}
use crossbeam_channel.Waker
use crossbeam_channel.Waker.{Entry, Waker}
use crossbeam_channel.Waker.Queue.{entry}
use crossbeam_channel.Flavors.Zero.Packets
use crossbeam_channel.Flavors.Zero.Packets.{Packet, Channel, allocate, free, put}
use crossbeam_channel.Flavors.Zero.Chan.{with_senders, with_receivers, enqueue_send, enqueue_recv}
use crossbeam_channel.Flavors.Zero.Owned.{holds, holds-append, full, sendable, fillable, Inv}

module _ {A : Type 0} where
  -- A new channel has no packets.
  pub new-Inv : Inv (Packets.new {A = A})
  unfolding Packets.new Waker.new holds
  new-Inv = record {
    once = λ p. omega arith;
    offers = λ p h. absurd (omega arith);
    awaits = λ p h. absurd (omega arith);
    later = λ p h. refl;
    null = refl;
    start = omega arith;
  }

  holds-fresh :
      (c : Channel A) (p : ℕ)
      → Inv c
      → c.fresh ≤ p
      → holds p c.senders.entries + holds p c.receivers.entries ≡ 0
  holds-fresh c p i h = ground (arith, i.offers p, i.awaits p, i.later p h)

  pub enqueue_send-Inv :
      (oper cx : ℕ) (p : Packet A) (c : Channel A)
      → Inv c
      → sendable (some p) ≡ true
      → Inv (enqueue_send oper cx p c).1
  unfolding enqueue_send Waker.register_with_packet assign holds
  enqueue_send-Inv oper cx p c i s = record {
    once = λ q. ground (
      arith,
      holds-append q c.senders.entries (entry oper c.fresh cx ∷ []),
      i.once q,
      holds-fresh c q i,
    );
    offers = λ q h.
        ground (arith, holds-append q c.senders.entries (entry oper c.fresh cx ∷ []), i.offers q);
    awaits = λ q h. ground (arith, i.awaits q h, holds-fresh c q i);
    later = λ q h. ground (arith, i.later q);
    null = ground (arith, i.null, i.start);
    start = omega arith;
  }

  pub enqueue_recv-Inv :
      (oper cx : ℕ) (p : Packet A) (c : Channel A)
      → Inv c
      → fillable (some p) ≡ true
      → Inv (enqueue_recv oper cx p c).1
  unfolding enqueue_recv Waker.register_with_packet assign holds
  enqueue_recv-Inv oper cx p c i s = record {
    once = λ q. ground (
      arith,
      holds-append q c.receivers.entries (entry oper c.fresh cx ∷ []),
      i.once q,
      holds-fresh c q i,
    );
    offers = λ q h. ground (arith, i.offers q h, holds-fresh c q i);
    awaits = λ q h.
        ground (arith, holds-append q c.receivers.entries (entry oper c.fresh cx ∷ []), i.awaits q);
    later = λ q h. ground (arith, i.later q);
    null = ground (arith, i.null, i.start);
    start = omega arith;
  }

  -- The queues may lose entries.
  pub fewer-Inv :
      (c : Channel A) (s r : Waker)
      → Inv c
      → ((p : ℕ) → holds p s.entries ≤ holds p c.senders.entries)
      → ((p : ℕ) → holds p r.entries ≤ holds p c.receivers.entries)
      → Inv (with_senders (with_receivers c r) s)
  fewer-Inv c s r i hs hr = record {
    once = λ p. ground (arith, i.once p, hs p, hr p);
    offers = λ p h. i.offers p (ground (arith, hs p));
    awaits = λ p h. i.awaits p (ground (arith, hr p));
    later = i.later;
    null = i.null;
    start = i.start;
  }

  -- A packet that is there and that no entry has may change or be dropped.
  pub assign-Inv :
      (c : Channel A) (q : ℕ) (x : Option (Packet A))
      → Inv c
      → full (c.packets q) ≡ true
      → holds q c.senders.entries + holds q c.receivers.entries ≡ 0
      → Inv (record c { packets = assign c.packets q x })
  unfolding assign
  assign-Inv c q x i there h = record {
    once = i.once;
    offers = λ p l. ground (arith, i.offers p l);
    awaits = λ p l. ground (arith, i.awaits p l);
    later = λ p l. ground (arith, i.later p l);
    null = ground (arith, i.null);
    start = i.start;
  }
