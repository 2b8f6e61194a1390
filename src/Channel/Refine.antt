-- ===== src/Channel/Refine.antt =====
-- The handles of src/channel.rs on a channel of any flavor that implements the queue.
use crossbeam_channel.Common.{
  ℕ, suc, ◌+◌, ◌≡◌, refl, arith, Bool, true, false, ◌||◌, ◌==◌, List, [], ◌∷◌, Option, some,
  Succeeds, Bool-cases, inl, inr, subst, sym, ◌∙◌, ◌-◌,
}
use crossbeam_channel.Common.Word.{wrapping_add, wrapping_sub}
use crossbeam_channel.Context.{Contexts}
use crossbeam_channel.Queue
use crossbeam_channel.Queue.{
  Queue, Call, send, recv, count, asks_empty, asks_full, disconnects, Reply, sent, received,
  counted, answered, closed,
}
use crossbeam_channel.Queue.Runs.{Invocation, Out, Implementation}
use crossbeam_channel.Channel.{
  Channel, ChannelFlavor, with_flavor, new_sender, new_receiver, disconnect,
}
use crossbeam_channel.Channel.Thread.{Thread}
use crossbeam_channel.Channel.Senders
use crossbeam_channel.Channel.Senders.{in_flavor}
use crossbeam_channel.Channel.Receivers
use crossbeam_channel.Channel.Actions.{call, act}
use crossbeam_channel.Channel.Pipe.{
  method, clone_sender, drop_sender, clone_receiver, drop_receiver, Pipe, queue_of, pipe_step,
  Allowed,
}

module _ {A : Type 0} (cast : ℕ → A) where
  step-queue_of :
      (cap : Option ℕ) (k : Call A) (p : Pipe A)
      → Allowed (method k) p
      → (Queue.step cap k (queue_of p)).1 ≡ queue_of (pipe_step cap (method k) p).1
  step-queue_of cap (send x) p h = ground arith
  step-queue_of cap recv p h = recv_from-queue_of p.items ((p.senders == 0) || (p.receivers == 0))
    where
      recv_from-queue_of :
          (xs : List A) (dead : Bool)
          → (Queue.recv_from xs dead).1
            ≡ record { items = (Queue.recv_from xs dead).1.items; dead = dead }
      recv_from-queue_of [] true = refl
      recv_from-queue_of [] false = refl
      recv_from-queue_of (x ∷ xs) dead = refl
  step-queue_of cap count p h = refl
  step-queue_of cap asks_empty p h = refl
  step-queue_of cap asks_full p h = refl
  step-queue_of cap disconnects p h = absurd h

  -- A flavor whose channel implements the queue, and the methods of the handles that come to those of
  -- that channel.
  module _ {C : Type 0} {cap : Option ℕ} {perform : Invocation A → C → Contexts → Out A C}
      (impl : Implementation A C cap perform) (wrap : C → ChannelFlavor A)
      (weaken : (n : ℕ) (s : Queue A) (c : C) → impl.Models (suc n) s c → impl.Models n s c)
      (link : (t : Thread A) (k : Call A) (c : Channel A) (chan : C) (cxs : Contexts)
        → c.flavor ≡ wrap chan
        → call cast t k c cxs
          ≡ in_flavor wrap c
              (perform (record { me = t.me; rounds = t.rounds; call = k }) chan cxs)) where
    abbrev pub Stands : ℕ → Pipe A → Channel A → Type 0
    Stands n p c =
        (c.senders ≡ p.senders)
        × (c.receivers ≡ p.receivers)
        × ((chan : C) × (c.flavor ≡ wrap chan) × impl.Models n (queue_of p) chan)

    pub method-Agrees :
        (n : ℕ) (t : Thread A) (k : Call A) (p : Pipe A) (c : Channel A) (cxs : Contexts)
        → Succeeds t.rounds
        → Allowed (method k) p
        → Stands (suc n) p c
        → (c' : Channel A) × (cxs' : Contexts) × (call cast t k c cxs
            ≡ some ((pipe_step cap (method k) p).0, c', cxs'))
          × Stands n (pipe_step cap (method k) p).1 c'
    method-Agrees n t k p c cxs live ok (es, er, (chan, f, m)) =
        let (chan', cxs', e, m') =
          impl.agrees n (record { me = t.me; rounds = t.rounds; call = k }) (queue_of p) chan cxs
            live m in
        (
          with_flavor c (wrap chan'),
          cxs',
          rw (link t k c chan cxs f, e) refl,
          (es, er, (chan', refl, subst (λ s. impl.Models n s chan') (step-queue_of cap k p ok) m')),
        )

    disconnects-Agrees :
        (n : ℕ) (t : Thread A) (p : Pipe A) (c : Channel A) (cxs : Contexts)
        → Succeeds t.rounds
        → Stands (suc n) p c
        → (chan : C) × (cxs' : Contexts) × (disconnect c.flavor cxs ≡ (wrap chan, cxs'))
          × impl.Models n (record { items = p.items; dead = true }) chan
    unfolding call
    disconnects-Agrees n t p c cxs live (es, er, (chan, f, m)) =
        let (chan', cxs', e, m') =
          impl.agrees n (record { me = t.me; rounds = t.rounds; call = disconnects }) (queue_of p)
            chan cxs live m in
        (chan', cxs', ground (arith, link t disconnects c chan cxs f, e), m')

    -- The clone or the drop of a handle that is not the last.
    keeps-Stands :
        (n : ℕ) (p q : Pipe A) (c d : Channel A)
        → Stands (suc n) p c
        → d.flavor ≡ c.flavor
        → d.senders ≡ q.senders
        → d.receivers ≡ q.receivers
        → queue_of q ≡ queue_of p
        → Stands n q d
    keeps-Stands n p q c d (es, er, (chan, f, m)) g s r e = (
      s,
      r,
      (chan, g ∙ f, subst (λ t. impl.Models n t chan) (sym e) (weaken n (queue_of p) chan m)),
    )

    pub drop_sender-Agrees :
        (n : ℕ) (t : Thread A) (p : Pipe A) (c : Channel A) (cxs : Contexts)
        → Succeeds t.rounds
        → Allowed drop_sender p
        → Stands (suc n) p c
        → (c' : Channel A) × (cxs' : Contexts) × (act cast
              (record { thread = t; use_of = drop_sender })
              c
              cxs
            ≡ some (closed, c', cxs'))
          × Stands n (record p { senders = p.senders - 1 }) c'
    unfolding act Senders.drop
    drop_sender-Agrees n t p c cxs live (some_there, few) st = elim (Bool-cases (c.senders == 1)) [
      | inr others ↦ (
        record c { senders = wrapping_sub c.senders 1 },
        cxs,
        ground arith,
        keeps-Stands n p (record p { senders = p.senders - 1 }) c
            (record c { senders = wrapping_sub c.senders 1 }) st refl (ground (arith, st.0)) st.1
            (ground (arith, st.0)),
      )
      | inl last ↦
          let (chan, cxs', e, m) = disconnects-Agrees n t p c cxs live st in
          (
            record c { senders = wrapping_sub c.senders 1; flavor = wrap chan },
            cxs',
            ground (arith, e),
            (
              ground (arith, st.0),
              st.1,
              (chan, refl, subst (λ s. impl.Models n s chan) (ground (arith, st.0)) m),
            ),
          )
    ]

    pub drop_receiver-Agrees :
        (n : ℕ) (t : Thread A) (p : Pipe A) (c : Channel A) (cxs : Contexts)
        → Succeeds t.rounds
        → Allowed drop_receiver p
        → Stands (suc n) p c
        → (c' : Channel A) × (cxs' : Contexts) × (act cast
              (record { thread = t; use_of = drop_receiver })
              c
              cxs
            ≡ some (closed, c', cxs'))
          × Stands n (record p { receivers = p.receivers - 1 }) c'
    unfolding act Receivers.drop
    drop_receiver-Agrees n t p c cxs live (some_there, few) st =
        elim (Bool-cases (c.receivers == 1)) [
          | inr others ↦ (
            record c { receivers = wrapping_sub c.receivers 1 },
            cxs,
            ground arith,
            keeps-Stands n p (record p { receivers = p.receivers - 1 }) c
                (record c { receivers = wrapping_sub c.receivers 1 }) st refl st.0
                (ground (arith, st.1)) (ground (arith, st.1)),
          )
          | inl last ↦
              let (chan, cxs', e, m) = disconnects-Agrees n t p c cxs live st in
              (
                record c { receivers = wrapping_sub c.receivers 1; flavor = wrap chan },
                cxs',
                ground (arith, e),
                (
                  st.0,
                  ground (arith, st.1),
                  (chan, refl, subst (λ s. impl.Models n s chan) (ground (arith, st.1)) m),
                ),
              )
        ]

    pub clone_sender-Agrees :
        (n : ℕ) (t : Thread A) (p : Pipe A) (c : Channel A) (cxs : Contexts)
        → Allowed clone_sender p
        → Stands (suc n) p c
        → (c' : Channel A) × (cxs' : Contexts) × (act cast
              (record { thread = t; use_of = clone_sender })
              c
              cxs
            ≡ some (closed, c', cxs'))
          × Stands n (record p { senders = p.senders + 1 }) c'
    unfolding act Senders.clone new_sender
    clone_sender-Agrees n t p c cxs (some_there, few) st = (
      record c { senders = wrapping_add c.senders 1 },
      cxs,
      ground (arith, st.0),
      keeps-Stands n p (record p { senders = p.senders + 1 }) c
          (record c { senders = wrapping_add c.senders 1 }) st refl (ground (arith, st.0)) st.1
          (ground arith),
    )

    pub clone_receiver-Agrees :
        (n : ℕ) (t : Thread A) (p : Pipe A) (c : Channel A) (cxs : Contexts)
        → Allowed clone_receiver p
        → Stands (suc n) p c
        → (c' : Channel A) × (cxs' : Contexts) × (act cast
              (record { thread = t; use_of = clone_receiver })
              c
              cxs
            ≡ some (closed, c', cxs'))
          × Stands n (record p { receivers = p.receivers + 1 }) c'
    unfolding act Receivers.clone new_receiver
    clone_receiver-Agrees n t p c cxs (some_there, few) st = (
      record c { receivers = wrapping_add c.receivers 1 },
      cxs,
      ground (arith, st.1),
      keeps-Stands n p (record p { receivers = p.receivers + 1 }) c
          (record c { receivers = wrapping_add c.receivers 1 }) st refl st.0 (ground (arith, st.1))
          (ground arith),
    )
