-- ===== src/Flavors/Array/Refine.antt =====
-- The channel of src/flavors/array.rs behaves as the bounded queue of the messages that it holds.
use native.Mathlib.Decide.{ℕ_discrete}
use crossbeam_channel.Common.{
  Succeeds, ℕ, ◌+◌, ◌<◌, ◌≡◌, refl, ap, arith, subst, Bool, true, false, List, [], ◌∷◌, none, some,
  length, inl, inr, map, Bool-cases, eqb_of_ne, eqb_of_eq,
}
use crossbeam_channel.Context.{Contexts}
use crossbeam_channel.Waker.Sync
use crossbeam_channel.Queue
use crossbeam_channel.Queue.Runs.{
  Invocation, AllSucceed, Out, Agrees, Implementation, run_calls, run_calls-run,
}
use crossbeam_channel.Queue.{
  Queue, Call, send, recv, count, asks_empty, asks_full, disconnects, Reply, sent, received,
  counted, answered, closed,
}
use crossbeam_channel.Flavors.Array.Chan.{Channel, try_send, try_recv}
use crossbeam_channel.Flavors.Array.Query.{len, is_empty, is_full, disconnect}
use crossbeam_channel.Flavors.Array.Holds.{Holds}
use crossbeam_channel.Flavors.Array.Send.{
  pushed, pushed-Holds, try_send-room, try_send-full, try_send-disconnected,
}
use crossbeam_channel.Flavors.Array.Recv.{popped, popped-Holds, try_recv-some, try_recv-none}
use crossbeam_channel.Flavors.Array.QueryLaws.{len-length, is_empty-eq, is_full-eq}

module _ {A : Type 0} where
  -- The method that a call stands for.
  unfoldable pub call : ℕ → List Bool → Call A → Channel A → Contexts → Out A (Channel A)
  call me rounds (send x) c cxs = elim (try_send me rounds x c cxs) [
    | none ↦ none
    | some (r, c', cxs') ↦ some (sent r, c', cxs')
  ]
  call me rounds recv c cxs = elim (try_recv me rounds c cxs) [
    | none ↦ none
    | some (r, c', cxs') ↦ some (received r, c', cxs')
  ]
  call me rounds count c cxs = some (counted (len c), c, cxs)
  call me rounds asks_empty c cxs = some (answered (is_empty c), c, cxs)
  call me rounds asks_full c cxs = some (answered (is_full c), c, cxs)
  call me rounds disconnects c cxs = let (c', cxs') = disconnect c cxs in some (closed, c', cxs')

  unfoldable pub perform : Invocation A → Channel A → Contexts → Out A (Channel A)
  unfolding call
  perform i c cxs = call i.me i.rounds i.call c cxs

  -- The channel holds the queue, and is disconnected if the queue is.
  pub record Models (s : Queue A) (c : Channel A) : Type 0 where
    pub lap : ℕ
    pub first : ℕ
    pub holds : Holds lap first s.items c
    pub dead : c.is_disconnected ≡ s.dead

  -- And has the capacity.
  abbrev pub Stands : ℕ → Queue A → Channel A → Type 0
  Stands cap s c = Models s c × (c.cap ≡ cap)

  send-Agrees :
      (me : ℕ) (rounds : List Bool) (x : A) (xs : List A) (dead : Bool) (k h : ℕ) (c : Channel A)
      (cxs : Contexts)
      → Succeeds rounds
      → Holds k h xs c
      → c.is_disconnected ≡ dead
      → Agrees
          (Stands c.cap)
          (Queue.send_to (some c.cap) x (record { items = xs; dead = dead }))
          (call me rounds (send x) c cxs)
  unfolding call
  send-Agrees me rounds x xs true k h c cxs live v d = (
    c,
    cxs,
    ground (arith, try_send-disconnected me rounds x c cxs d),
    (record { lap = k; first = h; holds = v; dead = d }, refl),
  )
  send-Agrees me rounds x xs false k h c cxs live v d = elim (ℕ_discrete (length xs) c.cap) [
    | yes e ↦ rw (eqb_of_eq e) (
      c,
      cxs,
      ground (arith, try_send-full v me rounds x cxs d e live),
      (record { lap = k; first = h; holds = v; dead = d }, refl),
    )
    | no n ↦
        let lt : length xs < c.cap = omega (arith, v.room) in
        rw (eqb_of_ne n) (
          pushed me k h xs x c cxs,
          (Sync.wake_one me c.receivers cxs).2,
          ground (arith, try_send-room v me rounds x cxs d lt live),
          (record { lap = k; first = h; holds = pushed-Holds v me x cxs lt; dead = d }, refl),
        )
  ]

  recv-Agrees :
      (me : ℕ) (rounds : List Bool) (xs : List A) (dead : Bool) (k h : ℕ) (c : Channel A)
      (cxs : Contexts)
      → Succeeds rounds
      → Holds k h xs c
      → c.is_disconnected ≡ dead
      → Agrees (Stands c.cap) (Queue.recv_from xs dead) (call me rounds recv c cxs)
  unfolding call
  recv-Agrees me rounds [] true k h c cxs live v d = (
    c,
    cxs,
    ground (arith, try_recv-none v me rounds cxs live),
    (record { lap = k; first = h; holds = v; dead = d }, refl),
  )
  recv-Agrees me rounds [] false k h c cxs live v d = (
    c,
    cxs,
    ground (arith, try_recv-none v me rounds cxs live),
    (record { lap = k; first = h; holds = v; dead = d }, refl),
  )
  recv-Agrees me rounds (x ∷ xs) dead k h c cxs live v d = (
    popped me k h c cxs,
    (Sync.wake_one me c.senders cxs).2,
    ground (arith, try_recv-some v me rounds cxs live),
    (record { lap = k; first = h + 1; holds = popped-Holds v me cxs; dead = d }, refl),
  )

  -- The flag has no part in what the channel holds.
  same_slots :
      {k h : ℕ} {xs : List A} {c : Channel A}
      → Holds k h xs c
      → Holds k h xs (record c { is_disconnected = true })
  same_slots v = record {
    lap = v.lap;
    fits = v.fits;
    size = v.size;
    room = v.room;
    head_at = v.head_at;
    tail_at = v.tail_at;
    full_at = v.full_at;
    free_at = v.free_at;
  }

  disconnect-Agrees :
      (me : ℕ) (rounds : List Bool) (s : Queue A) (c : Channel A) (cxs : Contexts)
      → Models s c
      → Agrees (Stands c.cap) (closed, record s { dead = true }) (call me rounds disconnects c cxs)
  unfolding call disconnect
  disconnect-Agrees me rounds s c cxs m = elim (Bool-cases c.is_disconnected) [
    | inl d ↦ (
      c,
      cxs,
      ground arith,
      (record { lap = m.lap; first = m.first; holds = m.holds; dead = d }, refl),
    )
    | inr d ↦ (
      record c { is_disconnected = true },
      Sync.disconnect c.receivers (Sync.disconnect c.senders cxs),
      ground arith,
      (record { lap = m.lap; first = m.first; holds = same_slots m.holds; dead = refl }, refl),
    )
  ]

  -- A query leaves the channel alone.
  query-Agrees :
      (reply : Reply A) (s : Queue A) (c : Channel A) (cxs : Contexts) (out : Out A (Channel A))
      → Models s c
      → out ≡ some (reply, c, cxs)
      → Agrees (Stands c.cap) (reply, s) out
  query-Agrees reply s c cxs out m e = (c, cxs, e, (m, refl))

  call-Agrees :
      (me : ℕ) (rounds : List Bool) (op : Call A) (s : Queue A) (c : Channel A) (cxs : Contexts)
      → Succeeds rounds
      → Models s c
      → Agrees (Stands c.cap) (Queue.step (some c.cap) op s) (call me rounds op c cxs)
  unfolding call
  call-Agrees me rounds (send x) s c cxs live m =
      send-Agrees me rounds x s.items s.dead m.lap m.first c cxs live m.holds m.dead
  call-Agrees me rounds recv s c cxs live m =
      recv-Agrees me rounds s.items s.dead m.lap m.first c cxs live m.holds m.dead
  call-Agrees me rounds count s c cxs live m =
      query-Agrees _ s c cxs _ m (ap (λ n. some (counted n, c, cxs)) (len-length m.holds))
  call-Agrees me rounds asks_empty s c cxs live m =
      query-Agrees _ s c cxs _ m (ap (λ b. some (answered b, c, cxs)) (is_empty-eq m.holds))
  call-Agrees me rounds asks_full s c cxs live m =
      query-Agrees _ s c cxs _ m (ap (λ b. some (answered b, c, cxs)) (is_full-eq m.holds))
  call-Agrees me rounds disconnects s c cxs live m = disconnect-Agrees me rounds s c cxs m

  pub perform-Agrees :
      (cap : ℕ) (i : Invocation A) (s : Queue A) (c : Channel A) (cxs : Contexts)
      → Succeeds i.rounds
      → Stands cap s c
      → Agrees (Stands cap) (Queue.step (some cap) i.call s) (perform i c cxs)
  unfolding perform
  perform-Agrees cap i s c cxs live (m, e) =
      subst
        (λ t. Agrees (Stands t) (Queue.step (some t) i.call s) (call i.me i.rounds i.call c cxs)) e
        (call-Agrees i.me i.rounds i.call s c cxs live m)

  -- The channel of capacity `cap` implements the queue of capacity `cap`, however many calls follow.
  abbrev pub implementation : (cap : ℕ) → Implementation A (Channel A) (some cap) perform
  implementation cap = record {
    Models = λ n. Stands cap;
    agrees = λ n i s c cxs live m. perform-Agrees cap i s c cxs live m;
  }

  -- Any calls in a row on a channel that holds a queue, by any threads, each with a round of its
  -- loop that does not fail spuriously: every call returns, the replies are those of the bounded
  -- queue, and the channel ends up holding the messages of that queue, with its capacity.
  pub run-refines-Queue :
      (is : List (Invocation A)) (s : Queue A) (c : Channel A) (cxs : Contexts)
      → AllSucceed is
      → Models s c
      → let (replies, end) = Queue.run (some c.cap) (map (λ i. i.call) is) s in
        (c' : Channel A) × (cxs' : Contexts) × (run_calls perform is c cxs
          ≡ some (replies, c', cxs'))
        × (Models end c' × (c'.cap ≡ c.cap))
  run-refines-Queue is s c cxs live m =
      run_calls-run perform (implementation c.cap) is s c cxs live (m, refl)
