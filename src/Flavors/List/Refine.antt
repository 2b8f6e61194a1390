-- ===== src/Flavors/List/Refine.antt =====
-- The channel of src/flavors/list.rs behaves as the queue, without a bound, of the messages that it
-- holds.
use native.Mathlib.Decide.{ℕ_discrete}
use crossbeam_channel.Common.{
  ℕ, suc, ◌+◌, ◌/◌, ◌%◌, ◌<◌, ◌≡◌, refl, ap, arith, Bool, true, false, List, [], ◌∷◌, ◌++◌, none,
  some, err, length, map, inl, inr, Bool-cases, Succeeds, assign, length-append,
}
use crossbeam_channel.Common.Word.{word}
use crossbeam_channel.Context.{Contexts}
use crossbeam_channel.Waker.Sync
use crossbeam_channel.Err.{TrySendError}
use crossbeam_channel.Queue
use crossbeam_channel.Queue.{
  Queue, Call, send, recv, count, asks_empty, asks_full, disconnects, Reply, sent, received,
  counted, answered, closed,
}
use crossbeam_channel.Queue.Runs.{
  Invocation, AllSucceed, Out, Agrees, Implementation, run_calls, run_calls-run,
}
use crossbeam_channel.Flavors.List.Chan.{Channel, new, start_send, write}
use crossbeam_channel.Flavors.List.Calls
use crossbeam_channel.Flavors.List.Calls.{try_send, try_recv}
use crossbeam_channel.Flavors.List.Query.{len, is_empty, is_full, disconnect}
use crossbeam_channel.Flavors.List.Cells.{cell, new_block-IsBlock}
use crossbeam_channel.Flavors.List.Holds.{Holds}
use crossbeam_channel.Flavors.List.Send.{pushed_within, pushed_last, try_send-within, try_send-last}
use crossbeam_channel.Flavors.List.Push.{pushed_within-Holds, pushed_last-Holds}
use crossbeam_channel.Flavors.List.Recv.{popped, popped-Holds, try_recv-some, try_recv-none}
use crossbeam_channel.Flavors.List.QueryLaws.{len-eq, is_empty-eq}

module _ {A : Type 0} where
  -- The method that a call stands for.
  unfoldable pub call : ℕ → List Bool → Call A → Channel A → Contexts → Out A (Channel A)
  call me rounds (send x) c cxs = elim (try_send me rounds x c cxs) [
    | none ↦ none
    | some (r, c', cxs') ↦ some (sent r, c', cxs')
  ]
  call me rounds recv c cxs = elim (try_recv rounds c) [
    | none ↦ none
    | some (r, c') ↦ some (received r, c', cxs)
  ]
  call me rounds count c cxs = some (counted (len c), c, cxs)
  call me rounds asks_empty c cxs = some (answered (is_empty c), c, cxs)
  call me rounds asks_full c cxs = some (answered (is_full c), c, cxs)
  call me rounds disconnects c cxs = let (c', cxs') = disconnect c cxs in some (closed, c', cxs')

  unfoldable pub perform : Invocation A → Channel A → Contexts → Out A (Channel A)
  unfolding call
  perform i c cxs = call i.me i.rounds i.call c cxs

  -- The channel holds the queue, and is disconnected if the queue is.
  pub record Models (s : Queue A) (c : Channel A) : Type 0 where
    pub first : ℕ
    pub holds : Holds first s.items c
    pub dead : c.is_disconnected ≡ s.dead

  -- And `n` more messages would still be fewer than 2 ^ 64.
  abbrev pub Stands : ℕ → Queue A → Channel A → Type 0
  Stands n s c = Models s c × (length s.items + n < word)

  -- A disconnected channel gives the message back and stays as it is.
  pub try_send-disconnected :
      (me : ℕ) (rounds : List Bool) (x : A) (c : Channel A) (cxs : Contexts)
      → c.is_disconnected ≡ true
      → try_send me rounds x c cxs ≡ some (err (TrySendError.disconnected x), c, cxs)
  unfolding try_send Calls.send start_send write
  try_send-disconnected me rounds x c cxs d = ground arith

  send-Agrees :
      (n me : ℕ) (rounds : List Bool) (x : A) (xs : List A) (dead : Bool) (h : ℕ) (c : Channel A)
      (cxs : Contexts)
      → Succeeds rounds
      → Holds h xs c
      → c.is_disconnected ≡ dead
      → length xs + suc n < word
      → Agrees
          (Stands n)
          (Queue.send_to none x (record { items = xs; dead = dead }))
          (call me rounds (send x) c cxs)
  unfolding call
  send-Agrees n me rounds x xs true h c cxs live v d room = (
    c,
    cxs,
    ground (arith, try_send-disconnected me rounds x c cxs d),
    (record { first = h; holds = v; dead = d }, omega arith),
  )
  send-Agrees n me rounds x xs false h c cxs live v d room =
      let (b, e, w) = v.block_at ((h + length xs) / 32) (omega arith) (omega arith) in
      let fits : length (xs ++ (x ∷ [])) + n < word = omega (arith, length-append xs (x ∷ [])) in
      elim (ℕ_discrete ((h + length xs) % 32) 31) [
        | yes last ↦ (
          pushed_last me (h + length xs) x b c cxs,
          (Sync.wake_one me c.receivers cxs).2,
          ground (arith, try_send-last h xs c v b e w me rounds x cxs d live last),
          (
            record { first = h; holds = pushed_last-Holds h xs x c v b w me cxs last; dead = d },
            fits,
          ),
        )
        | no within ↦ (
          pushed_within me (h + length xs) x b c cxs,
          (Sync.wake_one me c.receivers cxs).2,
          ground (arith, try_send-within h xs c v b e w me rounds x cxs d live within),
          (
            record {
              first = h;
              holds = pushed_within-Holds h xs x c v b w me cxs within;
              dead = d;
            },
            fits,
          ),
        )
      ]

  recv-Agrees :
      (n me : ℕ) (rounds : List Bool) (xs : List A) (dead : Bool) (h : ℕ) (c : Channel A)
      (cxs : Contexts)
      → Succeeds rounds
      → Holds h xs c
      → c.is_disconnected ≡ dead
      → length xs + suc n < word
      → Agrees (Stands n) (Queue.recv_from xs dead) (call me rounds recv c cxs)
  unfolding call
  recv-Agrees n me rounds [] true h c cxs live v d room = (
    c,
    cxs,
    ground (arith, try_recv-none h c v rounds live),
    (record { first = h; holds = v; dead = d }, omega arith),
  )
  recv-Agrees n me rounds [] false h c cxs live v d room = (
    c,
    cxs,
    ground (arith, try_recv-none h c v rounds live),
    (record { first = h; holds = v; dead = d }, omega arith),
  )
  recv-Agrees n me rounds (x ∷ xs) dead h c cxs live v d room =
      let (b, e, w) = v.block_at (h / 32) (omega arith) (omega arith) in
      (
        popped c h b,
        cxs,
        ground (arith, try_recv-some h x xs c v b e w rounds live),
        (
          record { first = h + 1; holds = popped-Holds h x xs c v b e w; dead = ground (arith, d) },
          omega arith,
        ),
      )

  -- The flag has no part in what the channel holds.
  same_blocks :
      {h : ℕ} {xs : List A} {c : Channel A}
      → Holds h xs c
      → Holds h xs (record c { is_disconnected = true })
  same_blocks v = record {
    head_at = v.head_at;
    tail_at = v.tail_at;
    head_in = v.head_in;
    tail_in = v.tail_in;
    next_fresh = v.next_fresh;
    block_at = v.block_at;
  }

  disconnect-Agrees :
      (n me : ℕ) (rounds : List Bool) (s : Queue A) (c : Channel A) (cxs : Contexts)
      → Models s c
      → length s.items + n < word
      → Agrees (Stands n) (closed, record s { dead = true }) (call me rounds disconnects c cxs)
  unfolding call disconnect
  disconnect-Agrees n me rounds s c cxs m room = elim (Bool-cases c.is_disconnected) [
    | inl d ↦ (c, cxs, ground arith, (record { first = m.first; holds = m.holds; dead = d }, room))
    | inr d ↦ (
      record c { is_disconnected = true },
      Sync.disconnect c.receivers cxs,
      ground arith,
      (record { first = m.first; holds = same_blocks m.holds; dead = refl }, room),
    )
  ]

  call-Agrees :
      (n me : ℕ) (rounds : List Bool) (op : Call A) (s : Queue A) (c : Channel A) (cxs : Contexts)
      → Succeeds rounds
      → Stands (suc n) s c
      → Agrees (Stands n) (Queue.step none op s) (call me rounds op c cxs)
  unfolding call is_full
  call-Agrees n me rounds (send x) s c cxs live (m, r) =
      send-Agrees n me rounds x s.items s.dead m.first c cxs live m.holds m.dead r
  call-Agrees n me rounds recv s c cxs live (m, r) =
      recv-Agrees n me rounds s.items s.dead m.first c cxs live m.holds m.dead r
  call-Agrees n me rounds count s c cxs live (m, r) =
      (c, cxs, ap (λ n. some (counted n, c, cxs)) (len-eq m.holds (omega arith)), (m, omega arith))
  call-Agrees n me rounds asks_empty s c cxs live (m, r) = (
    c,
    cxs,
    ap (λ b. some (answered b, c, cxs)) (is_empty-eq m.holds (omega arith)),
    (m, omega arith),
  )
  call-Agrees n me rounds asks_full s c cxs live (m, r) = (c, cxs, refl, (m, omega arith))
  call-Agrees n me rounds disconnects s c cxs live (m, r) =
      disconnect-Agrees n me rounds s c cxs m (omega arith)

  pub perform-Agrees :
      (n : ℕ) (i : Invocation A) (s : Queue A) (c : Channel A) (cxs : Contexts)
      → Succeeds i.rounds
      → Stands (suc n) s c
      → Agrees (Stands n) (Queue.step none i.call s) (perform i c cxs)
  unfolding perform
  perform-Agrees n i s c cxs live m = call-Agrees n i.me i.rounds i.call s c cxs live m

  -- The channel implements the queue without a bound, while it can take all messages to come.
  abbrev pub implementation : Implementation A (Channel A) none perform
  implementation = record { Models = Stands; agrees = perform-Agrees }

  -- Any calls in a row on a channel that holds a queue, by any threads, each with a round of its
  -- loop that does not fail spuriously, as long as there would be fewer than 2 ^ 64 messages if
  -- every call sent one: every call returns, the replies are those of the queue without a bound,
  -- and the channel ends up holding the messages of that queue.
  pub run-refines-Unbounded :
      (is : List (Invocation A)) (s : Queue A) (c : Channel A) (cxs : Contexts)
      → AllSucceed is
      → Models s c
      → length s.items + length is < word
      → let (replies, end) = Queue.run none (map (λ i. i.call) is) s in
        (c' : Channel A) × (cxs' : Contexts) × (run_calls perform is c cxs
          ≡ some (replies, c', cxs'))
        × Models end c'
  run-refines-Unbounded is s c cxs live m room =
      let (c', cxs', e, (m', r)) = run_calls-run perform implementation is s c cxs live (m, room) in
      (c', cxs', e, m')

-- A new channel holds no message.
pub new-Holds : (A : Type 0) → Holds {A = A} 0 [] new
unfolding new assign cell
new-Holds A = record {
  head_at = refl;
  tail_at = refl;
  head_in = refl;
  tail_in = refl;
  next_fresh = refl;
  block_at = λ j le lt.
      let z : j ≡ 0 = omega arith in
      rw z (_, refl, new_block-IsBlock (cell 0 []) 0 (λ o l. ground arith));
}
