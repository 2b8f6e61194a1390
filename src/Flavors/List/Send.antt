-- ===== src/Flavors/List/Send.antt =====
-- `start_send`, `write` and `try_send` of src/flavors/list.rs on a channel that holds a queue.
use crossbeam_channel.Common.{
  Succeeds, ℕ, ◌+◌, ◌*◌, ◌/◌, ◌%◌, ◌<◌, ◌≡◌, ◌≢◌, arith, Bool, true, false, ◌==◌, if◌then◌else◌,
  List, [], ◌∷◌, none, some, ok, length, set, assign,
}
use crossbeam_channel.Common.Word.{word, wrapping_sub}
use crossbeam_channel.Context.{Contexts}
use crossbeam_channel.Waker.Sync
use crossbeam_channel.Flavors.List.Chan.{
  Block, ListToken, Channel, Attempt, returns, spins, new_block, next_block, install_tail,
  send_attempt, send_loop, start_send, set_slot, write,
}
use crossbeam_channel.Flavors.List.Calls.{send, try_send}
use crossbeam_channel.Flavors.List.Cells.{cell, IsBlock, offset_lem, add_lem, start_lem}
use crossbeam_channel.Flavors.List.Holds.{Holds, link_of}

abbrev pub token_at : ℕ → ListToken
token_at p = record { slot = some (p / 32, p % 32); guard = true }

module _ {A : Type 0} where
  -- The channel after position `t`, in block `b`, has been claimed: within the block, and at its end.
  abbrev claimed_within : Channel A → ℕ → Channel A
  claimed_within c t = record c { tail_index = (t + 1) % word }

  abbrev pub claimed_last : Channel A → ℕ → Block A → Channel A
  claimed_last c t b = record c {
    tail_index = (t + 1) % word;
    tail_block = t / 32 + 1;
    blocks =
        assign (assign c.blocks (t / 32) (some (record b { next = some (t / 32 + 1) })))
          (t / 32 + 1) (some (new_block ((32 * (t / 32 + 1)) % word)));
    fresh = t / 32 + 1 + 1;
  }

  abbrev claimed : Channel A → ℕ → Block A → Channel A
  claimed c t b = if t % 32 == 31 then claimed_last c t b else claimed_within c t

  abbrev pub filled : ℕ → A → Block A → Block A
  filled t x b = record b { slots = set b.slots (t % 32) (record { msg = some x; ready = true }) }

  abbrev pub pushed_within : ℕ → ℕ → A → Block A → Channel A → Contexts → Channel A
  pushed_within me t x b c cxs = record c {
    tail_index = (t + 1) % word;
    blocks = assign c.blocks (t / 32) (some (filled t x b));
    receivers = (Sync.wake_one me c.receivers cxs).1;
  }

  abbrev pub pushed_last : ℕ → ℕ → A → Block A → Channel A → Contexts → Channel A
  pushed_last me t x b c cxs =
      let c' : Channel A = claimed_last c t b in
      record c' {
        blocks =
            assign c'.blocks (t / 32) (some (filled t x (record b { next = some (t / 32 + 1) })));
        receivers = (Sync.wake_one me c.receivers cxs).1;
      }

  module _ (h : ℕ) (q : List A) (c : Channel A) (v : Holds h q c) where
    module _ (b : Block A) (e : c.blocks ((h + length q) / 32) ≡ some b)
        (w : IsBlock
          (link_of ((h + length q) / 32) ((h + length q) / 32))
          (cell h q)
          ((h + length q) / 32)
          b) where
      no_link : b.next ≡ none
      no_link = ground (arith, w.link)

      offset : wrapping_sub c.tail_index b.start_index ≡ (h + length q) % 32
      offset = rw (v.tail_at, w.start) (offset_lem (h + length q))

      install_tail-Holds :
          install_tail ((h + length q) / 32) b (record c { tail_index = (h + length q + 1) % word })
          ≡ claimed_last c (h + length q) b
      unfolding install_tail next_block
      install_tail-Holds =
          ground (arith, v.tail_in, v.next_fresh, w.start, no_link, start_lem ((h + length q) / 32))

      send_attempt-Holds :
          (weak : Bool)
          → send_attempt weak c ≡ (
              let done : Attempt A =
                returns true (token_at (h + length q)) (claimed c (h + length q) b) in
              elim weak [ true ↦ spins c | false ↦ done ])
      unfolding send_attempt
      send_attempt-Holds weak = ground (
        arith,
        v.tail_in,
        e,
        offset,
        v.tail_at,
        add_lem (h + length q),
        install_tail-Holds,
        below,
      )
        where
          below : (h + length q) % 32 < 32
          below = omega arith

      send_loop-Holds :
          (rounds : List Bool)
          → Succeeds rounds
          → send_loop rounds c ≡ some (true, token_at (h + length q), claimed c (h + length q) b)
      unfolding send_loop
      send_loop-Holds [] s = absurd s
      send_loop-Holds (true ∷ rounds) s =
          ground (arith, send_attempt-Holds true, send_loop-Holds rounds s)
      send_loop-Holds (false ∷ rounds) s = ground (arith, send_attempt-Holds false)

      module _ (me : ℕ) (rounds : List Bool) (x : A) (cxs : Contexts)
          (d : c.is_disconnected ≡ false) (s : Succeeds rounds) where
        pub try_send-within :
            (h + length q) % 32 ≢ 31
            → try_send me rounds x c cxs
              ≡ some (
                ok tt,
                pushed_within me (h + length q) x b c cxs,
                (Sync.wake_one me c.receivers cxs).2,
              )
        unfolding try_send send start_send write set_slot
        try_send-within n = ground (arith, d, send_loop-Holds rounds s, e)

        pub try_send-last :
            (h + length q) % 32 ≡ 31
            → try_send me rounds x c cxs
              ≡ some (
                ok tt,
                pushed_last me (h + length q) x b c cxs,
                (Sync.wake_one me c.receivers cxs).2,
              )
        unfolding try_send send start_send write set_slot assign
        try_send-last n = ground (arith, d, send_loop-Holds rounds s, e)
