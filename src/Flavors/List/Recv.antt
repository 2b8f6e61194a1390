-- ===== src/Flavors/List/Recv.antt =====
-- `start_recv`, `read` and `try_recv` of src/flavors/list.rs on a channel that holds a queue.
use native.Mathlib.Decide.{ℕ_discrete}
use crossbeam_channel.Common.{
  Succeeds, ℕ, ◌+◌, ◌-◌, ◌*◌, ◌/◌, ◌%◌, ◌<◌, ◌≡◌, ◌≢◌, sym, ◌∙◌, arith, Bool, true, false, ◌==◌,
  if◌then◌else◌, List, [], ◌∷◌, Option, none, some, ok, err, length, get_elem?, set, assign,
  assign_self, assign_ne,
}
use crossbeam_channel.Common.Word.{word, wrapping_sub}
use crossbeam_channel.Err.{TryRecvError, empty}
use crossbeam_channel.Flavors.List.Chan.{
  Slot, Block, ListToken, Channel, Attempt, returns, spins, null_token, next_block, install_head,
  recv_attempt, recv_loop, start_recv, slot_at, set_slot, read,
}
use crossbeam_channel.Flavors.List.Calls.{try_recv}
use crossbeam_channel.Flavors.List.Cells.{
  vacant, cell, IsBlock, cells-IsBlock, set-IsBlock, offset_lem, add_lem, cell-tail,
}
use crossbeam_channel.Flavors.List.Holds.{Holds, link_of}
use crossbeam_channel.Flavors.List.Send.{token_at}

module _ {A : Type 0} where
  abbrev spent : Slot A
  spent = record { msg = none; ready = true }

  abbrev pub emptied : ℕ → Block A → Block A
  emptied h b = record b { slots = set b.slots (h % 32) spent }

  -- The channel after position `h` has been claimed: within its block, and at its end.
  abbrev claimed_within : Channel A → ℕ → Channel A
  claimed_within c h = record c { head_index = (h + 1) % word }

  abbrev claimed_last : Channel A → ℕ → Channel A
  claimed_last c h = record c {
    head_index = (h + 1) % word;
    head_block = h / 32 + 1;
    garbage = h / 32 ∷ c.garbage;
  }

  abbrev claimed : Channel A → ℕ → Channel A
  claimed c h = if h % 32 == 31 then claimed_last c h else claimed_within c h

  -- And after its message has been read.
  abbrev pub popped : Channel A → ℕ → Block A → Channel A
  popped c h b = record (claimed c h) { blocks = assign c.blocks (h / 32) (some (emptied h b)) }

  module _ (h : ℕ) (x : A) (q : List A) (c : Channel A) (v : Holds h (x ∷ q) c) (b : Block A)
      (e : c.blocks (h / 32) ≡ some b)
      (w : IsBlock (link_of ((h + length (x ∷ q)) / 32) (h / 32)) (cell h (x ∷ q)) (h / 32) b) where
    offset : wrapping_sub c.head_index b.start_index ≡ h % 32
    offset = rw (v.head_at, w.start) (offset_lem h)

    first : get_elem? b.slots (h % 32) ≡ some (record { msg = some x; ready = true })
    unfolding cell
    first =
        let p : 32 * (h / 32) + h % 32 ≡ h = omega arith in
        let z : h - h ≡ 0 = omega arith in ground (arith, w.slot_at (h % 32) (omega arith), p, z)

    install_head-Holds :
        h % 32 ≡ 31
        → install_head (h / 32) b (record c { head_index = (h + 1) % word })
          ≡ record c { head_index = (h + 1) % word; head_block = h / 32 + 1 }
    unfolding install_head next_block
    install_head-Holds n =
        let lt : h / 32 < (h + length (x ∷ q)) / 32 = omega arith in
        let next : b.next ≡ some (h / 32 + 1) = ground (arith, w.link) in
        ground (arith, v.head_in, next)

    recv_attempt-some :
        (weak : Bool) (token : ListToken)
        → recv_attempt weak token c ≡ (
            let done : Attempt A = returns true (token_at h) (claimed c h) in
            elim weak [ true ↦ spins c | false ↦ done ])
    unfolding recv_attempt
    recv_attempt-some weak token =
        ground (arith, v.head_in, e, offset, first, v.head_at, add_lem h, install_head-Holds, below)
      where
        below : h % 32 < 32
        below = omega arith

    recv_loop-some :
        (rounds : List Bool) (token : ListToken)
        → Succeeds rounds
        → recv_loop rounds token c ≡ some (true, token_at h, claimed c h)
    unfolding recv_loop
    recv_loop-some [] token s = absurd s
    recv_loop-some (true ∷ rounds) token s =
        ground (arith, recv_attempt-some true token, recv_loop-some rounds token s)
    recv_loop-some (false ∷ rounds) token s = ground (arith, recv_attempt-some false token)

    -- A channel that holds messages gives the oldest one, disconnected or not.
    pub try_recv-some :
        (rounds : List Bool) → Succeeds rounds → try_recv rounds c ≡ some (ok x, popped c h b)
    unfolding try_recv start_recv read slot_at set_slot
    try_recv-some rounds s = ground (arith, recv_loop-some rounds null_token s, e, first)

    keeps_cells :
        {next : Option ℕ} {j : ℕ} {b' : Block A}
        → IsBlock next (cell h (x ∷ q)) j b'
        → j ≢ h / 32
        → IsBlock next (cell (h + 1) q) j b'
    keeps_cells {j = j} w' n = cells-IsBlock w' (λ o lt. sym (
        cell-tail h q x (32 * j + o)
        ∙ assign_ne (cell h (x ∷ q)) h (32 * j + o) spent (omega arith)))

    emptied-IsBlock :
        IsBlock
          (link_of ((h + length (x ∷ q)) / 32) (h / 32))
          (cell (h + 1) q)
          (h / 32)
          (emptied h b)
    emptied-IsBlock =
        let p : 32 * (h / 32) + h % 32 ≡ h = omega arith in
        cells-IsBlock (set-IsBlock (h % 32) spent (omega arith) w)
          (λ o lt. rw p (sym (cell-tail h q x (32 * (h / 32) + o))))

    pub popped-Holds : Holds (h + 1) q (popped c h b)
    popped-Holds =
        let longer : h + 1 + length q ≡ h + length (x ∷ q) = omega arith in
        record {
          head_at = ground arith;
          tail_at = ground (arith, v.tail_at, longer);
          head_in = ground (arith, v.head_in);
          tail_in = ground (arith, v.tail_in, longer);
          next_fresh = ground (arith, v.next_fresh, longer);
          block_at = λ j le lt. rw longer (elim (ℕ_discrete j (h / 32)) [
            | yes same ↦ rw same (emptied h b, assign_self c.blocks _ _, emptied-IsBlock)
            | no n ↦
                let (b', e', w') = v.block_at j (omega arith) (rw longer at lt) in
                (b', assign_ne c.blocks _ j _ n ∙ e', keeps_cells w' n)
          ]);
        }

module _ {A : Type 0} (h : ℕ) (c : Channel A) (v : Holds h [] c) where
  first_vacant :
      (b : Block A)
      → IsBlock (link_of ((h + 0) / 32) (h / 32)) (cell h []) (h / 32) b
      → get_elem? b.slots (h % 32) ≡ some vacant
  unfolding cell
  first_vacant b w =
      let p : 32 * (h / 32) + h % 32 ≡ h = omega arith in
      ground (arith, w.slot_at (h % 32) (omega arith), p)

  recv_attempt-none :
      (weak : Bool) (token : ListToken)
      → recv_attempt weak token c ≡ (
          let dead : Attempt A = returns true (record token { slot = none }) c in
          let not_ready : Attempt A = returns false token c in
          elim c.is_disconnected [ true ↦ dead | false ↦ not_ready ])
  unfolding recv_attempt
  recv_attempt-none weak token =
      let (b, e, w) = v.block_at (h / 32) (omega arith) (omega arith) in
      let offset : wrapping_sub c.head_index b.start_index ≡ h % 32 =
        rw (v.head_at, w.start) (offset_lem h) in
      let below : h % 32 < 32 = omega arith in
      let z : h + 0 ≡ h = omega arith in
      ground (arith, v.head_in, v.tail_at, v.head_at, z, e, offset, first_vacant b w, below)

  pub recv_loop-none :
      (rounds : List Bool) (token : ListToken)
      → c.is_disconnected ≡ false
      → Succeeds rounds
      → recv_loop rounds token c ≡ some (false, token, c)
  unfolding recv_loop
  recv_loop-none [] token d s = absurd s
  recv_loop-none (weak ∷ rounds) token d s = ground (arith, recv_attempt-none weak token)

  -- An empty channel reports that, and whether it is disconnected, and stays as it is.
  pub try_recv-none :
      (rounds : List Bool)
      → Succeeds rounds
      → try_recv rounds c
        ≡ some
            (err (elim c.is_disconnected [ true ↦ TryRecvError.disconnected | false ↦ empty ]), c)
  unfolding try_recv start_recv recv_loop read
  try_recv-none [] s = absurd s
  try_recv-none (weak ∷ rounds) s = ground (arith, recv_attempt-none weak null_token)
