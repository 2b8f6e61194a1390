-- ===== src/Flavors/List/Chan.antt =====
-- The channel of src/flavors/list.rs: its blocks, its positions and its operations. Blocks stand on a
-- heap and are named by their addresses. The reclamation of blocks, which crossbeam-epoch does, is no
-- part of the model: a block that is handed over to it is listed as garbage and stays readable.
use crossbeam_channel.Common.{
  ℕ, zero, suc, ◌+◌, Bool, true, false, ltb, ◌==◌, if◌then◌else◌, Result, ok, err, List, [], ◌∷◌,
  Option, none, some, get_elem?, set, assign,
}
use crossbeam_channel.Common.Word.{wrapping_add, wrapping_sub}
use crossbeam_channel.Context.{Contexts}
use crossbeam_channel.Waker.Sync
use crossbeam_channel.Waker.Sync.{SyncWaker}

abbrev pub block_cap : ℕ
block_cap = 32

-- No message: the memory is zeroed, or the message has been moved out.
pub record Slot (A : Type 0) : Type 0 where
  pub msg : Option A
  pub ready : Bool

-- `next` is none while it is null.
pub record Block (A : Type 0) : Type 0 where
  pub start_index : ℕ
  pub next : Option ℕ
  pub slots : List (Slot A)

-- A slot is named by its block and its offset; none is the null pointer. `guard` tells whether the
-- token keeps the block alive.
pub record ListToken : Type 0 where
  pub slot : Option (ℕ × ℕ)
  pub guard : Bool

-- `fresh` is the address that the next allocation returns.
pub record Channel (A : Type 0) : Type 0 where
  pub head_index : ℕ
  pub head_block : ℕ
  pub tail_index : ℕ
  pub tail_block : ℕ
  pub is_disconnected : Bool
  pub receivers : SyncWaker
  pub blocks : ℕ → Option (Block A)
  pub fresh : ℕ
  pub garbage : List ℕ

abbrev pub null_token : ListToken
null_token = record { slot = none; guard = false }

-- What one round of the loop of `start_send` or `start_recv` comes to. A round that spins may have
-- installed a block; one that faults reads through a null or dangling pointer.
pub data Attempt (A : Type 0) : Type 0 where
  returns : Bool → ListToken → Channel A → Attempt A
  spins : Channel A → Attempt A
  faults : Attempt A

module _ {A : Type 0} where
  -- `n` zeroed slots.
  unfoldable pub zeroed : ℕ → List (Slot A)
  zeroed zero = []
  zeroed (suc n) = record { msg = none; ready = false } ∷ zeroed n

  abbrev pub new_block : ℕ → Block A
  new_block start = record { start_index = start; next = none; slots = zeroed block_cap }

  unfoldable pub new : Channel A
  unfolding zeroed
  new = record {
    head_index = 0;
    head_block = 0;
    tail_index = 0;
    tail_block = 0;
    is_disconnected = false;
    receivers = Sync.new;
    blocks = assign (λ _. none) 0 (some (new_block 0));
    fresh = 1;
    garbage = [];
  }

  -- The block after `block`, at `ptr`, with the channel in which it is linked.
  unfoldable pub next_block : ℕ → Block A → Channel A → ℕ × Channel A
  next_block ptr block c = elim block.next [
    | some current ↦ (current, c)
    | none ↦
        let linked : Block A = record block { next = some c.fresh } in
        let added : Block A = new_block (wrapping_add block.start_index block_cap) in
        (
          c.fresh,
          record c {
            blocks = assign (assign c.blocks ptr (some linked)) c.fresh (some added);
            fresh = c.fresh + 1;
          },
        )
  ]

  -- `install_next_block` of `start_send`.
  unfoldable pub install_tail : ℕ → Block A → Channel A → Channel A
  unfolding next_block
  install_tail ptr block c =
      let (current, c') = next_block ptr block c in
      if c'.tail_block == ptr then record c' { tail_block = current } else c'

  -- `install_next_block` of `start_recv`.
  unfoldable pub install_head : ℕ → Block A → Channel A → Channel A
  unfolding next_block
  install_head ptr block c =
      let (current, c') = next_block ptr block c in
      if c'.head_block == ptr then record c' { head_block = current } else c'

  unfoldable pub send_attempt : Bool → Channel A → Attempt A
  unfolding install_tail
  send_attempt weak c = elim (c.blocks c.tail_block) [
    | none ↦ faults
    | some tail ↦
        let offset = wrapping_sub c.tail_index tail.start_index in
        let moved : Channel A = record c { tail_index = wrapping_add c.tail_index 1 } in
        let token : ListToken = record { slot = some (c.tail_block, offset); guard = true } in
        if ltb offset block_cap
        then if weak
          then spins c
          else if offset + 1 == block_cap
          then returns true token (install_tail c.tail_block tail moved)
          else returns true token moved
        else if offset == block_cap
        then spins (install_tail c.tail_block tail c)
        else spins c
  ]

  -- None: the rounds are over, or a round faults.
  unfoldable pub send_loop : List Bool → Channel A → Option (Bool × ListToken × Channel A)
  unfolding send_attempt
  send_loop [] c = none
  send_loop (weak ∷ rounds) c = elim (send_attempt weak c) [
    | returns b token c' ↦ some (b, token, c')
    | spins c' ↦ send_loop rounds c'
    | faults ↦ none
  ]

  unfoldable pub start_send :
      List Bool → ListToken → Channel A → Option (Bool × ListToken × Channel A)
  unfolding send_loop
  start_send rounds token c =
      if c.is_disconnected then some (true, record token { slot = none }, c) else send_loop rounds c

  -- The slot at a block and an offset, and a change of it.
  unfoldable pub slot_at : Channel A → ℕ → ℕ → Option (Slot A)
  slot_at c ptr offset = elim (c.blocks ptr) [
    | none ↦ none
    | some block ↦ get_elem? block.slots offset
  ]

  unfoldable pub set_slot : Channel A → ℕ → ℕ → Slot A → Channel A
  set_slot c ptr offset slot = elim (c.blocks ptr) [
    | none ↦ c
    | some block ↦ record c {
      blocks = assign c.blocks ptr (some (record block { slots = set block.slots offset slot }));
    }
  ]

  -- None: the token has no guard, or its slot is not there.
  unfoldable pub write :
      ℕ → ListToken → A → Channel A → Contexts → Option (Result (Unit {0}) A × Channel A × Contexts)
  unfolding set_slot
  write me token msg c cxs = elim token.slot [
    | none ↦ some (err msg, c, cxs)
    | some (ptr, offset) ↦
        let (entry, receivers, cxs') = Sync.wake_one me c.receivers cxs in
        let c' = set_slot c ptr offset (record { msg = some msg; ready = true }) in
        if token.guard then some (ok tt, record c' { receivers = receivers }, cxs') else none
  ]

  unfoldable pub recv_attempt : Bool → ListToken → Channel A → Attempt A
  unfolding install_head
  recv_attempt weak start c = elim (c.blocks c.head_block) [
    | none ↦ faults
    | some head ↦
        let offset = wrapping_sub c.head_index head.start_index in
        let tail_index = c.tail_index in
        let moved : Channel A = record c { head_index = wrapping_add c.head_index 1 } in
        let token : ListToken = record { slot = some (c.head_block, offset); guard = true } in
        let freed : Channel A = install_head c.head_block head moved in
        let claim : Attempt A =
          if weak
          then spins c
          else if offset + 1 == block_cap
          then returns true token (record freed { garbage = c.head_block ∷ freed.garbage })
          else returns true token moved in
        if ltb offset block_cap
        then elim (get_elem? head.slots offset) [
          | none ↦ faults
          | some slot ↦
              if slot.ready
              then claim
              else if tail_index == c.head_index
              then if c.is_disconnected
                then if c.tail_index == tail_index
                  then returns true (record start { slot = none }) c
                  else claim
                else returns false start c
              else claim
        ]
        else if offset == block_cap
        then spins (install_head c.head_block head c)
        else spins c
  ]

  unfoldable pub recv_loop :
      List Bool → ListToken → Channel A → Option (Bool × ListToken × Channel A)
  unfolding recv_attempt
  recv_loop [] token c = none
  recv_loop (weak ∷ rounds) token c = elim (recv_attempt weak token c) [
    | returns b token' c' ↦ some (b, token', c')
    | spins c' ↦ recv_loop rounds token c'
    | faults ↦ none
  ]

  unfoldable pub start_recv :
      List Bool → ListToken → Channel A → Option (Bool × ListToken × Channel A)
  unfolding recv_loop
  start_recv rounds token c = recv_loop rounds token c

  -- None: the token has no guard, its slot is not there, the slot is not ready, for which the method
  -- waits, or there is no message in it.
  unfoldable pub read : ListToken → Channel A → Option (Result A (Unit {0}) × Channel A)
  unfolding slot_at set_slot
  read token c = elim token.slot [
    | none ↦ some (err tt, c)
    | some (ptr, offset) ↦ elim (slot_at c ptr offset) [
      | none ↦ none
      | some slot ↦ elim slot.msg [
        | none ↦ none
        | some msg ↦
            let c' = set_slot c ptr offset (record slot { msg = none }) in
            if token.guard then if slot.ready then some (ok msg, c') else none else none
      ]
    ]
  ]
