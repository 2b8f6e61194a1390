-- ===== src/Waker.antt =====
-- src/waker.rs: the queue of threads that are blocked on an operation of a channel.
pub mod Sync
pub mod Wake
pub mod Queue
pub mod SyncLaws
use crossbeam_channel.Common.{
  ℕ, zero, suc, ◌+◌, ◌<◌, ◌≡◌, Bool, true, false, not, ◌&&◌, ◌||◌, ◌==◌, if◌then◌else◌, Result, ok,
  err, List, [], ◌∷◌, ◌++◌, Option, none, some, length,
}
use crossbeam_channel.Common.Word.{wrapping_add}
use crossbeam_channel.Context.{
  Selected, waiting, aborted, disconnected, operation, Contexts, try_select, selected, store_packet,
  unpark,
}

-- The context is the key of its contents among the `Contexts`.
pub record Entry : Type 0 where
  pub context : ℕ
  pub oper : ℕ
  pub packet : ℕ

pub record Waker : Type 0 where
  pub entries : List Entry
  pub register_count : ℕ

unfoldable pub new : Waker
new = record { entries = []; register_count = 0 }

unfoldable pub register_with_packet : ℕ → ℕ → ℕ → Waker → Waker
register_with_packet oper packet cx w = record {
  entries = w.entries ++ (record { context = cx; oper = oper; packet = packet } ∷ []);
  register_count = wrapping_add w.register_count 1;
}

unfoldable pub register : ℕ → ℕ → Waker → Waker
unfolding register_with_packet
register oper cx w = register_with_packet oper 0 cx w

-- The search of `unregister`, with what is left of the queue.
unfoldable pub take_oper : ℕ → List Entry → Option Entry × List Entry
take_oper oper [] = (none, [])
take_oper oper (e ∷ es) =
    let (found, rest) = take_oper oper es in
    if e.oper == oper then (some e, es) else (found, e ∷ rest)

unfoldable pub unregister : ℕ → Waker → Option Entry × Waker
unfolding take_oper
unregister oper w =
    let (found, rest) = take_oper oper w.entries in (found, record w { entries = rest })

-- The loop of `wake_one`, with what is left of the queue: the first entry of another thread whose
-- operation can be selected is given its packet, is unparked and is removed.
unfoldable pub wake_first : ℕ → List Entry → Contexts → Option Entry × List Entry × Contexts
wake_first me [] cxs = (none, [], cxs)
wake_first me (e ∷ es) cxs =
    let (res, cxs') = try_select e.context (operation e.oper) cxs in
    let (found, rest, after) = wake_first me es cxs in
    let skip : Option Entry × List Entry × Contexts = (found, e ∷ rest, after) in
    if (cxs e.context).thread_id == me then skip else elim res [
      | ok _ ↦ (some e, es, unpark e.context (store_packet e.context e.packet cxs'))
      | err _ ↦ skip
    ]

-- `me` is the id of the current thread.
unfoldable pub wake_one : ℕ → Waker → Contexts → Option Entry × Waker × Contexts
unfolding wake_first
wake_one me w cxs =
    let (found, rest, after) = wake_first me w.entries cxs in
    (found, record w { entries = rest }, after)

-- The loop of `disconnect`.
unfoldable pub disconnect_entries : List Entry → Contexts → Contexts
disconnect_entries [] cxs = cxs
disconnect_entries (e ∷ es) cxs =
    let (res, cxs') = try_select e.context disconnected cxs in
    disconnect_entries es (elim res [ ok _ ↦ unpark e.context cxs' | err _ ↦ cxs' ])

unfoldable pub disconnect : Waker → Contexts → Contexts
unfolding disconnect_entries
disconnect w cxs = disconnect_entries w.entries cxs

abbrev pub is_waiting : Selected → Bool
is_waiting waiting = true
is_waiting aborted = false
is_waiting disconnected = false
is_waiting (operation val) = false

-- The test of `can_wake_one` on some entry of the list.
unfoldable pub any_ready : ℕ → List Entry → Contexts → Bool
any_ready me [] cxs = false
any_ready me (e ∷ es) cxs =
    (not ((cxs e.context).thread_id == me) && is_waiting (selected e.context cxs))
    || any_ready me es cxs

unfoldable pub can_wake_one : ℕ → Waker → Contexts → Bool
unfolding any_ready
can_wake_one me w cxs = any_ready me w.entries cxs

unfoldable pub len : Waker → ℕ
len w = length w.entries
