-- ===== src/Context.antt =====
-- src/context.rs, and `Operation` and `Selected` of src/select.rs.
pub mod Laws
pub mod Wait
pub mod WaitLaws
use crossbeam_channel.Common.{
  ℕ, zero, suc, ◌≡◌, Bool, true, false, ◌==◌, if◌then◌else◌, Result, ok, err, ltb, Option, none,
  some,
}

-- An operation is the address that `Operation::hook` gives it.
pub data Selected : Type 0 where
  waiting : Selected
  aborted : Selected
  disconnected : Selected
  operation : ℕ → Selected

-- `Selected::from`
unfoldable pub from_word : ℕ → Selected
from_word zero = waiting
from_word (suc zero) = aborted
from_word (suc (suc zero)) = disconnected
from_word (suc (suc (suc n))) = operation (suc (suc (suc n)))

-- `Selected::into`
unfoldable pub into_word : Selected → ℕ
into_word waiting = 0
into_word aborted = 1
into_word disconnected = 2
into_word (operation val) = val

-- `Inner`. `unparked` is the token of the thread's handle, which `unpark` leaves for `park`.
pub record Inner : Type 0 where
  pub select : ℕ
  pub packet : ℕ
  pub thread_id : ℕ
  pub unparked : Bool

-- What the shared pointers of the contexts point to.
abbrev pub Contexts : Type 0
Contexts = ℕ → Inner

unfoldable pub update : Contexts → ℕ → Inner → Contexts
update cxs cx inner c = if c == cx then inner else cxs c

unfoldable pub reset : ℕ → Contexts → Contexts
reset cx cxs = update cxs cx (record (cxs cx) { select = 0; packet = 0 })

unfoldable pub try_select : ℕ → Selected → Contexts → Result (Unit {0}) Selected × Contexts
unfolding into_word from_word
try_select cx select cxs =
    if (cxs cx).select == into_word waiting
    then (ok tt, update cxs cx (record (cxs cx) { select = into_word select }))
    else (err (from_word (cxs cx).select), cxs)

unfoldable pub selected : ℕ → Contexts → Selected
unfolding from_word
selected cx cxs = from_word (cxs cx).select

unfoldable pub store_packet : ℕ → ℕ → Contexts → Contexts
store_packet cx packet cxs =
    if packet == 0 then cxs else update cxs cx (record (cxs cx) { packet = packet })

unfoldable pub unpark : ℕ → Contexts → Contexts
unpark cx cxs = update cxs cx (record (cxs cx) { unparked = true })

-- `Operation::hook` on a reference at an address; none is its assertion.
unfoldable pub hook : ℕ → Option ℕ
hook address = if ltb 2 address then some address else none

-- `Context::with` up to its closure: the cached context, or a new one, waits and has no packet. The
-- name of the thread's own context does not change.
unfoldable pub with_context : ℕ → Contexts → Contexts
unfolding reset
with_context cx cxs = reset cx cxs
