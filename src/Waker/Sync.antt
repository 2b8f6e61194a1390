-- ===== src/Waker/Sync.antt =====
-- `SyncWaker` of src/waker.rs: a waker behind a mutex, with its length in an atomic beside it.
use crossbeam_channel.Common.{ℕ, ltb, if◌then◌else◌, Option, none}
use crossbeam_channel.Context.{Contexts}
use crossbeam_channel.Waker
use crossbeam_channel.Waker.{Entry, Waker}

pub record SyncWaker : Type 0 where
  pub inner : Waker
  pub len : ℕ

unfoldable pub new : SyncWaker
new = record { inner = Waker.new; len = 0 }

unfoldable pub register : ℕ → ℕ → SyncWaker → SyncWaker
register oper cx s =
    let inner = Waker.register oper cx s.inner in record { inner = inner; len = Waker.len inner }

unfoldable pub unregister : ℕ → SyncWaker → Option Entry × SyncWaker
unregister oper s =
    let (entry, inner) = Waker.unregister oper s.inner in
    if ltb 0 s.len then (entry, record { inner = inner; len = Waker.len inner }) else (none, s)

unfoldable pub wake_one : ℕ → SyncWaker → Contexts → Option Entry × SyncWaker × Contexts
wake_one me s cxs =
    let (entry, inner, after) = Waker.wake_one me s.inner cxs in
    if ltb 0 s.len
    then (entry, record { inner = inner; len = Waker.len inner }, after)
    else (none, s, cxs)

unfoldable pub disconnect : SyncWaker → Contexts → Contexts
disconnect s cxs = Waker.disconnect s.inner cxs
