-- ===== src/Flavors/Array/Blocking/Woken.antt =====
-- A `recv` of src/flavors/array.rs on an empty channel: it waits until its deadline passes or until
-- another thread wakes it.
use crossbeam_channel.Common.{
  ℕ, suc, ◌+◌, ◌≤◌, ◌<◌, ◌≡◌, arith, Bool, false, err, List, [], ◌∷◌, Option, some, length, map,
}
use crossbeam_channel.Backoff.{Backoff, fresh, snooze}
use crossbeam_channel.Context.{Contexts, hook, with_context}
use crossbeam_channel.Context.Wait.{Round}
use crossbeam_channel.Waker.Queue.{Absent}
use crossbeam_channel.Err.{RecvTimeoutError}
use crossbeam_channel.Flavors.Array.Chan.{ArrayToken, Channel, null_token, start_recv}
use crossbeam_channel.Flavors.Array.Query.{is_empty}
use crossbeam_channel.Flavors.Array.Holds.{Holds}
use crossbeam_channel.Flavors.Array.Recv.{recv_loop-none}
use crossbeam_channel.Flavors.Array.QueryLaws.{is_empty-eq}
use crossbeam_channel.Flavors.Blocking.{Turn, breaks, leave}
use crossbeam_channel.Flavors.Blocking.Quiet.{
  EachSucceeds, still, idle, AllPast, given_up, unregistered, woken, wait_until-quiet,
  wait_until-woken, leave-aborted,
}
use crossbeam_channel.Flavors.Array.Blocking.{recv_attempts, recv_wait, recv}

module _ {A : Type 0} {k h : ℕ} {c : Channel A} (v : Holds k h [] c) (me : ℕ)
    (connected : c.is_disconnected ≡ false) where
  recv_attempts-empty :
      (tries : List (List Bool)) (b : Backoff) (token : ArrayToken) (cxs : Contexts)
      → EachSucceeds tries
      → b.step ≤ 10
      → 11 ≤ length tries + b.step
      → recv_attempts me (map still tries) b token c cxs ≡ some (breaks token c)
  unfolding recv_attempts start_recv snooze
  recv_attempts-empty [] b token cxs s l n = absurd (omega arith)
  recv_attempts-empty (rounds ∷ tries) b token cxs s l n = ground (
    arith,
    recv_loop-none v rounds token connected s.0,
    recv_attempts-empty tries (snooze b).1 token cxs s.1,
  )

  recv_wait-empty :
      (address cx d now : ℕ) (tries : List (List Bool)) (clock : List ℕ) (cxs : Contexts)
      → 2 < address
      → Absent address c.receivers.inner.entries
      → AllPast d clock
      → 12 ≤ length clock
      → recv_wait address cx (some d) (idle tries clock now) c cxs
        ≡ some
            (record c { receivers = unregistered c.receivers }, given_up cx (with_context cx cxs))
  unfolding recv_wait hook is_empty
  recv_wait-empty address cx d now tries clock cxs a n p l = ground (
    arith,
    is_empty-eq v,
    wait_until-quiet cx d clock cxs p l,
    leave-aborted address cx c.receivers n,
  )

  -- A receive on an empty, connected channel whose deadline passes while no other thread does
  -- anything, after at least eleven attempts and twelve rounds of waiting, returns a timeout. It
  -- leaves the indices and the queues of blocked threads as they were.
  pub recv-late :
      (address cx d now : ℕ) (tries : List (List Bool)) (clock : List ℕ)
      (turns : List (Turn (Channel A))) (cxs : Contexts)
      → 2 < address
      → Absent address c.receivers.inner.entries
      → EachSucceeds tries
      → 11 ≤ length tries
      → AllPast d clock
      → 12 ≤ length clock
      → d ≤ now
      → recv me address cx (some d) (idle tries clock now ∷ turns) c cxs
        ≡ some (
          err RecvTimeoutError.timeout,
          record c { receivers = unregistered c.receivers },
          given_up cx (with_context cx cxs),
        )
  unfolding recv
  recv-late address cx d now tries clock turns cxs a n s t p l late = ground (
    arith,
    recv_attempts-empty tries fresh null_token cxs s (omega arith) (omega arith),
    recv_wait-empty address cx d now tries clock cxs a n p l,
  )

  recv_wait-woken :
      (n cx now : ℕ) (deadline : Option ℕ) (tries : List (List Bool)) (r : Round)
      (there : Channel A) (cxs : Contexts)
      → (r.before (with_context cx cxs) cx).select ≡ suc (suc (suc n))
      → recv_wait (suc (suc (suc n))) cx deadline (woken tries r there now) c cxs
        ≡ some (there, r.before (with_context cx cxs))
  unfolding recv_wait hook is_empty leave
  recv_wait-woken n cx now deadline tries r there cxs e =
      ground (arith, is_empty-eq v, wait_until-woken cx n deadline r (with_context cx cxs) e)

  -- A receive on an empty, connected channel that, after at least eleven attempts, is woken by a
  -- sender, which has selected its operation, but reads its deadline off the clock after that,
  -- returns a timeout and leaves the channel as the sender left it: a message that the sender put
  -- there stays, and nobody is woken for it.
  pub recv-woken_late :
      (n cx d now : ℕ) (tries : List (List Bool)) (r : Round) (there : Channel A)
      (turns : List (Turn (Channel A))) (cxs : Contexts)
      → EachSucceeds tries
      → 11 ≤ length tries
      → (r.before (with_context cx cxs) cx).select ≡ suc (suc (suc n))
      → d ≤ now
      → recv me (suc (suc (suc n))) cx (some d) (woken tries r there now ∷ turns) c cxs
        ≡ some (err RecvTimeoutError.timeout, there, r.before (with_context cx cxs))
  unfolding recv
  recv-woken_late n cx d now tries r there turns cxs s t e late = ground (
    arith,
    recv_attempts-empty tries fresh null_token cxs s (omega arith) (omega arith),
    recv_wait-woken n cx now (some d) tries r there cxs e,
  )
