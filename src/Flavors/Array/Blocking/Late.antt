-- ===== src/Flavors/Array/Blocking/Late.antt =====
-- A `send` or `recv` of src/flavors/array.rs whose deadline passes while nothing happens.
use crossbeam_channel.Common.{
  ℕ, ◌+◌, ◌≤◌, ◌<◌, ◌≡◌, arith, Bool, false, err, List, [], ◌∷◌, some, length, map, eqb_of_eq,
}
use crossbeam_channel.Backoff.{Backoff, fresh, snooze}
use crossbeam_channel.Context.{Contexts, hook, with_context}
use crossbeam_channel.Waker.Queue.{Absent}
use crossbeam_channel.Err.{SendTimeoutError}
use crossbeam_channel.Flavors.Array.Chan.{ArrayToken, Channel, null_token, start_send}
use crossbeam_channel.Flavors.Array.Query.{is_full}
use crossbeam_channel.Flavors.Array.Holds.{Holds}
use crossbeam_channel.Flavors.Array.Send.{send_loop-full}
use crossbeam_channel.Flavors.Array.QueryLaws.{is_full-eq}
use crossbeam_channel.Flavors.Blocking.{Turn, breaks}
use crossbeam_channel.Flavors.Blocking.Quiet.{
  EachSucceeds, still, idle, AllPast, given_up, unregistered, wait_until-quiet, leave-aborted,
}
use crossbeam_channel.Flavors.Array.Blocking.{send_attempts, send_wait, send}

module _ {A : Type 0} {k h : ℕ} {q : List A} {c : Channel A} (v : Holds k h q c) (me : ℕ) (msg : A)
    (connected : c.is_disconnected ≡ false) (full : length q ≡ c.cap) where
  send_attempts-full :
      (tries : List (List Bool)) (b : Backoff) (token : ArrayToken) (cxs : Contexts)
      → EachSucceeds tries
      → b.step ≤ 10
      → 11 ≤ length tries + b.step
      → send_attempts me msg (map still tries) b token c cxs ≡ some (breaks token c)
  unfolding send_attempts start_send snooze
  send_attempts-full [] b token cxs s l n = absurd (omega arith)
  send_attempts-full (rounds ∷ tries) b token cxs s l n = ground (
    arith,
    send_loop-full q rounds token v full s.0,
    send_attempts-full tries (snooze b).1 token cxs s.1,
  )

  send_wait-full :
      (address cx d now : ℕ) (tries : List (List Bool)) (clock : List ℕ) (cxs : Contexts)
      → 2 < address
      → Absent address c.senders.inner.entries
      → AllPast d clock
      → 12 ≤ length clock
      → send_wait address cx (some d) (idle tries clock now) c cxs
        ≡ some (record c { senders = unregistered c.senders }, given_up cx (with_context cx cxs))
  unfolding send_wait hook is_full
  send_wait-full address cx d now tries clock cxs a n p l = ground (
    arith,
    is_full-eq v,
    eqb_of_eq full,
    wait_until-quiet cx d clock cxs p l,
    leave-aborted address cx c.senders n,
  )

  -- A send on a full, connected channel whose deadline passes while no other thread does anything,
  -- after at least eleven attempts and twelve rounds of waiting, returns a timeout with its message.
  -- It leaves the messages, the indices and the queues of blocked threads as they were.
  pub send-late :
      (address cx d now : ℕ) (tries : List (List Bool)) (clock : List ℕ)
      (turns : List (Turn (Channel A))) (cxs : Contexts)
      → 2 < address
      → Absent address c.senders.inner.entries
      → EachSucceeds tries
      → 11 ≤ length tries
      → AllPast d clock
      → 12 ≤ length clock
      → d ≤ now
      → send me address cx (some d) msg (idle tries clock now ∷ turns) c cxs
        ≡ some (
          err (SendTimeoutError.timeout msg),
          record c { senders = unregistered c.senders },
          given_up cx (with_context cx cxs),
        )
  unfolding send
  send-late address cx d now tries clock turns cxs a n s t p l late = ground (
    arith,
    send_attempts-full tries fresh null_token cxs s (omega arith) (omega arith),
    send_wait-full address cx d now tries clock cxs a n p l,
  )
