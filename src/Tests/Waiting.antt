-- ===== src/Tests/Waiting.antt =====
-- `send` and `recv` of src/flavors/array.rs on channels of capacity 1, and `recv` of src/flavors/list.rs.
use crossbeam_channel.Common.{
  ℕ, ◌≡◌, refl, arith, Bool, true, false, List, [], ◌∷◌, some, err, ◌==◌, if◌then◌else◌,
}
use crossbeam_channel.Common.Word.{next_power}
use crossbeam_channel.Context.{Contexts, with_context}
use crossbeam_channel.Context.Wait.{Round}
use crossbeam_channel.Err.{SendTimeoutError, RecvTimeoutError}
use crossbeam_channel.Flavors.Array.Chan.{Channel, initial}
use crossbeam_channel.Flavors.Array.Holds.{Holds}
use crossbeam_channel.Flavors.Array.Init.{initial-Holds}
use crossbeam_channel.Flavors.Array.Send.{pushed, pushed-Holds}
use crossbeam_channel.Flavors.Array.Blocking.{send, recv}
use crossbeam_channel.Flavors.Blocking.Quiet.{
  EachSucceeds, AllPast, idle, unregistered, given_up, woken,
}
use crossbeam_channel.Flavors.Array.Blocking.Late.{send-late}
use crossbeam_channel.Flavors.Array.Blocking.Woken.{recv-late, recv-woken_late}
use crossbeam_channel.Waker
use crossbeam_channel.Waker.Sync

abbrev cxs : Contexts
cxs = λ n. record { select = 0; packet = 0; thread_id = n; unparked = false }

-- Eleven attempts, each with a spurious failure, and twelve readings of the clock.
abbrev tries : List (List Bool)
tries = let a : List Bool = true ∷ false ∷ [] in a ∷ a ∷ a ∷ a ∷ a ∷ a ∷ a ∷ a ∷ a ∷ a ∷ a ∷ []

abbrev clock : List ℕ
clock = 5 ∷ 5 ∷ 5 ∷ 6 ∷ 6 ∷ 6 ∷ 7 ∷ 7 ∷ 7 ∷ 8 ∷ 8 ∷ 8 ∷ []

tries-EachSucceeds : EachSucceeds tries
tries-EachSucceeds = ground arith

clock-AllPast : AllPast 5 clock
clock-AllPast = ground arith

one-Holds : Holds (next_power 1) 0 [] (initial {A = ℕ} 1)
one-Holds = initial-Holds ℕ 1 (omega arith) (omega arith)

-- The channel of capacity 1 with the message 7.
abbrev full : Channel ℕ
full = pushed 0 (next_power 1) 0 [] 7 (initial 1) cxs

full-Holds : Holds (next_power 1) 0 (7 ∷ []) full
full-Holds = pushed-Holds one-Holds 0 7 cxs (omega arith)

send-late_example :
    send 3 99 3 (some 5) 8 (idle tries clock 9 ∷ []) full cxs
    ≡ some (
      err (SendTimeoutError.timeout 8),
      record full { senders = unregistered full.senders },
      given_up 3 (with_context 3 cxs),
    )
unfolding Sync.new Waker.new
send-late_example =
    send-late full-Holds 3 8 refl refl 99 3 5 9 tries clock [] cxs (omega arith) tt
      tries-EachSucceeds (omega arith) clock-AllPast (omega arith) (omega arith)

recv-late_example :
    recv 3 99 3 (some 5) (idle tries clock 9 ∷ []) (initial {A = ℕ} 1) cxs
    ≡ some (
      err RecvTimeoutError.timeout,
      record (initial 1) { receivers = unregistered (initial {A = ℕ} 1).receivers },
      given_up 3 (with_context 3 cxs),
    )
unfolding Sync.new Waker.new
recv-late_example =
    recv-late one-Holds 3 refl 99 3 5 9 tries clock [] cxs (omega arith) tt tries-EachSucceeds
      (omega arith) clock-AllPast (omega arith) (omega arith)

-- A sender selects operation 99 of thread 3.
abbrev wake : Round
wake = record {
  before = λ c. λ n. if n == 3 then record (c n) { select = 99 } else c n;
  now = 4;
  meanwhile = λ c. c;
}

recv-woken_late_example :
    recv 3 99 3 (some 5) (woken tries wake full 6 ∷ []) (initial 1) cxs
    ≡ some (err RecvTimeoutError.timeout, full, wake.before (with_context 3 cxs))
recv-woken_late_example =
    recv-woken_late one-Holds 3 refl 96 3 5 6 tries wake full [] cxs tries-EachSucceeds
      (omega arith) refl (omega arith)
