-- ===== src/Tests/Blocked.antt =====
-- src/waker.rs, src/context.rs and src/utils.rs on threads 1 and 2, which are blocked, and thread 0.
use crossbeam_channel.Common.{
  ◌≡◌, ◌≢◌, refl, arith, true, false, ◌==◌, if◌then◌else◌, List, [], ◌∷◌, none, some, ok, err,
}
use crossbeam_channel.Backoff.{fresh, snooze}
use crossbeam_channel.Backoff.Rounds.{tries, tries_lem}
use crossbeam_channel.Context
use crossbeam_channel.Context.{
  Selected, waiting, aborted, disconnected, operation, from_word, into_word, Contexts, Inner,
  selected, update,
}
use crossbeam_channel.Context.Laws.{attempts, first_selection_wins}
use crossbeam_channel.Context.Wait.{Round, wait_until}
use crossbeam_channel.Context.WaitLaws.{wait_until-selected, wait_until-late}
use crossbeam_channel.Waker
use crossbeam_channel.Waker.{
  Entry, Waker, register, register_with_packet, unregister, wake_one, can_wake_one, disconnect,
}
use crossbeam_channel.Waker.Wake.{
  Wakes, is_some, wake_one-Wakes, can_wake_one-eq-wake_one, disconnect_lem,
}
use crossbeam_channel.Waker.Queue.{entry}
use crossbeam_channel.Waker.Sync
use crossbeam_channel.Waker.Sync.{SyncWaker}
use crossbeam_channel.Waker.SyncLaws.{IsSynced, wake_one-eq-Waker}

-- Thread `n` has the context `n`; that of thread 1 is selected already.
abbrev cxs : Contexts
cxs = λ n. record { select = if n == 1 then 99 else 0; packet = 0; thread_id = n; unparked = false }

abbrev blocked : Waker
blocked = record { entries = entry 10 0 0 ∷ entry 11 0 1 ∷ entry 12 5 2 ∷ []; register_count = 3 }

abbrev in_step : SyncWaker
in_step = record { inner = blocked; len = 3 }

wake_one_finds : (wake_one 0 blocked cxs).0 ≡ some (entry 12 5 2)
unfolding Waker.wake_one Waker.wake_first Context.try_select Context.update Context.into_word
    Context.from_word
wake_one_finds = refl

wake_one-Wakes_example :
    let (found, w', after) = wake_one 0 blocked cxs in
    Wakes 0 blocked.entries cxs (found, w'.entries, after) × (w'.register_count ≡ 3)
wake_one-Wakes_example = wake_one-Wakes 0 blocked cxs

can_wake_one-eq-wake_one_example : can_wake_one 0 blocked cxs ≡ is_some (wake_one 0 blocked cxs).0
can_wake_one-eq-wake_one_example = can_wake_one-eq-wake_one 0 blocked cxs

disconnect_lem_example : disconnect blocked cxs 2 ≡ record (cxs 2) { select = 2; unparked = true }
disconnect_lem_example = disconnect_lem blocked cxs 2

wake_one-eq-Waker_example :
    let (entry, s', after) = Sync.wake_one 0 in_step cxs in
    ((entry, s'.inner, after) ≡ Waker.wake_one 0 blocked cxs) × IsSynced s'
wake_one-eq-Waker_example = wake_one-eq-Waker 0 in_step cxs refl

-- Three threads race to select an operation of thread 2.
first_selection_wins_example :
    let (rs, after) = attempts 2 (operation 7 ∷ disconnected ∷ operation 8 ∷ []) cxs in
    (rs ≡ ok tt ∷ err (operation 7) ∷ err (operation 7) ∷ []) × (selected 2 after ≡ operation 7)
unfolding Context.selected Context.from_word
first_selection_wins_example =
    first_selection_wins 2 (operation 7) (disconnected ∷ operation 8 ∷ []) cxs (omega arith)
      (λ e. cc) refl

-- Another thread selects operation 7 of thread 2 before the second round.
abbrev quiet : Round
quiet = record { before = λ c. c; now = 5; meanwhile = λ c. c }

abbrev busy : Round
busy = record {
  before = λ c. λ n. if n == 2 then record (c n) { select = 7 } else c n;
  now = 5;
  meanwhile = λ c. c;
}

wait_until-selected_example : operation 7 ≢ waiting × (selected 2 (busy.before cxs) ≡ operation 7)
unfolding wait_until Context.selected Context.from_word snooze
wait_until-selected_example =
    wait_until-selected 2 none (quiet ∷ busy ∷ []) cxs (busy.before cxs) (operation 7) refl

abbrev twelve : List Round
twelve =
    quiet ∷ quiet ∷ quiet ∷ quiet ∷ quiet ∷ quiet ∷ quiet ∷ quiet ∷ quiet ∷ quiet ∷ quiet ∷ quiet
    ∷ []

wait_until-late_example : wait_until 2 (some 5) twelve cxs ≢ none
wait_until-late_example = wait_until-late 2 5 twelve cxs (ground arith) (omega arith)

tries_lem_example : tries 20 fresh ≡ 11
tries_lem_example = tries_lem 20 fresh (omega arith) (omega arith)
