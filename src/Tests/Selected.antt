-- ===== src/Tests/Selected.antt =====
-- Selections of src/select.rs on receivers of src/channel.rs.
use crossbeam_channel.Common.{
  ℕ, zero, suc, ◌+◌, ◌*◌, ◌≡◌, refl, ap, Option, Result, subst, arith, true, false, [], ◌∷◌, none,
  some, repeat, ok, assign,
}
use crossbeam_channel.Context.{Contexts, with_context, reset, update, hook, try_select}
use crossbeam_channel.Context.Wait.{Round, give_up, wait_packet}
use crossbeam_channel.Flavors
use crossbeam_channel.Flavors.Blocking.Quiet.{given_up}
use crossbeam_channel.Flavors.Zero.Chan.{enqueue_recv}
use crossbeam_channel.Flavors.Zero.Packets.{Packet, empty_on_heap}
use crossbeam_channel.Flavors.Zero.Deliver.{delivered, try_send-finds}
use crossbeam_channel.Waker.Queue.{entry}
use crossbeam_channel.Waker.Wake.{hand_over, wake_first-last}
use crossbeam_channel.Flavors.Zero.Calls.{try_send}
use crossbeam_channel.Shuffle.{shuffle}
use crossbeam_channel.Waker
use crossbeam_channel.Channel.{Channel, zero, ReceiverFlavor, channel, after, tick, never}
use crossbeam_channel.Channel.Senders
use crossbeam_channel.Channel.Senders.{in_flavor}
use crossbeam_channel.Err.{TrySendError}
use crossbeam_channel.Channel.Fire.{Fire}
use crossbeam_channel.Channel.ReceiverHandle
use crossbeam_channel.Select.{default, Timeout, right_now, Item, State}
use crossbeam_channel.Select.Run.{Selection, run_select}
use crossbeam_channel.Select.Builder.{Port, receiver_handle}
use crossbeam_channel.Select.Order.{In}
use crossbeam_channel.Select.Fired.{FiredIn}
use crossbeam_channel.Select.Chosen.{run_select-FiredIn}
use crossbeam_channel.Select.Answers.{one_look, Answers, Decided, run_select-decides}
use crossbeam_channel.Select.Parked.{woken_closure}
use crossbeam_channel.Select.Woken.{started, waiting_turn, run_select-woken}
use crossbeam_channel.Select.Alone.{lonely_closure}

abbrev cxs : Contexts
cxs = λ n. record { select = 0; packet = 0; thread_id = n; unparked = false }

-- A call of thread 1 at a reading of the clock.
abbrev call_at : ℕ → Fire ℕ
call_at now = record {
  thread = record {
    me = 1;
    cx = 1;
    address = 10;
    now = now;
    rounds = false ∷ [];
    array_turns = [];
    list_turns = [];
    zero_wait = record { meanwhile = λ c cxs. (c, cxs); waits = []; readies = [] };
    clock = record { now = 0; overs = [] };
    taken = false;
    ticks = [];
  };
  pause = record {
    address = 10;
    cx = 1;
    yields = λ c cxs. (c, cxs);
    locks = λ c cxs. (c, cxs);
    loads = [];
  };
  loads = (λ cxs. cxs) ∷ [];
}

-- The only receiver.
abbrev only : Port (Fire ℕ) (ReceiverFlavor ℕ) ℕ (ReceiverFlavor ℕ)
only = record { get = λ r. r; set = λ r s. r; others = λ f s cxs. (s, cxs); fire = λ f. f }

abbrev item : Item (Fire ℕ) (ReceiverFlavor ℕ)
item = record { handle = receiver_handle only; index = 0; ptr = 99 }

abbrev place : ℕ → ℕ
place k = 10 + 16 * k

-- A message at the time 100.
abbrev hundred : ReceiverFlavor ℕ
hundred = after (record { delivery_time = 100; received = false })

abbrev on : ReceiverFlavor ℕ → State (Fire ℕ) (ReceiverFlavor ℕ)
on r = record { handles = item ∷ []; rng = 1; shared = r; contexts = cxs }

abbrev looks_at : ℕ → Selection (Fire ℕ) (ReceiverFlavor ℕ)
looks_at now = record {
  cx = 1;
  place = place;
  turns = [];
  last = one_look (call_at now) 1;
  clock = record { now = 0; overs = [] };
}

run_select_finds :
    (run_select (looks_at 200) right_now (on hundred))
    ≡ some (
      some (record default { after = some 100 }, 0, 99),
      on (after (record { delivery_time = 100; received = true })),
    )
unfolding run_select receiver_handle Flavors.After.try
run_select_finds = refl

run_select-FiredIn_example : FiredIn (item ∷ []) (run_select (looks_at 200) right_now (on hundred))
run_select-FiredIn_example = run_select-FiredIn (looks_at 200) right_now (on hundred)

is_item : (i : Item (Fire ℕ) (ReceiverFlavor ℕ)) → In i (item ∷ []) → item ≡ i
is_item i (zero, q) = ground arith
is_item i (suc n, q) = absurd (ground arith)

-- At the time 200 the message is there.
due-Answers : Answers (call_at 200) hundred cxs (item ∷ [])
unfolding receiver_handle Flavors.After.try ReceiverHandle.state Flavors.After.state
due-Answers = record {
  ready = λ i. true;
  effect = λ i token. (
    record token { after = some 100 },
    after (record { delivery_time = 100; received = true }),
    cxs,
  );
  level = λ i. 1;
  tries = λ i m token.
      subst
        (λ x.
          x.handle.try (call_at 200) token hundred cxs
          ≡ some (
            true,
            record token { after = some 100 },
            after (record { delivery_time = 100; received = true }),
            cxs,
          ))
        (is_item i m) refl;
  levels = λ i m.
      subst (λ x. x.handle.state (call_at 200) hundred cxs ≡ (1, hundred, cxs)) (is_item i m) refl;
}

run_select-decides_example :
    Decided
      (call_at 200)
      hundred
      cxs
      (item ∷ [])
      due-Answers
      (run_select (looks_at 200) right_now (on hundred))
run_select-decides_example =
    run_select-decides (call_at 200) (looks_at 200) (on hundred) due-Answers refl

abbrev waits_for : Selection (Fire ℕ) (ReceiverFlavor ℕ)
waits_for = record {
  cx = 1;
  place = place;
  turns = waiting_turn (call_at 5) 1 (lonely_closure (call_at 5) 1 (repeat 55 12) place 1) 56 ∷ [];
  last = one_look (call_at 60) 1;
  clock = record { now = 0; overs = [] };
}

-- A channel without capacity: thread 1 has paused and left, has registered, and has a message.
abbrev meeting : Flavors.Zero.Packets.Channel ℕ → ReceiverFlavor ℕ
meeting c = channel (record { senders = 1; receivers = 1; flavor = zero c })

abbrev lonely : Flavors.Zero.Packets.Channel ℕ
lonely = Flavors.Zero.Packets.new

abbrev paused_one : Contexts
paused_one = given_up 1 (with_context 1 cxs)

abbrev quitted : Flavors.Zero.Packets.Channel ℕ
quitted = record (enqueue_recv 10 1 empty_on_heap lonely).1 {
  receivers = record { entries = []; register_count = 1 };
  packets = assign (assign lonely.packets 1 (some empty_on_heap)) 1 none;
}

abbrev registered : Flavors.Zero.Packets.Channel ℕ
registered = (enqueue_recv 10 1 empty_on_heap quitted).1

abbrev filled : Flavors.Zero.Packets.Channel ℕ
filled = delivered 42 2 empty_on_heap [] registered

abbrev woken_one : Contexts
woken_one = hand_over (entry 10 2 1) (with_context 1 paused_one)

two_sends : try_send 2 42 registered (with_context 1 paused_one) ≡ some (ok tt, filled, woken_one)
unfolding enqueue_recv with_context Flavors.Zero.Packets.new Waker.new Waker.register_with_packet
    assign reset update
two_sends =
    try_send-finds 2 42 registered (with_context 1 paused_one) woken_one (entry 10 2 1) []
      empty_on_heap
      (wake_first-last 2 [] (entry 10 2 1) (with_context 1 paused_one) tt (omega arith, refl))
      (omega arith) refl

abbrev joined : ℕ → ReceiverFlavor ℕ
joined zero = meeting quitted
joined (suc k) = meeting registered

abbrev paused : ℕ → ReceiverFlavor ℕ × Contexts
paused zero = (meeting lonely, cxs)
paused (suc k) = (meeting quitted, paused_one)

-- Thread 2 calls `try_send` on the channel as it is then.
abbrev next_of :
    ReceiverFlavor ℕ
    → Contexts
    → Option (Result (Unit {0}) (TrySendError ℕ) × Channel ℕ × Contexts)
    → ReceiverFlavor ℕ × Contexts
next_of r there none = (r, there)
next_of r there (some (res, c, cxs_after)) = (channel c, cxs_after)

abbrev sends : ReceiverFlavor ℕ → Contexts → ReceiverFlavor ℕ × Contexts
sends (channel c) there =
    next_of (channel c) there (Senders.try_send (record (call_at 5).thread { me = 2 }) 42 c there)
sends (after c) there = (after c, there)
sends (tick c) there = (tick c, there)
sends (never c) there = (never c, there)

sends_to_registered :
    sends (meeting registered) (with_context 1 paused_one) ≡ (meeting filled, woken_one)
unfolding Senders.try_send
sends_to_registered =
    ap
      (λ out.
        next_of (meeting registered) (with_context 1 paused_one)
          (in_flavor zero (record { senders = 1; receivers = 1; flavor = zero registered }) out))
      two_sends

abbrev handed : Round
handed = record { before = λ c. c; now = 0; meanwhile = λ c. c }

abbrev parks : Selection (Fire ℕ) (ReceiverFlavor ℕ)
parks = record {
  cx = 1;
  place = place;
  turns = waiting_turn (call_at 5) 1 (woken_closure (call_at 5) place 1 1 handed sends) 0 ∷ [];
  last = one_look (call_at 5) 1;
  clock = record { now = 0; overs = [] };
}

run_select-woken_example :
    run_select parks Timeout.never (started (item ∷ []) 1 (meeting lonely, cxs))
    ≡ some (
      some (record default { zero = 2 }, 0, 99),
      record { handles = item ∷ []; rng = 1; shared = meeting filled; contexts = woken_one },
    )
unfolding shuffle receiver_handle Flavors.Zero.Chan.start_recv Flavors.Zero.Packets.new Waker.new
    Waker.wake_one Waker.wake_first hook give_up try_select with_context update Waker.unregister
    Waker.register_with_packet assign Flavors.Zero.Handles.recv_register Waker.can_wake_one
    Flavors.Zero.Handles.recv_unregister hand_over wait_packet Flavors.Zero.Handles.accept
run_select-woken_example =
    run_select-woken (call_at 5) parks Timeout.never item [] (item ∷ []) 1 1 paused joined
      (λ k. meeting filled) 0 7 0 item sends handed [] (record default { zero = 2 })
      (meeting filled) paused_one woken_one woken_one (λ e. cc) refl ((λ token. refl), tt)
      ((λ token. refl), tt) refl sends_to_registered (omega arith, refl, refl, tt)
      (λ a b n. omega arith) refl refl refl refl refl
