-- ===== src/Select/Builder.antt =====
-- `Select` and `SelectedOperation` of src/select.rs, on the handles of src/channel.rs.
use crossbeam_channel.Common.{
  ℕ, ◌+◌, Bool, ◌==◌, if◌then◌else◌, Result, ok, err, map_err, List, [], ◌∷◌, ◌++◌, Option, none,
  some, length,
}
use crossbeam_channel.Context.{Contexts}
use crossbeam_channel.Err.{
  SendError, send_error, RecvError, recv_error, TrySelectError, try_select_error,
  SelectTimeoutError, select_timeout_error,
}
use crossbeam_channel.Channel.{Channel, ReceiverFlavor}
use crossbeam_channel.Channel.Thread.{Thread}
use crossbeam_channel.Channel.Fire.{Fire}
use crossbeam_channel.Channel.SenderHandle
use crossbeam_channel.Channel.ReceiverHandle
use crossbeam_channel.Select.{Token, SelectHandle, right_now, never, at_time, Item, State, Chosen}
use crossbeam_channel.Select.Run.{Selection, run_select}

-- Where a channel, or what a receiver holds, stands in the shared state; and what a call on it is
-- given: what other threads do before it, and what happens while it runs.
pub record Port (E S A C : Type 0) : Type 0 where
  pub get : S → C
  pub set : C → S → S
  pub others : E → S → Contexts → S × Contexts
  pub fire : E → Fire A

module _ {E S A C : Type 0} (port : Port E S A C) where
  abbrev pub put_fired :
      S → Option (Bool × Token × C × Contexts) → Option (Bool × Token × S × Contexts)
  put_fired s none = none
  put_fired s (some (b, token, c, cxs)) = some (b, token, port.set c s, cxs)

  abbrev pub put_back : S → Contexts → Option C → Option (S × Contexts)
  put_back s cxs none = none
  put_back s cxs (some c) = some (port.set c s, cxs)

module _ {E S A : Type 0} where
  unfoldable pub sender_handle : Port E S A (Channel A) → SelectHandle E S
  unfolding SenderHandle.try SenderHandle.retry SenderHandle.deadline SenderHandle.register
      SenderHandle.unregister SenderHandle.accept SenderHandle.state
  sender_handle port = record {
    try = λ e token s cxs.
        let (s', cxs') = port.others e s cxs in
        put_fired port s' (SenderHandle.try (port.fire e) token (port.get s') cxs');
    retry = λ e token s cxs.
        let (s', cxs') = port.others e s cxs in
        put_fired port s' (SenderHandle.retry (port.fire e) token (port.get s') cxs');
    deadline = λ s. SenderHandle.deadline (port.get s);
    register = λ e oper cx s cxs.
        let (s', cxs') = port.others e s cxs in
        let (b, c) = SenderHandle.register (port.fire e) oper cx (port.get s') cxs' in
        some (b, port.set c s', cxs');
    unregister = λ e oper s cxs.
        let (s', cxs') = port.others e s cxs in
        put_back port s' cxs' (SenderHandle.unregister oper (port.get s'));
    accept = λ e token cx s cxs.
        let (s', cxs') = port.others e s cxs in
        put_fired port s' (SenderHandle.accept (port.fire e) token cx (port.get s') cxs');
    state = λ e s cxs.
        let (s', cxs') = port.others e s cxs in (SenderHandle.state (port.get s'), s', cxs');
  }

  unfoldable pub receiver_handle : Port E S A (ReceiverFlavor A) → SelectHandle E S
  unfolding ReceiverHandle.try ReceiverHandle.retry ReceiverHandle.deadline ReceiverHandle.register
      ReceiverHandle.unregister ReceiverHandle.accept ReceiverHandle.state
  receiver_handle port = record {
    try = λ e token s cxs.
        let (s', cxs') = port.others e s cxs in
        put_fired port s' (ReceiverHandle.try (port.fire e) token (port.get s') cxs');
    retry = λ e token s cxs.
        let (s', cxs') = port.others e s cxs in
        put_fired port s' (ReceiverHandle.retry (port.fire e) token (port.get s') cxs');
    deadline = λ s. ReceiverHandle.deadline (port.get s);
    register = λ e oper cx s cxs.
        let (s', cxs') = port.others e s cxs in
        let (b, r) = ReceiverHandle.register (port.fire e) oper cx (port.get s') cxs' in
        some (b, port.set r s', cxs');
    unregister = λ e oper s cxs.
        let (s', cxs') = port.others e s cxs in
        put_back port s' cxs' (ReceiverHandle.unregister oper (port.get s'));
    accept = λ e token cx s cxs.
        let (s', cxs') = port.others e s cxs in
        put_fired port s' (ReceiverHandle.accept (port.fire e) token cx (port.get s') cxs');
    state = λ e s cxs.
        let (s', cxs') = port.others e s cxs in
        (ReceiverHandle.state (port.fire e).thread.now (port.get s'), s', cxs');
  }

  -- `send` of the builder, with the address of the sender, and the index it returns.
  unfoldable pub send : Port E S A (Channel A) → ℕ → List (Item E S) → ℕ × List (Item E S)
  unfolding sender_handle
  send port s handles =
      let i = length handles in
      (i, handles ++ (record { handle = sender_handle port; index = i; ptr = s } ∷ []))

  unfoldable pub recv : Port E S A (ReceiverFlavor A) → ℕ → List (Item E S) → ℕ × List (Item E S)
  unfolding receiver_handle
  recv port r handles =
      let i = length handles in
      (i, handles ++ (record { handle = receiver_handle port; index = i; ptr = r } ∷ []))

pub record SelectedOperation : Type 0 where
  pub token : Token
  pub index : ℕ
  pub ptr : ℕ

abbrev pub selected_or : {X : Type 0} → X → Chosen → Result SelectedOperation X
selected_or e none = err e
selected_or e (some (token, index, ptr)) = ok (record { token = token; index = index; ptr = ptr })

module _ {E S : Type 0} where
  unfoldable pub try_select :
      Selection E S → State E S → Option (Result SelectedOperation TrySelectError × State E S)
  unfolding run_select
  try_select r w = elim (run_select r right_now w) [
    | none ↦ none
    | some (chosen, w') ↦ some (selected_or try_select_error chosen, w')
  ]

  -- None: a panic as well.
  unfoldable pub select : Selection E S → State E S → Option (SelectedOperation × State E S)
  unfolding run_select
  select r w = elim w.handles [
    | [] ↦ none
    | i ∷ items ↦ elim (run_select r never w) [
      | none ↦ none
      | some (none, w') ↦ none
      | some (some (token, index, ptr), w') ↦
          some (record { token = token; index = index; ptr = ptr }, w')
    ]
  ]

  -- `now` is the reading of the clock.
  unfoldable pub select_timeout :
      ℕ
      → ℕ
      → Selection E S
      → State E S
      → Option (Result SelectedOperation SelectTimeoutError × State E S)
  unfolding run_select
  select_timeout now timeout r w = elim (run_select r (at_time (now + timeout)) w) [
    | none ↦ none
    | some (chosen, w') ↦ some (selected_or select_timeout_error chosen, w')
  ]

module _ {A : Type 0} where
  -- `SelectedOperation::send` with the sender at address `s`. None: the assertion fails.
  unfoldable pub complete_send :
      Thread A
      → SelectedOperation
      → ℕ
      → A
      → Channel A
      → Contexts
      → Option (Result (Unit {0}) (SendError A) × Channel A × Contexts)
  unfolding SenderHandle.write
  complete_send t op s msg c cxs =
      if s == op.ptr
      then elim (SenderHandle.write t op.token msg c cxs) [
        | none ↦ none
        | some (res, c', cxs') ↦ some (map_err send_error res, c', cxs')
      ]
      else none

  -- `SelectedOperation::recv`
  unfoldable pub complete_recv :
      (ℕ → A)
      → Thread A
      → SelectedOperation
      → ℕ
      → ReceiverFlavor A
      → Contexts
      → Option (Result A RecvError × ReceiverFlavor A × Contexts)
  unfolding ReceiverHandle.read
  complete_recv cast t op r c cxs =
      if r == op.ptr
      then elim (ReceiverHandle.read cast t op.token c cxs) [
        | none ↦ none
        | some (res, c', cxs') ↦ some (map_err (λ _. recv_error) res, c', cxs')
      ]
      else none
