-- ===== src/Channel/Rows.antt =====
-- The handles of src/channel.rs used any number of times in a row.
use crossbeam_channel.Common.{
  ℕ, suc, ◌+◌, ◌≡◌, refl, arith, List, [], ◌∷◌, Option, some, length, map, Succeeds,
}
use crossbeam_channel.Context.{Contexts}
use crossbeam_channel.Queue.{Queue, Call}
use crossbeam_channel.Queue.Runs.{Invocation, Out, Implementation}
use crossbeam_channel.Channel.{Channel, ChannelFlavor}
use crossbeam_channel.Channel.Thread.{Thread}
use crossbeam_channel.Channel.Senders.{in_flavor}
use crossbeam_channel.Channel.Actions.{Action, AllLive, call, act, act_all}
use crossbeam_channel.Channel.Pipe.{
  Use, method, clone_sender, drop_sender, clone_receiver, drop_receiver, Pipe, pipe_step, pipe_run,
  Allowed, AllAllowed,
}
use crossbeam_channel.Channel.Refine.{
  Stands, method-Agrees, drop_sender-Agrees, drop_receiver-Agrees, clone_sender-Agrees,
  clone_receiver-Agrees,
}

-- The actions, and `k` calls after them.
abbrev pub calls_left : {A : Type 0} → List (Action A) → ℕ → ℕ
calls_left [] k = k
calls_left (a ∷ rest) k = suc (calls_left rest k)

pub calls_left-eq :
    {A : Type 0} (actions : List (Action A)) (k : ℕ) → calls_left actions k ≡ length actions + k
calls_left-eq [] k = omega arith
calls_left-eq (a ∷ rest) k = ground (arith, calls_left-eq rest k)

module _ {A : Type 0} (cast : ℕ → A) where
  module _ {C : Type 0} {cap : Option ℕ} {perform : Invocation A → C → Contexts → Out A C}
      (impl : Implementation A C cap perform) (wrap : C → ChannelFlavor A)
      (weaken : (n : ℕ) (s : Queue A) (c : C) → impl.Models (suc n) s c → impl.Models n s c)
      (link : (t : Thread A) (k : Call A) (c : Channel A) (chan : C) (cxs : Contexts)
        → c.flavor ≡ wrap chan
        → call cast t k c cxs
          ≡ in_flavor wrap c
              (perform (record { me = t.me; rounds = t.rounds; call = k }) chan cxs)) where
    use-Agrees :
        (n : ℕ) (t : Thread A) (u : Use A) (p : Pipe A) (c : Channel A) (cxs : Contexts)
        → Succeeds t.rounds
        → Allowed u p
        → Stands cast impl wrap weaken link (suc n) p c
        → (c' : Channel A) × (cxs' : Contexts) × (act cast (record { thread = t; use_of = u }) c cxs
            ≡ some ((pipe_step cap u p).0, c', cxs'))
          × Stands cast impl wrap weaken link n (pipe_step cap u p).1 c'
    unfolding act
    use-Agrees n t (method k) p c cxs live ok st =
        method-Agrees cast impl wrap weaken link n t k p c cxs live ok st
    use-Agrees n t clone_sender p c cxs live ok st =
        clone_sender-Agrees cast impl wrap weaken link n t p c cxs ok st
    use-Agrees n t drop_sender p c cxs live ok st =
        drop_sender-Agrees cast impl wrap weaken link n t p c cxs live ok st
    use-Agrees n t clone_receiver p c cxs live ok st =
        clone_receiver-Agrees cast impl wrap weaken link n t p c cxs ok st
    use-Agrees n t drop_receiver p c cxs live ok st =
        drop_receiver-Agrees cast impl wrap weaken link n t p c cxs live ok st

    pub act_all-refines :
        (k : ℕ) (actions : List (Action A)) (p : Pipe A) (c : Channel A) (cxs : Contexts)
        → AllLive actions
        → AllAllowed cap (map (λ a. a.use_of) actions) p
        → Stands cast impl wrap weaken link (calls_left actions k) p c
        → let (replies, end) = pipe_run cap (map (λ a. a.use_of) actions) p in
          (c' : Channel A) × (cxs' : Contexts) × (act_all cast actions c cxs
            ≡ some (replies, c', cxs'))
          × Stands cast impl wrap weaken link k end c'
    unfolding act_all pipe_run
    act_all-refines k [] p c cxs live ok st = (c, cxs, refl, st)
    act_all-refines k (a ∷ rest) p c cxs live ok st =
        let (c1, cxs1, e1, st1) =
          use-Agrees (calls_left rest k) a.thread a.use_of p c cxs live.0 ok.0 st in
        let (c2, cxs2, e2, st2) = act_all-refines k rest _ c1 cxs1 live.1 ok.1 st1 in
        (c2, cxs2, ground (arith, e1, e2), st2)
