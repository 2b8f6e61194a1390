-- ===== src/Channel/Thread.antt =====
-- The thread that calls a method of src/channel.rs, with what the other threads do meanwhile.
use crossbeam_channel.Common.{ℕ, Bool, List}
use crossbeam_channel.Clock.{Clock}
use crossbeam_channel.Flavors
use crossbeam_channel.Flavors.Blocking.{Turn}
use crossbeam_channel.Flavors.Zero.Blocking.{Wait}

-- `me` is its id, `cx` its context, `address` that of its token and `now` the clock at the call. The
-- rest is what the method of each flavor is given.
pub record Thread (A : Type 0) : Type 0 where
  pub me : ℕ
  pub cx : ℕ
  pub address : ℕ
  pub now : ℕ
  pub rounds : List Bool
  pub array_turns : List (Turn (Flavors.Array.Chan.Channel A))
  pub list_turns : List (Turn (Flavors.List.Chan.Channel A))
  pub zero_wait : Wait A
  pub clock : Clock
  pub taken : Bool
  pub ticks : List ((Flavors.Tick.Channel → Flavors.Tick.Channel) × ℕ)
