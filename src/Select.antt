-- ===== src/Select.antt =====
-- src/select.rs: waiting on several operations at once.
pub mod Ready
pub mod Block
pub mod Run
pub mod Builder
pub mod Order
pub mod Fired
pub mod Chosen
pub mod Answers
pub mod Parked
pub mod Woken
pub mod Alone
use crossbeam_channel.Common.{ℕ, Bool, List, Option, none, some}
use crossbeam_channel.Context.{Contexts}
use crossbeam_channel.Flavors

-- The field of the flavor that an operation uses is set when it starts.
pub record Token : Type 0 where
  pub after : Option ℕ
  pub array : Flavors.Array.Chan.ArrayToken
  pub list : Flavors.List.Chan.ListToken
  pub never : Unit {0}
  pub tick : Option ℕ
  pub zero : ℕ

abbrev pub default : Token
default = record {
  after = none;
  array = Flavors.Array.Chan.null_token;
  list = Flavors.List.Chan.null_token;
  never = tt;
  tick = none;
  zero = 0;
}

-- The trait, on channels that stand in the shared state `S`. An `E` is what one call is given: what
-- other threads do before it and while it runs. None: the call does not return.
pub record SelectHandle (E S : Type 0) : Type 0 where
  pub try : E → Token → S → Contexts → Option (Bool × Token × S × Contexts)
  pub retry : E → Token → S → Contexts → Option (Bool × Token × S × Contexts)
  pub deadline : S → Option ℕ
  pub register : E → ℕ → ℕ → S → Contexts → Option (Bool × S × Contexts)
  pub unregister : E → ℕ → S → Contexts → Option (S × Contexts)
  pub accept : E → Token → ℕ → S → Contexts → Option (Bool × Token × S × Contexts)
  pub state : E → S → Contexts → ℕ × S × Contexts

pub data Timeout : Type 0 where
  right_now : Timeout
  never : Timeout
  at_time : ℕ → Timeout

-- A member of `handles`: a handle with its index and the address of its sender or receiver.
pub record Item (E S : Type 0) : Type 0 where
  pub handle : SelectHandle E S
  pub index : ℕ
  pub ptr : ℕ

-- The handles in their order, the generator of the thread, and what all threads share.
pub record State (E S : Type 0) : Type 0 where
  pub handles : List (Item E S)
  pub rng : ℕ
  pub shared : S
  pub contexts : Contexts

-- The result of `run_select`.
abbrev pub Chosen : Type 0
Chosen = Option (Token × ℕ × ℕ)

-- A loop over the handles fires an operation, or none.
pub data Tried (E S : Type 0) : Type 0 where
  fires : Token → Item E S → S → Contexts → Tried E S
  fails : Token → S → Contexts → Tried E S
