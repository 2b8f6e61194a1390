-- ===== src/Channel/Fire.antt =====
-- What `SelectHandle` for `Sender` and `Receiver` of src/channel.rs is given, and how it keeps the
-- token of each flavor.
use crossbeam_channel.Common.{ℕ, Bool, List, Option, none, some}
use crossbeam_channel.Context.{Contexts}
use crossbeam_channel.Flavors
use crossbeam_channel.Flavors.Zero.Chan.{Pause}
use crossbeam_channel.Channel.{Channel, array, list, zero, with_flavor}
use crossbeam_channel.Channel.Thread.{Thread}
use crossbeam_channel.Select.{Token}

-- The calling thread, the short pause of a retry, and what others do before each load of the packet
-- that an operation waits for.
pub record Fire (A : Type 0) : Type 0 where
  pub thread : Thread A
  pub pause : Pause A
  pub loads : List (Contexts → Contexts)

module _ {A : Type 0} where
  abbrev pub from_array :
      Token
      → Channel A
      → Contexts
      → Option (Bool × Flavors.Array.Chan.ArrayToken × Flavors.Array.Chan.Channel A)
      → Option (Bool × Token × Channel A × Contexts)
  from_array token c cxs none = none
  from_array token c cxs (some (b, t, chan)) =
      some (b, record token { array = t }, with_flavor c (array chan), cxs)

  abbrev pub from_list :
      Token
      → Channel A
      → Contexts
      → Option (Bool × Flavors.List.Chan.ListToken × Flavors.List.Chan.Channel A)
      → Option (Bool × Token × Channel A × Contexts)
  from_list token c cxs none = none
  from_list token c cxs (some (b, t, chan)) =
      some (b, record token { list = t }, with_flavor c (list chan), cxs)

  abbrev pub from_zero :
      Token
      → Channel A
      → Option (Bool × ℕ × Flavors.Zero.Packets.Channel A × Contexts)
      → Option (Bool × Token × Channel A × Contexts)
  from_zero token c none = none
  from_zero token c (some (b, t, chan, cxs)) =
      some (b, record token { zero = t }, with_flavor c (zero chan), cxs)

  -- `accept` of a handle of the flavor without capacity.
  abbrev pub from_accept :
      Token
      → Channel A
      → Option (Bool × ℕ × Contexts)
      → Option (Bool × Token × Channel A × Contexts)
  from_accept token c none = none
  from_accept token c (some (b, t, cxs)) = some (b, record token { zero = t }, c, cxs)
