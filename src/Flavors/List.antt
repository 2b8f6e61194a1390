-- ===== src/Flavors/List.antt =====
-- src/flavors/list.rs: the channel without a bound.
pub mod Chan
pub mod Calls
pub mod Query
pub mod Receiver
pub mod Sender
pub mod Cells
pub mod Holds
pub mod Send
pub mod Push
pub mod Recv
pub mod QueryLaws
pub mod Refine
pub mod Blocking
