-- ===== src/Flavors/Array.antt =====
-- src/flavors/array.rs, the bounded channel over a preallocated array.
pub mod Stamp
pub mod Position
pub mod Chan
pub mod Query
pub mod Receiver
pub mod Sender
pub mod Holds
pub mod Facts
pub mod Send
pub mod Recv
pub mod Init
pub mod QueryLaws
pub mod Refine
pub mod Threads
pub mod Blocking
