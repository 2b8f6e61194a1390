-- ===== src/Flavors/Zero.antt =====
-- src/flavors/zero.rs: the channel without capacity, in which a sender and a receiver meet.
pub mod Packets
pub mod Chan
pub mod Calls
pub mod Blocking
pub mod Handles
pub mod Owned
pub mod Safe
pub mod Meet
pub mod Deliver
pub mod Collect
pub mod Alone
pub mod Cut
