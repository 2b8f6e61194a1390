-- ===== src/Flavors.antt =====
-- The channel flavours of src/flavors.
pub mod Blocking
pub mod Array
pub mod List
pub mod After
pub mod Tick
pub mod Never
pub mod Zero
