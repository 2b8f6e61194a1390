-- ===== src/Tests.antt =====
-- Runs of the code on concrete inputs, and an instance of each result that has conditions.
mod Array
mod Blocked
mod Linked
mod Timed
mod Waiting
mod Shuffled
mod Met
mod Handles
mod Selected
