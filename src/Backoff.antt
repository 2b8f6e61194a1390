-- ===== src/Backoff.antt =====
-- `Backoff` of src/utils.rs, the counter behind every spin loop.
pub mod Rounds
use crossbeam_channel.Common.{ℕ, ◌+◌, ◌%◌, ◌^◌, Bool, min, leb, if◌then◌else◌}

-- The counter is a `u32`.
pub record Backoff : Type 0 where
  pub step : ℕ

-- What a call does to pass the time.
pub data Pause : Type 0 where
  hints : ℕ → Pause
  yield_now : Pause

abbrev pub wrapping_suc : ℕ → ℕ
wrapping_suc n = (n + 1) % 2 ^ 32

abbrev pub fresh : Backoff
fresh = record { step = 0 }

unfoldable pub spin : Backoff → Pause × Backoff
spin b = (hints (2 ^ min b.step 6), record { step = wrapping_suc b.step })

unfoldable pub snooze : Backoff → Pause × Backoff × Bool
snooze b =
    let next = wrapping_suc b.step in
    (if leb b.step 6 then hints (2 ^ b.step) else yield_now, record { step = next }, leb next 10)
