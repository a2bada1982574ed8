-- ===== src/Clock.antt =====
-- Times are 64-bit milliseconds (udap_time_t).
use uplexa_network.Prelude.{ℕ, ◌+◌, ◌-◌, ◌%◌, ◌^◌}

-- `now - started`.
abbrev pub elapsed : ℕ → ℕ → ℕ
elapsed started now = (now + 2 ^ 64 - started) % 2 ^ 64
