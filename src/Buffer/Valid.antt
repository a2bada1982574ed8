-- ===== src/Buffer/Valid.antt =====
-- When the cursor of a `udap_buffer_t` is inside its region.
use uplexa_network.Prelude.{ℕ, ◌+◌, ◌-◌, ◌≤◌, ◌≡◌, arith}
use uplexa_network.Buffer.{Buffer, size_left, advance}

pub record IsValid (b : Buffer) : Type 0 where
  pub ordered : b.base ≤ b.cur
  pub inside : b.cur ≤ b.base + b.sz

pub size_left_lem : (b : Buffer) → b.base ≤ b.cur → size_left b ≡ b.base + b.sz - b.cur
unfolding size_left
size_left_lem b h = ground arith

pub advance-IsValid :
    (n : ℕ) (b : Buffer) → IsValid b → b.cur + n ≤ b.base + b.sz → IsValid (advance n b)
advance-IsValid n b v h = ground arith
