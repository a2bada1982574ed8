-- ===== src/Iwp/FrameState/Acks.antt =====
-- Acknowledgement masks: what the receiver says that it has is what the sender notes.
use uplexa_network.Prelude.{
  ℕ, zero, suc, ◌+◌, ◌*◌, ◌/◌, ◌%◌, ◌^◌, ◌≤◌, ◌<◌, ◌≡◌, ap, Bool, ◌||◌, arith, if◌then◌else◌, ◌==◌,
  lt→ltb, subst,
}
use native.Mathlib.Nat.{div-div-eq-div-mul, pow-succ', add-zero}
use uplexa_network.Iwp.Transit.{Transit, bitmask_from, get_bitmask, ack}

bit_step : (b r k : ℕ) → b ≤ 1 → (b + 2 * r) / 2 ^ suc k ≡ r / 2 ^ k
bit_step b r k h =
    let e : (b + 2 * r) / 2 ≡ r = omega arith in
    rw (pow-succ' 2 k)
      (rw (← div-div-eq-div-mul (b + 2 * r) 2 (2 ^ k)) (ap (λ (x : ℕ). x / 2 ^ k) e))

-- Bit `k` of the mask is the mark `i + k`.
bitmask_bit :
    (status : ℕ → Bool) (n i k : ℕ)
    → k < n
    → ((bitmask_from status n i / 2 ^ k % 2) == 1) ≡ status (i + k)
unfolding bitmask_from
bitmask_bit status zero i k h = absurd (omega arith)
bitmask_bit status (suc n) i zero h = rw add-zero (ground arith)
bitmask_bit status (suc n) i (suc k) h =
    let at : i + suc k ≡ suc i + k = omega arith in
    let e : ((if status i then 1 else 0) + 2 * bitmask_from status n (suc i)) / 2 ^ suc k
        ≡ bitmask_from status n (suc i) / 2 ^ k =
      bit_step (if status i then 1 else 0) (bitmask_from status n (suc i)) k (ground arith) in
    rw (e, at) (bitmask_bit status n (suc i) k (omega arith))

-- The sender that acknowledges the receiver's mask marks, among its 32 places, exactly the
-- fragments that the receiver has or that were acknowledged before.
pub ack-get_bitmask :
    (t r : Transit) (i : ℕ) → i < 32 → (ack (get_bitmask r) t).status i ≡ (r.status i || t.status i)
unfolding ack get_bitmask
ack-get_bitmask t r i h =
    let bit : ((bitmask_from r.status 32 0 / 2 ^ i % 2) == 1) ≡ r.status i =
      subst (λ n. ((bitmask_from r.status 32 0 / 2 ^ i % 2) == 1) ≡ r.status n) (omega arith)
        (bitmask_bit r.status 32 0 i h) in
    rw (lt→ltb i 32 h) (rw bit (ground arith))
