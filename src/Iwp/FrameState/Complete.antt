-- ===== src/Iwp/FrameState/Complete.antt =====
-- A fragment of an inbound message that the bitset of 32 places has no place for.
use uplexa_network.Prelude.{ℕ, ◌≤◌, ◌<◌, ◌≡◌, List, some, arith}
use native.Mathlib.Nat.{zero-add}
use uplexa_network.Iwp.Transit.{
  Xmit, out_of_range, inbound, put_frag, find_frag, set_bit, room_from,
}
use uplexa_network.Iwp.Receive.{room_from-room}

-- A fragment of an inbound message with a number that the message has, but from 32 on, makes the
-- receiver throw std::out_of_range.
pub put_frag_throws :
    (x : Xmit) (i : ℕ) (bytes : List ℕ)
    → 32 ≤ i
    → i < x.numfrags
    → put_frag i bytes (inbound x) ≡ out_of_range
unfolding put_frag inbound set_bit
put_frag_throws x i bytes h k =
    let (f, e) = room_from-room x.fragsize x.numfrags 0 i k in
    let e' : find_frag i (room_from x.fragsize x.numfrags 0) ≡ some f = rw zero-add at e in
    ground arith
