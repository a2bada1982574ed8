-- ===== src/Dht/Bucket/Closest.antt =====
-- `FindClosest` is the search with nothing excluded, but for what it answers.
use uplexa_network.Prelude.{◌≡◌, refl, ◌⊎◌, ◌↔◌, true, false, List, [], ◌∷◌, arith}
use uplexa_network.Dht.Key.{Key, xor, all_ones}
use uplexa_network.Dht.Key.Laws.{lt_irrefl}
use uplexa_network.Dht.Bucket.{
  Node, Bucket, member, closest_loop, excluding_loop, find_closest, find_close_excluding,
}
use uplexa_network.Dht.Bucket.Search.{Known, NoneNearer, find_close_excluding_closest}

module _ {Rc : Type 0} where
  closest_loop-excluding_loop :
      (target : Key) (ns : List (Node Rc)) (d result : Key)
      → closest_loop target ns d result ≡ excluding_loop target [] ns d result
  unfolding closest_loop excluding_loop member
  closest_loop-excluding_loop target [] d result = refl
  closest_loop-excluding_loop target (n ∷ ns) d result = closest_loop-excluding_loop target ns _ _

  -- FindClosest answers false exactly when there is no node. The result is a known node to which
  -- no other is nearer, or it is left alone and no node is nearer than the greatest distance.
  pub find_closest_lem :
      (b : Bucket Rc) (target result : Key)
      → let r = find_closest b target result in
        ((r.0 ≡ false) ↔ (b.nodes ≡ []))
        × ((Known r.1 b.nodes × NoneNearer target [] (xor r.1 target) b.nodes)
            ⊎ ((r.1 ≡ result) × NoneNearer target [] all_ones b.nodes))
  unfolding find_closest find_close_excluding
  find_closest_lem b target result = (
    ground arith,
    rw (closest_loop-excluding_loop target b.nodes all_ones result)
        (ground (arith, find_close_excluding_closest b target [] result)),
  )

  -- A lone node at the greatest distance is not found by FindClosest, though the answer is true.
  pub find_closest_antipode :
      (us : Key) (n : Node Rc) (target result : Key)
      → xor n.id target ≡ all_ones
      → find_closest (record { us = us; nodes = n ∷ [] }) target result ≡ (true, result)
  unfolding find_closest closest_loop
  find_closest_antipode us n target result e = ground (arith, lt_irrefl all_ones)
