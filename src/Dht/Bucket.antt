-- ===== src/Dht/Bucket.antt =====
-- Bucket of include/udap/dht.hpp and udap/dht.cpp: the nodes that we know, in the order of their
-- distance from us. `Rc` is the router contact that a node points to.
pub mod Search
pub mod Closest
use uplexa_network.Prelude.{
  ℕ, ◌≡◌, ◌&&◌, Bool, true, false, not, List, [], ◌∷◌, if◌then◌else◌, Option, none, some,
}
use uplexa_network.Dht.Key.{Key, xor, lt, eq, closer, all_ones}

pub record Node (Rc : Type 0) : Type 0 where
  pub id : Key
  pub rc : Rc

pub record Bucket (Rc : Type 0) : Type 0 where
  pub us : Key
  pub nodes : List (Node Rc)

-- `std::set` of keys; its order does not matter to the program.
unfoldable pub member : Key → List Key → Bool
member k [] = false
member k (x ∷ xs) = let rest = member k xs in if eq x k then true else rest

unfoldable pub insert : Key → List Key → List Key
unfolding member
insert k xs = if member k xs then xs else k ∷ xs

module _ {Rc : Type 0} where
  -- `nodes[v.ID] = v` of the ordered map.
  unfoldable pub put : Key → Node Rc → List (Node Rc) → List (Node Rc)
  put us v [] = v ∷ []
  put us v (n ∷ ns) =
      let rest = put us v ns in
      if eq n.id v.id then v ∷ ns else if closer us v.id n.id then v ∷ n ∷ ns else n ∷ rest

  unfoldable pub del : Key → List (Node Rc) → List (Node Rc)
  del k [] = []
  del k (n ∷ ns) = let rest = del k ns in if eq n.id k then ns else n ∷ rest

  unfoldable pub find : Key → List (Node Rc) → Option (Node Rc)
  find k [] = none
  find k (n ∷ ns) = let rest = find k ns in if eq n.id k then some n else rest

  unfoldable pub put_node : Bucket Rc → Node Rc → Bucket Rc
  unfolding put
  put_node b v = record b { nodes = put b.us v b.nodes }

  unfoldable pub del_node : Bucket Rc → Key → Bucket Rc
  unfolding del
  del_node b k = record b { nodes = del k b.nodes }

  -- The loop of `FindClosest` over the nodes left, with `mindist` and `result`.
  unfoldable pub closest_loop : Key → List (Node Rc) → Key → Key → Key × Key
  closest_loop target [] mindist result = (mindist, result)
  closest_loop target (n ∷ ns) mindist result =
      let hit = lt (xor n.id target) mindist in
      closest_loop target ns (if hit then xor n.id target else mindist)
        (if hit then n.id else result)

  -- The caller's `result` comes in as it is, and comes out unchanged where nothing is assigned.
  unfoldable pub find_closest : Bucket Rc → Key → Key → Bool × Key
  unfolding closest_loop
  find_closest b target result =
      (elim b.nodes [ [] ↦ false | _ ∷ _ ↦ true ], (closest_loop target b.nodes all_ones result).1)

  unfoldable pub excluding_loop : Key → List Key → List (Node Rc) → Key → Key → Key × Key
  excluding_loop target exclude [] mindist result = (mindist, result)
  excluding_loop target exclude (n ∷ ns) mindist result =
      let hit = not (member n.id exclude) && lt (xor n.id target) mindist in
      excluding_loop target exclude ns (if hit then xor n.id target else mindist)
        (if hit then n.id else result)

  unfoldable pub find_close_excluding : Bucket Rc → Key → List Key → Key → Bool × Key
  unfolding excluding_loop
  find_close_excluding b target exclude result =
      let r = excluding_loop target exclude b.nodes all_ones result in (lt r.0 all_ones, r.1)
