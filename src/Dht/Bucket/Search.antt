-- ===== src/Dht/Bucket/Search.antt =====
-- `FindCloseExcluding` finds a closest node outside the excluded ones.
use uplexa_network.Prelude.{◌≡◌, ◌⊎◌, refl, true, false, List, [], ◌∷◌, arith, inl, inr, All}
use uplexa_network.Dht.Key.{Key, xor, lt, all_ones}
use uplexa_network.Dht.Key.Laws.{lt_irrefl, lt_trans, not_lt_down}
use uplexa_network.Dht.Bucket.{Node, Bucket, member, excluding_loop, find_close_excluding}

-- A node that gave its distance, or was passed over, is not nearer than where the loop ends.
not_nearer : (dist d r : Key) → lt dist d ≡ false → (r ≡ d) ⊎ (lt r d ≡ true) → lt dist r ≡ false
not_nearer dist d r p (inl e) = rw e p
not_nearer dist d r p (inr e) = not_lt_down dist d r p e

module _ {Rc : Type 0} where
  -- The node stands in the list.
  abbrev pub Known : Key → List (Node Rc) → Type 0
  Known k [] = ⊥
  Known k (n ∷ ns) = (n.id ≡ k) ⊎ Known k ns

  -- No node of the list that is not excluded is nearer to the target than `dist`.
  abbrev pub NoneNearer : Key → List Key → Key → List (Node Rc) → Type 0
  NoneNearer target exclude dist ns =
      All (λ n. (member n.id exclude ≡ true) ⊎ (lt (xor n.id target) dist ≡ false)) ns

  -- What the loop returns: either nothing was nearer and all is as before, or the result is a node of
  -- the list, not excluded, at the distance returned; and nothing else is nearer.
  excluding_loop_lem :
      (target : Key) (exclude : List Key) (ns : List (Node Rc)) (d result : Key)
      → let r = excluding_loop target exclude ns d result in
        NoneNearer target exclude r.0 ns
        × (((r.0 ≡ d) × (r.1 ≡ result))
            ⊎ ((lt r.0 d ≡ true)
                × Known r.1 ns
                × (member r.1 exclude ≡ false)
                × (r.0 ≡ xor r.1 target)))
  unfolding excluding_loop
  excluding_loop_lem target exclude [] d result = (tt, inl (refl, refl))
  excluding_loop_lem target exclude (n ∷ ns) d result = ground (
    arith,
    excluding_loop_lem target exclude ns (xor n.id target) n.id,
    excluding_loop_lem target exclude ns d result,
    lt_irrefl (xor n.id target),
    not_nearer (xor n.id target) d (excluding_loop target exclude ns d result).0,
    not_nearer (xor n.id target) (xor n.id target)
        (excluding_loop target exclude ns (xor n.id target) n.id).0,
    lt_trans (excluding_loop target exclude ns (xor n.id target) n.id).0 (xor n.id target) d,
  )

  -- FindCloseExcluding answers true with a known node outside the excluded ones at less than the
  -- greatest distance, to which no other such node is nearer; or it answers false, leaves the
  -- result alone, and no node outside the excluded ones is nearer than the greatest distance.
  pub find_close_excluding_closest :
      (b : Bucket Rc) (target : Key) (exclude : List Key) (result : Key)
      → let r = find_close_excluding b target exclude result in
        ((r.0 ≡ true)
          × Known r.1 b.nodes
          × (member r.1 exclude ≡ false)
          × (lt (xor r.1 target) all_ones ≡ true)
          × NoneNearer target exclude (xor r.1 target) b.nodes)
        ⊎ ((r.0 ≡ false) × (r.1 ≡ result) × NoneNearer target exclude all_ones b.nodes)
  unfolding find_close_excluding
  find_close_excluding_closest b target exclude result =
      let (none_nearer, outcome) = excluding_loop_lem target exclude b.nodes all_ones result in
      elim outcome [
        | inl (d, r) ↦ ground (arith, lt_irrefl all_ones)
        | inr (d, known, allowed, e) ↦ inl (d, known, allowed, rw (← e) d, rw (← e) none_nearer)
      ]
