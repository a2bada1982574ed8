-- ===== src/Dht/Api/Peers.antt =====
-- The bucket as a map from keys to nodes.
use uplexa_network.Prelude.{◌≡◌, refl, List, [], ◌∷◌, none, some, if◌then◌else◌, arith}
use uplexa_network.Dht.Key.{Key, eq}
use uplexa_network.Dht.Key.Laws.{eq_iff}
use uplexa_network.Dht.Context.{Context}
use uplexa_network.Dht.Api.{put_peer, remove_peer}
use uplexa_network.Dht.Bucket.{Node, put, del, find, put_node, del_node}

module _ {Rc : Type 0} where
  find-put :
      (us k : Key) (v : Node Rc) (ns : List (Node Rc))
      → find k (put us v ns) ≡ (if eq v.id k then some v else find k ns)
  unfolding find put
  find-put us k v [] = refl
  find-put us k v (n ∷ ns) =
      ground (arith, find-put us k v ns, eq_iff n.id v.id, eq_iff v.id k, eq_iff n.id k)

  -- Each node stands in the list once.
  abbrev pub Once : List (Node Rc) → Type 0
  Once [] = Unit {0}
  Once (n ∷ ns) = (find n.id ns ≡ none) × Once ns

  find-del :
      (k d : Key) (ns : List (Node Rc))
      → Once ns
      → find k (del d ns) ≡ (if eq d k then none else find k ns)
  unfolding find del
  find-del k d [] h = ground arith
  find-del k d (n ∷ ns) h =
      ground (arith, find-del k d ns h.1, eq_iff n.id d, eq_iff d k, eq_iff n.id k)

  -- A peer that is put is found under its key with its new contact, and every other key is found
  -- as before, whether or not the peer was known.
  pub find-put_peer :
      (pubkey : Rc → Key) (rc : Rc) (ctx : Context Rc) (k : Key)
      → find k (put_peer pubkey rc ctx).nodes.nodes ≡ (
          if eq (pubkey rc) k
          then some (record { id = pubkey rc; rc = rc })
          else find k ctx.nodes.nodes)
  unfolding put_peer put_node
  find-put_peer pubkey rc ctx k =
      find-put ctx.nodes.us k (record { id = pubkey rc; rc = rc }) ctx.nodes.nodes

  -- A peer that is removed is not found, and every other key is found as before, where each node
  -- stands in the bucket once.
  pub find-remove_peer :
      (d k : Key) (ctx : Context Rc)
      → Once ctx.nodes.nodes
      → find k (remove_peer d ctx).nodes.nodes ≡ (if eq d k then none else find k ctx.nodes.nodes)
  unfolding remove_peer del_node
  find-remove_peer d k ctx h = find-del k d ctx.nodes.nodes h
