-- ===== src/Examples/Routes.antt =====
-- Runs of a path of two hops: the router 10 builds it over the routers 11 and 12.
use uplexa_network.Prelude.{
  ℕ, ◌≡◌, refl, true, false, List, [], ◌∷◌, none, some, arith, if◌then◌else◌, Bool-cases, inl, inr,
}
use uplexa_network.Dht.Key.{Key, eq}
use uplexa_network.Path.Hop.{TransitHop, Cipher, Relayed, at_end, hop_expired}
use uplexa_network.Path.Own.{HopConfig, OwnPath, established, first_hop}
use uplexa_network.Path.Context.{
  PathContext, find_hop, find_own, find_path, own_by_upstream, own_path, get_by_upstream,
  get_by_downstream, put_transit_hop, add_own_path, add_path, put_own, set_builder, expire_paths,
  expired_hops, erase_all, erase_hops,
}
use uplexa_network.Path.Network.{landed, land, run}
use uplexa_network.Path.Onion.{IsStream, CarriesUp, CarriesDown}
use uplexa_network.Path.Transit.{find_hop-expire_paths, expire_paths_lem}
use uplexa_network.Path.Messages.{path_send, hop_receive, path_receive}
use uplexa_network.Path.Echo.{latency_of, path_send_echo}

-- A cipher that exchanges the first two bytes under the key 7.
abbrev flip : List ℕ → List ℕ
flip [] = []
flip (a ∷ []) = a ∷ []
flip (a ∷ b ∷ xs) = b ∷ a ∷ xs

flip-flip : (xs : List ℕ) → flip (flip xs) ≡ xs
flip-flip [] = refl
flip-flip (a ∷ []) = refl
flip-flip (a ∷ b ∷ xs) = refl

abbrev exchange : Cipher
exchange k y xs = if eq k (7 ∷ []) then flip xs else xs

exchange-IsStream : IsStream exchange
exchange-IsStream = record {
  undo =
      λ k y x. elim (Bool-cases (eq k (7 ∷ []))) [ inl e ↦ rw e (flip-flip x) | inr e ↦ rw e refl ];
  swap = λ k l y x. elim (Bool-cases (eq k (7 ∷ []))) [
    | inr e ↦ rw e refl
    | inl e ↦ elim (Bool-cases (eq l (7 ∷ []))) [ inl f ↦ rw (e, f) refl | inr f ↦ rw (e, f) refl ]
  ];
}

abbrev router : ℕ → Key
router n = n ∷ []

abbrev hop1 : HopConfig
hop1 = record {
  tx_id = 32 ∷ [];
  rx_id = 31 ∷ [];
  router = router 11;
  shared = 7 ∷ [];
  upstream = router 12;
  nonce = [];
  lifetime = 600000;
}

abbrev hop2 : HopConfig
hop2 = record {
  tx_id = 33 ∷ [];
  rx_id = 32 ∷ [];
  router = router 12;
  shared = 8 ∷ [];
  upstream = router 12;
  nonce = [];
  lifetime = 600000;
}

abbrev path : OwnPath
path = record {
  hops = hop1 ∷ hop2 ∷ [];
  build_started = 1000;
  status = established;
  latency = 0;
  last_test_time = 1500;
  last_test_id = 77;
  has_hook = false;
  built = 1;
}

abbrev transit1 : TransitHop
transit1 = record {
  info = record { tx_id = 32 ∷ []; rx_id = 31 ∷ []; upstream = router 12; downstream = router 10 };
  path_key = 7 ∷ [];
  started = 1000;
  lifetime = 600000;
}

abbrev transit2 : TransitHop
transit2 = record {
  info = record { tx_id = 33 ∷ []; rx_id = 32 ∷ []; upstream = router 12; downstream = router 11 };
  path_key = 8 ∷ [];
  started = 1000;
  lifetime = 600000;
}

abbrev no_paths : Key → PathContext
no_paths us = record {
  us = us;
  allow_transit = true;
  transit = [];
  own = [];
  builders = record { wanted = 1; paths = [] } ∷ [];
}

abbrev net : Key → PathContext
net k =
    if eq k (router 10)
    then add_own_path 0 path (no_paths k)
    else if eq k (router 11)
    then put_transit_hop transit1 (no_paths k)
    else put_transit_hop transit2 (no_paths k)

carries_up : CarriesUp net (router 10) (32 ∷ []) (hop1 ∷ hop2 ∷ []) (transit1 ∷ transit2 ∷ [])
unfolding get_by_downstream find_hop put_transit_hop add_own_path eq
carries_up = (refl, refl, refl, refl, ground arith, (refl, refl, refl, refl))

carries_down : CarriesDown net (router 10) (hop1 ∷ hop2 ∷ []) (transit1 ∷ transit2 ∷ [])
unfolding get_by_upstream own_by_upstream find_own find_hop put_transit_hop add_own_path eq
carries_down = (refl, refl, refl, (refl, refl))

own_at_us : get_by_upstream (router 11) (31 ∷ []) (net (router 10)) ≡ some (own_path path)
unfolding get_by_upstream own_by_upstream find_own find_path add_own_path add_path put_own
    set_builder first_hop eq
own_at_us = refl

path_send_echo_example :
    (r : Relayed) × (asked : List ℕ) × (answer : List ℕ) × (path_send exchange
        (λ _. 0)
        (1 ∷ [])
        (latency_of 77 0)
        path
      ≡ some r)
    × (run exchange net 2 (land (router 10) r) ≡ landed (router 12) (at_end asked))
    × (run exchange net 2 (land (router 12) (hop_receive exchange (λ _. 9) (2 ∷ []) asked transit2))
        ≡ landed (router 10) (at_end answer))
    × (path_receive 5 1700 answer path ≡ some (none, record path { latency = 200 }))
path_send_echo_example =
    path_send_echo exchange exchange-IsStream net (router 10) path hop1 (hop2 ∷ []) refl transit1
      (transit2 ∷ []) (λ _. 0) (λ _. 9) (1 ∷ []) (2 ∷ []) 5 1700 (omega arith) carries_up
      carries_down own_at_us

-- A hop that runs out, and a later one that got the same id.
abbrev late : TransitHop
late = record transit2 { started = 500000 }

abbrev crowded : PathContext
crowded = put_transit_hop late (put_transit_hop transit1 (no_paths (router 11)))

expire_paths_lem_example :
    (hop_expired late 700000 ≡ false) × (find_hop (λ _. true) (33 ∷ []) crowded.transit ≡ some late)
unfolding hop_expired expire_paths expired_hops find_hop put_transit_hop eq erase_all erase_hops
expire_paths_lem_example =
    expire_paths_lem 700000 (λ _. true) (33 ∷ []) crowded late
      (inl refl, (inr refl, (inl refl, (inr refl, tt)))) refl

find_hop-expire_paths_example :
    find_hop (λ _. true) (32 ∷ []) (expire_paths 700000 crowded).transit ≡ none
unfolding hop_expired expired_hops put_transit_hop eq
find_hop-expire_paths_example = find_hop-expire_paths 700000 (λ _. true) (32 ∷ []) crowded
