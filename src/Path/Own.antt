-- ===== src/Path/Own.antt =====
-- Path of include/udap/path.hpp and udap/path.cpp: a path that we build. A path without hops reads
-- outside its vector; it is `none` here.
use uplexa_network.Prelude.{
  ℕ, ◌+◌, Bool, true, false, List, [], ◌∷◌, Option, none, some, if◌then◌else◌, ltb, ◌==◌,
}
use uplexa_network.Clock.{elapsed}
use uplexa_network.Dht.Key.{Key}
use uplexa_network.Relay.{upstream_message}
use uplexa_network.Path.Hop.{default_lifetime, build_timeout, Cipher, Relayed, sent}

-- PathHopConfig. Of the router's contact a path needs the key.
pub record HopConfig : Type 0 where
  pub tx_id : Key
  pub rx_id : Key
  pub router : Key
  pub shared : Key
  pub upstream : Key
  pub nonce : Key
  pub lifetime : ℕ

pub data PathStatus : Type 0 where
  building established timeout expired : PathStatus

-- `has_hook` tells whether the build result hook is set, and `built` counts its calls.
pub record OwnPath : Type 0 where
  pub hops : List HopConfig
  pub build_started : ℕ
  pub status : PathStatus
  pub latency : ℕ
  pub last_test_time : ℕ
  pub last_test_id : ℕ
  pub has_hook : Bool
  pub built : ℕ

-- The loop of the constructor: the TX id of each hop is the RX id of the next.
unfoldable pub chain : List HopConfig → List HopConfig
chain [] = []
chain (h ∷ []) = h ∷ []
chain (h ∷ h' ∷ hs) = record h { tx_id = h'.rx_id } ∷ chain (h' ∷ hs)

-- Path::Path, on the routers with the random ids that they get.
abbrev pub new_hop : Key × Key × Key → HopConfig
new_hop p = record {
  tx_id = p.1;
  rx_id = p.2;
  router = p.0;
  shared = [];
  upstream = [];
  nonce = [];
  lifetime = default_lifetime;
}

unfoldable pub new_hops : List (Key × Key × Key) → List HopConfig
new_hops [] = []
new_hops (p ∷ ps) = new_hop p ∷ new_hops ps

unfoldable pub new_path : List (Key × Key × Key) → ℕ → PathStatus → OwnPath
unfolding chain new_hops
new_path ids started status = record {
  hops = chain (new_hops ids);
  build_started = started;
  status = status;
  latency = 0;
  last_test_time = 0;
  last_test_id = 0;
  has_hook = false;
  built = 0;
}

-- TXID, RXID and Upstream.
unfoldable pub first_hop : OwnPath → Option HopConfig
first_hop p = elim p.hops [ [] ↦ none | h ∷ _ ↦ some h ]

-- Path::Expired.
unfoldable pub path_expired : OwnPath → ℕ → Bool
path_expired p now = elim p.status [
  | building ↦ ltb build_timeout (elapsed p.build_started now)
  | established ↦ elim p.hops [ [] ↦ true | h ∷ _ ↦ ltb h.lifetime (elapsed p.build_started now) ]
  | timeout ↦ true
  | expired ↦ true
]

module _ (cipher : Cipher) where
  -- The loop over the hops of HandleUpstream and HandleDownstream.
  unfoldable pub layers : List HopConfig → Key → List ℕ → List ℕ
  layers [] y x = x
  layers (h ∷ hs) y x = layers hs y (cipher h.shared y x)

  -- Path::HandleUpstream.
  unfoldable pub path_upstream : OwnPath → List ℕ → Key → Option Relayed
  path_upstream p x y = elim (first_hop p) [
    | none ↦ none
    | some h ↦ some (
        sent h.router
          (upstream_message (record { pathid = h.tx_id; x = layers p.hops y x; y = y })))
  ]

  -- Path::HandleDownstream up to the parser.
  unfoldable pub path_downstream : OwnPath → List ℕ → Key → List ℕ
  path_downstream p x y = layers p.hops y x

-- The start of HandlePathConfirmMessage and its end, with the random number and the time that it
-- takes: whether the message is accepted, and the number of the latency test that is sent then.
unfoldable pub path_confirmed : ℕ → ℕ → OwnPath → Option ℕ × OwnPath
path_confirmed random now p = elim p.status [
  | building ↦ (
    some random,
    record p {
      status = established;
      built = if p.has_hook then p.built + 1 else p.built;
      has_hook = false;
      last_test_id = random;
      last_test_time = now;
    },
  )
  | established ↦ (none, p)
  | timeout ↦ (none, p)
  | expired ↦ (none, p)
]

-- HandlePathLatencyMessage, for the field L of the message.
unfoldable pub path_latency : ℕ → ℕ → OwnPath → Bool × OwnPath
path_latency l now p =
    if l == p.last_test_id
    then (true, record p { latency = elapsed p.last_test_time now })
    else (false, p)
