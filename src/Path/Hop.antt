-- ===== src/Path/Hop.antt =====
-- TransitHop of include/udap/path.hpp and udap/transit_hop.cpp: our place on somebody's path.
-- xchacha20 of the crypto library is the parameter `cipher`, on a key, a nonce and a text.
use uplexa_network.Prelude.{ℕ, Bool, ◌&&◌, List, if◌then◌else◌, ltb}
use uplexa_network.Clock.{elapsed}
use uplexa_network.Dht.Key.{Key, eq}
use uplexa_network.Relay.{LinkMessage, upstream_message, downstream_message}

-- DEFAULT_PATH_LIFETIME and PATH_BUILD_TIMEOUT, in milliseconds.
abbrev pub default_lifetime : ℕ
default_lifetime = 600000

abbrev pub build_timeout : ℕ
build_timeout = 30000

pub record TransitHopInfo : Type 0 where
  pub tx_id : Key
  pub rx_id : Key
  pub upstream : Key
  pub downstream : Key

-- TransitHopInfo::operator==.
unfoldable pub same_info : TransitHopInfo → TransitHopInfo → Bool
same_info a b =
    eq a.tx_id b.tx_id
    && eq a.rx_id b.rx_id
    && eq a.upstream b.upstream
    && eq a.downstream b.downstream

pub record TransitHop : Type 0 where
  pub info : TransitHopInfo
  pub path_key : Key
  pub started : ℕ
  pub lifetime : ℕ

-- TransitHop::Expired.
unfoldable pub hop_expired : TransitHop → ℕ → Bool
hop_expired hop now = ltb hop.lifetime (elapsed hop.started now)

-- What a relayed message comes to: it goes on to another router, it is at the end of its path, where
-- the text is parsed as a routing message, or it is refused.
pub data Relayed : Type 0 where
  sent : Key → LinkMessage → Relayed
  at_end : List ℕ → Relayed
  refused : Relayed

abbrev pub Cipher : Type 0
Cipher = Key → Key → List ℕ → List ℕ

module _ (cipher : Cipher) where
  -- TransitHop::HandleDownstream.
  unfoldable pub hop_downstream : TransitHop → List ℕ → Key → Relayed
  hop_downstream hop x y =
      sent hop.info.downstream (
        downstream_message (record { pathid = hop.info.rx_id; x = cipher hop.path_key y x; y = y }))

  -- TransitHop::HandleUpstream at the router with the key `us`.
  unfoldable pub hop_upstream : Key → TransitHop → List ℕ → Key → Relayed
  hop_upstream us hop x y =
      if eq hop.info.upstream us
      then at_end (cipher hop.path_key y x)
      else sent hop.info.upstream (
          upstream_message (record { pathid = hop.info.tx_id; x = cipher hop.path_key y x; y = y }))
