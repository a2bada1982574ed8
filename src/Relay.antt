-- ===== src/Relay.antt =====
-- The relayed messages of include/udap/messages/relay.hpp and relay_commit.hpp.
pub mod Codec
use uplexa_network.Prelude.{ℕ, List}
use uplexa_network.Dht.Key.{Key}

-- RelayUpstreamMessage and RelayDownstreamMessage have the same fields: the path, what is encrypted,
-- and the nonce.
pub record RelayMessage : Type 0 where
  pub pathid : Key
  pub x : List ℕ
  pub y : Key

-- What a path sends to another router.
pub data LinkMessage : Type 0 where
  upstream_message : RelayMessage → LinkMessage
  downstream_message : RelayMessage → LinkMessage
  commit_message : List (List ℕ) → LinkMessage
