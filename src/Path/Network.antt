-- ===== src/Path/Network.antt =====
-- Relayed messages on their way through the routers, each with its PathContext.
use uplexa_network.Prelude.{ℕ, zero, suc}
use uplexa_network.Dht.Key.{Key}
use uplexa_network.Relay.{LinkMessage, upstream_message, downstream_message, commit_message}
use uplexa_network.Path.Hop.{Cipher, Relayed, sent, at_end, refused}
use uplexa_network.Path.Context.{PathContext, relay_upstream, relay_downstream}

-- A message is between two routers, or has come to its end at one.
pub data Flight : Type 0 where
  flying : Key → Key → LinkMessage → Flight
  landed : Key → Relayed → Flight

abbrev pub land : Key → Relayed → Flight
land router (sent next m) = flying router next m
land router (at_end x) = landed router (at_end x)
land router refused = landed router refused

module _ (cipher : Cipher) (net : Key → PathContext) where
  -- The router that the message reaches handles it. A commit message is not relayed as it is.
  unfoldable pub step : Flight → Flight
  step (landed router r) = landed router r
  step (flying from to (upstream_message m)) = land to (relay_upstream cipher from m (net to))
  step (flying from to (downstream_message m)) = land to (relay_downstream cipher from m (net to))
  step (flying from to (commit_message frames)) = landed to refused

  unfoldable pub run : ℕ → Flight → Flight
  unfolding step
  run zero s = s
  run (suc n) s = step (run n s)
