-- ===== src/Dht/Api.antt =====
-- The C functions of include/udap/dht.h, and the timer of udap/dht.cpp.
pub mod Peers
use uplexa_network.Prelude.{ℕ, Bool, true, false, ◌==◌, if◌then◌else◌, [], none}
use uplexa_network.Dht.Key.{Key}
use uplexa_network.Dht.Bucket.{Node, Bucket, put_node, del_node}
use uplexa_network.Dht.Context.{LookupJob, Context, cleanup_tx, lookup_router_via_job}

module _ {Rc : Type 0} where
  -- udap_dht_put_peer. The public key of a contact is a parameter.
  unfoldable pub put_peer : (Rc → Key) → Rc → Context Rc → Context Rc
  put_peer pubkey rc ctx = record ctx {
    nodes = put_node ctx.nodes (record { id = pubkey rc; rc = rc });
  }

  -- udap_dht_remove_peer.
  unfoldable pub remove_peer : Key → Context Rc → Context Rc
  remove_peer id ctx = record ctx { nodes = del_node ctx.nodes id }

  -- udap_dht_allow_transit.
  unfoldable start_transit : Context Rc → Context Rc
  start_transit ctx = record ctx { allow_transit = true }

  -- A new context, with the number that the random source gave, once udap_dht_context_start has run.
  unfoldable context_start : ℕ → Key → Rc → Context Rc
  context_start seed key rc = record {
    our_key = key;
    our_rc = rc;
    nodes = record { us = key; nodes = [] };
    allow_transit = false;
    ids = seed;
    pending = [];
    outbox = [];
    calls = [];
  }

  -- Context::handle_cleaner_timer; it then starts the timer again.
  unfoldable pub handle_cleaner_timer : ℕ → ℕ → Context Rc → Context Rc
  handle_cleaner_timer now left ctx = if left == 0 then cleanup_tx now ctx else ctx
