-- ===== src/Path/Messages.antt =====
-- Routing messages on a path: SendRoutingMessage and the handlers of udap/path.cpp and
-- udap/transit_hop.cpp. The bytes of the buffer on the stack and the random nonce are arguments.
use uplexa_network.Prelude.{ℕ, List, Option, none, some, if◌then◌else◌}
use uplexa_network.Buffer.Memory.{Mem}
use uplexa_network.Dht.Key.{Key}
use uplexa_network.Routing.{
  RoutingMessage, confirm_message, latency_message, routing_bytes, parse_routing,
}
use uplexa_network.Path.Hop.{TransitHop, Cipher, Relayed, refused, hop_downstream}
use uplexa_network.Path.Own.{OwnPath, path_upstream, path_confirmed, path_latency}

module _ (cipher : Cipher) where
  -- Path::SendRoutingMessage.
  unfoldable pub path_send : Mem → Key → RoutingMessage → OwnPath → Option Relayed
  path_send tmp nonce m p = elim (routing_bytes tmp m) [
    | none ↦ none
    | some bytes ↦ path_upstream cipher p bytes nonce
  ]

  -- TransitHop::SendRoutingMessage.
  unfoldable pub hop_send : Mem → Key → RoutingMessage → TransitHop → Relayed
  hop_send tmp nonce m hop = elim (routing_bytes tmp m) [
    | none ↦ refused
    | some bytes ↦ hop_downstream cipher hop bytes nonce
  ]

  -- The parser at the end of a path, with the hop as the handler: HandlePathLatencyMessage and
  -- HandlePathConfirmMessage of TransitHop.
  unfoldable pub hop_handle : Mem → Key → RoutingMessage → TransitHop → Relayed
  hop_handle tmp nonce (latency_message m) hop =
      hop_send tmp nonce (latency_message (record { t = 0; l = m.t })) hop
  hop_handle tmp nonce (confirm_message m) hop = refused

  unfoldable pub hop_receive : Mem → Key → List ℕ → TransitHop → Relayed
  hop_receive tmp nonce bytes hop = elim (parse_routing bytes) [
    | none ↦ refused
    | some m ↦ hop_handle tmp nonce m hop
  ]

-- The handlers of Path: the message that is sent then, and the path. `none` is a refusal.
unfoldable pub path_handle :
    ℕ → ℕ → RoutingMessage → OwnPath → Option (Option RoutingMessage × OwnPath)
path_handle random now (confirm_message m) p =
    let r = path_confirmed random now p in
    elim r.0 [ none ↦ none | some t ↦ some (some (latency_message (record { t = t; l = 0 })), r.1) ]
path_handle random now (latency_message m) p =
    let r = path_latency m.l now p in if r.0 then some (none, r.1) else none

-- Path::HandleRoutingMessage.
unfoldable pub path_receive : ℕ → ℕ → List ℕ → OwnPath → Option (Option RoutingMessage × OwnPath)
path_receive random now bytes p = elim (parse_routing bytes) [
  | none ↦ none
  | some m ↦ path_handle random now m p
]
