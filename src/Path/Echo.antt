-- ===== src/Path/Echo.antt =====
-- A latency test goes up the path, and its answer comes back.
use uplexa_network.Prelude.{ℕ, ◌-◌, ◌^◌, ◌<◌, ◌≡◌, ap, ◌∙◌, List, ◌∷◌, none, some, length, arith}
use uplexa_network.Clock.{elapsed}
use uplexa_network.Buffer.Memory.{Mem}
use uplexa_network.Dht.Key.{Key}
use uplexa_network.Routing.{RoutingMessage, latency_message, routing_bytes, parse_routing}
use uplexa_network.Routing.Trips.{parse_routing-routing_bytes}
use uplexa_network.Path.Hop.{TransitHop, Cipher, Relayed, at_end, hop_downstream}
use uplexa_network.Path.Own.{HopConfig, OwnPath, path_upstream, path_latency}
use uplexa_network.Path.Context.{PathContext, own_path, get_by_upstream}
use uplexa_network.Path.Network.{landed, land, run}
use uplexa_network.Path.Onion.{
  IsStream, CarriesUp, CarriesDown, last_router, last_hop, path_upstream_arrives,
  hop_downstream_arrives,
}
use uplexa_network.Path.Messages.{
  path_send, hop_send, hop_handle, hop_receive, path_handle, path_receive,
}

abbrev pub latency_of : ℕ → ℕ → RoutingMessage
latency_of t l = latency_message (record { t = t; l = l })

path_handle_latency :
    (random now : ℕ) (p : OwnPath)
    → path_handle random now (latency_of 0 p.last_test_id) p
      ≡ some (none, record p { latency = elapsed p.last_test_time now })
unfolding path_handle path_latency
path_handle_latency random now p = ground arith

-- The two sides' steps, for the bytes that a message is sent as.
path_send_step :
    (cipher : Cipher) (tmp : Mem) (nonce : Key) (m : RoutingMessage) (p : OwnPath) (bytes : List ℕ)
    → routing_bytes tmp m ≡ some bytes
    → path_send cipher tmp nonce m p ≡ path_upstream cipher p bytes nonce
unfolding path_send
path_send_step cipher tmp nonce m p bytes e = ground arith

hop_receive_step :
    (cipher : Cipher) (tmp : Mem) (nonce : Key) (t : ℕ) (hop : TransitHop) (asked answer : List ℕ)
    → parse_routing asked ≡ some (latency_of t 0)
    → routing_bytes tmp (latency_of 0 t) ≡ some answer
    → hop_receive cipher tmp nonce asked hop ≡ hop_downstream cipher hop answer nonce
unfolding hop_receive hop_handle hop_send
hop_receive_step cipher tmp nonce t hop asked answer e f = ground arith

path_receive_step :
    (random now : ℕ) (bytes : List ℕ) (p : OwnPath) (m : RoutingMessage)
    → parse_routing bytes ≡ some m
    → path_receive random now bytes p ≡ path_handle random now m p
unfolding path_receive
path_receive_step random now bytes p m e = ground arith

module _ (cipher : Cipher) (stream : IsStream cipher) (net : Key → PathContext) (us : Key)
    (p : OwnPath) (h : HopConfig) (hs : List HopConfig) (e : p.hops ≡ h ∷ hs) (t : TransitHop)
    (ts : List TransitHop) where
  -- A latency test with the number that a path remembers, below 2 ^ 64 - 1, goes up the path
  -- through every hop to the router at its end, which parses it and answers; the answer comes back
  -- through every hop, is parsed and accepted, and the path has then the time since the test as
  -- its latency. The routers know the path in both directions, the path has a hop at least, and
  -- the cipher undoes itself and commutes.
  pub path_send_echo :
      (tmp tmp' : Mem) (nonce nonce' : Key) (random now : ℕ)
      → p.last_test_id < 2 ^ 64 - 1
      → CarriesUp net us h.tx_id (h ∷ hs) (t ∷ ts)
      → CarriesDown net us (h ∷ hs) (t ∷ ts)
      → get_by_upstream h.router t.info.rx_id (net us) ≡ some (own_path p)
      → (r : Relayed) × (asked : List ℕ) × (answer : List ℕ) × (path_send cipher tmp nonce
            (latency_of p.last_test_id 0)
            p
          ≡ some r)
        × (run cipher net (length p.hops) (land us r)
            ≡ landed (last_router h.router hs) (at_end asked))
        × (run cipher net (length p.hops) (
              land (last_router h.router hs) (hop_receive cipher tmp' nonce' asked (last_hop t ts)))
            ≡ landed us (at_end answer))
        × (path_receive random now answer p
            ≡ some (none, record p { latency = elapsed p.last_test_time now }))
  path_send_echo tmp tmp' nonce nonce' random now small up down back =
      let (asked, a0, a1) =
        parse_routing-routing_bytes tmp (latency_of p.last_test_id 0) (omega arith, small) in
      let (answer, b0, b1) =
        parse_routing-routing_bytes tmp' (latency_of 0 p.last_test_id) (small, omega arith) in
      let (r, s, arrives) =
        path_upstream_arrives cipher stream net us nonce asked p h hs e (t ∷ ts) up in
      (
        r,
        asked,
        answer,
        path_send_step cipher tmp nonce _ p asked a0 ∙ s,
        arrives,
        ap (λ z. run cipher net (length p.hops) (land (last_router h.router hs) z))
              (hop_receive_step cipher tmp' nonce' p.last_test_id (last_hop t ts) asked answer a1
                b0)
            ∙ hop_downstream_arrives cipher stream net us nonce' answer p h hs e t ts down back,
        path_receive_step random now answer p _ b1 ∙ path_handle_latency random now p,
      )
