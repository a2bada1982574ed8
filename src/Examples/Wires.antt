-- ===== src/Examples/Wires.antt =====
-- Runs of the link messages and the routing messages.
use uplexa_network.Prelude.{ℕ, ◌≡◌, refl, true, List, [], ◌∷◌, some, arith}
use uplexa_network.Text.{print_long, decimal, to_digits}
use uplexa_network.Buffer.{Buffer, ok, failed}
use uplexa_network.Bencode.Items.{strings_text}
use uplexa_network.Dht.Key.{fill}
use uplexa_network.Dht.Codec.{RcCodec}
use uplexa_network.Relay.{RelayMessage}
use uplexa_network.Relay.Codec.{encode_relay}
use uplexa_network.Link.{upstream_in, commit_in, process_from, encode_commit}
use uplexa_network.Link.Trips.{process_from-encode_relay}
use uplexa_network.Link.Frames.{process_from-encode_commit}
use uplexa_network.Routing.{latency_message, routing_bytes, parse_routing}
use uplexa_network.Routing.Trips.{parse_routing-routing_bytes}

abbrev no_contacts : RcCodec ℕ
no_contacts = record { encode = λ rc b. (ok tt, b); decode = λ b. (failed, b) }

abbrev out : Buffer
out = record { mem = λ _. 0; base = 0; cur = 0; sz = 512 }

abbrev relayed : RelayMessage
relayed = record { pathid = fill 16 3; x = 1 ∷ 2 ∷ 3 ∷ []; y = fill 32 4 }

process_from-encode_relay_example :
    let r = encode_relay b'u' relayed out in
    (r.0 ≡ ok tt)
    × (process_from no_contacts [] [] 0 (λ _. true) (record (r.1) { cur = 0 })
        ≡ (ok (some (upstream_in relayed)), r.1))
unfolding print_long decimal to_digits fill
process_from-encode_relay_example =
    process_from-encode_relay no_contacts [] [] 0 (λ _. true) true relayed out
      (record {
        pathid_size = refl;
        nonce_size = refl;
        some_text = omega arith;
        short_text = omega arith;
      })
      refl (record { ordered = omega arith; inside = omega arith }) (omega arith)

process_from-encode_commit_example :
    let r = encode_commit ((1 ∷ 2 ∷ []) ∷ (3 ∷ []) ∷ []) out in
    (r.0 ≡ ok tt)
    × (process_from no_contacts [] [] 0 (λ _. true) (record (r.1) { cur = 0 })
        ≡ (ok (some (commit_in ((1 ∷ 2 ∷ []) ∷ (3 ∷ []) ∷ []))), r.1))
unfolding print_long decimal to_digits strings_text
process_from-encode_commit_example =
    process_from-encode_commit no_contacts [] [] 0 (λ _. true) ((1 ∷ 2 ∷ []) ∷ (3 ∷ []) ∷ []) out
      ((omega arith, omega arith), ((omega arith, omega arith), tt)) refl
      (record { ordered = omega arith; inside = omega arith }) (omega arith)

parse_routing-routing_bytes_example :
    (bytes : List ℕ) × (routing_bytes (λ _. 0) (latency_message (record { t = 77; l = 0 }))
      ≡ some bytes)
    × (parse_routing bytes ≡ some (latency_message (record { t = 77; l = 0 })))
parse_routing-routing_bytes_example =
    parse_routing-routing_bytes (λ _. 0) (latency_message (record { t = 77; l = 0 }))
      (omega arith, omega arith)
