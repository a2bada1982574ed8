-- ===== src/Examples/Messages.antt =====
-- Runs of the encoding of DHT messages.
use uplexa_network.Prelude.{ℕ, ◌≡◌, refl, false, [], ◌∷◌, arith}
use uplexa_network.Buffer.{Buffer, ok, failed}
use uplexa_network.Text.{print_long, decimal, to_digits}
use uplexa_network.Dht.Key.{Key, fill}
use uplexa_network.Dht.Message.{FindRouter, find_router}
use uplexa_network.Dht.Codec.{RcCodec, encode_find_router, decode_message}
use uplexa_network.Dht.Codec.Find.{decode_message-encode_find_router}
use uplexa_network.Buffer.Write.{Extends}
use uplexa_network.Dht.Immediate.{
  encode_immediate, lookups_text, immediate_text, encode_immediate_lem,
}

abbrev key : ℕ → Key
key n = fill 32 n

abbrev request : FindRouter
request = record { from = key 4; target = key 9; iterative = false; txid = 77; version = 0 }

-- A codec of contacts that writes nothing.
abbrev no_contacts : RcCodec ℕ
no_contacts = record { encode = λ rc b. (ok tt, b); decode = λ b. (failed, b) }

abbrev out : Buffer
out = record { mem = λ _. 0; base = 0; cur = 0; sz = 512 }

decode_message-encode_find_router_example :
    let r = encode_find_router request out in
    (r.0 ≡ ok tt)
    × (decode_message no_contacts (key 255) (key 6) (record (r.1) { cur = 0 })
        ≡ (ok (find_router (record request { from = key 6 })), r.1))
unfolding print_long decimal to_digits fill
decode_message-encode_find_router_example =
    decode_message-encode_find_router no_contacts (key 255) (key 6) request out refl (omega arith)
      (omega arith) (record { ordered = omega arith; inside = omega arith }) (omega arith)

encode_immediate_lem_example :
    (c : Buffer) × (encode_immediate no_contacts (find_router request ∷ []) out ≡ (ok tt, c))
    × Extends out c (immediate_text no_contacts (request ∷ []))
unfolding lookups_text print_long decimal to_digits fill
encode_immediate_lem_example =
    encode_immediate_lem no_contacts (request ∷ []) out
      (record { ordered = omega arith; inside = omega arith }) (omega arith)
