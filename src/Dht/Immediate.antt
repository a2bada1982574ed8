-- ===== src/Dht/Immediate.antt =====
-- DHTImmeidateMessage of udap/dht.cpp: the link message that carries DHT messages.
use uplexa_network.Prelude.{ℕ, ◌+◌, ◌≡◌, ◌<◌, List, [], ◌∷◌, ◌++◌, ◌==◌, if◌then◌else◌, map, length}
use uplexa_network.Text.{print_long, decimal, to_digits}
use uplexa_network.Buffer.{Buffer, Io, ok, failed, ◌>>◌, and_then, return, fail, eq}
use uplexa_network.Buffer.Valid.{IsValid}
use uplexa_network.Buffer.Write.{Extends, Appends, Appends-seq, return-Appends}
use uplexa_network.Bencode.{
  proto_version, write_bytestring, start_dict, start_list, end, write_version_entry, write_items,
  read_integer,
}
use uplexa_network.Bencode.Wire.{
  version_text, write_bytestring-Appends, write_version_entry-Appends, start_dict-Appends,
  start_list-Appends, end-Appends,
}
use uplexa_network.Dht.Key.{Key}
use uplexa_network.Dht.Message.{FindRouter, Message, find_router, got_router}
use uplexa_network.Dht.Codec.{RcCodec, encode_find_router, encode_got_router, decode_message_list}
use uplexa_network.Dht.Codec.Find.{find_router_text, encode_find_router-Appends}

module _ {Rc : Type 0} (rcs : RcCodec Rc) where
  unfoldable pub encode_message : Message Rc → Io (Unit {0})
  encode_message (find_router m) = encode_find_router m
  encode_message (got_router m) = encode_got_router rcs m

  -- DHTImmeidateMessage::BEncode.
  unfoldable pub encode_immediate : List (Message Rc) → Io (Unit {0})
  encode_immediate msgs = do
    start_dict
    write_bytestring (b'a' ∷ [])
    write_bytestring (b'm' ∷ [])
    write_bytestring (b'm' ∷ [])
    start_list
    write_items (map encode_message msgs)
    end
    write_version_entry
    end

  -- DHTImmeidateMessage::DecodeKey, on the messages and the version.
  unfoldable pub decode_immediate :
      Key → Key → Buffer → List (Message Rc) × ℕ → Io (List (Message Rc) × ℕ)
  decode_immediate junk remote key (msgs, version) b =
      if eq key (b'm' ∷ [])
      then and_then (decode_message_list rcs junk remote b) (λ ms. return (msgs ++ ms, version))
      else if eq key (b'v' ∷ [])
      then and_then (read_integer b) (λ v. if v == proto_version then return (msgs, v) else fail)
      else (failed, b)

  -- The texts of the messages, one behind the other.
  unfoldable pub lookups_text : List FindRouter → List ℕ
  lookups_text [] = []
  lookups_text (m ∷ ms) = find_router_text m ++ lookups_text ms

  write_items-Appends :
      (ms : List FindRouter)
      → Appends (write_items (map encode_message (map (λ m. find_router m) ms))) (lookups_text ms)
  unfolding write_items encode_message lookups_text
  write_items-Appends [] = return-Appends
  write_items-Appends (m ∷ ms) = Appends-seq (encode_find_router-Appends m) (write_items-Appends ms)

  abbrev pub immediate_text : List FindRouter → List ℕ
  immediate_text ms =
      b'd'
      ∷ b'1'
      ∷ b':'
      ∷ b'a'
      ∷ b'1'
      ∷ b':'
      ∷ b'm'
      ∷ b'1'
      ∷ b':'
      ∷ b'm'
      ∷ b'l'
      ∷ (lookups_text ms ++ (b'e' ∷ (version_text ++ (b'e' ∷ []))))

  encode_immediate-Appends :
      (ms : List FindRouter)
      → Appends (encode_immediate (map (λ m. find_router m) ms)) (immediate_text ms)
  unfolding encode_immediate print_long decimal to_digits
  encode_immediate-Appends ms = Appends-seq start_dict-Appends (
      Appends-seq (write_bytestring-Appends (b'a' ∷ [])) (
        Appends-seq (write_bytestring-Appends (b'm' ∷ [])) (
          Appends-seq (write_bytestring-Appends (b'm' ∷ [])) (
            Appends-seq start_list-Appends (
              Appends-seq (write_items-Appends ms)
                (Appends-seq end-Appends (Appends-seq write_version_entry-Appends end-Appends)))))))

  -- Into a valid buffer with a byte more of room than it takes, a link message of lookups is
  -- written as their texts in a list, behind its type and before the protocol version; the region
  -- and the bytes before the cursor stay as they are.
  pub encode_immediate_lem :
      (ms : List FindRouter) (b : Buffer)
      → IsValid b
      → b.cur + length (immediate_text ms) < b.base + b.sz
      → (c : Buffer) × (encode_immediate (map (λ m. find_router m) ms) b ≡ (ok tt, c))
        × Extends b c (immediate_text ms)
  encode_immediate_lem ms b v h = encode_immediate-Appends ms b v h
