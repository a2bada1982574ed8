-- ===== src/Dht/Codec.antt =====
-- The encoding of DHT messages in udap/dht.cpp. What an uninitialised key holds is the argument
-- `junk`, and the codec of router contacts is a parameter.
pub mod Find
pub mod Ends
use uplexa_network.Prelude.{
  ℕ, ◌+◌, ◌^◌, Bool, true, false, not, List, [], ◌∷◌, ◌++◌, Option, none, some, ◌==◌, if◌then◌else◌,
  map, length,
}
use uplexa_network.Buffer.{
  Buffer, Io, Result, ok, failed, stuck, ◌>>=◌, ◌>>◌, and_then, return, fail, eq, load_all,
}
use uplexa_network.Bencode.{
  proto_version, write_bytestring, write_int, write_uint64, start_dict, start_list, end,
  write_version_entry, read_integer, read_string, read_dict, read_list, write_dict_msg_type,
  write_dict_int, write_dict_list, write_items, maybe_read_version, list_loop,
}
use uplexa_network.Dht.Key.{Key}
use uplexa_network.Dht.Message.{FindRouter, GotRouter, Message, find_router, got_router}

-- FindRouterMessage::BEncode.
unfoldable pub encode_find_router : FindRouter → Io (Unit {0})
encode_find_router m = do
  start_dict
  write_bytestring (b'A' ∷ [])
  write_bytestring (b'R' ∷ [])
  write_bytestring (b'I' ∷ [])
  write_int (if m.iterative then 1 else 0)
  write_bytestring (b'K' ∷ [])
  write_bytestring m.target
  write_bytestring (b'T' ∷ [])
  write_uint64 m.txid
  write_bytestring (b'V' ∷ [])
  write_uint64 m.version
  end

-- `memcpy(K.data(), strbuf.base, K.size())` of a string of the key's size.
unfoldable pub key_of_string : FindRouter → Buffer → Io FindRouter
key_of_string m s b =
    if s.sz == 32 then (ok (record m { target = load_all s.mem s.base 32 }), b) else (failed, b)

-- FindRouterMessage::DecodeKey.
unfoldable pub decode_find_router : Buffer → FindRouter → Io FindRouter
decode_find_router key m b =
    if eq key (b'I' ∷ [])
    then and_then (read_integer b) (λ i. return (record m { iterative = not (i == 0) }))
    else if eq key (b'K' ∷ [])
    then and_then (read_string b) (key_of_string m)
    else if eq key (b'T' ∷ [])
    then and_then (read_integer b) (λ i. return (record m { txid = i }))
    else if eq key (b'V' ∷ [])
    then and_then (read_integer b) (λ i. return (record m { version = i }))
    else (failed, b)

-- The codec of router contacts, udap_rc_bencode and udap_rc_bdecode.
pub record RcCodec (Rc : Type 0) : Type 0 where
  pub encode : Rc → Io (Unit {0})
  pub decode : Io Rc

module _ {Rc : Type 0} (rcs : RcCodec Rc) where
  -- GotRouterMessage::BEncode.
  unfoldable pub encode_got_router : GotRouter Rc → Io (Unit {0})
  encode_got_router m = do
    start_dict
    write_dict_msg_type b'A' b'S'
    write_dict_list b'R' (map (λ rc. rcs.encode rc) m.found)
    write_dict_int b'T' m.txid
    write_dict_int b'V' m.version
    end

  -- BEncodeReadList of contacts: the loop is that of `bencode_read_list`, and no call is made at its
  -- end.
  unfoldable pub read_contact : Bool → List Rc → Io (List Rc)
  read_contact true rcs' = rcs.decode >>= λ rc. return (rcs' ++ (rc ∷ []))
  read_contact false rcs' = return rcs'

  -- GotRouterMessage::DecodeKey.
  unfoldable pub checked_version : GotRouter Rc → Option (ℕ × Bool) → Io (GotRouter Rc)
  checked_version m none b = (failed, b)
  checked_version m (some (v, same)) b =
      if same then (ok (record m { version = v }), b) else (failed, b)

  unfoldable pub decode_got_router : Buffer → GotRouter Rc → Io (GotRouter Rc)
  decode_got_router key m b =
      if eq key (b'R' ∷ [])
      then and_then (read_list read_contact m.found b) (λ rs. return (record m { found = rs }))
      else if eq key (b'T' ∷ [])
      then and_then (read_integer b) (λ i. return (record m { txid = i }))
      else and_then (maybe_read_version (b'V' ∷ []) proto_version key b) (checked_version m)

  -- MessageDecoder: the message once the first key told its type.
  abbrev pub Decoder : Type 0
  Decoder = Option (Message Rc)

  unfoldable pub new_message : Key → Key → Buffer → Io Decoder
  new_message junk from s b =
      if not (s.sz == 1)
      then (failed, b)
      else if s.mem s.base == b'R'
      then (
        ok (
            some (
              find_router
                (record { from = from; target = junk; iterative = false; txid = 0; version = 0 }))),
        b,
      )
      else if s.mem s.base == b'S'
      then (ok (some (got_router (record { from = from; found = []; txid = 0; version = 0 }))), b)
      else (failed, b)

  unfoldable pub decode_key : Message Rc → Buffer → Io Decoder
  decode_key (find_router m) key b =
      and_then (decode_find_router key m b) (λ m'. return (some (find_router m')))
  decode_key (got_router m) key b =
      and_then (decode_got_router key m b) (λ m'. return (some (got_router m')))

  -- MessageDecoder::on_key.
  unfoldable pub on_key : Key → Key → Option Buffer → Decoder → Io Decoder
  on_key junk from none none b = (failed, b)
  on_key junk from none (some m) b = (ok (some m), b)
  on_key junk from (some key) none b =
      if not (eq key (b'A' ∷ []))
      then (failed, b)
      else and_then (read_string b) (new_message junk from)
  on_key junk from (some key) (some m) b = decode_key m key b

  unfoldable pub the_message : Decoder → Io (Message Rc)
  the_message none b = (failed, b)
  the_message (some m) b = (ok m, b)

  -- DecodeMesssage; its null pointer is a failure.
  unfoldable pub decode_message : Key → Key → Io (Message Rc)
  decode_message junk from b = and_then (read_dict (on_key junk from) none b) the_message

  -- ListDecoder::on_item and DecodeMesssageList.
  unfoldable pub on_item : Key → Key → Bool → List (Message Rc) → Io (List (Message Rc))
  on_item junk from true ms b = and_then (decode_message junk from b) (λ m. return (ms ++ (m ∷ [])))
  on_item junk from false ms b = (ok ms, b)

  unfoldable pub decode_message_list : Key → Key → Io (List (Message Rc))
  decode_message_list junk from b = read_list (on_item junk from) [] b
