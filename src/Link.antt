-- ===== src/Link.antt =====
-- InboundMessageParser of udap/link_message.cpp, with DiscardMessage of
-- include/udap/messages/discard.hpp, LinkIntroMessage of udap/link_intro.cpp, LR_AckMessage of
-- udap/relay_ack.cpp and the codec of LR_CommitMessage of udap/relay_commit.cpp. What uninitialised
-- fields hold is the argument `junk`; the session's router contact, its key `from`, and the codec of
-- router contacts are parameters.
pub mod Trips
pub mod Frames
use uplexa_network.Prelude.{
  ℕ, ◌+◌, Bool, true, false, not, List, [], ◌∷◌, ◌++◌, Option, none, some, if◌then◌else◌, ltb, ◌==◌,
  map,
}
use uplexa_network.Buffer.{
  Buffer, Io, Result, ok, failed, stuck, ◌>>=◌, ◌>>◌, and_then, return, fail, eq, load_all,
}
use uplexa_network.Bencode.{
  proto_version, start_dict, end, write_bytestring, write_dict_msg_type, write_dict_list,
  write_version_entry, read_integer, read_string, read_list, read_dict, maybe_read_version,
}
use uplexa_network.Bencode.Fields.{decode_encrypted}
use uplexa_network.Dht.Key.{Key}
use uplexa_network.Dht.Message.{Message}
use uplexa_network.Dht.Codec.{RcCodec}
use uplexa_network.Dht.Immediate.{decode_immediate}
use uplexa_network.Relay.{RelayMessage}
use uplexa_network.Relay.Codec.{decode_relay}

-- MAX_DISCARD_SIZE.
abbrev pub max_discard_size : ℕ
max_discard_size = 10000

-- DiscardMessage, by its `sz` bytes of padding.
unfoldable pub encode_discard : List ℕ → Io (Unit {0})
encode_discard pad = do
  start_dict
  write_bytestring (b'a' ∷ [])
  write_bytestring (b'z' ∷ [])
  write_version_entry
  write_bytestring (b'z' ∷ [])
  write_bytestring pad
  end

unfoldable pub decode_discard : Buffer → List ℕ → Io (List ℕ)
decode_discard key pad b =
    if eq key (b'v' ∷ [])
    then and_then (read_integer b) (λ v. if v == proto_version then return pad else fail)
    else if eq key (b'z' ∷ [])
    then and_then (read_string b) (λ s c.
      if ltb max_discard_size s.sz then (failed, c) else (ok (load_all s.mem s.base s.sz), c))
    else (failed, b)

-- LR_CommitMessage, by its frames.
unfoldable pub encode_commit : List (List ℕ) → Io (Unit {0})
encode_commit frames = do
  start_dict
  write_dict_msg_type b'a' b'c'
  write_dict_list b'c' (map write_bytestring frames)
  write_version_entry
  end

-- BEncodeReadList of frames: no call is made at its end.
unfoldable pub read_frame : Bool → List (List ℕ) → Io (List (List ℕ))
read_frame true fs b = and_then (decode_encrypted b) (λ f. return (fs ++ (f ∷ [])))
read_frame false fs b = (ok fs, b)

unfoldable pub decode_commit : Buffer → List (List ℕ) → Io (List (List ℕ))
decode_commit key frames b =
    if eq key (b'c' ∷ [])
    then read_list read_frame frames b
    else and_then (maybe_read_version (b'v' ∷ []) proto_version key b)
        (λ v. elim v [ none ↦ fail | some (_, same) ↦ if same then return frames else fail ])

-- LR_AckMessage has no field that can be read.
abbrev pub decode_ack : Buffer → Io (Unit {0})
decode_ack key b = (failed, b)

-- LinkIntroMessage: the contact of the other side.
unfoldable pub decode_intro : {Rc : Type 0} → RcCodec Rc → Buffer → Option Rc → Io (Option Rc)
decode_intro rcs key rc b =
    if eq key (b'r' ∷ [])
    then and_then (rcs.decode b) (λ rc'. return (some rc'))
    else if eq key (b'v' ∷ [])
    then and_then (read_integer b) (λ v. if v == proto_version then return rc else fail)
    else (failed, b)

unfoldable pub encode_intro : {Rc : Type 0} → RcCodec Rc → Option Rc → Io (Unit {0})
encode_intro rcs rc = do
  start_dict
  write_bytestring (b'a' ∷ [])
  write_bytestring (b'i' ∷ [])
  elim rc [ none ↦ return tt | some rc' ↦ write_bytestring (b'r' ∷ []) >> rcs.encode rc' ]
  write_version_entry
  end

-- The messages that come in.
pub data Incoming (Rc : Type 0) : Type 0 where
  intro_in : Option Rc → Incoming Rc
  upstream_in : RelayMessage → Incoming Rc
  downstream_in : RelayMessage → Incoming Rc
  dht_in : List (Message Rc) → ℕ → Incoming Rc
  ack_in : Incoming Rc
  commit_in : List (List ℕ) → Incoming Rc
  discard_in : List ℕ → Incoming Rc

module _ {Rc : Type 0} (rcs : RcCodec Rc) (junk from : Key) (contact : Rc) where
  -- The message that is made for a type.
  unfoldable pub new_incoming : ℕ → Option (Incoming Rc)
  new_incoming t =
      let relay : RelayMessage = record { pathid = junk; x = []; y = junk } in
      if t == b'i'
      then some (intro_in (some contact))
      else if t == b'd'
      then some (downstream_in relay)
      else if t == b'u'
      then some (upstream_in relay)
      else if t == b'm'
      then some (dht_in [] 0)
      else if t == b'a'
      then some ack_in
      else if t == b'c'
      then some (commit_in [])
      else if t == b'z'
      then some (discard_in [])
      else none

  -- DecodeKey of the message.
  unfoldable pub decode_incoming : Incoming Rc → Buffer → Io (Incoming Rc)
  decode_incoming (intro_in rc) key b =
      and_then (decode_intro rcs key rc b) (λ rc'. return (intro_in rc'))
  decode_incoming (upstream_in m) key b =
      and_then (decode_relay key m b) (λ m'. return (upstream_in m'))
  decode_incoming (downstream_in m) key b =
      and_then (decode_relay key m b) (λ m'. return (downstream_in m'))
  decode_incoming (dht_in ms v) key b =
      and_then (decode_immediate rcs junk from key (ms, v) b) (λ r. return (dht_in r.0 r.1))
  decode_incoming ack_in key b = and_then (decode_ack key b) (λ _. return ack_in)
  decode_incoming (commit_in fs) key b =
      and_then (decode_commit key fs b) (λ fs'. return (commit_in fs'))
  decode_incoming (discard_in pad) key b =
      and_then (decode_discard key pad b) (λ pad'. return (discard_in pad'))

  -- The value of the key `a`.
  unfoldable pub start_incoming : Buffer → Io (Option (Incoming Rc))
  start_incoming s b =
      if not (s.sz == 1)
      then (failed, b)
      else elim (new_incoming (s.mem s.cur)) [ none ↦ (failed, b) | some m ↦ (ok (some m), b) ]

  module _ (handles : Incoming Rc → Bool) where
    -- OnKey, with the state `none` where the first key is still to come, and MessageDone at the end.
    unfoldable pub on_link_key : Option Buffer → Option (Incoming Rc) → Io (Option (Incoming Rc))
    on_link_key none none b = (failed, b)
    on_link_key none (some m) b = if handles m then (ok (some m), b) else (failed, b)
    on_link_key (some key) none b =
        if not (eq key (b'a' ∷ [])) then (failed, b) else and_then (read_string b) start_incoming
    on_link_key (some key) (some m) b = and_then (decode_incoming m key b) (λ m'. return (some m'))

    -- ProcessFrom: the message, where it is accepted.
    unfoldable pub process_from : Io (Option (Incoming Rc))
    process_from b = read_dict on_link_key none b
