-- ===== src/Relay/Codec.antt =====
-- The codec of RelayUpstreamMessage and RelayDownstreamMessage, udap/relay_up_down.cpp: they differ
-- in the letter of their type.
use uplexa_network.Prelude.{ℕ, Bool, true, false, List, [], ◌∷◌, Option, none, some, if◌then◌else◌}
use uplexa_network.Buffer.{Buffer, Io, ◌>>=◌, ◌>>◌, return, fail}
use uplexa_network.Bencode.{
  proto_version, start_dict, end, write_bytestring, write_dict_msg_type, write_dict_int,
  write_dict_entry, maybe_read_dict_entry, maybe_read_version,
}
use uplexa_network.Bencode.Fields.{decode_aligned, decode_encrypted}
use uplexa_network.Relay.{RelayMessage}

-- BEncode. AlignedBuffer and Encrypted write their bytes as a string.
unfoldable pub encode_relay : ℕ → RelayMessage → Io (Unit {0})
encode_relay letter m = do
  start_dict
  write_dict_msg_type b'a' letter
  write_dict_entry b'p' (write_bytestring m.pathid)
  write_dict_int b'v' proto_version
  write_dict_entry b'x' (write_bytestring m.x)
  write_dict_entry b'y' (write_bytestring m.y)
  end

abbrev pub replaced : List ℕ → Option (List ℕ) → List ℕ
replaced old none = old
replaced old (some new) = new

abbrev pub is_read : Bool → Option (List ℕ) → Bool
is_read read none = read
is_read read (some _) = true

-- The flag `read` after BEncodeMaybeReadVersion.
abbrev pub version_read : Bool → Option (ℕ × Bool) → Bool
version_read read none = read
version_read read (some (_, same)) = same

-- DecodeKey.
unfoldable pub decode_relay : Buffer → RelayMessage → Io RelayMessage
decode_relay key m = do
  p ← maybe_read_dict_entry (b'p' ∷ []) (decode_aligned 16) key
  v ← maybe_read_version (b'v' ∷ []) proto_version key
  x ← maybe_read_dict_entry (b'x' ∷ []) decode_encrypted key
  y ← maybe_read_dict_entry (b'y' ∷ []) (decode_aligned 32) key
  if is_read (is_read (version_read (is_read false p) v) x) y
      then return (record { pathid = replaced m.pathid p; x = replaced m.x x; y = replaced m.y y })
      else fail
