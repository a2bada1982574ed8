-- ===== src/Contact/Address.antt =====
-- udap_ai: an address of a router. `dialect` is an array of six characters.
pub mod Fields
pub mod Trip
use uplexa_network.Prelude.{
  ℕ, ◌+◌, ◌%◌, ◌^◌, Bool, true, false, ◌||◌, List, [], ◌∷◌, ◌++◌, Option, none, some, ltb, leb,
  ◌==◌, if◌then◌else◌, drop, map, get_elem?,
}
use uplexa_network.Buffer.{Buffer, Io, ok, failed, and_then, return, eq, load_all, ◌>>=◌, ◌>>◌}
use uplexa_network.Bencode.{
  proto_version, write_bytestring, write_uint16, start_dict, end, write_version_entry, read_integer,
  read_string, read_dict, read_list,
}
use uplexa_network.Bencode.Fields.{decode_aligned}
use uplexa_network.Contact.{Inet, c_string, read_ip, encode_list}

pub record AddressInfo : Type 0 where
  pub rank : ℕ
  pub dialect : List ℕ
  pub enc_key : List ℕ
  pub ip : List ℕ
  pub port : ℕ

-- A number from 1 to 65536, which is stored in a uint16_t.
unfoldable pub read_uint16 : Io ℕ
read_uint16 b =
    and_then (read_integer b)
      (λ i c. if ltb 65536 i || i == 0 then (failed, c) else (ok (i % 2 ^ 16), c))

-- A text is written over the head of the array, with a NUL behind.
unfoldable pub read_dialect : List ℕ → Io (List ℕ)
read_dialect old b = and_then (read_string b) (λ s c.
    if leb 6 s.sz
    then (failed, c)
    else (ok (load_all s.mem s.base s.sz ++ (0 ∷ drop (s.sz + 1) old)), c))

-- A version that is not the protocol's is refused.
unfoldable pub read_version : Io (Unit {0})
read_version b =
    and_then (read_integer b) (λ v c. if v == proto_version then (ok tt, c) else (failed, c))

module _ (inet : Inet) where
  -- udap_ai_decode_key.
  unfoldable pub decode_address_key : Option Buffer → AddressInfo → Io AddressInfo
  decode_address_key none ai b = (ok ai, b)
  decode_address_key (some key) ai b =
      if eq key (b'c' ∷ [])
      then and_then (read_uint16 b) (λ i. return (record ai { rank = i }))
      else if eq key (b'd' ∷ [])
      then and_then (read_dialect ai.dialect b) (λ d. return (record ai { dialect = d }))
      else if eq key (b'e' ∷ [])
      then and_then (decode_aligned 32 b) (λ k. return (record ai { enc_key = k }))
      else if eq key (b'i' ∷ [])
      then and_then (read_ip inet b) (λ a. return (record ai { ip = a }))
      else if eq key (b'p' ∷ [])
      then and_then (read_uint16 b) (λ i. return (record ai { port = i }))
      else if eq key (b'v' ∷ [])
      then and_then (read_version b) (λ _. return ai)
      else (failed, b)

  -- udap_ai_bdecode.
  unfoldable pub decode_address : AddressInfo → Io AddressInfo
  decode_address ai = read_dict decode_address_key ai

  -- udap_ai_bencode.
  unfoldable pub write_ip : ℕ → Option (List ℕ) → Io (Unit {0})
  write_ip k none b = (failed, b)
  write_ip k (some text) b = (do write_bytestring (k ∷ []); write_bytestring (c_string text)) b

  unfoldable pub encode_address : AddressInfo → Io (Unit {0})
  encode_address ai = do
    start_dict
    write_bytestring (b'c' ∷ [])
    write_uint16 ai.rank
    write_bytestring (b'd' ∷ [])
    write_bytestring (c_string ai.dialect)
    write_bytestring (b'e' ∷ [])
    write_bytestring ai.enc_key
    write_ip b'i' (inet.ntop ai.ip)
    write_bytestring (b'p' ∷ [])
    write_uint16 ai.port
    write_version_entry
    end

  -- udap_ai_list_bdecode_item: `junk` is what the fresh `udap_ai` holds.
  unfoldable pub read_address : AddressInfo → Bool → List AddressInfo → Io (List AddressInfo)
  read_address junk true l b = and_then (decode_address junk b) (λ ai. return (l ++ (ai ∷ [])))
  read_address junk false l b = (ok l, b)

  -- udap_ai_list_bdecode and udap_ai_list_bencode.
  unfoldable pub decode_addresses : AddressInfo → List AddressInfo → Io (List AddressInfo)
  decode_addresses junk l = read_list (read_address junk) l

  unfoldable pub encode_addresses : List AddressInfo → Io (Unit {0})
  encode_addresses l = encode_list (map encode_address l)

-- udap_ai_list_index, for an index that is not negative.
unfoldable pub address_at : List AddressInfo → ℕ → Option AddressInfo
address_at l i = get_elem? l i
