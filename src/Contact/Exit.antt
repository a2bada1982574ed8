-- ===== src/Contact/Exit.antt =====
-- udap_xi: an exit of a router, udap/exit_info.cpp.
pub mod Trip
use uplexa_network.Prelude.{
  ℕ, Bool, true, false, List, [], ◌∷◌, ◌++◌, Option, none, some, if◌then◌else◌, map,
}
use uplexa_network.Buffer.{Buffer, Io, ok, failed, and_then, return, eq, ◌>>=◌, ◌>>◌}
use uplexa_network.Bencode.{
  write_bytestring, start_dict, end, write_version_entry, read_dict, read_list,
}
use uplexa_network.Bencode.Fields.{decode_aligned}
use uplexa_network.Dht.Key.{fill}
use uplexa_network.Contact.{Inet, read_ip, encode_list}
use uplexa_network.Contact.Address.{read_version, write_ip}

pub record ExitInfo : Type 0 where
  pub address : List ℕ
  pub netmask : List ℕ
  pub pubkey : List ℕ

-- A value-initialised `udap_xi`.
abbrev pub blank_exit : ExitInfo
blank_exit = record { address = fill 16 0; netmask = fill 16 0; pubkey = fill 32 0 }

module _ (inet : Inet) where
  -- udap_xi_decode_dict.
  unfoldable pub decode_exit_key : Option Buffer → ExitInfo → Io ExitInfo
  decode_exit_key none xi b = (ok xi, b)
  decode_exit_key (some key) xi b =
      if eq key (b'a' ∷ [])
      then and_then (read_ip inet b) (λ a. return (record xi { address = a }))
      else if eq key (b'b' ∷ [])
      then and_then (read_ip inet b) (λ a. return (record xi { netmask = a }))
      else if eq key (b'k' ∷ [])
      then and_then (decode_aligned 32 b) (λ k. return (record xi { pubkey = k }))
      else if eq key (b'v' ∷ [])
      then and_then (read_version b) (λ _. return xi)
      else (failed, b)

  -- udap_xi_bdecode and udap_xi_bencode.
  unfoldable pub decode_exit : ExitInfo → Io ExitInfo
  decode_exit xi = read_dict decode_exit_key xi

  unfoldable pub encode_exit : ExitInfo → Io (Unit {0})
  encode_exit xi = do
    start_dict
    write_ip inet b'a' (inet.ntop xi.address)
    write_ip inet b'b' (inet.ntop xi.netmask)
    write_bytestring (b'k' ∷ [])
    write_bytestring xi.pubkey
    write_version_entry
    end

  -- udap_xi_list_decode_item, udap_xi_list_bdecode and udap_xi_list_bencode.
  unfoldable pub read_exit : Bool → List ExitInfo → Io (List ExitInfo)
  read_exit true l b = and_then (decode_exit blank_exit b) (λ xi. return (l ++ (xi ∷ [])))
  read_exit false l b = (ok l, b)

  unfoldable pub decode_exits : List ExitInfo → Io (List ExitInfo)
  decode_exits l = read_list read_exit l

  unfoldable pub encode_exits : List ExitInfo → Io (Unit {0})
  encode_exits l = encode_list (map encode_exit l)
