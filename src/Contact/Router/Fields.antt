-- ===== src/Contact/Router/Fields.antt =====
-- Each field of a router contact is taken for what was written.
use uplexa_network.Prelude.{ℕ, ◌-◌, ◌^◌, ◌<◌, ◌≡◌, List, Option, some, length, arith, All, map}
use uplexa_network.Buffer.{Buffer, Io}
use uplexa_network.Bencode.Wire.{int_text, string_text}
use uplexa_network.Bencode.Fields.{decode_aligned-Reads}
use uplexa_network.Bencode.RoundTrip.{read_integer-Reads}
use uplexa_network.Bencode.Dict.{eq_letter, Takes}
use uplexa_network.Contact.{Inet}
use uplexa_network.Contact.Address.{AddressInfo}
use uplexa_network.Contact.Address.Trip.{
  IsAddress, address_back, addresses_text, decode_addresses-Reads,
}
use uplexa_network.Contact.Exit.{ExitInfo}
use uplexa_network.Contact.Exit.Trip.{IsExit, exits_text, decode_exits-Reads}
use uplexa_network.Contact.Lists.{read_version-Reads}
use uplexa_network.Contact.Router.{RouterContact, decode_contact_key}

module _ (inet : Inet) (junk : AddressInfo) where
  abbrev pub callback : Option Buffer → RouterContact → Io RouterContact
  callback = decode_contact_key inet junk

  pub Takes-addrs :
      (rc : RouterContact) (l : List AddressInfo)
      → All (IsAddress inet) l
      → Takes callback b'a'
          (addresses_text inet l)
          rc
          (record rc { addrs = some (map (address_back junk) l) })
  unfolding decode_contact_key
  Takes-addrs rc l h key b letter v there fits =
      rw (eq_letter b'a' b'a' key letter) (rw (decode_addresses-Reads inet junk l h b v there fits))

  pub Takes-pubkey :
      (rc : RouterContact) (k : List ℕ)
      → length k ≡ 32
      → Takes callback b'k' (string_text k) rc (record rc { pubkey = k })
  unfolding decode_contact_key
  Takes-pubkey rc k h key b letter v there fits =
      rw (eq_letter b'k' b'a' key letter, eq_letter b'k' b'k' key letter)
        (rw (decode_aligned-Reads k 32 h (omega arith) b v there fits))

  pub Takes-enckey :
      (rc : RouterContact) (k : List ℕ)
      → length k ≡ 32
      → Takes callback b'p' (string_text k) rc (record rc { enckey = k })
  unfolding decode_contact_key
  Takes-enckey rc k h key b letter v there fits =
      rw
        (
          eq_letter b'p' b'a' key letter,
          eq_letter b'p' b'k' key letter,
          eq_letter b'p' b'p' key letter,
        )
        (rw (decode_aligned-Reads k 32 h (omega arith) b v there fits))

  pub Takes-last_updated :
      (rc : RouterContact) (t : ℕ)
      → t < 2 ^ 64 - 1
      → Takes callback b'u' (int_text t) rc (record rc { last_updated = t })
  unfolding decode_contact_key
  Takes-last_updated rc t h key b letter v there fits =
      rw
        (
          eq_letter b'u' b'a' key letter,
          eq_letter b'u' b'k' key letter,
          eq_letter b'u' b'p' key letter,
          eq_letter b'u' b'u' key letter,
        )
        (rw (read_integer-Reads t h b v there fits))

  pub Takes-version : (rc : RouterContact) → Takes callback b'v' (int_text 0) rc rc
  unfolding decode_contact_key
  Takes-version rc key b letter v there fits =
      rw
        (
          eq_letter b'v' b'a' key letter,
          eq_letter b'v' b'k' key letter,
          eq_letter b'v' b'p' key letter,
          eq_letter b'v' b'u' key letter,
          eq_letter b'v' b'v' key letter,
        )
        (rw (read_version-Reads b v there fits))

  pub Takes-exits :
      (rc : RouterContact) (l : List ExitInfo)
      → All (IsExit inet) l
      → Takes callback b'x' (exits_text inet l) rc (record rc { exits = some l })
  unfolding decode_contact_key
  Takes-exits rc l h key b letter v there fits =
      rw
        (
          eq_letter b'x' b'a' key letter,
          eq_letter b'x' b'k' key letter,
          eq_letter b'x' b'p' key letter,
          eq_letter b'x' b'u' key letter,
          eq_letter b'x' b'v' key letter,
          eq_letter b'x' b'x' key letter,
        )
        (rw (decode_exits-Reads inet l h b v there fits))

  pub Takes-signature :
      (rc : RouterContact) (s : List ℕ)
      → length s ≡ 64
      → Takes callback b'z' (string_text s) rc (record rc { signature = s })
  unfolding decode_contact_key
  Takes-signature rc s h key b letter v there fits =
      rw
        (
          eq_letter b'z' b'a' key letter,
          eq_letter b'z' b'k' key letter,
          eq_letter b'z' b'p' key letter,
          eq_letter b'z' b'u' key letter,
          eq_letter b'z' b'v' key letter,
          eq_letter b'z' b'x' key letter,
          eq_letter b'z' b'z' key letter,
        )
        (rw (decode_aligned-Reads s 64 h (omega arith) b v there fits))
