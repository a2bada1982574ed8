-- ===== src/Contact/Address/Fields.antt =====
-- Each field of an address is taken for what was written.
use uplexa_network.Prelude.{
  ℕ, ◌+◌, ◌^◌, ◌≤◌, ◌<◌, ◌≡◌, List, ◌∷◌, ◌++◌, Option, length, arith, drop,
}
use uplexa_network.Buffer.{Buffer, Io}
use uplexa_network.Bencode.Wire.{int_text, string_text}
use uplexa_network.Bencode.Fields.{decode_aligned-Reads}
use uplexa_network.Bencode.Dict.{eq_letter, Takes}
use uplexa_network.Contact.{Inet, Prints}
use uplexa_network.Contact.Address.{AddressInfo, decode_address_key}
use uplexa_network.Contact.Lists.{
  ip_text, read_uint16-Reads, read_version-Reads, read_dialect-Reads, read_ip-Reads,
}

module _ (inet : Inet) where
  abbrev pub callback : Option Buffer → AddressInfo → Io AddressInfo
  callback = decode_address_key inet

  pub Takes-rank :
      (ai : AddressInfo) (i : ℕ)
      → 1 ≤ i
      → i < 2 ^ 16
      → Takes callback b'c' (int_text i) ai (record ai { rank = i })
  unfolding decode_address_key
  Takes-rank ai i l h key b letter v there fits =
      rw (eq_letter b'c' b'c' key letter) (rw (read_uint16-Reads i l h b v there fits))

  pub Takes-dialect :
      (ai : AddressInfo) (xs : List ℕ)
      → length xs < 6
      → Takes callback b'd'
          (string_text xs)
          ai
          (record ai { dialect = xs ++ (0 ∷ drop (length xs + 1) ai.dialect) })
  unfolding decode_address_key
  Takes-dialect ai xs h key b letter v there fits =
      rw (eq_letter b'd' b'c' key letter, eq_letter b'd' b'd' key letter)
        (rw (read_dialect-Reads ai.dialect xs h b v there fits))

  pub Takes-enc_key :
      (ai : AddressInfo) (k : List ℕ)
      → length k ≡ 32
      → Takes callback b'e' (string_text k) ai (record ai { enc_key = k })
  unfolding decode_address_key
  Takes-enc_key ai k h key b letter v there fits =
      rw
        (
          eq_letter b'e' b'c' key letter,
          eq_letter b'e' b'd' key letter,
          eq_letter b'e' b'e' key letter,
        )
        (rw (decode_aligned-Reads k 32 h (omega arith) b v there fits))

  pub Takes-ip :
      (ai : AddressInfo) (ip : List ℕ)
      → Prints inet ip
      → Takes callback b'i' (string_text (ip_text inet ip)) ai (record ai { ip = ip })
  unfolding decode_address_key
  Takes-ip ai ip h key b letter v there fits =
      rw
        (
          eq_letter b'i' b'c' key letter,
          eq_letter b'i' b'd' key letter,
          eq_letter b'i' b'e' key letter,
          eq_letter b'i' b'i' key letter,
        )
        (rw (read_ip-Reads inet ip h b v there fits))

  pub Takes-port :
      (ai : AddressInfo) (i : ℕ)
      → 1 ≤ i
      → i < 2 ^ 16
      → Takes callback b'p' (int_text i) ai (record ai { port = i })
  unfolding decode_address_key
  Takes-port ai i l h key b letter v there fits =
      rw
        (
          eq_letter b'p' b'c' key letter,
          eq_letter b'p' b'd' key letter,
          eq_letter b'p' b'e' key letter,
          eq_letter b'p' b'i' key letter,
          eq_letter b'p' b'p' key letter,
        )
        (rw (read_uint16-Reads i l h b v there fits))

  pub Takes-version : (ai : AddressInfo) → Takes callback b'v' (int_text 0) ai ai
  unfolding decode_address_key
  Takes-version ai key b letter v there fits =
      rw
        (
          eq_letter b'v' b'c' key letter,
          eq_letter b'v' b'd' key letter,
          eq_letter b'v' b'e' key letter,
          eq_letter b'v' b'i' key letter,
          eq_letter b'v' b'p' key letter,
          eq_letter b'v' b'v' key letter,
        )
        (rw (read_version-Reads b v there fits))
