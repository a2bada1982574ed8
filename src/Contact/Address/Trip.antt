-- ===== src/Contact/Address/Trip.antt =====
-- A list of addresses is read back as it was written.
use uplexa_network.Prelude.{
  ℕ, ◌+◌, ◌^◌, ◌≤◌, ◌<◌, ◌≡◌, refl, ap, subst, ◌∙◌, false, List, [], ◌∷◌, ◌++◌, none, length,
  length-append, append_assoc, append-nil, arith, All, map, concat, drop,
}
use uplexa_network.Buffer.{Buffer, ok, advance}
use uplexa_network.Buffer.Read.{Reads}
use uplexa_network.Buffer.Write.{Appends, Appends-seq}
use uplexa_network.Bencode.Wire.{
  int_text, string_text, write_bytestring-Appends, start_dict-Appends, end-Appends,
}
use uplexa_network.Bencode.Fields.{write_key-Appends, write_version-Appends}
use uplexa_network.Bencode.Items.{Items, item, read_list-Items}
use uplexa_network.Bencode.Dict.{key_text, Entries, done, entry, read_dict-Entries}
use uplexa_network.Contact.{Inet, Prints, c_string}
use uplexa_network.Contact.Address.{
  AddressInfo, decode_address_key, decode_address, encode_address, read_address, decode_addresses,
  encode_addresses,
}
use uplexa_network.Contact.Address.Fields.{
  callback, Takes-dialect, Takes-enc_key, Takes-ip, Takes-port, Takes-rank, Takes-version,
}
use uplexa_network.Contact.Lists.{
  list_text, encode_list-Appends, ip_text, c_string-c_string, write_uint16-Appends,
  write_ip-Appends,
}

-- An address that the code can write and read: numbers from 1 to 65535, a dialect of at most five
-- characters, a key of 32 bytes, and an address that the C library prints.
pub record IsAddress (inet : Inet) (ai : AddressInfo) : Type 0 where
  pub ranked : 1 ≤ ai.rank
  pub rank_fits : ai.rank < 2 ^ 16
  pub dialect_fits : length (c_string ai.dialect) < 6
  pub key_size : length ai.enc_key ≡ 32
  pub ip_prints : Prints inet ai.ip
  pub open_port : 1 ≤ ai.port
  pub port_fits : ai.port < 2 ^ 16

-- What is read back: behind the dialect's NUL stands what the fresh array held.
abbrev pub address_back : AddressInfo → AddressInfo → AddressInfo
address_back junk ai = record ai {
  dialect = c_string ai.dialect ++ (0 ∷ drop (length (c_string ai.dialect) + 1) junk.dialect);
}

module _ (inet : Inet) where
  abbrev address_entries : AddressInfo → List ℕ
  address_entries ai =
      key_text b'c'
      ++ (int_text ai.rank
          ++ (key_text b'd'
              ++ (string_text (c_string ai.dialect)
                  ++ (key_text b'e'
                      ++ (string_text ai.enc_key
                          ++ (key_text b'i'
                              ++ (string_text (ip_text inet ai.ip)
                                  ++ (key_text b'p'
                                      ++ (int_text ai.port
                                          ++ (key_text b'v' ++ (int_text 0 ++ [])))))))))))

  abbrev pub address_text : AddressInfo → List ℕ
  address_text ai = b'd' ∷ (address_entries ai ++ (b'e' ∷ []))

  encode_address-Appends :
      (ai : AddressInfo) → IsAddress inet ai → Appends (encode_address inet ai) (address_text ai)
  unfolding encode_address
  encode_address-Appends ai good =
      subst (Appends (encode_address inet ai)) (simp (append_assoc, append-nil)) (
        Appends-seq start_dict-Appends (
          Appends-seq (write_key-Appends b'c') (
            Appends-seq (write_uint16-Appends ai.rank good.rank_fits) (
              Appends-seq (write_key-Appends b'd') (
                Appends-seq (write_bytestring-Appends (c_string ai.dialect)) (
                  Appends-seq (write_key-Appends b'e') (
                    Appends-seq (write_bytestring-Appends ai.enc_key) (
                      Appends-seq (write_ip-Appends inet b'i' ai.ip good.ip_prints) (
                        Appends-seq (write_key-Appends b'p') (
                          Appends-seq (write_uint16-Appends ai.port good.port_fits)
                            (Appends-seq write_version-Appends end-Appends)))))))))))

  address_Entries :
      (junk ai : AddressInfo)
      → IsAddress inet ai
      → Entries (callback inet) junk (address_entries ai) (address_back junk ai)
  address_Entries junk ai good =
      entry b'c' (int_text ai.rank) (Takes-rank inet junk ai.rank good.ranked good.rank_fits) (
        entry b'd' (string_text (c_string ai.dialect))
          (Takes-dialect inet _ (c_string ai.dialect) good.dialect_fits)
          (entry b'e' (string_text ai.enc_key) (Takes-enc_key inet _ ai.enc_key good.key_size) (
            entry b'i' (string_text (ip_text inet ai.ip)) (Takes-ip inet _ ai.ip good.ip_prints) (
              entry b'p' (int_text ai.port)
                (Takes-port inet _ ai.port good.open_port good.port_fits)
                (entry b'v' (int_text 0) (Takes-version inet _) done)))))

  decode_address_end : (ai : AddressInfo) (b : Buffer) → (callback inet) none ai b ≡ (ok ai, b)
  unfolding decode_address_key
  decode_address_end ai b = refl

  decode_address-Reads :
      (junk ai : AddressInfo)
      → IsAddress inet ai
      → Reads (decode_address inet junk) (address_text ai) (address_back junk ai)
  unfolding decode_address
  decode_address-Reads junk ai good b v there fits =
      let size = length-append (address_entries ai) (b'e' ∷ []) in
      read_dict-Entries (callback inet) (address_Entries junk ai good) b v there
        (omega (arith, size)) (decode_address_end (address_back junk ai))
      ∙ ap (λ n. (ok (address_back junk ai), advance n b)) (omega (arith, size))

  addresses_Items :
      (junk : AddressInfo) (l have : List AddressInfo)
      → All (IsAddress inet) l
      → Items
          (read_address inet junk)
          have
          (concat (map address_text l))
          (have ++ map (address_back junk) l)
  unfolding read_address
  addresses_Items junk [] have all = rw append-nil Items.done
  addresses_Items junk (ai ∷ l) have all =
      item (address_text ai) (omega arith)
        (λ b v there fits. rw (decode_address-Reads junk ai all.0 b v there fits))
        (subst (Items (read_address inet junk) _ _)
          (append_assoc have (address_back junk ai ∷ []) (map (address_back junk) l))
          (addresses_Items junk l (have ++ (address_back junk ai ∷ [])) all.1))

  read_address_end :
      (junk : AddressInfo) (l : List AddressInfo) (b : Buffer)
      → read_address inet junk false l b ≡ (ok l, b)
  unfolding read_address
  read_address_end junk l b = refl

  unfoldable pub addresses_text : List AddressInfo → List ℕ
  addresses_text l = list_text (map address_text l)

  pub decode_addresses-Reads :
      (junk : AddressInfo) (l : List AddressInfo)
      → All (IsAddress inet) l
      → Reads (decode_addresses inet junk []) (addresses_text l) (map (address_back junk) l)
  unfolding decode_addresses addresses_text
  decode_addresses-Reads junk l all b v there fits =
      let size = length-append (concat (map address_text l)) (b'e' ∷ []) in
      read_list-Items (read_address inet junk) (addresses_Items junk l [] all) b v there
        (omega (arith, size)) (read_address_end junk (map (address_back junk) l))
      ∙ ap (λ n. (ok (map (address_back junk) l), advance n b)) (omega (arith, size))

  encode-All :
      (l : List AddressInfo)
      → All (IsAddress inet) l
      → All (λ ai. Appends (encode_address inet ai) (address_text ai)) l
  encode-All [] all = tt
  encode-All (ai ∷ l) all = (encode_address-Appends ai all.0, encode-All l all.1)

  pub encode_addresses-Appends :
      (l : List AddressInfo)
      → All (IsAddress inet) l
      → Appends (encode_addresses inet l) (addresses_text l)
  unfolding encode_addresses addresses_text
  encode_addresses-Appends l all =
      encode_list-Appends (encode_address inet) address_text l (encode-All l all)

  -- What is read back is written as before.
  text-back :
      (junk : AddressInfo) (l : List AddressInfo)
      → map address_text (map (address_back junk) l) ≡ map address_text l
  text-back junk [] = refl
  text-back junk (ai ∷ l) =
      let same =
        c_string-c_string ai.dialect (drop (length (c_string ai.dialect) + 1) junk.dialect) in
      rw (same, text-back junk l)

  pub addresses_text-back :
      (junk : AddressInfo) (l : List AddressInfo)
      → addresses_text (map (address_back junk) l) ≡ addresses_text l
  unfolding addresses_text
  addresses_text-back junk l = ap list_text (text-back junk l)

  address_back-IsAddress :
      (junk ai : AddressInfo) → IsAddress inet ai → IsAddress inet (address_back junk ai)
  address_back-IsAddress junk ai good = record {
    ranked = good.ranked;
    rank_fits = good.rank_fits;
    dialect_fits =
        rw (c_string-c_string ai.dialect (drop (length (c_string ai.dialect) + 1) junk.dialect))
          (good.dialect_fits);
    key_size = good.key_size;
    ip_prints = good.ip_prints;
    open_port = good.open_port;
    port_fits = good.port_fits;
  }

  pub addresses_back-IsAddress :
      (junk : AddressInfo) (l : List AddressInfo)
      → All (IsAddress inet) l
      → All (IsAddress inet) (map (address_back junk) l)
  addresses_back-IsAddress junk [] all = tt
  addresses_back-IsAddress junk (ai ∷ l) all =
      (address_back-IsAddress junk ai all.0, addresses_back-IsAddress junk l all.1)
