-- ===== src/Contact/Router/Trip.antt =====
-- A router contact is read back as it was written.
use uplexa_network.Prelude.{
  ℕ, ◌+◌, ◌-◌, ◌^◌, ◌<◌, ◌≡◌, refl, ap, subst, ◌∙◌, List, [], ◌∷◌, ◌++◌, Option, none, some, length,
  length-append, append_assoc, append-nil, arith, All, map,
}
use uplexa_network.Buffer.{Buffer, ok, advance}
use uplexa_network.Buffer.Valid.{IsValid}
use uplexa_network.Buffer.Read.{Reads}
use uplexa_network.Buffer.Write.{Appends, Appends-seq, return-Appends}
use uplexa_network.Bencode.Wire.{
  int_text, string_text, write_bytestring-Appends, write_uint64-Appends, start_dict-Appends,
  end-Appends,
}
use uplexa_network.Bencode.Fields.{write_key-Appends, write_version-Appends}
use uplexa_network.Bencode.Dict.{key_text, Entries, done, entry, read_dict-Entries}
use uplexa_network.Contact.{Inet}
use uplexa_network.Contact.Address.{AddressInfo}
use uplexa_network.Contact.Address.Trip.{
  IsAddress, address_back, addresses_text, encode_addresses-Appends, addresses_text-back,
  addresses_back-IsAddress,
}
use uplexa_network.Contact.Exit.{ExitInfo}
use uplexa_network.Contact.Exit.Trip.{IsExit, exits_text, encode_exits-Appends}
use uplexa_network.Contact.Router.Fields.{
  callback, Takes-addrs, Takes-enckey, Takes-exits, Takes-last_updated, Takes-pubkey,
  Takes-signature, Takes-version,
}
use uplexa_network.Contact.Router.{
  RouterContact, blank_contact, decode_contact_key, decode_contact, write_addrs, write_exits,
  encode_contact,
}

-- Nothing, or a list of which each satisfies the predicate.
abbrev pub AllIn : {A : Type 0} → (A → Type 0) → Option (List A) → Type 0
AllIn P none = Unit {0}
AllIn P (some l) = All P l

-- A contact that the code can write: its addresses and exits can be written.
pub record IsWritable (inet : Inet) (rc : RouterContact) : Type 0 where
  pub addresses : AllIn (IsAddress inet) rc.addrs
  pub exit_list : AllIn (IsExit inet) rc.exits

-- And one that it can read: keys of 32 bytes, a signature of 64, and a time below 2 ^ 64 - 1.
pub record IsContact (inet : Inet) (rc : RouterContact) : Type 0 where
  pub writable : IsWritable inet rc
  pub key_size : length rc.pubkey ≡ 32
  pub enckey_size : length rc.enckey ≡ 32
  pub signature_size : length rc.signature ≡ 64
  pub updated_fits : rc.last_updated < 2 ^ 64 - 1

abbrev pub addrs_back : AddressInfo → Option (List AddressInfo) → Option (List AddressInfo)
addrs_back junk none = none
addrs_back junk (some l) = some (map (address_back junk) l)

abbrev pub contact_back : AddressInfo → RouterContact → RouterContact
contact_back junk rc = record rc { addrs = addrs_back junk rc.addrs }

module _ (inet : Inet) where
  abbrev addrs_entry : Option (List AddressInfo) → List ℕ
  addrs_entry none = []
  addrs_entry (some l) = key_text b'a' ++ addresses_text inet l

  abbrev exits_entry : Option (List ExitInfo) → List ℕ
  exits_entry none = []
  exits_entry (some l) = key_text b'x' ++ exits_text inet l

  abbrev fixed_entries : RouterContact → List ℕ → List ℕ
  fixed_entries rc rest =
      key_text b'k'
      ++ (string_text rc.pubkey
          ++ (key_text b'p'
              ++ (string_text rc.enckey
                  ++ (key_text b'u'
                      ++ (int_text rc.last_updated ++ (key_text b'v' ++ (int_text 0 ++ rest)))))))

  abbrev last_entry : List ℕ → List ℕ
  last_entry s = key_text b'z' ++ (string_text s ++ [])

  abbrev contact_entries : RouterContact → List ℕ
  contact_entries rc =
      addrs_entry rc.addrs ++ fixed_entries rc (exits_entry rc.exits ++ last_entry rc.signature)

  abbrev pub contact_text : RouterContact → List ℕ
  contact_text rc = b'd' ∷ (contact_entries rc ++ (b'e' ∷ []))

  write_addrs-Appends :
      (o : Option (List AddressInfo))
      → AllIn (IsAddress inet) o
      → Appends (write_addrs inet o) (addrs_entry o)
  unfolding write_addrs
  write_addrs-Appends none all = return-Appends
  write_addrs-Appends (some l) all =
      Appends-seq (write_key-Appends b'a') (encode_addresses-Appends inet l all)

  write_exits-Appends :
      (o : Option (List ExitInfo))
      → AllIn (IsExit inet) o
      → Appends (write_exits inet o) (exits_entry o)
  unfolding write_exits
  write_exits-Appends none all = return-Appends
  write_exits-Appends (some l) all =
      Appends-seq (write_key-Appends b'x') (encode_exits-Appends inet l all)

  pub encode_contact-Appends :
      (rc : RouterContact) → IsWritable inet rc → Appends (encode_contact inet rc) (contact_text rc)
  unfolding encode_contact
  encode_contact-Appends rc good =
      subst (Appends (encode_contact inet rc)) (simp (append_assoc, append-nil)) (
        Appends-seq start_dict-Appends (
          Appends-seq (write_addrs-Appends rc.addrs good.addresses) (
            Appends-seq (write_key-Appends b'k') (
              Appends-seq (write_bytestring-Appends rc.pubkey) (
                Appends-seq (write_key-Appends b'p') (
                  Appends-seq (write_bytestring-Appends rc.enckey) (
                    Appends-seq (write_key-Appends b'u') (
                      Appends-seq (write_uint64-Appends rc.last_updated) (
                        Appends-seq write_version-Appends (
                          Appends-seq (write_exits-Appends rc.exits good.exit_list) (
                            Appends-seq (write_key-Appends b'z') (
                              Appends-seq (write_bytestring-Appends rc.signature)
                                end-Appends))))))))))))

  module _ (junk : AddressInfo) where
    addrs_Entries :
        (old : RouterContact) (o : Option (List AddressInfo)) {txt : List ℕ} {w : RouterContact}
        → AllIn (IsAddress inet) o
        → Entries (callback inet junk) (record old { addrs = addrs_back junk o }) txt w
        → Entries (callback inet junk) (record old { addrs = none }) (addrs_entry o ++ txt) w
    addrs_Entries old none all rest = rest
    addrs_Entries old (some l) all rest =
        entry b'a' (addresses_text inet l)
          (Takes-addrs inet junk (record old { addrs = none }) l all) rest

    exits_Entries :
        (old : RouterContact) (o : Option (List ExitInfo)) {txt : List ℕ} {w : RouterContact}
        → AllIn (IsExit inet) o
        → Entries (callback inet junk) (record old { exits = o }) txt w
        → Entries (callback inet junk) (record old { exits = none }) (exits_entry o ++ txt) w
    exits_Entries old none all rest = rest
    exits_Entries old (some l) all rest =
        entry b'x' (exits_text inet l) (Takes-exits inet junk (record old { exits = none }) l all)
          rest

    contact_Entries :
        (rc : RouterContact)
        → IsContact inet rc
        → Entries (callback inet junk) blank_contact (contact_entries rc) (contact_back junk rc)
    contact_Entries rc good =
        let with_addrs = record blank_contact { addrs = addrs_back junk rc.addrs } in
        let with_keys = record with_addrs { pubkey = rc.pubkey; enckey = rc.enckey } in
        let dated = record with_keys { last_updated = rc.last_updated } in
        addrs_Entries blank_contact rc.addrs good.writable.addresses (
          entry b'k' (string_text rc.pubkey)
            (Takes-pubkey inet junk with_addrs rc.pubkey good.key_size)
            (entry b'p' (string_text rc.enckey)
              (Takes-enckey inet junk _ rc.enckey good.enckey_size)
              (entry b'u' (int_text rc.last_updated)
                (Takes-last_updated inet junk with_keys rc.last_updated good.updated_fits)
                (entry b'v' (int_text 0) (Takes-version inet junk dated) (
                  exits_Entries dated rc.exits good.writable.exit_list (
                    entry b'z' (string_text rc.signature)
                      (Takes-signature inet junk _ rc.signature good.signature_size) done))))))

    decode_contact_end :
        (rc : RouterContact) (b : Buffer) → (callback inet junk) none rc b ≡ (ok rc, b)
    unfolding decode_contact_key
    decode_contact_end rc b = refl

    pub decode_contact-Reads :
        (rc : RouterContact)
        → IsContact inet rc
        → Reads (decode_contact inet junk blank_contact) (contact_text rc) (contact_back junk rc)
    unfolding decode_contact
    decode_contact-Reads rc good b v there fits =
        let size = length-append (contact_entries rc) (b'e' ∷ []) in
        read_dict-Entries (callback inet junk) (contact_Entries rc good) b v there
          (omega (arith, size)) (decode_contact_end (contact_back junk rc))
        ∙ ap (λ n. (ok (contact_back junk rc), advance n b)) (omega (arith, size))

    -- A router contact that can be written and read, encoded into a valid buffer with a byte more
    -- of room than its text has, is decoded there as it was, but for the bytes behind the NUL of
    -- an address's dialect, which are those of the fresh array. Keys have 32 bytes, the signature
    -- 64, numbers are in their ranges, dialects have at most five characters, and the C library
    -- prints each address as a short text that it parses again.
    pub decode_contact-encode_contact :
        (rc : RouterContact) (b : Buffer)
        → IsContact inet rc
        → IsValid b
        → b.cur + length (contact_text rc) < b.base + b.sz
        → let r = encode_contact inet rc b in
          (r.0 ≡ ok tt)
          × (decode_contact inet junk blank_contact (record (r.1) { cur = b.cur })
              ≡ (ok (contact_back junk rc), r.1))
    decode_contact-encode_contact rc b good v room =
        let (c, e, x) = encode_contact-Appends rc good.writable b v room in
        let back = record c { cur = b.cur } in
        let decoded =
          decode_contact-Reads rc good back (record { ordered = omega arith; inside = omega arith })
            x.holds (omega arith) in
        rw e (refl, decoded ∙ ap (λ d. (ok (contact_back junk rc), d)) (ground arith))

    -- What is read back is written as before.
    addrs_entry-back :
        (o : Option (List AddressInfo)) → addrs_entry (addrs_back junk o) ≡ addrs_entry o
    addrs_entry-back none = refl
    addrs_entry-back (some l) = rw (addresses_text-back inet junk l)

    pub contact_text-back :
        (rc : RouterContact) → contact_text (contact_back junk rc) ≡ contact_text rc
    contact_text-back rc = rw (addrs_entry-back rc.addrs)

    addrs_back-AllIn :
        (o : Option (List AddressInfo))
        → AllIn (IsAddress inet) o
        → AllIn (IsAddress inet) (addrs_back junk o)
    addrs_back-AllIn none all = tt
    addrs_back-AllIn (some l) all = addresses_back-IsAddress inet junk l all

    pub contact_back-IsWritable :
        (rc : RouterContact) → IsWritable inet rc → IsWritable inet (contact_back junk rc)
    contact_back-IsWritable rc good = record {
      addresses = addrs_back-AllIn rc.addrs good.addresses;
      exit_list = good.exit_list;
    }
