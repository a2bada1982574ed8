-- ===== src/Examples/Contacts.antt =====
-- Runs of the codecs of router contacts and of the node database.
use uplexa_network.Prelude.{
  ℕ, zero, suc, ◌≡◌, ◌≢◌, ◌<◌, ◌+◌, refl, true, List, [], ◌∷◌, none, some, length, arith,
  if◌then◌else◌, All,
}
use uplexa_network.Text.{print_long, decimal, to_digits}
use uplexa_network.Buffer.{Buffer, ok}
use uplexa_network.Buffer.Memory.{store_all}
use uplexa_network.Bencode.Progress.{Forward}
use uplexa_network.Dht.Codec.{decode_message_list}
use uplexa_network.Contact.Ends.{contact_codec, decode_message_list-contact_codec}
use uplexa_network.Hex.{hex_digit, hex_encode, hex_decode, hex_decode-hex_encode}
use uplexa_network.Dht.Key.{Key, eq, fill}
use uplexa_network.Contact.{Inet, Prints, c_string}
use uplexa_network.Contact.Address.{AddressInfo}
use uplexa_network.Contact.Address.Trip.{addresses_text}
use uplexa_network.Contact.Exit.Trip.{exits_text}
use uplexa_network.Contact.Lists.{ip_text}
use uplexa_network.Contact.Router.{
  RouterContact, Signer, blank_contact, encode_contact, decode_contact, verify_sig, sign_contact,
}
use uplexa_network.Contact.Router.Trip.{
  IsContact, contact_back, contact_text, decode_contact-encode_contact,
}
use uplexa_network.Contact.Router.Signed.{sign_contact_lem, verify_sig-received}
use uplexa_network.NodeDb.{
  Disk, NodeDb, rc_path, get_rc, set_rc, load_file, load_files, select_other,
}
use uplexa_network.NodeDb.Files.{IsGood, load_file-set_rc, load_files-IsGood}
use uplexa_network.NodeDb.Hops.{Covers, IsChosen, select_other_lem, select_other-only}

-- Addresses in hexadecimal, and a signature that is always the same.
abbrev hex_inet : Inet
hex_inet = record { pton = hex_decode; ntop = λ ip. some (hex_encode ip) }

abbrev signer : Signer
signer = record { sign = λ _ _. fill 64 7; verify = λ _ _ s. eq s (fill 64 7) }

abbrev local_ip : List ℕ
local_ip = fill 16 18

local_ip-Prints : Prints hex_inet local_ip
unfolding fill hex_encode hex_decode hex_digit
local_ip-Prints = record {
  text = hex_encode local_ip;
  printed = refl;
  parsed = hex_decode-hex_encode local_ip (omega arith);
  short = omega arith;
  plain = omega arith;
}

abbrev address : AddressInfo
address = record {
  rank = 1;
  dialect = b'I' ∷ b'W' ∷ b'P' ∷ 0 ∷ 0 ∷ 0 ∷ [];
  enc_key = fill 32 3;
  ip = local_ip;
  port = 1090;
}

abbrev junk : AddressInfo
junk = record address { dialect = fill 6 255; rank = 0 }

abbrev contact : RouterContact
contact = record {
  addrs = some (address ∷ []);
  enckey = fill 32 4;
  pubkey = fill 32 5;
  exits = some (record { address = local_ip; netmask = local_ip; pubkey = fill 32 6 } ∷ []);
  signature = fill 64 7;
  last_updated = 1530000000;
}

contact-IsContact : IsContact hex_inet contact
unfolding fill c_string
contact-IsContact = record {
  writable = record {
    addresses = (
      record {
        ranked = omega arith;
        rank_fits = omega arith;
        dialect_fits = omega arith;
        key_size = refl;
        ip_prints = local_ip-Prints;
        open_port = omega arith;
        port_fits = omega arith;
      },
      tt,
    );
    exit_list = (
      record {
        address_prints = local_ip-Prints;
        netmask_prints = local_ip-Prints;
        key_size = refl;
      },
      tt,
    );
  };
  key_size = refl;
  enckey_size = refl;
  signature_size = refl;
  updated_fits = omega arith;
}

abbrev out : Buffer
out = record { mem = λ _. 0; base = 0; cur = 0; sz = 1024 }

decode_contact-encode_contact_example :
    let r = encode_contact hex_inet contact out in
    (r.0 ≡ ok tt)
    × (decode_contact hex_inet junk blank_contact (record (r.1) { cur = 0 })
        ≡ (ok (contact_back junk contact), r.1))
unfolding fill c_string hex_encode hex_digit print_long decimal to_digits ip_text addresses_text
    exits_text
decode_contact-encode_contact_example =
    decode_contact-encode_contact hex_inet junk contact out contact-IsContact
      (record { ordered = omega arith; inside = omega arith }) (omega arith)

signed_room :
    out.cur + length (contact_text hex_inet (sign_contact hex_inet signer (λ _. 0) [] contact))
    < out.base + out.sz
unfolding fill c_string hex_encode hex_digit print_long decimal to_digits ip_text addresses_text
    exits_text
signed_room =
    rw
      (sign_contact_lem hex_inet signer (λ _. 0) [] contact contact-IsContact.writable
        (omega arith))
      (omega arith)

-- The secret key is not looked at.
verify_sig-received_example :
    let signed = sign_contact hex_inet signer (λ _. 0) [] contact in
    let r = encode_contact hex_inet signed out in
    (r.0 ≡ ok tt)
    × (rc' : RouterContact) × (decode_contact hex_inet junk blank_contact (record (r.1) { cur = 0 })
        ≡ (ok rc', r.1))
    × (verify_sig hex_inet signer (λ _. 1) rc' ≡ (true, rc'))
unfolding fill c_string hex_encode hex_digit print_long decimal to_digits ip_text addresses_text
    exits_text eq
verify_sig-received_example =
    verify_sig-received hex_inet signer [] contact junk (λ _. 0) (λ _. 1) out (λ m. refl)
      (λ m. refl) contact-IsContact (omega arith)
      (record { ordered = omega arith; inside = omega arith }) signed_room

abbrev disk : Disk
disk = record { files = λ _. none; writable = λ _. true }

abbrev empty_db : NodeDb
empty_db = record { entries = []; node_path = b'd' ∷ b'b' ∷ [] }

load_file-set_rc_example :
    let s = set_rc hex_inet signer (λ _. 0) contact disk empty_db in
    let path = rc_path empty_db.node_path contact.pubkey in
    let r = load_file hex_inet signer junk (λ _. 1) (λ _. 2) path s.1 empty_db in
    (s.0 ≡ true)
    × (r.0 ≡ true)
    × ((pk : Key)
        → get_rc pk r.1
          ≡ (if eq contact.pubkey pk then some (contact_back junk contact) else get_rc pk empty_db))
unfolding fill c_string hex_encode hex_digit print_long decimal to_digits ip_text addresses_text
    exits_text eq
load_file-set_rc_example =
    load_file-set_rc hex_inet signer junk (λ _. 0) (λ _. 1) (λ _. 2) contact disk empty_db empty_db
      contact-IsContact (omega arith) (omega arith) refl refl

load_files-IsGood_example :
    let path = rc_path empty_db.node_path contact.pubkey in
    let s = set_rc hex_inet signer (λ _. 0) contact disk empty_db in
    All
      (IsGood hex_inet signer (λ _. 2))
      (load_files hex_inet signer junk (λ _. 1) (λ _. 2) (path ∷ []) s.1 empty_db).1.entries
load_files-IsGood_example =
    load_files-IsGood hex_inet signer junk (λ _. 1) (λ _. 2)
      (rc_path empty_db.node_path contact.pubkey ∷ [])
      (set_rc hex_inet signer (λ _. 0) contact disk empty_db).1 empty_db tt

abbrev other_contact : RouterContact
other_contact = record contact { pubkey = fill 32 8 }

-- The first number picks the router before, the second another.
abbrev entries : List (Key × RouterContact)
entries = (fill 32 5, contact) ∷ (fill 32 8, other_contact) ∷ []

-- Two numbers that leave both remainders.
numbers-Covers : Covers (4 ∷ 3 ∷ []) 2
numbers-Covers zero h = (0, 4, refl, refl)
numbers-Covers (suc zero) h = (1, 3, refl, refl)
numbers-Covers (suc (suc i)) h = absurd (omega (arith, h))

-- The first bytes of the keys differ.
second-other : fill 32 8 ≢ fill 32 5
unfolding fill
second-other e = cc

select_other_lem_example : (m : ℕ) × IsChosen (fill 32 5) (4 ∷ 3 ∷ []) entries m
select_other_lem_example =
    select_other_lem (fill 32 5) (4 ∷ 3 ∷ []) entries 1 (fill 32 8, other_contact) refl second-other
      numbers-Covers

select_other-only_example : select_other (fill 32 5) (4 ∷ 3 ∷ []) ((fill 32 5, contact) ∷ []) ≡ none
select_other-only_example =
    select_other-only (fill 32 5) (4 ∷ 3 ∷ []) ((fill 32 5, contact) ∷ []) (refl, tt)

-- A list with an answer that has a contact with no address, which is cut off.
abbrev lookups : List ℕ
lookups =
    b'l' ∷ b'd' ∷ b'1' ∷ b':' ∷ b'A' ∷ b'1' ∷ b':' ∷ b'S' ∷ b'1' ∷ b':' ∷ b'R' ∷ b'l' ∷ b'd' ∷ b'1'
    ∷ b':' ∷ b'a' ∷ b'l' ∷ b'e' ∷ []

abbrev cut_off : Buffer
cut_off = record { mem = store_all (λ _. 0) 0 lookups; base = 0; cur = 0; sz = length lookups }

decode_message_list-contact_codec_example :
    Forward 2 cut_off
      (decode_message_list (contact_codec hex_inet junk) (fill 32 255) (fill 32 6) cut_off)
decode_message_list-contact_codec_example =
    decode_message_list-contact_codec hex_inet junk (fill 32 255) (fill 32 6) cut_off (omega arith)
