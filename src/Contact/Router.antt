-- ===== src/Contact/Router.antt =====
-- udap_rc: the contact of a router, udap/router_contact.cpp, and its signature, there and in
-- udap/router.cpp.
pub mod Fields
pub mod Trip
pub mod Signed
use uplexa_network.Prelude.{ℕ, Bool, false, List, [], ◌∷◌, Option, none, some, if◌then◌else◌}
use uplexa_network.Buffer.Memory.{Mem}
use uplexa_network.Buffer.{
  Buffer, Io, Result, ok, failed, stuck, and_then, return, eq, load_all, ◌>>=◌, ◌>>◌,
}
use uplexa_network.Bencode.{
  write_bytestring, write_uint64, start_dict, end, write_version_entry, read_integer, read_dict,
}
use uplexa_network.Bencode.Fields.{decode_aligned}
use uplexa_network.Dht.Key.{Key, fill}
use uplexa_network.Contact.{Inet}
use uplexa_network.Contact.Address.{AddressInfo, read_version, decode_addresses, encode_addresses}
use uplexa_network.Contact.Exit.{ExitInfo, decode_exits, encode_exits}

pub record RouterContact : Type 0 where
  pub addrs : Option (List AddressInfo)
  pub enckey : Key
  pub pubkey : Key
  pub exits : Option (List ExitInfo)
  pub signature : List ℕ
  pub last_updated : ℕ

-- udap_rc_clear.
abbrev pub blank_contact : RouterContact
blank_contact = record {
  addrs = none;
  enckey = fill 32 0;
  pubkey = fill 32 0;
  exits = none;
  signature = fill 64 0;
  last_updated = 0;
}

abbrev pub max_rc_size : ℕ
max_rc_size = 1024

module _ (inet : Inet) where
  -- udap_rc_decode_dict.
  unfoldable pub decode_contact_key : AddressInfo → Option Buffer → RouterContact → Io RouterContact
  decode_contact_key junk none rc b = (ok rc, b)
  decode_contact_key junk (some key) rc b =
      if eq key (b'a' ∷ [])
      then and_then (decode_addresses inet junk [] b) (λ l. return (record rc { addrs = some l }))
      else if eq key (b'k' ∷ [])
      then and_then (decode_aligned 32 b) (λ k. return (record rc { pubkey = k }))
      else if eq key (b'p' ∷ [])
      then and_then (decode_aligned 32 b) (λ k. return (record rc { enckey = k }))
      else if eq key (b'u' ∷ [])
      then and_then (read_integer b) (λ t. return (record rc { last_updated = t }))
      else if eq key (b'v' ∷ [])
      then and_then (read_version b) (λ _. return rc)
      else if eq key (b'x' ∷ [])
      then and_then (decode_exits inet [] b) (λ l. return (record rc { exits = some l }))
      else if eq key (b'z' ∷ [])
      then and_then (decode_aligned 64 b) (λ s. return (record rc { signature = s }))
      else (failed, b)

  -- udap_rc_bdecode.
  unfoldable pub decode_contact : AddressInfo → RouterContact → Io RouterContact
  decode_contact junk rc = read_dict (decode_contact_key junk) rc

  -- udap_rc_bencode.
  unfoldable pub write_addrs : Option (List AddressInfo) → Io (Unit {0})
  write_addrs none = return tt
  write_addrs (some l) = do write_bytestring (b'a' ∷ []); encode_addresses inet l

  unfoldable pub write_exits : Option (List ExitInfo) → Io (Unit {0})
  write_exits none = return tt
  write_exits (some l) = do write_bytestring (b'x' ∷ []); encode_exits inet l

  unfoldable pub encode_contact : RouterContact → Io (Unit {0})
  encode_contact rc = do
    start_dict
    write_addrs rc.addrs
    write_bytestring (b'k' ∷ [])
    write_bytestring rc.pubkey
    write_bytestring (b'p' ∷ [])
    write_bytestring rc.enckey
    write_bytestring (b'u' ∷ [])
    write_uint64 rc.last_updated
    write_version_entry
    write_exits rc.exits
    write_bytestring (b'z' ∷ [])
    write_bytestring rc.signature
    end

-- The signatures of the crypto library.
pub record Signer : Type 0 where
  pub sign : List ℕ → List ℕ → List ℕ
  pub verify : Key → List ℕ → List ℕ → Bool

-- A StackBuffer over an array of MAX_RC_SIZE bytes, which holds what was there.
abbrev pub stack_buffer : Mem → Buffer
stack_buffer tmp = record { mem = tmp; base = 0; cur = 0; sz = max_rc_size }

-- What stands between the base and the cursor.
abbrev pub written : Buffer → List ℕ
written b = load_all b.mem 0 b.cur

abbrev pub unsigned : RouterContact → RouterContact
unsigned rc = record rc { signature = fill 64 0 }

-- What is done with the bytes of an encoding that succeeded, and what else.
unfoldable pub if_encoded {ℓ} : {A : Type ℓ} → (List ℕ → A) → A → Result (Unit {0}) × Buffer → A
if_encoded f other (ok _, c) = f (written c)
if_encoded f other (failed, c) = other
if_encoded f other (stuck, c) = other

module _ (inet : Inet) (signer : Signer) where
  -- udap_rc_verify_sig: the signature is zeroed for the encoding, and put back.
  unfoldable pub verify_sig : Mem → RouterContact → Bool × RouterContact
  verify_sig tmp rc =
      let zeroed = unsigned rc in
      let result =
        if_encoded (λ bytes. signer.verify rc.pubkey bytes rc.signature) false
          (encode_contact inet zeroed (stack_buffer tmp)) in
      (result, record zeroed { signature = rc.signature })

  -- udap_rc_sign: where the encoding fails the signature stays zero.
  unfoldable pub sign_contact : Mem → List ℕ → RouterContact → RouterContact
  sign_contact tmp seckey rc =
      let zeroed = unsigned rc in
      if_encoded (λ bytes. record zeroed { signature = signer.sign seckey bytes }) zeroed
        (encode_contact inet zeroed (stack_buffer tmp))
