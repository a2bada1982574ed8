-- ===== src/Contact/Router/Signed.antt =====
-- The signature of a router contact.
use uplexa_network.Prelude.{
  ℕ, ◌+◌, ◌<◌, ◌≡◌, sym, ap, subst, ◌∙◌, Bool, true, false, List, length, arith,
}
use uplexa_network.Buffer.Memory.{Mem, load_all, load_all-Holds}
use uplexa_network.Buffer.{Buffer, ok}
use uplexa_network.Buffer.Valid.{IsValid}
use uplexa_network.Contact.{Inet}
use uplexa_network.Contact.Address.{AddressInfo}
use uplexa_network.Contact.Router.{
  RouterContact, Signer, blank_contact, unsigned, max_rc_size, stack_buffer, written, if_encoded,
  encode_contact, decode_contact, verify_sig, sign_contact,
}
use uplexa_network.Contact.Router.Trip.{
  IsWritable, IsContact, contact_text, contact_back, encode_contact-Appends,
  decode_contact-encode_contact, contact_text-back, contact_back-IsWritable,
}

module _ (inet : Inet) where
  -- What is encoded in the array of a stack buffer.
  pub encode_stack :
      (tmp : Mem) (rc : RouterContact)
      → IsWritable inet rc
      → length (contact_text inet rc) < max_rc_size
      → (c : Buffer) × (encode_contact inet rc (stack_buffer tmp) ≡ (ok tt, c))
        × (written c ≡ contact_text inet rc)
  encode_stack tmp rc good size =
      let (c, e, x) =
        encode_contact-Appends inet rc good (stack_buffer tmp)
          (record { ordered = omega arith; inside = omega arith }) (omega arith) in
      let bytes = load_all-Holds (contact_text inet rc) c.mem 0 x.holds in
      (c, e, subst (λ n. load_all c.mem 0 n ≡ contact_text inet rc) (omega (arith, x.moved)) bytes)

  -- The signed text does not depend on the signature, nor on what an array held behind a text.
  abbrev pub signed_text : RouterContact → List ℕ
  signed_text rc = contact_text inet (unsigned rc)

  -- The unsigned contact is encoded, and its bytes go to the function.
  pub if_encoded-unsigned :
      {A : Type 0} (f : List ℕ → A) (other : A) (tmp : Mem) (rc : RouterContact)
      → IsWritable inet rc
      → length (signed_text rc) < max_rc_size
      → if_encoded f other (encode_contact inet (unsigned rc) (stack_buffer tmp))
        ≡ f (signed_text rc)
  unfolding if_encoded
  if_encoded-unsigned f other tmp rc good size =
      let (c, e, bytes) =
        encode_stack tmp (unsigned rc)
          (record { addresses = good.addresses; exit_list = good.exit_list }) size in
      ap (if_encoded f other) e ∙ ap f bytes

module _ (inet : Inet) (signer : Signer) where
  verify_sig_lem :
      (tmp : Mem) (rc : RouterContact)
      → IsWritable inet rc
      → length (signed_text inet rc) < max_rc_size
      → verify_sig inet signer tmp rc
        ≡ (signer.verify rc.pubkey (signed_text inet rc) rc.signature, rc)
  unfolding verify_sig
  verify_sig_lem tmp rc good size =
      ap (λ (x : Bool). (x, rc))
        (if_encoded-unsigned inet (λ bytes. signer.verify rc.pubkey bytes rc.signature) false tmp rc
          good size)

  pub sign_contact_lem :
      (tmp : Mem) (seckey : List ℕ) (rc : RouterContact)
      → IsWritable inet rc
      → length (signed_text inet rc) < max_rc_size
      → sign_contact inet signer tmp seckey rc
        ≡ record rc { signature = signer.sign seckey (signed_text inet rc) }
  unfolding sign_contact
  sign_contact_lem tmp seckey rc good size =
      if_encoded-unsigned inet (λ bytes. record rc { signature = signer.sign seckey bytes })
        (unsigned rc) tmp rc good size

  -- What was read back has the signature that was written.
  pub verify_sig-contact_back :
      (tmp : Mem) (junk : AddressInfo) (rc : RouterContact)
      → IsWritable inet rc
      → length (signed_text inet rc) < max_rc_size
      → signer.verify rc.pubkey (signed_text inet rc) rc.signature ≡ true
      → verify_sig inet signer tmp (contact_back junk rc) ≡ (true, contact_back junk rc)
  verify_sig-contact_back tmp junk rc good size accepted =
      let same : signed_text inet (contact_back junk rc) ≡ signed_text inet rc =
        contact_text-back inet junk (unsigned rc) in
      verify_sig_lem tmp (contact_back junk rc) (contact_back-IsWritable inet junk rc good)
        (subst (λ x. length x < max_rc_size) (sym same) size)
      ∙ ap (λ x. (signer.verify rc.pubkey x rc.signature, contact_back junk rc)) same
      ∙ ap (λ x. (x, contact_back junk rc)) accepted

  -- A contact that was signed and encoded into a valid buffer with room enough is decoded on the
  -- other side as a contact whose signature is found good and which the test leaves as it is, if
  -- the contact can be written and read, its text with no signature is shorter than the stack
  -- buffer, and signatures of the secret key have 64 bytes and are accepted under the contact's
  -- key.
  pub verify_sig-received :
      (seckey : List ℕ) (rc : RouterContact) (junk : AddressInfo) (tmp tmp' : Mem) (b : Buffer)
      → ((m : List ℕ) → signer.verify rc.pubkey m (signer.sign seckey m) ≡ true)
      → ((m : List ℕ) → length (signer.sign seckey m) ≡ 64)
      → IsContact inet rc
      → length (signed_text inet rc) < max_rc_size
      → IsValid b
      → let signed = sign_contact inet signer tmp seckey rc in
        b.cur + length (contact_text inet signed) < b.base + b.sz
        → let r = encode_contact inet signed b in
          (r.0 ≡ ok tt)
          × (rc' : RouterContact) × (decode_contact inet junk blank_contact
                (record (r.1) { cur = b.cur })
              ≡ (ok rc', r.1))
          × (verify_sig inet signer tmp' rc' ≡ (true, rc'))
  verify_sig-received seckey rc junk tmp tmp' b accepts sized good size v =
      rw (sign_contact_lem tmp seckey rc good.writable size) λ room.
        let signed = record rc { signature = signer.sign seckey (signed_text inet rc) } in
        let (done, decoded) =
          decode_contact-encode_contact inet junk signed b
            (record {
              writable = record {
                addresses = good.writable.addresses;
                exit_list = good.writable.exit_list;
              };
              key_size = good.key_size;
              enckey_size = good.enckey_size;
              signature_size = sized (signed_text inet rc);
              updated_fits = good.updated_fits;
            })
            v room in
        let checked =
          verify_sig-contact_back tmp' junk signed
            (record { addresses = good.writable.addresses; exit_list = good.writable.exit_list })
            size (accepts (signed_text inet rc)) in
        (done, contact_back junk signed, decoded, checked)
