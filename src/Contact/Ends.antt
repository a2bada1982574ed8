-- ===== src/Contact/Ends.antt =====
-- Decoding a router contact ends on every input, and so does decoding lookups with contacts in them.
use uplexa_network.Prelude.{
  ℕ, ◌≤◌, Bool, true, false, List, [], ◌∷◌, Option, none, some, if◌then◌else◌, arith, ltb, leb,
  ◌==◌, ◌||◌,
}
use uplexa_network.Buffer.{Buffer, Io, Result, ok, failed, stuck, and_then, return, eq}
use uplexa_network.Bencode.{proto_version}
use uplexa_network.Bencode.Fields.{decode_aligned}
use uplexa_network.Bencode.Progress.{
  Moves-refl, Forward, and_then-Forward, KeyForward, ItemForward, read_string-Forward,
  read_integer-Forward, read_dict-Forward, read_list-Forward,
}
use uplexa_network.Dht.Key.{Key}
use uplexa_network.Dht.Codec.{RcCodec, decode_message_list}
use uplexa_network.Dht.Codec.Ends.{then_return, decode_message_list-Forward}
use uplexa_network.Contact.{Inet, read_ip}
use uplexa_network.Contact.Address.{
  AddressInfo, read_uint16, read_dialect, read_version, decode_address_key, decode_address,
  read_address, decode_addresses,
}
use uplexa_network.Contact.Exit.{blank_exit, decode_exit_key, decode_exit, read_exit, decode_exits}
use uplexa_network.Contact.Router.{
  RouterContact, blank_contact, encode_contact, decode_contact_key, decode_contact,
}

-- A result that does not go back.
record Ahead {A : Type 0} (b : Buffer) (r : Result A × Buffer) : Type 0 where
  ahead : Forward 0 b r

-- Whichever branch is taken goes forward.
branches :
    {A : Type 0} {b : Buffer} {x y : Result A × Buffer} (c : Bool)
    → Ahead b x
    → Ahead b y
    → Ahead b (if c then x else y)
branches true p q = p
branches false p q = q

refused : {A : Type 0} {b c : Buffer} → Ahead {A = A} b (failed, c)
refused = record { ahead = tt }

taken : {A : Type 0} {a : A} {b : Buffer} → Ahead b (ok a, b)
taken = record { ahead = Moves-refl _ }

stored :
    {A B : Type 0} {b : Buffer} (r : Result A × Buffer) (f : A → B) (k : ℕ)
    → Forward k b r
    → Ahead b (and_then r (λ a. return (f a)))
stored r f k p = record { ahead = then_return 0 k _ _ _ (omega arith) p }

-- A string or a number that is read, and then looked at.
looked_at :
    {A B : Type 0} (b : Buffer) (r : Result A × Buffer) (f : A → Io B)
    → Forward 1 b r
    → ((a : A) (c : Buffer) → Ahead c (f a c))
    → Forward 0 b (and_then r f)
looked_at b r f p q = and_then-Forward 1 0 0 _ _ _ (omega arith) p (λ a c _. (q a c).ahead)

weaker :
    {A : Type 0} (m n : ℕ) (b : Buffer) (r : Result A × Buffer)
    → n ≤ m
    → Forward m b r
    → Forward n b r
weaker m n b (ok a, c) h p = record {
  mem_same = p.mem_same;
  base_same = p.base_same;
  sz_same = p.sz_same;
  forward = omega (arith, h, p.forward);
}
weaker m n b (failed, c) h p = tt
weaker m n b (stuck, c) h p = elim p [ ]

read_uint16-Forward : (b : Buffer) → Forward 0 b (read_uint16 b)
unfolding read_uint16
read_uint16-Forward b =
    looked_at b _ _ (read_integer-Forward b) (λ i c. branches (ltb 65536 i || i == 0) refused taken)

read_version-Forward : (b : Buffer) → Forward 0 b (read_version b)
unfolding read_version
read_version-Forward b =
    looked_at b _ _ (read_integer-Forward b) (λ v c. branches (v == proto_version) taken refused)

read_dialect-Forward : (old : List ℕ) (b : Buffer) → Forward 0 b (read_dialect old b)
unfolding read_dialect
read_dialect-Forward old b =
    looked_at b _ _ (read_string-Forward b) (λ s c. branches (leb 6 s.sz) refused taken)

decode_aligned-Forward : (n : ℕ) (b : Buffer) → Forward 0 b (decode_aligned n b)
unfolding decode_aligned
decode_aligned-Forward n b =
    looked_at b _ _ (read_string-Forward b) (λ s c. branches (s.sz == n) taken refused)

module _ (inet : Inet) where
  parsed-Ahead :
      (o : Option (List ℕ)) (b : Buffer)
      → Ahead {A = List ℕ} b (elim o [ none ↦ (failed, b) | some ip ↦ (ok ip, b) ])
  parsed-Ahead none b = refused
  parsed-Ahead (some ip) b = taken

  read_ip-Forward : (b : Buffer) → Forward 0 b (read_ip inet b)
  unfolding read_ip
  read_ip-Forward b =
      looked_at b _ _ (read_string-Forward b)
        (λ s c. branches (leb 128 s.sz) refused (parsed-Ahead _ c))

  decode_address_key-KeyForward : KeyForward (decode_address_key inet)
  unfolding decode_address_key
  decode_address_key-KeyForward none ai b h = Moves-refl b
  decode_address_key-KeyForward (some key) ai b h =
      let number = read_uint16-Forward b in
      let read : Ahead b (decode_address_key inet (some key) ai b) =
        branches (eq key (b'c' ∷ [])) (stored _ _ 0 number) (
          branches (eq key (b'd' ∷ [])) (stored _ _ 0 (read_dialect-Forward ai.dialect b)) (
            branches (eq key (b'e' ∷ [])) (stored _ _ 0 (decode_aligned-Forward 32 b)) (
              branches (eq key (b'i' ∷ [])) (stored _ _ 0 (read_ip-Forward b)) (
                branches (eq key (b'p' ∷ [])) (stored _ _ 0 number) (
                  branches (eq key (b'v' ∷ [])) (stored _ _ 0 (read_version-Forward b))
                    refused))))) in
      read.ahead

  decode_exit_key-KeyForward : KeyForward (decode_exit_key inet)
  unfolding decode_exit_key
  decode_exit_key-KeyForward none xi b h = Moves-refl b
  decode_exit_key-KeyForward (some key) xi b h =
      let ip = read_ip-Forward b in
      let read : Ahead b (decode_exit_key inet (some key) xi b) =
        branches (eq key (b'a' ∷ [])) (stored _ _ 0 ip) (
          branches (eq key (b'b' ∷ [])) (stored _ _ 0 ip) (
            branches (eq key (b'k' ∷ [])) (stored _ _ 0 (decode_aligned-Forward 32 b))
              (branches (eq key (b'v' ∷ [])) (stored _ _ 0 (read_version-Forward b)) refused))) in
      read.ahead

  read_address-ItemForward : (junk : AddressInfo) → ItemForward (read_address inet junk)
  unfolding read_address decode_address
  read_address-ItemForward junk l b h = (
    then_return 1 2 b _ _ (omega arith)
        (read_dict-Forward (decode_address_key inet) junk b decode_address_key-KeyForward h),
    Moves-refl b,
  )

  read_exit-ItemForward : ItemForward (read_exit inet)
  unfolding read_exit decode_exit
  read_exit-ItemForward l b h = (
    then_return 1 2 b _ _ (omega arith)
        (read_dict-Forward (decode_exit_key inet) blank_exit b decode_exit_key-KeyForward h),
    Moves-refl b,
  )

  decode_contact_key-KeyForward : (junk : AddressInfo) → KeyForward (decode_contact_key inet junk)
  unfolding decode_contact_key decode_addresses decode_exits
  decode_contact_key-KeyForward junk none rc b h = Moves-refl b
  decode_contact_key-KeyForward junk (some key) rc b h =
      let aligned = decode_aligned-Forward 32 b in
      let addresses =
        read_list-Forward (read_address inet junk) [] b (read_address-ItemForward junk) h in
      let exits = read_list-Forward (read_exit inet) [] b read_exit-ItemForward h in
      let read : Ahead b (decode_contact_key inet junk (some key) rc b) =
        branches (eq key (b'a' ∷ [])) (stored _ _ 2 addresses) (
          branches (eq key (b'k' ∷ [])) (stored _ _ 0 aligned) (
            branches (eq key (b'p' ∷ [])) (stored _ _ 0 aligned) (
              branches (eq key (b'u' ∷ [])) (stored _ _ 1 (read_integer-Forward b)) (
                branches (eq key (b'v' ∷ [])) (stored _ _ 0 (read_version-Forward b)) (
                  branches (eq key (b'x' ∷ [])) (stored _ _ 2 exits) (
                    branches (eq key (b'z' ∷ [])) (stored _ _ 0 (decode_aligned-Forward 64 b))
                      refused)))))) in
      read.ahead

  -- The codec that the DHT's messages use.
  abbrev pub contact_codec : AddressInfo → RcCodec RouterContact
  contact_codec junk = record {
    encode = encode_contact inet;
    decode = decode_contact inet junk blank_contact;
  }

  decode_contact-Forward :
      (junk : AddressInfo) (b : Buffer)
      → b.base ≤ b.cur
      → Forward 2 b (decode_contact inet junk blank_contact b)
  unfolding decode_contact
  decode_contact-Forward junk b h =
      read_dict-Forward (decode_contact_key inet junk) blank_contact b
        (decode_contact_key-KeyForward junk) h

  -- DecodeMesssageList, with the codec of router contacts, ends on every input whose cursor is not
  -- before the base, and where it succeeds it has moved forward by two bytes at least in the same
  -- region.
  pub decode_message_list-contact_codec :
      (address : AddressInfo) (junk from : Key) (b : Buffer)
      → b.base ≤ b.cur
      → Forward 2 b (decode_message_list (contact_codec address) junk from b)
  decode_message_list-contact_codec address junk from b h =
      decode_message_list-Forward (contact_codec address)
        (λ c p. weaker 2 1 c _ (omega arith) (decode_contact-Forward address c p)) junk from b h
