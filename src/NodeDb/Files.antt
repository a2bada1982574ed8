-- ===== src/NodeDb/Files.antt =====
-- What is stored is loaded again, and nothing is loaded but contacts with good signatures.
use uplexa_network.Prelude.{
  ℕ, ◌<◌, ◌≡◌, refl, ap, ◌∙◌, Bool, true, false, List, [], ◌∷◌, Option, none, some, if◌then◌else◌,
  ltb, length, arith, All, Bool-cases, inl, inr,
}
use uplexa_network.Buffer.Memory.{Mem, store_all, store_all-Holds}
use uplexa_network.Dht.Key.{Key, eq}
use uplexa_network.Table.{find, insert, find-insert, eq_refl}
use uplexa_network.Contact.{Inet}
use uplexa_network.Contact.Address.{AddressInfo}
use uplexa_network.Contact.Router.{
  RouterContact, Signer, max_rc_size, stack_buffer, if_encoded, verify_sig,
}
use uplexa_network.Contact.Router.Trip.{IsContact, contact_text, contact_back, decode_contact-Reads}
use uplexa_network.Contact.Router.Signed.{encode_stack, signed_text, verify_sig-contact_back}
use uplexa_network.NodeDb.{
  Disk, NodeDb, write_file, rc_path, get_rc, decoded, set_rc, contact_of_file, read_rc, add_loaded,
  add_verified, load_file, load_files,
}

short_file :
    (limit n : ℕ) (o : Option RouterContact) → n < limit → (if ltb limit n then none else o) ≡ o
short_file limit n o h = ground arith

module _ (inet : Inet) (signer : Signer) where
  -- The file of a contact.
  read_rc_lem :
      (junk : AddressInfo) (tmp : Mem) (path : List ℕ) (disk : Disk) (rc : RouterContact)
      → IsContact inet rc
      → length (contact_text inet rc) < max_rc_size
      → disk.files path ≡ some (contact_text inet rc)
      → read_rc inet signer junk tmp path disk ≡ some (contact_back junk rc)
  unfolding read_rc contact_of_file
  read_rc_lem junk tmp path disk rc good size e =
      let text = contact_text inet rc in
      let back =
        decode_contact-Reads inet junk rc good (stack_buffer (store_all tmp 0 text))
          (record { ordered = omega arith; inside = omega arith }) (store_all-Holds text tmp 0)
          (omega arith) in
      ap (contact_of_file inet signer junk tmp) e
      ∙ short_file max_rc_size (length text) _ (omega arith)
      ∙ ap decoded back

  set_rc_lem :
      (tmp : Mem) (rc : RouterContact) (disk : Disk) (db : NodeDb)
      → IsContact inet rc
      → length (contact_text inet rc) < max_rc_size
      → set_rc inet signer tmp rc disk db ≡ (
          let w = write_file (rc_path db.node_path rc.pubkey) (contact_text inet rc) disk in
          (w.0, w.1, record db { entries = insert rc.pubkey rc db.entries }))
  unfolding set_rc if_encoded
  set_rc_lem tmp rc disk db good size =
      let (c, e, bytes) = encode_stack inet tmp rc good.writable size in
      let path = rc_path db.node_path rc.pubkey in
      ap (λ (r : Bool × Disk). (r.0, r.1, record db { entries = insert rc.pubkey rc db.entries }))
        (ap (if_encoded (λ x. write_file path x disk) (false, disk)) e
          ∙ ap (λ x. write_file path x disk) bytes)

  load_file_lem :
      (junk : AddressInfo) (tmp tmp' : Mem) (path : List ℕ) (disk : Disk) (db : NodeDb)
      (rc : RouterContact)
      → IsContact inet rc
      → length (contact_text inet rc) < max_rc_size
      → length (signed_text inet rc) < max_rc_size
      → signer.verify rc.pubkey (signed_text inet rc) rc.signature ≡ true
      → disk.files path ≡ some (contact_text inet rc)
      → load_file inet signer junk tmp tmp' path disk db
        ≡ (true, record db { entries = insert rc.pubkey (contact_back junk rc) db.entries })
  unfolding load_file add_loaded add_verified
  load_file_lem junk tmp tmp' path disk db rc good size signed_size accepted there =
      ap (λ o. add_loaded inet signer tmp' o db) (read_rc_lem junk tmp path disk rc good size there)
      ∙ ap (λ v. add_verified inet signer v db)
          (verify_sig-contact_back inet signer tmp' junk rc good.writable signed_size accepted)

  -- A contact that setRC stores in a file that can be written is loaded by another database, which
  -- then has the contact, as it reads back, under its key and what it had under every other one,
  -- if the contact can be written and read, its texts with and without signature are shorter than
  -- the stack buffer, and the signature is accepted.
  pub load_file-set_rc :
      (junk : AddressInfo) (tmp tmp' tmp'' : Mem) (rc : RouterContact) (disk : Disk)
      (db db' : NodeDb)
      → IsContact inet rc
      → length (contact_text inet rc) < max_rc_size
      → length (signed_text inet rc) < max_rc_size
      → signer.verify rc.pubkey (signed_text inet rc) rc.signature ≡ true
      → disk.writable (rc_path db.node_path rc.pubkey) ≡ true
      → let s = set_rc inet signer tmp rc disk db in
        let path = rc_path db.node_path rc.pubkey in
        let r = load_file inet signer junk tmp' tmp'' path s.1 db' in
        (s.0 ≡ true)
        × (r.0 ≡ true)
        × ((pk : Key)
            → get_rc pk r.1
              ≡ (if eq rc.pubkey pk then some (contact_back junk rc) else get_rc pk db'))
  unfolding write_file get_rc
  load_file-set_rc junk tmp tmp' tmp'' rc disk db db' good size signed_size accepted can =
      let path = rc_path db.node_path rc.pubkey in
      let text = contact_text inet rc in
      let written = record disk { files = λ p. if eq p path then some text else disk.files p } in
      let there : written.files path ≡ some text = rw (eq_refl path) in
      let loaded =
        load_file_lem junk tmp' tmp'' path written db' rc good size signed_size accepted there in
      rw (set_rc_lem tmp rc disk db good size) (
        rw can (
          refl,
          ap (λ (r : Bool × NodeDb). r.0) loaded,
          λ pk.
              ap (λ (r : Bool × NodeDb). find pk r.1.entries) loaded
              ∙ find-insert rc.pubkey pk (contact_back junk rc) db'.entries,
        ))

  -- What stands in the database stands under its own key, and its signature was found good.
  abbrev pub IsGood : Mem → Key × RouterContact → Type 0
  IsGood tmp e = (e.0 ≡ e.1.pubkey) × ((verify_sig inet signer tmp e.1).0 ≡ true)

  insert-IsGood :
      (tmp : Mem) (rc : RouterContact) (l : List (Key × RouterContact))
      → (verify_sig inet signer tmp rc).0 ≡ true
      → All (IsGood tmp) l
      → All (IsGood tmp) (insert rc.pubkey rc l)
  unfolding insert
  insert-IsGood tmp rc [] good all = ((refl, good), tt)
  insert-IsGood tmp rc ((j, w) ∷ l) good all = elim (Bool-cases (eq j rc.pubkey)) [
    | inl e ↦ rw e ((refl, good), all.1)
    | inr e ↦ rw e (all.0, insert-IsGood tmp rc l good all.1)
  ]

  add_verified-IsGood :
      (tmp : Mem) (rc : RouterContact) (b : Bool) (db : NodeDb)
      → (verify_sig inet signer tmp rc).0 ≡ b
      → All (IsGood tmp) db.entries
      → All (IsGood tmp) (add_verified inet signer (b, rc) db).1.entries
  unfolding add_verified
  add_verified-IsGood tmp rc true db good all = insert-IsGood tmp rc db.entries good all
  add_verified-IsGood tmp rc false db good all = all

  add_loaded-IsGood :
      (tmp : Mem) (o : Option RouterContact) (db : NodeDb)
      → All (IsGood tmp) db.entries
      → All (IsGood tmp) (add_loaded inet signer tmp o db).1.entries
  unfolding add_loaded verify_sig
  add_loaded-IsGood tmp none db all = all
  add_loaded-IsGood tmp (some rc) db all = add_verified-IsGood tmp rc _ db refl all

  -- Whatever stands in the files of a folder, loading it leaves a database in which every contact
  -- stands under its own key and has a signature that is found good, if that was so before.
  pub load_files-IsGood :
      (junk : AddressInfo) (tmp tmp' : Mem) (paths : List (List ℕ)) (disk : Disk) (db : NodeDb)
      → All (IsGood tmp') db.entries
      → All (IsGood tmp') (load_files inet signer junk tmp tmp' paths disk db).1.entries
  unfolding load_files load_file
  load_files-IsGood junk tmp tmp' [] disk db all = all
  load_files-IsGood junk tmp tmp' (path ∷ paths) disk db all =
      let r = load_file inet signer junk tmp tmp' path disk db in
      let here = add_loaded-IsGood tmp' (read_rc inet signer junk tmp path disk) db all in
      let rest = load_files-IsGood junk tmp tmp' paths disk r.1 here in
      elim (Bool-cases (r.0)) [ inl e ↦ rw e rest | inr e ↦ rw e rest ]
