-- ===== src/NodeDb.antt =====
-- udap/nodedb.cpp: the router contacts that are known, and their files. The file system is a parameter:
-- what each path holds, and whether it can be written.
pub mod Files
pub mod Hops
use uplexa_network.Prelude.{
  ℕ, ◌+◌, ◌%◌, Bool, true, false, List, [], ◌∷◌, ◌++◌, Option, none, some, if◌then◌else◌, ltb,
  length, drop, get_elem?, ◌-◌,
}
use uplexa_network.Buffer.Memory.{Mem, store_all}
use uplexa_network.Buffer.{Buffer, Result, ok, failed, stuck}
use uplexa_network.Dht.Key.{Key, eq}
use uplexa_network.Table.{find, insert}
use uplexa_network.Hex.{hex_encode}
use uplexa_network.Contact.{Inet}
use uplexa_network.Contact.Address.{AddressInfo}
use uplexa_network.Contact.Router.{
  RouterContact, Signer, blank_contact, max_rc_size, stack_buffer, if_encoded, encode_contact,
  decode_contact, verify_sig,
}

pub record Disk : Type 0 where
  pub files : List ℕ → Option (List ℕ)
  pub writable : List ℕ → Bool

pub record NodeDb : Type 0 where
  pub entries : List (Key × RouterContact)
  pub node_path : List ℕ

-- A file that is opened and written: what it held is gone.
unfoldable pub write_file : List ℕ → List ℕ → Disk → Bool × Disk
write_file path bytes disk =
    if disk.writable path
    then (true, record disk { files = λ p. if eq p path then some bytes else disk.files p })
    else (false, disk)

-- getRCFilePath: the last digit names the folder.
unfoldable pub rc_path : List ℕ → Key → List ℕ
rc_path dir pubkey =
    let hex = hex_encode pubkey in
    dir
    ++ (b'/'
        ∷ (drop (length hex - 1) hex
            ++ (b'/' ∷ (hex ++ (b'.' ∷ b's' ∷ b'i' ∷ b'g' ∷ b'n' ∷ b'e' ∷ b'd' ∷ [])))))

-- Has and getRC together, as udap_nodedb_get_rc calls them.
unfoldable pub get_rc : Key → NodeDb → Option RouterContact
get_rc pk db = find pk db.entries

-- getRC, which is `&entries[pk]`: it makes an entry of zeros where there is none.
unfoldable pub entry_of : Key → NodeDb → RouterContact × NodeDb
entry_of pk db = elim (find pk db.entries) [
  | some rc ↦ (rc, db)
  | none ↦ (blank_contact, record db { entries = insert pk blank_contact db.entries })
]

unfoldable pub num_loaded : NodeDb → ℕ
num_loaded db = length db.entries

abbrev pub decoded : Result RouterContact × Buffer → Option RouterContact
decoded (ok rc, b) = some rc
decoded (failed, b) = none
decoded (stuck, b) = none

module _ (inet : Inet) (signer : Signer) where
  -- setRC: the entry is set whether or not the file can be written.
  unfoldable pub set_rc : Mem → RouterContact → Disk → NodeDb → Bool × Disk × NodeDb
  set_rc tmp rc disk db =
      let r =
        if_encoded (λ bytes. write_file (rc_path db.node_path rc.pubkey) bytes disk) (false, disk)
          (encode_contact inet rc (stack_buffer tmp)) in
      (r.0, r.1, record db { entries = insert rc.pubkey rc db.entries })

  -- udap_rc_read: behind the file's bytes the array holds what it held.
  unfoldable pub contact_of_file : AddressInfo → Mem → Option (List ℕ) → Option RouterContact
  contact_of_file junk tmp none = none
  contact_of_file junk tmp (some bytes) =
      if ltb max_rc_size (length bytes)
      then none
      else decoded (decode_contact inet junk blank_contact (stack_buffer (store_all tmp 0 bytes)))

  unfoldable pub read_rc : AddressInfo → Mem → List ℕ → Disk → Option RouterContact
  read_rc junk tmp path disk = contact_of_file junk tmp (disk.files path)

  -- loadfile.
  unfoldable pub add_verified : Bool × RouterContact → NodeDb → Bool × NodeDb
  add_verified (true, rc) db = (true, record db { entries = insert rc.pubkey rc db.entries })
  add_verified (false, rc) db = (false, db)

  unfoldable pub add_loaded : Mem → Option RouterContact → NodeDb → Bool × NodeDb
  add_loaded tmp none db = (false, db)
  add_loaded tmp (some rc) db = add_verified (verify_sig inet signer tmp rc) db

  unfoldable pub load_file : AddressInfo → Mem → Mem → List ℕ → Disk → NodeDb → Bool × NodeDb
  load_file junk tmp tmp' path disk db = add_loaded tmp' (read_rc junk tmp path disk) db

  -- loadSubdir, with the regular files that the iterator lists.
  unfoldable pub load_files : AddressInfo → Mem → Mem → List (List ℕ) → Disk → NodeDb → ℕ × NodeDb
  load_files junk tmp tmp' [] disk db = (0, db)
  load_files junk tmp tmp' (path ∷ paths) disk db =
      let r = load_file junk tmp tmp' path disk db in
      let rest = load_files junk tmp tmp' paths disk r.1 in
      if r.0 then (rest.0 + 1, rest.1) else rest

  -- crypto_threadworker_verifyrc and, where the signature is good, disk_threadworker_setRC: what
  -- the hook gets as `valid`.
  unfoldable pub async_verify : Mem → Mem → RouterContact → Disk → NodeDb → Bool × Disk × NodeDb
  async_verify tmp tmp' rc disk db =
      let v = verify_sig inet signer tmp rc in
      if v.0 then set_rc tmp' v.1 disk db else (false, disk, db)

  -- nodedb_async_load_rc: what the hook gets, `none` where nothing was loaded.
  unfoldable pub async_load :
      AddressInfo → Mem → Mem → Key → Disk → NodeDb → Option RouterContact × NodeDb
  async_load junk tmp tmp' pk disk db =
      let r = load_file junk tmp tmp' (rc_path db.node_path pk) disk db in
      if r.0 then (let e = entry_of pk r.1 in (some e.0, e.1)) else (none, r.1)

-- udap_nodedb_select_random_hop, with the numbers that `rand` gives: each round of the loop takes
-- one, and does not look at it where there is one entry. `none` is no result: the numbers are used up
-- and the loop runs on, or there is no entry at all and what it reads is undefined.
unfoldable pub pick : ℕ → List (Key × RouterContact) → Option (Key × RouterContact)
pick r l = get_elem? l (if ltb 1 (length l) then r % length l else 0)

unfoldable pub unless_prev :
    Key → Option (Key × RouterContact) → Option RouterContact → Option RouterContact
unless_prev prev none rest = none
unless_prev prev (some e) rest = if eq prev e.1.pubkey then rest else some e.1

unfoldable pub select_other : Key → List ℕ → List (Key × RouterContact) → Option RouterContact
select_other prev [] l = none
select_other prev (r ∷ rs) l = unless_prev prev (pick r l) (select_other prev rs l)
