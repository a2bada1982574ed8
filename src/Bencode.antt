-- ===== src/Bencode.antt =====
-- include/udap/bencode.h and udap/bencode.c, and the helpers of include/udap/bencode.hpp.
pub mod Wire
pub mod RoundTrip
pub mod Loops
pub mod Progress
pub mod Dict
pub mod Fields
pub mod Items
use uplexa_network.Prelude.{
  ℕ, zero, suc, ◌+◌, ◌-◌, ◌^◌, Bool, true, false, ◌&&◌, not, List, [], ◌∷◌, ◌++◌, ltb, leb, ◌==◌,
  if◌then◌else◌, length, Option, none, some,
}
use uplexa_network.Text.{print_long, print_int, atol, atoi}
use uplexa_network.Buffer.{
  Buffer, Io, ok, failed, stuck, ◌>>◌, return, size_left, write, writef, read_until, peek, advance,
  eq, ◌>>=◌,
}

-- UDAP_PROTO_VERSION of include/udap/proto.h.
abbrev pub proto_version : ℕ
proto_version = 0

unfoldable pub write_bytestring : List ℕ → Io (Unit {0})
write_bytestring bytes = do writef (print_long (length bytes) ++ (b':' ∷ [])); write bytes

-- The argument is the 32-bit pattern of the int.
unfoldable pub write_int : ℕ → Io (Unit {0})
write_int i = writef (b'i' ∷ (print_int i ++ (b'e' ∷ [])))

unfoldable pub write_uint16 : ℕ → Io (Unit {0})
write_uint16 i = writef (b'i' ∷ (print_int i ++ (b'e' ∷ [])))

unfoldable write_int64 : ℕ → Io (Unit {0})
write_int64 i = writef (b'i' ∷ (print_long i ++ (b'e' ∷ [])))

unfoldable pub write_uint64 : ℕ → Io (Unit {0})
write_uint64 i = writef (b'i' ∷ (print_long i ++ (b'e' ∷ [])))

unfoldable write_sizeint : ℕ → Io (Unit {0})
write_sizeint i = writef (b'i' ∷ (print_long i ++ (b'e' ∷ [])))

unfoldable pub start_list : Io (Unit {0})
start_list = write (b'l' ∷ [])

unfoldable pub start_dict : Io (Unit {0})
start_dict = write (b'd' ∷ [])

unfoldable pub end : Io (Unit {0})
end = write (b'e' ∷ [])

unfoldable pub write_version_entry : Io (Unit {0})
write_version_entry = writef (b'1' ∷ b':' ∷ b'v' ∷ b'i' ∷ (print_int proto_version ++ (b'e' ∷ [])))

-- `numbuf` has room for 31 characters and a NUL. -1 as a uint64_t is 2 ^ 64 - 1.
unfoldable pub integer_of : List ℕ → Io ℕ
integer_of [] b = (failed, b)
integer_of (c ∷ cs) b =
    let result = atol (c ∷ cs) in
    if result == 2 ^ 64 - 1 then (failed, advance 1 b) else (ok result, advance 1 b)

unfoldable pub read_integer : Io ℕ
read_integer b =
    if peek b == b'i'
    then (let r = read_until b'e' 31 (advance 1 b) in integer_of r.0 r.1)
    else (failed, b)

-- The string is a buffer over the same memory. A pattern from 2 ^ 31 on is a negative int.
unfoldable pub string_of : List ℕ → Io Buffer
string_of [] b = (failed, b)
string_of (c ∷ cs) b =
    let num = atoi (c ∷ cs) in
    let b' = advance 1 b in
    if leb (2 ^ 31) num
    then (failed, b)
    else if ltb (size_left b') num
    then (failed, b')
    else (ok (record b { base = b'.cur; cur = b'.cur; sz = num }), advance num b')

unfoldable pub read_string : Io Buffer
read_string b = let r = read_until b':' 9 b in string_of r.0 r.1

-- The test of the reading loops.
unfoldable pub more : Buffer → Bool
more b = not (size_left b == 0) && not (peek b == b'e')

-- After the loop: make sure that the container ends here, and step over its end.
unfoldable pub close_container : Io (Unit {0})
close_container b = if peek b == b'e' then (ok tt, advance 1 b) else (failed, b)

module _ {ℓ} {U : Type ℓ} where
  -- `bencode_read_dict`: the user's state goes through `on_key`, which gets the key, or nothing at
  -- the end. Each round takes the length of a key at least, so a round for each byte left, and one
  -- for the end, are enough.
  unfoldable pub dict_loop : ℕ → (Option Buffer → U → Io U) → U → Io U
  dict_loop zero on_key u b = (stuck, b)
  dict_loop (suc fuel) on_key u b = elim (more b) [
    | true ↦ (do key ← read_string; u' ← on_key (some key) u; dict_loop fuel on_key u') b
    | false ↦ (ok u, b)
  ]

  unfoldable pub read_dict : (Option Buffer → U → Io U) → U → Io U
  read_dict on_key u b =
      if peek b == b'd'
      then (do
        u' ← dict_loop (suc (size_left (advance 1 b))) on_key u
        close_container
        on_key none u')
          (advance 1 b)
      else (failed, b)

  -- `bencode_read_list`, whose `on_item` reads an item (`true`) or learns that the list is over.
  unfoldable pub list_loop : ℕ → (Bool → U → Io U) → U → Io U
  list_loop zero on_item u b = (stuck, b)
  list_loop (suc fuel) on_item u b = elim (more b) [
    | true ↦ (do u' ← on_item true u; list_loop fuel on_item u') b
    | false ↦ (ok u, b)
  ]

  unfoldable pub read_list : (Bool → U → Io U) → U → Io U
  read_list on_item u b =
      if peek b == b'l'
      then (do
        u' ← list_loop (suc (size_left (advance 1 b))) on_item u
        close_container
        on_item false u')
          (advance 1 b)
      else (failed, b)

-- BEncodeWriteDictMsgType and BEncodeWriteDictInt, for one-letter names.
unfoldable pub write_dict_msg_type : ℕ → ℕ → Io (Unit {0})
write_dict_msg_type k t = do write_bytestring (k ∷ []); write_bytestring (t ∷ [])

unfoldable pub write_dict_int : ℕ → ℕ → Io (Unit {0})
write_dict_int k i = do write_bytestring (k ∷ []); write_uint64 i

-- BEncodeWriteList: the items' own encoders in order.
unfoldable pub write_items : List (Io (Unit {0})) → Io (Unit {0})
write_items [] = return tt
write_items (f ∷ fs) = f >> write_items fs

unfoldable pub write_list : List (Io (Unit {0})) → Io (Unit {0})
write_list items = do start_list; write_items items; end

unfoldable pub write_dict_list : ℕ → List (Io (Unit {0})) → Io (Unit {0})
write_dict_list k items = do write_bytestring (k ∷ []); write_list items

-- BEncodeMaybeReadVersion: the new item and whether it is the version that is expected, or `none`
-- where the key is another.
unfoldable pub maybe_read_version : List ℕ → ℕ → Buffer → Io (Option (ℕ × Bool))
maybe_read_version k expect key b =
    if eq key k
    then (do item ← read_integer; return (some (item, item == expect))) b
    else (ok none, b)

-- BEncodeWriteDictString and BEncodeWriteDictEntry, with the item's own encoder.
unfoldable pub write_dict_string : ℕ → List ℕ → Io (Unit {0})
write_dict_string k str = do write_bytestring (k ∷ []); write_bytestring str

unfoldable pub write_dict_entry : ℕ → Io (Unit {0}) → Io (Unit {0})
write_dict_entry k encode = do write_bytestring (k ∷ []); encode

-- BEncodeMaybeReadDictEntry, with the item's own decoder, and BEncodeMaybeReadDictInt: the new item
-- where the key is this one.
unfoldable pub maybe_read_dict_entry {ℓ} : {A : Type ℓ} → List ℕ → Io A → Buffer → Io (Option A)
maybe_read_dict_entry k decode key b =
    if eq key k then (do item ← decode; return (some item)) b else (ok none, b)

unfoldable pub maybe_read_dict_int : List ℕ → Buffer → Io (Option ℕ)
maybe_read_dict_int k key b =
    if eq key k then (do i ← read_integer; return (some i)) b else (ok none, b)
