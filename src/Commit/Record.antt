-- ===== src/Commit/Record.antt =====
-- LR_CommitRecord, what a frame holds for its hop, and PoW. The hash function and the whole part of
-- a number's logarithm are parameters.
pub mod Trip
use uplexa_network.Prelude.{
  ℕ, ◌+◌, ◌-◌, Bool, true, false, ◌&&◌, not, List, [], ◌∷◌, Option, none, some, if◌then◌else◌, ◌==◌,
  take,
}
use uplexa_network.Buffer.{
  Buffer, Io, Result, ok, failed, stuck, ◌>>=◌, ◌>>◌, and_then, return, fail, eq, load_all,
}
use uplexa_network.Bencode.{
  proto_version, start_dict, end, write_bytestring, write_version_entry, write_dict_entry,
  maybe_read_dict_entry, maybe_read_version, read_dict,
}
use uplexa_network.Bencode.Fields.{decode_aligned}
use uplexa_network.Dht.Key
use uplexa_network.Dht.Key.{Key}
use uplexa_network.Relay.Codec.{replaced, is_read, version_read}

pub record Pow : Type 0 where
  pub router : Key
  pub version : ℕ
  pub extended_lifetime : ℕ
  pub nonce : Key

-- PoW::BEncode and PoW::BDecode.
abbrev pub encode_pow : Pow → Io (Unit {0})
encode_pow w b = (failed, b)

abbrev pub decode_pow : Io Pow
decode_pow b = (failed, b)

abbrev pub all_zero : List ℕ → Bool
all_zero [] = true
all_zero (x ∷ xs) = let rest = all_zero xs in if x == 0 then rest else false

-- PoW::IsValid, with the 128 bytes of the buffer on the stack.
unfoldable pub pow_valid : (List ℕ → Option Key) → (ℕ → ℕ) → Buffer → Key → Pow → Bool
pow_valid shorthash log tmp us w =
    if not (Key.eq w.router us)
    then false
    else let r = encode_pow w tmp in
      elim r.0 [
        | failed ↦ false
        | stuck ↦ false
        | ok _ ↦
            let b = r.1 in
            elim (shorthash (load_all b.mem b.base (b.cur - b.base))) [
              | none ↦ false
              | some digest ↦ all_zero (take (log w.extended_lifetime) digest)
            ]
      ]

pub record CommitRecord : Type 0 where
  pub commkey : Key
  pub next_hop : Key
  pub nonce : Key
  pub txid : Key
  pub rxid : Key
  pub work : Option Pow
  pub version : ℕ

-- BEncode.
unfoldable pub encode_record : CommitRecord → Io (Unit {0})
encode_record m = do
  start_dict
  write_dict_entry b'c' (write_bytestring m.commkey)
  write_dict_entry b'i' (write_bytestring m.next_hop)
  write_dict_entry b'n' (write_bytestring m.nonce)
  write_dict_entry b'r' (write_bytestring m.rxid)
  write_dict_entry b't' (write_bytestring m.txid)
  write_version_entry
  elim m.work [ none ↦ return tt | some w ↦ write_dict_entry b'w' (encode_pow w) ]
  end

abbrev pub new_version : ℕ → Option (ℕ × Bool) → ℕ
new_version old none = old
new_version old (some (v, _)) = v

-- The end of OnKey: the work, which may stand there once.
unfoldable pub record_work : Buffer → Bool → CommitRecord → Io CommitRecord
record_work key read m =
    if eq key (b'w' ∷ [])
    then elim m.work [
      | some _ ↦ fail
      | none ↦ decode_pow >>= λ w. return (record m { work = some w })
    ]
    else if read
    then return m
    else fail

-- OnKey for a key.
unfoldable pub decode_record_key : Buffer → CommitRecord → Io CommitRecord
decode_record_key key m = do
  c ← maybe_read_dict_entry (b'c' ∷ []) (decode_aligned 32) key
  i ← maybe_read_dict_entry (b'i' ∷ []) (decode_aligned 32) key
  n ← maybe_read_dict_entry (b'n' ∷ []) (decode_aligned 32) key
  r ← maybe_read_dict_entry (b'r' ∷ []) (decode_aligned 16) key
  t ← maybe_read_dict_entry (b't' ∷ []) (decode_aligned 16) key
  v ← maybe_read_version (b'v' ∷ []) proto_version key
  record_work key (version_read (is_read (is_read (is_read (is_read (is_read false c) i) n) r) t) v)
      (record {
        commkey = replaced m.commkey c;
        next_hop = replaced m.next_hop i;
        nonce = replaced m.nonce n;
        rxid = replaced m.rxid r;
        txid = replaced m.txid t;
        work = m.work;
        version = new_version m.version v;
      })

unfoldable pub on_record_key : Option Buffer → CommitRecord → Io CommitRecord
on_record_key none m b = (ok m, b)
on_record_key (some key) m b = decode_record_key key m b

-- BDecode.
unfoldable pub decode_record : CommitRecord → Io CommitRecord
decode_record m b = read_dict on_record_key m b

-- operator==.
abbrev same_pow : Pow → Pow → Bool
same_pow a b =
    Key.eq a.router b.router
    && a.version == b.version
    && a.extended_lifetime == b.extended_lifetime
    && Key.eq a.nonce b.nonce

unfoldable pub same_record : CommitRecord → CommitRecord → Bool
same_record a b =
    let fields =
      Key.eq a.next_hop b.next_hop
      && Key.eq a.commkey b.commkey
      && Key.eq a.txid b.txid
      && Key.eq a.rxid b.rxid in
    elim a.work [
      | none ↦ fields
      | some v ↦ elim b.work [ none ↦ fields | some w ↦ if same_pow v w then fields else false ]
    ]
