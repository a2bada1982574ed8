-- ===== src/Commit/Builder.antt =====
-- AsyncPathKeyExchangeContext of udap/pathbuilder.cpp: the keys and the frame of each hop of a path.
-- The keys and nonces that are drawn at random are arguments, and so are the routers' encryption keys.
use uplexa_network.Prelude.{ℕ, List, [], ◌∷◌, Option, none, some, length}
use uplexa_network.Buffer.{Buffer, Result, ok, failed, stuck, load_all}
use uplexa_network.Bencode.{proto_version}
use uplexa_network.Dht.Key.{Key}
use uplexa_network.Routing.{buffer_of}
use uplexa_network.Path.Own.{HopConfig}
use uplexa_network.Commit.Frame.{Crypto, encrypt_in_place, overhead}
use uplexa_network.Commit.Record.{CommitRecord, encode_record}

-- What is drawn for a hop: `comm` and `frame_key` by encryption_keygen, `nonce` and `seal_nonce` as
-- random bytes. `enc_key` is the router's.
pub record Draw : Type 0 where
  pub comm : Key
  pub nonce : Key
  pub frame_key : Key
  pub seal_nonce : Key
  pub enc_key : Key

-- The router behind the hop, which is the hop itself at the end of the path.
abbrev pub upstream_of : HopConfig → List HopConfig → Key
upstream_of h [] = h.router
upstream_of h (h' ∷ hs) = h'.router

abbrev pub record_of : Crypto → Draw → HopConfig → Key → CommitRecord
record_of crypto d h upstream = record {
  commkey = crypto.to_public d.comm;
  next_hop = upstream;
  nonce = d.nonce;
  txid = h.tx_id;
  rxid = h.rx_id;
  work = none;
  version = proto_version;
}

-- The record is written behind the overhead of the frame.
abbrev written_frame : ℕ → Result (Unit {0}) × Buffer → Option (List ℕ)
written_frame size (ok _, b) = some (load_all b.mem b.base size)
written_frame size (failed, b) = none
written_frame size (stuck, b) = none

unfoldable pub fill_frame : CommitRecord → List ℕ → Option (List ℕ)
fill_frame m frame =
    written_frame (length frame) (encode_record m (record (buffer_of frame) { cur = overhead }))

-- GenerateNextKey for a hop.
unfoldable pub generate_key : Crypto → Draw → HopConfig → Key → List ℕ → Option (HopConfig × List ℕ)
generate_key crypto d h upstream frame = elim (crypto.dh_client d.enc_key d.comm d.nonce) [
  | none ↦ none
  | some shared ↦ elim (fill_frame (record_of crypto d h upstream) frame) [
    | none ↦ none
    | some plain ↦ elim (encrypt_in_place crypto d.frame_key d.enc_key d.seal_nonce plain) [
      | none ↦ none
      | some sealed ↦
          some (record h { shared = shared; nonce = d.nonce; upstream = upstream }, sealed)
    ]
  ]
]

-- AsyncGenerateKeys: hop after hop, from frames of random bytes; the frames behind the last hop's
-- stay. More hops than frames read outside the vector.
unfoldable pub generate_keys :
    Crypto → List Draw → List HopConfig → List (List ℕ) → Option (List HopConfig × List (List ℕ))
generate_keys crypto ds [] frames = some ([], frames)
generate_keys crypto [] (h ∷ hs) frames = none
generate_keys crypto (d ∷ ds) (h ∷ hs) [] = none
generate_keys crypto (d ∷ ds) (h ∷ hs) (f ∷ fs) =
    let rest = generate_keys crypto ds hs fs in
    elim (generate_key crypto d h (upstream_of h hs) f) [
      | none ↦ none
      | some r ↦ elim rest [ none ↦ none | some rs ↦ some (r.0 ∷ rs.0, r.1 ∷ rs.1) ]
    ]
