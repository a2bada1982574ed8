-- ===== src/Iwp/Crypto.antt =====
-- udap/crypto_async.cpp: the packets of the session handshake, and encrypted frames. The primitives
-- of the crypto library are a parameter; their results are not looked at by this code, so they are
-- functions. A packet is the list of its bytes: a hash, a nonce, 32 bytes, and padding.
pub mod Packets
use uplexa_network.Prelude.{ℕ, Bool, List, ◌++◌, Option, none, some, if◌then◌else◌, take, drop}
use uplexa_network.Dht.Key.{Key, eq}

-- transport_dh_client and transport_dh_server take the other's public key, the own secret key and a
-- nonce; xchacha20 a text, a key and a nonce of 24 bytes.
pub record Transport : Type 0 where
  pub dh_client : Key → Key → Key → Key
  pub dh_server : Key → Key → Key → Key
  pub xchacha20 : List ℕ → Key → List ℕ → List ℕ
  pub hmac : List ℕ → Key → Key
  pub shorthash : List ℕ → Key
  pub to_public : Key → Key

abbrev pub packet_hash : List ℕ → Key
packet_hash p = take 32 p

abbrev pub packet_nonce : List ℕ → Key
packet_nonce p = take 32 (drop 32 p)

abbrev pub packet_x : List ℕ → List ℕ
packet_x p = take 32 (drop 64 p)

-- Both nonces of a call are its first 24 bytes.
abbrev pub short_nonce : Key → List ℕ
short_nonce n = take 24 n

-- What a hash goes before.
abbrev pub hashed : Transport → List ℕ → Key → List ℕ
hashed t body key = t.hmac body key ++ body

module _ (t : Transport) where
  -- gen_intro: the buffer holds the nonce and the padding.
  unfoldable pub gen_intro : Key → Key → List ℕ → List ℕ
  gen_intro secretkey remote buf =
      let n = packet_nonce buf in
      let sharedkey = t.dh_client remote secretkey n in
      let e_k = t.shorthash (remote ++ n) in
      let e = t.xchacha20 (t.to_public secretkey) e_k (short_nonce n) in
      hashed t (n ++ (e ++ drop 96 buf)) sharedkey

  -- verify_intro: whether the hash is right, and what was written to the remote's public key.
  unfoldable pub verify_intro : Key → List ℕ → Bool × Key
  verify_intro secretkey buf =
      let n = packet_nonce buf in
      let e_k = t.shorthash (t.to_public secretkey ++ n) in
      let remote = t.xchacha20 (packet_x buf) e_k (short_nonce n) in
      let sharedkey = t.dh_server remote secretkey n in
      (eq (t.hmac (drop 32 buf) sharedkey) (packet_hash buf), remote)

  -- gen_introack.
  unfoldable pub gen_introack : Key → Key → Key → List ℕ → List ℕ
  gen_introack secretkey remote token buf =
      let n = packet_nonce buf in
      let sharedkey = t.dh_server remote secretkey n in
      let x = t.xchacha20 token sharedkey (short_nonce n) in
      hashed t (n ++ (x ++ drop 96 buf)) sharedkey

  -- verify_introack: the token.
  unfoldable pub verify_introack : Key → Key → List ℕ → Option Key
  verify_introack secretkey remote buf =
      let n = packet_nonce buf in
      let sharedkey = t.dh_client remote secretkey n in
      if eq (t.hmac (drop 32 buf) sharedkey) (packet_hash buf)
      then some (t.xchacha20 (packet_x buf) sharedkey (short_nonce n))
      else none

  -- gen_session_start: the packet, and the session key.
  unfoldable pub gen_session_start : Key → Key → Key → List ℕ → List ℕ × Key
  gen_session_start secretkey remote token buf =
      let n = packet_nonce buf in
      let e_k = t.dh_client remote secretkey n in
      let sessionkey = t.dh_client remote secretkey (t.shorthash (token ++ n)) in
      let x = t.xchacha20 token e_k (short_nonce n) in
      (hashed t (n ++ (x ++ drop 96 buf)) e_k, sessionkey)

  -- verify_session_start: the session key.
  unfoldable pub verify_session_start : Key → Key → Key → List ℕ → Option Key
  verify_session_start secretkey remote token buf =
      let n = packet_nonce buf in
      let e_k = t.dh_server remote secretkey n in
      if eq (t.hmac (drop 32 buf) e_k) (packet_hash buf)
      then (if eq (t.xchacha20 (packet_x buf) e_k (short_nonce n)) token
          then some (t.dh_server remote secretkey (t.shorthash (token ++ n)))
          else none)
      else none

  -- iwp_encrypt_frame with the random nonce, and iwp_decrypt_frame, which decrypts the body whether or
  -- not the hash is right.
  unfoldable pub encrypt_frame : Key → Key → List ℕ → List ℕ
  encrypt_frame sessionkey nonce buf =
      hashed t (nonce ++ t.xchacha20 (drop 64 buf) sessionkey (short_nonce nonce)) sessionkey

  unfoldable pub decrypt_frame : Key → List ℕ → Bool × List ℕ
  decrypt_frame sessionkey buf =
      let n = packet_nonce buf in
      let body = t.xchacha20 (drop 64 buf) sessionkey (short_nonce n) in
      (eq (t.hmac (drop 32 buf) sessionkey) (packet_hash buf), packet_hash buf ++ (n ++ body))
