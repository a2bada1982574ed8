-- ===== src/Commit/Frame.antt =====
-- EncryptedFrame: the hash of what follows it, a nonce, a public key, and the encrypted body. A frame
-- is the list of its bytes.
pub mod Sealing
use uplexa_network.Prelude.{
  ℕ, ◌≡◌, List, ◌++◌, Option, none, some, length, take, drop, if◌then◌else◌, leb,
}
use uplexa_network.Dht.Key.{Key, eq}

-- OverheadSize.
abbrev pub overhead : ℕ
overhead = 96

-- What is used of udap_crypto: each function gives its result, or fails.
pub record Crypto : Type 0 where
  pub dh_client : Key → Key → Key → Option Key
  pub dh_server : Key → Key → Key → Option Key
  pub xchacha20 : List ℕ → Key → Key → Option (List ℕ)
  pub hmac : List ℕ → Key → Option Key
  pub to_public : Key → Key

-- The parts of the frame.
abbrev pub frame_hash : List ℕ → Key
frame_hash frame = take 32 frame

abbrev pub frame_nonce : List ℕ → Key
frame_nonce frame = take 32 (drop 32 frame)

abbrev pub frame_pubkey : List ℕ → Key
frame_pubkey frame = take 32 (drop 64 frame)

abbrev pub frame_body : List ℕ → List ℕ
frame_body frame = drop 96 frame

module _ (crypto : Crypto) where
  -- EncryptInPlace, with the random nonce.
  unfoldable pub encrypt_in_place : Key → Key → Key → List ℕ → Option (List ℕ)
  encrypt_in_place secret other nonce frame =
      let pubkey = crypto.to_public secret in
      elim (crypto.dh_client other secret nonce) [
        | none ↦ none
        | some shared ↦ elim (crypto.xchacha20 (frame_body frame) shared nonce) [
          | none ↦ none
          | some body ↦ elim (crypto.hmac (nonce ++ (pubkey ++ body)) shared) [
            | none ↦ none
            | some hash ↦ some (hash ++ (nonce ++ (pubkey ++ body)))
          ]
        ]
      ]

  -- DecryptInPlace.
  unfoldable pub decrypt_in_place : Key → List ℕ → Option (List ℕ)
  decrypt_in_place secret frame =
      if leb (length frame) overhead
      then none
      else elim (crypto.dh_server (frame_pubkey frame) secret (frame_nonce frame)) [
        | none ↦ none
        | some shared ↦ elim (crypto.hmac (drop 32 frame) shared) [
          | none ↦ none
          | some digest ↦
              if eq digest (frame_hash frame)
              then elim (crypto.xchacha20 (frame_body frame) shared (frame_nonce frame)) [
                | none ↦ none
                | some body ↦ some (take 96 frame ++ body)
              ]
              else none
        ]
      ]

-- What the crypto library promises: the two ends of an exchange get the same secret, the stream
-- cipher undoes itself and keeps the length, and hashes and keys have 32 bytes.
pub record IsCrypto (crypto : Crypto) : Type 0 where
  pub agree :
      (ours theirs nonce shared : Key)
      → crypto.dh_client (crypto.to_public theirs) ours nonce ≡ some shared
      → crypto.dh_server (crypto.to_public ours) theirs nonce ≡ some shared
  pub undo :
      (x y : List ℕ) (k n : Key)
      → crypto.xchacha20 x k n ≡ some y
      → (crypto.xchacha20 y k n ≡ some x) × (length y ≡ length x)
  pub hash_size : (x : List ℕ) (k hash : Key) → crypto.hmac x k ≡ some hash → length hash ≡ 32
  pub key_size : (k : Key) → length (crypto.to_public k) ≡ 32
