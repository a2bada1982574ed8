-- ===== src/Commit/Frame/Sealing.antt =====
-- DecryptInPlace undoes EncryptInPlace.
use uplexa_network.Prelude.{
  ℕ, ◌<◌, ◌≡◌, refl, sym, ap, ◌∙◌, true, false, List, ◌++◌, some, length, take, drop, leb, arith,
  take-append, drop-append, length-append, Option-cases, inl, inr, length-drop,
}
use uplexa_network.Dht.Key.{Key, eq}
use uplexa_network.Dht.Key.Laws.{eq_iff}
use uplexa_network.Commit.Frame.{
  overhead, Crypto, frame_hash, frame_nonce, frame_pubkey, frame_body, encrypt_in_place,
  decrypt_in_place, IsCrypto,
}

-- The parts of a frame that is put together of its parts.
record HasParts (frame hash nonce pubkey body : List ℕ) : Type 0 where
  hash_part : frame_hash frame ≡ hash
  nonce_part : frame_nonce frame ≡ nonce
  pubkey_part : frame_pubkey frame ≡ pubkey
  body_part : frame_body frame ≡ body
  rest_part : drop 32 frame ≡ nonce ++ (pubkey ++ body)

frame-HasParts :
    (hash nonce pubkey body : List ℕ)
    → length hash ≡ 32
    → length nonce ≡ 32
    → length pubkey ≡ 32
    → HasParts (hash ++ (nonce ++ (pubkey ++ body))) hash nonce pubkey body
frame-HasParts hash nonce pubkey body h n p =
    let d32 = drop-append hash (nonce ++ (pubkey ++ body)) 32 0 h in
    let d64 =
      drop-append hash (nonce ++ (pubkey ++ body)) 32 32 h
      ∙ drop-append nonce (pubkey ++ body) 32 0 n in
    let d96 =
      drop-append hash (nonce ++ (pubkey ++ body)) 32 64 h
      ∙ drop-append nonce (pubkey ++ body) 32 32 n
      ∙ drop-append pubkey body 32 0 p in
    record {
      hash_part = take-append hash _ 32 h;
      nonce_part = ap (take 32) d32 ∙ take-append nonce _ 32 n;
      pubkey_part = ap (take 32) d64 ∙ take-append pubkey _ 32 p;
      body_part = d96;
      rest_part = d32;
    }

-- The two functions' steps, for the results of the crypto library.
small : (frame : List ℕ) → overhead < length frame → leb (length frame) overhead ≡ false
small frame h = ground arith

decrypt_run :
    (crypto : Crypto) (secret frame shared digest plain : List ℕ)
    → leb (length frame) overhead ≡ false
    → crypto.dh_server (frame_pubkey frame) secret (frame_nonce frame) ≡ some shared
    → crypto.hmac (drop 32 frame) shared ≡ some digest
    → eq digest (frame_hash frame) ≡ true
    → crypto.xchacha20 (frame_body frame) shared (frame_nonce frame) ≡ some plain
    → decrypt_in_place crypto secret frame ≡ some (take 96 frame ++ plain)
unfolding decrypt_in_place
decrypt_run crypto secret frame shared digest plain size dh mac same dec =
    rw (size, decrypt_in_place) (rw dh (rw mac (rw same (rw dec refl))))

decrypt_step :
    (crypto : Crypto) (secret frame hash nonce pubkey body shared plain : List ℕ)
    → HasParts frame hash nonce pubkey body
    → overhead < length frame
    → crypto.dh_server pubkey secret nonce ≡ some shared
    → crypto.hmac (nonce ++ (pubkey ++ body)) shared ≡ some hash
    → crypto.xchacha20 body shared nonce ≡ some plain
    → decrypt_in_place crypto secret frame ≡ some (take 96 frame ++ plain)
decrypt_step crypto secret frame hash nonce pubkey body shared plain parts size dh mac dec =
    let dh' : crypto.dh_server (frame_pubkey frame) secret (frame_nonce frame) ≡ some shared =
      rw (parts.pubkey_part, parts.nonce_part) dh in
    let mac' : crypto.hmac (drop 32 frame) shared ≡ some hash = rw (parts.rest_part) mac in
    let dec' : crypto.xchacha20 (frame_body frame) shared (frame_nonce frame) ≡ some plain =
      rw (parts.body_part, parts.nonce_part) dec in
    let same : eq hash (frame_hash frame) ≡ true =
      (eq_iff hash (frame_hash frame)).1 (sym parts.hash_part) in
    decrypt_run crypto secret frame shared hash plain (small frame size) dh' mac' same dec'

record Sealed (crypto : Crypto) (secret other nonce frame sealed : List ℕ) : Type 0 where
  shared : Key
  body : List ℕ
  hash : Key
  dh : crypto.dh_client other secret nonce ≡ some shared
  enc : crypto.xchacha20 (frame_body frame) shared nonce ≡ some body
  mac : crypto.hmac (nonce ++ (crypto.to_public secret ++ body)) shared ≡ some hash
  whole : sealed ≡ hash ++ (nonce ++ (crypto.to_public secret ++ body))

encrypt_step :
    (crypto : Crypto) (secret other nonce frame sealed : List ℕ)
    → encrypt_in_place crypto secret other nonce frame ≡ some sealed
    → Sealed crypto secret other nonce frame sealed
unfolding encrypt_in_place
encrypt_step crypto secret other nonce frame sealed e =
    elim (Option-cases (crypto.dh_client other secret nonce)) [
      | inl d ↦ absurd (ground arith)
      | inr (shared, d) ↦ elim (Option-cases (crypto.xchacha20 (frame_body frame) shared nonce)) [
        | inl c ↦ absurd (ground arith)
        | inr (body, c) ↦
            elim (Option-cases (crypto.hmac (nonce ++ (crypto.to_public secret ++ body)) shared)) [
              | inl m ↦ absurd (ground arith)
              | inr (hash, m) ↦ record {
                shared = shared;
                body = body;
                hash = hash;
                dh = d;
                enc = c;
                mac = m;
                whole = ground arith;
              }
            ]
      ]
    ]

-- Whatever EncryptInPlace makes of a frame longer than its overhead, with a nonce of 32 bytes and
-- for a public key, DecryptInPlace with the secret of that key takes for authentic and gives the
-- body of the frame back behind the same overhead, if the crypto library agrees on secrets, undoes
-- its cipher, and gives hashes and keys of 32 bytes.
pub decrypt_in_place-encrypt_in_place :
    (crypto : Crypto) (ours theirs nonce frame sealed : List ℕ)
    → IsCrypto crypto
    → length nonce ≡ 32
    → overhead < length frame
    → encrypt_in_place crypto ours (crypto.to_public theirs) nonce frame ≡ some sealed
    → decrypt_in_place crypto theirs sealed ≡ some (take 96 sealed ++ frame_body frame)
decrypt_in_place-encrypt_in_place crypto ours theirs nonce frame sealed good n size e =
    let s = encrypt_step crypto ours (crypto.to_public theirs) nonce frame sealed e in
    let pub_key = crypto.to_public ours in
    let undone = good.undo (frame_body frame) s.body s.shared nonce s.enc in
    let h = good.hash_size _ s.shared s.hash s.mac in
    let k = good.key_size ours in
    let parts = frame-HasParts s.hash nonce pub_key s.body h n k in
    let long : overhead < length (s.hash ++ (nonce ++ (pub_key ++ s.body))) = omega (
      arith,
      length-append s.hash (nonce ++ (pub_key ++ s.body)),
      length-append nonce (pub_key ++ s.body),
      length-append pub_key s.body,
      h,
      n,
      k,
      undone.1,
      length-drop 96 frame,
      size,
    ) in
    rw (s.whole) (
      decrypt_step crypto theirs _ s.hash nonce pub_key s.body s.shared (frame_body frame) parts
        long (good.agree ours theirs nonce s.shared s.dh) s.mac undone.0)

-- The sealed frame has the size of the frame.
pub length-encrypt_in_place :
    (crypto : Crypto) (ours other nonce frame sealed : List ℕ)
    → IsCrypto crypto
    → length nonce ≡ 32
    → overhead < length frame
    → encrypt_in_place crypto ours other nonce frame ≡ some sealed
    → length sealed ≡ length frame
length-encrypt_in_place crypto ours other nonce frame sealed good n size e =
    let s = encrypt_step crypto ours other nonce frame sealed e in
    let pub_key = crypto.to_public ours in
    let undone = good.undo (frame_body frame) s.body s.shared nonce s.enc in
    let h = good.hash_size _ s.shared s.hash s.mac in
    let k = good.key_size ours in
    rw (s.whole) (
      omega (
        arith,
        length-append s.hash (nonce ++ (pub_key ++ s.body)),
        length-append nonce (pub_key ++ s.body),
        length-append pub_key s.body,
        h,
        n,
        k,
        undone.1,
        length-drop 96 frame,
        size,
      ))
