-- ===== src/Iwp/Crypto/Packets.antt =====
-- Each packet of the handshake is taken for what was sent.
use uplexa_network.Prelude.{
  ℕ, ◌≤◌, ◌≡◌, refl, sym, ap, ◌∙◌, Bool, true, List, ◌++◌, some, length, take, drop, take-append,
  drop-append, length-take, length-drop, arith,
}
use uplexa_network.Dht.Key.{Key, eq}
use uplexa_network.Dht.Key.Laws.{eq_iff}
use uplexa_network.Iwp.Crypto.{
  Transport, packet_hash, packet_nonce, packet_x, short_nonce, hashed, gen_intro, verify_intro,
  gen_introack, verify_introack, gen_session_start, verify_session_start, encrypt_frame,
  decrypt_frame,
}

-- What the crypto library promises: the two ends of an exchange get the same secret, the stream cipher
-- undoes itself and keeps the length, and hashes and public keys have 32 bytes.
pub record IsTransport (t : Transport) : Type 0 where
  pub agree : (a b n : Key) → t.dh_client (t.to_public b) a n ≡ t.dh_server (t.to_public a) b n
  pub undo : (x : List ℕ) (k : Key) (n : List ℕ) → t.xchacha20 (t.xchacha20 x k n) k n ≡ x
  pub keeps : (x : List ℕ) (k : Key) (n : List ℕ) → length (t.xchacha20 x k n) ≡ length x
  pub hash_size : (x : List ℕ) (k : Key) → length (t.hmac x k) ≡ 32
  pub key_size : (k : Key) → length (t.to_public k) ≡ 32

-- A buffer with room for the hash, the nonce and 32 bytes.
abbrev pub HasRoom : List ℕ → Type 0
HasRoom buf = 96 ≤ length buf

pub length-packet_nonce : (buf : List ℕ) → HasRoom buf → length (packet_nonce buf) ≡ 32
length-packet_nonce buf room = length-take 32 (drop 32 buf) (omega (arith, length-drop 32 buf))

-- The parts of a packet.
record HasParts (p h n x : List ℕ) : Type 0 where
  hash_part : packet_hash p ≡ h
  nonce_part : packet_nonce p ≡ n
  x_part : packet_x p ≡ x

hashed-rest :
    (t : Transport) (good : IsTransport t) (body : List ℕ) (key : Key)
    → drop 32 (hashed t body key) ≡ body
hashed-rest t good body key = drop-append (t.hmac body key) body 32 0 (good.hash_size body key)

hashed-HasParts :
    (t : Transport) (good : IsTransport t) (n x pad : List ℕ) (key : Key)
    → length n ≡ 32
    → length x ≡ 32
    → HasParts (hashed t (n ++ (x ++ pad)) key) (t.hmac (n ++ (x ++ pad)) key) n x
hashed-HasParts t good n x pad key nn xx =
    let body = n ++ (x ++ pad) in
    let hash = t.hmac body key in
    let size = good.hash_size body key in
    record {
      hash_part = take-append hash body 32 size;
      nonce_part = ap (take 32) (drop-append hash body 32 0 size) ∙ take-append n (x ++ pad) 32 nn;
      x_part =
          ap (take 32) (drop-append hash body 32 32 size ∙ drop-append n (x ++ pad) 32 0 nn)
          ∙ take-append x pad 32 xx;
    }

eq_same : (a b : Key) → a ≡ b → eq a b ≡ true
eq_same a b e = (eq_iff a b).1 e

module _ (t : Transport) (good : IsTransport t) where
  -- The check of the hash, with the key that it was made with.
  checked :
      (n x pad : List ℕ) (key : Key)
      → length n ≡ 32
      → length x ≡ 32
      → let p = hashed t (n ++ (x ++ pad)) key in eq (t.hmac (drop 32 p) key) (packet_hash p) ≡ true
  checked n x pad key nn xx =
      let parts = hashed-HasParts t good n x pad key nn xx in
      eq_same _ _
        (ap (λ b. t.hmac b key) (hashed-rest t good (n ++ (x ++ pad)) key) ∙ sym parts.hash_part)

  pub verify_intro-gen_intro :
      (a b : Key) (buf : List ℕ)
      → HasRoom buf
      → verify_intro t b (gen_intro t a (t.to_public b) buf) ≡ (true, t.to_public a)
  unfolding verify_intro gen_intro
  verify_intro-gen_intro a b buf room =
      let n = packet_nonce buf in
      let key = t.dh_client (t.to_public b) a n in
      let e_k = t.shorthash (t.to_public b ++ n) in
      let x = t.xchacha20 (t.to_public a) e_k (short_nonce n) in
      let nn = length-packet_nonce buf room in
      let xx = good.keeps (t.to_public a) e_k (short_nonce n) ∙ good.key_size a in
      let parts = hashed-HasParts t good n x (drop 96 buf) key nn xx in
      let hash = checked n x (drop 96 buf) key nn xx in
      let plain = good.undo (t.to_public a) e_k (short_nonce n) in
      rw (parts.nonce_part, parts.x_part, plain)
        (rw⁻¹ (good.agree a b n) (ap (λ (c : Bool). (c, t.to_public a)) hash))

  pub verify_introack-gen_introack :
      (a b token : Key) (buf : List ℕ)
      → HasRoom buf
      → length token ≡ 32
      → verify_introack t a (t.to_public b) (gen_introack t b (t.to_public a) token buf)
        ≡ some token
  unfolding verify_introack gen_introack
  verify_introack-gen_introack a b token buf room size =
      let n = packet_nonce buf in
      let key = t.dh_server (t.to_public a) b n in
      let x = t.xchacha20 token key (short_nonce n) in
      let nn = length-packet_nonce buf room in
      let xx = good.keeps token key (short_nonce n) ∙ size in
      let parts = hashed-HasParts t good n x (drop 96 buf) key nn xx in
      let hash = checked n x (drop 96 buf) key nn xx in
      rw (parts.nonce_part, parts.x_part, good.agree a b n)
        (rw (hash, good.undo token key (short_nonce n)))

  pub verify_session_start-gen_session_start :
      (a b token : Key) (buf : List ℕ)
      → HasRoom buf
      → length token ≡ 32
      → let g = gen_session_start t a (t.to_public b) token buf in
        verify_session_start t b (t.to_public a) token g.0 ≡ some g.1
  unfolding verify_session_start gen_session_start
  verify_session_start-gen_session_start a b token buf room size =
      let n = packet_nonce buf in
      let key = t.dh_client (t.to_public b) a n in
      let x = t.xchacha20 token key (short_nonce n) in
      let nn = length-packet_nonce buf room in
      let xx = good.keeps token key (short_nonce n) ∙ size in
      let parts = hashed-HasParts t good n x (drop 96 buf) key nn xx in
      let hash = checked n x (drop 96 buf) key nn xx in
      let plain = good.undo token key (short_nonce n) in
      rw (parts.nonce_part, parts.x_part)
        (rw⁻¹ (good.agree a b n, good.agree a b (t.shorthash (token ++ n)))
          (rw (hash, plain, eq_same token token refl)))

  -- A frame encrypted with a nonce of 32 bytes is found authentic under the same session key, and
  -- its body is what it was, behind the hash and the nonce, if the crypto library undoes its
  -- cipher, keeps the length of what it encrypts, agrees on secrets, and gives hashes and keys of
  -- 32 bytes.
  pub decrypt_frame-encrypt_frame :
      (key nonce buf : List ℕ)
      → length nonce ≡ 32
      → let p = encrypt_frame t key nonce buf in
        decrypt_frame t key p ≡ (true, packet_hash p ++ (nonce ++ drop 64 buf))
  unfolding decrypt_frame encrypt_frame
  decrypt_frame-encrypt_frame key nonce buf size =
      let x = t.xchacha20 (drop 64 buf) key (short_nonce nonce) in
      let body = nonce ++ x in
      let hash = t.hmac body key in
      let hh = good.hash_size body key in
      let rest = drop-append hash body 32 0 hh in
      let n = ap (take 32) rest ∙ take-append nonce x 32 size in
      let cut = drop-append hash body 32 32 hh ∙ drop-append nonce x 32 0 size in
      let same =
        eq_same (t.hmac body key) (packet_hash (hash ++ body))
          (sym (take-append hash body 32 hh)) in
      rw (n, rest, cut, same, good.undo (drop 64 buf) key (short_nonce nonce))
