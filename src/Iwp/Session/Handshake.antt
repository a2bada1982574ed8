-- ===== src/Iwp/Session/Handshake.antt =====
-- The two ends of a handshake come to the same session.
use uplexa_network.Prelude.{
  ℕ, ◌<◌, ◌≡◌, refl, ap, ◌∙◌, ◌+◌, false, List, ◌++◌, Option, none, some, sym, leb, ltb, length,
  length-append, drop, drop-append, arith,
}
use uplexa_network.Dht.Key.{Key, fill}
use uplexa_network.Iwp.Crypto.{
  Transport, packet_nonce, hashed, gen_intro, gen_introack, verify_introack, gen_session_start,
  verify_session_start,
}
use uplexa_network.Iwp.Crypto.Packets.{
  IsTransport, HasRoom, length-packet_nonce, verify_intro-gen_intro, verify_introack-gen_introack,
  verify_session_start-gen_session_start,
}
use uplexa_network.Buffer.{Mem}
use uplexa_network.Contact.{Inet}
use uplexa_network.Contact.Router.{RouterContact, max_rc_size}
use uplexa_network.Contact.Router.Trip.{IsWritable}
use uplexa_network.Iwp.Transit.{value, ◌>>=◌}
use uplexa_network.Iwp.FrameState.{find_msg}
use uplexa_network.Iwp.Session.Intro.{IsQueued, lim_text, lim_bytes, lim_bytes_lem, send_lim_lem}
use uplexa_network.Iwp.Session.{
  Session, initial, intro_sent, intro_ack_sent, intro_ack_recv, session_start_sent, lim_sent,
  nothing, reply, workbuf_size, scratch, enter, introduce, intro_ack, verified_intro, on_intro,
  session_start, verified_introack, on_intro_ack, verified_start, send_lim, on_session_start,
  recv_in, recv,
}

-- A random nonce and padding, as the code makes them.
pub record IsRandom (nonce : Key) (pad : List ℕ) : Type 0 where
  pub nonce_size : length nonce ≡ 32
  pub pad_size : length pad < 128

scratch-HasRoom : (nonce : Key) (pad : List ℕ) → IsRandom nonce pad → HasRoom (scratch nonce pad)
unfolding fill
scratch-HasRoom nonce pad r =
    let a = length-append (fill 32 0) (nonce ++ (fill 32 0 ++ pad)) in
    let b = length-append nonce (fill 32 0 ++ pad) in
    let c = length-append (fill 32 0) pad in omega (arith, a, b, c, r.nonce_size)

scratch-pad : (nonce : Key) (pad : List ℕ) → IsRandom nonce pad → drop 96 (scratch nonce pad) ≡ pad
unfolding fill
scratch-pad nonce pad r = drop-append nonce (fill 32 0 ++ pad) 32 32 r.nonce_size

module _ (t : Transport) (good : IsTransport t) where
  packet_fits :
      (nonce : Key) (pad x : List ℕ) (key : Key)
      → IsRandom nonce pad
      → length x ≡ 32
      → let buf = scratch nonce pad in
        length (hashed t (packet_nonce buf ++ (x ++ drop 96 buf)) key) < workbuf_size
  packet_fits nonce pad x key r size =
      let buf = scratch nonce pad in
      let n = packet_nonce buf in
      let body = n ++ (x ++ drop 96 buf) in
      omega (
        arith,
        good.hash_size body key,
        length-append (t.hmac body key) body,
        length-append n (x ++ drop 96 buf),
        length-append x (drop 96 buf),
        length-packet_nonce buf (scratch-HasRoom nonce pad r),
        ap (λ (p : List ℕ). length p) (scratch-pad nonce pad r),
        r.pad_size,
        size,
      )

  small : (n : ℕ) → n < workbuf_size → (leb workbuf_size n ≡ false) × (ltb workbuf_size n ≡ false)
  small n h = (ground arith, ground arith)

  -- The server's end: the introduction is answered.
  on_intro_lem :
      (a : Key) (s : Session) (n1 n2 : Key) (p1 p2 : List ℕ)
      → IsRandom n1 p1
      → on_intro t false n2 p2 (gen_intro t a (t.to_public s.eph_seckey) (scratch n1 p1)) s
        ≡ some (
          enter intro_ack_sent (record s { remote = t.to_public a }),
          reply (gen_introack t s.eph_seckey (t.to_public a) s.token (scratch n2 p2)),
        )
  unfolding on_intro verified_intro intro_ack
  on_intro_lem a s n1 n2 p1 p2 r =
      let buf = scratch n1 p1 in
      let size : length (gen_intro t a (t.to_public s.eph_seckey) buf) < workbuf_size =
        unfold gen_intro in packet_fits n1 p1 _ _ r (good.keeps _ _ _ ∙ good.key_size a) in
      rw ((small _ size).0) (
        ap (verified_intro t false n2 p2 s)
          (verify_intro-gen_intro t good a s.eph_seckey buf (scratch-HasRoom n1 p1 r)))

  -- The client's end: the answer is followed by the session start.
  on_intro_ack_lem :
      (b token : Key) (c : Session) (n2 n3 : Key) (p2 p3 : List ℕ)
      → IsRandom n2 p2
      → length token ≡ 32
      → c.remote ≡ t.to_public b
      → on_intro_ack t n3 p3 (gen_introack t b (t.to_public c.eph_seckey) token (scratch n2 p2)) c
        ≡ some (session_start t n3 p3 (enter intro_ack_recv (record c { token = token })))
  unfolding on_intro_ack verified_introack
  on_intro_ack_lem b token c n2 n3 p2 p3 r sized e =
      let buf = scratch n2 p2 in
      let p = gen_introack t b (t.to_public c.eph_seckey) token buf in
      let size : length p < workbuf_size =
        unfold gen_introack in packet_fits n2 p2 _ _ r (good.keeps _ _ _ ∙ sized) in
      let token_back =
        ap (λ k. verify_introack t c.eph_seckey k p) e
        ∙ verify_introack-gen_introack t good c.eph_seckey b token buf (scratch-HasRoom n2 p2 r)
            sized in
      rw ((small _ size).0) (ap (verified_introack t n3 p3 c) token_back)

  -- The server's end again.
  on_session_start_lem :
      (lim : Option (List ℕ)) (a : Key) (s : Session) (n3 : Key) (p3 : List ℕ)
      → IsRandom n3 p3
      → length s.token ≡ 32
      → s.remote ≡ t.to_public a
      → let g = gen_session_start t a (t.to_public s.eph_seckey) s.token (scratch n3 p3) in
        on_session_start t lim g.0 s ≡ send_lim t lim (record s { sessionkey = g.1 })
  unfolding on_session_start verified_start
  on_session_start_lem lim a s n3 p3 r sized e =
      let buf = scratch n3 p3 in
      let g = gen_session_start t a (t.to_public s.eph_seckey) s.token buf in
      let size : length g.0 < workbuf_size =
        unfold gen_session_start in packet_fits n3 p3 _ _ r (good.keeps _ _ _ ∙ sized) in
      let key =
        ap (λ k. verify_session_start t s.eph_seckey k s.token g.0) e
        ∙ verify_session_start-gen_session_start t good a s.eph_seckey s.token buf
            (scratch-HasRoom n3 p3 r) sized in
      rw ((small _ size).1) (ap (verified_start t lim s) key)

  -- A fresh session that receives the introduction of a client, which knows its public key,
  -- answers it; the client takes the answer and starts the session. Both ends then have the same
  -- session key and token, and the server knows the client's public key. The server's link intro
  -- message, with its router contact, is cut into its fragments, kept under the next number, which
  -- is counted up, and its XMIT frame is handed on behind the frames that were queued; nothing is
  -- left in the queue, and the server waits. The address has no session yet, the contact can be
  -- written and its link intro message has room in the stack buffer, no message is kept under the
  -- number, nonces and the token have 32 bytes, the paddings fewer than 128, and the crypto
  -- library agrees on secrets, undoes its cipher, and gives hashes and keys of 32 bytes.
  pub recv-introduce :
      (inet : Inet) (rc : RouterContact) (tmp : Mem) (c s : Session) (n1 n2 n3 : Key)
      (p1 p2 p3 : List ℕ)
      → IsWritable inet rc
      → length (lim_text inet rc) < max_rc_size + 64
      → find_msg s.txids s.frames.tx ≡ none
      → IsRandom n1 p1
      → IsRandom n2 p2
      → IsRandom n3 p3
      → s.state ≡ initial
      → length s.token ≡ 32
      → let i = introduce t n1 p1 (t.to_public s.eph_seckey) c in
        let lim = lim_bytes inet rc tmp in
        (s1 c1 s2 : Session) × (ack start : List ℕ) × (recv t false lim n2 p2 i.0 s
          ≡ value (some (s1, reply ack)))
        × (recv t false lim n3 p3 ack i.1 ≡ value (some (c1, reply start)))
        × (recv t false lim n1 p1 start s1 ≡ value (some (s2, nothing)))
        × (c1.sessionkey ≡ s2.sessionkey)
        × (c1.token ≡ s2.token)
        × (s2.remote ≡ t.to_public c.eph_seckey)
        × (c1.state ≡ session_start_sent)
        × (s2.state ≡ lim_sent)
        × IsQueued t (lim_text inet rc) s s2
  unfolding introduce recv recv_in session_start
  recv-introduce inet rc tmp c s n1 n2 n3 p1 p2 p3 written room free r1 r2 r3 fresh sized =
      let lim = lim_bytes inet rc tmp in
      let a = c.eph_seckey in
      let b = s.eph_seckey in
      let s1 = enter intro_ack_sent (record s { remote = t.to_public a }) in
      let g = gen_session_start t a (t.to_public b) s.token (scratch n3 p3) in
      let c1 = record c {
        state = session_start_sent;
        remote = t.to_public b;
        token = s.token;
        sessionkey = g.1;
      } in
      let encoded = lim_bytes_lem inet rc tmp written room in
      let (s2, sent, same, queued) =
        send_lim_lem t (lim_text inet rc) (record s1 { sessionkey = g.1 }) (omega (arith, room))
          free in
      let started =
        on_session_start_lem lim a s1 n3 p3 r3 sized refl
        ∙ ap (λ l. send_lim t l (record s1 { sessionkey = g.1 })) encoded
        ∙ sent in
      (
        s1,
        c1,
        s2,
        gen_introack t b (t.to_public a) s.token (scratch n2 p2),
        g.0,
        ap (λ st. recv_in t st false lim n2 p2 (gen_intro t a (t.to_public b) (scratch n1 p1)) s)
              fresh
            ∙ ap value (on_intro_lem a s n1 n2 p1 p2 r1),
        ap value (
            on_intro_ack_lem b s.token (enter intro_sent (record c { remote = t.to_public b })) n2
              n3 p2 p3 r2 sized refl),
        ap (λ o. o >>= λ (x : Session). value (some (x, nothing))) started,
        ap (λ (x : Session). x.sessionkey) (sym same),
        ap (λ (x : Session). x.token) (sym same),
        ap (λ (x : Session). x.remote) same,
        refl,
        ap (λ (x : Session). x.state) same,
        record {
          message = queued.message;
          frame = queued.frame;
          cut_up = queued.cut_up;
          fragmented = queued.fragmented;
          kept = queued.kept;
          framed = queued.framed;
          sent = queued.sent;
          none_left = queued.none_left;
          counted = queued.counted;
        },
      )
