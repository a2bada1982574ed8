-- ===== src/Examples/Sessions.antt =====
-- Runs of the handshake and of encrypted frames, with a transport that hides nothing.
use uplexa_network.Prelude.{ℕ, ◌≡◌, refl, true, false, List, [], ◌∷◌, ◌++◌, none, some, arith, drop}
use uplexa_network.Dht.Key.{fill}
use uplexa_network.Iwp.Crypto.{Transport, packet_hash, encrypt_frame, decrypt_frame}
use uplexa_network.Iwp.Crypto.Packets.{IsTransport, decrypt_frame-encrypt_frame}
use uplexa_network.Text.{print_long, decimal, to_digits}
use uplexa_network.Contact.{Inet}
use uplexa_network.Contact.Router.{RouterContact}
use uplexa_network.Iwp.Transit.{value}
use uplexa_network.Iwp.FrameState.{find_msg}
use uplexa_network.Iwp.Session.Intro.{IsQueued, lim_bytes, lim_text}
use uplexa_network.Iwp.Session.{
  Session, initial, session_start_sent, lim_sent, nothing, reply, introduce, recv,
}
use uplexa_network.Iwp.Session.Handshake.{IsRandom, recv-introduce}

-- The exchange gives the nonce.
abbrev plain : Transport
plain = record {
  dh_client = λ o s n. n;
  dh_server = λ o s n. n;
  xchacha20 = λ x k n. x;
  hmac = λ x k. fill 32 9;
  shorthash = λ x. fill 32 8;
  to_public = λ k. fill 32 5;
}

plain-IsTransport : IsTransport plain
unfolding fill
plain-IsTransport = record {
  agree = λ a b n. refl;
  undo = λ x k n. refl;
  keeps = λ x k n. refl;
  hash_size = λ x k. refl;
  key_size = λ k. refl;
}

abbrev client : Session
client = record {
  state = initial;
  eph_seckey = fill 32 1;
  remote = fill 32 0;
  token = fill 32 0;
  sessionkey = fill 32 0;
  frames = record {
    rxflags = 0;
    txflags = 0;
    rx = [];
    tx = [];
    sendqueue = (1 ∷ []) ∷ [];
    delivered = [];
  };
  txids = 0;
  outgoing = [];
}

abbrev server : Session
server = record client { eph_seckey = fill 32 2; token = fill 32 7 }

random : (n : ℕ) → IsRandom (fill 32 n) (n ∷ n ∷ [])
unfolding fill
random n = record { nonce_size = refl; pad_size = omega arith }

-- A contact with no address and no exit.
abbrev inet : Inet
inet = record { pton = λ _. none; ntop = λ _. none }

abbrev contact : RouterContact
contact = record {
  addrs = none;
  enckey = fill 32 4;
  pubkey = fill 32 5;
  exits = none;
  signature = fill 64 7;
  last_updated = 1530000000;
}

recv-introduce_example :
    let i = introduce plain (fill 32 3) (3 ∷ 3 ∷ []) (fill 32 5) client in
    let lim = lim_bytes inet contact (λ _. 0) in
    (s1 c1 s2 : Session) × (ack start : List ℕ) × (recv plain false lim
        (fill 32 4)
        (4 ∷ 4 ∷ [])
        i.0
        server
      ≡ value (some (s1, reply ack)))
    × (recv plain false lim (fill 32 6) (6 ∷ 6 ∷ []) ack i.1 ≡ value (some (c1, reply start)))
    × (recv plain false lim (fill 32 3) (3 ∷ 3 ∷ []) start s1 ≡ value (some (s2, nothing)))
    × (c1.sessionkey ≡ s2.sessionkey)
    × (c1.token ≡ s2.token)
    × (s2.remote ≡ fill 32 5)
    × (c1.state ≡ session_start_sent)
    × (s2.state ≡ lim_sent)
    × IsQueued plain (lim_text inet contact) server s2
unfolding fill print_long decimal to_digits find_msg
recv-introduce_example =
    recv-introduce plain plain-IsTransport inet contact (λ _. 0) client server (fill 32 3)
      (fill 32 4) (fill 32 6) (3 ∷ 3 ∷ []) (4 ∷ 4 ∷ []) (6 ∷ 6 ∷ [])
      (record { addresses = tt; exit_list = tt }) (omega arith) refl (random 3) (random 4)
      (random 6) refl refl

decrypt_frame-encrypt_frame_example :
    let p = encrypt_frame plain (fill 32 1) (fill 32 3) (fill 64 0 ++ (7 ∷ 8 ∷ [])) in
    decrypt_frame plain (fill 32 1) p
    ≡ (true, packet_hash p ++ (fill 32 3 ++ drop 64 (fill 64 0 ++ (7 ∷ 8 ∷ []))))
unfolding fill
decrypt_frame-encrypt_frame_example =
    decrypt_frame-encrypt_frame plain plain-IsTransport (fill 32 1) (fill 32 3)
      (fill 64 0 ++ (7 ∷ 8 ∷ [])) refl
