-- ===== src/Iwp/Session.antt =====
-- The session of udap/iwp_link.cpp while it is set up. A job of the crypto workers and the hook that
-- is called behind it are one step with the call that starts them, and what is random is an argument.
pub mod Intro
pub mod Handshake
use uplexa_network.Prelude.{
  ℕ, ◌+◌, ◌-◌, ◌%◌, ◌^◌, Bool, false, not, List, [], ◌∷◌, ◌++◌, Option, none, some, if◌then◌else◌,
  leb, ltb, length,
}
use uplexa_network.Iwp.Transit.{Outcome, value, undefined, ◌>>=◌, Transit, put_message}
use uplexa_network.Iwp.FrameState.{FrameState, queue_tx}
use uplexa_network.Iwp.FrameState.Queue.{pop_next_frame}
use uplexa_network.Dht.Key.{Key, fill}
use uplexa_network.Iwp.Crypto.{
  Transport, gen_intro, verify_intro, gen_introack, verify_introack, gen_session_start,
  verify_session_start, decrypt_frame,
}

pub data SessionState : Type 0 where
  initial intro_recv intro_sent intro_ack_sent intro_ack_recv session_start_sent lim_sent :
      SessionState
  established timeout : SessionState

-- `txids` is a uint64_t. `outgoing` has the frames given to encrypt_frame_async_send, in order.
pub record Session : Type 0 where
  pub state : SessionState
  pub eph_seckey : Key
  pub remote : Key
  pub token : Key
  pub sessionkey : Key
  pub frames : FrameState
  pub txids : ℕ
  pub outgoing : List (List ℕ)

-- What is done with a packet: it is answered, or it is a frame, with the result of its decryption.
pub data Reaction : Type 0 where
  nothing : Reaction
  reply : List ℕ → Reaction
  frame : Bool × List ℕ → Reaction

-- sizeof(workbuf), and the buffer before a packet is made: the nonce and the padding are random, the
-- rest is overwritten.
abbrev pub workbuf_size : ℕ
workbuf_size = 256

abbrev pub scratch : Key → List ℕ → List ℕ
scratch nonce pad = fill 32 0 ++ (nonce ++ (fill 32 0 ++ pad))

-- EnterState.
abbrev pub enter : SessionState → Session → Session
enter st s = record s { state = st }

-- The loop of pump, a round for each frame that is queued.
unfoldable pub pump_frames : List (List ℕ) → Session → Session
pump_frames [] s = s
pump_frames (next ∷ rest) s =
    pump_frames rest
      (record s { outgoing = s.outgoing ++ (next ∷ []); frames = pop_next_frame s.frames })

abbrev pub pump : Session → Session
pump s = pump_frames s.frames.sendqueue s

-- add_outbound_message. What PumpCryptoOutbound does is done by the crypto workers.
unfoldable pub add_outbound_message : ℕ → Transit → Session → Outcome Session
add_outbound_message id m s =
    queue_tx id m s.frames >>= λ fs. value (pump (record s { frames = fs }))

-- The `mtu` of an outbound transit_message.
abbrev pub default_mtu : ℕ
default_mtu = 1024

module _ (t : Transport) where
  -- introduce and handle_generated_intro.
  unfoldable pub introduce : Key → List ℕ → Key → Session → List ℕ × Session
  introduce nonce pad pubkey s = (
    gen_intro t s.eph_seckey pubkey (scratch nonce pad),
    enter intro_sent (record s { remote = pubkey }),
  )

  -- intro_ack and handle_introack_generated: a session to an address that has one is deleted.
  unfoldable pub intro_ack : Bool → Key → List ℕ → Session → Option (Session × Reaction)
  intro_ack duplicate nonce pad s =
      if duplicate
      then none
      else some (
        enter intro_ack_sent s,
        reply (gen_introack t s.eph_seckey s.remote s.token (scratch nonce pad)),
      )

  -- on_intro and handle_verify_intro; `none` is a session that is deleted. The remote's key is
  -- overwritten whether or not the packet is right.
  unfoldable pub verified_intro :
      Bool → Key → List ℕ → Session → Bool × Key → Option (Session × Reaction)
  verified_intro duplicate nonce pad s (good, remote) =
      let s' = enter intro_recv (record s { remote = remote }) in
      if good then intro_ack duplicate nonce pad s' else some (s', nothing)

  unfoldable pub on_intro : Bool → Key → List ℕ → List ℕ → Session → Option (Session × Reaction)
  on_intro duplicate nonce pad buf s =
      if leb workbuf_size (length buf)
      then none
      else verified_intro duplicate nonce pad s (verify_intro t s.eph_seckey buf)

  -- session_start and handle_generated_session_start.
  unfoldable pub session_start : Key → List ℕ → Session → Session × Reaction
  session_start nonce pad s =
      let g = gen_session_start t s.eph_seckey s.remote s.token (scratch nonce pad) in
      (enter session_start_sent (record s { sessionkey = g.1 }), reply g.0)

  -- on_intro_ack and handle_verify_introack.
  unfoldable pub verified_introack :
      Key → List ℕ → Session → Option Key → Option (Session × Reaction)
  verified_introack nonce pad s none = some (s, nothing)
  verified_introack nonce pad s (some token) =
      some (session_start nonce pad (enter intro_ack_recv (record s { token = token })))

  unfoldable pub on_intro_ack : Key → List ℕ → List ℕ → Session → Option (Session × Reaction)
  on_intro_ack nonce pad buf s =
      if leb workbuf_size (length buf)
      then none
      else verified_introack nonce pad s (verify_introack t s.eph_seckey s.remote buf)

  -- send_LIM, with the bytes that EncodeLIM wrote, or none where it failed. The loop that cuts the
  -- message ends, since its fragments are not empty.
  unfoldable pub queue_lim : Option Transit → Session → Outcome Session
  queue_lim none s = undefined
  queue_lim (some m) s =
      add_outbound_message s.txids m (record s { txids = (s.txids + 1) % 2 ^ 64 }) >>= λ s'.
      value (enter lim_sent s')

  unfoldable pub send_lim : Option (List ℕ) → Session → Outcome Session
  send_lim none s = value s
  send_lim (some bytes) s = queue_lim (put_message bytes (t.shorthash bytes) s.txids default_mtu) s

  -- handle_verify_session_start; the crypto job has written the session key.
  unfoldable pub verified_start : Option (List ℕ) → Session → Option Key → Outcome Session
  verified_start lim s none = value s
  verified_start lim s (some key) = send_lim lim (record s { sessionkey = key })

  unfoldable pub on_session_start : Option (List ℕ) → List ℕ → Session → Outcome Session
  on_session_start lim buf s =
      if ltb workbuf_size (length buf)
      then value s
      else verified_start lim s (verify_session_start t s.eph_seckey s.remote s.token buf)

  -- A packet of up to 64 bytes is dropped, and so is one of more than 1500, for which the code reads
  -- through a null pointer.
  unfoldable pub on_frame : List ℕ → Session → Reaction
  on_frame buf s =
      if ltb 64 (length buf)
      then (if ltb 1500 (length buf) then nothing else frame (decrypt_frame t s.sessionkey buf))
      else nothing

  -- recv; `lim` is the link intro message, should the packet have it sent.
  unfoldable pub recv_in :
      SessionState
      → Bool
      → Option (List ℕ)
      → Key
      → List ℕ
      → List ℕ
      → Session
      → Outcome (Option (Session × Reaction))
  recv_in initial duplicate lim nonce pad buf s = value (on_intro duplicate nonce pad buf s)
  recv_in intro_sent duplicate lim nonce pad buf s = value (on_intro_ack nonce pad buf s)
  recv_in intro_ack_sent duplicate lim nonce pad buf s =
      on_session_start lim buf s >>= λ s'. value (some (s', nothing))
  recv_in session_start_sent duplicate lim nonce pad buf s = value (some (s, on_frame buf s))
  recv_in lim_sent duplicate lim nonce pad buf s = value (some (s, on_frame buf s))
  recv_in established duplicate lim nonce pad buf s = value (some (s, on_frame buf s))
  recv_in intro_recv duplicate lim nonce pad buf s = value (some (s, nothing))
  recv_in intro_ack_recv duplicate lim nonce pad buf s = value (some (s, nothing))
  recv_in timeout duplicate lim nonce pad buf s = value (some (s, nothing))

  unfoldable pub recv :
      Bool
      → Option (List ℕ)
      → Key
      → List ℕ
      → List ℕ
      → Session
      → Outcome (Option (Session × Reaction))
  recv duplicate lim nonce pad buf s = recv_in s.state duplicate lim nonce pad buf s

-- timedout, with the wrap-around of the subtraction, and whether Tick wants the session removed.
unfoldable pub session_timedout : ℕ → ℕ → Bool
session_timedout now last_event = leb 10000 ((now + 2 ^ 64 - last_event) % 2 ^ 64)

unfoldable pub session_tick : ℕ → ℕ → Bool → Bool → Bool
session_tick now last_event invalidated working =
    if session_timedout now last_event
    then not working
    else if invalidated
    then not working
    else false
