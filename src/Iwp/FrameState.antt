-- ===== src/Iwp/FrameState.antt =====
-- frame_header and frame_state of udap/iwp_link.cpp: the frames of a session, and what they do to
-- its messages. A frame is read at an address of memory, as the source reads it, so that what stands
-- behind a short frame is read too. `word 2`, `word 4` and `word 8` are the memcpy of 16-bit, 32-bit
-- and 64-bit words.
pub mod Header
pub mod Frames
pub mod Acks
pub mod Complete
pub mod Queue
use Prim.Native.Nat.{bit_or}
use uplexa_network.Prelude.{
  ℕ, zero, suc, ◌+◌, ◌-◌, ◌*◌, ◌/◌, ◌%◌, ◌^◌, Bool, true, false, not, ◌&&◌, List, [], ◌∷◌, ◌++◌,
  Option, none, some, ltb, leb, ◌==◌, if◌then◌else◌, length,
}
use uplexa_network.Buffer.{Mem, load_all}
use uplexa_network.Dht.Key.{eq}
use uplexa_network.Iwp.Words.{word, word_at}
use uplexa_network.Iwp.Transit.{
  Xmit, Outcome, value, out_of_range, undefined, ◌>>=◌, Fragments, Transit, xmit_bytes, test,
  get_bitmask, ack, should_send_ack, completed, inbound, put_lastfrag, put_frag, reassemble,
}

abbrev alive_type : ℕ
alive_type = 0

abbrev pub xmit_type : ℕ
xmit_type = 1

abbrev pub acks_type : ℕ
acks_type = 2

abbrev pub frag_type : ℕ
frag_type = 3

-- init_sendbuf, with the body that is copied behind the header; `sz` is a 16-bit word.
unfoldable pub init_sendbuf : ℕ → ℕ → ℕ → List ℕ → List ℕ
init_sendbuf t sz flags body = 0 ∷ t ∷ (word 2 sz ++ (0 ∷ flags ∷ body))

-- The header's fields at an address.
abbrev hdr_type : Mem → ℕ → ℕ
hdr_type m p = m (p + 1)

abbrev pub hdr_size : Mem → ℕ → ℕ
hdr_size m p = word_at 2 m (p + 2)

abbrev hdr_flags : Mem → ℕ → ℕ
hdr_flags m p = m (p + 5)

-- The xmit header at an address.
unfoldable pub xmit_at : Mem → ℕ → Xmit
xmit_at m a = record {
  hash = load_all m a 32;
  msgid = word_at 8 m (a + 32);
  fragsize = word_at 2 m (a + 40);
  lastsize = word_at 2 m (a + 42);
  numfrags = m (a + 46);
  flags = m (a + 47);
}

-- `std::unordered_map< uint64_t, transit_message * >`, in some order.
abbrev pub Messages : Type 0
Messages = List (ℕ × Transit)

unfoldable pub find_msg : ℕ → Messages → Option Transit
find_msg i [] = none
find_msg i ((j, t) ∷ ms) = let rest = find_msg i ms in if j == i then some t else rest

unfoldable pub set_msg : ℕ → Transit → Messages → Messages
set_msg i t [] = (i, t) ∷ []
set_msg i t ((j, u) ∷ ms) =
    let rest = set_msg i t ms in if j == i then (j, t) ∷ ms else (j, u) ∷ rest

unfoldable pub erase_msg : ℕ → Messages → Messages
erase_msg i [] = []
erase_msg i ((j, u) ∷ ms) = let rest = erase_msg i ms in if j == i then ms else (j, u) ∷ rest

-- `delivered` has the messages given to the router, in order.
pub record FrameState : Type 0 where
  pub rxflags : ℕ
  pub txflags : ℕ
  pub rx : Messages
  pub tx : Messages
  pub sendqueue : List (List ℕ)
  pub delivered : List (List ℕ)

-- What the frames of a session need of the rest: the hash of the crypto library, the router's
-- HandleRecvLinkMessage, and what the session does about a first message (id 0) that was handled:
-- it checks the router contact, answers and becomes established, or closes.
pub record Session : Type 0 where
  pub shorthash : List ℕ → List ℕ
  pub handle_message : List ℕ → Bool
  pub first_message : FrameState → Bool × FrameState

-- flags_agree(eSessionInvalidated), for bit 0 of the flags.
unfoldable invalidated : FrameState → Bool
invalidated st = st.rxflags % 2 == 1 && st.txflags % 2 == 1

unfoldable pub push_frame : List ℕ → FrameState → FrameState
push_frame frame st = record st { sendqueue = st.sendqueue ++ (frame ∷ []) }

unfoldable pub push_ackfor : ℕ → ℕ → FrameState → FrameState
push_ackfor id bitmask st =
    push_frame (init_sendbuf acks_type 12 st.txflags (word 8 id ++ word 4 bitmask)) st

-- transit_message::generate_xmit. The frame's size is a 16-bit word: a longer last fragment would be
-- copied behind the end of the frame.
unfoldable pub generate_xmit : Transit → ℕ → Outcome (List ℕ)
generate_xmit t flags =
    let sz = length t.lastfrag + 48 in
    if ltb sz (2 ^ 16)
    then value (init_sendbuf xmit_type sz flags (xmit_bytes t.info ++ t.lastfrag))
    else undefined

-- The loop of transit_message::retransmit_frags: a FRAG frame for each fragment not acknowledged.
unfoldable pub retransmit_from : Transit → ℕ → Fragments → Outcome (List (List ℕ))
retransmit_from t flags [] = value []
retransmit_from t flags ((i, f) ∷ fs) =
    let rest = retransmit_from t flags fs in
    let frame =
      init_sendbuf frag_type (9 + t.info.fragsize) flags (word 8 t.info.msgid ++ (i ∷ f)) in
    test t.status i >>= λ b.
    if b
    then rest
    else if length f == t.info.fragsize && ltb (9 + t.info.fragsize) (2 ^ 16)
    then (rest >>= λ frames. value (frame ∷ frames))
    else undefined

unfoldable pub retransmit_frags : Transit → ℕ → FrameState → Outcome FrameState
retransmit_frags t flags st = retransmit_from t flags t.frags >>= λ frames.
    value (record st { sendqueue = st.sendqueue ++ frames })

unfoldable pub queue_tx : ℕ → Transit → FrameState → Outcome FrameState
queue_tx id t st = generate_xmit t st.txflags >>= λ frame. value (
    push_frame frame
      (record st { tx = elim (find_msg id st.tx) [ none ↦ (id, t) ∷ st.tx | some _ ↦ st.tx ] }))

-- frame_state::retransmit, over the messages to send.
unfoldable retransmit : Messages → FrameState → Outcome FrameState
retransmit [] st = value st
retransmit ((_, t) ∷ ms) st = retransmit_frags t st.txflags st >>= retransmit ms

module _ (env : Session) where
  -- The part of inbound_frame_complete behind the hash test. A refused message is erased too.
  unfoldable pub deliver : ℕ → List ℕ → FrameState → Bool × FrameState
  deliver id msg st =
      let st' = record st { delivered = st.delivered ++ (msg ∷ []) } in
      let r : Bool × FrameState =
        if env.handle_message msg
        then if id == 0 then env.first_message st' else (true, st')
        else (false, st') in
      (r.0, record (r.1) { rx = erase_msg id r.1.rx })

  unfoldable pub inbound_frame_complete : ℕ → FrameState → Outcome (Bool × FrameState)
  inbound_frame_complete id st = elim (find_msg id st.rx) [
    | none ↦ undefined
    | some rxmsg ↦ reassemble rxmsg >>= λ r. elim r [
      | none ↦ value (false, record st { rx = erase_msg id st.rx })
      | some msg ↦
          if eq (env.shorthash msg) rxmsg.info.hash
          then value (deliver id msg st)
          else value (false, st)
    ]
  ]

  -- The message of an XMIT frame is taken unless one with its number is being received.
  unfoldable pub take_xmit : Xmit → List ℕ → FrameState → Outcome (Bool × FrameState)
  take_xmit x last st = elim (find_msg x.msgid st.rx) [
    | some _ ↦ value (false, st)
    | none ↦
        let st' =
          push_ackfor x.msgid 0
            (record st { rx = (x.msgid, put_lastfrag last (inbound x)) ∷ st.rx }) in
        if x.numfrags == 0 then inbound_frame_complete x.msgid st' else value (true, st')
  ]

  -- `sz - bufsz` is a `size_t`, which wraps for a frame shorter than the 48 bytes of the xmit header.
  unfoldable pub got_xmit : Mem → ℕ → ℕ → FrameState → Outcome (Bool × FrameState)
  got_xmit m p sz st =
      let x = xmit_at m (p + 6) in
      if ltb sz (hdr_size m p)
      then value (false, st)
      else if ltb ((hdr_size m p + 2 ^ 64 - 48) % 2 ^ 64) x.lastsize
      then value (false, st)
      else if x.flags % 2 == 1
      then take_xmit x (load_all m (p + 54) x.lastsize) st
      else value (false, st)

  -- A fragment was stored: acknowledge, and complete the message.
  unfoldable pub after_frag : ℕ → Transit → FrameState → Outcome (Bool × FrameState)
  after_frag id t st =
      let acked = push_ackfor id (get_bitmask t) st in
      completed t >>= λ done.
      if done
      then inbound_frame_complete id acked
      else if should_send_ack t
      then value (true, acked)
      else value (true, st)

  unfoldable pub take_frag : ℕ → ℕ → List ℕ → Transit → FrameState → Outcome (Bool × FrameState)
  take_frag id fragno bytes t st = put_frag fragno bytes t >>= λ r.
      if r.0 then after_frag id r.1 (record st { rx = set_msg id r.1 st.rx }) else value (false, st)

  unfoldable pub got_frag : Mem → ℕ → ℕ → FrameState → Outcome (Bool × FrameState)
  got_frag m p sz st =
      let size = hdr_size m p in
      let msgid = word_at 8 m (p + 6) in
      if ltb sz size
      then value (false, st)
      else if leb size 9
      then value (false, st)
      else elim (find_msg msgid st.rx) [
        | none ↦ value (true, st)
        | some t ↦
            if not (t.info.fragsize == size - 9)
            then value (false, st)
            else take_frag msgid (m (p + 14)) (load_all m (p + 15) t.info.fragsize) t st
      ]

  -- A mask was acknowledged: the message is done, or its other fragments are sent again.
  unfoldable pub take_acks : ℕ → ℕ → Transit → FrameState → Outcome (Bool × FrameState)
  take_acks id bitmask t st =
      let t' = ack bitmask t in
      completed t' >>= λ done.
      if done
      then value (true, record st { tx = erase_msg id st.tx })
      else (retransmit_frags t' st.txflags (record st { tx = set_msg id t' st.tx }) >>= λ st'.
          value (true, st'))

  unfoldable pub got_acks : Mem → ℕ → ℕ → FrameState → Outcome (Bool × FrameState)
  got_acks m p sz st =
      let size = hdr_size m p in
      let msgid = word_at 8 m (p + 6) in
      if ltb sz size
      then value (false, st)
      else if ltb size 12
      then value (false, st)
      else elim (find_msg msgid st.tx) [
        | none ↦ value (true, st)
        | some t ↦ take_acks msgid (word_at 4 m (p + 14)) t st
      ]

  -- The switch of `process`.
  unfoldable pub dispatch : ℕ → Mem → ℕ → ℕ → FrameState → Outcome (Bool × FrameState)
  dispatch t m p sz st =
      if t == alive_type
      then value
          (true, if st.rxflags % 2 == 1 then record st { txflags = bit_or st.txflags 1 } else st)
      else if t == xmit_type
      then got_xmit m p sz st
      else if t == acks_type
      then got_acks m p sz st
      else if t == frag_type
      then got_frag m p sz st
      else value (false, st)

  -- `sz - 6` is a `size_t` too.
  unfoldable pub process : Mem → ℕ → ℕ → FrameState → Outcome (Bool × FrameState)
  process m p sz st =
      let st' =
        if hdr_flags m p % 2 == 1 then record st { rxflags = bit_or st.rxflags 1 } else st in
      dispatch (hdr_type m p) m p ((sz + 2 ^ 64 - 6) % 2 ^ 64) st'
