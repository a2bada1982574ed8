-- ===== src/Iwp/Session/Intro.antt =====
-- EncodeLIM of udap/link/encoder.hpp, and what send_LIM of udap/iwp_link.cpp does with its bytes.
use uplexa_network.Prelude.{
  ℕ, zero, suc, ◌+◌, ◌*◌, ◌%◌, ◌^◌, ◌≤◌, ◌<◌, ◌≡◌, refl, subst, ap, ◌∙◌, List, [], ◌∷◌, ◌++◌,
  Option, none, some, length, append_assoc, append-nil, drop, length-drop, arith, ltb, ltb→lt,
  Bool-cases, inl, inr,
}
use uplexa_network.Buffer.Memory.{Mem, load_all, load_all-Holds}
use uplexa_network.Buffer.{Io, return, ◌>>◌}
use uplexa_network.Buffer.Write.{Appends, Appends-seq}
use uplexa_network.Bencode.{start_dict, end, write_bytestring, write_version_entry}
use uplexa_network.Bencode.Wire.{int_text, start_dict-Appends, end-Appends}
use uplexa_network.Bencode.Fields.{write_key-Appends, write_version-Appends}
use uplexa_network.Bencode.Dict.{key_text}
use uplexa_network.Contact.{Inet}
use uplexa_network.Contact.Router.{RouterContact, max_rc_size, if_encoded, encode_contact}
use uplexa_network.Contact.Router.Trip.{IsWritable, contact_text, encode_contact-Appends}
use uplexa_network.Iwp.Transit.{Transit, value, put_message, xmit_bytes}
use uplexa_network.Iwp.FrameState.{
  FrameState, init_sendbuf, xmit_type, generate_xmit, find_msg, push_frame, queue_tx,
}
use uplexa_network.Iwp.Crypto.{Transport}
use uplexa_network.Iwp.FrameState.Queue.{pop_next_frame}
use uplexa_network.Iwp.Session.{
  pump_frames, Session, lim_sent, default_mtu, enter, add_outbound_message, queue_lim, send_lim,
}
use uplexa_network.Iwp.Reassembly.{cut, length-behind, Sent, put_message_total}

module _ (inet : Inet) where
  -- EncodeLIM.
  unfoldable pub encode_lim : Option RouterContact → Io (Unit {0})
  encode_lim router = do
    start_dict
    write_bytestring (b'a' ∷ [])
    write_bytestring (b'i' ∷ [])
    elim router [
      | none ↦ return tt
      | some rc ↦ write_bytestring (b'r' ∷ []) >> encode_contact inet rc
    ]
    write_version_entry
    end

  -- The part of send_LIM that fills its array `tmp` of MAX_RC_SIZE + 64 bytes.
  unfoldable pub lim_bytes : RouterContact → Mem → Option (List ℕ)
  lim_bytes rc tmp =
      if_encoded some none
        (encode_lim (some rc) (record { mem = tmp; base = 0; cur = 0; sz = max_rc_size + 64 }))

  -- The text of the message.
  abbrev pub lim_text : RouterContact → List ℕ
  lim_text rc =
      b'd'
      ∷ (key_text b'a'
          ++ (key_text b'i'
              ++ (key_text b'r'
                  ++ (contact_text inet rc ++ (key_text b'v' ++ (int_text 0 ++ (b'e' ∷ [])))))))

  encode_lim-Appends :
      (rc : RouterContact) → IsWritable inet rc → Appends (encode_lim (some rc)) (lim_text rc)
  unfolding encode_lim
  encode_lim-Appends rc good =
      subst (Appends (encode_lim (some rc))) (simp (append_assoc, append-nil)) (
        Appends-seq start_dict-Appends (
          Appends-seq (write_key-Appends b'a') (
            Appends-seq (write_key-Appends b'i') (
              Appends-seq
                (Appends-seq (write_key-Appends b'r') (encode_contact-Appends inet rc good))
                (Appends-seq write_version-Appends end-Appends)))))

  -- Where the contact can be written and the message has room, it is encoded.
  pub lim_bytes_lem :
      (rc : RouterContact) (tmp : Mem)
      → IsWritable inet rc
      → length (lim_text rc) < max_rc_size + 64
      → lim_bytes rc tmp ≡ some (lim_text rc)
  unfolding lim_bytes if_encoded
  lim_bytes_lem rc tmp good size =
      let (c, e, x) =
        encode_lim-Appends rc good (record { mem = tmp; base = 0; cur = 0; sz = max_rc_size + 64 })
          (record { ordered = omega arith; inside = omega arith }) (omega arith) in
      let bytes = load_all-Holds (lim_text rc) c.mem 0 x.holds in
      ap (if_encoded some none) e
      ∙ ap some (subst (λ n. load_all c.mem 0 n ≡ lim_text rc) (omega (arith, x.moved)) bytes)

cut_size : (fuel : ℕ) (bytes : List ℕ) → 1024 * length (cut fuel 1024 bytes) ≤ length bytes
unfolding cut
cut_size zero bytes = omega arith
cut_size (suc fuel) bytes = elim (Bool-cases (ltb 1024 (length bytes))) [
  | inl e ↦
      let long = ltb→lt 1024 (length bytes) e in
      let rest = cut_size fuel (drop 1024 bytes) in
      rw e (omega (arith, rest, long, length-drop 1024 bytes))
  | inr e ↦ rw e (omega arith)
]

-- The first lookup of the table of messages.
find_msg-head : (i : ℕ) (t : Transit) (ms : List (ℕ × Transit)) → find_msg i ((i, t) ∷ ms) ≡ some t
unfolding find_msg
find_msg-head i t ms = ground arith

-- Every queued frame is handed on, in order.
pump_frames_lem :
    (q : List (List ℕ)) (s : Session) (fs : FrameState) (out : List (List ℕ))
    → pump_frames q (record s { outgoing = out; frames = record fs { sendqueue = q } })
      ≡ record s { outgoing = out ++ q; frames = record fs { sendqueue = [] } }
unfolding pump_frames pop_next_frame
pump_frames_lem [] s fs out = rw append-nil refl
pump_frames_lem (frame ∷ rest) s fs out =
    pump_frames_lem rest s fs (out ++ (frame ∷ []))
    ∙ ap (λ o. record s { outgoing = o; frames = record fs { sendqueue = [] } })
        (append_assoc out (frame ∷ []) rest)

-- A message is queued: cut into fragments, kept under its number, and its XMIT frame handed on
-- behind the frames that were queued, so that no frame is left in the queue.
pub record IsQueued (t : Transport) (bytes : List ℕ) (s s' : Session) : Type 0 where
  pub message : Transit
  pub frame : List ℕ
  pub cut_up : put_message bytes (t.shorthash bytes) s.txids default_mtu ≡ some message
  pub fragmented : Sent bytes (t.shorthash bytes) s.txids default_mtu message
  pub kept : find_msg s.txids s'.frames.tx ≡ some message
  pub framed : generate_xmit message s.frames.txflags ≡ value frame
  pub sent : s'.outgoing ≡ s.outgoing ++ (s.frames.sendqueue ++ (frame ∷ []))
  pub none_left : s'.frames.sendqueue ≡ []
  pub counted : s'.txids ≡ (s.txids + 1) % 2 ^ 64

module _ (t : Transport) (bytes : List ℕ) (s : Session) (size : length bytes < 2 ^ 16)
    (free : find_msg s.txids s.frames.tx ≡ none) where
  abbrev queued : Transit → List ℕ → Session
  queued m frame = record s {
    txids = (s.txids + 1) % 2 ^ 64;
    outgoing = s.outgoing ++ (s.frames.sendqueue ++ (frame ∷ []));
    frames = record (s.frames) { sendqueue = []; tx = (s.txids, m) ∷ s.frames.tx };
  }

  xmit_made :
      (m : Transit)
      → length m.lastfrag ≤ 1024
      → (frame : List ℕ) × (generate_xmit m s.frames.txflags ≡ value frame)
  unfolding generate_xmit
  xmit_made m h = (
    init_sendbuf xmit_type (length m.lastfrag + 48) s.frames.txflags
        (xmit_bytes m.info ++ m.lastfrag),
    ground arith,
  )

  queue_lim_lem :
      (m : Transit) (frame : List ℕ)
      → generate_xmit m s.frames.txflags ≡ value frame
      → queue_lim t (some m) s ≡ value (enter lim_sent (queued m frame))
  unfolding queue_lim add_outbound_message queue_tx push_frame
  queue_lim_lem m frame made =
      let fs = record (s.frames) { tx = (s.txids, m) ∷ s.frames.tx } in
      rw made (
        rw free (
          ap (λ s'. value (enter lim_sent s'))
            (pump_frames_lem (s.frames.sendqueue ++ (frame ∷ []))
              (record s { txids = (s.txids + 1) % 2 ^ 64 }) fs s.outgoing)))

  -- The message that send_LIM sends is queued, and the session waits for the answer.
  pub send_lim_lem :
      (s' : Session) × (send_lim t (some bytes) s ≡ value s')
      × (s' ≡ record s {
        state = lim_sent;
        frames = s'.frames;
        txids = s'.txids;
        outgoing = s'.outgoing;
      })
      × IsQueued t bytes s s'
  unfolding send_lim
  send_lim_lem =
      let few = cut_size (suc (length bytes)) bytes in
      let (m, e, x) =
        put_message_total bytes (t.shorthash bytes) s.txids 1024 (omega arith) (omega arith)
          (omega (arith, few)) in
      let short : length m.lastfrag ≤ 1024 =
        rw x.lastfrag_same
          (length-behind (suc (length bytes)) 1024 bytes (omega arith) (omega arith)) in
      let (frame, made) = xmit_made m short in
      (
        enter lim_sent (queued m frame),
        ap (λ o. queue_lim t o s) e ∙ queue_lim_lem m frame made,
        refl,
        record {
          message = m;
          frame = frame;
          cut_up = e;
          fragmented = x;
          kept = find_msg-head s.txids m s.frames.tx;
          framed = made;
          sent = refl;
          none_left = refl;
          counted = refl;
        },
      )
