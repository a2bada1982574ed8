-- ===== src/Iwp/FrameState/Frames.antt =====
-- The frames that one side of a session builds, as the other side takes them.
use uplexa_network.Prelude.{
  ℕ, ◌+◌, ◌%◌, ◌^◌, ◌≤◌, ◌<◌, ◌≡◌, sym, subst, ◌∙◌, List, ◌∷◌, ◌++◌, some, arith, length,
  length-append,
}
use uplexa_network.Buffer.{Mem, load_all, Holds}
use uplexa_network.Buffer.Memory.{load_all-Holds, Holds-split}
use uplexa_network.Iwp.Words.{word, word_at, length-word, word_at-word}
use uplexa_network.Iwp.Transit.{Xmit, value, Transit, xmit_bytes}
use uplexa_network.Iwp.FrameState.Header.{
  IsWireXmit, xmit_at-xmit_bytes, frame_parts, process_frame,
}
use uplexa_network.Iwp.FrameState.{
  FrameState, Session, init_sendbuf, xmit_at, hdr_size, xmit_type, acks_type, frag_type,
  generate_xmit, take_xmit, got_xmit, take_frag, got_frag, take_acks, got_acks, dispatch, process,
  find_msg,
}

length-xmit_bytes : (x : Xmit) → length x.hash ≡ 32 → length (xmit_bytes x) ≡ 48
unfolding xmit_bytes word
length-xmit_bytes x h = omega (arith, length-append {0} x.hash)

generate_xmit_lem :
    (t : Transit) (flags : ℕ) (frame : List ℕ)
    → generate_xmit t flags ≡ value frame
    → (length t.lastfrag + 48 < 2 ^ 16)
      × (frame
          ≡ init_sendbuf xmit_type (length t.lastfrag + 48) flags (xmit_bytes t.info ++ t.lastfrag))
unfolding generate_xmit
generate_xmit_lem t flags frame e = ground arith

module _ (env : Session) (st : FrameState) (m : Mem) (p flags : ℕ) (even : flags % 2 ≡ 0) where
  -- The XMIT frame that generate_xmit builds for a message, once it stands in memory, is taken by
  -- process for the message's header and last fragment, if the header's fields fit their widths,
  -- the header's lowest flag is set, it has the last fragment's size, and the frame's lowest flag
  -- is clear.
  pub process-generate_xmit :
      (t : Transit) (frame : List ℕ)
      → IsWireXmit t.info
      → t.info.flags % 2 ≡ 1
      → t.info.lastsize ≡ length t.lastfrag
      → generate_xmit t flags ≡ value frame
      → Holds m p frame
      → process env m p (length t.lastfrag + 48 + 6) st ≡ take_xmit env t.info t.lastfrag st
  unfolding dispatch got_xmit
  process-generate_xmit t frame w odd l e h =
      let (fits, f) = generate_xmit_lem t flags frame e in
      let body = xmit_bytes t.info ++ t.lastfrag in
      let h' = subst (Holds m p) f h in
      let (_, b, _, d) = frame_parts m p xmit_type (length t.lastfrag + 48) flags body fits h' in
      let (header, last) = Holds-split (xmit_bytes t.info) t.lastfrag m (p + 6) d in
      let at : xmit_at m (p + 6) ≡ t.info = xmit_at-xmit_bytes t.info m (p + 6) w header in
      let last' : Holds m (p + 54) t.lastfrag =
        subst (λ n. Holds m n t.lastfrag) (omega (arith, length-xmit_bytes t.info w.hash_fits))
          last in
      let last_at : load_all m (p + 54) t.info.lastsize ≡ t.lastfrag =
        subst (λ n. load_all m (p + 54) n ≡ t.lastfrag) (sym l)
          (load_all-Holds t.lastfrag m (p + 54) last') in
      process_frame m p xmit_type (length t.lastfrag + 48) flags body fits h' env st even
      ∙ rw (b, at, last_at) (ground arith)

  -- A FRAG frame with a fragment of one byte at least, its size a 16-bit word and its lowest flag
  -- clear, is taken by process for that fragment of the message, if the message is being received
  -- and its fragments have that size.
  pub process_frag :
      (id fragno : ℕ) (bytes : List ℕ) (t : Transit)
      → id < 2 ^ 64
      → 1 ≤ length bytes
      → length bytes + 9 < 2 ^ 16
      → Holds m p (init_sendbuf frag_type (length bytes + 9) flags (word 8 id ++ (fragno ∷ bytes)))
      → find_msg id st.rx ≡ some t
      → t.info.fragsize ≡ length bytes
      → process env m p (length bytes + 9 + 6) st ≡ take_frag env id fragno bytes t st
  unfolding dispatch got_frag
  process_frag id fragno bytes t i s l h there size =
      let body = word 8 id ++ (fragno ∷ bytes) in
      let (_, b, _, d) = frame_parts m p frag_type (length bytes + 9) flags body l h in
      let (ids, rest) = Holds-split (word 8 id) (fragno ∷ bytes) m (p + 6) d in
      let at : word_at 8 m (p + 6) ≡ id = word_at-word 8 id m (p + 6) i ids in
      let rest' : Holds m (p + 14) (fragno ∷ bytes) =
        subst (λ n. Holds m n (fragno ∷ bytes)) (omega (arith, length-word 8 id)) rest in
      let bytes' : Holds m (p + 15) bytes = subst (λ n. Holds m n bytes) (omega arith) rest'.1 in
      let no_at : m (p + 14) ≡ fragno = rest'.0 in
      let bytes_at : load_all m (p + 15) t.info.fragsize ≡ bytes =
        subst (λ n. load_all m (p + 15) n ≡ bytes) (sym size)
          (load_all-Holds bytes m (p + 15) bytes') in
      process_frame m p frag_type (length bytes + 9) flags body l h env st even
      ∙ rw (b, at) (ground arith)

  -- An ACKS frame with its lowest flag clear is taken by process for its 32-bit mask, if the
  -- message is still being sent.
  pub process_acks :
      (id mask : ℕ) (t : Transit)
      → id < 2 ^ 64
      → mask < 2 ^ 32
      → Holds m p (init_sendbuf acks_type 12 flags (word 8 id ++ word 4 mask))
      → find_msg id st.tx ≡ some t
      → process env m p 18 st ≡ take_acks env id mask t st
  unfolding dispatch got_acks
  process_acks id mask t i k h there =
      let (_, b, _, d) =
        frame_parts m p acks_type 12 flags (word 8 id ++ word 4 mask) (omega arith) h in
      let (ids, masks) = Holds-split (word 8 id) (word 4 mask) m (p + 6) d in
      let at : word_at 8 m (p + 6) ≡ id = word_at-word 8 id m (p + 6) i ids in
      let mask_at : word_at 4 m (p + 14) ≡ mask =
        word_at-word 4 mask m (p + 14) k
          (subst (λ n. Holds m n (word 4 mask)) (omega (arith, length-word 8 id)) masks) in
      process_frame m p acks_type 12 flags (word 8 id ++ word 4 mask) (omega arith) h env st even
      ∙ rw (b, at) (ground arith)

  -- An XMIT frame shorter than the 48 bytes of its header is not refused: the difference of the sizes
  -- wraps, and the header is read from whatever stands behind the frame.
  got_xmit_short :
      (sz : ℕ)
      → hdr_size m p < 48
      → hdr_size m p ≤ sz
      → (xmit_at m (p + 6)).lastsize < 2 ^ 16
      → (xmit_at m (p + 6)).flags % 2 ≡ 1
      → got_xmit env m p sz st
        ≡ take_xmit env (xmit_at m (p + 6)) (load_all m (p + 54) (xmit_at m (p + 6)).lastsize) st
  unfolding got_xmit
  got_xmit_short sz h k l odd = ground arith
