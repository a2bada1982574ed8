-- ===== src/Iwp/FrameState/Header.antt =====
-- A frame that one side builds is taken by the other side as what it is.
use uplexa_network.Prelude.{
  ℕ, suc, ◌+◌, ◌-◌, ◌%◌, ◌^◌, ◌<◌, ◌≡◌, subst, ◌∙◌, List, [], ◌∷◌, arith, length,
}
use uplexa_network.Buffer.{Mem, load_all, Holds}
use uplexa_network.Buffer.Memory.{load_all-Holds, Holds-split}
use uplexa_network.Iwp.Words.{word, length-word, word_at-word}
use uplexa_network.Iwp.Transit.{Xmit, xmit_bytes}
use uplexa_network.Iwp.FrameState.{
  FrameState, Session, init_sendbuf, xmit_at, hdr_size, dispatch, process,
}

-- The fields of an xmit header that fit their widths.
pub record IsWireXmit (x : Xmit) : Type 0 where
  pub hash_fits : length x.hash ≡ 32
  pub msgid_fits : x.msgid < 2 ^ 64
  pub fragsize_fits : x.fragsize < 2 ^ 16
  pub lastsize_fits : x.lastsize < 2 ^ 16
  pub numfrags_fits : x.numfrags < 256
  pub flags_fits : x.flags < 256

abbrev counts : Xmit → List ℕ
counts x = 0 ∷ 0 ∷ (x.numfrags % 256) ∷ (x.flags % 256) ∷ []

xmit_eq :
    (x y : Xmit)
    → x.hash ≡ y.hash
    → x.msgid ≡ y.msgid
    → x.fragsize ≡ y.fragsize
    → x.lastsize ≡ y.lastsize
    → x.numfrags ≡ y.numfrags
    → x.flags ≡ y.flags
    → x ≡ y
xmit_eq x y h m f l n g = ground arith

-- The 48 bytes of an xmit header are read back to its fields.
pub xmit_at-xmit_bytes :
    (x : Xmit) (m : Mem) (a : ℕ) → IsWireXmit x → Holds m a (xmit_bytes x) → xmit_at m a ≡ x
unfolding xmit_bytes xmit_at
xmit_at-xmit_bytes x m a w h =
    let (p0, q0) = Holds-split x.hash _ m a h in
    let (p1, q1) = Holds-split (word 8 x.msgid) _ m (a + length x.hash) q0 in
    let (p2, q2) =
      Holds-split (word 2 x.fragsize) _ m (a + length x.hash + length (word 8 x.msgid)) q1 in
    let (p3, q3) =
      Holds-split (word 2 x.lastsize) (counts x) m
        (a + length x.hash + length (word 8 x.msgid) + length (word 2 x.fragsize)) q2 in
    let l8 = length-word 8 x.msgid in
    let l2 = length-word 2 x.fragsize in
    let l2' = length-word 2 x.lastsize in
    xmit_eq (xmit_at m a) x
      (subst (λ n. load_all m a n ≡ x.hash) w.hash_fits (load_all-Holds x.hash m a p0))
      (word_at-word 8 x.msgid m (a + 32) w.msgid_fits
        (subst (λ n. Holds m n (word 8 x.msgid)) (omega (arith, w.hash_fits)) p1))
      (word_at-word 2 x.fragsize m (a + 40) w.fragsize_fits
        (subst (λ n. Holds m n (word 2 x.fragsize)) (omega (arith, w.hash_fits)) p2))
      (word_at-word 2 x.lastsize m (a + 42) w.lastsize_fits
        (subst (λ n. Holds m n (word 2 x.lastsize)) (omega (arith, w.hash_fits)) p3))
      (let q : Holds m (a + 44) (counts x) =
          subst (λ n. Holds m n (counts x)) (omega (arith, w.hash_fits)) q3 in
        subst (λ n. m n ≡ x.numfrags) (omega arith) (q.1.1.0 ∙ omega (arith, w.numfrags_fits)))
      (let q : Holds m (a + 44) (counts x) =
          subst (λ n. Holds m n (counts x)) (omega (arith, w.hash_fits)) q3 in
        subst (λ n. m n ≡ x.flags) (omega arith) (q.1.1.1.0 ∙ omega (arith, w.flags_fits)))

-- A frame with this header and body stands at the address.
module _ (m : Mem) (p t sz flags : ℕ) (body : List ℕ) (fits : sz < 2 ^ 16)
    (there : Holds m p (init_sendbuf t sz flags body)) where
  pub frame_parts :
      (m (p + 1) ≡ t) × (hdr_size m p ≡ sz) × (m (p + 5) ≡ flags) × Holds m (p + 6) body
  unfolding init_sendbuf
  frame_parts =
      let (size, rest) = Holds-split (word 2 sz) (0 ∷ flags ∷ body) m (suc (suc p)) there.1.1 in
      let rest' : Holds m (suc (suc p) + 2) (0 ∷ flags ∷ body) =
        subst (λ n. Holds m (suc (suc p) + n) (0 ∷ flags ∷ body)) (length-word 2 sz) rest in
      (
        subst (λ n. m n ≡ t) (omega arith) there.1.0,
        word_at-word 2 sz m (p + 2) fits (subst (λ n. Holds m n (word 2 sz)) (omega arith) size),
        subst (λ n. m n ≡ flags) (omega arith) rest'.1.0,
        subst (λ n. Holds m n body) (omega arith) rest'.1.1,
      )

  -- `process` reads its header as it was written.
  pub process_frame :
      (env : Session) (st : FrameState)
      → flags % 2 ≡ 0
      → process env m p (sz + 6) st ≡ dispatch env t m p sz st
  unfolding process
  process_frame env st even =
      let (a, b, c, d) = frame_parts in
      let left : (sz + 6 + 2 ^ 64 - 6) % 2 ^ 64 ≡ sz = omega arith in rw (a, c, even, left)
