-- ===== src/Iwp/Reassembly.antt =====
-- A message is put together again from its fragments, whatever order they came in.
use uplexa_network.Prelude.{
  ℕ, zero, suc, ◌+◌, ◌%◌, ◌^◌, ◌≤◌, ◌<◌, ◌≡◌, refl, true, false, List, [], ◌∷◌, ◌++◌, some, ltb,
  ltb→lt, subst, ◌==◌, if◌then◌else◌, length, take, drop, get_elem?, concat, arith, append_assoc,
  take-append-drop, length-drop, ap, ◌∙◌, sym, Bool-cases, inl, inr,
}
use native.Mathlib.Nat.{zero-add}
use uplexa_network.Iwp.Transit.{
  Fragments, find_frag, set_frag, Transit, no_status, put_loop, put_message,
}

pub find_frag-set_frag :
    (i j : ℕ) (f : List ℕ) (fs : Fragments)
    → find_frag j (set_frag i f fs) ≡ (if i == j then some f else find_frag j fs)
unfolding find_frag set_frag
find_frag-set_frag i j f [] = refl
find_frag-set_frag i j f ((k, g) ∷ fs) = ground (arith, find_frag-set_frag i j f fs)

-- The full fragments of a text, in order, and what is behind them.
unfoldable pub cut : ℕ → ℕ → List ℕ → List (List ℕ)
cut zero mtu bytes = []
cut (suc fuel) mtu bytes =
    let next = cut fuel mtu (drop mtu bytes) in
    if ltb mtu (length bytes) then take mtu bytes ∷ next else []

unfoldable pub behind : ℕ → ℕ → List ℕ → List ℕ
behind zero mtu bytes = bytes
behind (suc fuel) mtu bytes =
    let next = behind fuel mtu (drop mtu bytes) in if ltb mtu (length bytes) then next else bytes

pub concat-cut :
    (fuel mtu : ℕ) (bytes : List ℕ) → concat (cut fuel mtu bytes) ++ behind fuel mtu bytes ≡ bytes
unfolding cut behind
concat-cut zero mtu bytes = refl
concat-cut (suc fuel) mtu bytes = ground (
  arith,
  concat-cut fuel mtu (drop mtu bytes),
  take-append-drop mtu bytes,
  append_assoc (take mtu bytes) (concat (cut fuel mtu (drop mtu bytes)))
      (behind fuel mtu (drop mtu bytes)),
)

-- The fragments with numbers from `i` on.
abbrev pub Numbered : ℕ → List (List ℕ) → Fragments → Type 0
Numbered i cs fs = (k : ℕ) → k < length cs → find_frag (i + k) fs ≡ get_elem? cs k

-- A fragment behind the first, seen from the number after.
cons-Numbered :
    (i : ℕ) (c : List ℕ) (cs : List (List ℕ)) (fs : Fragments)
    → find_frag i fs ≡ some c
    → Numbered (i + 1) cs fs
    → Numbered i (c ∷ cs) fs
cons-Numbered i c cs fs e n zero h = ground arith
cons-Numbered i c cs fs e n (suc k) h = ground (arith, n k (omega arith))

-- What the loop of put_message leaves, while the numbers fit a byte.
PutLoop : ℕ → ℕ → Fragments → ℕ → List ℕ → Type 0
PutLoop fuel mtu fs i bytes =
    (fs' : Fragments) × (put_loop fuel mtu fs i bytes
      ≡ some (fs', i + length (cut fuel mtu bytes), behind fuel mtu bytes))
    × Numbered i (cut fuel mtu bytes) fs'
    × ((k : ℕ) → k < i → find_frag k fs' ≡ find_frag k fs)

module _ (fuel mtu : ℕ) (fs : Fragments) (i : ℕ) (bytes : List ℕ) where
  PutLoop-stop : ltb mtu (length bytes) ≡ false → PutLoop (suc fuel) mtu fs i bytes
  unfolding PutLoop put_loop cut behind
  PutLoop-stop e = (fs, ground arith, λ k h. absurd (ground arith), λ k _. refl)

  cut_more :
      ltb mtu (length bytes) ≡ true
      → cut (suc fuel) mtu bytes ≡ take mtu bytes ∷ cut fuel mtu (drop mtu bytes)
  unfolding cut
  cut_more e = ground arith

  PutLoop-more :
      i + 1 < 256
      → ltb mtu (length bytes) ≡ true
      → PutLoop fuel mtu (set_frag i (take mtu bytes) fs) (i + 1) (drop mtu bytes)
      → PutLoop (suc fuel) mtu fs i bytes
  unfolding PutLoop
  PutLoop-more h e (fs', p, n, k) = (
    fs',
    unfold put_loop cut behind in ground arith,
    subst (λ (cs : List (List ℕ)). Numbered i cs fs') (sym (cut_more e))
        (cons-Numbered i (take mtu bytes) (cut fuel mtu (drop mtu bytes)) fs'
          (k i (omega arith) ∙ rw find_frag-set_frag (ground arith)) n),
    λ j l. k j (omega arith) ∙ rw find_frag-set_frag (ground arith),
  )

put_loop_lem :
    (fuel mtu : ℕ) (fs : Fragments) (i : ℕ) (bytes : List ℕ)
    → 1 ≤ mtu
    → length bytes < fuel
    → i + length (cut fuel mtu bytes) < 256
    → PutLoop fuel mtu fs i bytes
put_loop_lem zero mtu fs i bytes m f h = absurd (omega arith)
put_loop_lem (suc fuel) mtu fs i bytes m f h = elim (Bool-cases (ltb mtu (length bytes))) [
  | inr e ↦ PutLoop-stop fuel mtu fs i bytes e
  | inl e ↦
      let n : i + 1 + length (cut fuel mtu (drop mtu bytes)) < 256 = unfold cut in ground arith in
      PutLoop-more fuel mtu fs i bytes (omega arith) e (
        put_loop_lem fuel mtu (set_frag i (take mtu bytes) fs) (i + 1) (drop mtu bytes) m
          (omega (arith, length-drop mtu bytes, ltb→lt mtu (length bytes) e)) n)
]

pub length-behind :
    (fuel mtu : ℕ) (bytes : List ℕ)
    → 1 ≤ mtu
    → length bytes < fuel
    → length (behind fuel mtu bytes) ≤ mtu
unfolding behind
length-behind zero mtu bytes m h = absurd (omega arith)
length-behind (suc fuel) mtu bytes m h =
    ground (arith, length-behind fuel mtu (drop mtu bytes), length-drop mtu bytes)

take-all : (xs : List ℕ) → take (length xs) xs ≡ xs
take-all [] = refl
take-all (x ∷ xs) = ap (◌∷◌ x) (take-all xs)

some_inj : (s t : Transit) → some s ≡ some t → s ≡ t
some_inj s t e = cc

-- The full fragments of a message, and its last one.
abbrev pub fragments : ℕ → List ℕ → List (List ℕ)
fragments mtu bytes = cut (suc (length bytes)) mtu bytes

abbrev pub last_fragment : ℕ → List ℕ → List ℕ
last_fragment mtu bytes = behind (suc (length bytes)) mtu bytes

-- What the sender keeps of a message.
pub record Sent (bytes hash : List ℕ) (id mtu : ℕ) (t : Transit) : Type 0 where
  pub numfrags_same : t.info.numfrags ≡ length (fragments mtu bytes)
  pub fragsize_same : t.info.fragsize ≡ mtu
  pub hash_same : t.info.hash ≡ hash
  pub msgid_same : t.info.msgid ≡ id
  pub lastsize_same : t.info.lastsize ≡ length t.lastfrag
  pub lastfrag_same : t.lastfrag ≡ last_fragment mtu bytes
  pub frags_same :
      (k : ℕ)
      → k < length (fragments mtu bytes)
      → find_frag k t.frags ≡ get_elem? (fragments mtu bytes) k

module _ (bytes hash : List ℕ) (id mtu : ℕ) (m : 1 ≤ mtu) (w : mtu < 2 ^ 16)
    (h : length (fragments mtu bytes) < 256) where
  -- put_message takes every message that makes at most 255 full fragments of a size from 1 to 2 ^
  -- 16 - 1, and keeps its fragments in order, what is behind them, its hash, its number and its
  -- sizes.
  pub put_message_total :
      (t : Transit) × (put_message bytes hash id mtu ≡ some t) × Sent bytes hash id mtu t
  unfolding put_message PutLoop
  put_message_total =
      let (fs, e, n, _) =
        put_loop_lem (suc (length bytes)) mtu [] 0 bytes m (omega arith) (omega arith) in
      let l : length (last_fragment mtu bytes) % 2 ^ 16 ≡ length (last_fragment mtu bytes) =
        omega (arith, length-behind (suc (length bytes)) mtu bytes m) in
      (
        record {
          info = record {
            hash = hash;
            msgid = id;
            fragsize = mtu;
            lastsize = length (last_fragment mtu bytes);
            numfrags = 0 + length (fragments mtu bytes);
            flags = 1;
          };
          status = no_status;
          frags = fs;
          lastfrag = last_fragment mtu bytes;
        },
        ground (arith, e, l, take-all (last_fragment mtu bytes)),
        record {
          numfrags_same = omega arith;
          fragsize_same = refl;
          hash_same = refl;
          msgid_same = refl;
          lastsize_same = refl;
          lastfrag_same = refl;
          frags_same = λ k lt. rw zero-add at (n k lt);
        },
      )

  pub put_message-Sent :
      (t : Transit) → put_message bytes hash id mtu ≡ some t → Sent bytes hash id mtu t
  put_message-Sent t e =
      let (s, e', sent) = put_message_total in
      subst (Sent bytes hash id mtu) (some_inj s t (sym e' ∙ e)) sent
