-- ===== src/Iwp/Receive.antt =====
-- The receiver's side of udap/iwp_link.cpp: fragments arrive in any order, some again, some never.
use uplexa_network.Prelude.{
  Bool, false, ℕ, zero, suc, ◌+◌, ◌^◌, ◌≤◌, ◌<◌, ◌≡◌, refl, true, List, [], ◌∷◌, ◌++◌, some, ◌==◌,
  length, replicate, get_elem?, concat, arith, append_assoc, All, ap, ◌∙◌, sym, Bool-cases, inl,
  inr, ◌⊎◌, subst,
}
use native.Mathlib.Nat.{add-zero, zero-add}
use uplexa_network.Iwp.Transit.{
  Outcome, value, ◌>>=◌, find_frag, set_frag, Transit, test, set_bit, with_bit, completed_from,
  completed, put_message, room_from, inbound, put_lastfrag, put_frag, reassemble_from, reassemble,
}
use uplexa_network.Iwp.Reassembly.{
  find_frag-set_frag, fragments, last_fragment, put_message-Sent, Sent, concat-cut,
}

-- A receiver of a message: every fragment that it has is the sender's, and it has room for all.
pub record Receives (cs : List (List ℕ)) (last : List ℕ) (t : Transit) : Type 0 where
  pub number : t.info.numfrags ≡ length cs
  pub last_same : t.lastfrag ≡ last
  pub room : (i : ℕ) → i < length cs → (f : List ℕ) × (find_frag i t.frags ≡ some f)
  pub same : (i : ℕ) → i < 32 → t.status i ≡ true → find_frag i t.frags ≡ get_elem? cs i

-- A FRAG frame of this message.
abbrev pub IsFrag : List (List ℕ) → ℕ × List ℕ → Type 0
IsFrag cs p = (p.0 < 32) × (get_elem? cs p.0 ≡ some p.1)

unfoldable pub put_frags : List (ℕ × List ℕ) → Transit → Outcome Transit
put_frags [] t = value t
put_frags ((i, f) ∷ fs) t = put_frag i f t >>= λ r. put_frags fs r.1

-- The fragment is among those that arrive.
abbrev pub Arrives : ℕ → List (ℕ × List ℕ) → Type 0
Arrives k [] = ⊥
Arrives k ((i, f) ∷ fs) = (i ≡ k) ⊎ Arrives k fs

get_elem?-lt {ℓ} :
    {A : Type ℓ} (xs : List A) (i : ℕ) {a : A} → get_elem? xs i ≡ some a → i < length xs
get_elem?-lt [] i e = cc
get_elem?-lt (x ∷ xs) zero e = omega arith
get_elem?-lt (x ∷ xs) (suc i) e = omega (arith, get_elem?-lt xs i e)

module _ (cs : List (List ℕ)) (last : List ℕ) where
  after_put : ℕ → List ℕ → Transit → Transit
  after_put i f t = record t { frags = set_frag i f t.frags; status = with_bit t.status i }

  put_frag_step :
      (i : ℕ) (f : List ℕ) (t : Transit)
      → Receives cs last t
      → IsFrag cs (i, f)
      → put_frag i f t ≡ value (true, after_put i f t)
  unfolding put_frag set_bit after_put
  put_frag_step i f t r (small, e) = let (g, there) = r.room i (get_elem?-lt cs i e) in ground arith

  after_put-Receives :
      (i : ℕ) (f : List ℕ) (t : Transit)
      → Receives cs last t
      → IsFrag cs (i, f)
      → Receives cs last (after_put i f t)
  unfolding after_put
  after_put-Receives i f t r (small, e) = record {
    number = r.number;
    last_same = r.last_same;
    room = λ j l. elim (Bool-cases (i == j)) [
      | inl h ↦ (f, rw find_frag-set_frag (rw h refl))
      | inr h ↦ let (g, there) = r.room j l in (g, rw find_frag-set_frag (rw h there))
    ];
    same = λ j l h. rw find_frag-set_frag (ground (arith, r.same j l));
  }

  -- Taking fragments of the message never throws, and keeps what the receiver has right; those that
  -- arrive are marked, and no mark is lost.
  put_frags_lem :
      (fs : List (ℕ × List ℕ)) (t : Transit)
      → Receives cs last t
      → All (IsFrag cs) fs
      → (t' : Transit) × (put_frags fs t ≡ value t')
        × Receives cs last t'
        × ((k : ℕ) → t.status k ≡ true → t'.status k ≡ true)
        × ((k : ℕ) → Arrives k fs → t'.status k ≡ true)
  unfolding put_frags
  put_frags_lem [] t r a = (t, refl, r, λ k h. h, λ k h. elim h [ ])
  put_frags_lem ((i, f) ∷ fs) t r a =
      let (t', e, r', keeps, marks) =
        put_frags_lem fs (after_put i f t) (after_put-Receives i f t r a.0) a.1 in
      (
        t',
        rw (put_frag_step i f t r a.0) e,
        r',
        λ k h. keeps k (unfold after_put in ground arith),
        λ k h. elim h [ inl p ↦ keeps k (unfold after_put in ground arith) | inr p ↦ marks k p ],
      )

  -- With every mark set the loop of `completed` answers true,
  completed_from-all :
      (t : Transit) (n i : ℕ)
      → i + n ≤ 32
      → ((k : ℕ) → i ≤ k → k < i + n → t.status k ≡ true)
      → completed_from t.status n i ≡ value true
  unfolding completed_from test
  completed_from-all t zero i h m = refl
  completed_from-all t (suc n) i h m = ground (
    arith,
    m i (omega arith) (omega arith),
    completed_from-all t n (suc i) (omega arith) (λ k p q. m k (omega arith) (omega arith)),
  )

  -- and where it answers true, `reassemble` gives the fragments in order.
  reassemble_from-concat :
      (t : Transit) (ds : List (List ℕ)) (i : ℕ)
      → Receives cs last t
      → i + length ds ≤ 32
      → ((k : ℕ) → get_elem? cs (i + k) ≡ get_elem? ds k)
      → completed_from t.status (length ds) i ≡ value true
      → reassemble_from t (length ds) i ≡ value (some (concat ds ++ last))
  unfolding completed_from reassemble_from test
  reassemble_from-concat t [] i r h m c = rw r.last_same
  reassemble_from-concat t (d ∷ ds) i r h m c =
      let first : get_elem? cs i ≡ some d = rw add-zero at (m 0) in
      let later : (k : ℕ) → get_elem? cs (suc i + k) ≡ get_elem? ds k =
        λ k. subst (λ n. get_elem? cs n ≡ get_elem? ds k) (omega arith) (m (suc k)) in
      ground (
        arith,
        first,
        r.same i,
        reassemble_from-concat t ds (suc i) r (omega arith) later,
        append_assoc d (concat ds) last,
      )

pub room_from-room :
    (size n i k : ℕ) → k < n → (f : List ℕ) × (find_frag (i + k) (room_from size n i) ≡ some f)
unfolding room_from find_frag
room_from-room size zero i k h = absurd (omega arith)
room_from-room size (suc n) i zero h = (replicate size 0, ground arith)
room_from-room size (suc n) i (suc k) h =
    let (f, e) = room_from-room size n (suc i) k (omega arith) in
    let e' : find_frag (i + suc k) (room_from size n (suc i)) ≡ some f =
      subst (λ x. find_frag x (room_from size n (suc i)) ≡ some f) (omega arith) e in
    (f, ground arith)

-- A fragment of what the sender keeps.
abbrev pub SentFrag : Transit → ℕ × List ℕ → Type 0
SentFrag t p = (p.0 < t.info.numfrags) × (find_frag p.0 t.frags ≡ some p.1)

fragments-IsFrag :
    (bytes hash : List ℕ) (id mtu : ℕ) (t : Transit)
    → Sent bytes hash id mtu t
    → length (fragments mtu bytes) ≤ 32
    → (arrivals : List (ℕ × List ℕ)) → All (SentFrag t) arrivals
    → All (IsFrag (fragments mtu bytes)) arrivals
fragments-IsFrag bytes hash id mtu t sent small [] a = tt
fragments-IsFrag bytes hash id mtu t sent small (p ∷ ps) a = (
  (
    omega (arith, a.0.0, sent.numfrags_same),
    sym (sent.frags_same p.0 (omega (arith, a.0.0, sent.numfrags_same))) ∙ a.0.1,
  ),
  fragments-IsFrag bytes hash id mtu t sent small ps a.1,
)

completed_from_total :
    (t : Transit) (n i : ℕ) → i + n ≤ 32 → (b : Bool) × (completed_from t.status n i ≡ value b)
unfolding completed_from test
completed_from_total t zero i h = (true, refl)
completed_from_total t (suc n) i h =
    let (b, e) = completed_from_total t n (suc i) (omega arith) in
    elim (Bool-cases (t.status i)) [ inl on ↦ (b, ground arith) | inr off ↦ (false, ground arith) ]

module _ (bytes hash : List ℕ) (id mtu : ℕ) (t : Transit) (arrivals : List (ℕ × List ℕ))
    (m : 1 ≤ mtu) (w : mtu < 2 ^ 16) (small : length (fragments mtu bytes) ≤ 32)
    (e : put_message bytes hash id mtu ≡ some t) (a : All (SentFrag t) arrivals) where
  -- The receiver behind the arrivals has what was sent.
  received :
      (r : Transit) × (put_frags arrivals (put_lastfrag t.lastfrag (inbound t.info)) ≡ value r)
      × Receives (fragments mtu bytes) (last_fragment mtu bytes) r
      × ((k : ℕ) → Arrives k arrivals → r.status k ≡ true)
  unfolding inbound put_lastfrag
  received =
      let sent = put_message-Sent bytes hash id mtu m w (omega arith) t e in
      let cs = fragments mtu bytes in
      let last = last_fragment mtu bytes in
      let start : Receives cs last (record (inbound t.info) { lastfrag = t.lastfrag }) = record {
        number = sent.numfrags_same;
        last_same = sent.lastfrag_same;
        room = λ i l. rw zero-add at (
            room_from-room t.info.fragsize t.info.numfrags 0 i (omega (arith, sent.numfrags_same)));
        same = λ i l x. absurd (cc x);
      } in
      let (r, e', r', _, marks) =
        put_frags_lem cs last arrivals _ start
          (fragments-IsFrag bytes hash id mtu t sent small arrivals a) in
      (r, e', r', marks)

  reassembled :
      (r : Transit)
      → Receives (fragments mtu bytes) (last_fragment mtu bytes) r
      → completed r ≡ value true
      → reassemble r ≡ value (some bytes)
  unfolding completed reassemble
  reassembled r r' c =
      let cs = fragments mtu bytes in
      subst (λ n. reassemble_from r n 0 ≡ value (some bytes)) (sym r'.number)
        (reassemble_from-concat cs (last_fragment mtu bytes) r cs 0 r' (omega arith)
            (λ k. rw zero-add refl)
            (subst (λ n. completed_from r.status n 0 ≡ value true) r'.number c)
          ∙ ap (λ (x : List ℕ). value (some x)) (concat-cut (suc (length bytes)) mtu bytes))

  -- A message that put_message cuts, with a fragment size from 1 to 2 ^ 16 - 1, into at most 32
  -- full fragments is received whole, in whatever order its fragments arrive and however often, if
  -- each arrives once at least and nothing else does: the receiver throws nothing, takes the
  -- message for complete, and puts together the bytes that were sent.
  pub reassemble-put_message :
      ((k : ℕ) → k < t.info.numfrags → Arrives k arrivals)
      → (r : Transit) × (put_frags arrivals (put_lastfrag t.lastfrag (inbound t.info)) ≡ value r)
        × (completed r ≡ value true)
        × (reassemble r ≡ value (some bytes))
  unfolding completed
  reassemble-put_message all =
      let (r, e', r', marks) = received in
      let sent = put_message-Sent bytes hash id mtu m w (omega arith) t e in
      let done =
        completed_from-all (fragments mtu bytes) (last_fragment mtu bytes) r r.info.numfrags 0
          (omega (arith, r'.number))
          (λ k _ l. marks k (all k (omega (arith, r'.number, sent.numfrags_same)))) in
      (r, e', done, reassembled r r' done)

  -- Whatever fragments arrive of a message that put_message cuts, with a fragment size from 1 to 2
  -- ^ 16 - 1, into at most 32 full ones, the receiver throws nothing, and either does not take the
  -- message for complete or puts together the bytes sent.
  pub reassemble_sound :
      (r : Transit) × (put_frags arrivals (put_lastfrag t.lastfrag (inbound t.info)) ≡ value r)
      × ((completed r ≡ value false)
          ⊎ (completed r ≡ value true) × (reassemble r ≡ value (some bytes)))
  unfolding completed
  reassemble_sound =
      let (r, e', r', _) = received in
      let (b, c) = completed_from_total r r.info.numfrags 0 (omega (arith, r'.number)) in
      (
        r,
        e',
        elim (Bool-cases b) [
          | inl whole ↦ let c' = rw whole at c in inr (c', reassembled r r' c')
          | inr part ↦ inl (rw part at c)
        ],
      )
