-- ===== src/Iwp/Transit.antt =====
-- xmit and transit_message of udap/iwp_link.cpp: a message in fragments, sent or received.
use uplexa_network.Prelude.{
  ℕ, zero, suc, ◌+◌, ◌*◌, ◌/◌, ◌%◌, ◌^◌, Bool, true, false, not, List, [], ◌∷◌, ◌++◌, Option, none,
  some, ltb, ◌==◌, if◌then◌else◌, length, take, drop, replicate,
}
use uplexa_network.Iwp.Words.{word}

-- The xmit header's fields. `numfrags` and `flags` are bytes, the sizes 16-bit words.
pub record Xmit : Type 0 where
  pub hash : List ℕ
  pub msgid : ℕ
  pub fragsize : ℕ
  pub lastsize : ℕ
  pub numfrags : ℕ
  pub flags : ℕ

-- xmit::set_info: the 48 bytes of the header.
unfoldable pub xmit_bytes : Xmit → List ℕ
xmit_bytes x =
    x.hash
    ++ (word 8 x.msgid
        ++ (word 2 x.fragsize
            ++ (word 2 x.lastsize ++ (0 ∷ 0 ∷ (x.numfrags % 256) ∷ (x.flags % 256) ∷ []))))

unfoldable totalsize : Xmit → ℕ
totalsize x = x.fragsize * x.numfrags + x.lastsize

-- What a call does: it returns, or `std::bitset` throws std::out_of_range, or it reads or writes
-- outside an object, which C++ leaves undefined.
pub data Outcome {ℓ} (A : Type ℓ) : Type ℓ where
  value : A → Outcome A
  out_of_range : Outcome A
  undefined : Outcome A

infixl 5 ◌>>=◌
abbrev pub ◌>>=◌ {ℓ κ} : {A : Type ℓ} {B : Type κ} → Outcome A → (A → Outcome B) → Outcome B
value a >>= f = f a
out_of_range >>= f = out_of_range
undefined >>= f = undefined

-- `std::unordered_map< byte_t, fragment_t >`, in some order.
abbrev pub Fragments : Type 0
Fragments = List (ℕ × List ℕ)

unfoldable pub find_frag : ℕ → Fragments → Option (List ℕ)
find_frag i [] = none
find_frag i ((j, f) ∷ fs) = let rest = find_frag i fs in if j == i then some f else rest

unfoldable pub set_frag : ℕ → List ℕ → Fragments → Fragments
set_frag i f [] = (i, f) ∷ []
set_frag i f ((j, g) ∷ fs) =
    let rest = set_frag i f fs in if j == i then (j, f) ∷ fs else (j, g) ∷ rest

-- `status` is a std::bitset of 32 bits.
pub record Transit : Type 0 where
  pub info : Xmit
  pub status : ℕ → Bool
  pub frags : Fragments
  pub lastfrag : List ℕ

abbrev pub no_status : ℕ → Bool
no_status i = false

-- `status.test(i)` and `status.set(i)`, which check their argument.
unfoldable pub test : (ℕ → Bool) → ℕ → Outcome Bool
test status i = if ltb i 32 then value (status i) else out_of_range

abbrev pub with_bit : (ℕ → Bool) → ℕ → ℕ → Bool
with_bit status i j = if j == i then true else status j

unfoldable pub set_bit : (ℕ → Bool) → ℕ → Outcome (ℕ → Bool)
set_bit status i = if ltb i 32 then value (with_bit status i) else out_of_range

-- get_bitmask, from bit `i` on with `n` bits to go; the lowest is bit `i`.
unfoldable pub bitmask_from : (ℕ → Bool) → ℕ → ℕ → ℕ
bitmask_from status zero i = 0
bitmask_from status (suc n) i = (if status i then 1 else 0) + 2 * bitmask_from status n (suc i)

unfoldable pub get_bitmask : Transit → ℕ
get_bitmask t = bitmask_from t.status 32 0

-- ack: every bit of the mask is set, none is cleared.
unfoldable pub ack : ℕ → Transit → Transit
ack bitmask t = record t {
  status = λ i.
      if ltb i 32 then (if (bitmask / 2 ^ i) % 2 == 1 then true else t.status i) else t.status i;
}

unfoldable pub count_from : (ℕ → Bool) → ℕ → ℕ → ℕ
count_from status zero i = 0
count_from status (suc n) i = (if status i then 1 else 0) + count_from status n (suc i)

unfoldable pub should_send_ack : Transit → Bool
should_send_ack t =
    if t.info.numfrags == 0 then true else count_from t.status 32 0 % (1 + t.info.numfrags / 2) == 0

-- The loop of `completed`, with `n` fragments to go from `i` on.
unfoldable pub completed_from : (ℕ → Bool) → ℕ → ℕ → Outcome Bool
completed_from status zero i = value true
completed_from status (suc n) i =
    let rest = completed_from status n (suc i) in
    test status i >>= λ b. if b then rest else value false

unfoldable pub completed : Transit → Outcome Bool
completed t = completed_from t.status t.info.numfrags 0

-- The loop of put_message: full fragments while more is left than one holds. `fragid` is a byte. A
-- round takes `fragsize` bytes; with a size of 0 the loop does not end, and the fuel runs out.
unfoldable pub put_loop : ℕ → ℕ → Fragments → ℕ → List ℕ → Option (Fragments × ℕ × List ℕ)
put_loop zero fragsize frags fragid bytes = none
put_loop (suc fuel) fragsize frags fragid bytes =
    let next =
      put_loop fuel fragsize (set_frag fragid (take fragsize bytes) frags) ((fragid + 1) % 256)
        (drop fragsize bytes) in
    if ltb fragsize (length bytes) then next else some (frags, fragid, bytes)

-- The constructor of an outbound message, whose buffer holds `bytes` from its start.
unfoldable pub put_message : List ℕ → List ℕ → ℕ → ℕ → Option Transit
put_message bytes hash id mtu = elim (put_loop (suc (length bytes)) mtu [] 0 bytes) [
  | none ↦ none
  | some (frags, fragid, last) ↦ some (record {
    info = record {
      hash = hash;
      msgid = id;
      fragsize = mtu;
      lastsize = length last % 2 ^ 16;
      numfrags = fragid;
      flags = 1;
    };
    status = no_status;
    frags = frags;
    lastfrag = take (length last % 2 ^ 16) last;
  })
]

-- The constructor of an inbound message: room for its full fragments.
unfoldable pub room_from : ℕ → ℕ → ℕ → Fragments
room_from fragsize zero i = []
room_from fragsize (suc n) i = (i, replicate fragsize 0) ∷ room_from fragsize n (suc i)

unfoldable pub inbound : Xmit → Transit
inbound x = record {
  info = x;
  status = no_status;
  frags = room_from x.fragsize x.numfrags 0;
  lastfrag = [];
}

unfoldable pub put_lastfrag : List ℕ → Transit → Transit
put_lastfrag bytes t = record t { lastfrag = bytes }

-- put_frag: `bytes` are the `fragsize` bytes at its argument.
unfoldable pub put_frag : ℕ → List ℕ → Transit → Outcome (Bool × Transit)
put_frag fragno bytes t = elim (find_frag fragno t.frags) [
  | none ↦ value (false, t)
  | some _ ↦ do
    status ← set_bit t.status fragno
    value (true, record t { frags = set_frag fragno bytes t.frags; status = status })
]

-- The loop of `reassemble`, with `n` fragments to go from `i` on: `none` where one is missing.
unfoldable pub reassemble_from : Transit → ℕ → ℕ → Outcome (Option (List ℕ))
reassemble_from t zero i = value (some t.lastfrag)
reassemble_from t (suc n) i =
    let rest = reassemble_from t n (suc i) in
    test t.status i >>= λ b. if not b then value none else elim (find_frag i t.frags) [
      | none ↦ undefined
      | some f ↦ rest >>= λ r. elim r [ none ↦ value none | some tail ↦ value (some (f ++ tail)) ]
    ]

unfoldable pub reassemble : Transit → Outcome (Option (List ℕ))
reassemble t = reassemble_from t t.info.numfrags 0
