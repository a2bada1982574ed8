-- ===== src/NodeDb/Hops.antt =====
-- The choice of a hop that is not the one before.
use uplexa_network.Prelude.{
  ℕ, zero, suc, ◌%◌, ◌<◌, ◌≡◌, ◌≢◌, refl, sym, ap, subst, ◌∙◌, true, false, List, [], ◌∷◌, Option,
  none, some, arith, Bool-cases, inl, inr, get_elem?, length, All, Option-cases,
}
use uplexa_network.Dht.Key.{Key, eq}
use uplexa_network.Dht.Key.Laws.{eq_iff}
use uplexa_network.Contact.Router.{RouterContact}
use uplexa_network.NodeDb.{pick, unless_prev, select_other}

-- An entry of the database, and the entry that a number stands for: the remainder is its place.
abbrev pub Entry : Type 0
Entry = Key × RouterContact

abbrev pub entry_at : ℕ → List Entry → Option Entry
entry_at r l = get_elem? l (r % length l)

-- One entry is picked whatever the number is, since every number leaves 0 there.
pick_lem : (r : ℕ) (l : List Entry) → pick r l ≡ entry_at r l
unfolding pick
pick_lem r [] = refl
pick_lem r (x ∷ []) = let none_left : 0 ≡ r % 1 = omega arith in ap (get_elem? (x ∷ [])) none_left
pick_lem r (x ∷ y ∷ l) = ground arith

-- The numbers leave every remainder below `n`.
abbrev pub Covers : List ℕ → ℕ → Type 0
Covers rs n = (i : ℕ) → i < n → (m r : ℕ) × (get_elem? rs m ≡ some r) × (r % n ≡ i)

-- The loop has ended in round `m`, with the entry that the number of this round stands for.
pub record IsChosen (prev : Key) (rs : List ℕ) (l : List Entry) (m : ℕ) : Type 0 where
  pub number : ℕ
  pub hop : Entry
  pub drawn : get_elem? rs m ≡ some number
  pub stands : entry_at number l ≡ some hop
  pub other : hop.1.pubkey ≢ prev
  pub result : select_other prev rs l ≡ some hop.1

-- A number stands for an entry where there is one.
entry_there : (l : List Entry) (i : ℕ) → i < length l → (e : Entry) × (get_elem? l i ≡ some e)
entry_there [] i h = absurd (omega (arith, h))
entry_there (x ∷ l) zero h = (x, refl)
entry_there (x ∷ l) (suc i) h = entry_there l i (omega (arith, h))

below_length : (l : List Entry) (i : ℕ) (e : Entry) → get_elem? l i ≡ some e → i < length l
below_length [] i e h = cc
below_length (x ∷ l) zero e h = omega arith
below_length (x ∷ l) (suc i) e h = omega (arith, below_length l i e h)

abbrev pubkey_of : Option Entry → Entry → Key
pubkey_of none e = e.1.pubkey
pubkey_of (some d) e = d.1.pubkey

keys_at :
    (l : List Entry) (i : ℕ) (prev : Key) (d : Entry)
    → All (λ e. e.1.pubkey ≡ prev) l
    → get_elem? l i ≡ some d
    → d.1.pubkey ≡ prev
keys_at [] i prev d all h = cc
keys_at (x ∷ l) zero prev d all h = ap (λ o. pubkey_of o x) (sym h) ∙ all.0
keys_at (x ∷ l) (suc i) prev d all h = keys_at l i prev d all.1 h

any_entry :
    (l : List Entry) (i r : ℕ) (e : Entry)
    → get_elem? l i ≡ some e
    → (d : Entry) × (entry_at r l ≡ some d)
any_entry l i r e h =
    let h' = below_length l i e h in entry_there l (r % length l) (omega (arith, h'))

not_prev : (prev k : Key) → eq prev k ≡ false → k ≢ prev
not_prev prev k e = ground (arith, eq_iff prev k)

-- A round that picks another router ends the loop, and one that picks the one before goes on.
round :
    (prev : Key) (l : List Entry) (r : ℕ) (rs : List ℕ) (d : Entry)
    → entry_at r l ≡ some d
    → (eq prev d.1.pubkey ≡ true → (m : ℕ) × IsChosen prev rs l m)
    → (m : ℕ) × IsChosen prev (r ∷ rs) l m
unfolding select_other unless_prev
round prev l r rs d first rest = elim (Bool-cases (eq prev d.1.pubkey)) [
  | inr differs ↦ (
    0,
    record {
      number = r;
      hop = d;
      drawn = refl;
      stands = first;
      other = not_prev prev d.1.pubkey differs;
      result = rw (pick_lem r l ∙ first) (rw differs refl);
    },
  )
  | inl same ↦
      let (m, c) = rest same in
      (
        suc m,
        record {
          number = c.number;
          hop = c.hop;
          drawn = c.drawn;
          stands = c.stands;
          other = c.other;
          result = rw (pick_lem r l ∙ first) (rw same c.result);
        },
      )
]

some_inj : (a b : ℕ) → some a ≡ some b → b ≡ a
some_inj a b e = cc

-- The loop ends where a number stands for another router.
ends_with :
    (prev : Key) (l : List Entry) (rs : List ℕ) (m r : ℕ) (e : Entry)
    → get_elem? rs m ≡ some r
    → entry_at r l ≡ some e
    → e.1.pubkey ≢ prev
    → (m' : ℕ) × IsChosen prev rs l m'
ends_with prev l [] m r e h there other = cc
ends_with prev l (r0 ∷ rs) zero r e h there other =
    round prev l r0 rs e (subst (λ k. entry_at k l ≡ some e) (some_inj r0 r h) there)
      (λ same. absurd (other (ground (arith, eq_iff prev e.1.pubkey))))
ends_with prev l (r0 ∷ rs) (suc m) r e h there other =
    let (d, first) = any_entry l (r % length l) r0 e there in
    round prev l r0 rs d first (λ _. ends_with prev l rs m r e h there other)

-- If an entry has another public key than the hop before, and the numbers drawn leave every
-- remainder by the number of entries, the loop of udap_nodedb_select_random_hop ends within them,
-- and gives the contact at the place that one of the numbers leaves as its remainder, which has
-- not the public key of the hop before.
pub select_other_lem :
    (prev : Key) (rs : List ℕ) (l : List Entry) (i : ℕ) (e : Entry)
    → get_elem? l i ≡ some e
    → e.1.pubkey ≢ prev
    → Covers rs (length l)
    → (m : ℕ) × IsChosen prev rs l m
select_other_lem prev rs l i e there other covers =
    let (m, r, drawn, leaves) = covers i (below_length l i e there) in
    ends_with prev l rs m r e drawn (rw leaves there) other

-- If every entry has the public key of the hop before, the loop of udap_nodedb_select_random_hop
-- finds none, whatever numbers are drawn.
pub select_other-only :
    (prev : Key) (rs : List ℕ) (l : List Entry)
    → All (λ e. e.1.pubkey ≡ prev) l
    → select_other prev rs l ≡ none
unfolding select_other unless_prev
select_other-only prev [] l all = refl
select_other-only prev (r ∷ rs) l all = elim (Option-cases (pick r l)) [
  | inl e ↦ rw e
  | inr (d, e) ↦
      let same : d.1.pubkey ≡ prev = keys_at l (r % length l) prev d all (sym (pick_lem r l) ∙ e) in
      rw e (rw ((eq_iff prev d.1.pubkey).1 (sym same)) (select_other-only prev rs l all))
]
