-- ===== src/Dht/Context/Table.antt =====
-- The table of pending transactions.
use uplexa_network.Prelude.{
  ◌≡◌, ◌↔◌, refl, true, List, [], ◌∷◌, none, some, arith, if◌then◌else◌, Bool-cases, inl, inr,
  subst, sym,
}
use uplexa_network.Dht.Key.Laws.{eq_iff}
use uplexa_network.Dht.Context.{SearchJob, TxOwner, same_owner, find_tx, erase_tx, put_tx}

pub same_owner_iff : (a b : TxOwner) → (same_owner a b ≡ true) ↔ (a ≡ b)
unfolding same_owner
same_owner_iff a b =
    (λ e. ground (arith, eq_iff a.node b.node), λ e. ground (arith, eq_iff a.node b.node))

pub find_tx-put_tx :
    (o p : TxOwner) (j : SearchJob) (ps : List (TxOwner × SearchJob))
    → find_tx p (put_tx o j ps) ≡ (if same_owner o p then some j else find_tx p ps)
unfolding find_tx put_tx
find_tx-put_tx o p j [] = refl
find_tx-put_tx o p j ((q, k) ∷ ps) =
    ground
      (arith, same_owner_iff q o, same_owner_iff q p, same_owner_iff o p, find_tx-put_tx o p j ps)

-- The table has one entry for an owner.
abbrev pub Distinct : List (TxOwner × SearchJob) → Type 0
Distinct [] = Unit {0}
Distinct ((p, j) ∷ ps) = (find_tx p ps ≡ none) × Distinct ps

pub find_tx-erase_tx :
    (o p : TxOwner) (ps : List (TxOwner × SearchJob))
    → Distinct ps
    → find_tx p (erase_tx o ps) ≡ (if same_owner o p then none else find_tx p ps)
unfolding find_tx erase_tx
find_tx-erase_tx o p [] d = ground arith
find_tx-erase_tx o p ((q, k) ∷ ps) d =
    ground (
      arith,
      same_owner_iff q o,
      same_owner_iff q p,
      same_owner_iff o p,
      find_tx-erase_tx o p ps d.1,
    )

pub put_tx-Distinct :
    (o : TxOwner) (j : SearchJob) (ps : List (TxOwner × SearchJob))
    → Distinct ps
    → Distinct (put_tx o j ps)
unfolding put_tx
put_tx-Distinct o j [] d = (unfold find_tx in refl, tt)
put_tx-Distinct o j ((q, k) ∷ ps) d = ground (
  arith,
  same_owner_iff q o,
  same_owner_iff o q,
  find_tx-put_tx o q j ps,
  put_tx-Distinct o j ps d.1,
)

pub erase_tx-Distinct :
    (o : TxOwner) (ps : List (TxOwner × SearchJob)) → Distinct ps → Distinct (erase_tx o ps)
unfolding erase_tx
erase_tx-Distinct o [] d = tt
erase_tx-Distinct o ((q, k) ∷ ps) d = ground (
  arith,
  same_owner_iff q o,
  same_owner_iff o q,
  find_tx-erase_tx o q ps d.1,
  erase_tx-Distinct o ps d.1,
)

-- Every entry has a property.
abbrev pub Entries : (TxOwner → SearchJob → Type 0) → List (TxOwner × SearchJob) → Type 0
Entries P [] = Unit {0}
Entries P ((o, j) ∷ ps) = P o j × Entries P ps

pub find_tx-Entries :
    (P : TxOwner → SearchJob → Type 0) (o : TxOwner) (j : SearchJob)
    (ps : List (TxOwner × SearchJob))
    → Entries P ps
    → find_tx o ps ≡ some j
    → P o j
unfolding find_tx
find_tx-Entries P o j [] h e = cc
find_tx-Entries P o j ((q, k) ∷ ps) h e = elim (Bool-cases (same_owner q o)) [
  | inl s ↦ subst (λ x. P x j) ((same_owner_iff q o).0 s) (subst (P q) (ground arith) h.0)
  | inr s ↦ find_tx-Entries P o j ps h.1 (ground arith)
]

pub put_tx-Entries :
    (P : TxOwner → SearchJob → Type 0) (o : TxOwner) (j : SearchJob)
    (ps : List (TxOwner × SearchJob))
    → Entries P ps
    → P o j
    → Entries P (put_tx o j ps)
unfolding put_tx
put_tx-Entries P o j [] h k = (k, tt)
put_tx-Entries P o j ((q, i) ∷ ps) h k = elim (Bool-cases (same_owner q o)) [
  | inl s ↦ rw s (subst (λ x. P x j) (sym ((same_owner_iff q o).0 s)) k, h.1)
  | inr s ↦ rw s (h.0, put_tx-Entries P o j ps h.1 k)
]

pub erase_tx-Entries :
    (P : TxOwner → SearchJob → Type 0) (o : TxOwner) (ps : List (TxOwner × SearchJob))
    → Entries P ps
    → Entries P (erase_tx o ps)
unfolding erase_tx
erase_tx-Entries P o [] h = tt
erase_tx-Entries P o ((q, i) ∷ ps) h = elim (Bool-cases (same_owner q o)) [
  | inl s ↦ rw s h.1
  | inr s ↦ rw s (h.0, erase_tx-Entries P o ps h.1)
]
