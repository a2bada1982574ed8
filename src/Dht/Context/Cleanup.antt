-- ===== src/Dht/Context/Cleanup.antt =====
-- CleanupTX: what the timer does to the pending searches.
use uplexa_network.Prelude.{
  ℕ, ◌≡◌, ◌⊎◌, refl, true, List, [], ◌∷◌, ◌++◌, Option, none, some, arith, if◌then◌else◌, inl, inr,
  Bool-cases,
}
use uplexa_network.Dht.Context.Table.{Distinct, same_owner_iff}
use uplexa_network.Dht.Context.{
  SearchJob, TxOwner, LookupJob, Context, same_owner, find_tx, is_expired, cleanup_loop, cleanup_tx,
  call_hook,
}

-- A search that is left at this time.
abbrev pub unexpired : ℕ → Option SearchJob → Option SearchJob
unexpired now none = none
unexpired now (some j) = if is_expired j now then none else some j

-- The hook was called with this result.
abbrev pub Called : {A : Type 0} → A → List A → Type 0
Called c [] = ⊥
Called c (d ∷ ds) = (d ≡ c) ⊎ Called c ds

Called-right : {A : Type 0} (c : A) (xs ys : List A) → Called c ys → Called c (xs ++ ys)
Called-right c [] ys h = h
Called-right c (x ∷ xs) ys h = inr (Called-right c xs ys h)

Called-left : {A : Type 0} (c : A) (xs ys : List A) → Called c xs → Called c (xs ++ ys)
Called-left c [] ys h = elim h [ ]
Called-left c (x ∷ xs) ys (inl e) = inl e
Called-left c (x ∷ xs) ys (inr h) = inr (Called-left c xs ys h)

some_inj : (i j : SearchJob) → some i ≡ some j → i ≡ j
some_inj i j e = cc

module _ (Rc : Type 0) where
  find_tx-cleanup_loop :
      (now : ℕ) (p : TxOwner) (ps : List (TxOwner × SearchJob))
      → Distinct ps
      → find_tx p (cleanup_loop {Rc = Rc} now ps).0 ≡ unexpired now (find_tx p ps)
  unfolding find_tx cleanup_loop
  find_tx-cleanup_loop now p [] d = refl
  find_tx-cleanup_loop now p ((o, j) ∷ ps) d =
      ground (arith, find_tx-cleanup_loop now p ps d.1, same_owner_iff o p)

  Called-call_hook :
      (j : SearchJob) (job : LookupJob)
      → j.job ≡ some job
      → job.has_hook ≡ true
      → Called (job, none) (call_hook {Rc = Rc} j.job none)
  unfolding call_hook
  Called-call_hook j job k h = rw k (ground arith)

  Called-cleanup_loop :
      (now : ℕ) (p : TxOwner) (j : SearchJob) (job : LookupJob) (ps : List (TxOwner × SearchJob))
      → find_tx p ps ≡ some j
      → is_expired j now ≡ true
      → j.job ≡ some job
      → job.has_hook ≡ true
      → Called (job, none) (cleanup_loop {Rc = Rc} now ps).1
  unfolding find_tx cleanup_loop
  Called-cleanup_loop now p j job [] f e k h = absurd (cc f)
  Called-cleanup_loop now p j job ((o, i) ∷ ps) f e k h =
      let hit = Called-call_hook j job k h in
      let later : find_tx p ps ≡ some j → Called (job, none) (cleanup_loop {Rc = Rc} now ps).1 =
        λ f'. Called-cleanup_loop now p j job ps f' e k h in
      elim (Bool-cases (same_owner o p)) [
        | inl own ↦
            let same : i ≡ j = some_inj i j (rw own at f) in
            let expired : is_expired i now ≡ true = rw same e in
            rw expired (Called-left _ (call_hook i.job none) _ (rw same hit))
        | inr other ↦
            let found : find_tx p ps ≡ some j = rw other at f in
            elim (Bool-cases (is_expired i now)) [
              | inl old ↦ rw old (Called-right _ (call_hook i.job none) _ (later found))
              | inr new ↦ rw new (later found)
            ]
      ]

  -- With one entry for an owner in the table, at a call of the timer a pending search stays as it
  -- is if it has not run for the timeout, and is forgotten if it has.
  pub cleanup_tx_lem :
      (now : ℕ) (ctx : Context Rc) (p : TxOwner)
      → Distinct ctx.pending
      → find_tx p (cleanup_tx now ctx).pending ≡ unexpired now (find_tx p ctx.pending)
  unfolding cleanup_tx
  cleanup_tx_lem now ctx p d = find_tx-cleanup_loop now p ctx.pending d

  -- At a call of the timer, the hook of a lookup whose pending search has run for the timeout is
  -- called without a contact.
  pub cleanup_tx-Called :
      (now : ℕ) (ctx : Context Rc) (p : TxOwner) (j : SearchJob) (job : LookupJob)
      → find_tx p ctx.pending ≡ some j
      → is_expired j now ≡ true
      → j.job ≡ some job
      → job.has_hook ≡ true
      → Called (job, none) (cleanup_tx now ctx).calls
  unfolding cleanup_tx
  cleanup_tx-Called now ctx p j job f e k h =
      Called-right _ ctx.calls _ (Called-cleanup_loop now p j job ctx.pending f e k h)
