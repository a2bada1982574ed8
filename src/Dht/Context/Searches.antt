-- ===== src/Dht/Context/Searches.antt =====
-- How often a search goes on, whose peers answer that they have no contact.
use uplexa_network.Prelude.{
  ℕ, ◌+◌, ◌==◌, ◌%◌, ◌^◌, ◌≤◌, ◌<◌, ◌≡◌, ◌≢◌, refl, sym, ap, subst, ◌∙◌, Bool, true, false, ◌||◌,
  List, [], ◌∷◌, ◌++◌, none, some, arith, inl, inr, Bool-cases, ltb, length, ltb→lt, if◌then◌else◌,
  All, length-append,
}
use uplexa_network.Dht.Key.{Key, is_zero, fill}
use uplexa_network.Dht.Key.Laws.{eq_iff}
use uplexa_network.Dht.Bucket.{member, insert}
use uplexa_network.Dht.Bucket.Search.{find_close_excluding_closest}
use uplexa_network.Dht.Message.{FindRouter, GotRouter, new_find_router}
use uplexa_network.Dht.Context.Table.{same_owner_iff, find_tx-put_tx, find_tx-Entries}
use uplexa_network.Dht.Context.Answer.{handle_got_router_tracked}
use uplexa_network.Dht.Context.Excludes.{Bounded, Event, run, run-IsBounded}
use uplexa_network.Dht.Context.{
  SearchJob, TxOwner, Context, same_owner, find_tx, erase_tx, put_tx, lookup_router,
  find_pending_tx, iterate, got_answer, handle_got_router, remove_pending_lookup, completed,
}

abbrev pub Different : List Key → Type 0
Different [] = Unit {0}
Different (k ∷ ks) = All (λ j. j ≢ k) ks × Different ks

nothing_sent : {A : Type 0} (xs : List A) (x : A) → xs ≢ xs ++ (x ∷ [])
nothing_sent xs x e = absurd (omega (arith, ap (λ l. length l) e, length-append xs (x ∷ [])))

last_sent : {A : Type 0} (xs : List A) (x y : A) → xs ++ (x ∷ []) ≡ xs ++ (y ∷ []) → x ≡ y
last_sent [] x y e = cc
last_sent (z ∷ xs) x y e = last_sent xs x y cc

erase_other :
    (o p : TxOwner) (ps : List (TxOwner × SearchJob))
    → same_owner o p ≡ false
    → find_tx p (erase_tx o ps) ≡ find_tx p ps
unfolding find_tx erase_tx
erase_other o p [] d = refl
erase_other o p ((q, k) ∷ ps) d =
    ground (arith, same_owner_iff q o, same_owner_iff q p, same_owner_iff o p, erase_other o p ps d)

member-insert : (k : Key) (xs : List Key) → member k (insert k xs) ≡ true
unfolding member insert
member-insert k xs = elim (Bool-cases (member k xs)) [
  | inl e ↦ rw e e
  | inr e ↦ rw e (rw ((eq_iff k k).1 refl) refl)
]

member-insert_other :
    (j k : Key) (xs : List Key)
    → member k xs ≡ false
    → member j (insert k xs) ≡ false
    → (member j xs ≡ false) × (j ≢ k)
unfolding member insert
member-insert_other j k xs fresh h = ground (arith, eq_iff k j)

length-insert :
    (k : Key) (xs : List Key) → member k xs ≡ false → length (insert k xs) ≡ length xs + 1
unfolding insert
length-insert k xs fresh = rw fresh (omega arith)

-- What the search has asked so far is new, and different from what is asked behind it.
fresh-All :
    (k : Key) (xs ks : List Key)
    → member k xs ≡ false
    → All (λ j. member j (insert k xs) ≡ false) ks
    → All (λ j. member j xs ≡ false) ks × All (λ j. j ≢ k) ks
fresh-All k xs [] fresh all = (tt, tt)
fresh-All k xs (j ∷ ks) fresh all =
    let (a, b) = member-insert_other j k xs fresh all.0 in
    let (more, apart) = fresh-All k xs ks fresh all.1 in ((a, more), (b, apart))

-- The entry that waits for the next peer.
abbrev Continues : SearchJob → Key → Key → SearchJob → Type 0
Continues j from next j' =
    (j'.exclude ≡ insert from j.exclude)
    × (length (insert from j.exclude) < 3)
    × (member next (insert from j.exclude) ≡ false)

abbrev owner_of : Key × FindRouter → TxOwner
owner_of p = record { node = p.0; txid = p.1.txid }

other_owner :
    (j : SearchJob) (o : TxOwner) (p : Key × FindRouter)
    → member p.0 (insert o.node j.exclude) ≡ false
    → same_owner o (owner_of p) ≡ false
other_owner j o p h = elim (Bool-cases (same_owner o (owner_of p))) [
  | inr e ↦ e
  | inl e ↦
      let same = ap (λ (q : TxOwner). q.node) ((same_owner_iff o (owner_of p)).0 e) in
      let there =
        subst (λ k. member k (insert o.node j.exclude) ≡ true) same
          (member-insert o.node j.exclude) in
      absurd (cc (there, h))
]

module _ {Rc : Type 0} where
  -- The answer that there is no contact, of the peer that is waited for.
  abbrev pub no_contact : TxOwner → GotRouter Rc
  no_contact o = record { from = o.node; found = []; txid = o.txid; version = 0 }

  -- From a state in which a peer is waited for, the peers of its search that were asked one after
  -- the other: each but the last has answered that it has no contact, and a message went to the next
  -- one, under whose number its answer is waited for then. In between anything may happen that leaves
  -- the entry of the search as it is.
  pub data AskedInTurn (pubkey : Rc → Key) : Context Rc → TxOwner → List Key → Type 0 where
    asks : {ctx : Context Rc} {o : TxOwner} → AskedInTurn pubkey ctx o (o.node ∷ [])
    other :
        {ctx : Context Rc} {o : TxOwner} {ks : List Key} (e : Event Rc)
        → find_tx o (run pubkey ctx (e ∷ [])).pending ≡ find_tx o ctx.pending
        → AskedInTurn pubkey (run pubkey ctx (e ∷ [])) o ks
        → AskedInTurn pubkey ctx o ks
    goes_on :
        {ctx : Context Rc} {o : TxOwner} {ks : List Key} (now : ℕ) (next : Key) (m : FindRouter)
        → (handle_got_router now ctx (no_contact o)).1.outbox ≡ ctx.outbox ++ ((next, m) ∷ [])
        → AskedInTurn pubkey
            (handle_got_router now ctx (no_contact o)).1
            (record { node = next; txid = m.txid })
            ks
        → AskedInTurn pubkey ctx o (o.node ∷ ks)

  lookup_sent :
      (now : ℕ) (ctx : Context Rc) (j : SearchJob) (peer : Key) (exclude : List Key)
      (p : Key × FindRouter)
      → let r = lookup_router now ctx j.target j.requester j.requester_tx peer none true exclude in
        r.outbox ≡ ctx.outbox ++ (p ∷ [])
        → (peer ≡ p.0)
          × ((j' : SearchJob) × (j'.exclude ≡ exclude) × (find_tx (owner_of p) r.pending ≡ some j'))
  unfolding lookup_router new_find_router
  lookup_sent now ctx j peer exclude p =
      let owner : TxOwner = record { node = peer; txid = (ctx.ids + 1) % 2 ^ 64 } in
      let entry : SearchJob = record {
        job = none;
        started = now;
        requester = j.requester;
        requester_tx = if j.requester_tx == 0 then (ctx.ids + 1) % 2 ^ 64 else j.requester_tx;
        target = j.target;
        exclude = exclude;
      } in
      elim (Bool-cases (is_zero j.target || is_zero j.requester || is_zero peer)) [
        | inl e ↦ rw e (λ h. absurd (nothing_sent ctx.outbox p h))
        | inr e ↦ rw e (λ h.
            subst
              (λ (q : Key × FindRouter).
                (peer ≡ q.0)
                × ((j' : SearchJob) × (j'.exclude ≡ exclude)
                    × (find_tx (owner_of q) (put_tx owner entry ctx.pending) ≡ some j')))
              (last_sent ctx.outbox _ p h)
              (
                refl,
                (
                  entry,
                  refl,
                  find_tx-put_tx owner owner entry ctx.pending
                      ∙ rw ((same_owner_iff owner owner).1 refl),
                ),
              ))
      ]

  iterate_sent :
      (now : ℕ) (ctx : Context Rc) (j : SearchJob) (from : Key) (p : Key × FindRouter)
      → (iterate now ctx j from).0.outbox ≡ ctx.outbox ++ (p ∷ [])
      → (j' : SearchJob) × Continues j from p.0 j'
        × (find_tx (owner_of p) (iterate now ctx j from).0.pending ≡ some j')
  unfolding iterate completed
  iterate_sent now ctx j from p =
      let exclude = insert from j.exclude in
      elim (Bool-cases (ltb (length exclude) 3)) [
        | inr e ↦ rw e (λ h. absurd (nothing_sent ctx.outbox p h))
        | inl e ↦ rw e (elim (find_close_excluding_closest ctx.nodes j.target exclude (fill 32 0)) [
          | inr (f, _, _) ↦ rw f (λ h. absurd (nothing_sent ctx.outbox p h))
          | inl (f, _, allowed, _, _) ↦ rw f (λ h.
              let (same, (j', ex, there)) = lookup_sent now ctx j _ exclude p h in
              (j', (ex, ltb→lt _ _ e, subst (λ k. member k exclude ≡ false) same allowed), there))
        ])
      ]

  -- What a peer that has no contact leads to.
  answer_sent :
      (now : ℕ) (ctx : Context Rc) (o : TxOwner) (j : SearchJob) (p : Key × FindRouter)
      → find_tx o ctx.pending ≡ some j
      → (handle_got_router now ctx (no_contact o)).1.outbox ≡ ctx.outbox ++ (p ∷ [])
      → (j' : SearchJob) × Continues j o.node p.0 j'
        × (find_tx (owner_of p) (handle_got_router now ctx (no_contact o)).1.pending ≡ some j')
  unfolding remove_pending_lookup got_answer find_pending_tx
  answer_sent now ctx o j p there sent =
      let taken = handle_got_router_tracked now ctx (no_contact o) j there in
      let (j', c, found) =
        iterate_sent now ctx j o.node p
          (sym (ap (λ (r : Bool × Context Rc × List (GotRouter Rc)). r.1.outbox) taken) ∙ sent) in
      let apart = other_owner j o p c.2 in
      (
        j',
        c,
        ap (λ (r : Bool × Context Rc × List (GotRouter Rc)). find_tx (owner_of p) r.1.pending) taken
            ∙ erase_other o (owner_of p) _ apart
            ∙ found,
      )

  search_bound :
      (pubkey : Rc → Key) (ctx : Context Rc) (o : TxOwner) (ks : List Key)
      → AskedInTurn pubkey ctx o ks
      → (j : SearchJob) → find_tx o ctx.pending ≡ some j
      → Bounded o j
      → (length j.exclude + length ks ≤ 3) × All (λ k. member k j.exclude ≡ false) ks × Different ks
  search_bound pubkey ctx o ks asks j there b = (omega (arith, b.0), (b.1, tt), (tt, tt))
  search_bound pubkey ctx o ks (other e kept rest) j there b =
      search_bound pubkey (run pubkey ctx (e ∷ [])) o ks rest j (kept ∙ there) b
  search_bound pubkey ctx o ks (goes_on {ks = ks'} now next m sent rest) j there b =
      let (j', (ex, fewer, allowed), found) = answer_sent now ctx o j (next, m) there sent in
      let (bound, all, differ) =
        search_bound pubkey (handle_got_router now ctx (no_contact o)).1
          (record { node = next; txid = m.txid }) ks' rest j' found (rw ex (fewer, allowed)) in
      let (new, apart) =
        fresh-All o.node j.exclude ks' b.1
          (subst (λ xs. All (λ k. member k xs ≡ false) ks') ex all) in
      (
        omega
            (arith, bound, ap (λ (l : List Key). length l) ex, length-insert o.node j.exclude b.1),
        (b.1, new),
        (apart, differ),
      )

  -- From a context with no pending search, after any messages, lookups of ours, timer calls and
  -- changes of the known peers: of a search that is pending then, the peers that it asks one after
  -- another, while each answers that it has no contact and nothing in between changes the entry
  -- that waits, are at most three, and all different.
  pub search_asks_few :
      (pubkey : Rc → Key) (ctx : Context Rc) (es : List (Event Rc)) (o : TxOwner) (j : SearchJob)
      (ks : List Key)
      → ctx.pending ≡ []
      → find_tx o (run pubkey ctx es).pending ≡ some j
      → AskedInTurn pubkey (run pubkey ctx es) o ks
      → (length ks ≤ 3) × Different ks
  search_asks_few pubkey ctx es o j ks none_yet there s =
      let all = run-IsBounded pubkey ctx es (rw none_yet tt) in
      let (bound, _, differ) =
        search_bound pubkey (run pubkey ctx es) o ks s j there
          (find_tx-Entries Bounded o j (run pubkey ctx es).pending all there) in
      (omega (arith, bound), differ)
