-- ===== src/Dht/Context/Excludes.antt =====
-- The exclusion sets bound how often a search goes on.
use uplexa_network.Prelude.{
  ◌==◌, ℕ, ◌<◌, ◌≡◌, ◌⊎◌, refl, Bool, true, false, not, ◌||◌, List, [], ◌∷◌, Option, none, some,
  arith, inl, inr, Bool-cases, ltb, length, ltb→lt, Option-cases,
}
use uplexa_network.Dht.Key.{Key, is_zero, fill}
use uplexa_network.Dht.Bucket.{member, insert, find_closest}
use uplexa_network.Dht.Bucket.Search.{find_close_excluding_closest}
use uplexa_network.Dht.Message.{FindRouter, GotRouter, Message, find_router, got_router}
use uplexa_network.Dht.Api.{handle_cleaner_timer, put_peer, remove_peer}
use uplexa_network.Dht.Context.Table.{Entries, put_tx-Entries, erase_tx-Entries}
use uplexa_network.Dht.Context.Lookup.{lookup_router_relayed_cases}
use uplexa_network.Dht.Context.Answer.{handle_got_router_tracked, handle_got_router_untracked}
use uplexa_network.Dht.Context.{
  SearchJob, TxOwner, LookupJob, Context, lookup_router, find_pending_tx, iterate, got_answer,
  handle_got_router, handle_find_router, handle_message, handle_messages, handle_immediate,
  remove_pending_lookup, completed, cleanup_loop, cleanup_tx, lookup_router_via_job,
  lookup_router_relayed, is_expired,
}

-- The peer that we wait for is not in the exclusion set, which has fewer than three.
abbrev pub Bounded : TxOwner → SearchJob → Type 0
Bounded o j = (length j.exclude < 3) × (member o.node j.exclude ≡ false)

abbrev pub IsBounded : {Rc : Type 0} → Context Rc → Type 0
IsBounded ctx = Entries Bounded ctx.pending

module _ {Rc : Type 0} (now : ℕ) where
  lookup_router-IsBounded :
      (ctx : Context Rc) (target whoasked : Key) (txid : ℕ) (askpeer : Key) (job : Option LookupJob)
      (iterative : Bool) (excludes : List Key)
      → length excludes < 3
      → member askpeer excludes ≡ false
      → IsBounded ctx
      → IsBounded (lookup_router now ctx target whoasked txid askpeer job iterative excludes)
  unfolding lookup_router
  lookup_router-IsBounded ctx target whoasked txid askpeer job iterative excludes l a h =
      elim (Bool-cases (is_zero target || is_zero whoasked || is_zero askpeer)) [
        | inl e ↦ rw e h
        | inr e ↦ rw e (put_tx-Entries Bounded _ _ ctx.pending h (l, a))
      ]

  iterate-IsBounded :
      (ctx : Context Rc) (j : SearchJob) (from : Key)
      → IsBounded ctx
      → IsBounded (iterate now ctx j from).0
  unfolding iterate completed
  iterate-IsBounded ctx j from h =
      let exclude = insert from j.exclude in
      elim (Bool-cases (ltb (length exclude) 3)) [
        | inr e ↦ rw e h
        | inl e ↦ rw e (elim (find_close_excluding_closest ctx.nodes j.target exclude (fill 32 0)) [
          | inr (f, _, _) ↦ rw f h
          | inl (f, _, allowed, _, _) ↦ rw f (
              lookup_router-IsBounded ctx j.target j.requester j.requester_tx _ none true exclude
                (ltb→lt _ _ e) allowed h)
        ])
      ]

  got_answer-IsBounded :
      (ctx : Context Rc) (j : SearchJob) (from : Key) (found : List Rc)
      → IsBounded ctx
      → IsBounded (got_answer now ctx j from found).0
  unfolding got_answer completed
  got_answer-IsBounded ctx j from [] h = iterate-IsBounded ctx j from h
  got_answer-IsBounded ctx j from (rc ∷ _) h = h

  handle_got_router-IsBounded :
      (ctx : Context Rc) (m : GotRouter Rc)
      → IsBounded ctx
      → IsBounded (handle_got_router now ctx m).1
  unfolding remove_pending_lookup
  handle_got_router-IsBounded ctx m h = elim (Option-cases (find_pending_tx ctx m.from m.txid)) [
    | inl e ↦ rw (handle_got_router_untracked now ctx m e) h
    | inr (j, e) ↦
        rw (handle_got_router_tracked now ctx m j e)
          (erase_tx-Entries Bounded _ _ (got_answer-IsBounded ctx j m.from m.found h))
  ]

  relayed-IsBounded :
      (ctx : Context Rc) (requester : Key) (txid : ℕ) (target : Key) (recursive : Bool)
      → IsBounded ctx
      → IsBounded (lookup_router_relayed now ctx requester txid target recursive).0
  relayed-IsBounded ctx requester txid target recursive h =
      elim (lookup_router_relayed_cases now ctx requester txid target recursive) [
        | inl (e, _) ↦ rw e h
        | inr (_, _, _, (next, e, _, _, _)) ↦ rw e (
            lookup_router-IsBounded ctx target requester txid next none false [] (omega arith)
              (unfold member in refl) h)
      ]

  handle_find_router_outcome :
      (ctx : Context Rc) (m : FindRouter)
      → let relayed = lookup_router_relayed now ctx m.from m.txid m.target (not m.iterative) in
        (handle_find_router now ctx m ≡ (false, ctx, []))
        ⊎ (handle_find_router now ctx m ≡ (true, relayed.0, relayed.1))
  unfolding handle_find_router
  handle_find_router_outcome ctx m = ground arith

  handle_find_router-IsBounded :
      (ctx : Context Rc) (m : FindRouter)
      → IsBounded ctx
      → IsBounded (handle_find_router now ctx m).1
  handle_find_router-IsBounded ctx m h = elim (handle_find_router_outcome ctx m) [
    | inl e ↦ rw e h
    | inr e ↦ rw e (relayed-IsBounded ctx m.from m.txid m.target (not m.iterative) h)
  ]

  -- Handling a message keeps the bound.
  handle_message-IsBounded :
      (ctx : Context Rc) (m : Message Rc) → IsBounded ctx → IsBounded (handle_message now ctx m).1
  unfolding handle_message
  handle_message-IsBounded ctx (find_router m) h = handle_find_router-IsBounded ctx m h
  handle_message-IsBounded ctx (got_router m) h = handle_got_router-IsBounded ctx m h

  handle_messages-IsBounded :
      (ctx : Context Rc) (ms : List (Message Rc))
      → IsBounded ctx
      → IsBounded (handle_messages now ctx ms).1
  unfolding handle_messages
  handle_messages-IsBounded ctx [] h = h
  handle_messages-IsBounded ctx (m ∷ ms) h =
      handle_messages-IsBounded (handle_message now ctx m).1 ms (handle_message-IsBounded ctx m h)

  via_job-IsBounded :
      (peer : Key) (ctx : Context Rc) (job : LookupJob)
      → IsBounded ctx
      → IsBounded (lookup_router_via_job now peer ctx job)
  unfolding lookup_router_via_job
  via_job-IsBounded peer ctx job h = elim (Bool-cases (find_closest ctx.nodes job.target peer).0) [
    | inl e ↦ rw e (
        lookup_router-IsBounded ctx job.target ctx.our_key 0 _ (some job) false [] (omega arith)
          (unfold member in refl) h)
    | inr e ↦ rw e h
  ]

cleanup_loop-IsBounded :
    (Rc : Type 0) (now : ℕ) (ps : List (TxOwner × SearchJob))
    → Entries Bounded ps
    → Entries Bounded (cleanup_loop {Rc = Rc} now ps).0
unfolding cleanup_loop
cleanup_loop-IsBounded Rc now [] h = tt
cleanup_loop-IsBounded Rc now ((o, j) ∷ ps) h = elim (Bool-cases (is_expired j now)) [
  | inl e ↦ rw e (cleanup_loop-IsBounded Rc now ps h.1)
  | inr e ↦ rw e (h.0, cleanup_loop-IsBounded Rc now ps h.1)
]

module _ {Rc : Type 0} where
  cleaner_timer-IsBounded :
      (now left : ℕ) (ctx : Context Rc)
      → IsBounded ctx
      → IsBounded (handle_cleaner_timer now left ctx)
  unfolding handle_cleaner_timer cleanup_tx
  cleaner_timer-IsBounded now left ctx h = elim (Bool-cases (left == 0)) [
    | inl e ↦ rw e (cleanup_loop-IsBounded Rc now ctx.pending h)
    | inr e ↦ rw e h
  ]

-- What the rest of the router does with the context: a link message with DHT messages, a lookup of
-- ours, the cleanup timer, and peers that come and go.
pub data Event (Rc : Type 0) : Type 0 where
  arrived : ℕ → Key → List (Message Rc) → Event Rc
  looked_up : ℕ → Key → LookupJob → Event Rc
  ticked : ℕ → ℕ → Event Rc
  peer_put : Rc → Event Rc
  peer_removed : Key → Event Rc

module _ {Rc : Type 0} (pubkey : Rc → Key) where
  unfoldable pub run : Context Rc → List (Event Rc) → Context Rc
  run ctx [] = ctx
  run ctx (arrived now remote ms ∷ es) = run (handle_immediate now ctx remote ms).0 es
  run ctx (looked_up now peer job ∷ es) = run (lookup_router_via_job now peer ctx job) es
  run ctx (ticked now left ∷ es) = run (handle_cleaner_timer now left ctx) es
  run ctx (peer_put rc ∷ es) = run (put_peer pubkey rc ctx) es
  run ctx (peer_removed id ∷ es) = run (remove_peer id ctx) es

  -- Whatever messages arrive, whatever lookups are started, whenever the timer calls and however
  -- the known peers change, in any order: if it is so at first, then the exclusion set of every
  -- pending search has fewer than three peers, and not the one we wait for.
  pub run-IsBounded :
      (ctx : Context Rc) (es : List (Event Rc)) → IsBounded ctx → IsBounded (run ctx es)
  unfolding run handle_immediate put_peer remove_peer
  run-IsBounded ctx [] h = h
  run-IsBounded ctx (arrived now remote ms ∷ es) h =
      run-IsBounded (handle_immediate now ctx remote ms).0 es
        (handle_messages-IsBounded now ctx ms h)
  run-IsBounded ctx (looked_up now peer job ∷ es) h =
      run-IsBounded (lookup_router_via_job now peer ctx job) es
        (via_job-IsBounded now peer ctx job h)
  run-IsBounded ctx (ticked now left ∷ es) h =
      run-IsBounded (handle_cleaner_timer now left ctx) es (cleaner_timer-IsBounded now left ctx h)
  run-IsBounded ctx (peer_put rc ∷ es) h = run-IsBounded (put_peer pubkey rc ctx) es h
  run-IsBounded ctx (peer_removed id ∷ es) h = run-IsBounded (remove_peer id ctx) es h
