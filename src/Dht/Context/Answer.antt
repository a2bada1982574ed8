-- ===== src/Dht/Context/Answer.antt =====
-- What an answer to one of our lookups does.
use uplexa_network.Prelude.{
  ℕ, ◌+◌, ◌%◌, ◌^◌, ◌≡◌, ◌⊎◌, ◌<◌, refl, true, false, ◌&&◌, List, [], ◌∷◌, ◌++◌, none, some, arith,
  ◌==◌, if◌then◌else◌, inl, inr, Bool-cases, ltb, length, Option-cases, lt→ltb,
}
use uplexa_network.Dht.Key.{Key, eq, is_zero, fill}
use uplexa_network.Dht.Key.Laws.{eq_iff}
use uplexa_network.Dht.Bucket.{insert, find_close_excluding}
use uplexa_network.Dht.Message.{GotRouter, new_got_router}
use uplexa_network.Dht.Context.Table.{Distinct, find_tx-erase_tx, same_owner_iff, erase_tx-Distinct}
use uplexa_network.Dht.Context.Lookup.{lookup_router-Distinct, lookup_router_tracked}
use uplexa_network.Dht.Context.{
  SearchJob, TxOwner, Context, lookup_router, find_pending_tx, iterate, got_answer,
  handle_got_router, remove_pending_lookup, completed, relay_answer, call_hook,
}

module _ {Rc : Type 0} (now : ℕ) (ctx : Context Rc) where
  iterate-Distinct :
      (pending : SearchJob) (from : Key)
      → Distinct ctx.pending
      → Distinct (iterate now ctx pending from).0.pending
  unfolding iterate completed
  iterate-Distinct pending from d =
      let exclude = insert from pending.exclude in
      elim (Bool-cases (
        ltb (length exclude) 3
        && (find_close_excluding ctx.nodes pending.target exclude (fill 32 0)).0)) [
          | inl e ↦ rw e (lookup_router-Distinct now ctx _ _ _ _ none true exclude d)
          | inr e ↦ rw e d
        ]

  got_answer-Distinct :
      (pending : SearchJob) (from : Key) (found : List Rc)
      → Distinct ctx.pending
      → Distinct (got_answer now ctx pending from found).0.pending
  unfolding got_answer completed
  got_answer-Distinct pending from [] d = iterate-Distinct pending from d
  got_answer-Distinct pending from (rc ∷ _) d = d

  pub handle_got_router_untracked :
      (m : GotRouter Rc)
      → find_pending_tx ctx m.from m.txid ≡ none
      → handle_got_router now ctx m ≡ (false, ctx, [])
  unfolding handle_got_router
  handle_got_router_untracked m e = rw (e, handle_got_router)

  pub handle_got_router_tracked :
      (m : GotRouter Rc) (j : SearchJob)
      → find_pending_tx ctx m.from m.txid ≡ some j
      → handle_got_router now ctx m ≡ (
        true,
        remove_pending_lookup (got_answer now ctx j m.from m.found).0 m.from m.txid,
        (got_answer now ctx j m.from m.found).1,
      )
  unfolding handle_got_router
  handle_got_router_tracked m j e = rw (e, handle_got_router)

  -- With one entry for an owner in the table, an answer is taken if we wait for it, and refused
  -- with nothing changed if we do not. Behind it nobody waits for it any more, and the table has
  -- one entry for an owner still.
  pub handle_got_router_settles :
      (m : GotRouter Rc)
      → Distinct ctx.pending
      → let r = handle_got_router now ctx m in
        ((r.0 ≡ false) × (r.1 ≡ ctx) × (r.2 ≡ []) × (find_pending_tx ctx m.from m.txid ≡ none)
          ⊎ (r.0 ≡ true) × ((j : SearchJob) × (find_pending_tx ctx m.from m.txid ≡ some j)))
        × (find_pending_tx r.1 m.from m.txid ≡ none)
        × Distinct r.1.pending
  unfolding find_pending_tx remove_pending_lookup
  handle_got_router_settles m d = elim (Option-cases (find_pending_tx ctx m.from m.txid)) [
    | inl e ↦ rw (handle_got_router_untracked m e) (inl (refl, refl, refl, e), e, d)
    | inr (j, e) ↦ rw (handle_got_router_tracked m j e) (
      inr (refl, (j, e)),
      ground (
        arith,
        find_tx-erase_tx (record { node = m.from; txid = m.txid })
            (record { node = m.from; txid = m.txid })
            (got_answer now ctx j m.from m.found).0.pending
            (got_answer-Distinct j m.from m.found d),
        (same_owner_iff (record { node = m.from; txid = m.txid })
              (record { node = m.from; txid = m.txid })).1
            refl,
      ),
      erase_tx-Distinct _ _ (got_answer-Distinct j m.from m.found d),
    )
  ]

  -- The first contact of an answer that we wait for goes to whoever asked: the hook of a lookup of
  -- ours, if it has one, is called with it, once, and a peer that asked through us gets one reply
  -- with it, under the peer's own number.
  pub handle_got_router_found :
      (m : GotRouter Rc) (rc : Rc) (rest : List Rc) (j : SearchJob)
      → find_pending_tx ctx m.from m.txid ≡ some j
      → m.found ≡ rc ∷ rest
      → let r = handle_got_router now ctx m in
        (r.0 ≡ true)
        × (r.1.calls ≡ ctx.calls ++ call_hook j.job (some rc))
        × (r.1.outbox ≡ ctx.outbox)
        × (r.2 ≡ (
            if eq j.requester ctx.our_key
            then []
            else record { from = j.target; found = rc ∷ []; txid = j.requester_tx; version = 0 }
              ∷ []))
  unfolding remove_pending_lookup got_answer completed relay_answer new_got_router
  handle_got_router_found m rc rest j e f =
      rw (handle_got_router_tracked m j e) (rw f (refl, refl, refl, refl))

  iterate_next :
      (j : SearchJob) (from next : Key)
      → length (insert from j.exclude) < 3
      → find_close_excluding ctx.nodes j.target (insert from j.exclude) (fill 32 0) ≡ (true, next)
      → iterate now ctx j from ≡ (
        lookup_router now ctx j.target j.requester j.requester_tx next none true
            (insert from j.exclude),
        [],
      )
  unfolding iterate
  iterate_next j from next l s = rw s (rw (lt→ltb _ _ l) refl)

  -- With one entry for an owner in the table, where a peer answers a search that it has no
  -- contact, and another peer is asked, no key of these being zero, no hook is called, and the
  -- entry that waits for the other peer has no job whose hook could be called later.
  pub handle_got_router_drops_job :
      (m : GotRouter Rc) (j : SearchJob)
      → find_pending_tx ctx m.from m.txid ≡ some j
      → m.found ≡ []
      → length (insert m.from j.exclude) < 3
      → (next : Key)
      → find_close_excluding ctx.nodes j.target (insert m.from j.exclude) (fill 32 0) ≡ (true, next)
      → eq next m.from ≡ false
      → is_zero j.target ≡ false
      → is_zero j.requester ≡ false
      → is_zero next ≡ false
      → Distinct ctx.pending
      → let r = handle_got_router now ctx m in
        (r.0 ≡ true)
        × (r.1.calls ≡ ctx.calls)
        × (r.2 ≡ [])
        × ((j' : SearchJob) × (find_pending_tx r.1 next ((ctx.ids + 1) % 2 ^ 64) ≡ some j')
            × (j'.job ≡ none)
            × (j'.requester ≡ j.requester))
  unfolding got_answer find_pending_tx remove_pending_lookup
  handle_got_router_drops_job m j e f l next s ne t w n d =
      let id = (ctx.ids + 1) % 2 ^ 64 in
      let exclude = insert m.from j.exclude in
      let ctx' = lookup_router now ctx j.target j.requester j.requester_tx next none true exclude in
      let owner : TxOwner = record { node = next; txid = id } in
      let answered : TxOwner = record { node = m.from; txid = m.txid } in
      let step : got_answer now ctx j m.from m.found ≡ (ctx', []) =
        rw f (iterate_next j m.from next l s) in
      let (_, _, table, calls) =
        lookup_router_tracked now ctx j.target j.requester j.requester_tx next none true exclude t w
          n in
      rw (handle_got_router_tracked m j e) (
        rw step (
          refl,
          calls,
          refl,
          (
            record {
              job = none;
              started = now;
              requester = j.requester;
              requester_tx = if j.requester_tx == 0 then id else j.requester_tx;
              target = j.target;
              exclude = exclude;
            },
            ground (
              arith,
              find_tx-erase_tx answered owner ctx'.pending (
                  lookup_router-Distinct now ctx j.target j.requester j.requester_tx next none true
                    exclude d),
              same_owner_iff answered owner,
              same_owner_iff owner owner,
              eq_iff next m.from,
              table owner,
            ),
            refl,
            refl,
          ),
        ))
