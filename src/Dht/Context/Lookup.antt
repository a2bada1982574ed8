-- ===== src/Dht/Context/Lookup.antt =====
-- What a lookup does: the message it sends, the entry it waits on, and the answer to a relayed one.
use uplexa_network.Prelude.{
  ℕ, ◌+◌, ◌%◌, ◌^◌, ◌≡◌, ◌⊎◌, refl, Bool, true, false, ◌||◌, List, [], ◌∷◌, ◌++◌, Option, none,
  some, ◌==◌, if◌then◌else◌, inl, inr, Bool-cases,
}
use uplexa_network.Dht.Key.{Key, eq, lt, xor, is_zero, fill, all_ones}
use uplexa_network.Dht.Bucket.{member, find_close_excluding, find}
use uplexa_network.Dht.Bucket.Search.{Known, NoneNearer, find_close_excluding_closest}
use uplexa_network.Dht.Message.{GotRouter, new_got_router, new_find_router}
use uplexa_network.Dht.Context.Table.{Distinct, find_tx-put_tx, put_tx-Distinct}
use uplexa_network.Dht.Context.{
  TxOwner, LookupJob, Context, same_owner, find_tx, lookup_router, lookup_router_relayed, known_rc,
}

module _ {Rc : Type 0} where
  -- A lookup between keys that are not zero takes a new transaction number, sends one message that
  -- carries it to the peer, and waits for the peer's answer under that number; the entry remembers
  -- who asked, under the asker's number where it is not 0. All other entries stay, and no hook is
  -- called.
  pub lookup_router_tracked :
      (now : ℕ) (ctx : Context Rc) (target whoasked : Key) (txid : ℕ) (askpeer : Key)
      (job : Option LookupJob) (iterative : Bool) (excludes : List Key)
      → is_zero target ≡ false
      → is_zero whoasked ≡ false
      → is_zero askpeer ≡ false
      → let id = (ctx.ids + 1) % 2 ^ 64 in
        let r = lookup_router now ctx target whoasked txid askpeer job iterative excludes in
        (r.ids ≡ id)
        × (r.outbox
            ≡ ctx.outbox
              ++ ((
                askpeer,
                record {
                  from = askpeer;
                  target = target;
                  iterative = iterative;
                  txid = id;
                  version = 0;
                },
              )
                  ∷ []))
        × ((p : TxOwner)
            → find_tx p r.pending ≡ (
                if same_owner (record { node = askpeer; txid = id }) p
                then some (record {
                  job = job;
                  started = now;
                  requester = whoasked;
                  requester_tx = if txid == 0 then id else txid;
                  target = target;
                  exclude = excludes;
                })
                else find_tx p ctx.pending))
        × (r.calls ≡ ctx.calls)
  unfolding lookup_router new_find_router
  lookup_router_tracked now ctx target whoasked txid askpeer job iterative excludes t w a =
      rw (t, w, a) (refl, refl, λ p. find_tx-put_tx _ p _ ctx.pending, refl)

  pub lookup_router-Distinct :
      (now : ℕ) (ctx : Context Rc) (target whoasked : Key) (txid : ℕ) (askpeer : Key)
      (job : Option LookupJob) (iterative : Bool) (excludes : List Key)
      → Distinct ctx.pending
      → Distinct (lookup_router now ctx target whoasked txid askpeer job iterative excludes).pending
  unfolding lookup_router
  lookup_router-Distinct now ctx target whoasked txid askpeer job iterative excludes d =
      elim (Bool-cases (is_zero target || is_zero whoasked || is_zero askpeer)) [
        | inl e ↦ rw e d
        | inr e ↦ rw e (put_tx-Distinct _ _ ctx.pending d)
      ]

  -- What stays of the state: all of it, or it is that of a lookup without exclusions.
  pub lookup_router_relayed_cases :
      (now : ℕ) (ctx : Context Rc) (requester : Key) (txid : ℕ) (target : Key) (recursive : Bool)
      → let r = lookup_router_relayed now ctx requester txid target recursive in
        ((r.0 ≡ ctx) × ((answer : Option Rc) × (r.1 ≡ new_got_router requester txid answer ∷ [])))
        ⊎ ((r.1 ≡ [])
            × (recursive ≡ true)
            × (lt (xor requester target) (xor ctx.our_key target) ≡ false)
            × ((next : Key) × (r.0 ≡ lookup_router now ctx target requester txid next none false [])
                × Known next ctx.nodes.nodes
                × (member next (requester ∷ ctx.our_key ∷ []) ≡ false)
                × NoneNearer target
                    (requester ∷ ctx.our_key ∷ [])
                    (xor next target)
                    ctx.nodes.nodes))
  unfolding lookup_router_relayed
  lookup_router_relayed_cases now ctx requester txid target recursive =
      let next =
        (find_close_excluding ctx.nodes target (requester ∷ ctx.our_key ∷ []) (fill 32 0)).1 in
      elim (Bool-cases (eq target ctx.our_key)) [
        | inl us ↦ rw us (inl (refl, (some ctx.our_rc, refl)))
        | inr us ↦
            rw us
              (elim (find_close_excluding_closest ctx.nodes target (requester ∷ ctx.our_key ∷ [])
                (fill 32 0)) [
                  | inr (f, _, _) ↦ rw f (inl (refl, (none, refl)))
                  | inl (f, known, allowed, _, nearest) ↦ rw f (elim (Bool-cases (eq next target)) [
                    | inl at ↦ rw at (inl (refl, (known_rc (find target ctx.nodes.nodes), refl)))
                    | inr at ↦ rw at (elim (Bool-cases recursive) [
                      | inr once ↦ rw once (inl (refl, (none, refl)))
                      | inl again ↦
                          rw again
                            (elim (Bool-cases
                              (lt (xor requester target) (xor ctx.our_key target))) [
                                | inl far ↦ rw far (inl (refl, (none, refl)))
                                | inr near ↦
                                    rw near (
                                      inr (refl, refl, refl, (next, refl, known, allowed, nearest)))
                              ])
                    ])
                  ])
                ])
      ]

  -- A known peer, neither the requester nor us, to which no other such peer is nearer.
  abbrev pub IsNearest : Context Rc → Key → Key → Key → Type 0
  IsNearest ctx requester target next =
      Known next ctx.nodes.nodes
      × (member next (requester ∷ ctx.our_key ∷ []) ≡ false)
      × NoneNearer target (requester ∷ ctx.our_key ∷ []) (xor next target) ctx.nodes.nodes

  abbrev pub IsAnswered :
      Context Rc → Key → ℕ → Option Rc → Context Rc × List (GotRouter Rc) → Type 0
  IsAnswered ctx requester txid answer r = r ≡ (ctx, new_got_router requester txid answer ∷ [])

  -- The message that asks the next peer, and the entry that waits for its answer.
  pub record IsAsked (now : ℕ) (ctx : Context Rc) (requester : Key) (txid : ℕ) (target next : Key)
      (r : Context Rc) : Type 0 where
    pub message :
        r.outbox
        ≡ ctx.outbox
          ++ ((
            next,
            record {
              from = next;
              target = target;
              iterative = false;
              txid = (ctx.ids + 1) % 2 ^ 64;
              version = 0;
            },
          )
              ∷ [])
    pub waits :
        find_tx (record { node = next; txid = (ctx.ids + 1) % 2 ^ 64 }) r.pending
        ≡ some (record {
          job = none;
          started = now;
          requester = requester;
          requester_tx = if txid == 0 then (ctx.ids + 1) % 2 ^ 64 else txid;
          target = target;
          exclude = [];
        })

  -- Why a peer is told that there is no contact: it and we know no other peer at less than the
  -- greatest distance, or the nearest one is not the target itself, and the lookup is iterative or
  -- the requester is nearer to the target than we are.
  abbrev pub Unanswerable : Context Rc → Key → Key → Bool → Type 0
  Unanswerable ctx requester target recursive =
      NoneNearer target (requester ∷ ctx.our_key ∷ []) all_ones ctx.nodes.nodes
      ⊎ ((next : Key) × IsNearest ctx requester target next
          × (eq next target ≡ false)
          × ((recursive ≡ false) ⊎ (lt (xor requester target) (xor ctx.our_key target) ≡ true)))
