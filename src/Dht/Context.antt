-- ===== src/Dht/Context.antt =====
-- Context and SearchJob of include/udap/dht.hpp and udap/dht.cpp, with the messages' handlers.
-- The clock is an argument of each call. What the handlers do to the router and to the users of
-- lookups is kept in order: `outbox` has the DHT messages given to SendToOrQueue, `calls` the calls
-- of the jobs' hooks with the contact that was copied into the job.
pub mod Table
pub mod Lookup
pub mod Answer
pub mod Excludes
pub mod Searches
pub mod Cleanup
use uplexa_network.Prelude.{
  ℕ, ◌+◌, ◌-◌, ◌%◌, ◌^◌, Bool, true, false, not, ◌&&◌, ◌||◌, List, [], ◌∷◌, ◌++◌, Option, none,
  some, ltb, leb, ◌==◌, if◌then◌else◌, length,
}
use uplexa_network.Dht.Key.{Key, xor, lt, eq, is_zero, fill}
use uplexa_network.Dht.Bucket.{Node, Bucket, insert, find, find_closest, find_close_excluding}
use uplexa_network.Dht.Message.{
  FindRouter, GotRouter, Message, find_router, got_router, new_got_router, new_find_router,
}

-- SearchJob::JobTimeout, in milliseconds.
abbrev job_timeout : ℕ
job_timeout = 30000

-- udap_router_lookup_job: who asked, whether there is a hook, and the target.
pub record LookupJob : Type 0 where
  pub id : ℕ
  pub has_hook : Bool
  pub target : Key

pub record SearchJob : Type 0 where
  pub job : Option LookupJob
  pub started : ℕ
  pub requester : Key
  pub requester_tx : ℕ
  pub target : Key
  pub exclude : List Key

pub record TxOwner : Type 0 where
  pub node : Key
  pub txid : ℕ

pub record Context (Rc : Type 0) : Type 0 where
  pub our_key : Key
  pub our_rc : Rc
  pub nodes : Bucket Rc
  pub allow_transit : Bool
  pub ids : ℕ
  pub pending : List (TxOwner × SearchJob)
  pub outbox : List (Key × FindRouter)
  pub calls : List (LookupJob × Option Rc)

-- TXOwner::operator==.
unfoldable pub same_owner : TxOwner → TxOwner → Bool
same_owner a b = a.txid == b.txid && eq a.node b.node

-- SearchJob::IsExpired. The clock is a uint64_t.
unfoldable pub is_expired : SearchJob → ℕ → Bool
is_expired job now = leb job_timeout ((now + 2 ^ 64 - job.started) % 2 ^ 64)

-- `pendingTX.find`, `pendingTX[owner] = job` and `pendingTX.erase` of the hash map.
unfoldable pub find_tx : TxOwner → List (TxOwner × SearchJob) → Option SearchJob
find_tx o [] = none
find_tx o ((p, j) ∷ ps) = let rest = find_tx o ps in if same_owner p o then some j else rest

unfoldable pub erase_tx : TxOwner → List (TxOwner × SearchJob) → List (TxOwner × SearchJob)
erase_tx o [] = []
erase_tx o ((p, j) ∷ ps) = let rest = erase_tx o ps in if same_owner p o then ps else (p, j) ∷ rest

unfoldable pub put_tx :
    TxOwner → SearchJob → List (TxOwner × SearchJob) → List (TxOwner × SearchJob)
put_tx o job [] = (o, job) ∷ []
put_tx o job ((p, j) ∷ ps) =
    let rest = put_tx o job ps in if same_owner p o then (p, job) ∷ ps else (p, j) ∷ rest

module _ {Rc : Type 0} where
  -- SearchJob::Completed: the call of the hook, where the search has a job with one.
  unfoldable pub call_hook : Option LookupJob → Option Rc → List (LookupJob × Option Rc)
  call_hook none rc = []
  call_hook (some job) rc = if job.has_hook then (job, rc) ∷ [] else []

  unfoldable pub completed : SearchJob → Option Rc → Context Rc → Context Rc
  completed search rc ctx = record ctx { calls = ctx.calls ++ call_hook search.job rc }

  unfoldable pub find_pending_tx : Context Rc → Key → ℕ → Option SearchJob
  find_pending_tx ctx owner id = find_tx (record { node = owner; txid = id }) ctx.pending

  unfoldable pub remove_pending_lookup : Context Rc → Key → ℕ → Context Rc
  remove_pending_lookup ctx owner id = record ctx {
    pending = erase_tx (record { node = owner; txid = id }) ctx.pending;
  }

  -- The loop of CleanupTX.
  unfoldable pub cleanup_loop :
      ℕ → List (TxOwner × SearchJob) → List (TxOwner × SearchJob) × List (LookupJob × Option Rc)
  cleanup_loop now [] = ([], [])
  cleanup_loop now ((o, j) ∷ ps) =
      let rest = cleanup_loop now ps in
      if is_expired j now
      then (rest.0, call_hook j.job none ++ rest.1)
      else ((o, j) ∷ rest.0, rest.1)

  unfoldable pub cleanup_tx : ℕ → Context Rc → Context Rc
  unfolding cleanup_loop
  cleanup_tx now ctx =
      let r = cleanup_loop now ctx.pending in record ctx { pending = r.0; calls = ctx.calls ++ r.1 }

  -- Context::LookupRouter.
  unfoldable pub lookup_router :
      ℕ → Context Rc → Key → Key → ℕ → Key → Option LookupJob → Bool → List Key → Context Rc
  lookup_router now ctx target whoasked txid askpeer job iterative excludes =
      let id = (ctx.ids + 1) % 2 ^ 64 in
      if is_zero target || is_zero whoasked || is_zero askpeer then ctx else record ctx {
        ids = id;
        pending =
            put_tx (record { node = askpeer; txid = id })
              (record {
                job = job;
                started = now;
                requester = whoasked;
                requester_tx = if txid == 0 then id else txid;
                target = target;
                exclude = excludes;
              })
              ctx.pending;
        outbox =
            ctx.outbox
            ++ ((askpeer, record (new_find_router askpeer target id) { iterative = iterative })
                ∷ []);
      }

  -- `nodes->nodes[target].rc`, for a target that is known.
  unfoldable pub known_rc : Option (Node Rc) → Option Rc
  known_rc none = none
  known_rc (some n) = some n.rc

  -- Context::LookupRouterRelayed, with the replies that it adds.
  unfoldable pub lookup_router_relayed :
      ℕ → Context Rc → Key → ℕ → Key → Bool → Context Rc × List (GotRouter Rc)
  lookup_router_relayed now ctx requester txid target recursive =
      let search =
        find_close_excluding ctx.nodes target (requester ∷ ctx.our_key ∷ []) (fill 32 0) in
      let next = search.1 in
      let not_found : Context Rc × List (GotRouter Rc) =
        (ctx, new_got_router requester txid none ∷ []) in
      if eq target ctx.our_key
      then (ctx, new_got_router requester txid (some ctx.our_rc) ∷ [])
      else if not search.0
      then not_found
      else if eq next target
      then (ctx, new_got_router requester txid (known_rc (find target ctx.nodes.nodes)) ∷ [])
      else if not recursive
      then not_found
      else if lt (xor requester target) (xor ctx.our_key target)
      then not_found
      else (lookup_router now ctx target requester txid next none false [], [])

  -- Context::LookupRouterViaJob; `peer` is its uninitialised local variable.
  unfoldable pub lookup_router_via_job : ℕ → Key → Context Rc → LookupJob → Context Rc
  lookup_router_via_job now peer ctx job =
      let search = find_closest ctx.nodes job.target peer in
      if search.0
      then lookup_router now ctx job.target ctx.our_key 0 search.1 (some job) false []
      else record ctx { calls = ctx.calls ++ call_hook (some job) none }

  -- FindRouterMessage::HandleMessage.
  unfoldable pub handle_find_router :
      ℕ → Context Rc → FindRouter → Bool × Context Rc × List (GotRouter Rc)
  handle_find_router now ctx m =
      let r = lookup_router_relayed now ctx m.from m.txid m.target (not m.iterative) in
      if not ctx.allow_transit then (false, ctx, []) else elim (find_pending_tx ctx m.from m.txid) [
        | some _ ↦ (false, ctx, [])
        | none ↦ (true, r.0, r.1)
      ]

  -- `if(pending->requester != dht.OurKey()) replies.push_back(...)`.
  unfoldable pub relay_answer : Context Rc → SearchJob → Option Rc → List (GotRouter Rc)
  relay_answer ctx pending rc =
      if eq pending.requester ctx.our_key
      then []
      else new_got_router pending.target pending.requester_tx rc ∷ []

  -- The branch that iterates to the next closest peer, which may be the end of the search. The
  -- exclusion set that grows belongs to the entry that is removed behind it.
  unfoldable pub iterate : ℕ → Context Rc → SearchJob → Key → Context Rc × List (GotRouter Rc)
  iterate now ctx pending from =
      let exclude = insert from pending.exclude in
      let search = find_close_excluding ctx.nodes pending.target exclude (fill 32 0) in
      if ltb (length exclude) 3 && search.0
      then (
        lookup_router now ctx pending.target pending.requester pending.requester_tx search.1 none
            true exclude,
        [],
      )
      else (completed pending none ctx, relay_answer ctx pending none)

  unfoldable pub got_answer :
      ℕ → Context Rc → SearchJob → Key → List Rc → Context Rc × List (GotRouter Rc)
  got_answer now ctx pending from [] = iterate now ctx pending from
  got_answer now ctx pending from (rc ∷ _) =
      (completed pending (some rc) ctx, relay_answer ctx pending (some rc))

  -- GotRouterMessage::HandleMessage.
  unfoldable pub handle_got_router :
      ℕ → Context Rc → GotRouter Rc → Bool × Context Rc × List (GotRouter Rc)
  handle_got_router now ctx m = elim (find_pending_tx ctx m.from m.txid) [
    | none ↦ (false, ctx, [])
    | some pending ↦
        let r = got_answer now ctx pending m.from m.found in
        (true, remove_pending_lookup r.0 m.from m.txid, r.1)
  ]

  unfoldable pub handle_message :
      ℕ → Context Rc → Message Rc → Bool × Context Rc × List (GotRouter Rc)
  unfolding handle_find_router handle_got_router
  handle_message now ctx (find_router m) = handle_find_router now ctx m
  handle_message now ctx (got_router m) = handle_got_router now ctx m

  -- The loop of DHTImmeidateMessage::HandleMessage: every message is handled, and the results are
  -- joined by `&=`.
  unfoldable pub handle_messages :
      ℕ → Context Rc → List (Message Rc) → Bool × Context Rc × List (GotRouter Rc)
  unfolding handle_message
  handle_messages now ctx [] = (true, ctx, [])
  handle_messages now ctx (m ∷ ms) =
      let (good, ctx', replies) = handle_message now ctx m in
      let (good', ctx'', replies') = handle_messages now ctx' ms in
      (good && good', ctx'', replies ++ replies')

  -- DHTImmeidateMessage::HandleMessage: the replies go back in one message, if all went well, even
  -- where there are none.
  unfoldable pub handle_immediate :
      ℕ → Context Rc → Key → List (Message Rc) → Context Rc × Option (Key × List (GotRouter Rc))
  unfolding handle_messages
  handle_immediate now ctx remote ms =
      let (good, ctx', replies) = handle_messages now ctx ms in
      (ctx', if good then some (remote, replies) else none)
