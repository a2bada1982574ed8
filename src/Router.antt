-- ===== src/Router.antt =====
-- udap/router.cpp and udap/router.hpp: what the router does to reach another router, with the messages
-- that wait for it. Link messages and their encoding, links and sessions are a parameter: `encode` is
-- the encoding into the router's buffer, links have numbers, 0 is the outbound link's. What the
-- handlers ask of links, timers, workers and the DHT is a list of actions.
pub mod Released
pub mod Queues
pub mod Order
pub mod Retries
use uplexa_network.Prelude.{
  ℕ, ◌+◌, ◌-◌, ◌*◌, ◌/◌, ◌%◌, ◌^◌, Bool, true, false, List, [], ◌∷◌, ◌++◌, Option, none, some,
  if◌then◌else◌, ltb, ◌==◌,
}
use uplexa_network.Dht.Key.{Key}
use uplexa_network.Table.{find, insert, emplace, erase}
use uplexa_network.Contact.Address.{AddressInfo, address_at}
use uplexa_network.Contact.Router.{RouterContact}

-- udap_link_establish_job.
pub record Job : Type 0 where
  pub ai : AddressInfo
  pub timeout : ℕ
  pub retries : ℕ
  pub pubkey : Key

-- The address that is tried. The list of addresses is a pointer, which is followed without a test: a
-- contact that has none is one with no address here.
unfoldable pub first_address : Option (List AddressInfo) → Option AddressInfo
first_address none = none
first_address (some l) = address_at l 0

-- One retry less, and half as much time again.
unfoldable pub relaxed : Job → Job
relaxed job = record job { retries = job.retries - 1; timeout = (job.timeout * 3) % 2 ^ 64 / 2 }

abbrev is_some : Option Job → Bool
is_some none = false
is_some (some _) = true

-- The outbound link, or else the first inbound link that has a session.
unfoldable pub first_link : (ℕ → Key → Bool) → Key → List ℕ → Option ℕ
first_link has remote [] = none
first_link has remote (i ∷ is) = if has i remote then some i else first_link has remote is

module _ (Msg : Type 0) where
  -- outboundMesssageQueue, pendingEstablishJobs and validRouters.
  pub record Router : Type 0 where
    pub queues : List (Key × List Msg)
    pub pending : List (Key × Job)
    pub valid : List (Key × RouterContact)

  -- What is asked of the others; `sent` and `deleted` are what becomes of a message.
  pub data Action : Type 0 where
    sent : ℕ → Key → Msg → List ℕ → Action
    deleted : Key → Msg → Action
    try_establish : Job → Action
    retry_later : ℕ → Key → Action
    load_rc lookup_router verify_rc close_session : Key → Action
    put_peer : RouterContact → Action

  -- What happens to the router, one event after the other.
  pub data Event : Type 0 where
    send_event : (ℕ → Key → Bool) → List ℕ → (Key → Option RouterContact) → Key → Msg → Event
    loaded_event : Key → Option RouterContact → Event
    lookup_event : Key → Option RouterContact → Event
    result_event : Key → Bool → Event
    retry_event : ℕ → Bool → Key → Event
    client_event : RouterContact → Event
    server_event : Bool → RouterContact → Option ℕ → Event

module _ {Msg : Type 0} where
  abbrev pub waiting : Option (List Msg) → List Msg
  waiting none = []
  waiting (some q) = q

  abbrev pub queue_of : Key → Router Msg → List Msg
  queue_of remote r = waiting (find remote r.queues)

  -- The push into the queue, which is made where there is none.
  unfoldable pub push : Key → Msg → Router Msg → Router Msg
  push remote m r = record r { queues = insert remote (queue_of remote r ++ (m ∷ [])) r.queues }

  -- DiscardOutboundFor.
  unfoldable pub delete_all : Key → List Msg → List (Action Msg)
  delete_all remote [] = []
  delete_all remote (m ∷ ms) = deleted remote m ∷ delete_all remote ms

  unfoldable pub discard_outbound_for : Key → Router Msg → Router Msg × List (Action Msg)
  discard_outbound_for remote r =
      (record r { queues = erase remote r.queues }, delete_all remote (queue_of remote r))

  unfoldable pub has_pending_job : Key → Router Msg → Bool
  has_pending_job remote r = is_some (find remote r.pending)

  -- udap_router_try_connect.
  unfoldable pub connect_to :
      Option AddressInfo → Key → ℕ → Router Msg → Bool × Router Msg × List (Action Msg)
  connect_to none remote numretries r = (false, r, [])
  connect_to (some ai) remote numretries r =
      let job : Job = record { ai = ai; timeout = 10000; retries = numretries; pubkey = remote } in
      (true, record r { pending = emplace remote job r.pending }, try_establish job ∷ [])

  unfoldable pub try_connect :
      RouterContact → ℕ → Router Msg → Bool × Router Msg × List (Action Msg)
  try_connect rc numretries r =
      if has_pending_job rc.pubkey r
      then (false, r, [])
      else connect_to (first_address rc.addrs) rc.pubkey numretries r

  -- HandleDHTLookupForSendTo and HandleAsyncLoadRCForSendTo.
  unfoldable pub handle_lookup :
      Key → Option RouterContact → Router Msg → Router Msg × List (Action Msg)
  handle_lookup target none r = discard_outbound_for target r
  handle_lookup target (some rc) r = let c = try_connect rc 10 r in (c.1, c.2)

  unfoldable pub handle_loaded :
      Key → Option RouterContact → Router Msg → Router Msg × List (Action Msg)
  handle_loaded pubkey none r = (r, lookup_router pubkey ∷ [])
  handle_loaded pubkey (some rc) r = let c = try_connect rc 10 r in (c.1, c.2)

  -- on_try_connect_result, for the job of this key; a job that is gone is left alone.
  unfoldable pub connect_failed : Key → Job → Router Msg → Router Msg × List (Action Msg)
  connect_failed key job r =
      if ltb 0 job.retries
      then (
        record r { pending = insert key (relaxed job) r.pending },
        retry_later (relaxed job).timeout key ∷ [],
      )
      else (let d = discard_outbound_for job.pubkey r in
          (record (d.0) { pending = erase job.pubkey d.0.pending }, d.1))

  unfoldable pub on_result : Bool → Key → Option Job → Router Msg → Router Msg × List (Action Msg)
  on_result session key none r = (r, [])
  on_result true key (some job) r = (r, verify_rc key ∷ [])
  on_result false key (some job) r = connect_failed key job r

  unfoldable pub on_try_connect_result : Key → Bool → Router Msg → Router Msg × List (Action Msg)
  on_try_connect_result key session r = on_result session key (find key r.pending) r

  -- connect_job_retry: `left` is the time left, `linked` whether the job has a link.
  unfoldable pub connect_job_retry : ℕ → Bool → Key → Router Msg → List (Action Msg)
  connect_job_retry left linked key r = elim (find key r.pending) [
    | none ↦ []
    | some job ↦ if left == 0 then (if linked then try_establish job ∷ [] else []) else []
  ]

  -- on_verify_client_rc.
  unfoldable pub on_verify_client_rc : RouterContact → Router Msg → Router Msg
  on_verify_client_rc rc r = record r { pending = erase rc.pubkey r.pending }

  unfoldable pub send_encoded : ℕ → Key → Msg → Option (List ℕ) → Action Msg
  send_encoded link remote m none = deleted remote m
  send_encoded link remote m (some bytes) = sent link remote m bytes

  unfoldable pub close_of : Key → Option ℕ → List (Action Msg)
  close_of key none = []
  close_of key (some link) = close_session key ∷ []

  module _ (encode : Msg → Option (List ℕ)) where
    -- SendTo through a link, behind which the message is deleted.
    unfoldable pub send_to : ℕ → Key → Msg → Action Msg
    send_to link remote m = send_encoded link remote m (encode m)

    -- FlushOutboundFor: the loop over the queue, whose entry stays.
    unfoldable pub send_all : ℕ → Key → List Msg → List (Action Msg)
    send_all link remote [] = []
    send_all link remote (m ∷ ms) = send_to link remote m ∷ send_all link remote ms

    unfoldable pub flush_queue :
        ℕ → Key → Option (List Msg) → Router Msg → Router Msg × List (Action Msg)
    flush_queue link remote none r = (r, [])
    flush_queue link remote (some q) r =
        (record r { queues = insert remote [] r.queues }, send_all link remote q)

    unfoldable pub flush_outbound_for : ℕ → Key → Router Msg → Router Msg × List (Action Msg)
    flush_outbound_for link remote r = flush_queue link remote (find remote r.queues) r

    -- SendToOrQueue; `known` is what the node database has.
    unfoldable pub queue_message :
        Option RouterContact → Key → Msg → Router Msg → Router Msg × List (Action Msg)
    queue_message none remote m r = (push remote m r, load_rc remote ∷ [])
    queue_message (some rc) remote m r = let c = try_connect rc 10 (push remote m r) in (c.1, c.2)

    unfoldable pub send_or_queue :
        Option ℕ → Option RouterContact → Key → Msg → Router Msg → Router Msg × List (Action Msg)
    send_or_queue (some link) known remote m r = (r, send_to link remote m ∷ [])
    send_or_queue none known remote m r = queue_message known remote m r

    unfoldable pub send_to_or_queue :
        (ℕ → Key → Bool)
        → List ℕ
        → (Key → Option RouterContact)
        → Key
        → Msg
        → Router Msg
        → Router Msg × List (Action Msg)
    send_to_or_queue has inbound known remote m r =
        send_or_queue (first_link has remote (0 ∷ inbound)) (known remote) remote m r

    -- on_verify_server_rc: `session` is the link of the job's session, where it has one.
    unfoldable pub established : Key → Option ℕ → Router Msg → Router Msg × List (Action Msg)
    established pk none r = (r, [])
    established pk (some link) r =
        let f = flush_outbound_for link pk r in
        (record (f.0) { pending = erase pk f.0.pending }, f.1)

    unfoldable pub on_verify_server_rc :
        Bool → RouterContact → Option ℕ → Router Msg → Router Msg × List (Action Msg)
    on_verify_server_rc false rc session r =
        let d = discard_outbound_for rc.pubkey (record r { pending = erase rc.pubkey r.pending }) in
        (d.0, close_of rc.pubkey session ++ d.1)
    on_verify_server_rc true rc session r =
        let f = established rc.pubkey session (record r { valid = insert rc.pubkey rc r.valid }) in
        (f.0, put_peer rc ∷ f.1)

    unfoldable pub handle : Event Msg → Router Msg → Router Msg × List (Action Msg)
    handle (send_event has inbound known remote m) r = send_to_or_queue has inbound known remote m r
    handle (loaded_event pubkey rc) r = handle_loaded pubkey rc r
    handle (lookup_event target rc) r = handle_lookup target rc r
    handle (result_event key session) r = on_try_connect_result key session r
    handle (retry_event left linked key) r = (r, connect_job_retry left linked key r)
    handle (client_event rc) r = (on_verify_client_rc rc r, [])
    handle (server_event good rc session) r = on_verify_server_rc good rc session r

    unfoldable pub run : List (Event Msg) → Router Msg → Router Msg × List (Action Msg)
    run [] r = (r, [])
    run (e ∷ es) r = let h = handle e r in let rest = run es h.0 in (rest.0, h.1 ++ rest.1)
