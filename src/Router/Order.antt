-- ===== src/Router/Order.antt =====
-- Messages that wait keep their order.
use uplexa_network.Prelude.{
  ℕ, ◌≡◌, refl, sym, ap, ◌∙◌, true, List, [], ◌∷◌, ◌++◌, Option, none, some, append_assoc,
  append-nil, All,
}
use uplexa_network.Dht.Key.{Key}
use uplexa_network.Table.{find, insert, eq_refl}
use uplexa_network.Contact.Router.{RouterContact}
use uplexa_network.Router.{
  Router, Action, queue_of, push, flush_queue, flush_outbound_for, first_link, queue_message,
  send_or_queue, send_to_or_queue, established, on_verify_server_rc, Event, send_event,
  loaded_event, lookup_event, result_event, retry_event, client_event, server_event, handle, run,
  on_try_connect_result, on_verify_client_rc,
}
use uplexa_network.Router.Released.{
  released, for_key, try_connect-Keeps, lookup-Keeps, loaded-Keeps, result-Keeps, released-append,
  queue_of-insert,
}
use uplexa_network.Router.Queues.{given_one, given, push-Keeps, server-Keeps, retry-released}

module _ {Msg : Type 0} where
  -- A message that is handed in while no link has a session to its router.
  abbrev pub Waits : Event Msg → Type 0
  Waits (send_event has inbound known j m) = first_link has j (0 ∷ inbound) ≡ none
  Waits _ = Unit {0}

  module _ (encode : Msg → Option (List ℕ)) where
    abbrev InOrder : Key → Router Msg → List Msg → Router Msg × List (Action Msg) → Type 0
    InOrder k r ms x = queue_of k r ++ ms ≡ released k x.1 ++ queue_of k x.0

    send-InOrder :
        (known : Option RouterContact) (j k : Key) (m : Msg) (r : Router Msg)
        → InOrder k r (for_key j k (m ∷ [])) (send_or_queue encode none known j m r)
    unfolding send_or_queue queue_message released
    send-InOrder none j k m r = push-Keeps encode j k m r
    send-InOrder (some rc) j k m r =
        push-Keeps encode j k m r ∙ try_connect-Keeps rc k 10 (push j m r)

    handle-InOrder :
        (e : Event Msg) (k : Key) (r : Router Msg)
        → Waits e
        → InOrder k r (given_one encode k e) (handle encode e r)
    unfolding handle send_to_or_queue on_try_connect_result on_verify_client_rc released
    handle-InOrder (send_event has inbound known j m) k r w = rw w (send-InOrder (known j) j k m r)
    handle-InOrder (loaded_event j o) k r w = append-nil _ ∙ loaded-Keeps j k o r
    handle-InOrder (lookup_event j o) k r w = append-nil _ ∙ lookup-Keeps j k o r
    handle-InOrder (result_event j session) k r w =
        append-nil _ ∙ result-Keeps j k session (find j r.pending) r
    handle-InOrder (retry_event left linked j) k r w =
        append-nil _ ∙ sym (ap (λ ms. ms ++ queue_of k r) (retry-released encode left linked j k r))
    handle-InOrder (client_event rc) k r w = append-nil _
    handle-InOrder (server_event good rc session) k r w =
        append-nil _ ∙ server-Keeps encode good rc session k r

    run-InOrder :
        (es : List (Event Msg)) (k : Key) (r : Router Msg)
        → All Waits es
        → InOrder k r (given encode k es) (run encode es r)
    unfolding run given released
    run-InOrder [] k r w = append-nil _
    run-InOrder (e ∷ es) k r w =
        let h = handle encode e r in
        let rest = run encode es h.0 in
        sym (append_assoc (queue_of k r) (given_one encode k e) (given encode k es))
        ∙ ap (λ ms. ms ++ given encode k es) (handle-InOrder e k r w.0)
        ∙ append_assoc (released k h.1) (queue_of k h.0) (given encode k es)
        ∙ ap (λ ms. released k h.1 ++ ms) (run-InOrder es k h.0 w.1)
        ∙ sym (append_assoc (released k h.1) (released k rest.1) (queue_of k rest.0))
        ∙ ap (λ ms. ms ++ queue_of k rest.0) (sym (released-append k h.1 rest.1))

    flushed :
        (link : ℕ) (k : Key) (o : Option (List Msg)) (r : Router Msg)
        → find k r.queues ≡ o
        → queue_of k (flush_queue encode link k o r).0 ≡ []
    unfolding flush_queue
    flushed link k none r e = rw e
    flushed link k (some q) r e = queue_of-insert k k [] r ∙ rw (eq_refl k)

    verified_empty :
        (rc : RouterContact) (link : ℕ) (r : Router Msg)
        → queue_of rc.pubkey (handle encode (server_event true rc (some link)) r).0 ≡ []
    unfolding handle on_verify_server_rc established flush_outbound_for
    verified_empty rc link r =
        flushed link rc.pubkey (find rc.pubkey r.queues)
          (record r { valid = insert rc.pubkey rc r.valid }) refl

    -- If messages are handed in only while no link has a session to their router, then, once the
    -- contact of a router is verified over a session, nothing waits for it any more, and the
    -- messages that waited for it and were handed in for it have been sent or deleted in the order
    -- in which they came.
    pub run-verified :
        (es : List (Event Msg)) (rc : RouterContact) (link : ℕ) (r : Router Msg)
        → All Waits es
        → let before = run encode es r in
          let x = handle encode (server_event true rc (some link)) before.0 in
          (queue_of rc.pubkey x.0 ≡ [])
          × (released rc.pubkey (before.1 ++ x.1)
              ≡ queue_of rc.pubkey r ++ given encode rc.pubkey es)
    run-verified es rc link r w =
        let before = run encode es r in
        let last = server_event true rc (some link) in
        let x = handle encode last before.0 in
        let empty = verified_empty rc link before.0 in
        (
          empty,
          sym (
              run-InOrder es rc.pubkey r w
              ∙ ap (λ ms. released rc.pubkey before.1 ++ ms)
                  (sym (append-nil _)
                    ∙ handle-InOrder last rc.pubkey before.0 tt
                    ∙ ap (λ ms. released rc.pubkey x.1 ++ ms) empty
                    ∙ append-nil _)
              ∙ sym (released-append rc.pubkey before.1 x.1)),
        )
