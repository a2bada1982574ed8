-- ===== src/Router/Queues.antt =====
-- What becomes of the messages to a router.
use uplexa_network.Prelude.{
  ℕ, ◌≡◌, refl, sym, ap, subst, ◌∙◌, Bool, true, false, List, [], ◌∷◌, ◌++◌, Option, none, some,
  arith, Bool-cases, inl, inr, append_assoc, append-nil,
}
use mathlib.Core.List.{Perm, perm_append_comm}
use mathlib.Core.List.Perm
use uplexa_network.Dht.Key.{Key, eq}
use uplexa_network.Dht.Key.Laws.{eq_iff}
use uplexa_network.Table.{find, insert, erase}
use uplexa_network.Contact.Router.{RouterContact}
use uplexa_network.Router.Released.{
  released, released-append, for_key, Keeps, queue_of-insert, cleared, discard-Keeps,
  try_connect-Keeps, lookup-Keeps, loaded-Keeps, result-Keeps,
}
use uplexa_network.Router.{
  Router, Action, waiting, queue_of, push, handle_lookup, handle_loaded, on_result,
  on_try_connect_result, connect_job_retry, on_verify_client_rc, send_encoded, send_to, send_all,
  flush_queue, flush_outbound_for, first_link, queue_message, send_or_queue, send_to_or_queue,
  close_of, established, on_verify_server_rc, Event, send_event, loaded_event, lookup_event,
  result_event, retry_event, client_event, server_event, handle, run,
}

module _ {Msg : Type 0} where
  module _ (encode : Msg → Option (List ℕ)) where
    released-send_to :
        (link : ℕ) (j k : Key) (m : Msg) (acts : List (Action Msg)) (o : Option (List ℕ))
        → released k (send_encoded link j m o ∷ acts) ≡ for_key j k (m ∷ []) ++ released k acts
    unfolding released send_encoded
    released-send_to link j k m acts none = ground arith
    released-send_to link j k m acts (some bytes) = ground arith

    pub released-send_all :
        (link : ℕ) (j k : Key) (ms : List Msg)
        → released k (send_all encode link j ms) ≡ for_key j k ms
    unfolding send_all send_to released
    released-send_all link j k [] = ground arith
    released-send_all link j k (m ∷ ms) =
        released-send_to link j k m (send_all encode link j ms) (encode m)
        ∙ ground (arith, released-send_all link j k ms)

    flush_queue-Keeps :
        (link : ℕ) (j k : Key) (o : Option (List Msg)) (r : Router Msg)
        → find j r.queues ≡ o
        → Keeps k r (flush_queue encode link j o r)
    unfolding flush_queue released
    flush_queue-Keeps link j k none r e = refl
    flush_queue-Keeps link j k (some q) r e =
        cleared j k r (record r { queues = insert j [] r.queues }) (send_all encode link j q)
          (released-send_all link j k q ∙ ap (for_key j k) (sym (ap waiting e)))
          (queue_of-insert j k [] r)

    flush-Keeps :
        (link : ℕ) (j k : Key) (r : Router Msg) → Keeps k r (flush_outbound_for encode link j r)
    unfolding flush_outbound_for
    flush-Keeps link j k r = flush_queue-Keeps link j k (find j r.queues) r refl

    pub server-Keeps :
        (good : Bool) (rc : RouterContact) (session : Option ℕ) (k : Key) (r : Router Msg)
        → Keeps k r (on_verify_server_rc encode good rc session r)
    unfolding on_verify_server_rc established close_of released
    server-Keeps true rc none k r = refl
    server-Keeps true rc (some link) k r =
        flush-Keeps link rc.pubkey k (record r { valid = insert rc.pubkey rc r.valid })
    server-Keeps false rc none k r =
        discard-Keeps rc.pubkey k (record r { pending = erase rc.pubkey r.pending })
    server-Keeps false rc (some link) k r =
        discard-Keeps rc.pubkey k (record r { pending = erase rc.pubkey r.pending })

    pub retry-released :
        (left : ℕ) (linked : Bool) (j k : Key) (r : Router Msg)
        → released k (connect_job_retry left linked j r) ≡ []
    unfolding connect_job_retry released
    retry-released left linked j k r = ground arith

    -- The messages to `k` that the event hands in.
    abbrev pub given_one : Key → Event Msg → List Msg
    given_one k (send_event has inbound known j m) = for_key j k (m ∷ [])
    given_one k _ = []

    unfoldable pub given : Key → List (Event Msg) → List Msg
    given k [] = []
    given k (e ∷ es) = given_one k e ++ given k es

    abbrev Conserves : Key → Router Msg → List Msg → Router Msg × List (Action Msg) → Type 0
    Conserves k r ms x = Perm (queue_of k r ++ ms) (released k x.1 ++ queue_of k x.0)

    Keeps-Conserves :
        (k : Key) (r : Router Msg) (x : Router Msg × List (Action Msg))
        → Keeps k r x
        → Conserves k r [] x
    Keeps-Conserves k r x e = rw (append-nil, e) (Perm.refl _)

    direct :
        (link : ℕ) (j k : Key) (m : Msg) (r : Router Msg)
        → Conserves k r (for_key j k (m ∷ [])) (r, send_to encode link j m ∷ [])
    unfolding send_to released
    direct link j k m r =
        subst (λ ms. Perm (queue_of k r ++ for_key j k (m ∷ [])) (ms ++ queue_of k r))
          (sym (released-send_to link j k m [] (encode m) ∙ append-nil _))
          (perm_append_comm (queue_of k r) (for_key j k (m ∷ [])))

    pub push-Keeps :
        (j k : Key) (m : Msg) (r : Router Msg)
        → queue_of k r ++ for_key j k (m ∷ []) ≡ queue_of k (push j m r)
    unfolding push
    push-Keeps j k m r = elim (Bool-cases (eq j k)) [
      | inl e ↦
          let same = (eq_iff j k).0 e in
          rw e (
            ap (λ i. queue_of i r ++ (m ∷ [])) (sym same)
            ∙ sym (queue_of-insert j k (queue_of j r ++ (m ∷ [])) r ∙ rw e))
      | inr e ↦ rw e (
          append-nil (queue_of k r) ∙ sym (queue_of-insert j k (queue_of j r ++ (m ∷ [])) r ∙ rw e))
    ]

    send-Conserves :
        (link : Option ℕ) (known : Option RouterContact) (j k : Key) (m : Msg) (r : Router Msg)
        → Conserves k r (for_key j k (m ∷ [])) (send_or_queue encode link known j m r)
    unfolding send_or_queue queue_message released
    send-Conserves (some link) known j k m r = direct link j k m r
    send-Conserves none none j k m r = rw (push-Keeps j k m r) (Perm.refl _)
    send-Conserves none (some rc) j k m r =
        rw (push-Keeps j k m r, try_connect-Keeps rc k 10 (push j m r)) (Perm.refl _)

    handle-Conserves :
        (e : Event Msg) (k : Key) (r : Router Msg)
        → Conserves k r (given_one k e) (handle encode e r)
    unfolding handle send_to_or_queue on_try_connect_result on_verify_client_rc released
    handle-Conserves (send_event has inbound known j m) k r =
        send-Conserves (first_link has j (0 ∷ inbound)) (known j) j k m r
    handle-Conserves (loaded_event j o) k r =
        Keeps-Conserves k r (handle_loaded j o r) (loaded-Keeps j k o r)
    handle-Conserves (lookup_event j o) k r =
        Keeps-Conserves k r (handle_lookup j o r) (lookup-Keeps j k o r)
    handle-Conserves (result_event j session) k r =
        Keeps-Conserves k r (on_result session j (find j r.pending) r)
          (result-Keeps j k session (find j r.pending) r)
    handle-Conserves (retry_event left linked j) k r =
        Keeps-Conserves k r (r, connect_job_retry left linked j r)
          (rw (retry-released left linked j k r))
    handle-Conserves (client_event rc) k r = Keeps-Conserves k r (on_verify_client_rc rc r, []) refl
    handle-Conserves (server_event good rc session) k r =
        Keeps-Conserves k r (on_verify_server_rc encode good rc session r)
          (server-Keeps good rc session k r)

    -- Over any sequence of the router's events, the messages that waited for a router at the start
    -- and those handed in for it are, each as often and in some order, the ones sent to it or
    -- deleted and the ones that wait for it at the end: none is lost and none doubled.
    pub run-given :
        (es : List (Event Msg)) (k : Key) (r : Router Msg)
        → Perm
            (queue_of k r ++ given k es)
            (released k (run encode es r).1 ++ queue_of k (run encode es r).0)
    unfolding run given released
    run-given [] k r = rw (append-nil) (Perm.refl _)
    run-given (e ∷ es) k r =
        let h = handle encode e r in
        let rest = run encode es h.0 in
        rw (released-append k h.1 rest.1, append_assoc)
          (rw⁻¹ (append_assoc (queue_of k r) (given_one k e) (given k es)) (
            Perm.trans (Perm.append_right (given k es) (handle-Conserves e k r))
              (rw append_assoc (Perm.append_left (released k h.1) (run-given es k h.0)))))
