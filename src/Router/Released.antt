-- ===== src/Router/Released.antt =====
-- What the handlers release of the messages that wait for a router.
use uplexa_network.Prelude.{
  ℕ, ◌≡◌, refl, sym, ap, ◌∙◌, Bool, true, false, List, [], ◌∷◌, ◌++◌, Option, none, some,
  if◌then◌else◌, ltb, arith, Bool-cases, inl, inr, append-nil,
}
use uplexa_network.Dht.Key.{Key, eq}
use uplexa_network.Dht.Key.Laws.{eq_iff}
use uplexa_network.Table.{insert, erase, find-insert, find-erase}
use uplexa_network.Contact.Address.{AddressInfo}
use uplexa_network.Contact.Router.{RouterContact}
use uplexa_network.Router.{
  Job, Router, Action, sent, deleted, try_establish, retry_later, load_rc, lookup_router, verify_rc,
  close_session, put_peer, waiting, queue_of, delete_all, discard_outbound_for, has_pending_job,
  connect_to, try_connect, handle_lookup, handle_loaded, connect_failed, on_result, first_address,
}

module _ {Msg : Type 0} where
  -- The messages to `k` that were sent or deleted, in order.
  unfoldable pub released : Key → List (Action Msg) → List Msg
  released k [] = []
  released k (sent link j m bytes ∷ acts) =
      let rest = released k acts in if eq j k then m ∷ rest else rest
  released k (deleted j m ∷ acts) = let rest = released k acts in if eq j k then m ∷ rest else rest
  released k (_ ∷ acts) = released k acts

  pub released-append :
      (k : Key) (acts bs : List (Action Msg))
      → released k (acts ++ bs) ≡ released k acts ++ released k bs
  unfolding released
  released-append k [] bs = refl
  released-append k (sent link j m bytes ∷ acts) bs = ground (arith, released-append k acts bs)
  released-append k (deleted j m ∷ acts) bs = ground (arith, released-append k acts bs)
  released-append k (try_establish _ ∷ acts) bs = released-append k acts bs
  released-append k (retry_later _ _ ∷ acts) bs = released-append k acts bs
  released-append k (load_rc _ ∷ acts) bs = released-append k acts bs
  released-append k (lookup_router _ ∷ acts) bs = released-append k acts bs
  released-append k (verify_rc _ ∷ acts) bs = released-append k acts bs
  released-append k (close_session _ ∷ acts) bs = released-append k acts bs
  released-append k (put_peer _ ∷ acts) bs = released-append k acts bs

  abbrev pub for_key : Key → Key → List Msg → List Msg
  for_key j k ms = if eq j k then ms else []

  released-delete_all : (j k : Key) (ms : List Msg) → released k (delete_all j ms) ≡ for_key j k ms
  unfolding released delete_all
  released-delete_all j k [] = ground arith
  released-delete_all j k (m ∷ ms) = ground (arith, released-delete_all j k ms)

  -- What goes out and what stays are what was there.
  abbrev pub Keeps : Key → Router Msg → Router Msg × List (Action Msg) → Type 0
  Keeps k r x = queue_of k r ≡ released k x.1 ++ queue_of k x.0

  waiting-if :
      (b : Bool) (q : List Msg) (o : Option (List Msg))
      → waiting (if b then some q else o) ≡ (if b then q else waiting o)
  waiting-if true q o = refl
  waiting-if false q o = refl

  waiting-if_none :
      (b : Bool) (o : Option (List Msg))
      → waiting (if b then none else o) ≡ (if b then [] else waiting o)
  waiting-if_none true o = refl
  waiting-if_none false o = refl

  pub queue_of-insert :
      (j k : Key) (q : List Msg) (r : Router Msg)
      → queue_of k (record r { queues = insert j q r.queues })
        ≡ (if eq j k then q else queue_of k r)
  queue_of-insert j k q r = ap waiting (find-insert j k q r.queues) ∙ waiting-if (eq j k) q _

  -- A queue whose messages all go out in order, and is empty or gone then.
  pub cleared :
      (j k : Key) (r r' : Router Msg) (acts : List (Action Msg))
      → released k acts ≡ for_key j k (queue_of j r)
      → queue_of k r' ≡ (if eq j k then [] else queue_of k r)
      → Keeps k r (r', acts)
  cleared j k r r' acts out left = elim (Bool-cases (eq j k)) [
    | inl e ↦
        let same = (eq_iff j k).0 e in
        rw (out, left, e) (ap (λ i. queue_of i r) (sym same) ∙ sym (append-nil (queue_of j r)))
    | inr e ↦ rw (out, left, e)
  ]

  pub discard-Keeps : (j k : Key) (r : Router Msg) → Keeps k r (discard_outbound_for j r)
  unfolding discard_outbound_for
  discard-Keeps j k r =
      cleared j k r (record r { queues = erase j r.queues }) (delete_all j (queue_of j r))
        (released-delete_all j k (queue_of j r))
        (ap waiting (find-erase j k r.queues) ∙ waiting-if_none (eq j k) _)

  connect_to-Keeps :
      (o : Option AddressInfo) (j k : Key) (n : ℕ) (r : Router Msg)
      → Keeps k r ((connect_to o j n r).1, (connect_to o j n r).2)
  unfolding connect_to released
  connect_to-Keeps none j k n r = refl
  connect_to-Keeps (some ai) j k n r = refl

  pub try_connect-Keeps :
      (rc : RouterContact) (k : Key) (n : ℕ) (r : Router Msg)
      → Keeps k r ((try_connect rc n r).1, (try_connect rc n r).2)
  unfolding try_connect released
  try_connect-Keeps rc k n r = elim (Bool-cases (has_pending_job rc.pubkey r)) [
    | inl e ↦ rw e refl
    | inr e ↦ rw e (connect_to-Keeps (first_address rc.addrs) rc.pubkey k n r)
  ]

  pub lookup-Keeps :
      (j k : Key) (o : Option RouterContact) (r : Router Msg) → Keeps k r (handle_lookup j o r)
  unfolding handle_lookup
  lookup-Keeps j k none r = discard-Keeps j k r
  lookup-Keeps j k (some rc) r = try_connect-Keeps rc k 10 r

  pub loaded-Keeps :
      (j k : Key) (o : Option RouterContact) (r : Router Msg) → Keeps k r (handle_loaded j o r)
  unfolding handle_loaded released
  loaded-Keeps j k none r = refl
  loaded-Keeps j k (some rc) r = try_connect-Keeps rc k 10 r

  failed-Keeps : (j k : Key) (job : Job) (r : Router Msg) → Keeps k r (connect_failed j job r)
  unfolding connect_failed released
  failed-Keeps j k job r = elim (Bool-cases (ltb 0 job.retries)) [
    | inl e ↦ rw e refl
    | inr e ↦ rw e (discard-Keeps job.pubkey k r)
  ]

  pub result-Keeps :
      (j k : Key) (session : Bool) (o : Option Job) (r : Router Msg)
      → Keeps k r (on_result session j o r)
  unfolding on_result released
  result-Keeps j k true none r = refl
  result-Keeps j k false none r = refl
  result-Keeps j k true (some job) r = refl
  result-Keeps j k false (some job) r = failed-Keeps j k job r
