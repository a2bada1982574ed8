-- ===== src/Router/Retries.antt =====
-- The attempts to reach a router end.
use uplexa_network.Prelude.{
  ℕ, zero, suc, ◌-◌, ◌≤◌, ◌<◌, ◌≡◌, refl, ap, ◌∙◌, false, List, [], none, some, arith, lt→ltb,
}
use uplexa_network.Dht.Key.{Key}
use uplexa_network.Table.{find, insert, erase, find-insert, find-erase, eq_refl}
use uplexa_network.Router.{
  Job, Router, Action, relaxed, queue_of, waiting, delete_all, discard_outbound_for, connect_failed,
  on_result, on_try_connect_result,
}

module _ {Msg : Type 0} where
  -- So many attempts in a row that fail.
  unfoldable pub fail_times : ℕ → Key → Router Msg → Router Msg
  fail_times zero key r = r
  fail_times (suc n) key r = fail_times n key (on_try_connect_result key false r).0

  retried :
      (key : Key) (job : Job) (r : Router Msg)
      → find key r.pending ≡ some job
      → 0 < job.retries
      → (on_try_connect_result key false r).0
        ≡ record r { pending = insert key (relaxed job) r.pending }
  unfolding on_try_connect_result on_result connect_failed
  retried key job r e more =
      ap (λ o. (on_result false key o r).0) e ∙ rw (lt→ltb 0 job.retries more)

  given_up :
      (key : Key) (job : Job) (r : Router Msg)
      → find key r.pending ≡ some job
      → job.retries ≡ 0
      → (on_try_connect_result key false r) ≡ (
        record r { queues = erase job.pubkey r.queues; pending = erase job.pubkey r.pending },
        delete_all job.pubkey (queue_of job.pubkey r),
      )
  unfolding on_try_connect_result on_result connect_failed discard_outbound_for
  given_up key job r e none_left = ap (λ o. on_result false key o r) e ∙ rw none_left

  -- The job as it stands behind some failures, with the messages that wait as they were.
  pub record IsRetried (i : ℕ) (key : Key) (job : Job) (r : Router Msg) (left : Job) : Type 0 where
    pub still : find key (fail_times i key r).pending ≡ some left
    pub fewer : left.retries ≡ job.retries - i
    pub own : left.pubkey ≡ key
    pub waiting_same : (fail_times i key r).queues ≡ r.queues

  fail_times-IsRetried :
      (i : ℕ) (key : Key) (job : Job) (r : Router Msg)
      → find key r.pending ≡ some job
      → job.pubkey ≡ key
      → i ≤ job.retries
      → (left : Job) × IsRetried i key job r left
  unfolding fail_times
  fail_times-IsRetried zero key job r e own enough =
      (job, record { still = e; fewer = omega arith; own = own; waiting_same = refl })
  fail_times-IsRetried (suc i) key job r e own enough =
      let once = record r { pending = insert key (relaxed job) r.pending } in
      let there : find key once.pending ≡ some (relaxed job) =
        find-insert key key (relaxed job) r.pending ∙ rw (eq_refl key) in
      let step = retried key job r e (omega arith) in
      let (left, s) =
        fail_times-IsRetried i key (relaxed job) once there (unfold relaxed in own)
          (unfold relaxed in omega arith) in
      (
        left,
        record {
          still = ap (λ s'. find key (fail_times i key s').pending) step ∙ s.still;
          fewer = s.fewer ∙ (unfold relaxed in omega arith);
          own = s.own;
          waiting_same = ap (λ s'. (fail_times i key s').queues) step ∙ s.waiting_same;
        },
      )

  -- A pending job under its own key with some number of retries stays pending, with one retry less
  -- for each attempt that fails and with the waiting messages as they were, for as many failures
  -- as it has retries; the failure behind them ends it: the job is gone, and exactly the messages
  -- that waited for its router are deleted and no longer wait.
  pub fail_times_lem :
      (key : Key) (job : Job) (r : Router Msg)
      → find key r.pending ≡ some job
      → job.pubkey ≡ key
      → let x = on_try_connect_result key false (fail_times job.retries key r) in
        ((i : ℕ) → i ≤ job.retries → (left : Job) × IsRetried i key job r left)
        × (find key x.0.pending ≡ none)
        × (queue_of key x.0 ≡ [])
        × (x.1 ≡ delete_all key (queue_of key r))
  fail_times_lem key job r e own =
      let (left, s) = fail_times-IsRetried job.retries key job r e own (omega arith) in
      let last = fail_times job.retries key r in
      let end = given_up key left last s.still (s.fewer ∙ omega arith) in
      (
        λ i. fail_times-IsRetried i key job r e own,
        ap (λ (x : Router Msg × List (Action Msg)). find key x.0.pending) end
            ∙ ap (λ k. find key (erase k last.pending)) s.own
            ∙ find-erase key key last.pending
            ∙ rw (eq_refl key),
        ap (λ (x : Router Msg × List (Action Msg)). queue_of key x.0) end
            ∙ ap (λ k. waiting (find key (erase k last.queues))) s.own
            ∙ ap waiting (find-erase key key last.queues)
            ∙ rw (eq_refl key),
        ap (λ (x : Router Msg × List (Action Msg)). x.1) end
            ∙ ap (λ k. delete_all k (queue_of k last)) s.own
            ∙ ap (λ q. delete_all key (waiting (find key q))) s.waiting_same,
      )
