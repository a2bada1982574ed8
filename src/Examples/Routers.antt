-- ===== src/Examples/Routers.antt =====
-- Runs of the router's queues. A message is a number, and is sent as its byte.
use uplexa_network.Prelude.{
  ℕ, ◌≡◌, refl, true, false, Bool, List, [], ◌∷◌, ◌++◌, Option, none, some, ◌≤◌,
}
use mathlib.Core.List.{Perm}
use uplexa_network.Dht.Key.{Key, eq, fill}
use uplexa_network.Table.{find}
use uplexa_network.Contact.Address.{AddressInfo}
use uplexa_network.Contact.Router.{RouterContact, blank_contact}
use uplexa_network.Router.{
  Job, Router, Event, send_event, server_event, queue_of, delete_all, first_link,
  on_try_connect_result, handle, run,
}
use uplexa_network.Router.Released.{released}
use uplexa_network.Router.Queues.{given, run-given}
use uplexa_network.Router.Order.{run-verified}
use uplexa_network.Router.Retries.{fail_times, IsRetried, fail_times_lem}

abbrev encode : ℕ → Option (List ℕ)
encode m = some (m ∷ [])

abbrev blank : Router ℕ
blank = record { queues = []; pending = []; valid = [] }

abbrev key : Key
key = fill 32 5

abbrev no_session : ℕ → Key → Bool
no_session _ _ = false

abbrev rc : RouterContact
rc = record blank_contact { pubkey = key }

abbrev two_waiting : List (Event ℕ)
two_waiting =
    send_event no_session [] (λ _. none) key 1
    ∷ send_event no_session (3 ∷ []) (λ _. none) key 2
    ∷ []

run-given_example :
    let es = two_waiting ++ (server_event true rc (some 0) ∷ []) in
    Perm
      (queue_of key blank ++ given encode key es)
      (released key (run encode es blank).1 ++ queue_of key (run encode es blank).0)
run-given_example = run-given encode (two_waiting ++ (server_event true rc (some 0) ∷ [])) key blank

run-verified_example :
    let before = run encode two_waiting blank in
    let x = handle encode (server_event true rc (some 0)) before.0 in
    (queue_of key x.0 ≡ [])
    × (released key (before.1 ++ x.1) ≡ queue_of key blank ++ given encode key two_waiting)
unfolding first_link
run-verified_example = run-verified encode two_waiting rc 0 blank (refl, (refl, tt))

abbrev address : AddressInfo
address = record {
  rank = 1;
  dialect = b'I' ∷ b'W' ∷ b'P' ∷ 0 ∷ 0 ∷ 0 ∷ [];
  enc_key = fill 32 3;
  ip = fill 16 1;
  port = 1090;
}

abbrev job : Job
job = record { ai = address; timeout = 10000; retries = 10; pubkey = key }

abbrev trying : Router ℕ
trying = record { queues = (key, 7 ∷ 8 ∷ []) ∷ []; pending = (key, job) ∷ []; valid = [] }

fail_times_lem_example :
    let x = on_try_connect_result key false (fail_times 10 key trying) in
    ((i : ℕ) → i ≤ 10 → (left : Job) × IsRetried i key job trying left)
    × (find key x.0.pending ≡ none)
    × (queue_of key x.0 ≡ [])
    × (x.1 ≡ delete_all key (queue_of key trying))
unfolding find eq fill
fail_times_lem_example = fail_times_lem key job trying refl refl
