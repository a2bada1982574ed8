-- ===== src/Examples/Lookups.antt =====
-- Runs of udap/dht.cpp.
use uplexa_network.Prelude.{ℕ, ◌≡◌, ◌≤◌, length, ◌⊎◌, refl, true, false, none, some, List, [], ◌∷◌}
use uplexa_network.Dht.Key.{Key, xor, lt, eq, is_zero, fill, all_ones}
use uplexa_network.Dht.Bucket.{
  Node, member, insert, find_closest, closest_loop, excluding_loop, find_close_excluding,
}
use uplexa_network.Dht.Bucket.Search.{Known, NoneNearer, find_close_excluding_closest}
use uplexa_network.Dht.Message.{FindRouter, GotRouter, new_find_router}
use uplexa_network.Dht.Context.{
  LookupJob, SearchJob, TxOwner, Context, put_tx, erase_tx, lookup_router_via_job, got_answer,
  iterate, remove_pending_lookup, same_owner, find_tx, find_pending_tx, lookup_router,
  handle_got_router,
}
use uplexa_network.Dht.Context.Table.{Distinct}
use uplexa_network.Dht.Context.Searches.{AskedInTurn, asks, goes_on, Different, search_asks_few}
use uplexa_network.Dht.Context.Answer.{handle_got_router_settles}
use uplexa_network.Dht.Context.Excludes.{looked_up, run}

abbrev key : ℕ → Key
key n = fill 32 n

-- A contact is a number.
abbrev node : ℕ → Node ℕ
node n = record { id = key n; rc = n }

abbrev job : LookupJob
job = record { id = 7; has_hook = true; target = key 9 }

abbrev search : SearchJob
search = record {
  job = some job;
  started = 1000;
  requester = key 1;
  requester_tx = 5;
  target = key 9;
  exclude = [];
}

-- We are key 1, know the keys 2 and 3, and wait for the answer of 2 to a lookup of ours.
abbrev waiting : Context ℕ
waiting = record {
  our_key = key 1;
  our_rc = 1;
  nodes = record { us = key 1; nodes = node 3 ∷ node 2 ∷ [] };
  allow_transit = true;
  ids = 5;
  pending = (record { node = key 2; txid = 5 }, search) ∷ [];
  outbox = [];
  calls = [];
}

waiting-Distinct : Distinct waiting.pending
unfolding find_tx
waiting-Distinct = (refl, tt)

abbrev answer : List ℕ → GotRouter ℕ
answer found = record { from = key 2; found = found; txid = 5; version = 0 }

abbrev request : FindRouter
request = record { from = key 4; target = key 9; iterative = false; txid = 77; version = 0 }

answer_awaited :
    (found : List ℕ) → find_pending_tx waiting (answer found).from (answer found).txid ≡ some search
unfolding find_pending_tx find_tx same_owner eq fill
answer_awaited found = refl

-- We know the keys 2 and 3, and wait for nothing.
abbrev idle : Context ℕ
idle = record waiting { pending = [] }

abbrev looking : Context ℕ
looking = run key idle (looked_up 1000 (key 0) job ∷ [])

-- Key 3 is nearer to key 9 than key 2.
abbrev first_owner : TxOwner
first_owner = record { node = key 3; txid = 6 }

abbrev second_message : FindRouter
second_message = record { from = key 2; target = key 9; iterative = true; txid = 7; version = 0 }

two_asked : AskedInTurn key looking first_owner (key 3 ∷ key 2 ∷ [])
unfolding run lookup_router_via_job find_closest closest_loop lookup_router new_find_router find_tx
    put_tx handle_got_router find_pending_tx got_answer iterate insert member find_close_excluding
    excluding_loop remove_pending_lookup erase_tx same_owner is_zero eq lt xor fill
two_asked = goes_on 2000 (key 2) second_message refl asks

search_asks_few_example : (length (key 3 ∷ key 2 ∷ []) ≤ 3) × Different (key 3 ∷ key 2 ∷ [])
unfolding run lookup_router_via_job find_closest closest_loop lookup_router new_find_router find_tx
    put_tx same_owner is_zero eq lt xor fill
search_asks_few_example =
    search_asks_few key idle (looked_up 1000 (key 0) job ∷ []) first_owner
      (record search { requester_tx = 6 }) (key 3 ∷ key 2 ∷ []) refl refl two_asked

find_close_excluding_closest_example :
    let r = find_close_excluding waiting.nodes (key 9) (key 3 ∷ []) (key 0) in
    ((r.0 ≡ true)
      × Known r.1 waiting.nodes.nodes
      × (member r.1 (key 3 ∷ []) ≡ false)
      × (lt (xor r.1 (key 9)) all_ones ≡ true)
      × NoneNearer (key 9) (key 3 ∷ []) (xor r.1 (key 9)) waiting.nodes.nodes)
    ⊎ ((r.0 ≡ false) × (r.1 ≡ key 0) × NoneNearer (key 9) (key 3 ∷ []) all_ones waiting.nodes.nodes)
find_close_excluding_closest_example =
    find_close_excluding_closest waiting.nodes (key 9) (key 3 ∷ []) (key 0)

handle_got_router_settles_example :
    let r = handle_got_router 2000 waiting (answer (9 ∷ [])) in
    ((r.0 ≡ false) × (r.1 ≡ waiting) × (r.2 ≡ []) × (find_pending_tx waiting (key 2) 5 ≡ none)
      ⊎ (r.0 ≡ true) × ((j : SearchJob) × (find_pending_tx waiting (key 2) 5 ≡ some j)))
    × (find_pending_tx r.1 (key 2) 5 ≡ none)
    × Distinct r.1.pending
handle_got_router_settles_example =
    handle_got_router_settles 2000 waiting (answer (9 ∷ [])) waiting-Distinct
