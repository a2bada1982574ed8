-- ===== src/Dht/Message.antt =====
-- The messages of include/udap/dht.hpp and udap/dht.cpp: FindRouterMessage and GotRouterMessage.
-- A message is a value of one data type for the class hierarchy of IMessage.
use uplexa_network.Prelude.{ℕ, Bool, false, List, [], ◌∷◌, Option, none, some}
use uplexa_network.Dht.Key.{Key}

pub record FindRouter : Type 0 where
  pub from : Key
  pub target : Key
  pub iterative : Bool
  pub txid : ℕ
  pub version : ℕ

pub record GotRouter (Rc : Type 0) : Type 0 where
  pub from : Key
  pub found : List Rc
  pub txid : ℕ
  pub version : ℕ

pub data Message (Rc : Type 0) : Type 0 where
  find_router : FindRouter → Message Rc
  got_router : GotRouter Rc → Message Rc

-- The constructor that takes the result: one contact, or none for a null pointer.
unfoldable pub new_got_router : {Rc : Type 0} → Key → ℕ → Option Rc → GotRouter Rc
new_got_router from id none = record { from = from; found = []; txid = id; version = 0 }
new_got_router from id (some rc) = record { from = from; found = rc ∷ []; txid = id; version = 0 }

unfoldable pub new_find_router : Key → Key → ℕ → FindRouter
new_find_router from target id = record {
  from = from;
  target = target;
  iterative = false;
  txid = id;
  version = 0;
}
