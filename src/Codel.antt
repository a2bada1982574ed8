-- ===== src/Codel.antt =====
-- CoDelQueue of udap/codel.hpp. The top of the priority queue is an item with the greatest time; which
-- one of several is the heap's affair, and the first in the list here. The next interval, a quotient
-- by a square root, is the parameter `slower`.
pub mod Drops
use uplexa_network.Prelude.{
  ℕ, zero, suc, ◌+◌, ◌-◌, ◌^◌, Bool, true, false, List, [], ◌∷◌, ◌++◌, if◌then◌else◌, ltb, leb,
  ◌==◌, length,
}
use uplexa_network.Clock.{elapsed}

-- dropMs and initialIntervalMs.
abbrev pub drop_ms : ℕ
drop_ms = 20

abbrev pub initial_interval : ℕ
initial_interval = 100

pub record Item : Type 0 where
  pub time : ℕ
  pub payload : ℕ

pub record CodelQueue : Type 0 where
  pub first_put : ℕ
  pub drop_num : ℕ
  pub next_tick_interval : ℕ
  pub items : List Item

abbrev pub new_queue : CodelQueue
new_queue = record {
  first_put = 0;
  drop_num = 0;
  next_tick_interval = initial_interval;
  items = [];
}

-- Put at the time `now`, which PutTime writes into the item.
unfoldable pub put : ℕ → ℕ → CodelQueue → CodelQueue
put now payload q = record q {
  items = q.items ++ (record { time = now; payload = payload } ∷ []);
  first_put = if q.first_put == 0 then now else q.first_put;
}

-- The top of a queue with the item `i`, and the others.
unfoldable pub take_top : Item → List Item → Item × List Item
take_top i [] = (i, [])
take_top i (j ∷ js) =
    let r = take_top j js in if ltb i.time r.0.time then (r.0, i ∷ r.1) else (i, j ∷ js)

abbrev pub min : ℕ → ℕ → ℕ
min a b = if ltb b a then b else a

-- What Process makes of the queue.
pub record Processed : Type 0 where
  pub delivered : List Item
  pub dropped : List Item
  pub drops : ℕ
  pub interval : ℕ

module _ (slower : ℕ → ℕ → ℕ) where
  -- The last item, for the lowest of the differences.
  unfoldable pub last_item : ℕ → Item → CodelQueue → Processed
  last_item lowest i q =
      if ltb drop_ms lowest
      then record {
        delivered = [];
        dropped = i ∷ [];
        drops = q.drop_num + 1;
        interval = slower q.next_tick_interval (q.drop_num + 1);
      }
      else record { delivered = i ∷ []; dropped = []; drops = 0; interval = initial_interval }

  -- The loop, with a round for each item.
  unfoldable pub drain : ℕ → ℕ → CodelQueue → List Item → Processed
  drain zero lowest q is = record {
    delivered = [];
    dropped = [];
    drops = q.drop_num;
    interval = q.next_tick_interval;
  }
  drain (suc n) lowest q [] = record {
    delivered = [];
    dropped = [];
    drops = q.drop_num;
    interval = q.next_tick_interval;
  }
  drain (suc n) lowest q (i ∷ is) =
      let top = take_top i is in
      let low = min (elapsed top.0.time q.first_put) lowest in
      let rest = drain n low q top.1 in
      elim top.1 [
        | [] ↦ last_item low top.0 q
        | _ ∷ _ ↦ record rest { delivered = top.0 ∷ rest.delivered }
      ]

  unfoldable pub process : CodelQueue → CodelQueue × Processed
  process q =
      let r = drain (length q.items) (2 ^ 64 - 1) q q.items in
      (record { first_put = 0; drop_num = r.drops; next_tick_interval = r.interval; items = [] }, r)
