-- ===== src/Table.antt =====
-- The maps from keys of the program, std::map and std::unordered_map: association lists. The order of
-- the list is no one's business but the iteration's.
use uplexa_network.Prelude.{
  ◌≡◌, refl, true, List, [], ◌∷◌, Option, none, some, if◌then◌else◌, arith,
}
use uplexa_network.Dht.Key.{Key, eq}
use uplexa_network.Dht.Key.Laws.{eq_iff}

module _ {ℓ} {V : Type ℓ} where
  unfoldable pub find : Key → List (Key × V) → Option V
  find k [] = none
  find k ((j, v) ∷ t) = if eq j k then some v else find k t

  -- `t[k] = v`.
  unfoldable pub insert : Key → V → List (Key × V) → List (Key × V)
  insert k v [] = (k, v) ∷ []
  insert k v ((j, w) ∷ t) = if eq j k then (k, v) ∷ t else (j, w) ∷ insert k v t

  -- `t.emplace(k, v)`, which leaves an entry that is there.
  unfoldable pub emplace : Key → V → List (Key × V) → List (Key × V)
  emplace k v [] = (k, v) ∷ []
  emplace k v ((j, w) ∷ t) = if eq j k then (j, w) ∷ t else (j, w) ∷ emplace k v t

  unfoldable pub erase : Key → List (Key × V) → List (Key × V)
  erase k [] = []
  erase k ((j, v) ∷ t) = let rest = erase k t in if eq j k then rest else (j, v) ∷ rest

  pub find-insert :
      (k j : Key) (v : V) (t : List (Key × V))
      → find j (insert k v t) ≡ (if eq k j then some v else find j t)
  unfolding find insert
  find-insert k j v [] = refl
  find-insert k j v ((i, w) ∷ t) =
      ground (arith, eq_iff k j, eq_iff i k, eq_iff i j, find-insert k j v t)

  pub find-emplace :
      (k j : Key) (v : V) (t : List (Key × V))
      → find k t ≡ none
      → find j (emplace k v t) ≡ (if eq k j then some v else find j t)
  unfolding find emplace
  find-emplace k j v [] e = refl
  find-emplace k j v ((i, w) ∷ t) e =
      ground (arith, eq_iff k j, eq_iff i k, eq_iff i j, find-emplace k j v t)

  pub find-erase :
      (k j : Key) (t : List (Key × V)) → find j (erase k t) ≡ (if eq k j then none else find j t)
  unfolding find erase
  find-erase k j [] = ground arith
  find-erase k j ((i, w) ∷ t) = ground (arith, eq_iff k j, eq_iff i k, eq_iff i j, find-erase k j t)

pub eq_refl : (k : Key) → eq k k ≡ true
eq_refl k = ground (arith, eq_iff k k)
