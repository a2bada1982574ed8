-- ===== src/Path/Context.antt =====
-- PathContext of udap/path.cpp with PathSet of udap/pathset.cpp. A PathSet is a path builder's; the
-- sets are numbered in the order of m_PathBuilders, and m_OurPaths holds their numbers. A multimap is
-- the list of its entries in the order of insertion, which is the order of an equal range.
use uplexa_network.Prelude.{
  ℕ, zero, suc, Bool, true, false, ◌&&◌, List, [], ◌∷◌, ◌++◌, Option, none, some, if◌then◌else◌,
  ltb, length, get_elem?,
}
use uplexa_network.Dht.Key.{Key, eq}
use uplexa_network.Relay.{RelayMessage, LinkMessage, commit_message}
use uplexa_network.Path.Hop.{
  TransitHopInfo, TransitHop, same_info, hop_expired, Cipher, Relayed, at_end, refused,
  hop_upstream, hop_downstream,
}
use uplexa_network.Path.Own.{OwnPath, first_hop, path_expired, path_downstream}

-- PathSet: the paths under the first router and its RX id, and how many there should be.
pub record PathSet : Type 0 where
  pub wanted : ℕ
  pub paths : List ((Key × Key) × OwnPath)

unfoldable pub find_path : Key → Key → List ((Key × Key) × OwnPath) → Option OwnPath
find_path router rx [] = none
find_path router rx (((r, i), p) ∷ ps) =
    let rest = find_path router rx ps in if eq r router && eq i rx then some p else rest

unfoldable pub erase_path : Key → Key → List ((Key × Key) × OwnPath) → List ((Key × Key) × OwnPath)
erase_path router rx [] = []
erase_path router rx (((r, i), p) ∷ ps) =
    let rest = erase_path router rx ps in if eq r router && eq i rx then ps else ((r, i), p) ∷ rest

-- AddPath. `emplace` leaves an entry that is there.
unfoldable pub add_path : OwnPath → PathSet → PathSet
add_path p s = elim (first_hop p) [
  | none ↦ s
  | some h ↦ elim (find_path h.router h.rx_id s.paths) [
    | some _ ↦ s
    | none ↦ record s { paths = s.paths ++ (((h.router, h.rx_id), p) ∷ []) }
  ]
]

-- RemovePath.
unfoldable pub remove_path : OwnPath → PathSet → PathSet
remove_path p s = elim (first_hop p) [
  | none ↦ s
  | some h ↦ record s { paths = erase_path h.router h.rx_id s.paths }
]

unfoldable pub should_build_more : PathSet → Bool
should_build_more s = ltb (length s.paths) s.wanted

-- PathSet::ExpirePaths.
unfoldable pub unexpired_paths : ℕ → List ((Key × Key) × OwnPath) → List ((Key × Key) × OwnPath)
unexpired_paths now [] = []
unexpired_paths now ((k, p) ∷ ps) =
    let rest = unexpired_paths now ps in if path_expired p now then rest else (k, p) ∷ rest

-- PathContext. `own` is m_OurPaths.
pub record PathContext : Type 0 where
  pub us : Key
  pub allow_transit : Bool
  pub transit : List (Key × TransitHop)
  pub own : List (Key × ℕ)
  pub builders : List PathSet

-- MapGet over the transit paths: the first entry of the key that passes the check.
unfoldable pub find_hop : (TransitHop → Bool) → Key → List (Key × TransitHop) → Option TransitHop
find_hop check id [] = none
find_hop check id ((k, h) ∷ hs) =
    let rest = find_hop check id hs in if eq k id && check h then some h else rest

-- MapHas.
unfoldable pub has_hop : (TransitHop → Bool) → Key → List (Key × TransitHop) → Bool
has_hop check id hs = elim (find_hop check id hs) [ none ↦ false | some _ ↦ true ]

unfoldable pub find_own : Key → List (Key × ℕ) → Option ℕ
find_own id [] = none
find_own id ((k, n) ∷ ns) = let rest = find_own id ns in if eq k id then some n else rest

-- MapPut over the own paths, a map: an entry that is there stays.
unfoldable pub put_own : Key → ℕ → List (Key × ℕ) → List (Key × ℕ)
put_own id n ns = elim (find_own id ns) [ none ↦ ns ++ ((id, n) ∷ []) | some _ ↦ ns ]

unfoldable pub set_builder : ℕ → PathSet → List PathSet → List PathSet
set_builder n s [] = []
set_builder zero s (_ ∷ ss) = s ∷ ss
set_builder (suc n) s (t ∷ ss) = t ∷ set_builder n s ss

-- AddOwnPath, for the set with this number.
unfoldable pub add_own_path : ℕ → OwnPath → PathContext → PathContext
add_own_path n p ctx = elim (first_hop p) [
  | none ↦ ctx
  | some h ↦ elim (get_elem? ctx.builders n) [
    | none ↦ ctx
    | some s ↦ record ctx {
      builders = set_builder n (add_path p s) ctx.builders;
      own = put_own h.rx_id n (put_own h.tx_id n ctx.own);
    }
  ]
]

-- HasTransitHop.
unfoldable pub has_transit_hop : TransitHopInfo → PathContext → Bool
has_transit_hop info ctx = has_hop (λ hop. same_info info hop.info) info.tx_id ctx.transit

-- PutTransitHop: under both ids.
unfoldable pub put_transit_hop : TransitHop → PathContext → PathContext
put_transit_hop hop ctx = record ctx {
  transit = ctx.transit ++ ((hop.info.tx_id, hop) ∷ (hop.info.rx_id, hop) ∷ []);
}

-- IHopHandler: a path of ours, or a hop of another's.
pub data Handler : Type 0 where
  own_path : OwnPath → Handler
  transit_hop : TransitHop → Handler

unfoldable pub own_by_upstream : Key → Key → PathContext → Option OwnPath
own_by_upstream remote id ctx = elim (find_own id ctx.own) [
  | none ↦ none
  | some n ↦ elim (get_elem? ctx.builders n) [ none ↦ none | some s ↦ find_path remote id s.paths ]
]

-- GetByUpstream and GetByDownstream.
unfoldable pub get_by_upstream : Key → Key → PathContext → Option Handler
get_by_upstream remote id ctx = elim (own_by_upstream remote id ctx) [
  | some p ↦ some (own_path p)
  | none ↦ elim (find_hop (λ hop. eq hop.info.upstream remote) id ctx.transit) [
    | none ↦ none
    | some hop ↦ some (transit_hop hop)
  ]
]

unfoldable pub get_by_downstream : Key → Key → PathContext → Option TransitHop
get_by_downstream remote id ctx = find_hop (λ hop. eq hop.info.downstream remote) id ctx.transit

-- `map.erase(id)`: every entry of the key.
unfoldable pub erase_hops : Key → List (Key × TransitHop) → List (Key × TransitHop)
erase_hops id [] = []
erase_hops id ((k, h) ∷ hs) = let rest = erase_hops id hs in if eq k id then rest else (k, h) ∷ rest

-- The hops that have run out, and the erasing of their ids.
unfoldable pub expired_hops : ℕ → List (Key × TransitHop) → List TransitHop
expired_hops now [] = []
expired_hops now ((_, h) ∷ hs) =
    let rest = expired_hops now hs in if hop_expired h now then h ∷ rest else rest

unfoldable pub erase_all : List TransitHop → List (Key × TransitHop) → List (Key × TransitHop)
erase_all [] hs = hs
erase_all (h ∷ gone) hs = erase_all gone (erase_hops h.info.rx_id (erase_hops h.info.tx_id hs))

unfoldable pub expire_sets : ℕ → List PathSet → List PathSet
expire_sets now [] = []
expire_sets now (s ∷ ss) = record s { paths = unexpired_paths now s.paths } ∷ expire_sets now ss

-- ExpirePaths.
unfoldable pub expire_paths : ℕ → PathContext → PathContext
expire_paths now ctx = record ctx {
  transit = erase_all (expired_hops now ctx.transit) ctx.transit;
  builders = expire_sets now ctx.builders;
}

-- ForwardLRCM.
abbrev pub forward_commit : Key → List (List ℕ) → Key × LinkMessage
forward_commit next frames = (next, commit_message frames)

module _ (cipher : Cipher) where
  -- RelayUpstreamMessage::HandleMessage.
  unfoldable pub relay_upstream : Key → RelayMessage → PathContext → Relayed
  relay_upstream remote m ctx = elim (get_by_downstream remote m.pathid ctx) [
    | none ↦ refused
    | some hop ↦ hop_upstream cipher ctx.us hop m.x m.y
  ]

  -- RelayDownstreamMessage::HandleMessage.
  unfoldable pub relay_downstream : Key → RelayMessage → PathContext → Relayed
  relay_downstream remote m ctx = elim (get_by_upstream remote m.pathid ctx) [
    | none ↦ refused
    | some (own_path p) ↦ at_end (path_downstream cipher p m.x m.y)
    | some (transit_hop hop) ↦ hop_downstream cipher hop m.x m.y
  ]
