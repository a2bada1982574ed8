-- ===== src/Path/Transit.antt =====
-- The table of transit hops: what putting and expiring do to its lookups.
use uplexa_network.Prelude.{
  ℕ, ◌≡◌, ◌⊎◌, refl, ◌∙◌, Bool, true, false, ◌||◌, List, [], ◌∷◌, ◌++◌, none, some, arith, All,
  All-append, Bool-cases, inl, inr, if◌then◌else◌,
}
use uplexa_network.Dht.Key.{Key, eq}
use uplexa_network.Dht.Key.Laws.{eq_iff}
use uplexa_network.Path.Hop.{TransitHop, hop_expired}
use uplexa_network.Path.Context.{
  PathContext, find_hop, put_transit_hop, get_by_downstream, erase_hops, expired_hops, erase_all,
  expire_paths,
}

-- Every entry stands under an id of its hop.
abbrev pub IsOwnId : Key × TransitHop → Type 0
IsOwnId e = (e.0 ≡ e.1.info.tx_id) ⊎ (e.0 ≡ e.1.info.rx_id)

abbrev pub IsKeyed : PathContext → Type 0
IsKeyed ctx = All IsOwnId ctx.transit

find_hop-append :
    (check : TransitHop → Bool) (id : Key) (hs ks : List (Key × TransitHop))
    → find_hop check id hs ≡ none
    → find_hop check id (hs ++ ks) ≡ find_hop check id ks
unfolding find_hop
find_hop-append check id [] ks e = refl
find_hop-append check id ((k, h) ∷ hs) ks e = ground (arith, find_hop-append check id hs ks)

-- hop found after put
pub get_by_downstream-put_transit_hop :
    (hop : TransitHop) (id : Key) (ctx : PathContext)
    → (id ≡ hop.info.tx_id) ⊎ (id ≡ hop.info.rx_id)
    → get_by_downstream hop.info.downstream id ctx ≡ none
    → get_by_downstream hop.info.downstream id (put_transit_hop hop ctx) ≡ some hop
unfolding get_by_downstream put_transit_hop find_hop
get_by_downstream-put_transit_hop hop id ctx own free =
    find_hop-append (λ h. eq h.info.downstream hop.info.downstream) id ctx.transit _ free
    ∙ ground (
      arith,
      eq_iff hop.info.tx_id id,
      eq_iff hop.info.rx_id id,
      eq_iff hop.info.downstream hop.info.downstream,
    )

-- The id is one of these hops'.
abbrev pub uses : Key → List TransitHop → Bool
uses id [] = false
uses id (h ∷ hs) = let rest = uses id hs in eq h.info.tx_id id || eq h.info.rx_id id || rest

find_hop-erase_hops :
    (check : TransitHop → Bool) (id k : Key) (hs : List (Key × TransitHop))
    → find_hop check k (erase_hops id hs) ≡ (if eq id k then none else find_hop check k hs)
unfolding find_hop erase_hops
find_hop-erase_hops check id k [] = ground arith
find_hop-erase_hops check id k ((j, h) ∷ hs) =
    ground (arith, find_hop-erase_hops check id k hs, eq_iff j id, eq_iff id k, eq_iff j k)

find_hop-erase_all :
    (check : TransitHop → Bool) (k : Key) (gone : List TransitHop) (hs : List (Key × TransitHop))
    → find_hop check k (erase_all gone hs) ≡ (if uses k gone then none else find_hop check k hs)
unfolding erase_all
find_hop-erase_all check k [] hs = refl
find_hop-erase_all check k (h ∷ gone) hs =
    find_hop-erase_all check k gone _
    ∙ ground (
      arith,
      find_hop-erase_hops check h.info.rx_id k (erase_hops h.info.tx_id hs),
      find_hop-erase_hops check h.info.tx_id k hs,
    )

-- After ExpirePaths nothing is found under an id that an expired hop had, and under every other id
-- what was found before.
pub find_hop-expire_paths :
    (now : ℕ) (check : TransitHop → Bool) (id : Key) (ctx : PathContext)
    → find_hop check id (expire_paths now ctx).transit
      ≡ (if uses id (expired_hops now ctx.transit) then none else find_hop check id ctx.transit)
unfolding expire_paths
find_hop-expire_paths now check id ctx =
    find_hop-erase_all check id (expired_hops now ctx.transit) ctx.transit

-- A hop that is found and has run out is among the expired, under its id.
find_hop-uses :
    (now : ℕ) (check : TransitHop → Bool) (id : Key) (hs : List (Key × TransitHop)) (h : TransitHop)
    → All IsOwnId hs
    → find_hop check id hs ≡ some h
    → hop_expired h now ≡ true
    → uses id (expired_hops now hs) ≡ true
unfolding find_hop expired_hops
find_hop-uses now check id [] h a f e = cc
find_hop-uses now check id ((k, g) ∷ hs) h a f e = ground (
  arith,
  find_hop-uses now check id hs h a.1,
  eq_iff k id,
  eq_iff g.info.tx_id id,
  eq_iff g.info.rx_id id,
  a.0,
)

-- A transit hop that is found after ExpirePaths has not run out, and is what was found before, if
-- every entry stood under an id of its hop.
pub expire_paths_lem :
    (now : ℕ) (check : TransitHop → Bool) (id : Key) (ctx : PathContext) (h : TransitHop)
    → IsKeyed ctx
    → find_hop check id (expire_paths now ctx).transit ≡ some h
    → (hop_expired h now ≡ false) × (find_hop check id ctx.transit ≡ some h)
expire_paths_lem now check id ctx h a f =
    elim (Bool-cases (uses id (expired_hops now ctx.transit))) [
      | inl u ↦ absurd (cc (rw (find_hop-expire_paths now check id ctx, u) at f))
      | inr u ↦
          let found : find_hop check id ctx.transit ≡ some h =
            rw (find_hop-expire_paths now check id ctx, u) at f in
          elim (Bool-cases (hop_expired h now)) [
            | inl e ↦ absurd (cc (find_hop-uses now check id ctx.transit h a found e))
            | inr e ↦ (e, found)
          ]
    ]

erase_hops-IsOwnId :
    (id : Key) (hs : List (Key × TransitHop)) → All IsOwnId hs → All IsOwnId (erase_hops id hs)
unfolding erase_hops
erase_hops-IsOwnId id [] a = tt
erase_hops-IsOwnId id ((k, h) ∷ hs) a = elim (Bool-cases (eq k id)) [
  | inl e ↦ rw e (erase_hops-IsOwnId id hs a.1)
  | inr e ↦ rw e (a.0, erase_hops-IsOwnId id hs a.1)
]

erase_all-IsOwnId :
    (gone : List TransitHop) (hs : List (Key × TransitHop))
    → All IsOwnId hs
    → All IsOwnId (erase_all gone hs)
unfolding erase_all
erase_all-IsOwnId [] hs a = a
erase_all-IsOwnId (h ∷ gone) hs a =
    erase_all-IsOwnId gone _
      (erase_hops-IsOwnId h.info.rx_id _ (erase_hops-IsOwnId h.info.tx_id hs a))

pub expire_paths-IsKeyed :
    (now : ℕ) (ctx : PathContext) → IsKeyed ctx → IsKeyed (expire_paths now ctx)
unfolding expire_paths
expire_paths-IsKeyed now ctx a = erase_all-IsOwnId (expired_hops now ctx.transit) ctx.transit a

pub put_transit_hop-IsKeyed :
    (hop : TransitHop) (ctx : PathContext) → IsKeyed ctx → IsKeyed (put_transit_hop hop ctx)
unfolding put_transit_hop
put_transit_hop-IsKeyed hop ctx a = All-append IsOwnId ctx.transit _ a (inl refl, (inr refl, tt))
