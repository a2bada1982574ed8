-- ===== src/Path/Onion.antt =====
-- A message on a path passes every hop and is at its end what it was at its start.
use uplexa_network.Prelude.{
  ℕ, zero, suc, ◌≡◌, ◌≢◌, refl, ap, ◌∙◌, List, [], ◌∷◌, some, length, arith,
}
use uplexa_network.Dht.Key.{Key}
use uplexa_network.Dht.Key.Laws.{eq_iff}
use uplexa_network.Relay.{RelayMessage, upstream_message, downstream_message}
use uplexa_network.Path.Hop.{
  TransitHop, Cipher, Relayed, sent, at_end, hop_upstream, hop_downstream,
}
use uplexa_network.Path.Own.{HopConfig, OwnPath, first_hop, layers, path_upstream, path_downstream}
use uplexa_network.Path.Context.{
  PathContext, own_path, transit_hop, get_by_upstream, get_by_downstream, relay_upstream,
  relay_downstream,
}
use uplexa_network.Path.Network.{Flight, flying, landed, land, step, run}

-- A stream cipher: it undoes itself, and the layers of two keys may be taken off in any order.
pub record IsStream (cipher : Cipher) : Type 0 where
  pub undo : (k y : Key) (x : List ℕ) → cipher k y (cipher k y x) ≡ x
  pub swap : (k l y : Key) (x : List ℕ) → cipher k y (cipher l y x) ≡ cipher l y (cipher k y x)

module _ (net : Key → PathContext) where
  -- The routers of the path know it, from its first hop on: the hop at a router is found under the
  -- neighbour that the message comes from and the id that it carries, and leads to the next.
  abbrev pub CarriesUp : Key → Key → List HopConfig → List TransitHop → Type 0
  CarriesUp from id (h ∷ []) (t ∷ []) =
      ((net h.router).us ≡ h.router)
      × (get_by_downstream from id (net h.router) ≡ some t)
      × (t.path_key ≡ h.shared)
      × (t.info.upstream ≡ h.router)
  CarriesUp from id (h ∷ h' ∷ hs) (t ∷ ts) =
      ((net h.router).us ≡ h.router)
      × (get_by_downstream from id (net h.router) ≡ some t)
      × (t.path_key ≡ h.shared)
      × (t.info.upstream ≡ h'.router)
      × (h'.router ≢ h.router)
      × CarriesUp h.router t.info.tx_id (h' ∷ hs) ts
  CarriesUp from id _ _ = ⊥

  -- The same for the way back, to the router `from`.
  abbrev pub CarriesDown : Key → List HopConfig → List TransitHop → Type 0
  CarriesDown from (h ∷ []) (t ∷ []) = (t.path_key ≡ h.shared) × (t.info.downstream ≡ from)
  CarriesDown from (h ∷ h' ∷ hs) (t ∷ t' ∷ ts) =
      (t.path_key ≡ h.shared)
      × (t.info.downstream ≡ from)
      × (get_by_upstream h'.router t'.info.rx_id (net h.router) ≡ some (transit_hop t))
      × CarriesDown h.router (h' ∷ hs) (t' ∷ ts)
  CarriesDown from _ _ = ⊥

-- The router at the end of the path, and its hop.
abbrev pub last_router : Key → List HopConfig → Key
last_router r [] = r
last_router r (h ∷ hs) = last_router h.router hs

abbrev pub last_hop : TransitHop → List TransitHop → TransitHop
last_hop t [] = t
last_hop t (t' ∷ ts) = last_hop t' ts

module _ (cipher : Cipher) (stream : IsStream cipher) where
  layers-cipher :
      (hs : List HopConfig) (k y : Key) (x : List ℕ)
      → layers cipher hs y (cipher k y x) ≡ cipher k y (layers cipher hs y x)
  unfolding layers
  layers-cipher [] k y x = refl
  layers-cipher (h ∷ hs) k y x =
      ap (layers cipher hs y) (stream.swap h.shared k y x)
      ∙ layers-cipher hs k y (cipher h.shared y x)

  -- The first hop takes off its layer.
  layers_peel :
      (h : HopConfig) (hs : List HopConfig) (y : Key) (x : List ℕ)
      → cipher h.shared y (layers cipher (h ∷ hs) y x) ≡ layers cipher hs y x
  unfolding layers
  layers_peel h hs y x =
      ap (cipher h.shared y) (layers-cipher hs h.shared y x)
      ∙ stream.undo h.shared y (layers cipher hs y x)

  -- The layers that the hops of a path put on, from the last to the first.
  unfoldable down_layers : List HopConfig → Key → List ℕ → List ℕ
  down_layers [] y x = x
  down_layers (h ∷ hs) y x = cipher h.shared y (down_layers hs y x)

  layers-down_layers :
      (hs : List HopConfig) (y : Key) (x : List ℕ) → layers cipher hs y (down_layers hs y x) ≡ x
  unfolding layers down_layers
  layers-down_layers [] y x = refl
  layers-down_layers (h ∷ hs) y x =
      ap (layers cipher hs y) (stream.undo h.shared y (down_layers hs y x))
      ∙ layers-down_layers hs y x

  module _ (net : Key → PathContext) where
    run_landed : (n : ℕ) (r : Key) (x : Relayed) → run cipher net n (landed r x) ≡ landed r x
    unfolding run step
    run_landed zero r x = refl
    run_landed (suc n) r x = rw (run_landed n r x)

    run-suc : (n : ℕ) (s : Flight) → run cipher net (suc n) s ≡ run cipher net n (step cipher net s)
    unfolding run step
    run-suc zero s = refl
    run-suc (suc n) s = ap (step cipher net) (run-suc n s)

    -- A hop in the middle passes the message on without its layer, the last one parses it.
    up_middle :
        (from : Key) (h h' : HopConfig) (t : TransitHop) (m : RelayMessage)
        → (net h.router).us ≡ h.router
        → get_by_downstream from m.pathid (net h.router) ≡ some t
        → t.path_key ≡ h.shared
        → t.info.upstream ≡ h'.router
        → h'.router ≢ h.router
        → step cipher net (flying from h.router (upstream_message m))
          ≡ flying h.router h'.router (
              upstream_message
                (record { pathid = t.info.tx_id; x = cipher h.shared m.y m.x; y = m.y }))
    unfolding step relay_upstream hop_upstream
    up_middle from h h' t m u g k n ne = ground (arith, eq_iff h'.router h.router)

    up_end :
        (from : Key) (h : HopConfig) (t : TransitHop) (m : RelayMessage)
        → (net h.router).us ≡ h.router
        → get_by_downstream from m.pathid (net h.router) ≡ some t
        → t.path_key ≡ h.shared
        → t.info.upstream ≡ h.router
        → step cipher net (flying from h.router (upstream_message m))
          ≡ landed h.router (at_end (cipher h.shared m.y m.x))
    unfolding step relay_upstream hop_upstream
    up_end from h t m u g k n = ground (arith, eq_iff h.router h.router)

    run_up :
        (from id y : Key) (x : List ℕ) (h : HopConfig) (hs : List HopConfig) (ts : List TransitHop)
        → CarriesUp net from id (h ∷ hs) ts
        → run cipher net (length (h ∷ hs)) (
            flying from h.router
              (upstream_message (record { pathid = id; x = layers cipher (h ∷ hs) y x; y = y })))
          ≡ landed (last_router h.router hs) (at_end x)
    unfolding run
    run_up from id y x h [] [] c = elim c [ ]
    run_up from id y x h [] (t ∷ (_ ∷ _)) c = elim c [ ]
    run_up from id y x h (h' ∷ hs) [] c = elim c [ ]
    run_up from id y x h [] (t ∷ []) (u, g, k, n) =
        up_end from h t _ u g k n
        ∙ ap (λ z. landed h.router (at_end z)) (layers_peel h [] y x ∙ (unfold layers in refl))
    run_up from id y x h (h' ∷ hs) (t ∷ ts) (u, g, k, n, ne, rest) =
        run-suc (length (h' ∷ hs)) _
        ∙ ap (run cipher net (length (h' ∷ hs))) (
            up_middle from h h' t _ u g k n ne
            ∙ ap
                (λ z.
                  flying h.router h'.router
                    (upstream_message (record { pathid = t.info.tx_id; x = z; y = y })))
                (layers_peel h (h' ∷ hs) y x))
        ∙ run_up h.router t.info.tx_id y x h' hs ts rest

    down_middle :
        (from : Key) (h : HopConfig) (t : TransitHop) (m : RelayMessage)
        → get_by_upstream from m.pathid (net h.router) ≡ some (transit_hop t)
        → t.path_key ≡ h.shared
        → step cipher net (flying from h.router (downstream_message m))
          ≡ flying h.router t.info.downstream (
              downstream_message
                (record { pathid = t.info.rx_id; x = cipher h.shared m.y m.x; y = m.y }))
    unfolding step relay_downstream hop_downstream
    down_middle from h t m g k = ground arith

    down_end :
        (from us : Key) (p : OwnPath) (m : RelayMessage)
        → get_by_upstream from m.pathid (net us) ≡ some (own_path p)
        → step cipher net (flying from us (downstream_message m))
          ≡ landed us (at_end (layers cipher p.hops m.y m.x))
    unfolding step relay_downstream path_downstream
    down_end from us p m g = ground arith

    -- What the last hop sends comes down to the first one's neighbour with every layer on.
    run_down :
        (from y : Key) (x : List ℕ) (h : HopConfig) (hs : List HopConfig) (t : TransitHop)
        (ts : List TransitHop)
        → CarriesDown net from (h ∷ hs) (t ∷ ts)
        → run cipher net
            (length hs)
            (land (last_router h.router hs) (hop_downstream cipher (last_hop t ts) x y))
          ≡ flying h.router from (
              downstream_message
                (record { pathid = t.info.rx_id; x = down_layers (h ∷ hs) y x; y = y }))
    unfolding run hop_downstream down_layers
    run_down from y x h [] t (_ ∷ _) c = elim c [ ]
    run_down from y x h (h' ∷ hs) t [] c = elim c [ ]
    run_down from y x h [] t [] (k, d) = ground arith
    run_down from y x h (h' ∷ hs) t (t' ∷ ts) (k, d, g, rest) =
        ap (step cipher net) (run_down h.router y x h' hs t' ts rest)
        ∙ down_middle h'.router h t
            (record { pathid = t'.info.rx_id; x = down_layers (h' ∷ hs) y x; y = y }) g k
        ∙ rw d refl

    module _ (us y : Key) (x : List ℕ) (p : OwnPath) (h : HopConfig) (hs : List HopConfig)
        (e : p.hops ≡ h ∷ hs) where
      -- What a path of one hop at least sends arrives at the router at its end, after as many
      -- steps as the path has hops, without any of the layers, if the routers know the path and
      -- the cipher undoes itself and commutes.
      pub path_upstream_arrives :
          (ts : List TransitHop)
          → CarriesUp net us h.tx_id (h ∷ hs) ts
          → (r : Relayed) × (path_upstream cipher p x y ≡ some r)
            × (run cipher net (length p.hops) (land us r)
                ≡ landed (last_router h.router hs) (at_end x))
      unfolding path_upstream first_hop
      path_upstream_arrives ts c = (
        sent h.router
            (upstream_message (record { pathid = h.tx_id; x = layers cipher (h ∷ hs) y x; y = y })),
        rw e refl,
        rw e (run_up us h.tx_id y x h hs ts c),
      )

      -- What the last hop of a path sends down arrives at the path's owner, after as many steps as
      -- the path has hops, and reads there as it was sent, if the routers and the owner know the
      -- path and the cipher undoes itself and commutes.
      pub hop_downstream_arrives :
          (t : TransitHop) (ts : List TransitHop)
          → CarriesDown net us (h ∷ hs) (t ∷ ts)
          → get_by_upstream h.router t.info.rx_id (net us) ≡ some (own_path p)
          → run cipher net
              (length p.hops)
              (land (last_router h.router hs) (hop_downstream cipher (last_hop t ts) x y))
            ≡ landed us (at_end x)
      unfolding run
      hop_downstream_arrives t ts c g = rw e (
          ap (step cipher net) (run_down us y x h hs t ts c)
          ∙ down_end h.router us p _ g
          ∙ ap (λ z. landed us (at_end (layers cipher z y (down_layers (h ∷ hs) y x)))) e
          ∙ ap (λ z. landed us (at_end z)) (layers-down_layers (h ∷ hs) y x))
