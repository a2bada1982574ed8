-- ===== src/Commit/Handle.antt =====
-- LR_CommitMessage::HandleMessage and LRCMFrameDecrypt of udap/relay_commit.cpp: a router takes its
-- place on a path. The random bytes, the nonce and the time are arguments.
use uplexa_network.Prelude.{
  ℕ, ◌+◌, ◌*◌, ◌%◌, ◌^◌, Bool, true, false, not, List, [], ◌∷◌, ◌++◌, Option, none, some,
  if◌then◌else◌, ◌==◌, length,
}
use uplexa_network.Buffer.Memory.{Mem}
use uplexa_network.Buffer.{Result, ok, failed, stuck}
use uplexa_network.Dht.Key.{Key, eq}
use uplexa_network.Relay.{LinkMessage}
use uplexa_network.Routing.{confirm_message, buffer_of}
use uplexa_network.Path.Hop.{TransitHopInfo, TransitHop, default_lifetime, Relayed, Cipher}
use uplexa_network.Path.Context.{PathContext, has_transit_hop, put_transit_hop, forward_commit}
use uplexa_network.Path.Messages.{hop_send}
use uplexa_network.Commit.Frame.{Crypto, decrypt_in_place, overhead}
use uplexa_network.Commit.Record.{CommitRecord, Pow, pow_valid, decode_record}

-- MAXHOPS of include/udap/path.h.
abbrev pub max_hops : ℕ
max_hops = 8

-- The checks of HandleMessage: the first frame is decrypted then.
unfoldable pub commit_accepted : PathContext → List (List ℕ) → Bool
commit_accepted ctx frames =
    if not (length frames == max_hops) then false else if not ctx.allow_transit then false else true

-- What becomes of the message: nothing, it goes on to the next router, or a confirmation goes back.
pub data Handled : Type 0 where
  dropped : Handled
  forwarded : Key × LinkMessage → Handled
  confirmed : Relayed → Handled

-- What the handling of a message takes from outside. `mac` and the others are those of udap_crypto.
pub record Outside : Type 0 where
  pub crypto : Crypto
  pub shorthash : List ℕ → Option Key
  pub log : ℕ → ℕ
  pub random : ℕ → List ℕ
  pub stack : Mem
  pub nonce : Key
  pub secret : Key
  pub now : ℕ
  pub junk : CommitRecord

-- SendPathConfirm uses the cipher of a hop, which cannot fail there.
abbrev pub stream_of : Crypto → Cipher
stream_of crypto k y x = elim (crypto.xchacha20 x k y) [ none ↦ x | some z ↦ z ]

-- Popping the front frame and pushing random bytes of its size.
abbrev pub shifted : (ℕ → List ℕ) → List (List ℕ) → List (List ℕ)
shifted random [] = []
shifted random (f ∷ fs) = fs ++ (random (length f) ∷ [])

-- The 32-bit product `1000 * extendedLifetime`, added where the work is valid.
unfoldable pub hop_lifetime : Outside → Key → Option Pow → ℕ
hop_lifetime out us none = default_lifetime
hop_lifetime out us (some w) =
    if pow_valid out.shorthash out.log (record { mem = out.stack; base = 0; cur = 0; sz = 128 }) us
      w
    then default_lifetime + (1000 * w.extended_lifetime) % 2 ^ 32
    else default_lifetime

abbrev pub info_of : Key → CommitRecord → TransitHopInfo
info_of remote m = record {
  tx_id = m.txid;
  rx_id = m.rxid;
  upstream = m.next_hop;
  downstream = remote;
}

-- HandleDecrypted from the decoded record on.
unfoldable pub take_place :
    Outside → Key → List (List ℕ) → CommitRecord → PathContext → PathContext × Handled
take_place out remote frames m ctx =
    if has_transit_hop (info_of remote m) ctx
    then (ctx, dropped)
    else elim (out.crypto.dh_server m.commkey out.secret m.nonce) [
      | none ↦ (ctx, dropped)
      | some key ↦
          let hop : TransitHop = record {
            info = info_of remote m;
            path_key = key;
            started = out.now;
            lifetime = hop_lifetime out ctx.us m.work;
          } in
          (
            put_transit_hop hop ctx,
            if eq m.next_hop ctx.us
                then confirmed (
                    hop_send (stream_of out.crypto) out.stack out.nonce
                      (confirm_message (record { lifetime = hop.lifetime; created = out.now })) hop)
                else forwarded (forward_commit m.next_hop (shifted out.random frames)),
          )
    ]

abbrev pub the_record : Result CommitRecord → Option CommitRecord
the_record (ok m) = some m
the_record failed = none
the_record stuck = none

-- The decrypted frame as a buffer behind its overhead, and the record in it.
unfoldable pub frame_record : CommitRecord → List ℕ → Option CommitRecord
frame_record junk frame =
    the_record
      (decode_record (record junk { work = none; version = 0 })
        (record (buffer_of frame) { cur = overhead })).0

-- HandleMessage with the decryption and HandleDecrypted.
unfoldable pub handle_commit : Outside → Key → List (List ℕ) → PathContext → PathContext × Handled
handle_commit out remote frames ctx =
    if not (commit_accepted ctx frames) then (ctx, dropped) else elim frames [
      | [] ↦ (ctx, dropped)
      | f ∷ fs ↦ elim (decrypt_in_place out.crypto out.secret f) [
        | none ↦ (ctx, dropped)
        | some plain ↦ elim (frame_record out.junk plain) [
          | none ↦ (ctx, dropped)
          | some m ↦ take_place out remote (plain ∷ fs) m ctx
        ]
      ]
    ]
