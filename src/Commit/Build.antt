-- ===== src/Commit/Build.antt =====
-- A frame that a path builder sealed for a router makes the router a hop of the path.
use uplexa_network.Prelude.{
  ℕ, ◌<◌, ◌≡◌, refl, ap, subst, ◌∙◌, true, false, List, [], ◌∷◌, ◌++◌, none, some, length, take,
  drop, if◌then◌else◌, arith, length-append, length-drop, length-take,
}
use uplexa_network.Buffer.Memory.{Holds, Holds-split, store_all-Holds}
use uplexa_network.Dht.Key.{Key, eq}
use uplexa_network.Routing.{confirm_message, buffer_of}
use uplexa_network.Path.Hop.{TransitHop, default_lifetime}
use uplexa_network.Path.Context.{PathContext, has_transit_hop, put_transit_hop, forward_commit}
use uplexa_network.Path.Messages.{hop_send}
use uplexa_network.Commit.Frame.{IsCrypto, overhead, encrypt_in_place, decrypt_in_place}
use uplexa_network.Commit.Frame.Sealing.{decrypt_in_place-encrypt_in_place, length-encrypt_in_place}
use uplexa_network.Commit.Record.{CommitRecord}
use uplexa_network.Commit.Record.Trip.{IsPlain, record_text, decode_record-record_text}
use uplexa_network.Commit.Handle.{
  Outside, Handled, forwarded, confirmed, commit_accepted, handle_commit, take_place, frame_record,
  info_of, hop_lifetime, stream_of, the_record,
}

frame_record_lem :
    (m junk : CommitRecord) (head rest : List ℕ)
    → IsPlain m
    → length head ≡ overhead
    → frame_record junk (head ++ (record_text m ++ rest)) ≡ some m
unfolding frame_record
frame_record_lem m junk head rest s h =
    let frame = head ++ (record_text m ++ rest) in
    let sizes = length-append head (record_text m ++ rest) in
    let sizes' = length-append (record_text m) rest in
    let start = record (buffer_of frame) { cur = overhead } in
    let there =
      Holds-split head (record_text m ++ rest) (buffer_of frame).mem 0
        (store_all-Holds frame (λ _. 0) 0) in
    let text =
      subst (λ n. Holds (buffer_of frame).mem n (record_text m ++ rest)) (omega (arith, h))
        there.1 in
    let mine = Holds-split (record_text m) rest (buffer_of frame).mem overhead text in
    ap (λ r. the_record r.0)
      (decode_record-record_text m (record junk { work = none; version = 0 }) start s refl
        (record { ordered = omega arith; inside = omega (arith, sizes, h) }) mine.0
        (omega (arith, sizes, sizes', h)))

-- What a router does that takes its place.
abbrev pub placed : Outside → Key → CommitRecord → Key → TransitHop
placed out remote m shared = record {
  info = info_of remote m;
  path_key = shared;
  started = out.now;
  lifetime = default_lifetime;
}

-- The hop at the end confirms the path, the others forward the frames.
abbrev pub next_step : Outside → Key → CommitRecord → Key → Key → List (List ℕ) → Handled
next_step out remote m shared us frames =
    if eq m.next_hop us
    then confirmed (
        hop_send (stream_of out.crypto) out.stack out.nonce
          (confirm_message (record { lifetime = default_lifetime; created = out.now }))
          (placed out remote m shared))
    else forwarded (forward_commit m.next_hop frames)

take_place_lem :
    (out : Outside) (remote : Key) (f : List ℕ) (fs : List (List ℕ)) (m : CommitRecord)
    (ctx : PathContext) (shared : Key)
    → has_transit_hop (info_of remote m) ctx ≡ false
    → out.crypto.dh_server m.commkey out.secret m.nonce ≡ some shared
    → m.work ≡ none
    → take_place out remote (f ∷ fs) m ctx ≡ (
      put_transit_hop (placed out remote m shared) ctx,
      next_step out remote m shared ctx.us (fs ++ (out.random (length f) ∷ [])),
    )
unfolding take_place hop_lifetime
take_place_lem out remote f fs m ctx shared new dh w = rw (new, take_place) (rw dh (rw w refl))

-- The steps of a message whose first frame can be decrypted.
handle_step :
    (out : Outside) (remote : Key) (f plain : List ℕ) (fs : List (List ℕ)) (m : CommitRecord)
    (ctx : PathContext)
    → commit_accepted ctx (f ∷ fs) ≡ true
    → decrypt_in_place out.crypto out.secret f ≡ some plain
    → frame_record out.junk plain ≡ some m
    → handle_commit out remote (f ∷ fs) ctx ≡ take_place out remote (plain ∷ fs) m ctx
unfolding handle_commit
handle_step out remote f plain fs m ctx a d r = rw a (rw d (rw r refl))

-- build
pub handle_commit-encrypt_in_place :
    (out : Outside) (remote sealing ours nonce shared : Key) (frame rest sealed : List ℕ)
    (fs : List (List ℕ)) (m : CommitRecord) (ctx : PathContext)
    → IsCrypto out.crypto
    → IsPlain m
    → m.commkey ≡ out.crypto.to_public ours
    → out.crypto.dh_client (out.crypto.to_public out.secret) ours m.nonce ≡ some shared
    → length nonce ≡ 32
    → overhead < length frame
    → drop 96 frame ≡ record_text m ++ rest
    → encrypt_in_place out.crypto sealing (out.crypto.to_public out.secret) nonce frame
      ≡ some sealed
    → commit_accepted ctx (sealed ∷ fs) ≡ true
    → has_transit_hop (info_of remote m) ctx ≡ false
    → handle_commit out remote (sealed ∷ fs) ctx ≡ (
      put_transit_hop (placed out remote m shared) ctx,
      next_step out remote m shared ctx.us (fs ++ (out.random (length sealed) ∷ [])),
    )
handle_commit-encrypt_in_place out remote sealing ours nonce shared frame rest sealed fs m ctx good
      plain key dh n size text e a new =
    let long = length-encrypt_in_place out.crypto sealing _ nonce frame sealed good n size e in
    let head = take 96 sealed in
    let head_size : length head ≡ overhead = length-take 96 sealed (omega (arith, long, size)) in
    let body : List ℕ = record_text m ++ rest in
    let opened =
      decrypt_in_place-encrypt_in_place out.crypto sealing out.secret nonce frame sealed good n size
        e in
    let opened' : decrypt_in_place out.crypto out.secret sealed ≡ some (head ++ body) =
      opened ∙ ap (λ z. some (head ++ z)) text in
    let server : out.crypto.dh_server m.commkey out.secret m.nonce ≡ some shared =
      rw key (good.agree ours out.secret m.nonce shared dh) in
    let same_size : length (head ++ body) ≡ length sealed = omega (
      arith,
      length-append head body,
      ap (λ (z : List ℕ). length z) text,
      length-drop 96 frame,
      head_size,
      long,
      size,
    ) in
    handle_step out remote sealed (head ++ body) fs m ctx a opened'
      (frame_record_lem m out.junk head rest plain head_size)
    ∙ take_place_lem out remote (head ++ body) fs m ctx shared new server plain.no_work
    ∙ ap
        (λ z. (
          put_transit_hop (placed out remote m shared) ctx,
          next_step out remote m shared ctx.us (fs ++ (out.random z ∷ [])),
        ))
        same_size
