-- ===== src/Commit/Sealed.antt =====
-- What the builder seals for a hop.
use uplexa_network.Prelude.{
  ℕ, suc, ◌+◌, ◌-◌, ◌<◌, ◌≡◌, refl, sym, ap, ◌∙◌, true, false, List, [], ◌∷◌, ◌++◌, some, length,
  drop, arith, length-append, drop-append, Option-cases, inl, inr,
}
use uplexa_network.Text.{print_long, decimal, to_digits}
use uplexa_network.Buffer.{load_all}
use uplexa_network.Buffer.Memory.{load_all-Holds, load_all-split, length-load_all}
use uplexa_network.Bencode.Wire.{string_text, int_text}
use uplexa_network.Bencode.Dict.{key_text}
use uplexa_network.Dht.Key.{Key}
use uplexa_network.Routing.{buffer_of}
use uplexa_network.Path.Own.{HopConfig}
use uplexa_network.Commit.Frame.{Crypto, IsCrypto, encrypt_in_place, overhead}
use uplexa_network.Commit.Record.{CommitRecord}
use uplexa_network.Commit.Record.Trip.{IsPlain, record_text, record_entries, encode_record-Appends}
use uplexa_network.Path.Context.{PathContext, has_transit_hop, put_transit_hop}
use uplexa_network.Commit.Handle.{Outside, commit_accepted, handle_commit, info_of}
use uplexa_network.Commit.Build.{placed, next_step, handle_commit-encrypt_in_place}
use uplexa_network.Commit.Builder.{Draw, fill_frame, generate_key, record_of}

length-string_text_32 : (xs : List ℕ) → length xs ≡ 32 → length (string_text xs) ≡ 35
unfolding print_long decimal to_digits
length-string_text_32 xs e = rw e (ap (λ n. suc (suc (suc n))) e)

length-string_text_16 : (xs : List ℕ) → length xs ≡ 16 → length (string_text xs) ≡ 19
unfolding print_long decimal to_digits
length-string_text_16 xs e = rw e (ap (λ n. suc (suc (suc n))) e)

-- An entry of a dictionary.
length-entry :
    (c n k : ℕ) (xs ys : List ℕ)
    → length xs ≡ n
    → length ys ≡ k
    → length (key_text c ++ (xs ++ ys)) ≡ 3 + n + k
length-entry c n k xs ys e f = omega (arith, length-append xs ys, e, f)

length-version : length (key_text b'v' ++ (int_text 0 ++ [])) ≡ 6
unfolding print_long decimal to_digits
length-version = refl

length-record_text : (m : CommitRecord) → IsPlain m → length (record_text m) ≡ 166
length-record_text m s =
    let entries : length (record_entries m) ≡ 164 =
      length-entry b'c' _ _ _ _ (length-string_text_32 m.commkey s.commkey_size) (
        length-entry b'i' _ _ _ _ (length-string_text_32 m.next_hop s.next_hop_size) (
          length-entry b'n' _ _ _ _ (length-string_text_32 m.nonce s.nonce_size) (
            length-entry b'r' _ _ _ _ (length-string_text_16 m.rxid s.rxid_size) (
              length-entry b't' _ _ _ _ (length-string_text_16 m.txid s.txid_size)
                length-version)))) in
    omega (arith, length-append (record_entries m) (b'e' ∷ []), entries)

-- The frame that the record is written into.
fill_frame_lem :
    (m : CommitRecord) (frame : List ℕ)
    → IsPlain m
    → overhead + 166 < length frame
    → (filled : List ℕ) × (rest : List ℕ) × (fill_frame m frame ≡ some filled)
      × (length filled ≡ length frame)
      × (drop 96 filled ≡ record_text m ++ rest)
unfolding fill_frame
fill_frame_lem m frame s room =
    let start = record (buffer_of frame) { cur = overhead } in
    let size = length-record_text m s in
    let (c, e, x) =
      encode_record-Appends m s.no_work start
        (record { ordered = omega arith; inside = omega (arith, room) })
        (omega (arith, room, size)) in
    let n = length frame - 262 in
    let whole : length frame ≡ 96 + (166 + n) = omega (arith, room) in
    let split : load_all c.mem 0 (length frame)
        ≡ load_all c.mem 0 96 ++ (record_text m ++ load_all c.mem 262 n) =
      ap (load_all c.mem 0) whole
      ∙ load_all-split c.mem 0 96 (166 + n)
      ∙ ap (λ xs. load_all c.mem 0 96 ++ xs)
          (load_all-split c.mem 96 166 n
            ∙ ap (λ xs. xs ++ load_all c.mem 262 n)
                (ap (load_all c.mem 96) (sym size)
                  ∙ load_all-Holds (record_text m) c.mem 96 x.holds)) in
    (
      load_all c.mem 0 (length frame),
      load_all c.mem 262 n,
      rw e (rw (x.base_same) refl),
      length-load_all c.mem 0 (length frame),
      ap (drop 96) split ∙ drop-append (load_all c.mem 0 96) _ 96 0 (length-load_all c.mem 0 96),
    )

some_injective : (x y : List ℕ) → some x ≡ some y → x ≡ y
some_injective x y e = cc

-- The parts of a key exchange that succeeds.
record Generated (crypto : Crypto) (d : Draw) (h h' : HopConfig) (upstream : Key)
    (frame sealed : List ℕ) : Type 0 where
  plain : List ℕ
  dh : crypto.dh_client d.enc_key d.comm d.nonce ≡ some h'.shared
  filled : fill_frame (record_of crypto d h upstream) frame ≡ some plain
  sealing : encrypt_in_place crypto d.frame_key d.enc_key d.seal_nonce plain ≡ some sealed

generate_step :
    (crypto : Crypto) (d : Draw) (h h' : HopConfig) (upstream : Key) (frame sealed : List ℕ)
    → generate_key crypto d h upstream frame ≡ some (h', sealed)
    → Generated crypto d h h' upstream frame sealed
unfolding generate_key
generate_step crypto d h h' upstream frame sealed e =
    elim (Option-cases (crypto.dh_client d.enc_key d.comm d.nonce)) [
      | inl n ↦ absurd (ground arith)
      | inr (shared, s) ↦ elim (Option-cases (fill_frame (record_of crypto d h upstream) frame)) [
        | inl n ↦ absurd (ground arith)
        | inr (plain, f) ↦
            elim (Option-cases (encrypt_in_place crypto d.frame_key d.enc_key d.seal_nonce plain)) [
              | inl n ↦ absurd (ground arith)
              | inr (sealed', g) ↦ record {
                plain = plain;
                dh = ground arith;
                filled = f;
                sealing = ground arith;
              }
            ]
      ]
    ]

-- The sizes of what the builder draws and of the ids.
pub record IsDrawn (d : Draw) (h : HopConfig) (upstream : Key) : Type 0 where
  pub nonce_size : length d.nonce ≡ 32
  pub seal_nonce_size : length d.seal_nonce ≡ 32
  pub rx_size : length h.rx_id ≡ 16
  pub tx_size : length h.tx_id ≡ 16
  pub upstream_size : length upstream ≡ 32

-- A frame of more than 262 bytes that the path builder filled and sealed for a router's public key
-- makes the router, which has not this hop yet and accepts the message, a hop of the path: under
-- the ids and neighbours of the builder's hop, with the secret that the builder computed. It then
-- confirms the path if it is the last hop, and otherwise forwards the other frames with random
-- bytes of the sealed frame's size behind them. The crypto library agrees on secrets, undoes its
-- cipher, and gives hashes and keys of 32 bytes; nonces, the next router's key and ids have their
-- sizes.
pub handle_commit-generate_key :
    (out : Outside) (remote upstream : Key) (d : Draw) (h h' : HopConfig) (frame sealed : List ℕ)
    (fs : List (List ℕ)) (ctx : PathContext)
    → IsCrypto out.crypto
    → IsDrawn d h upstream
    → d.enc_key ≡ out.crypto.to_public out.secret
    → overhead + 166 < length frame
    → generate_key out.crypto d h upstream frame ≡ some (h', sealed)
    → commit_accepted ctx (sealed ∷ fs) ≡ true
    → has_transit_hop (info_of remote (record_of out.crypto d h upstream)) ctx ≡ false
    → handle_commit out remote (sealed ∷ fs) ctx ≡ (
      put_transit_hop (placed out remote (record_of out.crypto d h upstream) h'.shared) ctx,
      next_step out remote
          (record_of out.crypto d h upstream)
          h'.shared
          ctx.us
          (fs ++ (out.random (length sealed) ∷ [])),
    )
handle_commit-generate_key out remote upstream d h h' frame sealed fs ctx good drawn key room e a
      new =
    let m = record_of out.crypto d h upstream in
    let g = generate_step out.crypto d h h' upstream frame sealed e in
    let plain : IsPlain m = record {
      commkey_size = good.key_size d.comm;
      next_hop_size = drawn.upstream_size;
      nonce_size = drawn.nonce_size;
      rxid_size = drawn.rx_size;
      txid_size = drawn.tx_size;
      no_work = refl;
      version_zero = refl;
    } in
    let (filled, rest, f, size, text) = fill_frame_lem m frame plain room in
    let same : filled ≡ g.plain = some_injective filled g.plain (sym f ∙ g.filled) in
    let sealing' : encrypt_in_place out.crypto d.frame_key (out.crypto.to_public out.secret)
          d.seal_nonce filled
        ≡ some sealed =
      rw⁻¹ key (rw same (g.sealing)) in
    handle_commit-encrypt_in_place out remote d.frame_key d.comm d.seal_nonce h'.shared filled rest
      sealed fs m ctx good plain refl (rw⁻¹ key (g.dh)) drawn.seal_nonce_size
      (omega (arith, size, room)) text sealing' a new
