-- ===== src/Examples/Builds.antt =====
-- Runs of the building of a path, over a crypto library of four lines.
use uplexa_network.Prelude.{
  ℕ, ◌+◌, ◌≡◌, refl, ap, ◌∙◌, true, List, [], ◌∷◌, ◌++◌, Option, none, some, arith, length,
  replicate, take,
}
use uplexa_network.Text.{print_long, print_int, decimal, to_digits}
use uplexa_network.Buffer.{writef, write, vsnprintf, size_left}
use uplexa_network.Bencode.{
  write_dict_entry, write_bytestring, start_dict, write_version_entry, end,
}
use uplexa_network.Dht.Key.{fill}
use uplexa_network.Path.Own.{HopConfig}
use uplexa_network.Path.Context.{PathContext, has_transit_hop, has_hop, find_hop, put_transit_hop}
use uplexa_network.Commit.Frame.{Crypto, IsCrypto, encrypt_in_place, decrypt_in_place, frame_body}
use uplexa_network.Commit.Frame.Sealing.{decrypt_in_place-encrypt_in_place}
use uplexa_network.Commit.Record.{CommitRecord, encode_record}
use uplexa_network.Commit.Handle.{Outside, commit_accepted, handle_commit}
use uplexa_network.Commit.Build.{placed, next_step}
use uplexa_network.Commit.Builder.{Draw, generate_key, record_of, fill_frame}
use uplexa_network.Commit.Sealed.{handle_commit-generate_key}

abbrev first_byte : List ℕ → ℕ
first_byte [] = 0
first_byte (x ∷ xs) = x

-- The cipher exchanges the first two bytes.
abbrev flip : List ℕ → List ℕ
flip [] = []
flip (a ∷ []) = a ∷ []
flip (a ∷ b ∷ xs) = b ∷ a ∷ xs

abbrev crypto : Crypto
crypto = record {
  dh_client = λ pubkey secret n. some (fill 32 (first_byte pubkey + first_byte secret));
  dh_server = λ pubkey secret n. some (fill 32 (first_byte pubkey + first_byte secret));
  xchacha20 = λ x k n. some (flip x);
  hmac = λ x k. some (fill 32 (first_byte x));
  to_public = λ k. fill 32 (first_byte k);
}

length-fill_32 : (n : ℕ) → length (fill 32 n) ≡ 32
unfolding fill
length-fill_32 n = refl

some_inj : (x y : List ℕ) → some x ≡ some y → x ≡ y
some_inj x y e = cc

flip_undo :
    (x y : List ℕ) → some (flip x) ≡ some y → (some (flip y) ≡ some x) × (length y ≡ length x)
flip_undo [] y e = rw⁻¹ (some_inj _ _ e) (refl, refl)
flip_undo (a ∷ []) y e = rw⁻¹ (some_inj _ _ e) (refl, refl)
flip_undo (a ∷ b ∷ xs) y e = rw⁻¹ (some_inj _ _ e) (refl, refl)

crypto-IsCrypto : IsCrypto crypto
unfolding fill
crypto-IsCrypto = record {
  agree = λ ours theirs n s e. ap (λ z. some (fill 32 z)) (omega arith) ∙ e;
  undo = λ x y k n e. flip_undo x y e;
  hash_size = λ x k h e. rw⁻¹ (some_inj _ _ e) (length-fill_32 (first_byte x));
  key_size = λ k. length-fill_32 (first_byte k);
}

abbrev frame : List ℕ
frame = replicate 280 0

abbrev sealed_of : Option (HopConfig × List ℕ) → List ℕ
sealed_of none = []
sealed_of (some r) = r.1

abbrev plain_sealed : List ℕ
plain_sealed = fill 32 5 ++ (fill 32 5 ++ (fill 32 2 ++ (8 ∷ 7 ∷ 9 ∷ [])))

decrypt_in_place-encrypt_in_place_example :
    decrypt_in_place crypto (3 ∷ []) plain_sealed
    ≡ some (take 96 plain_sealed ++ frame_body (replicate 96 0 ++ (7 ∷ 8 ∷ 9 ∷ [])))
unfolding encrypt_in_place fill
decrypt_in_place-encrypt_in_place_example =
    decrypt_in_place-encrypt_in_place crypto (2 ∷ []) (3 ∷ []) (fill 32 5)
      (replicate 96 0 ++ (7 ∷ 8 ∷ 9 ∷ [])) plain_sealed crypto-IsCrypto refl (omega arith) refl

abbrev draw : Draw
draw = record {
  comm = 2 ∷ [];
  nonce = fill 32 1;
  frame_key = 4 ∷ [];
  seal_nonce = fill 32 6;
  enc_key = fill 32 3;
}

abbrev hop : HopConfig
hop = record {
  tx_id = fill 16 21;
  rx_id = fill 16 20;
  router = fill 32 11;
  shared = [];
  upstream = [];
  nonce = [];
  lifetime = 600000;
}

abbrev keyed_hop : HopConfig
keyed_hop = record hop { shared = fill 32 5; nonce = fill 32 1; upstream = fill 32 12 }

abbrev sealed : List ℕ
sealed = sealed_of (generate_key crypto draw hop (fill 32 12) frame)

abbrev seven : List (List ℕ)
seven = replicate 7 frame

abbrev junk : CommitRecord
junk = record {
  commkey = [];
  next_hop = [];
  nonce = [];
  txid = [];
  rxid = [];
  work = none;
  version = 0;
}

abbrev outside : Outside
outside = record {
  crypto = crypto;
  shorthash = λ x. none;
  log = λ n. 0;
  random = λ n. replicate n 1;
  stack = λ _. 0;
  nonce = fill 32 8;
  secret = 3 ∷ [];
  now = 5000;
  junk = junk;
}

abbrev router11 : PathContext
router11 = record { us = fill 32 11; allow_transit = true; transit = []; own = []; builders = [] }

generated : generate_key crypto draw hop (fill 32 12) frame ≡ some (keyed_hop, sealed)
unfolding generate_key fill fill_frame encrypt_in_place encode_record write_dict_entry
    write_bytestring writef write vsnprintf size_left start_dict write_version_entry end print_int
    print_long decimal to_digits
generated = refl

handle_commit-generate_key_example :
    handle_commit outside (fill 32 10) (sealed ∷ seven) router11 ≡ (
      put_transit_hop
          (placed outside (fill 32 10) (record_of crypto draw hop (fill 32 12)) (fill 32 5))
          router11,
      next_step outside
          (fill 32 10)
          (record_of crypto draw hop (fill 32 12))
          (fill 32 5)
          (fill 32 11)
          (seven ++ (replicate (length sealed) 1 ∷ [])),
    )
unfolding fill commit_accepted has_transit_hop has_hop find_hop
handle_commit-generate_key_example =
    handle_commit-generate_key outside (fill 32 10) (fill 32 12) draw hop keyed_hop frame sealed
      seven router11 crypto-IsCrypto
      (record {
        nonce_size = refl;
        seal_nonce_size = refl;
        rx_size = refl;
        tx_size = refl;
        upstream_size = refl;
      })
      refl (omega arith) generated refl refl
