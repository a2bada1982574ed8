-- ===== src/Dht/Codec/Ends.antt =====
-- Decoding a list of DHT messages ends on every input.
use uplexa_network.Prelude.{
  ℕ, ◌≤◌, Bool, true, false, [], ◌∷◌, Option, none, some, arith, ◌==◌, inl, inr, Bool-cases,
}
use uplexa_network.Buffer.{Buffer, Result, and_then, return, eq}
use uplexa_network.Bencode.{
  read_integer, read_string, read_dict, read_list, maybe_read_version, proto_version,
}
use uplexa_network.Bencode.Progress.{
  Moves-refl, Forward, and_then-Forward, KeyForward, ItemForward, read_string-Forward,
  read_integer-Forward, read_dict-Forward, read_list-Forward,
}
use uplexa_network.Dht.Key.{Key}
use uplexa_network.Dht.Message.{FindRouter, GotRouter, find_router, got_router}
use uplexa_network.Dht.Codec.{
  RcCodec, key_of_string, decode_find_router, read_contact, checked_version, decode_got_router,
  Decoder, new_message, decode_key, on_key, the_message, decode_message, on_item,
  decode_message_list,
}

-- A reader that ends and goes forward, and then a step that keeps the cursor.
pub then_return :
    {A B : Type 0} (n k : ℕ) (b : Buffer) (r : Result A × Buffer) (f : A → B)
    → n ≤ k
    → Forward k b r
    → Forward n b (and_then r (λ a. return (f a)))
then_return n k b r f h p = and_then-Forward k 0 n b r _ (omega arith) p (λ a c m. Moves-refl c)

key_of_string-Forward : (m : FindRouter) (s b : Buffer) → Forward 0 b (key_of_string m s b)
unfolding key_of_string
key_of_string-Forward m s b = elim (Bool-cases (s.sz == 32)) [
  | inl e ↦ rw e (Moves-refl b)
  | inr e ↦ rw e tt
]

decode_find_router-Forward :
    (key : Buffer) (m : FindRouter) (b : Buffer) → Forward 0 b (decode_find_router key m b)
unfolding decode_find_router
decode_find_router-Forward key m b = elim (Bool-cases (eq key (b'I' ∷ []))) [
  | inl e ↦ rw e (then_return 0 1 b (read_integer b) _ (omega arith) (read_integer-Forward b))
  | inr e ↦ rw e (elim (Bool-cases (eq key (b'K' ∷ []))) [
    | inl e' ↦ rw e' (
        and_then-Forward 1 0 0 b (read_string b) _ (omega arith) (read_string-Forward b)
          (λ s c _. key_of_string-Forward m s c))
    | inr e' ↦ rw e' (elim (Bool-cases (eq key (b'T' ∷ []))) [
      | inl e'' ↦
          rw e'' (then_return 0 1 b (read_integer b) _ (omega arith) (read_integer-Forward b))
      | inr e'' ↦ rw e'' (elim (Bool-cases (eq key (b'V' ∷ []))) [
        | inl e3 ↦
            rw e3 (then_return 0 1 b (read_integer b) _ (omega arith) (read_integer-Forward b))
        | inr e3 ↦ rw e3 tt
      ])
    ])
  ])
]

module _ {Rc : Type 0} (rcs : RcCodec Rc)
    (decodes : (b : Buffer) → b.base ≤ b.cur → Forward 1 b (rcs.decode b)) where
  read_contact-ItemForward : ItemForward (read_contact rcs)
  unfolding read_contact
  read_contact-ItemForward found b h =
      (then_return 1 1 b (rcs.decode b) _ (omega arith) (decodes b h), Moves-refl b)

  checked_version-Forward :
      (m : GotRouter Rc) (v : Option (ℕ × Bool)) (b : Buffer)
      → Forward 0 b (checked_version rcs m v b)
  unfolding checked_version
  checked_version-Forward m none b = tt
  checked_version-Forward m (some (v, true)) b = Moves-refl b
  checked_version-Forward m (some (v, false)) b = tt

  version-Forward :
      (key b : Buffer) → Forward 0 b (maybe_read_version (b'V' ∷ []) proto_version key b)
  unfolding maybe_read_version
  version-Forward key b = elim (Bool-cases (eq key (b'V' ∷ []))) [
    | inl e ↦ rw e (then_return 0 1 b (read_integer b) _ (omega arith) (read_integer-Forward b))
    | inr e ↦ rw e (Moves-refl b)
  ]

  decode_got_router-Forward :
      (key : Buffer) (m : GotRouter Rc) (b : Buffer)
      → b.base ≤ b.cur
      → Forward 0 b (decode_got_router rcs key m b)
  unfolding decode_got_router
  decode_got_router-Forward key m b h = elim (Bool-cases (eq key (b'R' ∷ []))) [
    | inl e ↦ rw e (
        then_return 0 2 b (read_list (read_contact rcs) m.found b) _ (omega arith)
          (read_list-Forward (read_contact rcs) m.found b read_contact-ItemForward h))
    | inr e ↦ rw e (elim (Bool-cases (eq key (b'T' ∷ []))) [
      | inl e' ↦ rw e' (then_return 0 1 b (read_integer b) _ (omega arith) (read_integer-Forward b))
      | inr e' ↦ rw e' (
          and_then-Forward 0 0 0 b (maybe_read_version (b'V' ∷ []) proto_version key b) _
            (omega arith) (version-Forward key b) (λ v c _. checked_version-Forward m v c))
    ])
  ]

  new_message-Forward :
      (junk from : Key) (s b : Buffer) → Forward 0 b (new_message rcs junk from s b)
  unfolding new_message
  new_message-Forward junk from s b = elim (Bool-cases (s.sz == 1)) [
    | inr e ↦ rw e tt
    | inl e ↦ rw e (elim (Bool-cases (s.mem s.base == b'R')) [
      | inl e' ↦ rw e' (Moves-refl b)
      | inr e' ↦ rw e' (elim (Bool-cases (s.mem s.base == b'S')) [
        | inl e'' ↦ rw e'' (Moves-refl b)
        | inr e'' ↦ rw e'' tt
      ])
    ])
  ]

  on_key-KeyForward : (junk from : Key) → KeyForward (on_key rcs junk from)
  unfolding on_key decode_key
  on_key-KeyForward junk from none none b h = tt
  on_key-KeyForward junk from none (some m) b h = Moves-refl b
  on_key-KeyForward junk from (some key) none b h = elim (Bool-cases (eq key (b'A' ∷ []))) [
    | inr e ↦ rw e tt
    | inl e ↦ rw e (
        and_then-Forward 1 0 0 b (read_string b) _ (omega arith) (read_string-Forward b)
          (λ s c _. new_message-Forward junk from s c))
  ]
  on_key-KeyForward junk from (some key) (some (find_router m)) b h =
      then_return 0 0 b (decode_find_router key m b) _ (omega arith)
        (decode_find_router-Forward key m b)
  on_key-KeyForward junk from (some key) (some (got_router m)) b h =
      then_return 0 0 b (decode_got_router rcs key m b) _ (omega arith)
        (decode_got_router-Forward key m b h)

  the_message-Forward : (d : Decoder rcs) (b : Buffer) → Forward 0 b (the_message rcs d b)
  unfolding the_message
  the_message-Forward none b = tt
  the_message-Forward (some m) b = Moves-refl b

  decode_message-Forward :
      (junk from : Key) (b : Buffer) → b.base ≤ b.cur → Forward 2 b (decode_message rcs junk from b)
  unfolding decode_message
  decode_message-Forward junk from b h =
      and_then-Forward 2 0 2 b (read_dict (on_key rcs junk from) none b) _ (omega arith)
        (read_dict-Forward (on_key rcs junk from) none b (on_key-KeyForward junk from) h)
        (λ d c _. the_message-Forward d c)

  on_item-ItemForward : (junk from : Key) → ItemForward (on_item rcs junk from)
  unfolding on_item
  on_item-ItemForward junk from ms b h = (
    then_return 1 2 b (decode_message rcs junk from b) _ (omega arith)
        (decode_message-Forward junk from b h),
    Moves-refl b,
  )

  -- DecodeMesssageList ends on every input, and where it succeeds it has moved forward in the same
  -- region, if the cursor is not before the base and the codec of router contacts ends and takes a
  -- byte at least for each contact.
  pub decode_message_list-Forward :
      (junk from : Key) (b : Buffer)
      → b.base ≤ b.cur
      → Forward 2 b (decode_message_list rcs junk from b)
  unfolding decode_message_list
  decode_message_list-Forward junk from b h =
      read_list-Forward (on_item rcs junk from) [] b (on_item-ItemForward junk from) h
