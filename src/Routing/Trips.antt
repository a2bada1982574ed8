-- ===== src/Routing/Trips.antt =====
-- A routing message is parsed from the bytes that it is sent as.
use uplexa_network.Prelude.{
  ℕ, ◌-◌, ◌^◌, ◌<◌, ◌≤◌, ◌≡◌, refl, ap, subst, sym, ◌∙◌, List, [], ◌∷◌, ◌++◌, Option, none, some,
  if◌then◌else◌, length, length-append, append_assoc, append-nil, arith, ◌==◌, ==_iff, Bool-cases,
  inl, inr,
}
use uplexa_network.Text.{print_long}
use uplexa_network.Text.RoundTrip.{length-print_long}
use uplexa_network.Buffer.{Buffer, ok, load_all}
use uplexa_network.Buffer.Memory.{Mem, Holds, load_all-Holds, store_all-Holds}
use uplexa_network.Buffer.Write.{Extends, Appends, Appends-seq, return-Appends}
use uplexa_network.Bencode.{maybe_read_dict_int}
use uplexa_network.Bencode.Wire.{int_text, start_dict-Appends, end-Appends}
use uplexa_network.Bencode.Fields.{write_dict_int-Appends, write_dict_msg_type-Appends}
use uplexa_network.Bencode.RoundTrip.{read_integer-Reads}
use uplexa_network.Bencode.Dict.{
  key_text, eq_letter, Takes, Entries, done, entry, read_dict-Entries, read_string-IsKey,
}
use uplexa_network.Routing.{
  RoutingMessage, confirm_message, latency_message, encode_confirm, decode_confirm, encode_latency,
  decode_latency, write_if_set, encode_routing, start_routing, on_routing_key, buffer_of,
  parse_routing, routing_bytes, routing_room, the_routing,
}

-- The text of a number, or nothing where it is left out.
abbrev set_text : ℕ → ℕ → List ℕ
set_text k i = if i == 0 then [] else key_text k ++ int_text i

abbrev routing_entries : RoutingMessage → List ℕ
routing_entries (confirm_message m) =
    key_text b'A'
    ++ (key_text b'P'
        ++ (key_text b'L'
            ++ (int_text m.lifetime ++ (key_text b'S' ++ (int_text m.created ++ [])))))
routing_entries (latency_message m) =
    key_text b'A' ++ (key_text b'L' ++ (set_text b'L' m.l ++ (set_text b'T' m.t ++ [])))

abbrev routing_text : RoutingMessage → List ℕ
routing_text m = b'd' ∷ (routing_entries m ++ (b'e' ∷ []))

write_if_set-Appends : (k i : ℕ) → Appends (write_if_set k i) (set_text k i)
write_if_set-Appends k i = elim (Bool-cases (i == 0)) [
  | inl e ↦ rw e return-Appends
  | inr e ↦ rw e (write_dict_int-Appends k i)
]

encode_routing-Appends : (m : RoutingMessage) → Appends (encode_routing m) (routing_text m)
unfolding encode_routing encode_confirm encode_latency
encode_routing-Appends (confirm_message m) =
    subst (Appends (encode_confirm m)) (simp (append_assoc, append-nil)) (
      Appends-seq start_dict-Appends (
        Appends-seq (write_dict_msg_type-Appends b'A' b'P') (
          Appends-seq (write_dict_int-Appends b'L' m.lifetime)
            (Appends-seq (write_dict_int-Appends b'S' m.created) end-Appends))))
encode_routing-Appends (latency_message m) =
    subst (Appends (encode_latency m)) (simp (append_assoc, append-nil)) (
      Appends-seq start_dict-Appends (
        Appends-seq (write_dict_msg_type-Appends b'A' b'L') (
          Appends-seq (write_if_set-Appends b'L' m.l)
            (Appends-seq (write_if_set-Appends b'T' m.t) end-Appends))))

length-int_text : (i : ℕ) → length (int_text i) ≤ 23
length-int_text i = omega (arith, length-append (print_long i) (b'e' ∷ []), length-print_long i)

length-set_text : (k i : ℕ) → length (set_text k i) ≤ 26
length-set_text k i = elim (Bool-cases (i == 0)) [
  | inl e ↦ rw e (omega arith)
  | inr e ↦ rw e (omega (arith, length-int_text i))
]

length-routing_entries : (m : RoutingMessage) → length (routing_entries m) ≤ 100
length-routing_entries (confirm_message m) = omega (
  arith,
  length-append (int_text m.lifetime) (key_text b'S' ++ (int_text m.created ++ [])),
  length-append (int_text m.created) [],
  length-int_text m.lifetime,
  length-int_text m.created,
)
length-routing_entries (latency_message m) = omega (
  arith,
  length-append (set_text b'L' m.l) (set_text b'T' m.t ++ []),
  length-append (set_text b'T' m.t) [],
  length-set_text b'L' m.l,
  length-set_text b'T' m.t,
)

-- Numbers other than the one that `bencode_read_integer` takes for an error.
abbrev pub IsReadable : RoutingMessage → Type 0
IsReadable (confirm_message m) = (m.lifetime < 2 ^ 64 - 1) × (m.created < 2 ^ 64 - 1)
IsReadable (latency_message m) = (m.l < 2 ^ 64 - 1) × (m.t < 2 ^ 64 - 1)

abbrev latency : ℕ → ℕ → Option RoutingMessage
latency t l = some (latency_message (record { t = t; l = l }))

abbrev confirm : ℕ → ℕ → Option RoutingMessage
confirm l s = some (confirm_message (record { lifetime = l; created = s }))

Takes-latency : Takes on_routing_key b'A' (key_text b'L') none (latency 0 0)
unfolding on_routing_key start_routing
Takes-latency key b letter v h fits =
    let (s, r, l) = read_string-IsKey b'L' b v h fits in
    rw (eq_letter b'A' b'A' key letter) (rw r (ground (arith, l)))

Takes-confirm : Takes on_routing_key b'A' (key_text b'P') none (confirm 0 0)
unfolding on_routing_key start_routing
Takes-confirm key b letter v h fits =
    let (s, r, l) = read_string-IsKey b'P' b v h fits in
    rw (eq_letter b'A' b'A' key letter) (rw r (ground (arith, l)))

Takes-l :
    (i l : ℕ) → i < 2 ^ 64 - 1 → Takes on_routing_key b'L' (int_text i) (latency 0 l) (latency 0 i)
unfolding on_routing_key decode_latency maybe_read_dict_int
Takes-l i l small key b letter v h fits =
    rw (eq_letter b'L' b'L' key letter)
      (rw (read_integer-Reads i small b v h fits) (rw (eq_letter b'L' b'T' key letter)))

Takes-t :
    (i l : ℕ) → i < 2 ^ 64 - 1 → Takes on_routing_key b'T' (int_text i) (latency 0 l) (latency i l)
unfolding on_routing_key decode_latency maybe_read_dict_int
Takes-t i l small key b letter v h fits =
    rw (eq_letter b'T' b'L' key letter, eq_letter b'T' b'T' key letter)
      (rw (read_integer-Reads i small b v h fits))

Takes-lifetime :
    (i : ℕ) → i < 2 ^ 64 - 1 → Takes on_routing_key b'L' (int_text i) (confirm 0 0) (confirm i 0)
unfolding on_routing_key decode_confirm maybe_read_dict_int
Takes-lifetime i small key b letter v h fits =
    rw (eq_letter b'L' b'L' key letter)
      (rw (read_integer-Reads i small b v h fits) (rw (eq_letter b'L' b'S' key letter)))

Takes-created :
    (i l : ℕ) → i < 2 ^ 64 - 1 → Takes on_routing_key b'S' (int_text i) (confirm l 0) (confirm l i)
unfolding on_routing_key decode_confirm maybe_read_dict_int
Takes-created i l small key b letter v h fits =
    rw (eq_letter b'S' b'L' key letter, eq_letter b'S' b'S' key letter)
      (rw (read_integer-Reads i small b v h fits))

-- An entry that is left out leaves a 0.
Entries-t :
    (t l : ℕ)
    → t < 2 ^ 64 - 1
    → Entries on_routing_key (latency 0 l) (set_text b'T' t ++ []) (latency t l)
Entries-t t l small = elim (Bool-cases (t == 0)) [
  | inl e ↦ rw e (
      subst (λ z. Entries on_routing_key (latency 0 l) [] (latency z l)) (sym ((==_iff t 0).0 e))
        done)
  | inr e ↦ rw (e, append_assoc) (entry b'T' (int_text t) (Takes-t t l small) done)
]

Entries-l :
    (t l : ℕ)
    → l < 2 ^ 64 - 1
    → t < 2 ^ 64 - 1
    → Entries on_routing_key
        (latency 0 0)
        (set_text b'L' l ++ (set_text b'T' t ++ []))
        (latency t l)
Entries-l t l small small' = elim (Bool-cases (l == 0)) [
  | inl e ↦ rw e (
      subst (λ z. Entries on_routing_key (latency 0 0) (set_text b'T' t ++ []) (latency t z))
        (sym ((==_iff l 0).0 e)) (Entries-t t 0 small'))
  | inr e ↦
      rw (e, append_assoc) (entry b'L' (int_text l) (Takes-l l 0 small) (Entries-t t l small'))
]

routing_Entries :
    (m : RoutingMessage) → IsReadable m → Entries on_routing_key none (routing_entries m) (some m)
routing_Entries (confirm_message m) (l, s) = entry b'A' (key_text b'P') Takes-confirm (
    entry b'L' (int_text m.lifetime) (Takes-lifetime m.lifetime l)
      (entry b'S' (int_text m.created) (Takes-created m.created m.lifetime s) done))
routing_Entries (latency_message m) (l, t) =
    entry b'A' (key_text b'L') Takes-latency (Entries-l m.t m.l l t)

-- The bytes that were appended at the start of a buffer.
load_all-Extends :
    (b c : Buffer) (xs : List ℕ)
    → b.cur ≡ b.base
    → Extends b c xs
    → load_all c.mem c.base (c.cur - c.base) ≡ xs
load_all-Extends b c xs e x =
    let n : c.cur - c.base ≡ length xs = omega (arith, x.moved, x.base_same) in
    let at_base : b.cur ≡ c.base = e ∙ sym x.base_same in
    rw n (load_all-Holds xs c.mem c.base (subst (λ a. Holds c.mem a xs) at_base x.holds))

-- The bytes of a message, and what the parser makes of them.
pub routing_bytes_lem :
    (tmp : Mem) (m : RoutingMessage) → routing_bytes tmp m ≡ some (routing_text m)
unfolding routing_bytes
routing_bytes_lem tmp m =
    let size = length-append (routing_entries m) (b'e' ∷ []) in
    let short = length-routing_entries m in
    let start : Buffer = record { mem = tmp; base = 0; cur = 0; sz = routing_room } in
    let (c, e, x) =
      encode_routing-Appends m start (record { ordered = omega arith; inside = omega arith })
        (omega (arith, size, short)) in
    rw e (ap some (load_all-Extends start c (routing_text m) refl x))

routing_end : (m : RoutingMessage) (b : Buffer) → on_routing_key none (some m) b ≡ (ok (some m), b)
unfolding on_routing_key
routing_end m b = refl

parse_routing-routing_text :
    (m : RoutingMessage) → IsReadable m → parse_routing (routing_text m) ≡ some m
unfolding parse_routing
parse_routing-routing_text m s =
    let size = length-append (routing_entries m) (b'e' ∷ []) in
    ap (λ r. the_routing r.0)
      (read_dict-Entries on_routing_key (routing_Entries m s) (buffer_of (routing_text m))
        (record { ordered = omega arith; inside = omega arith })
        (store_all-Holds (routing_text m) (λ _. 0) 0) (omega (arith, size)) (routing_end m))

-- A path confirmation or latency message with numbers below 2 ^ 64 - 1 fits the buffer on the
-- stack, and the bytes that it is sent as are parsed as the same message.
pub parse_routing-routing_bytes :
    (tmp : Mem) (m : RoutingMessage)
    → IsReadable m
    → (bytes : List ℕ) × (routing_bytes tmp m ≡ some bytes) × (parse_routing bytes ≡ some m)
parse_routing-routing_bytes tmp m s =
    (routing_text m, routing_bytes_lem tmp m, parse_routing-routing_text m s)
