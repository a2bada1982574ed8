-- ===== src/Contact/Lists.antt =====
-- The texts of the lists, and the reading of their fields.
use uplexa_network.Prelude.{
  ℕ, ◌+◌, ◌^◌, ◌≤◌, ◌<◌, ◌≡◌, refl, sym, ap, subst, ◌∙◌, List, [], ◌∷◌, ◌++◌, none, some, length,
  length-append, lt→ltb, arith, All, Lacks, map, concat, drop,
}
use uplexa_network.Text.{print_long, print_int}
use uplexa_network.Buffer.{Buffer, Io, Result, ok, failed, stuck, and_then}
use uplexa_network.Buffer.Read.{Reads}
use uplexa_network.Buffer.Write.{Appends, Appends-seq, return-Appends, writef-Appends}
use uplexa_network.Bencode.{write_uint16}
use uplexa_network.Bencode.Wire.{
  int_text, string_text, start_list-Appends, end-Appends, write_bytestring-Appends,
}
use uplexa_network.Bencode.Dict.{key_text}
use uplexa_network.Bencode.Fields.{write_key-Appends, string-bytes}
use uplexa_network.Bencode.RoundTrip.{read_integer-Reads, read_string_lem}
use uplexa_network.Contact.{Inet, Prints, c_string, read_ip, visit_items, encode_list}
use uplexa_network.Contact.Address.{read_uint16, read_dialect, read_version, write_ip}

abbrev pub list_text : List (List ℕ) → List ℕ
list_text xs = b'l' ∷ (concat xs ++ (b'e' ∷ []))

-- A visit that succeeds is followed by the others.
after_visit :
    (r : Result (Unit {0}) × Buffer) (g : Io (Unit {0}))
    → r.0 ≡ ok tt
    → elim (r.0) as (λ _. Result (Unit {0}) × Buffer) [
      | ok _ ↦ g r.1
      | failed ↦ (ok tt, r.1)
      | stuck ↦ (stuck, r.1)
    ]
      ≡ and_then r (λ _. g)
after_visit (ok _, c) g e = refl
after_visit (failed, c) g e = cc
after_visit (stuck, c) g e = cc

module _ {A : Type 0} (encode : A → Io (Unit {0})) (text : A → List ℕ) where
  visit_items-Appends :
      (l : List A)
      → All (λ a. Appends (encode a) (text a)) l
      → Appends (visit_items (map encode l)) (concat (map text l))
  unfolding visit_items
  visit_items-Appends [] h b v room = return-Appends b v room
  visit_items-Appends (a ∷ l) h b v room =
      let (d, e, x) = Appends-seq h.0 (visit_items-Appends l h.1) b v room in
      let (c, e', _) = h.0 b v (omega (arith, length-append (text a) (concat (map text l)))) in
      let done : (encode a b).0 ≡ ok tt = ap (λ (r : Result (Unit {0}) × Buffer). r.0) e' in
      (d, after_visit (encode a b) (visit_items (map encode l)) done ∙ e, x)

  pub encode_list-Appends :
      (l : List A)
      → All (λ a. Appends (encode a) (text a)) l
      → Appends (encode_list (map encode l)) (list_text (map text l))
  unfolding encode_list
  encode_list-Appends l h =
      Appends-seq start_list-Appends (Appends-seq (visit_items-Appends l h) end-Appends)

pub c_string-Lacks : (cs : List ℕ) → Lacks 0 cs → c_string cs ≡ cs
unfolding c_string
c_string-Lacks [] h = refl
c_string-Lacks (c ∷ cs) h = ground (arith, c_string-Lacks cs h.1, h.0)

pub length-c_string : (cs : List ℕ) → length (c_string cs) ≤ length cs
unfolding c_string
length-c_string [] = omega arith
length-c_string (c ∷ cs) = ground (arith, length-c_string cs)

-- A NUL behind ends the text.
pub c_string-c_string : (cs xs : List ℕ) → c_string (c_string cs ++ (0 ∷ xs)) ≡ c_string cs
unfolding c_string
c_string-c_string [] xs = refl
c_string-c_string (c ∷ cs) xs = ground (arith, c_string-c_string cs xs)

-- The text of an address on the wire.
unfoldable pub ip_text : Inet → List ℕ → List ℕ
ip_text inet ip = elim (inet.ntop ip) [ none ↦ [] | some text ↦ c_string text ]

pub ip_text-Prints : (inet : Inet) (ip : List ℕ) (p : Prints inet ip) → ip_text inet ip ≡ p.text
unfolding ip_text
ip_text-Prints inet ip p = rw (p.printed, ip_text) (c_string-Lacks p.text p.plain)

pub read_uint16-Reads : (i : ℕ) → 1 ≤ i → i < 2 ^ 16 → Reads read_uint16 (int_text i) i
unfolding read_uint16
read_uint16-Reads i l h b v there fits =
    rw (read_integer-Reads i (omega arith) b v there fits) (ground arith)

pub read_version-Reads : Reads read_version (int_text 0) tt
unfolding read_version
read_version-Reads b v there fits = rw (read_integer-Reads 0 (omega arith) b v there fits)

pub read_dialect-Reads :
    (old xs : List ℕ)
    → length xs < 6
    → Reads (read_dialect old) (string_text xs) (xs ++ (0 ∷ drop (length xs + 1) old))
unfolding read_dialect
read_dialect-Reads old xs h b v there fits =
    let bytes = string-bytes xs b there in
    rw (read_string_lem xs b (omega arith) v there fits) (ground (arith, bytes))

read_text-ip :
    (inet : Inet) (ip xs : List ℕ)
    → Lacks 0 xs
    → length xs < 46
    → inet.pton xs ≡ some ip
    → Reads (read_ip inet) (string_text xs) ip
unfolding read_ip
read_text-ip inet ip xs plain short parsed b v there fits =
    let bytes = string-bytes xs b there in
    rw (read_string_lem xs b (omega arith) v there fits)
      (ground (arith, bytes, c_string-Lacks xs plain))

pub read_ip-Reads :
    (inet : Inet) (ip : List ℕ)
    → Prints inet ip
    → Reads (read_ip inet) (string_text (ip_text inet ip)) ip
read_ip-Reads inet ip p =
    subst (λ xs. Reads (read_ip inet) (string_text xs) ip) (sym (ip_text-Prints inet ip p))
      (read_text-ip inet ip p.text p.plain p.short p.parsed)

print_int-print_long : (i : ℕ) → i < 2 ^ 16 → print_int i ≡ print_long i
unfolding print_int print_long
print_int-print_long i h = rw (lt→ltb i (2 ^ 31) (omega arith), lt→ltb i (2 ^ 63) (omega arith))

pub write_uint16-Appends : (i : ℕ) → i < 2 ^ 16 → Appends (write_uint16 i) (int_text i)
unfolding write_uint16
write_uint16-Appends i h = rw (print_int-print_long i h) (writef-Appends (int_text i) (omega arith))

pub write_ip-Appends :
    (inet : Inet) (k : ℕ) (ip : List ℕ)
    → Prints inet ip
    → Appends (write_ip inet k (inet.ntop ip)) (key_text k ++ string_text (ip_text inet ip))
unfolding write_ip ip_text
write_ip-Appends inet k ip p =
    rw (p.printed, ip_text)
      (Appends-seq (write_key-Appends k) (write_bytestring-Appends (c_string p.text)))
