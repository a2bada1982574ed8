-- ===== src/Bencode/RoundTrip.antt =====
-- What the reading functions of bencode.c make of the bencoded texts.
use uplexa_network.Prelude.{
  ℕ, suc, ◌+◌, ◌-◌, ◌^◌, ◌≤◌, ◌<◌, ◌≡◌, sym, subst, List, [], ◌∷◌, ◌++◌, arith, length,
  length-append, ◌∙◌, ap,
}
use uplexa_network.Text.{print_long, atol, atoi}
use uplexa_network.Text.RoundTrip.{
  length-print_long, length-print_long_lt, print_long-Lacks, atol-print_long, atoi-print_long,
}
use uplexa_network.Buffer.{Buffer, Result, ok, failed, advance, read_until, size_left}
use uplexa_network.Buffer.Memory.{Holds, Holds-split}
use uplexa_network.Buffer.Valid.{IsValid, size_left_lem, advance-IsValid}
use uplexa_network.Buffer.Read.{Reads, read_until-delim}
use uplexa_network.Bencode.{integer_of, read_integer, string_of, read_string}
use uplexa_network.Bencode.Wire.{int_text, string_text}

integer_of-atol :
    (xs : List ℕ) (v : ℕ) (b : Buffer)
    → 1 ≤ length xs
    → atol xs ≡ v
    → v < 2 ^ 64 - 1
    → integer_of xs b ≡ (ok v, advance 1 b)
unfolding integer_of
integer_of-atol [] v b k e h = absurd (omega arith)
integer_of-atol (c ∷ cs) v b k e h = ground arith

integer_of-minus_one :
    (xs : List ℕ) (b : Buffer)
    → 1 ≤ length xs
    → atol xs ≡ 2 ^ 64 - 1
    → integer_of xs b ≡ (failed, advance 1 b)
unfolding integer_of
integer_of-minus_one [] b k e = absurd (omega arith)
integer_of-minus_one (c ∷ cs) b k e = ground arith

-- The digits of an integer that stands at the cursor are read up to its end mark.
module _ (v : ℕ) (b : Buffer) (valid : IsValid b) (there : Holds b.mem b.cur (int_text v))
    (fits : b.cur + length (int_text v) ≤ b.base + b.sz) where
  text_length : length (print_long v ++ (b'e' ∷ [])) ≡ length (print_long v) + 1
  text_length = length-append (print_long v) (b'e' ∷ [])

  read_until-print_long :
      read_until b'e' 31 (advance 1 b)
      ≡ (print_long v, advance (length (print_long v)) (advance 1 b))
  read_until-print_long =
      let h = Holds-split (print_long v) (b'e' ∷ []) b.mem (suc b.cur) there.1 in
      let e : b.cur + 1 ≡ suc b.cur = omega arith in
      read_until-delim (advance 1 b) b'e' (print_long v) 31
        (advance-IsValid 1 b valid (omega arith)) (print_long-Lacks b'e' v (omega arith))
        (omega (arith, length-print_long v)) (subst (λ n. Holds b.mem n (print_long v)) (sym e) h.0)
        (subst (λ n. b.mem (n + length (print_long v)) ≡ b'e') (sym e) h.1.0)
        (omega (arith, text_length))

  read_integer_step :
      read_integer b ≡ integer_of (print_long v) (advance (length (print_long v)) (advance 1 b))
  unfolding read_integer
  read_integer_step = rw there.0 (rw read_until-print_long)

-- A 64-bit integer but the largest is read back.
pub read_integer-Reads : (v : ℕ) → v < 2 ^ 64 - 1 → Reads read_integer (int_text v) v
read_integer-Reads v h b valid there fits =
    read_integer_step v b valid there fits
    ∙ integer_of-atol (print_long v) v (advance (length (print_long v)) (advance 1 b))
        (length-print_long v).0 (atol-print_long v (omega arith)) h
    ∙ ground (arith, text_length v b valid there fits)

-- A 64-bit integer but the largest whose text stands at the cursor of a valid buffer is read by
-- bencode_read_integer, which moves behind it.
pub read_integer_lem :
    (v : ℕ) (b : Buffer)
    → v < 2 ^ 64 - 1
    → IsValid b
    → Holds b.mem b.cur (int_text v)
    → b.cur + length (int_text v) ≤ b.base + b.sz
    → read_integer b ≡ (ok v, advance (length (int_text v)) b)
read_integer_lem v b h valid there fits = read_integer-Reads v h b valid there fits

-- The text of the largest 64-bit integer, where it stands at the cursor of a valid buffer, is
-- refused by bencode_read_integer.
pub read_integer_largest :
    (b : Buffer)
    → IsValid b
    → Holds b.mem b.cur (int_text (2 ^ 64 - 1))
    → b.cur + length (int_text (2 ^ 64 - 1)) ≤ b.base + b.sz
    → (read_integer b).0 ≡ failed
read_integer_largest b valid there fits =
    ap (λ (r : Result ℕ × Buffer). r.0)
      (read_integer_step (2 ^ 64 - 1) b valid there fits
        ∙ integer_of-minus_one (print_long (2 ^ 64 - 1)) _ (length-print_long (2 ^ 64 - 1)).0
            (atol-print_long (2 ^ 64 - 1) (omega arith)))

string_of-atoi :
    (xs : List ℕ) (n : ℕ) (b : Buffer)
    → 1 ≤ length xs
    → atoi xs ≡ n
    → n < 2 ^ 31
    → n ≤ size_left (advance 1 b)
    → string_of xs b
      ≡ (ok (record b { base = b.cur + 1; cur = b.cur + 1; sz = n }), advance n (advance 1 b))
unfolding string_of
string_of-atoi [] n b k e h fits = absurd (omega arith)
string_of-atoi (c ∷ cs) n b k e h fits = ground arith

-- The buffer that a string is read into: its bytes where they stand.
abbrev pub string_at : ℕ → List ℕ → Buffer → Buffer
string_at n xs b = record b { base = b.cur + n; cur = b.cur + n; sz = length xs }

-- A string of less than 10 ^ 9 bytes whose text stands at the cursor of a valid buffer is read by
-- bencode_read_string, which gives a buffer over its bytes and moves behind them.
pub read_string_lem :
    (xs : List ℕ) (b : Buffer)
    → length xs < 10 ^ 9
    → IsValid b
    → Holds b.mem b.cur (string_text xs)
    → b.cur + length (string_text xs) ≤ b.base + b.sz
    → read_string b ≡ (
      ok (string_at (length (print_long (length xs)) + 1) xs b),
      advance (length (string_text xs)) b,
    )
unfolding read_string
read_string_lem xs b h valid there fits =
    let digits = print_long (length xs) in
    let total = length-append digits (b':' ∷ xs) in
    let two = Holds-split digits (b':' ∷ xs) b.mem b.cur there in
    rw
      (read_until-delim b b':' digits 9 valid (print_long-Lacks b':' (length xs) (omega arith))
        (length-print_long_lt (length xs) h) two.0 two.1.0 (omega (arith, total)))
      (string_of-atoi digits (length xs) (advance (length digits) b)
          (length-print_long (length xs)).0 (atoi-print_long (length xs) (omega arith))
          (omega arith)
          (omega
            (arith, total, size_left_lem (advance 1 (advance (length digits) b)) (omega arith)))
        ∙ ground (arith, total))
