-- ===== src/Text/RoundTrip.antt =====
-- What `atol` reads back of the text that `%ld` prints.
use uplexa_network.Prelude.{
  ℕ, zero, suc, ◌+◌, ◌-◌, ◌/◌, ◌%◌, ◌^◌, ◌≤◌, ◌<◌, ◌≡◌, refl, ap, List, [], ◌∷◌, ◌++◌, arith,
  append_assoc, All, All-append, length, length-append, Lacks, true, false, append-nil, ◌∙◌,
  Bool-cases, inl, inr, ltb,
}
use uplexa_network.Text.{
  to_digits, decimal, print_long, is_space, scan, signed, after_blanks, atol, atoi,
}

abbrev IsDigit : ℕ → Type 0
IsDigit c = (b'0' ≤ c) × (c ≤ b'9')

to_digits-IsDigit : (k n : ℕ) → All IsDigit (to_digits k n)
unfolding to_digits
to_digits-IsDigit zero n = tt
to_digits-IsDigit (suc k) n = ground (
  arith,
  to_digits-IsDigit k (n / 10),
  All-append IsDigit (to_digits k (n / 10)) ((b'0' + n % 10) ∷ []) (to_digits-IsDigit k (n / 10)),
)

length-to_digits : (k n : ℕ) → length (to_digits k n) ≤ k
unfolding to_digits
length-to_digits zero n = omega arith
length-to_digits (suc k) n = ground (
  arith,
  length-to_digits k (n / 10),
  length-append (to_digits k (n / 10)) ((b'0' + n % 10) ∷ []),
)

length-to_digits_pos : (k n : ℕ) → 1 ≤ length (to_digits (suc k) n)
unfolding to_digits
length-to_digits_pos k n =
    ground (arith, length-append (to_digits k (n / 10)) ((b'0' + n % 10) ∷ []))

-- Scanning the digits of `n` from 0 leaves `n`.
scan-to_digits :
    (k n : ℕ) (rest : List ℕ) → n < 10 ^ k → scan (to_digits k n ++ rest) 0 ≡ scan rest n
unfolding to_digits scan
scan-to_digits zero n rest h = let e : 0 ≡ n = omega arith in ap (scan rest) e
scan-to_digits (suc k) n rest h = ground (
  arith,
  append_assoc (to_digits k (n / 10)) ((b'0' + n % 10) ∷ []) rest,
  scan-to_digits k (n / 10) ((b'0' + n % 10) ∷ rest),
)

atol-digits : (xs : List ℕ) → All IsDigit xs → 1 ≤ length xs → atol xs ≡ signed false (scan xs 0)
unfolding atol after_blanks is_space
atol-digits [] h k = absurd (omega arith)
atol-digits (c ∷ cs) h k = ground arith

atol-minus : (xs : List ℕ) → All IsDigit xs → atol (b'-' ∷ xs) ≡ signed true (scan xs 0)
unfolding atol after_blanks is_space
atol-minus xs h = refl

scan-decimal : (n : ℕ) → n < 10 ^ 20 → scan (decimal n) 0 ≡ n
unfolding decimal
scan-decimal n h =
    rw (← append-nil (to_digits 20 n)) (scan-to_digits 20 n [] h ∙ unfold scan in refl)

decimal-IsDigit : (n : ℕ) → All IsDigit (decimal n)
unfolding decimal
decimal-IsDigit n = to_digits-IsDigit 20 n

length-decimal : (n : ℕ) → (1 ≤ length (decimal n)) × (length (decimal n) ≤ 20)
unfolding decimal
length-decimal n = (length-to_digits_pos 19 n, length-to_digits 20 n)

-- `atol` reads a 64-bit number back from what `%ld` prints, the upper half through its minus sign.
pub atol-print_long : (v : ℕ) → v < 2 ^ 64 → atol (print_long v) ≡ v
unfolding print_long
atol-print_long v h = elim (Bool-cases (ltb v (2 ^ 63))) [
  | inl e ↦
      rw (e, atol-digits (decimal v) (decimal-IsDigit v) (length-decimal v).0)
        (rw (scan-decimal v (omega arith)) (unfold signed in ground arith))
  | inr e ↦
      rw (e, atol-minus (decimal (2 ^ 64 - v)) (decimal-IsDigit (2 ^ 64 - v)))
        (rw (scan-decimal (2 ^ 64 - v) (omega arith)) (unfold signed in ground arith))
]

-- A delimiter above the digits occurs in no printed number.
digits-Lacks : (d : ℕ) (xs : List ℕ) → b'9' < d → All IsDigit xs → Lacks d xs
digits-Lacks d [] h k = tt
digits-Lacks d (x ∷ xs) h k = (omega arith, digits-Lacks d xs h k.1)

decimal-Lacks : (d n : ℕ) → b'9' < d → Lacks d (decimal n)
decimal-Lacks d n h = digits-Lacks d (decimal n) h (decimal-IsDigit n)

pub print_long-Lacks : (d v : ℕ) → b'9' < d → Lacks d (print_long v)
unfolding print_long
print_long-Lacks d v h = ground (arith, decimal-Lacks d v, decimal-Lacks d (2 ^ 64 - v))

-- 1 to 21 characters.
pub length-print_long : (v : ℕ) → (1 ≤ length (print_long v)) × (length (print_long v) ≤ 21)
unfolding print_long
length-print_long v = ground (arith, length-decimal v, length-decimal (2 ^ 64 - v))

-- A number below 10 ^ (j + 1) has at most j + 1 digits.
length-to_digits_lt : (k j n : ℕ) → n < 10 ^ suc j → length (to_digits k n) ≤ suc j
unfolding to_digits
length-to_digits_lt zero j n h = omega arith
length-to_digits_lt (suc k) zero n h = ground arith
length-to_digits_lt (suc k) (suc j) n h = ground (
  arith,
  length-to_digits_lt k j (n / 10),
  length-append (to_digits k (n / 10)) ((b'0' + n % 10) ∷ []),
)

pub length-print_long_lt : (n : ℕ) → n < 10 ^ 9 → length (print_long n) ≤ 9
unfolding print_long decimal
length-print_long_lt n h = ground (arith, length-to_digits_lt 20 8 n)

pub atoi-print_long : (n : ℕ) → n < 2 ^ 31 → atoi (print_long n) ≡ n
unfolding atoi
atoi-print_long n h = rw (atol-print_long n (omega arith)) (omega arith)
