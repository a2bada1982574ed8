-- ===== src/Text.antt =====
-- The C library's number formats that bencode.c uses: `%ld` and `%d` of vsnprintf, atol and atoi.
-- A `char` is its code; `long` has 64 bits and `int` has 32, both two's complement.
pub mod RoundTrip
use uplexa_network.Prelude.{
  ℕ, zero, suc, ◌+◌, ◌-◌, ◌*◌, ◌/◌, ◌%◌, ◌^◌, ◌≤◌, ◌<◌, Bool, true, false, ◌&&◌, ◌||◌, List, [],
  ◌∷◌, ◌++◌, ltb, leb, ◌==◌, if◌then◌else◌,
}

-- The decimal digits of `n`, at most `k` of them.
unfoldable pub to_digits : ℕ → ℕ → List ℕ
to_digits zero n = []
to_digits (suc k) n =
    let front = to_digits k (n / 10) in
    if ltb n 10 then (b'0' + n) ∷ [] else front ++ ((b'0' + n % 10) ∷ [])

-- A 64-bit number has twenty digits at most.
unfoldable pub decimal : ℕ → List ℕ
unfolding to_digits
decimal n = to_digits 20 n

-- `%ld` at the 64-bit pattern `v`, which it takes for a signed number.
unfoldable pub print_long : ℕ → List ℕ
unfolding decimal
print_long v = if ltb v (2 ^ 63) then decimal v else b'-' ∷ decimal (2 ^ 64 - v)

-- `%d` at the 32-bit pattern `v`.
unfoldable pub print_int : ℕ → List ℕ
unfolding decimal
print_int v = if ltb v (2 ^ 31) then decimal v else b'-' ∷ decimal (2 ^ 32 - v)

unfoldable is_digit : ℕ → Bool
is_digit c = leb b'0' c && leb c b'9'

unfoldable pub is_space : ℕ → Bool
is_space c = c == 32 || (leb 9 c && leb c 13)

-- The digits at the head of the text, behind the value `acc` of those before.
unfoldable pub scan : List ℕ → ℕ → ℕ
unfolding is_digit
scan [] acc = acc
scan (c ∷ cs) acc = let rest = scan cs (acc * 10 + (c - b'0')) in if is_digit c then rest else acc

-- strtol: blanks, a sign, digits; out of range it saturates. The result is the 64-bit pattern.
unfoldable pub signed : Bool → ℕ → ℕ
signed true n = if ltb (2 ^ 63) n then 2 ^ 63 else (2 ^ 64 - n) % 2 ^ 64
signed false n = if ltb n (2 ^ 63) then n else 2 ^ 63 - 1

unfoldable pub after_blanks : List ℕ → ℕ
unfolding signed scan
after_blanks [] = 0
after_blanks (c ∷ cs) =
    if c == b'-'
    then signed true (scan cs 0)
    else if c == b'+'
    then signed false (scan cs 0)
    else signed false (scan (c ∷ cs) 0)

unfoldable pub atol : List ℕ → ℕ
unfolding after_blanks is_space
atol [] = 0
atol (c ∷ cs) = let rest = atol cs in if is_space c then rest else after_blanks (c ∷ cs)

-- atoi is `(int)strtol(...)`: the low 32 bits.
unfoldable pub atoi : List ℕ → ℕ
unfolding atol
atoi cs = atol cs % 2 ^ 32
