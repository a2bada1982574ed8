-- ===== src/Hex.antt =====
-- Hexadecimal texts of include/udap/encode.hpp and udap/encode.cpp.
use uplexa_network.Prelude.{
  ℕ, ◌+◌, ◌-◌, ◌*◌, ◌/◌, ◌%◌, ◌<◌, ◌≡◌, refl, ap, ◌&&◌, List, [], ◌∷◌, Option, none, some,
  if◌then◌else◌, ltb, leb, arith, All, length,
}

-- One character of `%.2x`.
unfoldable pub hex_digit : ℕ → ℕ
hex_digit n = if ltb n 10 then b'0' + n else b'a' + (n - 10)

-- HexEncode, into an array that has room for two characters a byte and a NUL.
unfoldable pub hex_encode : List ℕ → List ℕ
hex_encode [] = []
hex_encode (c ∷ cs) = hex_digit (c / 16) ∷ hex_digit (c % 16) ∷ hex_encode cs

-- `none` is std::invalid_argument.
unfoldable pub char2int : ℕ → Option ℕ
char2int c =
    if leb b'0' c && leb c b'9'
    then some (c - b'0')
    else if leb b'A' c && leb c b'F'
    then some (c - b'A' + 10)
    else if leb b'a' c && leb c b'f'
    then some (c - b'a' + 10)
    else none

abbrev byte_of : Option ℕ → Option ℕ → Option (List ℕ) → Option (List ℕ)
byte_of (some hi) (some lo) (some cs) = some ((hi * 16 + lo) ∷ cs)
byte_of _ _ _ = none

-- HexDecode of a C string: a last character that stands alone is left.
unfoldable pub hex_decode : List ℕ → Option (List ℕ)
hex_decode [] = some []
hex_decode (c ∷ []) = some []
hex_decode (c ∷ d ∷ cs) = byte_of (char2int c) (char2int d) (hex_decode cs)

char2int-hex_digit : (n : ℕ) → n < 16 → char2int (hex_digit n) ≡ some n
unfolding char2int hex_digit
char2int-hex_digit n h = ground arith

-- What HexEncode writes of bytes, HexDecode reads back.
pub hex_decode-hex_encode :
    (cs : List ℕ) → All (λ c. c < 256) cs → hex_decode (hex_encode cs) ≡ some cs
unfolding hex_decode hex_encode
hex_decode-hex_encode [] all = refl
hex_decode-hex_encode (c ∷ cs) all =
    rw
      (
        char2int-hex_digit (c / 16) (omega (arith, all.0)),
        char2int-hex_digit (c % 16) (omega arith),
        hex_decode-hex_encode cs all.1,
      )
      (ap (λ x. some (x ∷ cs)) (omega arith))

pub length-hex_encode : (cs : List ℕ) → length (hex_encode cs) ≡ length cs * 2
unfolding hex_encode
length-hex_encode [] = refl
length-hex_encode (c ∷ cs) = omega (arith, length-hex_encode cs)
