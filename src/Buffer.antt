-- ===== src/Buffer.antt =====
-- include/udap/buffer.h and udap/buffer.cpp: a cursor over a region of memory.
-- An address is a number and the memory a function from addresses to bytes, so a read past the end
-- of the region reads what lies there. `size_t` has 64 bits.
pub mod Memory
pub mod Valid
pub mod Write
pub mod Bounds
pub mod Read
pub use Memory.{Mem, store, store_all, load_all, Holds}
use uplexa_network.Prelude.{
  ℕ, zero, suc, ◌+◌, ◌-◌, ◌%◌, ◌^◌, ◌≤◌, ◌<◌, Bool, true, false, ◌&&◌, not, List, [], ◌∷◌, ltb, leb,
  ◌==◌, if◌then◌else◌, length, Option, none, some, ◌≡◌,
}
use uplexa_network.Buffer.Memory.{Mem, store_all, store}

-- udap_buffer_t, with the memory that its pointers point into.
pub record Buffer : Type 0 where
  pub mem : Mem
  pub base : ℕ
  pub cur : ℕ
  pub sz : ℕ

-- What a function that returns `bool` does: it returns true with its out-parameters, or false, and
-- leaves the buffer changed either way. `stuck` is no value of the program: a loop's fuel ran out.
pub data Result {ℓ} (A : Type ℓ) : Type ℓ where
  ok : A → Result A
  failed : Result A
  stuck : Result A

abbrev pub Io {ℓ} : Type ℓ → Type ℓ
Io A = Buffer → Result A × Buffer

abbrev pub and_then {ℓ κ} :
    {A : Type ℓ} {B : Type κ} → Result A × Buffer → (A → Io B) → Result B × Buffer
and_then (ok a, c) f = f a c
and_then (failed, c) f = (failed, c)
and_then (stuck, c) f = (stuck, c)

-- `if(!m) return false;` before the rest.
infixl 5 ◌>>=◌ ◌>>◌
abbrev pub ◌>>=◌ {ℓ κ} : {A : Type ℓ} {B : Type κ} → Io A → (A → Io B) → Io B
◌>>=◌ m f b = and_then (m b) f

abbrev pub ◌>>◌ {ℓ} : {B : Type ℓ} → Io (Unit {0}) → Io B → Io B
m >> k = m >>= λ _. k

abbrev pub return {ℓ} : {A : Type ℓ} → A → Io A
return a b = (ok a, b)

abbrev pub fail {ℓ} : {A : Type ℓ} → Io A
fail b = (failed, b)

-- The difference of the pointers is a `size_t`: it wraps where the cursor stands before the base.
unfoldable pub size_left : Buffer → ℕ
size_left b =
    let diff = if ltb b.cur b.base then 2 ^ 64 - (b.base - b.cur) else b.cur - b.base in
    if ltb b.sz diff then 0 else b.sz - diff

-- `*buff->cur`.
abbrev pub peek : Buffer → ℕ
peek b = b.mem b.cur

-- `buff->cur += n`.
abbrev pub advance : ℕ → Buffer → Buffer
advance n b = record b { cur = b.cur + n }

-- `udap_buffer_write(buff, data, sz)` with the `sz` bytes at `data`.
unfoldable pub write : List ℕ → Io (Unit {0})
unfolding size_left
write bytes b =
    if leb (length bytes) (size_left b)
    then (ok tt, record b { mem = store_all b.mem b.cur bytes; cur = b.cur + length bytes })
    else (failed, b)

-- vsnprintf stores at most `n - 1` characters of the text and a NUL behind them, and nothing if
-- `n` is 0.
unfoldable pub vsnprintf : Mem → ℕ → ℕ → List ℕ → Mem
vsnprintf m a zero text = m
vsnprintf m a (suc zero) text = store m a 0
vsnprintf m a (suc (suc n)) [] = store m a 0
vsnprintf m a (suc (suc n)) (c ∷ text) = vsnprintf (store m a c) (suc a) (suc n) text

-- `udap_buffer_writef` with the text that the format and its arguments give. vsnprintf returns the
-- length of the whole text, also where it stored less.
unfoldable pub writef : List ℕ → Io (Unit {0})
unfolding size_left vsnprintf
writef text b =
    let n = size_left b in
    let mem = vsnprintf b.mem b.cur n text in
    let written = length text in
    if written == 0
    then (failed, record b { mem = mem })
    else if ltb n written
    then (failed, record b { mem = mem })
    else (ok tt, record b { mem = mem; cur = b.cur + written })

-- The loop of `udap_buffer_read_until`: the bytes that it copies to `result`, `room` at most, and the
-- cursor behind them.
unfoldable pub read_loop : Buffer → ℕ → ℕ → ℕ → List ℕ × ℕ
read_loop b delim zero cur = ([], cur)
read_loop b delim (suc room) cur =
    let rest = read_loop b delim room (suc cur) in
    if not (b.mem cur == delim) && not (cur == b.base + b.sz)
    then (b.mem cur ∷ rest.0, rest.1)
    else ([], cur)

-- `udap_buffer_read_until`: the bytes, or none at all where nothing is left behind them. The
-- function returns their number, so the empty list is its 0.
unfoldable pub read_until : ℕ → ℕ → Buffer → List ℕ × Buffer
unfolding read_loop size_left
read_until delim resultsize b =
    let r = read_loop b delim resultsize b.cur in
    let b' = record b { cur = r.1 } in (if size_left b' == 0 then [] else r.0, b')

-- `udap_buffer_eq` against a C string, which is given without its NUL. Where the buffer ends first
-- the string is only matched if it ends there too.
unfoldable pub eq_from : Buffer → ℕ → List ℕ → Bool
eq_from b cur [] = true
eq_from b cur (c ∷ str) =
    let rest = eq_from b (suc cur) str in
    if cur == b.base + b.sz then false else if b.mem cur == c then rest else false

unfoldable pub eq : Buffer → List ℕ → Bool
unfolding eq_from
eq b str = eq_from b b.cur str
