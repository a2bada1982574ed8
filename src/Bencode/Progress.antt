-- ===== src/Bencode/Progress.antt =====
-- The reading functions go forward, so the loops of bencode.c end.
use uplexa_network.Prelude.{
  ℕ, zero, suc, ◌+◌, ◌-◌, ◌^◌, ◌≤◌, ◌<◌, ◌≡◌, ◌≢◌, refl, List, [], ◌∷◌, arith, ◌∙◌, inl, inr, Bool,
  true, false, Option, none, some, Bool-cases, subst, sym, ◌==◌, leb, ltb,
}
use uplexa_network.Text.{atol, atoi}
use uplexa_network.Buffer.{
  Buffer, Io, Result, ok, failed, stuck, advance, peek, read_until, size_left, and_then,
}
use uplexa_network.Buffer.Valid.{size_left_lem}
use uplexa_network.Buffer.Read.{read_loop-bounds}
use uplexa_network.Bencode.Loops.{dict_loop-more, dict_loop-stop, list_loop-more, list_loop-stop}
use uplexa_network.Bencode.{
  integer_of, read_integer, string_of, read_string, more, dict_loop, list_loop, read_dict,
  read_list, close_container,
}

-- `c` is `b` with the cursor moved forward by `n` bytes at least.
pub record Moves (n : ℕ) (b c : Buffer) : Type 0 where
  pub mem_same : c.mem ≡ b.mem
  pub base_same : c.base ≡ b.base
  pub sz_same : c.sz ≡ b.sz
  pub forward : b.cur + n ≤ c.cur

-- An operation on `b` ended, and where it succeeded it moved forward by `n` bytes at least.
abbrev pub Forward {ℓ} : {A : Type ℓ} → ℕ → Buffer → Result A × Buffer → Type 0
Forward n b (ok a, c) = Moves n b c
Forward n b (failed, c) = Unit
Forward n b (stuck, c) = ⊥

Moves-trans :
    {k m : ℕ} {b c d : Buffer} (n : ℕ) → n ≤ k + m → Moves k b c → Moves m c d → Moves n b d
Moves-trans n h p q = record {
  mem_same = q.mem_same ∙ p.mem_same;
  base_same = q.base_same ∙ p.base_same;
  sz_same = q.sz_same ∙ p.sz_same;
  forward = omega arith;
}

Forward-trans {ℓ} :
    {A : Type ℓ} {k : ℕ} {b c : Buffer} (n m : ℕ) (r : Result A × Buffer)
    → n ≤ k + m
    → Moves k b c
    → Forward m c r
    → Forward n b r
Forward-trans n m (ok a, d) h p q = Moves-trans n h p q
Forward-trans n m (failed, d) h p q = tt
Forward-trans n m (stuck, d) h p q = elim q [ ]

pub and_then-Forward {ℓ κ} :
    {A : Type ℓ} {B : Type κ} (k m n : ℕ) (b : Buffer) (r : Result A × Buffer) (f : A → Io B)
    → n ≤ k + m
    → Forward k b r
    → ((a : A) (c : Buffer) → Moves k b c → Forward m c (f a c))
    → Forward n b (and_then r f)
and_then-Forward k m n b (ok a, c) f h p q = Forward-trans n m (f a c) h p (q a c p)
and_then-Forward k m n b (failed, c) f h p q = tt
and_then-Forward k m n b (stuck, c) f h p q = elim p [ ]

Forward-ends {ℓ} :
    {A : Type ℓ} (n : ℕ) (b : Buffer) (r : Result A × Buffer) → Forward n b r → r.0 ≢ stuck
Forward-ends n b (ok a, c) p e = cc
Forward-ends n b (failed, c) p e = cc
Forward-ends n b (stuck, c) p e = elim p [ ]

advance-Moves : (n k : ℕ) (b : Buffer) → n ≤ k → Moves n b (advance k b)
advance-Moves n k b p = record {
  mem_same = refl;
  base_same = refl;
  sz_same = refl;
  forward = omega arith;
}

pub Moves-refl : (b : Buffer) → Moves 0 b b
Moves-refl b = record { mem_same = refl; base_same = refl; sz_same = refl; forward = omega arith }

integer_of-Forward : (xs : List ℕ) (b : Buffer) → Forward 1 b (integer_of xs b)
unfolding integer_of
integer_of-Forward [] b = tt
integer_of-Forward (c ∷ cs) b = elim (Bool-cases (atol (c ∷ cs) == 2 ^ 64 - 1)) [
  | inl e ↦ rw e tt
  | inr e ↦ rw e (advance-Moves 1 1 b (omega arith))
]

string_of-Forward : (xs : List ℕ) (b : Buffer) → Forward 1 b (string_of xs b)
unfolding string_of
string_of-Forward [] b = tt
string_of-Forward (c ∷ cs) b = elim (Bool-cases (leb (2 ^ 31) (atoi (c ∷ cs)))) [
  | inl e ↦ rw e tt
  | inr e ↦ rw e (elim (Bool-cases (ltb (size_left (advance 1 b)) (atoi (c ∷ cs)))) [
    | inl e' ↦ rw e' tt
    | inr e' ↦ rw e' (
        Moves-trans 1 (omega arith) (advance-Moves 1 1 b (omega arith))
          (advance-Moves 0 (atoi (c ∷ cs)) (advance 1 b) (omega arith)))
  ])
]

read_until-Moves : (delim room : ℕ) (b : Buffer) → Moves 0 b (read_until delim room b).1
unfolding read_until
read_until-Moves delim room b =
    let (e, h) = read_loop-bounds b delim room b.cur in
    record { mem_same = refl; base_same = refl; sz_same = refl; forward = omega arith }

-- Reading a string ends, and moves forward.
pub read_string-Forward : (b : Buffer) → Forward 1 b (read_string b)
unfolding read_string
read_string-Forward b =
    Forward-trans 1 1 (string_of (read_until b':' 9 b).0 (read_until b':' 9 b).1) (omega arith)
      (read_until-Moves b':' 9 b) (string_of-Forward _ _)

-- So does reading an integer.
pub read_integer-Forward : (b : Buffer) → Forward 1 b (read_integer b)
unfolding read_integer
read_integer-Forward b = elim (Bool-cases (peek b == b'i')) [
  | inr e ↦ rw e tt
  | inl e ↦ rw e (
      Forward-trans 1 1
        (integer_of (read_until b'e' 31 (advance 1 b)).0 (read_until b'e' 31 (advance 1 b)).1)
        (omega arith)
        (Moves-trans 1 (omega arith) (advance-Moves 1 1 b (omega arith))
          (read_until-Moves b'e' 31 (advance 1 b)))
        (integer_of-Forward _ _))
]

close_container-Forward : (b : Buffer) → Forward 1 b (close_container b)
unfolding close_container
close_container-Forward b = elim (Bool-cases (peek b == b'e')) [
  | inl e ↦ rw e (advance-Moves 1 1 b (omega arith))
  | inr e ↦ rw e tt
]

more_left : (b : Buffer) → b.base ≤ b.cur → more b ≡ true → b.cur < b.base + b.sz
unfolding more
more_left b h e = ground (arith, size_left_lem b h)

-- The callback of `bencode_read_dict`, or of `bencode_read_list`, ends and goes forward.
abbrev pub KeyForward {ℓ} : {U : Type ℓ} → (Option Buffer → U → Io U) → Type ℓ
KeyForward {U = U} on_key =
    (key : Option Buffer) (u : U) (b : Buffer) → b.base ≤ b.cur → Forward 0 b (on_key key u b)

abbrev pub ItemForward {ℓ} : {U : Type ℓ} → (Bool → U → Io U) → Type ℓ
ItemForward {U = U} on_item =
    (u : U) (b : Buffer)
    → b.base ≤ b.cur
    → Forward 1 b (on_item true u b) × Forward 0 b (on_item false u b)

module _ {ℓ} {U : Type ℓ} where
  dict_loop-Forward :
      (on_key : Option Buffer → U → Io U)
      → KeyForward on_key
      → (fuel : ℕ) (u : U) (b : Buffer) → b.base ≤ b.cur
      → b.base + b.sz ≤ b.cur + fuel
      → Forward 0 b (dict_loop (suc fuel) on_key u b)
  dict_loop-Forward on_key k zero u b v h = elim (Bool-cases (more b)) [
    | inr e ↦ subst (Forward 0 b) (sym (dict_loop-stop zero u b on_key e)) (Moves-refl b)
    | inl e ↦ absurd (omega (arith, more_left b v e))
  ]
  dict_loop-Forward on_key k (suc fuel) u b v h = elim (Bool-cases (more b)) [
    | inr e ↦ subst (Forward 0 b) (sym (dict_loop-stop (suc fuel) u b on_key e)) (Moves-refl b)
    | inl e ↦ subst (Forward 0 b) (sym (dict_loop-more (suc fuel) u b on_key e)) (
        and_then-Forward 1 0 0 b (read_string b) _ (omega arith) (read_string-Forward b) (λ key c m.
          and_then-Forward 0 0 0 c (on_key (some key) u c) _ (omega arith)
            (k (some key) u c (omega arith))
            (λ u' d m'. dict_loop-Forward on_key k fuel u' d (omega arith) (omega arith))))
  ]

  list_loop-Forward :
      (on_item : Bool → U → Io U)
      → ItemForward on_item
      → (fuel : ℕ) (u : U) (b : Buffer) → b.base ≤ b.cur
      → b.base + b.sz ≤ b.cur + fuel
      → Forward 0 b (list_loop (suc fuel) on_item u b)
  list_loop-Forward on_item k zero u b v h = elim (Bool-cases (more b)) [
    | inr e ↦ subst (Forward 0 b) (sym (list_loop-stop zero u b on_item e)) (Moves-refl b)
    | inl e ↦ absurd (omega (arith, more_left b v e))
  ]
  list_loop-Forward on_item k (suc fuel) u b v h = elim (Bool-cases (more b)) [
    | inr e ↦ subst (Forward 0 b) (sym (list_loop-stop (suc fuel) u b on_item e)) (Moves-refl b)
    | inl e ↦ subst (Forward 0 b) (sym (list_loop-more (suc fuel) u b on_item e)) (
        and_then-Forward 1 0 0 b (on_item true u b) _ (omega arith) (k u b v).0
          (λ u' c m. list_loop-Forward on_item k fuel u' c (omega arith) (omega arith)))
  ]

  -- bencode_read_dict ends on every buffer whose cursor is not before its base, and where it
  -- succeeds it has moved forward in the same region, if its callback ends and never moves the
  -- cursor back.
  pub read_dict-Forward :
      (on_key : Option Buffer → U → Io U) (u : U) (b : Buffer)
      → KeyForward on_key
      → b.base ≤ b.cur
      → Forward 2 b (read_dict on_key u b)
  unfolding read_dict
  read_dict-Forward on_key u b k v = elim (Bool-cases (peek b == b'd')) [
    | inr e ↦ rw e tt
    | inl e ↦ rw e (
        let a = advance 1 b in
        Forward-trans 2 1 _ (omega arith) (advance-Moves 1 1 b (omega arith)) (
          and_then-Forward 0 1 1 a (dict_loop (suc (size_left a)) on_key u a) _ (omega arith)
            (dict_loop-Forward on_key k (size_left a) u a (omega arith)
              (omega (arith, size_left_lem a (omega arith))))
            (λ u' c m.
              and_then-Forward 1 0 1 c (close_container c) _ (omega arith)
                (close_container-Forward c) (λ _ d m'. k none u' d (omega arith)))))
  ]

  -- bencode_read_list ends on every buffer whose cursor is not before its base, and where it
  -- succeeds it has moved forward in the same region, if its callback ends, takes a byte at least
  -- for each item, and does not move the cursor back at the end.
  pub read_list-Forward :
      (on_item : Bool → U → Io U) (u : U) (b : Buffer)
      → ItemForward on_item
      → b.base ≤ b.cur
      → Forward 2 b (read_list on_item u b)
  unfolding read_list
  read_list-Forward on_item u b k v = elim (Bool-cases (peek b == b'l')) [
    | inr e ↦ rw e tt
    | inl e ↦ rw e (
        let a = advance 1 b in
        Forward-trans 2 1 _ (omega arith) (advance-Moves 1 1 b (omega arith)) (
          and_then-Forward 0 1 1 a (list_loop (suc (size_left a)) on_item u a) _ (omega arith)
            (list_loop-Forward on_item k (size_left a) u a (omega arith)
              (omega (arith, size_left_lem a (omega arith))))
            (λ u' c m.
              and_then-Forward 1 0 1 c (close_container c) _ (omega arith)
                (close_container-Forward c) (λ _ d m'. (k u' d (omega arith)).1))))
  ]
