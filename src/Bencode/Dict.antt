-- ===== src/Bencode/Dict.antt =====
-- `bencode_read_dict` over a dictionary that stands in the buffer, with keys of one letter.
use uplexa_network.Prelude.{
  ℕ, zero, suc, ◌+◌, ◌≤◌, ◌<◌, ◌≡◌, ◌≢◌, refl, sym, ap, subst, ◌∙◌, true, false, Option, none, some,
  List, [], ◌∷◌, ◌++◌, arith, length, length-append, append_assoc, ◌==◌,
}
use uplexa_network.Text.{print_long, decimal, to_digits}
use uplexa_network.Buffer.{Buffer, Io, ok, ◌>>=◌, and_then, size_left, peek, advance, eq, eq_from}
use uplexa_network.Buffer.Memory.{Holds, Holds-split}
use uplexa_network.Buffer.Valid.{IsValid, size_left_lem, advance-IsValid}
use uplexa_network.Bencode.{more, read_string, dict_loop, read_dict, close_container}
use uplexa_network.Bencode.Wire.{string_text}
use uplexa_network.Bencode.RoundTrip.{string_at, read_string_lem}
use uplexa_network.Bencode.Loops.{dict_loop-more, dict_loop-stop}

abbrev pub key_text : ℕ → List ℕ
key_text k = b'1' ∷ b':' ∷ k ∷ []

key_text-string_text : (k : ℕ) → string_text (k ∷ []) ≡ key_text k
unfolding print_long decimal to_digits
key_text-string_text k = refl

-- The buffer of a key of one letter.
pub record IsKey (k : ℕ) (key : Buffer) : Type 0 where
  pub at_start : key.cur ≡ key.base
  pub one : key.sz ≡ 1
  pub letter : key.mem key.cur ≡ k

pub eq_letter : (k c : ℕ) (key : Buffer) → IsKey k key → eq key (c ∷ []) ≡ (k == c)
unfolding eq eq_from
eq_letter k c key h = ground arith

-- A key of one letter, where it stands.
pub read_string-IsKey :
    (k : ℕ) (b : Buffer)
    → IsValid b
    → Holds b.mem b.cur (key_text k)
    → b.cur + 3 ≤ b.base + b.sz
    → (key : Buffer) × (read_string b ≡ (ok key, advance 3 b)) × IsKey k key
unfolding print_long decimal to_digits
read_string-IsKey k b v h fits = (
  string_at 2 (k ∷ []) b,
  read_string_lem (k ∷ []) b (omega arith) v h fits,
  record { at_start = refl; one = refl; letter = subst (λ n. b.mem n ≡ k) (omega arith) h.1.1.0 },
)

pub advance_zero : (b : Buffer) → advance 0 b ≡ b
advance_zero b = ground arith

pub close_at : (b : Buffer) → peek b ≡ b'e' → close_container b ≡ (ok tt, advance 1 b)
unfolding close_container
close_at b h = ground arith

pub more-true :
    (b : Buffer) (c : ℕ) → IsValid b → peek b ≡ c → c ≢ b'e' → b.cur < b.base + b.sz → more b ≡ true
unfolding more
more-true b c v h n f = ground (arith, size_left_lem b v.ordered)

pub more-stop : (b : Buffer) → peek b ≡ b'e' → more b ≡ false
unfolding more
more-stop b h = ground arith

module _ {ℓ} {U : Type ℓ} (on_key : Option Buffer → U → Io U) where
  -- The callback reads the value behind this key from exactly these bytes.
  abbrev pub Takes : ℕ → List ℕ → U → U → Type ℓ
  Takes k xs u w =
      (key b : Buffer)
      → IsKey k key
      → IsValid b
      → Holds b.mem b.cur xs
      → b.cur + length xs ≤ b.base + b.sz
      → on_key (some key) u b ≡ (ok w, advance (length xs) b)

  -- The entries of a dictionary, and the states of the callback between them.
  pub data Entries : U → List ℕ → U → Type ℓ where
    done : {u : U} → Entries u [] u
    entry :
        {u v w : U} (k : ℕ) (xs : List ℕ) {ys : List ℕ}
        → Takes k xs u v
        → Entries v ys w
        → Entries u (key_text k ++ (xs ++ ys)) w

  dict_loop-Entries :
      {u w : U} {txt : List ℕ}
      → Entries u txt w
      → (fuel : ℕ) (b : Buffer) → IsValid b
      → Holds b.mem b.cur (txt ++ (b'e' ∷ []))
      → b.cur + length txt < b.base + b.sz
      → length txt ≤ fuel
      → dict_loop (suc fuel) on_key u b ≡ (ok w, advance (length txt) b)
  dict_loop-Entries {u} done fuel b v h fits enough =
      dict_loop-stop fuel u b on_key (more-stop b h.0) ∙ ap (λ c. (ok u, c)) (sym (advance_zero b))
  dict_loop-Entries {u} (entry {v = u'} k xs {ys = ys} takes rest) zero b v h fits enough =
      absurd (omega arith)
  dict_loop-Entries {u} {w} (entry {v = u'} k xs {ys = ys} takes rest) (suc fuel) b v h fits
        enough =
      let total = length-append xs ys in
      let (key, r, letter) = read_string-IsKey k b v (h.0, (h.1.0, (h.1.1.0, tt))) (omega arith) in
      let b3 = advance 3 b in
      let b4 = advance (length xs) b3 in
      let text : Holds b.mem (b.cur + 3) (xs ++ (ys ++ (b'e' ∷ []))) =
        subst (λ n. Holds b.mem n (xs ++ (ys ++ (b'e' ∷ [])))) (omega arith)
          (rw append_assoc at h.1.1.1) in
      let (mine, theirs) = Holds-split xs (ys ++ (b'e' ∷ [])) b.mem (b.cur + 3) text in
      let next : (key' : Buffer) → Io U =
        λ key'. on_key (some key') u >>= dict_loop (suc fuel) on_key in
      dict_loop-more (suc fuel) u b on_key (more-true b b'1' v h.0 (omega arith) (omega arith))
      ∙ ap (λ x. and_then x next) r
      ∙ ap (λ x. and_then x (dict_loop (suc fuel) on_key))
          (takes key b3 letter (advance-IsValid 3 b v (omega arith)) mine (omega (arith, total)))
      ∙ dict_loop-Entries rest fuel b4
          (advance-IsValid (length xs) b3 (advance-IsValid 3 b v (omega arith))
            (omega (arith, total)))
          theirs (omega (arith, total)) (omega (arith, total))
      ∙ ap (λ c. (ok w, c)) (ground (arith, total))

  -- A whole dictionary, with the call of the callback at its end.
  pub read_dict-Entries :
      {u w : U} {txt : List ℕ} {w' : U}
      → Entries u txt w
      → (b : Buffer) → IsValid b
      → Holds b.mem b.cur (b'd' ∷ (txt ++ (b'e' ∷ [])))
      → b.cur + length txt + 2 ≤ b.base + b.sz
      → ((c : Buffer) → on_key none w c ≡ (ok w', c))
      → read_dict on_key u b ≡ (ok w', advance (length txt + 2) b)
  unfolding read_dict
  read_dict-Entries {u} {w} {txt} {w'} entries b v h fits last =
      let b1 = advance 1 b in
      let text : Holds b1.mem b1.cur (txt ++ (b'e' ∷ [])) =
        subst (λ n. Holds b.mem n (txt ++ (b'e' ∷ []))) (omega arith) h.1 in
      let v1 = advance-IsValid 1 b v (omega arith) in
      let b2 = advance (length txt) b1 in
      let (_, stop) = Holds-split txt (b'e' ∷ []) b1.mem b1.cur text in
      rw h.0 (
        ap (λ x. and_then x (λ u'. close_container >>= λ _. on_key none u'))
          (dict_loop-Entries entries (size_left b1) b1 v1 text (omega arith)
            (omega (arith, size_left_lem b1 v1.ordered)))
        ∙ ap (λ x. and_then x (λ (_ : Unit {0}). on_key none w)) (close_at b2 stop.0)
        ∙ last (advance 1 b2)
        ∙ ap (λ c. (ok w', c)) (ground arith))
