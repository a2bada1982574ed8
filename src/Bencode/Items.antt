-- ===== src/Bencode/Items.antt =====
-- `bencode_read_list` over a list that stands in the buffer, and the writing of such a list.
use uplexa_network.Prelude.{
  ℕ, zero, suc, ◌+◌, ◌≤◌, ◌<◌, ◌≡◌, ◌≢◌, sym, ap, subst, ◌∙◌, true, false, List, [], ◌∷◌, ◌++◌,
  arith, length, length-append, append_assoc, Lacks, map, Bool,
}
use uplexa_network.Text.{print_long}
use uplexa_network.Text.RoundTrip.{print_long-Lacks, length-print_long}
use uplexa_network.Buffer.{Buffer, Io, ok, ◌>>=◌, and_then, size_left, advance}
use uplexa_network.Buffer.Memory.{Holds, Holds-split}
use uplexa_network.Buffer.Valid.{IsValid, size_left_lem, advance-IsValid}
use uplexa_network.Buffer.Write.{Appends, Appends-seq, return-Appends}
use uplexa_network.Bencode.{
  more, list_loop, read_list, close_container, write_items, write_list, write_dict_list,
  write_bytestring,
}
use uplexa_network.Bencode.Wire.{
  string_text, start_list-Appends, end-Appends, write_bytestring-Appends,
}
use uplexa_network.Bencode.Loops.{list_loop-more, list_loop-stop}
use uplexa_network.Bencode.Dict.{more-true, more-stop, close_at, advance_zero, key_text}
use uplexa_network.Bencode.Fields.{write_key-Appends}

-- The text is not the end of the list.
abbrev pub StartsItem : List ℕ → Type 0
StartsItem [] = ⊥
StartsItem (c ∷ cs) = c ≢ b'e'

digits-StartsItem : (cs ys : List ℕ) → 1 ≤ length cs → Lacks b'e' cs → StartsItem (cs ++ ys)
digits-StartsItem [] ys h l = absurd (omega (arith, h))
digits-StartsItem (c ∷ cs) ys h l = l.0

pub string_text-StartsItem : (xs : List ℕ) → StartsItem (string_text xs)
string_text-StartsItem xs =
    digits-StartsItem (print_long (length xs)) _ (length-print_long (length xs)).0
      (print_long-Lacks b'e' (length xs) (omega arith))

more-item :
    (b : Buffer) (xs ys : List ℕ)
    → IsValid b
    → StartsItem xs
    → Holds b.mem b.cur (xs ++ ys)
    → b.cur + length xs ≤ b.base + b.sz
    → more b ≡ true
more-item b [] ys v s h fits = elim s [ ]
more-item b (c ∷ cs) ys v s h fits = more-true b c v h.0 s (omega arith)

module _ {ℓ} {U : Type ℓ} (on_item : Bool → U → Io U) where
  -- The callback reads an item from exactly these bytes.
  abbrev pub Gives : List ℕ → U → U → Type ℓ
  Gives xs u w =
      (b : Buffer)
      → IsValid b
      → Holds b.mem b.cur xs
      → b.cur + length xs ≤ b.base + b.sz
      → on_item true u b ≡ (ok w, advance (length xs) b)

  pub data Items : U → List ℕ → U → Type ℓ where
    done : {u : U} → Items u [] u
    item :
        {u v w : U} (xs : List ℕ) {ys : List ℕ}
        → StartsItem xs
        → Gives xs u v
        → Items v ys w
        → Items u (xs ++ ys) w

  list_loop-Items :
      {u w : U} {txt : List ℕ}
      → Items u txt w
      → (fuel : ℕ) (b : Buffer) → IsValid b
      → Holds b.mem b.cur (txt ++ (b'e' ∷ []))
      → b.cur + length txt < b.base + b.sz
      → length txt ≤ fuel
      → list_loop (suc fuel) on_item u b ≡ (ok w, advance (length txt) b)
  list_loop-Items {u} done fuel b v h fits enough =
      list_loop-stop fuel u b on_item (more-stop b h.0) ∙ ap (λ c. (ok u, c)) (sym (advance_zero b))
  list_loop-Items {u} (item [] starts gives rest) fuel b v h fits enough = elim starts [ ]
  list_loop-Items {u} (item (x ∷ xs) {ys = ys} starts gives rest) zero b v h fits enough =
      absurd (omega (arith, length-append xs ys))
  list_loop-Items {u} {w} (item {v = u'} (x ∷ xs) {ys = ys} starts gives rest) (suc fuel) b v h fits
        enough =
      let total = length-append xs ys in
      let b4 = advance (length (x ∷ xs)) b in
      let text : Holds b.mem b.cur ((x ∷ xs) ++ (ys ++ (b'e' ∷ []))) = rw append_assoc at h in
      let (mine, theirs) = Holds-split (x ∷ xs) (ys ++ (b'e' ∷ [])) b.mem b.cur text in
      list_loop-more (suc fuel) u b on_item
        (more-item b (x ∷ xs) (ys ++ (b'e' ∷ [])) v starts text (omega (arith, total)))
      ∙ ap (λ r. and_then r (list_loop (suc fuel) on_item)) (gives b v mine (omega (arith, total)))
      ∙ list_loop-Items rest fuel b4 (advance-IsValid (length (x ∷ xs)) b v (omega (arith, total)))
          theirs (omega (arith, total)) (omega (arith, total))
      ∙ ap (λ c. (ok w, c)) (ground (arith, total))

  -- A whole list, with the call of the callback at its end.
  pub read_list-Items :
      {u w : U} {txt : List ℕ} {w' : U}
      → Items u txt w
      → (b : Buffer) → IsValid b
      → Holds b.mem b.cur (b'l' ∷ (txt ++ (b'e' ∷ [])))
      → b.cur + length txt + 2 ≤ b.base + b.sz
      → ((c : Buffer) → on_item false w c ≡ (ok w', c))
      → read_list on_item u b ≡ (ok w', advance (length txt + 2) b)
  unfolding read_list
  read_list-Items {u} {w} {txt} {w'} items b v h fits last =
      let b1 = advance 1 b in
      let text : Holds b1.mem b1.cur (txt ++ (b'e' ∷ [])) =
        subst (λ n. Holds b.mem n (txt ++ (b'e' ∷ []))) (omega arith) h.1 in
      let v1 = advance-IsValid 1 b v (omega arith) in
      let b2 = advance (length txt) b1 in
      let (_, stop) = Holds-split txt (b'e' ∷ []) b1.mem b1.cur text in
      rw h.0 (
        ap (λ x. and_then x (λ u'. close_container >>= λ _. on_item false u'))
          (list_loop-Items items (size_left b1) b1 v1 text (omega arith)
            (omega (arith, size_left_lem b1 v1.ordered)))
        ∙ ap (λ x. and_then x (λ (_ : Unit {0}). on_item false w)) (close_at b2 stop.0)
        ∙ last (advance 1 b2)
        ∙ ap (λ c. (ok w', c)) (ground arith))

-- Strings in a list.
unfoldable pub strings_text : List (List ℕ) → List ℕ
strings_text [] = []
strings_text (x ∷ xs) = string_text x ++ strings_text xs

write_items-Appends :
    (xs : List (List ℕ)) → Appends (write_items (map write_bytestring xs)) (strings_text xs)
unfolding write_items strings_text
write_items-Appends [] = return-Appends
write_items-Appends (x ∷ xs) = Appends-seq (write_bytestring-Appends x) (write_items-Appends xs)

pub write_dict_list-Appends :
    (k : ℕ) (xs : List (List ℕ))
    → Appends
        (write_dict_list k (map write_bytestring xs))
        (key_text k ++ (b'l' ∷ (strings_text xs ++ (b'e' ∷ []))))
unfolding write_dict_list write_list
write_dict_list-Appends k xs =
    Appends-seq (write_key-Appends k)
      (Appends-seq start_list-Appends (Appends-seq (write_items-Appends xs) end-Appends))
