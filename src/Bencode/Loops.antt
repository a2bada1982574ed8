-- ===== src/Bencode/Loops.antt =====
-- One round of the reading loops, as equations.
use uplexa_network.Prelude.{ℕ, suc, ◌≡◌, Bool, true, false, Option, some}
use uplexa_network.Buffer.{Buffer, Io, ok, ◌>>=◌, and_then}
use uplexa_network.Bencode.{more, read_string, dict_loop, list_loop}

module _ {ℓ} {U : Type ℓ} (fuel : ℕ) (u : U) (b : Buffer) where
  pub dict_loop-more :
      (on_key : Option Buffer → U → Io U)
      → more b ≡ true
      → dict_loop (suc fuel) on_key u b
        ≡ and_then (read_string b) (λ key. on_key (some key) u >>= dict_loop fuel on_key)
  unfolding dict_loop
  dict_loop-more on_key e = rw (e, dict_loop)

  pub dict_loop-stop :
      (on_key : Option Buffer → U → Io U)
      → more b ≡ false
      → dict_loop (suc fuel) on_key u b ≡ (ok u, b)
  unfolding dict_loop
  dict_loop-stop on_key e = rw (e, dict_loop)

  pub list_loop-more :
      (on_item : Bool → U → Io U)
      → more b ≡ true
      → list_loop (suc fuel) on_item u b ≡ and_then (on_item true u b) (list_loop fuel on_item)
  unfolding list_loop
  list_loop-more on_item e = rw (e, list_loop)

  pub list_loop-stop :
      (on_item : Bool → U → Io U) → more b ≡ false → list_loop (suc fuel) on_item u b ≡ (ok u, b)
  unfolding list_loop
  list_loop-stop on_item e = rw (e, list_loop)
