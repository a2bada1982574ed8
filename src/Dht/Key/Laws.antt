-- ===== src/Dht/Key/Laws.antt =====
-- memcmp is a strict total order, and equality of keys is decided.
use uplexa_network.Prelude.{◌≡◌, ◌↔◌, refl, true, false, [], ◌∷◌, arith, Bool-cases, inl, inr}
use uplexa_network.Dht.Key.{Key, lt, eq}

pub eq_iff : (a b : Key) → (eq a b ≡ true) ↔ (a ≡ b)
unfolding eq
eq_iff [] [] = (λ _. refl, λ _. refl)
eq_iff [] (y ∷ b) = (λ e. cc, λ e. cc)
eq_iff (x ∷ a) [] = (λ e. cc, λ e. cc)
eq_iff (x ∷ a) (y ∷ b) = (λ e. ground (arith, eq_iff a b), λ e. ground (arith, eq_iff a b))

pub lt_irrefl : (a : Key) → lt a a ≡ false
unfolding lt
lt_irrefl [] = refl
lt_irrefl (x ∷ a) = ground (arith, lt_irrefl a)

pub lt_trans : (a b c : Key) → lt a b ≡ true → lt b c ≡ true → lt a c ≡ true
unfolding lt
lt_trans [] b c p q = cc
lt_trans (x ∷ a) [] c p q = cc
lt_trans (x ∷ a) (y ∷ b) [] p q = cc
lt_trans (x ∷ a) (y ∷ b) (z ∷ c) p q = ground (arith, lt_trans a b c)

-- Nothing lies between: what is not before `b` is not before what is before `b`.
pub not_lt_down : (a b c : Key) → lt a b ≡ false → lt c b ≡ true → lt a c ≡ false
not_lt_down a b c p q = elim (Bool-cases (lt a c)) [ inl e ↦ cc (lt_trans a c b e q) | inr e ↦ e ]
