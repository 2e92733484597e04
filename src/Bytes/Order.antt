-- ===== src/Bytes/Order.antt =====
-- Equality and the lexicographic order of byte arrays.
use zano_p2pool.Prelude.{◌≡◌, refl, ◌↔◌, true, false, [], ◌∷◌, arith}
use zano_p2pool.Bytes.{Bytes, same, before}

pub same_refl : (a : Bytes) → same a a ≡ true
unfolding same
same_refl [] = refl
same_refl (x ∷ a) = ground (arith, same_refl a)

pub eq_of_same : (a b : Bytes) → same a b ≡ true → a ≡ b
unfolding same
eq_of_same [] [] h = refl
eq_of_same [] (y ∷ b) h = cc
eq_of_same (x ∷ a) [] h = cc
eq_of_same (x ∷ a) (y ∷ b) h = ground (arith, eq_of_same a b)

pub same_of_eq : (a b : Bytes) → a ≡ b → same a b ≡ true
same_of_eq a b h = rw h (same_refl b)

pub same_iff : (a b : Bytes) → (same a b ≡ true) ↔ (a ≡ b)
same_iff a b = (eq_of_same a b, same_of_eq a b)

pub before_irrefl : (a : Bytes) → before a a ≡ false
unfolding before
before_irrefl [] = refl
before_irrefl (x ∷ a) = ground (arith, before_irrefl a)

pub before_trans : (a b c : Bytes) → before a b ≡ true → before b c ≡ true → before a c ≡ true
unfolding before
before_trans [] [] c h k = cc
before_trans [] (y ∷ b) [] h k = cc
before_trans [] (y ∷ b) (z ∷ c) h k = refl
before_trans (x ∷ a) [] c h k = cc
before_trans (x ∷ a) (y ∷ b) [] h k = cc
before_trans (x ∷ a) (y ∷ b) (z ∷ c) h k = ground (arith, before_trans a b c)

pub before_asymm : (a b : Bytes) → before a b ≡ true → before b a ≡ false
unfolding before
before_asymm [] [] h = cc
before_asymm [] (y ∷ b) h = refl
before_asymm (x ∷ a) [] h = cc
before_asymm (x ∷ a) (y ∷ b) h = ground (arith, before_asymm a b)

-- Neither before the other: equal.
pub before_total : (a b : Bytes) → before a b ≡ false → before b a ≡ false → a ≡ b
unfolding before
before_total [] [] h k = refl
before_total [] (y ∷ b) h k = cc
before_total (x ∷ a) [] h k = cc
before_total (x ∷ a) (y ∷ b) h k = ground (arith, before_total a b)
