-- ===== src/Bytes/Value.antt =====
-- The number that a byte array stands for, most significant byte first.
use native.Mathlib.Nat.{pow-suc}
use zano_p2pool.Prelude.{
  ℕ, zero, suc, ◌+◌, ◌*◌, ◌/◌, ◌%◌, ◌^◌, ◌≤◌, ◌<◌, ◌≡◌, refl, ap, subst, ◌∙◌, [], ◌∷◌, arith,
  length, All, ltb, ◌==◌,
}
use zano_p2pool.Bytes.{Bytes, IsByte, IsArray, before, value_from, value, fill, to_bytes, is_zero}

-- What has been read so far is scaled by the bytes that follow.
pub value_from_lem : (acc : ℕ) (bs : Bytes) → value_from acc bs ≡ acc * 256 ^ length bs + value bs
unfolding value_from
value_from_lem acc [] = omega arith
value_from_lem acc (b ∷ bs) = omega (
  arith,
  value_from_lem (acc * 256 + b) bs,
  value_from_lem (0 * 256 + b) bs,
  ap (λ (k : ℕ). acc * k) (pow-suc 256 (length bs)),
)

scale : (b p : ℕ) → b < 256 → b * p + p ≤ 256 * p
scale b p h = grind arith

pub value_bound : (bs : Bytes) → All IsByte bs → value bs < 256 ^ length bs
unfolding value_from
value_bound [] h = omega arith
value_bound (b ∷ bs) h = omega (
  arith,
  value_from_lem (0 * 256 + b) bs,
  pow-suc 256 (length bs),
  value_bound bs h.1,
  scale b (256 ^ length bs) h.0,
)

-- A smaller prefix makes a smaller number.
value_from-lt :
    (p q : ℕ) (xs ys : Bytes)
    → p < q
    → length xs ≡ length ys
    → All IsByte xs
    → All IsByte ys
    → value_from p xs < value_from q ys
unfolding value_from
value_from-lt p q [] [] h e hx hy = h
value_from-lt p q [] (y ∷ ys) h e hx hy = absurd (omega arith)
value_from-lt p q (x ∷ xs) [] h e hx hy = absurd (omega arith)
value_from-lt p q (x ∷ xs) (y ∷ ys) h e hx hy =
    value_from-lt (p * 256 + x) (q * 256 + y) xs ys (omega arith) (omega arith) hx.1 hy.1

before-value_from :
    (p : ℕ) (xs ys : Bytes)
    → length xs ≡ length ys
    → All IsByte xs
    → All IsByte ys
    → before xs ys ≡ ltb (value_from p xs) (value_from p ys)
unfolding before value_from
before-value_from p [] [] e hx hy = ground arith
before-value_from p [] (y ∷ ys) e hx hy = absurd (omega arith)
before-value_from p (x ∷ xs) [] e hx hy = absurd (omega arith)
before-value_from p (x ∷ xs) (y ∷ ys) e hx hy = ground (
  arith,
  before-value_from (p * 256 + x) xs ys,
  value_from-lt (p * 256 + x) (p * 256 + y) xs ys,
  value_from-lt (p * 256 + y) (p * 256 + x) ys xs,
)

-- The lexicographic order of arrays of one size is the order of the numbers.
pub before-value :
    (xs ys : Bytes)
    → length xs ≡ length ys
    → All IsByte xs
    → All IsByte ys
    → before xs ys ≡ ltb (value xs) (value ys)
before-value = before-value_from 0

value_from-injective :
    (p q : ℕ) (xs ys : Bytes)
    → length xs ≡ length ys
    → All IsByte xs
    → All IsByte ys
    → value_from p xs ≡ value_from q ys
    → (p ≡ q) × (xs ≡ ys)
unfolding value_from
value_from-injective p q [] [] e hx hy h = (h, refl)
value_from-injective p q [] (y ∷ ys) e hx hy h = absurd (omega arith)
value_from-injective p q (x ∷ xs) [] e hx hy h = absurd (omega arith)
value_from-injective p q (x ∷ xs) (y ∷ ys) e hx hy h =
    ground (arith, value_from-injective (p * 256 + x) (q * 256 + y) xs ys)

pub value-injective :
    (xs ys : Bytes)
    → length xs ≡ length ys
    → All IsByte xs
    → All IsByte ys
    → value xs ≡ value ys
    → xs ≡ ys
value-injective xs ys e hx hy h = (value_from-injective 0 0 xs ys e hx hy h).1

-- The filling loop splits the value into the bytes and what is left.
pub value_from-fill :
    (n v : ℕ) (out : Bytes) → value_from (fill n v out).1 (fill n v out).0 ≡ value_from v out
unfolding fill value_from
value_from-fill zero v out = refl
value_from-fill (suc n) v out =
    value_from-fill n (v / 256) ((v % 256) ∷ out) ∙ ap (λ k. value_from k out) (omega arith)

pub fill_shape :
    (n v : ℕ) (out : Bytes)
    → All IsByte out
    → (length (fill n v out).0 ≡ n + length out) × All IsByte (fill n v out).0
unfolding fill
fill_shape zero v out h = (omega arith, h)
fill_shape (suc n) v out h =
    let ih = fill_shape n (v / 256) ((v % 256) ∷ out) (omega arith, h) in (omega arith, ih.1)

pub fill_rest : (n v : ℕ) (out : Bytes) → v < 256 ^ n → (fill n v out).1 ≡ 0
unfolding fill
fill_rest zero v out h = omega arith
fill_rest (suc n) v out h = fill_rest n (v / 256) ((v % 256) ∷ out) (omega (arith, pow-suc 256 n))

pub fill_rest_pos : (n v : ℕ) (out : Bytes) → 256 ^ n ≤ v → 0 < (fill n v out).1
unfolding fill
fill_rest_pos zero v out h = omega arith
fill_rest_pos (suc n) v out h =
    fill_rest_pos n (v / 256) ((v % 256) ∷ out) (omega (arith, pow-suc 256 n))

pub to_bytes-IsArray : (n v : ℕ) → IsArray n (to_bytes n v)
to_bytes-IsArray n v = let s = fill_shape n v [] tt in (omega arith, s.1)

-- A number that fits is read back.
pub value-to_bytes : (n v : ℕ) → v < 256 ^ n → value (to_bytes n v) ≡ v
unfolding value_from
value-to_bytes n v h = rw (fill_rest n v [] h) at (value_from-fill n v [])

-- An array is the bytes of its number.
pub to_bytes-value : (n : ℕ) (bs : Bytes) → IsArray n bs → to_bytes n (value bs) ≡ bs
to_bytes-value n bs h =
    let s = to_bytes-IsArray n (value bs) in
    value-injective (to_bytes n (value bs)) bs (omega arith) s.1 h.1
      (value-to_bytes n (value bs) (subst (λ k. value bs < 256 ^ k) h.0 (value_bound bs h.1)))

value_from-pos : (p : ℕ) (bs : Bytes) → p ≤ value_from p bs
unfolding value_from
value_from-pos p [] = omega arith
value_from-pos p (b ∷ bs) = omega (arith, value_from-pos (p * 256 + b) bs)

-- `is_zero` tests whether the number is 0.
pub is_zero-value : (bs : Bytes) → is_zero bs ≡ (value bs == 0)
unfolding is_zero value_from
is_zero-value [] = refl
is_zero-value (b ∷ bs) = ground (arith, is_zero-value bs, value_from-pos (0 * 256 + b) bs)
