-- ===== src/Work/Sum.antt =====
-- The bytes of the work arithmetic as numbers.
use native.Mathlib.Nat.{pow-suc, add-mul-mod_self_right, mod-eq_of_lt}
use zano_p2pool.Prelude.{
  ℕ, ◌+◌, ◌*◌, ◌/◌, ◌%◌, ◌^◌, ◌<◌, ◌≡◌, refl, ap, sym, ◌∙◌, zero, suc, ◌-◌, subst, false, [], ◌∷◌,
  ◌++◌, All, All-append, ok, arith, ltb, ◌==◌, length, length-append,
}
use zano_p2pool.Bytes.{Bytes, IsByte, IsArray, value, value_from, zeros}
use zano_p2pool.Bytes.Value.{value_from_lem, value_bound}
use zano_p2pool.Share.{difficulty128_is_zero}
use zano_p2pool.Work.{share_work, add_bytes, add_chain_work_checked}

value-cons : (b : ℕ) (bs : Bytes) → value (b ∷ bs) ≡ b * 256 ^ length bs + value bs
unfolding value_from
value-cons b bs = omega (arith, value_from_lem (0 * 256 + b) bs)

add_bytes_shape :
    (l r : Bytes) (n : ℕ)
    → length l ≡ n
    → length r ≡ n
    → (length (add_bytes l r).0 ≡ n) × All IsByte (add_bytes l r).0
unfolding add_bytes
add_bytes_shape [] [] n h k = (h, tt)
add_bytes_shape [] (y ∷ r) n h k = absurd (omega arith)
add_bytes_shape (x ∷ l) [] n h k = absurd (omega arith)
add_bytes_shape (x ∷ l) (y ∷ r) n h k =
    let ih = add_bytes_shape l r (n - 1) (omega arith) (omega arith) in
    (omega arith, (omega arith, ih.1))

split_scaled : (s p : ℕ) → (s % 256) * p + (s / 256) * (p * 256) ≡ s * p
split_scaled s p =
    let e : s ≡ s % 256 + (s / 256) * 256 = omega arith in omega (arith, ap (λ (k : ℕ). k * p) e)

-- The bytes and the carry together are the sum.
add_bytes-value :
    (m : ℕ) (l r : Bytes)
    → length l ≡ m
    → length r ≡ m
    → value (add_bytes l r).0 + (add_bytes l r).1 * 256 ^ m ≡ value l + value r
unfolding add_bytes value_from
add_bytes-value m [] [] h k = omega arith
add_bytes-value m [] (y ∷ r) h k = absurd (omega arith)
add_bytes-value m (x ∷ l) [] h k = absurd (omega arith)
add_bytes-value zero (x ∷ l) (y ∷ r) h k = absurd (omega arith)
add_bytes-value (suc m) (x ∷ l) (y ∷ r) h k =
    let low = (add_bytes l r).0 in
    let s = x + y + (add_bytes l r).1 in
    let size : length low ≡ m = (add_bytes_shape l r m (omega arith) (omega arith)).0 in
    let hl : length l ≡ m = omega arith in
    let hr : length r ≡ m = omega arith in
    omega (
      arith,
      add_bytes-value m l r hl hr,
      split_scaled s (256 ^ m),
      rw size at (value-cons (s % 256) low),
      rw hl at (value-cons x l),
      rw hr at (value-cons y r),
      ap (λ (k : ℕ). (s / 256) * k) (pow-suc 256 m),
    )

carry_flag : (low carry sum p : ℕ) → low + carry * p ≡ sum → low < p → (carry == 0) ≡ ltb sum p
carry_flag low zero sum p e h = ground arith
carry_flag low (suc carry) sum p e h = ground arith

carry_wrap : (low carry sum p : ℕ) → low + carry * p ≡ sum → low < p → low ≡ sum % p
carry_wrap low carry sum p e h =
    sym (rw (← e) (add-mul-mod_self_right low carry p ∙ mod-eq_of_lt h))

-- Two byte arrays of one length are added without a carry out exactly if the sum of their values
-- fits, and the bytes hold the sum modulo the range.
pub add_chain_work-sum :
    (n : ℕ) (l r : Bytes)
    → IsArray n l
    → IsArray n r
    → ((add_chain_work_checked l r).0 ≡ ltb (value l + value r) (256 ^ n))
      × (value (add_chain_work_checked l r).1 ≡ (value l + value r) % 256 ^ n)
      × IsArray n (add_chain_work_checked l r).1
unfolding add_chain_work_checked
add_chain_work-sum n l r h k =
    let v = add_bytes-value n l r h.0 k.0 in
    let shape = add_bytes_shape l r n h.0 k.0 in
    let low = subst (λ j. value (add_bytes l r).0 < 256 ^ j) shape.0 (value_bound _ shape.1) in
    (
      carry_flag (value (add_bytes l r).0) (add_bytes l r).1 (value l + value r) (256 ^ n) v low,
      carry_wrap (value (add_bytes l r).0) (add_bytes l r).1 (value l + value r) (256 ^ n) v low,
      shape,
    )

All-zeros : (n : ℕ) → All IsByte (zeros n)
All-zeros zero = tt
All-zeros (suc n) = (omega arith, All-zeros n)

value-zeros : (n : ℕ) (bs : Bytes) → value (zeros n ++ bs) ≡ value bs
unfolding value_from
value-zeros zero bs = refl
value-zeros (suc n) bs = value-zeros n bs

-- The work of a nonzero difficulty of 16 bytes is a 32-byte array with the value of the
-- difficulty.
pub share_work-value :
    (d : Bytes)
    → IsArray 16 d
    → difficulty128_is_zero d ≡ false
    → (w : Bytes) × (share_work d ≡ ok w) × IsArray 32 w × (value w ≡ value d)
unfolding share_work
share_work-value d h z = (
  zeros 16 ++ d,
  rw z,
  (omega (arith, length-append (zeros 16) d), All-append IsByte (zeros 16) d (All-zeros 16) h.1),
  value-zeros 16 d,
)
