-- ===== src/Tests/Printing.antt =====
-- A decimal printer and a platform, to apply the theorems about them.
use zano_p2pool.Prelude.{
  ℕ, zero, suc, ◌+◌, ◌-◌, ◌*◌, ◌/◌, ◌%◌, ◌<◌, ◌≤◌, ◌≡◌, refl, [], ◌∷◌, ◌++◌, All, All-append,
  Bool-cases, inl, inr, true, false, arith, ltb, if◌then◌else◌,
}
use zano_p2pool.Bytes.{zeros}
use zano_p2pool.Decimal.{Text, Printer, decimal_value}
use zano_p2pool.Platform.{Platform}

-- The digits of a number below the fuel.
abbrev pub print_from : ℕ → ℕ → Text
print_from zero n = []
print_from (suc fuel) n =
    let front = print_from fuel (n / 10) in
    if ltb n 10 then (b'0' + n) ∷ [] else front ++ ((b'0' + n % 10) ∷ [])

decimal_value-append :
    (acc c : ℕ) (text : Text)
    → decimal_value acc (text ++ (c ∷ [])) ≡ decimal_value acc text * 10 + (c - b'0')
unfolding decimal_value
decimal_value-append acc c [] = refl
decimal_value-append acc c (x ∷ text) = decimal_value-append (acc * 10 + (x - b'0')) c text

pub print_from-value : (fuel n : ℕ) → n < fuel → decimal_value 0 (print_from fuel n) ≡ n
unfolding decimal_value
print_from-value zero n h = absurd (omega arith)
print_from-value (suc fuel) n h = elim (Bool-cases (ltb n 10)) [
  | inl e ↦ rw e (ground arith)
  | inr e ↦
      rw (e, decimal_value-append 0 (b'0' + n % 10) (print_from fuel (n / 10)))
        (ground (arith, print_from-value fuel (n / 10), e))
]

pub print_from-digits : (fuel n : ℕ) → All (λ ch. (b'0' ≤ ch) × (ch ≤ b'9')) (print_from fuel n)
print_from-digits zero n = tt
print_from-digits (suc fuel) n = elim (Bool-cases (ltb n 10)) [
  | inl e ↦ rw e ((omega arith, ground (arith, e)), tt)
  | inr e ↦ rw e (
      All-append (λ ch. (b'0' ≤ ch) × (ch ≤ b'9')) (print_from fuel (n / 10)) ((b'0' + n % 10) ∷ [])
        (print_from-digits fuel (n / 10)) ((omega arith, omega arith), tt))
]

append-nonempty : (c : ℕ) (text : Text) → text ++ (c ∷ []) ≡ [] → ⊥
append-nonempty c [] h = ground (arith, h)
append-nonempty c (x ∷ text) h = ground (arith, h)

pub print_from-nonempty : (fuel n : ℕ) → print_from (suc fuel) n ≡ [] → ⊥
print_from-nonempty fuel n h = elim (Bool-cases (ltb n 10)) [
  | inl e ↦ ground (arith, rw e at h)
  | inr e ↦ append-nonempty (b'0' + n % 10) (print_from fuel (n / 10)) (rw e at h)
]

abbrev pub printer : Printer
printer = record {
  print = λ n. print_from (suc n) n;
  nonempty = λ n. print_from-nonempty n n;
  digits = λ n. print_from-digits (suc n) n;
  stands_for = λ n. print_from-value (suc n) n (omega arith);
}

-- A platform whose hash is the nonce.
abbrev pub platform : Platform
platform = record {
  printer = printer;
  have_progpowz = true;
  epoch_context_full = λ epoch. false;
  progpow_hash = λ mode epoch height header nonce. record {
    final_hash = zeros 31 ++ ((nonce % 256) ∷ []);
    mix_hash = zeros 32;
  };
}
