-- ===== src/Decimal/Text.antt =====
-- The parser of decimal text, with the printer.
use native.Mathlib.Nat.{pow-suc}
use zano_p2pool.Prelude.{
  ◌≢◌, ◌↔◌, ◌==◌, ◌^◌, ap, length, bind-ok, guard-ok, ok-injective, ℕ, ◌+◌, ◌-◌, ◌*◌, ◌≤◌, ◌<◌, ◌≡◌,
  refl, [], ◌∷◌, All, ok, arith,
}
use zano_p2pool.Decimal.{Text, max128, parse_from, parse_uint128_decimal, decimal_value, Printer}

abbrev pub Digits : Text → Type 0
Digits = All (λ ch. (b'0' ≤ ch) × (ch ≤ b'9'))

decimal_value-ge : (acc : ℕ) (text : Text) → acc ≤ decimal_value acc text
unfolding decimal_value
decimal_value-ge acc [] = omega arith
decimal_value-ge acc (ch ∷ text) = omega (arith, decimal_value-ge (acc * 10 + (ch - b'0')) text)

-- Digits whose number fits are read as that number.
pub parse_from-Digits :
    (acc : ℕ) (text : Text)
    → Digits text
    → decimal_value acc text ≤ max128
    → parse_from acc text ≡ ok (decimal_value acc text)
unfolding parse_from decimal_value
parse_from-Digits acc [] d h = refl
parse_from-Digits acc (ch ∷ text) d h = ground (
  arith,
  decimal_value-ge (acc * 10 + (ch - b'0')) text,
  parse_from-Digits (acc * 10 + (ch - b'0')) text d.1,
)

-- A text of digits in positional notation: each digit counts as often as its place says.
abbrev pub place_value : Text → ℕ
place_value [] = 0
place_value (ch ∷ text) = (ch - b'0') * 10 ^ length text + place_value text

decimal_value-place :
    (acc : ℕ) (text : Text) → decimal_value acc text ≡ acc * 10 ^ length text + place_value text
unfolding decimal_value
decimal_value-place acc [] = omega arith
decimal_value-place acc (ch ∷ text) = omega (
  arith,
  decimal_value-place (acc * 10 + (ch - b'0')) text,
  ap (λ (k : ℕ). acc * k) (pow-suc 10 (length text)),
)

-- What the loop returns is bounded, and is the number that the digits read stand for.
pub parse_from_sound :
    (acc : ℕ) (text : Text) (n : ℕ)
    → acc ≤ max128
    → parse_from acc text ≡ ok n
    → (n ≤ max128) × (n ≡ decimal_value acc text) × Digits text
unfolding parse_from decimal_value
parse_from_sound acc [] n b h = ground arith
parse_from_sound acc (ch ∷ text) n b h =
    ground (arith, parse_from_sound (acc * 10 + (ch - b'0')) text n)

parse_of_from :
    (text : Text) (n : ℕ)
    → ¬ (text ≡ [])
    → 0 < n
    → parse_from 0 text ≡ ok n
    → parse_uint128_decimal text ≡ ok n
unfolding parse_uint128_decimal
parse_of_from [] n ne p h = absurd (ne refl)
parse_of_from (ch ∷ text) n ne p h = ground (arith, h)

-- A text that spells a number in decimal: the digits, and the range of a difficulty.
pub record Spells (text : Text) (n : ℕ) : Type 0 where
  pub nonempty : text ≢ []
  pub all_digits : Digits text
  pub exact : place_value text ≡ n
  pub positive : 0 < n
  pub bounded : n ≤ max128

parse-Spells : (text : Text) (n : ℕ) → parse_uint128_decimal text ≡ ok n → Spells text n
unfolding parse_uint128_decimal
parse-Spells [] n h = absurd cc
parse-Spells (ch ∷ text) n h =
    let (m, read, h1) = bind-ok (parse_from 0 (ch ∷ text)) _ h in
    let (positive, h2) = guard-ok (m == 0) _ _ h1 in
    let same_number : m ≡ n = ok-injective h2 in
    let (bounded, exact, all_digits) = parse_from_sound 0 (ch ∷ text) m (omega arith) read in
    record {
      nonempty = cc;
      all_digits = all_digits;
      exact = omega (arith, exact, decimal_value-place 0 (ch ∷ text), same_number);
      positive = ground (arith, positive, same_number);
      bounded = omega (arith, bounded, same_number);
    }

Spells-parse : (text : Text) (n : ℕ) → Spells text n → parse_uint128_decimal text ≡ ok n
Spells-parse text n s =
    let value : decimal_value 0 text ≡ n = omega (arith, decimal_value-place 0 text, s.exact) in
    parse_of_from text n s.nonempty s.positive
      (rw value at (parse_from-Digits 0 text s.all_digits (rw value s.bounded)))

-- `parse_uint128_decimal` returns a number exactly if the text is not empty, holds decimal
-- digits only, and its value in positional notation, most significant digit first, is that
-- number, between 1 and 2 ^ 128 - 1.
pub parse_uint128_decimal_iff :
    (text : Text) (n : ℕ) → (parse_uint128_decimal text ≡ ok n) ↔ Spells text n
parse_uint128_decimal_iff text n = (parse-Spells text n, Spells-parse text n)

module _ (printer : Printer) where
  open printer use {print, nonempty, digits, stands_for}

  -- The printed text of a number between 1 and 2 ^ 128 - 1 is parsed to that number.
  pub parse-print : (n : ℕ) → 0 < n → n ≤ max128 → parse_uint128_decimal (print n) ≡ ok n
  parse-print n p h =
      parse_of_from (print n) n (nonempty n) p
        (rw (stands_for n) at (parse_from-Digits 0 (print n) (digits n) (rw (stands_for n) h)))
