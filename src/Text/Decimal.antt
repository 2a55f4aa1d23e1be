-- ===== src/Text/Decimal.antt =====
-- `strconv.FormatUint` and `strconv.ParseUint` in base 10, for unsigned numbers of 64 bits.
use gonewsd.Prelude.{
  ℕ, zero, suc, ◌+◌, ◌-◌, ◌*◌, ◌/◌, ◌%◌, ◌<◌, ◌≡◌, refl, ap, Bool, true, false, ◌&&◌, [], ◌∷◌,
  Option, none, some, arith, leb, ltb, if◌then◌else◌, is_empty, Bytes,
}

-- The number of values of a `uint64`.
abbrev pub two64 : ℕ
two64 = 18446744073709551616

unfoldable pub is_digit : ℕ → Bool
is_digit c = leb b'0' c && leb c b'9'

-- One digit a round, from the last; the fuel is above the number.
unfoldable pub digits_onto : ℕ → ℕ → Bytes → Bytes
digits_onto zero n out = out
digits_onto (suc f) n out =
    let rest = digits_onto f (n / 10) ((b'0' + n % 10) ∷ out) in
    if ltb n 10 then (b'0' + n) ∷ out else rest

unfoldable pub format_uint : ℕ → Bytes
unfolding digits_onto
format_uint n = digits_onto (suc n) n []

unfoldable pub all_digits : Bytes → Bool
unfolding is_digit
all_digits [] = true
all_digits (c ∷ s) = is_digit c && all_digits s

-- The value of a run of digits that stands behind the number `n`.
unfoldable pub value : ℕ → Bytes → ℕ
value n [] = n
value n (c ∷ s) = value (n * 10 + (c - b'0')) s

unfoldable pub parse_uint : Bytes → Option ℕ
unfolding all_digits value
parse_uint s =
    if is_empty s
    then none
    else if all_digits s && ltb (value 0 s) two64
    then some (value 0 s)
    else none

-- The print begins with a digit and has nothing but digits.
pub digits_onto-all :
    (f n : ℕ) (out : Bytes) → all_digits out ≡ true → all_digits (digits_onto f n out) ≡ true
unfolding digits_onto all_digits
digits_onto-all zero n out h = h
digits_onto-all (suc f) n out h = ground (arith, digits_onto-all f (n / 10) ((b'0' + n % 10) ∷ out))

digits_onto-value : (f n : ℕ) (out : Bytes) → n < f → value 0 (digits_onto f n out) ≡ value n out
unfolding digits_onto value
digits_onto-value zero n out h = elim h [ ]
digits_onto-value (suc f) n out h =
    ground (arith, digits_onto-value f (n / 10) ((b'0' + n % 10) ∷ out))

digits_onto-ne : (f n c : ℕ) (out : Bytes) → is_empty (digits_onto f n (c ∷ out)) ≡ false
unfolding digits_onto
digits_onto-ne zero n c out = refl
digits_onto-ne (suc f) n c out = ground (arith, digits_onto-ne f (n / 10) (b'0' + n % 10) (c ∷ out))

pub format_uint-digits : (n : ℕ) → all_digits (format_uint n) ≡ true
unfolding format_uint all_digits
format_uint-digits n = digits_onto-all (suc n) n [] refl

pub format_uint-value : (n : ℕ) → value 0 (format_uint n) ≡ n
unfolding format_uint value
format_uint-value n = digits_onto-value (suc n) n [] (omega arith)

pub format_uint-ne : (n : ℕ) → is_empty (format_uint n) ≡ false
unfolding format_uint
format_uint-ne n =
    unfold digits_onto in ground (arith, digits_onto-ne n (n / 10) (b'0' + n % 10) [])

-- Printed numbers are read back.
pub parse_uint-format_uint : (n : ℕ) → n < two64 → parse_uint (format_uint n) ≡ some n
unfolding parse_uint
parse_uint-format_uint n h =
    ground (arith, format_uint-digits n, format_uint-value n, format_uint-ne n)

-- Different numbers have different prints.
pub format_uint-injective : (m n : ℕ) → format_uint m ≡ format_uint n → m ≡ n
format_uint-injective m n e =
    omega (arith, format_uint-value m, format_uint-value n, ap (value 0) e)
