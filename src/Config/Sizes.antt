-- ===== src/Config/Sizes.antt =====
-- The sizes that `parseSize` of internal/config/config.go returns.
use gonewsd.Prelude.{
  ℕ, zero, suc, ◌<◌, Bool, true, false, [], ◌∷◌, none, some, arith, Bytes, ltb-false, lt→ltb,
  Option, eq_bytes, str, ◌==◌, if◌then◌else◌,
}
use native.Mathlib.Decide.{dec_lt}
use gonewsd.Prelude.Int.{ℤ, pos, negsuc}
use gonewsd.Config.Values.{signed64, times64, scan_size, parse_size, after_number}
use gonewsd.Text.Decimal.{parse_uint}
use gonewsd.Text.Scan.{signed, scan_magnitude, scan_signed, scan_word, span_digits}
use gonewsd.Text.Strings.{to_lower, trim_space, trim_left, is_space}

-- An `int64`.
abbrev pub IsInt64 : ℤ → Type 0
IsInt64 (pos n) = n < 9223372036854775808
IsInt64 (negsuc n) = n < 9223372036854775808

signed64-IsInt64 : (u : ℕ) → u < 18446744073709551616 → IsInt64 (signed64 u)
unfolding signed64
signed64-IsInt64 u h = elim (dec_lt u 9223372036854775808) [
  | yes b ↦ rw (lt→ltb u 9223372036854775808 b) b
  | no b ↦ rw (ltb-false u 9223372036854775808 (omega arith)) (omega arith)
]

times64-IsInt64 : (k : ℕ) (n : ℤ) → IsInt64 (times64 k n)
unfolding times64
times64-IsInt64 k (pos n) = signed64-IsInt64 _ (omega arith)
times64-IsInt64 k (negsuc n) = signed64-IsInt64 _ (omega arith)

-- What a scan that may fail has read.
abbrev IsRead : Option ℤ → Type 0
IsRead none = Unit
IsRead (some n) = IsInt64 n

signed-IsRead : (negative : Bool) (n : ℕ) → IsRead (signed negative n)
unfolding signed
signed-IsRead true zero = omega arith
signed-IsRead true (suc n) = elim (dec_lt n 9223372036854775808) [
  | yes b ↦ rw (lt→ltb n 9223372036854775808 b) b
  | no b ↦ rw (ltb-false n 9223372036854775808 (omega arith)) tt
]
signed-IsRead false n = elim (dec_lt n 9223372036854775808) [
  | yes b ↦ rw (lt→ltb n 9223372036854775808 b) b
  | no b ↦ rw (ltb-false n 9223372036854775808 (omega arith)) tt
]

parsed-IsRead :
    (negative : Bool) (o : Option ℕ)
    → IsRead (elim o as (λ _. Option ℤ) [ none ↦ none | some n ↦ signed negative n ])
parsed-IsRead negative none = tt
parsed-IsRead negative (some n) = signed-IsRead negative n

scan_magnitude-IsRead : (negative : Bool) (s : Bytes) → IsRead (scan_magnitude negative s)
unfolding scan_magnitude
scan_magnitude-IsRead negative s = parsed-IsRead negative (parse_uint (span_digits s).0)

chosen : {A : Type 0} (P : A → Type 0) (b : Bool) (x y : A) → P x → P y → P (if b then x else y)
chosen P true x y h k = h
chosen P false x y h k = k

scan_signed-IsRead : (s : Bytes) → IsRead (scan_signed s)
unfolding scan_signed
scan_signed-IsRead [] = tt
scan_signed-IsRead (c ∷ s) =
    chosen IsRead (c == b'-') (scan_magnitude true s) _ (scan_magnitude-IsRead true s) (
      chosen IsRead (c == b'+') (scan_magnitude false s) (scan_magnitude false (c ∷ s))
        (scan_magnitude-IsRead false s) (scan_magnitude-IsRead false (c ∷ s)))

worded-IsInt64 :
    (n : ℤ) (o : Option (Bytes × Bytes))
    → IsInt64 n
    → IsInt64 (elim o as (λ _. ℤ × Bytes) [ none ↦ (n, []) | some (u, _) ↦ (n, u) ]).0
worded-IsInt64 n none h = h
worded-IsInt64 n (some _) h = h

read-IsInt64 :
    (t : Bytes) (o : Option ℤ)
    → IsRead o
    → IsInt64
        (elim o as (λ _. ℤ × Bytes) [
          | none ↦ (pos 0, [])
          | some n ↦ elim (scan_word (after_number t)) as (λ _. ℤ × Bytes) [
            | none ↦ (n, [])
            | some (u, _) ↦ (n, u)
          ]
        ]).0
read-IsInt64 t none h = omega arith
read-IsInt64 t (some n) h = worded-IsInt64 n (scan_word (after_number t)) h

scan_size-IsInt64 : (s : Bytes) → IsInt64 (scan_size s).0
unfolding scan_size
scan_size-IsInt64 s =
    let t = trim_left is_space s in read-IsInt64 t (scan_signed t) (scan_signed-IsRead t)

-- A size is an `int64`, whatever the text says.
pub parse_size-IsInt64 : (s : Bytes) → IsInt64 (parse_size s)
unfolding parse_size
parse_size-IsInt64 s =
    let n = (scan_size (trim_space s)).0 in
    let unit = to_lower (scan_size (trim_space s)).1 in
    chosen IsInt64 (eq_bytes unit (str "k")) (times64 1024 n) _ (times64-IsInt64 1024 n) (
      chosen IsInt64 (eq_bytes unit (str "m")) (times64 1048576 n) _ (times64-IsInt64 1048576 n) (
        chosen IsInt64 (eq_bytes unit (str "g")) (times64 1073741824 n) n
          (times64-IsInt64 1073741824 n) (scan_size-IsInt64 (trim_space s))))
