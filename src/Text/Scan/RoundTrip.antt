-- ===== src/Text/Scan/RoundTrip.antt =====
-- Scanning reads back the numbers that are printed.
use gonewsd.Prelude.{
  ℕ, ◌<◌, ◌≡◌, refl, ◌∙◌, sym, ap, Bool, true, false, ◌&&◌, [], ◌∷◌, ◌++◌, some, arith, is_empty,
  Bytes, append-nil,
}
use gonewsd.Text.Decimal.{
  is_digit, all_digits, parse_uint, format_uint, two64, parse_uint-format_uint, format_uint-digits,
  format_uint-ne,
}
use gonewsd.Text.Scan.{span_digits, read_number, scan_uint, scan_literal, scan_space, scan_key_uint}
use gonewsd.Text.Strings.{is_space, trim_left}

abbrev pub starts_digit : Bytes → Bool
starts_digit [] = false
starts_digit (c ∷ _) = is_digit c

span_digits-append :
    (ds rest : Bytes)
    → all_digits ds ≡ true
    → starts_digit rest ≡ false
    → span_digits (ds ++ rest) ≡ (ds, rest)
unfolding span_digits all_digits
span_digits-append [] [] h k = refl
span_digits-append [] (c ∷ rest) h k = rw k refl
span_digits-append (c ∷ ds) rest h k = ground (arith, span_digits-append ds rest)

pub digit-not-space : (c : ℕ) → is_digit c ≡ true → is_space c ≡ false
unfolding is_digit is_space
digit-not-space c h = ground arith

trim_left-digits :
    (ds rest : Bytes)
    → all_digits ds ≡ true
    → is_empty ds ≡ false
    → trim_left is_space (ds ++ rest) ≡ ds ++ rest
unfolding trim_left all_digits
trim_left-digits [] rest h k = cc
trim_left-digits (c ∷ ds) rest h k = ground (arith, digit-not-space c)

scan_uint_lem :
    (s t ds rest : Bytes) (n : ℕ)
    → trim_left is_space s ≡ t
    → span_digits t ≡ (ds, rest)
    → parse_uint ds ≡ some n
    → scan_uint s ≡ some (n, rest)
unfolding scan_uint
scan_uint_lem s t ds rest n e f g = rw (e, f) (rw (read_number, g) refl)

pub scan_uint-format_uint :
    (n : ℕ) (rest : Bytes)
    → n < two64
    → starts_digit rest ≡ false
    → scan_uint (format_uint n ++ rest) ≡ some (n, rest)
scan_uint-format_uint n rest b h =
    let d = format_uint-digits n in
    scan_uint_lem _ _ _ rest n (trim_left-digits (format_uint n) rest d (format_uint-ne n))
      (span_digits-append (format_uint n) rest d h) (parse_uint-format_uint n b)

pub scan_uint-format_uint_end : (n : ℕ) → n < two64 → scan_uint (format_uint n) ≡ some (n, [])
scan_uint-format_uint_end n b =
    ap scan_uint (sym (append-nil (format_uint n))) ∙ scan_uint-format_uint n [] b refl

scan_literal-append : (key rest : Bytes) → scan_literal key (key ++ rest) ≡ some rest
unfolding scan_literal
scan_literal-append [] rest = refl
scan_literal-append (c ∷ key) rest = ground (arith, scan_literal-append key rest)

abbrev pub all_spaces : Bytes → Bool
all_spaces [] = true
all_spaces (c ∷ s) = is_space c && all_spaces s

trim_left-spaces :
    (s t : Bytes) → all_spaces s ≡ true → trim_left is_space (s ++ t) ≡ trim_left is_space t
unfolding trim_left
trim_left-spaces [] t h = refl
trim_left-spaces (c ∷ s) t h = ground (arith, trim_left-spaces s t)

scan_space-spaces :
    (spaces ds : Bytes)
    → all_spaces (b' ' ∷ spaces) ≡ true
    → all_digits ds ≡ true
    → is_empty ds ≡ false
    → scan_space (b' ' ∷ (spaces ++ ds)) ≡ some ds
unfolding scan_space is_space
scan_space-spaces spaces ds h d e = ap some (
    trim_left-spaces spaces ds h
    ∙ ap (trim_left is_space) (sym (append-nil ds))
    ∙ trim_left-digits ds [] d e
    ∙ append-nil ds)

-- A key, spaces and a number are scanned by the format `<key> %d`.
pub scan_key_uint-format_uint :
    (key spaces : Bytes) (n : ℕ)
    → n < two64
    → all_spaces (b' ' ∷ spaces) ≡ true
    → scan_key_uint key (key ++ (b' ' ∷ (spaces ++ format_uint n))) ≡ some n
unfolding scan_key_uint
scan_key_uint-format_uint key spaces n b h =
    let space =
      scan_space-spaces spaces (format_uint n) h (format_uint-digits n) (format_uint-ne n) in
    rw (scan_literal-append key) (rw space (rw (scan_uint-format_uint_end n b) refl))
