-- ===== src/Group/Info/RoundTrip.antt =====
-- `LoadInfo` reads back what `SaveInfo` writes.
use gonewsd.Prelude.{
  ℕ, zero, suc, ◌+◌, ◌*◌, ◌/◌, ◌%◌, ◌≤◌, ◌<◌, ◌≡◌, refl, sym, ap, ◌∙◌, true, false, [], ◌∷◌, ◌++◌,
  none, arith, is_empty, length, length-append, Bytes, append_assoc, str,
}
use gonewsd.Text.Decimal.{
  is_digit, all_digits, format_uint, digits_onto, format_uint-digits, format_uint-ne, two64,
}
use gonewsd.Text.Scan.{scan_key_uint, scan_literal}
use gonewsd.Text.Scan.RoundTrip.{scan_key_uint-format_uint, digit-not-space}
use gonewsd.Text.Scanner.{scan_lines, scan_lines-render_lines, IsShortLine}
use gonewsd.Text.Strings.{
  is_space, trim_space, trim_left, trim_right, contains_byte, Lacks, contains_byte-append,
}
use gonewsd.Spool.Names.Distinct.{digits-Lacks}
use gonewsd.Group.Info.{info_text, info_entry, info_line, info_lines, read_info}
use gonewsd.Group.Types.{Group, ok}

-- Powers of ten, which bound the length of a number's print.
abbrev tens : ℕ → ℕ
tens zero = 1
tens (suc k) = 10 * tens k

digits_onto-length :
    (k f n : ℕ) (out : Bytes) → n < tens (suc k) → length (digits_onto f n out) ≤ suc k + length out
unfolding digits_onto
digits_onto-length k zero n out h = omega arith
digits_onto-length zero (suc f) n out h = ground arith
digits_onto-length (suc k) (suc f) n out h =
    ground (arith, digits_onto-length k f (n / 10) ((b'0' + n % 10) ∷ out) (omega arith))

format_uint-length : (n : ℕ) → n < two64 → length (format_uint n) ≤ 20
unfolding format_uint
format_uint-length n h = digits_onto-length 19 (suc n) n [] (omega arith)

trim_right-digits : (ds : Bytes) → all_digits ds ≡ true → trim_right is_space ds ≡ ds
unfolding trim_right all_digits
trim_right-digits [] h = refl
trim_right-digits (c ∷ ds) h = ground (arith, trim_right-digits ds, digit-not-space c)

is_empty-append : (s ds : Bytes) → is_empty ds ≡ false → is_empty (s ++ ds) ≡ false
is_empty-append [] ds h = h
is_empty-append (c ∷ s) ds h = refl

trim_right-append :
    (s ds : Bytes)
    → all_digits ds ≡ true
    → is_empty ds ≡ false
    → trim_right is_space (s ++ ds) ≡ s ++ ds
unfolding trim_right
trim_right-append [] ds h k = trim_right-digits ds h
trim_right-append (c ∷ s) ds h k =
    rw (trim_right-append s ds h k) (rw (is_empty-append s ds k) refl)

-- A line of the file: a key, seven spaces or more, and a number.
abbrev keyed : Bytes → Bytes → ℕ → Bytes
keyed key spaces n = key ++ (b' ' ∷ (spaces ++ format_uint n))

module _ (n : ℕ) (fits : n < two64) where
  keyed-trimmed :
      (c : ℕ) (key spaces : Bytes)
      → is_space c ≡ false
      → trim_space (keyed (c ∷ key) spaces n) ≡ keyed (c ∷ key) spaces n
  unfolding trim_space trim_left
  keyed-trimmed c key spaces h = rw h (
      ap (trim_right is_space) (sym (append_assoc (c ∷ key) (b' ' ∷ spaces) (format_uint n)))
      ∙ trim_right-append ((c ∷ key) ++ (b' ' ∷ spaces)) (format_uint n) (format_uint-digits n)
          (format_uint-ne n)
      ∙ append_assoc (c ∷ key) (b' ' ∷ spaces) (format_uint n))

  start_line :
      (g : Group) → info_line g (keyed (str "start") (str "      ") n) ≡ record g { start = n }
  unfolding info_line is_space
  start_line g =
      rw (keyed-trimmed b's' (str "tart") (str "      ") refl)
        (rw (info_entry, scan_key_uint-format_uint (str "start") (str "      ") n fits refl) refl)

  end_line : (g : Group) → info_line g (keyed (str "end") (str "        ") n) ≡ record g { end = n }
  unfolding info_line is_space
  end_line g =
      let other : scan_key_uint (str "start") (keyed (str "end") (str "        ") n) ≡ none =
        unfold scan_key_uint scan_literal in refl in
      rw (keyed-trimmed b'e' (str "nd") (str "        ") refl) (
        rw (info_entry, other, scan_key_uint-format_uint (str "end") (str "        ") n fits refl)
          refl)

  total_line :
      (g : Group) → info_line g (keyed (str "total") (str "      ") n) ≡ record g { total = n }
  unfolding info_line is_space
  total_line g =
      let line = keyed (str "total") (str "      ") n in
      let other : scan_key_uint (str "start") line ≡ none =
        unfold scan_key_uint scan_literal in refl in
      let other' : scan_key_uint (str "end") line ≡ none =
        unfold scan_key_uint scan_literal in refl in
      rw (keyed-trimmed b't' (str "otal") (str "      ") refl) (
        rw
          (
            info_entry,
            other,
            other',
            scan_key_uint-format_uint (str "total") (str "      ") n fits refl,
          )
          refl)

  keyed-IsShortLine :
      (key spaces : Bytes)
      → Lacks b'\n' (key ++ (b' ' ∷ spaces))
      → Lacks b'\r' (key ++ (b' ' ∷ spaces))
      → length (key ++ (b' ' ∷ spaces)) ≤ 20
      → IsShortLine (keyed key spaces n)
  keyed-IsShortLine key spaces h k l = rw (← append_assoc key (b' ' ∷ spaces) (format_uint n)) (
    ground (
      arith,
      contains_byte-append (key ++ (b' ' ∷ spaces)) (format_uint n) b'\n',
      digits-Lacks b'\n' (format_uint n) (unfold is_digit in refl) (format_uint-digits n),
    ),
    ground (
      arith,
      contains_byte-append (key ++ (b' ' ∷ spaces)) (format_uint n) b'\r',
      digits-Lacks b'\r' (format_uint n) (unfold is_digit in refl) (format_uint-digits n),
    ),
    omega
        (arith, length-append (key ++ (b' ' ∷ spaces)) (format_uint n), format_uint-length n fits),
  )

-- A group that is saved and loaded again has the same first and last number and the same total, if
-- these fit into 64 bits.
pub read_info-info_text :
    (g h : Group)
    → g.start < two64
    → g.end < two64
    → g.total < two64
    → read_info h (scan_lines (info_text g))
      ≡ ok (record h { start = g.start; end = g.end; total = g.total; valid = true })
unfolding info_text read_info info_lines contains_byte
read_info-info_text g h s e t =
    rw
      (scan_lines-render_lines
        (keyed (str "start") (str "      ") g.start
          ∷ keyed (str "end") (str "        ") g.end
          ∷ keyed (str "total") (str "      ") g.total
          ∷ [])
        (
          keyed-IsShortLine g.start s (str "start") (str "      ") refl refl (omega arith),
          (
            keyed-IsShortLine g.end e (str "end") (str "        ") refl refl (omega arith),
            (keyed-IsShortLine g.total t (str "total") (str "      ") refl refl (omega arith), tt),
          ),
        ))
      (rw (start_line g.start s h) (
        rw (end_line g.end e (record h { start = g.start }))
          (rw (total_line g.total t (record h { start = g.start; end = g.end })) refl)))
