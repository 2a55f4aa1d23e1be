-- ===== src/Config/Values.antt =====
-- internal/config/config.go: `parseBool`, `parseSize`, `parseListen`, and the parts of `net`,
-- `strconv` and `fmt` that they call.
use gonewsd.Prelude.{
  ℕ, suc, ◌-◌, ◌*◌, ◌%◌, Bool, false, not, ◌&&◌, ◌||◌, [], ◌∷◌, ◌++◌, Option, none, some, ltb, ◌==◌,
  if◌then◌else◌, is_empty, take, length, Bytes, eq_bytes, str,
}
use gonewsd.Prelude.Int.{ℤ, pos, negsuc}
use gonewsd.Text.Decimal.{all_digits, value, parse_uint, format_uint}
use gonewsd.Text.Scan.{scan_signed, scan_word, span_digits}
use gonewsd.Text.Strings.{to_lower, trim_space, trim_left, is_space, contains_byte, has_suffix}

unfoldable pub parse_bool : Bytes → Bool
unfolding to_lower eq_bytes
parse_bool s =
    let t = to_lower s in eq_bytes t (str "on") || (eq_bytes t (str "yes") || eq_bytes t (str "1"))

-- `strconv.ParseUint(s, 10, 32)`
unfoldable pub parse_uint32 : Bytes → Option ℕ
unfolding parse_uint
parse_uint32 s = elim (parse_uint s) [
  | none ↦ none
  | some n ↦ if ltb n 4294967296 then some n else none
]

-- An `int64` from the lower 64 bits of a product.
unfoldable pub signed64 : ℕ → ℤ
signed64 u = if ltb u 9223372036854775808 then pos u else negsuc (18446744073709551615 - u)

unfoldable pub times64 : ℕ → ℤ → ℤ
unfolding signed64
times64 k (pos n) = signed64 (k * n % 18446744073709551616)
times64 k (negsuc n) = signed64 (18446744073709551615 - (k * suc n - 1) % 18446744073709551616)

-- what stands behind the number that `%d` reads
pub after_number : Bytes → Bytes
unfolding span_digits
after_number [] = []
after_number (c ∷ s) =
    let (_, rest) = span_digits (if c == b'-' || c == b'+' then s else c ∷ s) in rest

-- `fmt.Sscanf(s, "%d%s", &n, &unit)`, whose error is dropped.
unfoldable pub scan_size : Bytes → ℤ × Bytes
unfolding scan_signed after_number scan_word trim_left is_space
scan_size s =
    let t = trim_left is_space s in
    elim (scan_signed t) [
      | none ↦ (pos 0, [])
      | some n ↦ elim (scan_word (after_number t)) [ none ↦ (n, []) | some (u, _) ↦ (n, u) ]
    ]

unfoldable pub parse_size : Bytes → ℤ
unfolding scan_size times64 to_lower eq_bytes trim_space
parse_size s =
    let (n, u) = scan_size (trim_space s) in
    let unit = to_lower u in
    if eq_bytes unit (str "k")
    then times64 1024 n
    else if eq_bytes unit (str "m")
    then times64 1048576 n
    else if eq_bytes unit (str "g")
    then times64 1073741824 n
    else n

-- the text before the last colon, and that behind it
cut_last : ℕ → Bytes → Option (Bytes × Bytes)
cut_last b [] = none
cut_last b (c ∷ s) = elim (cut_last b s) [
  | some (front, back) ↦ some (c ∷ front, back)
  | none ↦ if c == b then some ([], s) else none
]

abbrev has_bracket : Bytes → Bool
has_bracket s = contains_byte s b'[' || contains_byte s b']'

-- the host of `[host]` and of a plain host
plain_host : Bytes → Option Bytes
unfolding contains_byte has_suffix
plain_host [] = some []
plain_host (c ∷ s) =
    if c == b'['
    then if has_suffix s (str "]") && not (has_bracket (take (length s - 1) s))
      then some (take (length s - 1) s)
      else none
    else if contains_byte (c ∷ s) b':' || has_bracket (c ∷ s)
    then none
    else some (c ∷ s)

-- `net.SplitHostPort`
split_host_port : Bytes → Option (Bytes × Bytes)
unfolding cut_last plain_host contains_byte
split_host_port s = elim (cut_last b':' s) [
  | none ↦ none
  | some (before, port) ↦ elim (plain_host before) [
    | none ↦ none
    | some host ↦ if has_bracket port then none else some (host, port)
  ]
]

-- `net.JoinHostPort`
unfoldable pub join_host_port : Bytes → Bytes → Bytes
unfolding contains_byte
join_host_port host port =
    if contains_byte host b':'
    then str "[" ++ (host ++ (str "]:" ++ port))
    else host ++ (str ":" ++ port)

-- whether `strconv.Atoi` has no error
digits_within : ℕ → Bytes → Bool
unfolding all_digits value
digits_within bound s = not (is_empty s) && (all_digits s && ltb (value 0 s) bound)

unfoldable pub is_int : Bytes → Bool
unfolding digits_within
is_int [] = false
is_int (c ∷ s) =
    if c == b'-'
    then digits_within 9223372036854775809 s
    else if c == b'+'
    then digits_within 9223372036854775808 s
    else digits_within 9223372036854775808 (c ∷ s)

-- `lookup_port` is `net.LookupPort("tcp", s)`.
unfoldable pub parse_listen : (Bytes → Option ℕ) → Bytes → Bytes
unfolding trim_space split_host_port join_host_port is_int format_uint
parse_listen lookup_port text =
    let s = trim_space text in
    if is_empty s then str ":119" else elim (split_host_port s) [
      | some (host, port) ↦ join_host_port host port
      | none ↦
          if is_int s
          then str ":" ++ s
          else elim (lookup_port s) [ some port ↦ str ":" ++ format_uint port | none ↦ str ":119" ]
    ]
