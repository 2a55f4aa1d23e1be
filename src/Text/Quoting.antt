-- ===== src/Text/Quoting.antt =====
-- What `%q` of fmt prints for a text of ASCII.
use gonewsd.Prelude.{
  ℕ, ◌+◌, ◌-◌, ◌/◌, ◌%◌, ◌==◌, ◌||◌, [], ◌∷◌, ◌++◌, Bytes, if◌then◌else◌, ltb, str,
}

hex_digit : ℕ → ℕ
hex_digit n = if ltb n 10 then b'0' + n else b'a' + (n - 10)

-- `\xNN`
hex_escape : ℕ → Bytes
unfolding hex_digit
hex_escape c = str "\\x" ++ (hex_digit (c / 16) ∷ hex_digit (c % 16) ∷ [])

quoted_byte : ℕ → Bytes
unfolding hex_escape
quoted_byte c =
    if c == b'"' || c == b'\\'
    then b'\\' ∷ c ∷ []
    else if c == 7
    then str "\\a"
    else if c == 8
    then str "\\b"
    else if c == 9
    then str "\\t"
    else if c == 10
    then str "\\n"
    else if c == 11
    then str "\\v"
    else if c == 12
    then str "\\f"
    else if c == 13
    then str "\\r"
    else if ltb c 32 || c == 127
    then hex_escape c
    else c ∷ []

quoted_bytes : Bytes → Bytes
unfolding quoted_byte
quoted_bytes [] = []
quoted_bytes (c ∷ s) = quoted_byte c ++ quoted_bytes s

-- Bytes beyond ASCII are kept, as those of letters are.
unfoldable pub quote : Bytes → Bytes
unfolding quoted_bytes
quote s = b'"' ∷ (quoted_bytes s ++ (b'"' ∷ []))
