-- ===== src/Text/Strings.antt =====
-- `strings`: trimming, case, prefixes and replacement.
use gonewsd.Prelude.{
  ℕ, ◌+◌, ◌-◌, ◌≡◌, refl, Bool, true, false, ◌&&◌, ◌||◌, [], ◌∷◌, ◌++◌, arith, leb, ◌==◌,
  if◌then◌else◌, is_empty, length, take, drop, Bytes, eq_bytes, eq_bytes_refl, take-append_length,
  length-append,
}

-- `unicode.IsSpace` on ASCII.
unfoldable pub is_space : ℕ → Bool
is_space c = c == 32 || (leb 9 c && leb c 13)

unfoldable pub to_lower_byte : ℕ → ℕ
to_lower_byte c = if leb b'A' c && leb c b'Z' then c + 32 else c

unfoldable pub to_upper_byte : ℕ → ℕ
to_upper_byte c = if leb b'a' c && leb c b'z' then c - 32 else c

abbrev map_bytes : (ℕ → ℕ) → Bytes → Bytes
map_bytes f [] = []
map_bytes f (c ∷ s) = f c ∷ map_bytes f s

unfoldable pub to_lower : Bytes → Bytes
unfolding to_lower_byte
to_lower = map_bytes to_lower_byte

unfoldable pub to_upper : Bytes → Bytes
unfolding to_upper_byte
to_upper = map_bytes to_upper_byte

-- `strings.EqualFold`
unfoldable pub equal_fold : Bytes → Bytes → Bool
unfolding to_lower eq_bytes
equal_fold s t = eq_bytes (to_lower s) (to_lower t)

-- `strings.TrimLeftFunc`
unfoldable pub trim_left : (ℕ → Bool) → Bytes → Bytes
trim_left p [] = []
trim_left p (c ∷ s) = let rest = trim_left p s in if p c then rest else c ∷ s

-- `strings.TrimRightFunc`
unfoldable pub trim_right : (ℕ → Bool) → Bytes → Bytes
trim_right p [] = []
trim_right p (c ∷ s) = let rest = trim_right p s in if is_empty rest && p c then [] else c ∷ rest

unfoldable pub trim_space : Bytes → Bytes
unfolding trim_left trim_right is_space
trim_space s = trim_right is_space (trim_left is_space s)

unfoldable pub has_prefix : Bytes → Bytes → Bool
unfolding eq_bytes
has_prefix s p = leb (length p) (length s) && eq_bytes (take (length p) s) p

unfoldable pub has_suffix : Bytes → Bytes → Bool
unfolding eq_bytes
has_suffix s p = leb (length p) (length s) && eq_bytes (drop (length s - length p) s) p

unfoldable pub trim_suffix : Bytes → Bytes → Bytes
unfolding has_suffix
trim_suffix s p = if has_suffix s p then take (length s - length p) s else s

-- `strings.Contains` of one byte
unfoldable pub contains_byte : Bytes → ℕ → Bool
contains_byte [] b = false
contains_byte (c ∷ s) b = c == b || contains_byte s b

-- `strings.ReplaceAll` of one byte by another
unfoldable pub replace_byte : Bytes → ℕ → ℕ → Bytes
replace_byte [] a b = []
replace_byte (c ∷ s) a b = (if c == a then b else c) ∷ replace_byte s a b

-- the part of a text before the first byte of which `p` holds
unfoldable pub take_until : (ℕ → Bool) → Bytes → Bytes
take_until p [] = []
take_until p (c ∷ s) = let rest = take_until p s in if p c then [] else c ∷ rest

-- No byte of the text is `b`.
abbrev pub Lacks : ℕ → Bytes → Type 0
Lacks b s = contains_byte s b ≡ false

pub contains_byte-append :
    (s t : Bytes) (b : ℕ) → contains_byte (s ++ t) b ≡ (contains_byte s b || contains_byte t b)
unfolding contains_byte
contains_byte-append [] t b = refl
contains_byte-append (c ∷ s) t b = ground (arith, contains_byte-append s t b)

pub replace_byte-Lacks : (s : Bytes) (a b : ℕ) → Lacks a s → replace_byte s a b ≡ s
unfolding replace_byte contains_byte
replace_byte-Lacks [] a b h = refl
replace_byte-Lacks (c ∷ s) a b h = ground (arith, replace_byte-Lacks s a b)

pub Lacks-replace_byte : (s : Bytes) (a b : ℕ) → (a == b) ≡ false → Lacks a (replace_byte s a b)
unfolding replace_byte contains_byte
Lacks-replace_byte [] a b h = refl
Lacks-replace_byte (c ∷ s) a b h = ground (arith, Lacks-replace_byte s a b)

-- A text begins with its front part.
pub has_prefix-append : (s t : Bytes) → has_prefix (s ++ t) s ≡ true
unfolding has_prefix
has_prefix-append s t =
    rw (take-append_length s t) (ground (arith, eq_bytes_refl s, length-append s t))
