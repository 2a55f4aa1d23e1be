-- ===== src/Auth/Validate/Checks.antt =====
-- What the checks of names, of lists of names and of passwords accept.
use mathlib.Core.Bool.{false≢true}
use mathlib.Core.List.{Memᴰ}
use gonewsd.Prelude.{
  ℕ, ◌≤◌, ◌<◌, ◌≡◌, ◌↔◌, inl, inr, refl, Bool, true, false, not, List, [], ◌∷◌, ◌++◌, arith, ◌==◌,
  if◌then◌else◌, is_empty, length, Bytes, str, All, eq_bytes, eq_bytes_iff, Bool-cases, ==_iff, sym,
  ap, ◌∙◌,
}
use gonewsd.Text.Strings.{trim_space, contains_byte, contains_byte-append, Lacks}
use gonewsd.Text.Split.{split, split_onto, split-Lacks}
use gonewsd.Auth.Validate.{
  has_name, all_bytes, is_name_byte, matches_group_name, no_bad_part, valid_group_name,
  invalid_segments, invalid_group_names, validate_segments, validate_groups,
  is_allowed_password_char, check_password_chars, validate_password,
}

-- A component of a path that stays where it is: it is not empty, is neither `.` nor `..`, and has
-- no separator of either system in it.
pub record IsSafePart (p : Bytes) : Type 0 where
  pub not_empty : is_empty p ≡ false
  pub no_dot : Lacks b'.' p
  pub no_slash : Lacks b'/' p
  pub no_backslash : Lacks b'\\' p

not-byte : (q : ℕ → Bool) (b c : ℕ) → q b ≡ false → q c ≡ true → (c == b) ≡ false
not-byte q b c h k = elim (Bool-cases (c == b)) [
  | inl e ↦ absurd (false≢true (sym h ∙ ap q (sym ((==_iff c b).0 e)) ∙ k))
  | inr e ↦ e
]

all_bytes-Lacks :
    (q : ℕ → Bool) (b : ℕ) (s : Bytes) → q b ≡ false → all_bytes q s ≡ true → Lacks b s
unfolding all_bytes contains_byte
all_bytes-Lacks q b [] h k = refl
all_bytes-Lacks q b (c ∷ s) h k = ground (arith, not-byte q b c h, all_bytes-Lacks q b s h)

-- The bytes of a text that are not separators are also bytes of none of its parts.
split_onto-Lacks_other :
    (sep b : ℕ) (part s : Bytes) → Lacks b part → Lacks b s → All (Lacks b) (split_onto sep part s)
unfolding split_onto contains_byte
split_onto-Lacks_other sep b part [] h k = (h, tt)
split_onto-Lacks_other sep b part (c ∷ s) h k = elim (Bool-cases (c == sep)) [
  | inl e ↦ rw e (h, split_onto-Lacks_other sep b [] s refl (ground arith))
  | inr e ↦ rw e (
      split_onto-Lacks_other sep b (part ++ c ∷ []) s
        (ground (arith, contains_byte-append part (c ∷ []) b)) (ground arith))
]

parts-IsSafePart :
    (ps : List Bytes)
    → no_bad_part ps ≡ true
    → All (Lacks b'.') ps
    → All (Lacks b'/') ps
    → All (Lacks b'\\') ps
    → All IsSafePart ps
unfolding no_bad_part
parts-IsSafePart [] n d f b = tt
parts-IsSafePart (p ∷ ps) n (d, ds) (f, fs) (b, bs) = (
  record { not_empty = ground arith; no_dot = d; no_slash = f; no_backslash = b },
  parts-IsSafePart ps (ground arith) ds fs bs,
)

ladder :
    (a b c d : Bool)
    → (if a then false else if b then false else if not c then false else d) ≡ true
    → (c ≡ true) × (d ≡ true)
ladder a b c d h = ground arith

pub valid_group_name_parts :
    (name : Bytes)
    → valid_group_name name ≡ true
    → (matches_group_name name ≡ true) × (no_bad_part (split name b'.') ≡ true)
unfolding valid_group_name
valid_group_name_parts name h = ladder _ _ _ _ h

-- A valid name has none of the bytes that separate the components of a path.
matches_group_name-Lacks :
    (name : Bytes) (b : ℕ) → matches_group_name name ≡ true → is_name_byte b ≡ false → Lacks b name
unfolding matches_group_name contains_byte
matches_group_name-Lacks [] b h k = refl
matches_group_name-Lacks (c ∷ s) b h k =
    all_bytes-Lacks is_name_byte b (c ∷ s) k (unfold all_bytes in ground arith)

pub valid_group_name-Lacks_slash : (name : Bytes) → valid_group_name name ≡ true → Lacks b'/' name
valid_group_name-Lacks_slash name h =
    matches_group_name-Lacks name b'/' (valid_group_name_parts name h).0 refl

-- Every component of a valid group name is a safe part of a path: no component is empty, `.` or
-- `..`, or has a separator in it, so the directory of the group lies below the spool.
pub valid_group_name-IsSafePart :
    (name : Bytes) → valid_group_name name ≡ true → All IsSafePart (split name b'.')
unfolding split contains_byte
valid_group_name-IsSafePart name h =
    let (m, n) = valid_group_name_parts name h in
    parts-IsSafePart (split name b'.') n (split-Lacks name b'.')
      (split_onto-Lacks_other b'.' b'/' [] name refl (matches_group_name-Lacks name b'/' m refl))
      (split_onto-Lacks_other b'.' b'\\' [] name refl (matches_group_name-Lacks name b'\\' m refl))

invalid-validate_segments :
    (existing parts : List Bytes)
    → (is_empty (validate_segments existing parts) ≡ true)
      ↔ (is_empty (invalid_segments existing parts) ≡ true)
unfolding validate_segments invalid_segments
invalid-validate_segments existing [] = ground arith
invalid-validate_segments existing (part ∷ parts) =
    ground (arith, invalid-validate_segments existing parts)

-- `ValidateGroups` accepts a list that is not blank exactly if `InvalidGroupNames` reports no name.
pub validate_groups_iff :
    (groups : Bytes) (existing : List Bytes)
    → is_empty (trim_space groups) ≡ false
    → (validate_groups groups existing ≡ []) ↔ (invalid_group_names groups existing ≡ [])
unfolding validate_groups invalid_group_names
validate_groups_iff groups existing h =
    ground (arith, invalid-validate_segments existing (split (trim_space groups) b','))

-- A list of groups that is accepted where the groups `names` exist: it is blank, it is `*`, or each
-- of its parts, trimmed, is a well-formed name of a group that exists.
pub data IsListed (names : List Bytes) (groups : Bytes) : Type 0 where
  blank : is_empty (trim_space groups) ≡ true → IsListed names groups
  every : trim_space groups ≡ str "*" → IsListed names groups
  named :
      All
        (λ part. (matches_group_name (trim_space part) ≡ true) × Memᴰ (trim_space part) names)
        (split (trim_space groups) b',')
      → IsListed names groups

has_name-Memᴰ : (n : Bytes) (ms : List Bytes) → has_name n ms ≡ true → Memᴰ n ms
unfolding has_name
has_name-Memᴰ n [] h = absurd cc
has_name-Memᴰ n (m ∷ ms) h = elim (Bool-cases (eq_bytes m n)) [
  | inl e ↦ Memᴰ.head (sym ((eq_bytes_iff m n).0 e))
  | inr e ↦ Memᴰ.tail (has_name-Memᴰ n ms (ground (arith, h, e)))
]

invalid_segments-All :
    (existing parts : List Bytes)
    → is_empty existing ≡ false
    → is_empty (invalid_segments existing parts) ≡ true
    → All
        (λ part. (matches_group_name (trim_space part) ≡ true) × Memᴰ (trim_space part) existing)
        parts
unfolding invalid_segments
invalid_segments-All existing [] e h = tt
invalid_segments-All existing (part ∷ parts) e h = (
  (ground arith, has_name-Memᴰ (trim_space part) existing (ground arith)),
  invalid_segments-All existing parts e (ground arith),
)

-- Where a group exists, a list with no invalid name is blank, `*`, or one of groups that exist.
pub invalid_group_names-IsListed :
    (groups : Bytes) (existing : List Bytes)
    → is_empty existing ≡ false
    → is_empty (invalid_group_names groups existing) ≡ true
    → IsListed existing groups
unfolding invalid_group_names
invalid_group_names-IsListed groups existing e h =
    elim (Bool-cases (is_empty (trim_space groups))) [
      | inl b ↦ blank b
      | inr b ↦ elim (Bool-cases (eq_bytes (trim_space groups) (str "*"))) [
        | inl a ↦ every ((eq_bytes_iff (trim_space groups) (str "*")).0 a)
        | inr a ↦
            named
              (invalid_segments-All existing (split (trim_space groups) b',') e (rw (b, a) at h))
      ]
    ]

allowed-space : (c : ℕ) → (c == 32) ≡ true → is_allowed_password_char c ≡ false
unfolding is_allowed_password_char
allowed-space c e = rw ((==_iff c 32).0 e) refl

check_password_chars_iff :
    (p : Bytes)
    → (check_password_chars p ≡ []) ↔ All (λ c. (c < 128) × (is_allowed_password_char c ≡ true)) p
unfolding check_password_chars
check_password_chars_iff [] = ground arith
check_password_chars_iff (c ∷ p) = ground (arith, allowed-space c, check_password_chars_iff p)

-- A password is accepted exactly if it has 9 to 20 bytes, all of them ASCII and allowed.
validate_password_iff :
    (p : Bytes)
    → (validate_password p ≡ []) ↔ (
        (9 ≤ length p)
        × (length p ≤ 20)
        × All (λ c. (c < 128) × (is_allowed_password_char c ≡ true)) p)
unfolding validate_password
validate_password_iff p = ground (arith, check_password_chars_iff p)
