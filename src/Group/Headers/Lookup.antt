-- ===== src/Group/Headers/Lookup.antt =====
-- The value and the index of a header belong together, and `UpdatePath` changes one header only.
use gonewsd.Prelude.{
  ℕ, suc, ◌+◌, ◌≡◌, refl, List, [], ◌∷◌, Option, none, some, arith, length, drop, Bytes,
}
use gonewsd.Text.Strings.{trim_space}
use gonewsd.Group.Headers.{
  field_lower, header_value, get_header_value, header_index, get_header_index,
}

abbrev pub get_elem? {ℓ} : {A : Type ℓ} → List A → ℕ → Option A
get_elem? [] i = none
get_elem? (x ∷ xs) ℕ.zero = some x
get_elem? (x ∷ xs) (suc i) = get_elem? xs i

-- What stands behind the key of the header at an index.
abbrev pub value_at : Bytes → List Bytes → Option ℕ → Option Bytes
value_at key hs none = none
value_at key hs (some i) = elim (get_elem? hs i) [
  | none ↦ none
  | some h ↦ some (trim_space (drop (length key) h))
]

header_index_shift :
    (key : Bytes) (i : ℕ) (hs : List Bytes)
    → header_index key (i + 1) hs
      ≡ (elim (header_index key i hs) [ none ↦ none | some j ↦ some (suc j) ])
unfolding header_index
header_index_shift key i [] = refl
header_index_shift key i (h ∷ hs) = ground (arith, header_index_shift key (i + 1) hs)

header_value-index :
    (key : Bytes) (hs : List Bytes) → header_value key hs ≡ value_at key hs (header_index key 0 hs)
unfolding header_value header_index
header_value-index key [] = refl
header_value-index key (h ∷ hs) =
    ground (arith, header_value-index key hs, header_index_shift key 0 hs)

-- `GetHeaderValue` returns what stands behind the key of the header that `GetHeaderIndex` points
-- to, and both find a header or neither does.
get_header_value-index :
    (headers : List Bytes) (name : Bytes)
    → get_header_value headers name
      ≡ value_at (field_lower name) headers (get_header_index headers name)
unfolding get_header_value get_header_index
get_header_value-index headers name = header_value-index (field_lower name) headers
