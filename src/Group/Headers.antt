-- ===== src/Group/Headers.antt =====
-- The header lists of internal/group/group.go: lookup, `UpdatePath` and `ParseArticle`.
pub mod Lookup
pub mod Lines
use gonewsd.Prelude.{
  ℕ, suc, ◌+◌, Bool, true, false, not, ◌&&◌, ◌||◌, List, [], ◌∷◌, ◌++◌, Option, none, some, ◌==◌,
  leb, if◌then◌else◌, is_empty, length, take, drop, Bytes, eq_bytes, str,
}
use gonewsd.Text.Strings.{to_lower, trim_space, trim_suffix, equal_fold}

-- `strings.ToLower(strings.TrimSuffix(fieldName, ":") + ":")`
unfoldable pub field_lower : Bytes → Bytes
unfolding to_lower trim_suffix
field_lower name = to_lower (trim_suffix name (str ":") ++ str ":")

-- `len(h) >= len(key) && strings.ToLower(h[:len(key)]) == key`
unfoldable pub has_key : Bytes → Bytes → Bool
unfolding to_lower eq_bytes
has_key key h = leb (length key) (length h) && eq_bytes (to_lower (take (length key) h)) key

header_value : Bytes → List Bytes → Option Bytes
header_value key [] = none
header_value key (h ∷ hs) =
    let rest = header_value key hs in
    if has_key key h then some (trim_space (drop (length key) h)) else rest

-- `none` is the result `"", false`.
unfoldable pub get_header_value : List Bytes → Bytes → Option Bytes
unfolding header_value has_key field_lower trim_space
get_header_value headers name = header_value (field_lower name) headers

header_index : Bytes → ℕ → List Bytes → Option ℕ
header_index key i [] = none
header_index key i (h ∷ hs) =
    let rest = header_index key (i + 1) hs in if has_key key h then some i else rest

-- `none` is the result -1.
unfoldable pub get_header_index : List Bytes → Bytes → Option ℕ
unfolding header_index has_key field_lower
get_header_index headers name = header_index (field_lower name) 0 headers

abbrev path_key : Bytes
path_key = str "Path:"

with_host : Bytes → Bytes → Bytes
with_host hostname rest =
    if not (is_empty rest)
    then path_key ++ (str " " ++ (hostname ++ (str ", " ++ rest)))
    else path_key ++ (str " " ++ hostname)

abbrev is_path : Bytes → Bool
is_path h = leb 5 (length h) && equal_fold (take 5 h) path_key

unfoldable pub update_path : Bytes → List Bytes → List Bytes
unfolding with_host equal_fold trim_space
update_path hostname [] = (path_key ++ (str " " ++ hostname)) ∷ []
update_path hostname (h ∷ hs) =
    let rest = update_path hostname hs in
    if is_path h then with_host hostname (trim_space (drop 5 h)) ∷ hs else h ∷ rest

-- The variables of the loop of `ParseArticle`.
pub record Parsing : Type 0 where
  pub in_header : Bool
  pub line : Bytes
  pub headers : List Bytes
  pub body : List Bytes

end_line : Parsing → Parsing
end_line p =
    if p.in_header
    then if is_empty p.line
      then record p { line = []; in_header = false }
      else record p { line = []; headers = p.headers ++ p.line ∷ [] }
    else record p { line = []; body = p.body ++ p.line ∷ [] }

unfoldable pub parse_byte : Parsing → ℕ → Parsing
unfolding end_line
parse_byte p c =
    if c == b'\r'
    then p
    else if c == b'\n'
    then end_line p
    else record p { line = p.line ++ c ∷ [] }

finish : Parsing → List Bytes × List Bytes
finish p =
    if is_empty p.line
    then (p.headers, p.body)
    else if p.in_header
    then (p.headers ++ p.line ∷ [], p.body)
    else (p.headers, p.body ++ p.line ∷ [])

unfoldable pub parse_bytes : Parsing → Bytes → List Bytes × List Bytes
unfolding parse_byte finish
parse_bytes p [] = finish p
parse_bytes p (c ∷ msg) = parse_bytes (parse_byte p c) msg

abbrev fresh : Parsing
fresh = record { in_header = true; line = []; headers = []; body = [] }

unfoldable pub parse_article : Bytes → List Bytes × List Bytes
unfolding parse_bytes
parse_article msg = parse_bytes fresh msg
