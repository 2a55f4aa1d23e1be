-- ===== src/Auth/Validate.antt =====
-- internal/auth/validate.go: names of groups, lists of them, and passwords.
pub mod Checks
use gonewsd.Prelude.{
  ℕ, ◌+◌, ◌-◌, ◌≤◌, ◌≡◌, refl, Bool, true, false, not, ◌&&◌, ◌||◌, List, [], ◌∷◌, ◌++◌, arith, leb,
  ltb, ◌==◌, if◌then◌else◌, is_empty, length, Bytes, eq_bytes, str,
}
use gonewsd.Text.Strings.{trim_space, contains_byte}
use gonewsd.Text.Split.{split, join}

abbrev is_letter : ℕ → Bool
is_letter c = (leb b'a' c && leb c b'z') || (leb b'A' c && leb c b'Z')

abbrev is_alnum : ℕ → Bool
is_alnum c = is_letter c || (leb b'0' c && leb c b'9')

pub all_bytes : (ℕ → Bool) → Bytes → Bool
all_bytes p [] = true
all_bytes p (c ∷ s) = p c && all_bytes p s

abbrev is_name_byte : ℕ → Bool
is_name_byte c = is_alnum c || c == b'.' || c == b'-'

-- `groupNameRegex`: `^[a-zA-Z0-9][a-zA-Z0-9.-]*$`
unfoldable pub matches_group_name : Bytes → Bool
unfolding all_bytes
matches_group_name [] = false
matches_group_name (c ∷ s) = is_alnum c && all_bytes is_name_byte s

-- whether a list holds a text
unfoldable pub has_name : Bytes → List Bytes → Bool
unfolding eq_bytes
has_name n [] = false
has_name n (m ∷ ms) = eq_bytes m n || has_name n ms

abbrev pub groups_blocklist : List Bytes
groups_blocklist =
    str "auth.db"
    ∷ str "auth.log"
    ∷ str "auth.mode"
    ∷ str "pidfile"
    ∷ str "test.conf"
    ∷ str ".config"
    ∷ []

-- The loop over the components of a name.
pub no_bad_part : List Bytes → Bool
no_bad_part [] = true
no_bad_part (p ∷ ps) = if eq_bytes p (str "..") || is_empty p then false else no_bad_part ps

unfoldable pub valid_group_name : Bytes → Bool
unfolding matches_group_name has_name no_bad_part split
valid_group_name name =
    if is_empty name || ltb 255 (length name)
    then false
    else if has_name name groups_blocklist
    then false
    else if not (matches_group_name name)
    then false
    else no_bad_part (split name b'.')

-- `len(name) > 1 && name[0] == '*'`
abbrev starts_with_star : Bytes → Bool
starts_with_star (c ∷ _ ∷ _) = c == b'*'
starts_with_star _ = false

invalid_segments : List Bytes → List Bytes → List Bytes
invalid_segments existing [] = []
invalid_segments existing (part ∷ parts) =
    let name = trim_space part in
    let rest = invalid_segments existing parts in
    if is_empty name
    then str "(empty segment)" ∷ rest
    else if starts_with_star name
    then name ∷ rest
    else if has_name name groups_blocklist
    then name ∷ rest
    else if not (matches_group_name name)
    then name ∷ rest
    else if not (is_empty existing) && not (has_name name existing)
    then name ∷ rest
    else rest

-- `existing` is empty where no names are given.
unfoldable pub invalid_group_names : Bytes → List Bytes → List Bytes
unfolding invalid_segments matches_group_name has_name split trim_space
invalid_group_names groups existing =
    let s = trim_space groups in
    if is_empty s
    then []
    else if eq_bytes s (str "*")
    then []
    else invalid_segments existing (split s b',')

validate_segments : List Bytes → List Bytes → Bytes
validate_segments existing [] = []
validate_segments existing (part ∷ parts) =
    let name = trim_space part in
    let rest = validate_segments existing parts in
    if is_empty name
    then str "groups: empty segment in list"
    else if starts_with_star name
    then str "groups: use * alone for all groups, not with other names"
    else if has_name name groups_blocklist
    then str "groups: "
      ++ (name
          ++ str " is not a newsgroup name (did you mean -groups '*' or a group like test.group1?)")
    else if not (matches_group_name name)
    then str "groups: invalid name "
      ++ (name ++ str " (use letters, digits, dots, hyphens; e.g. test.group1 or *)")
    else if not (is_empty existing) && not (has_name name existing)
    then str "groups: no such group " ++ (name ++ str " (create it with addgroup first)")
    else rest

-- The message, empty where the list is valid.
unfoldable pub validate_groups : Bytes → List Bytes → Bytes
unfolding validate_segments matches_group_name has_name split trim_space
validate_groups groups existing =
    let s = trim_space groups in
    if is_empty s
    then str "groups cannot be empty"
    else if eq_bytes s (str "*")
    then []
    else validate_segments existing (split s b',')

-- The loop of `NormalizeGroups`, which leaves it at a `*`.
normal_segments : List Bytes → List Bytes → Bytes
normal_segments out [] = join out (str ",")
normal_segments out (part ∷ parts) =
    let name = trim_space part in
    let rest = normal_segments (if is_empty name then out else out ++ name ∷ []) parts in
    if eq_bytes name (str "*") then str "*" else rest

unfoldable pub normalize_groups : Bytes → Bytes
unfolding normal_segments split trim_space join
normalize_groups groups =
    let s = trim_space groups in
    if is_empty s || eq_bytes s (str "*") then s else normal_segments [] (split s b',')

-- `isAllowedPasswordChar`
unfoldable pub is_allowed_password_char : ℕ → Bool
unfolding contains_byte
is_allowed_password_char r =
    is_alnum r || contains_byte (str "!@#$%^&*()-_=+[]{}\\|;:'\",.<>/?`~") r

-- The loop over the password. A byte above 127 belongs to a rune above `unicode.MaxASCII`.
check_password_chars : Bytes → Bytes
check_password_chars [] = []
check_password_chars (r ∷ p) =
    let rest = check_password_chars p in
    if r == b' '
    then str "password must not contain spaces"
    else if ltb 127 r
    then str "password must not contain non-ASCII characters"
    else if not (is_allowed_password_char r)
    then str
        "password contains disallowed character (use letters, digits, and typable special characters)"
    else rest

-- The message, empty where the password is valid.
unfoldable pub validate_password : Bytes → Bytes
unfolding check_password_chars is_allowed_password_char
validate_password p =
    if ltb (length p) 9
    then str "password must be more than 8 characters"
    else if ltb 20 (length p)
    then str "password must be at most 20 characters"
    else check_password_chars p
