-- ===== src/Spool/Names/Distinct.antt =====
-- Where the directories and the articles of groups lie.
use gonewsd.Prelude.{
  ℕ, ◌*◌, ◌/◌, ◌≡◌, refl, sym, ap, ◌∙◌, Bool, true, false, [], ◌∷◌, ◌++◌, if◌then◌else◌, ◌==◌,
  Bytes, FilePath, eq_bytes, str, All, arith, append-nil, append_assoc, Bool-cases, ==_iff, inl,
  inr,
}
use gonewsd.Config.{Config}
use mathlib.Core.Bool.{false≢true}
use mathlib.Core.List.{tail, get_last?}
use mathlib.Core.Option.{some, some-injective}
use gonewsd.Text.Decimal.{
  is_digit, all_digits, format_uint, format_uint-digits, format_uint-ne, format_uint-injective,
}
use gonewsd.Text.Split.{split, split_onto, split-injective}
use gonewsd.Text.Strings.{replace_byte, contains_byte, Lacks}
use gonewsd.Auth.Validate.{valid_group_name}
use gonewsd.Auth.Validate.Checks.{
  IsSafePart, valid_group_name-IsSafePart, valid_group_name-Lacks_slash,
}
use gonewsd.Spool.Names.{clean_onto, join_path, spool_path, dirname, get_article_path}

IsSafePart-plain :
    (p : Bytes) → IsSafePart p → (eq_bytes p (str ".") ≡ false) × (eq_bytes p (str "..") ≡ false)
unfolding contains_byte eq_bytes
IsSafePart-plain [] s = (refl, refl)
IsSafePart-plain (c ∷ p) s = let d : Lacks b'.' (c ∷ p) = s.no_dot in ground arith

clean_onto-IsSafePart : (ps out : FilePath) → All IsSafePart ps → clean_onto out ps ≡ out ++ ps
unfolding clean_onto
clean_onto-IsSafePart [] out h = sym (append-nil out)
clean_onto-IsSafePart (p ∷ ps) out (s, t) =
    let (d, dd) = IsSafePart-plain p s in
    rw (s.not_empty, d, dd)
      (clean_onto-IsSafePart ps (out ++ p ∷ []) t ∙ append_assoc out (p ∷ []) ps)

split_onto-replace_byte :
    (part s : Bytes)
    → Lacks b'/' s
    → split_onto b'/' part (replace_byte s b'.' b'/') ≡ split_onto b'.' part s
unfolding split_onto replace_byte contains_byte
split_onto-replace_byte part [] h = refl
split_onto-replace_byte part (c ∷ s) h =
    ground (arith, split_onto-replace_byte [] s, split_onto-replace_byte (part ++ c ∷ []) s)

split-replace_byte :
    (s : Bytes) → Lacks b'/' s → split (replace_byte s b'.' b'/') b'/' ≡ split s b'.'
unfolding split
split-replace_byte s h = split_onto-replace_byte [] s h

-- The directory of a group with a valid name is the spool directory and, below it, the components of
-- the name: it never leaves the spool.
pub dirname-valid_group_name :
    (cfg : Config) (name : Bytes)
    → valid_group_name name ≡ true
    → dirname cfg name ≡ spool_path cfg ++ split name b'.'
unfolding dirname join_path
dirname-valid_group_name cfg name h =
    rw (split-replace_byte name (valid_group_name-Lacks_slash name h)) (
      clean_onto-IsSafePart (split name b'.') (spool_path cfg) (valid_group_name-IsSafePart name h))

append_cancel : (p q r : FilePath) → p ++ q ≡ p ++ r → q ≡ r
append_cancel [] q r e = e
append_cancel (x ∷ p) q r e = append_cancel p q r (ap tail e)

-- Groups with different valid names lie in different directories.
dirname-injective :
    (cfg : Config) (m n : Bytes)
    → valid_group_name m ≡ true
    → valid_group_name n ≡ true
    → dirname cfg m ≡ dirname cfg n
    → m ≡ n
dirname-injective cfg m n h k e = split-injective m n b'.' (
    append_cancel (spool_path cfg) (split m b'.') (split n b'.')
      (sym (dirname-valid_group_name cfg m h) ∙ e ∙ dirname-valid_group_name cfg n k))

pub digits-Lacks : (b : ℕ) (s : Bytes) → is_digit b ≡ false → all_digits s ≡ true → Lacks b s
unfolding all_digits contains_byte
digits-Lacks b [] h k = refl
digits-Lacks b (c ∷ s) h k = elim (Bool-cases (c == b)) [
  | inl e ↦ absurd (false≢true (sym h ∙ ap is_digit (sym ((==_iff c b).0 e)) ∙ ground arith))
  | inr e ↦ ground (arith, digits-Lacks b s h)
]

pub format_uint-IsSafePart : (n : ℕ) → IsSafePart (format_uint n)
format_uint-IsSafePart n =
    let d = format_uint-digits n in
    unfold is_digit in
    record {
      not_empty = format_uint-ne n;
      no_dot = digits-Lacks b'.' (format_uint n) refl d;
      no_slash = digits-Lacks b'/' (format_uint n) refl d;
      no_backslash = digits-Lacks b'\\' (format_uint n) refl d;
    }

split_onto_one : (sep : ℕ) (part s : Bytes) → Lacks sep s → split_onto sep part s ≡ (part ++ s) ∷ []
unfolding split_onto contains_byte
split_onto_one sep part [] h = rw append-nil refl
split_onto_one sep part (c ∷ s) h =
    ground (arith, split_onto_one sep (part ++ c ∷ []) s, append_assoc part (c ∷ []) s)

join_path-format_uint :
    (dir : FilePath) (n : ℕ) → join_path dir (format_uint n) ≡ dir ++ format_uint n ∷ []
unfolding join_path split
join_path-format_uint dir n =
    let safe = format_uint-IsSafePart n in
    rw (split_onto_one b'/' [] (format_uint n) safe.no_slash)
      (clean_onto-IsSafePart (format_uint n ∷ []) dir (safe, tt))

-- The components that name an article in the directory of its group.
abbrev pub article_parts : Bool → ℕ → FilePath
article_parts true n = format_uint (n / 1000 * 1000) ∷ format_uint n ∷ []
article_parts false n = format_uint n ∷ []

join_path-article_parts :
    (thousands : Bool) (base : FilePath) (n : ℕ)
    → (if thousands
        then join_path (join_path base (format_uint (n / 1000 * 1000))) (format_uint n)
        else join_path base (format_uint n))
      ≡ base ++ article_parts thousands n
join_path-article_parts true base n =
    rw
      (
        join_path-format_uint base (n / 1000 * 1000),
        join_path-format_uint (base ++ format_uint (n / 1000 * 1000) ∷ []) n,
      )
      (append_assoc base (format_uint (n / 1000 * 1000) ∷ []) (format_uint n ∷ []))
join_path-article_parts false base n = join_path-format_uint base n

-- The path of an article: the directory of the group, with `MsgModDirs` the directory of a thousand
-- articles, and the number.
pub get_article_path_lem :
    (cfg : Config) (group : Bytes) (n : ℕ)
    → get_article_path cfg group n ≡ dirname cfg group ++ article_parts cfg.msg_mod_dirs n
unfolding get_article_path dirname
get_article_path_lem cfg group n = join_path-article_parts cfg.msg_mod_dirs (dirname cfg group) n

last_component : (p : FilePath) (x : Bytes) → get_last? (p ++ x ∷ []) ≡ some x
last_component [] x = refl
last_component (q ∷ []) x = refl
last_component (q ∷ r ∷ p) x = last_component (r ∷ p) x

last_part :
    (thousands : Bool) (base : FilePath) (n : ℕ)
    → get_last? (base ++ article_parts thousands n) ≡ some (format_uint n)
last_part true base n =
    rw (← append_assoc base (format_uint (n / 1000 * 1000) ∷ []) (format_uint n ∷ []))
      (last_component (base ++ format_uint (n / 1000 * 1000) ∷ []) (format_uint n))
last_part false base n = last_component base (format_uint n)

last-get_article_path :
    (cfg : Config) (group : Bytes) (n : ℕ)
    → get_last? (get_article_path cfg group n) ≡ some (format_uint n)
last-get_article_path cfg group n =
    ap get_last? (get_article_path_lem cfg group n)
    ∙ last_part cfg.msg_mod_dirs (dirname cfg group) n

-- In one group, articles with different numbers are different files.
get_article_path-injective :
    (cfg : Config) (group : Bytes) (m n : ℕ)
    → get_article_path cfg group m ≡ get_article_path cfg group n
    → m ≡ n
get_article_path-injective cfg group m n e = format_uint-injective m n (
    some-injective (format_uint m) (format_uint n) (
      sym (last-get_article_path cfg group m) ∙ ap get_last? e ∙ last-get_article_path cfg group n))
