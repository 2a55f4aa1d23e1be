-- ===== src/Tests/Naming.antt =====
-- Names, users, patterns and ranges at concrete inputs.
use gonewsd.Prelude.{◌≡◌, ◌≤◌, ◌↔◌, refl, arith, true, [], ◌∷◌, ◌++◌, none, Bytes, str}
use gonewsd.Auth.Store.{can_read, can_post, set_mode}
use gonewsd.Auth.Store.Access.{MayUse, can_read_iff, can_post_iff, can_read-set_mode}
use gonewsd.Auth.Validate.{valid_group_name, validate_groups, invalid_group_names}
use gonewsd.Auth.Validate.Checks.{validate_groups_iff}
use gonewsd.Group.Wildmat.{Matches, wildmat_match, wildmat_match_iff}
use gonewsd.Nntp.Range.{
  parse_article_range, parse_article_range_within, parse_article_range-format_uint,
}
use gonewsd.Spool.Names.{dirname, spool_path}
use gonewsd.Spool.Names.Distinct.{dirname-valid_group_name}
use gonewsd.Tests.Samples.{settings, store, session}
use gonewsd.Text.Decimal.{format_uint}
use gonewsd.Text.Split.{split}

abbrev comp : Bytes
comp = str "comp.lang.go"

comp-valid : valid_group_name comp ≡ true
unfolding valid_group_name
comp-valid = refl

dirname-valid_group_name_example : dirname settings comp ≡ spool_path settings ++ split comp b'.'
dirname-valid_group_name_example = dirname-valid_group_name settings comp comp-valid

can_read_iff_example :
    (can_read store session (str "a") true ≡ true) ↔ MayUse store session (str "a") b'r'
can_read_iff_example = can_read_iff store session (str "a")

can_post_iff_example :
    (can_post store session (str "a") true ≡ true) ↔ MayUse store session (str "a") b'w'
can_post_iff_example = can_post_iff store session (str "a")

can_read-set_mode_example :
    (can_read (set_mode store (str "private")) none (str "b") true
      ≡ can_read store none (str "b") true)
    × (can_post (set_mode store (str "private")) none (str "b") true
        ≡ can_post store none (str "b") true)
can_read-set_mode_example = can_read-set_mode store none (str "b") (str "private") true

validate_groups_iff_example :
    (validate_groups (str "a, b") (str "a" ∷ []) ≡ [])
    ↔ (invalid_group_names (str "a, b") (str "a" ∷ []) ≡ [])
unfolding gonewsd.Text.Strings.trim_space
validate_groups_iff_example = validate_groups_iff (str "a, b") (str "a" ∷ []) refl

wildmat_match_iff_example : (wildmat_match (str "c*.g?") comp ≡ true) ↔ Matches (str "c*.g?") comp
wildmat_match_iff_example = wildmat_match_iff (str "c*.g?") comp

parse_article_range_within_example :
    let (s, e) = parse_article_range (str "9-2") 3 7 3 7 in (3 ≤ s) × (s ≤ e) × (e ≤ 7)
parse_article_range_within_example = parse_article_range_within (str "9-2") 3 7 3 7 (omega arith)

parse_article_range-format_uint_example :
    parse_article_range (format_uint 4 ++ (b'-' ∷ format_uint 6)) 3 7 3 7 ≡ (4, 6)
parse_article_range-format_uint_example =
    parse_article_range-format_uint 4 6 3 7 3 7 (omega arith) (omega arith) (omega arith)
      (omega arith)
