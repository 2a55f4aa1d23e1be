-- ===== src/Config/Cutting.antt =====
-- Lines of a configuration file that are written and read back.
use gonewsd.Prelude.{
  ◌≡◌, refl, sym, ap, ◌∙◌, Bool, true, false, not, ◌&&◌, ◌||◌, [], ◌∷◌, ◌++◌, Option, none, some,
  arith, ltb, ◌==◌, if◌then◌else◌, is_empty, length, length-append, drop-append_length, Bytes,
  append-nil,
}
use gonewsd.Config.Loading.{setting, blank, name_only, cut_line, is_blank_byte}
use gonewsd.Text.Strings.{
  is_space, trim_left, trim_right, trim_space, take_until, contains_byte, Lacks,
}

-- A name of one word without a `#`.
abbrev pub is_word : Bytes → Bool
is_word [] = true
is_word (c ∷ s) = not (is_space c) && (not (c == b'#') && is_word s)

abbrev pub is_name : Bytes → Bool
is_name s = not (is_empty s) && is_word s

-- A value is not empty, has no spaces at its ends and no `#`.
pub record IsValue (v : Bytes) : Type 0 where
  pub some_bytes : is_empty v ≡ false
  pub no_front : trim_left is_space v ≡ v
  pub no_back : trim_right is_space v ≡ v
  pub no_hash : Lacks b'#' v

abbrev pub comment_text : Option Bytes → Bytes
comment_text none = []
comment_text (some t) = b'#' ∷ t

-- A line that sets a value, with a comment or without one.
abbrev pub render_setting : Bytes → Bytes → Option Bytes → Bytes
render_setting name value comment = (name ++ b' ' ∷ value) ++ comment_text comment

take_until-comment :
    (s : Bytes) (t : Option Bytes)
    → Lacks b'#' s
    → take_until (λ c. c == b'#') (s ++ comment_text t) ≡ s
unfolding take_until contains_byte
take_until-comment [] none h = refl
take_until-comment [] (some t) h = refl
take_until-comment (c ∷ s) t h = ground (arith, take_until-comment s t)

name-Lacks : (n v : Bytes) → is_word n ≡ true → Lacks b'#' v → Lacks b'#' (n ++ b' ' ∷ v)
unfolding contains_byte
name-Lacks [] v h k = ground arith
name-Lacks (c ∷ n) v h k = ground (arith, name-Lacks n v)

is_empty-behind : (s v : Bytes) → is_empty v ≡ false → is_empty (s ++ v) ≡ false
is_empty-behind [] v n = n
is_empty-behind (c ∷ s) v n = refl

trim_right-behind :
    (s v : Bytes)
    → is_empty v ≡ false
    → trim_right is_space v ≡ v
    → trim_right is_space (s ++ v) ≡ s ++ v
unfolding trim_right
trim_right-behind [] v n h = h
trim_right-behind (c ∷ s) v n h = rw (trim_right-behind s v n h, is_empty-behind s v n) refl

take_until-name : (n v : Bytes) → is_word n ≡ true → take_until is_blank_byte (n ++ b' ' ∷ v) ≡ n
unfolding take_until is_space
take_until-name [] v h = refl
take_until-name (c ∷ n) v h = ground (arith, take_until-name n v)

trim_right-word : (n : Bytes) → is_word n ≡ true → trim_right is_space n ≡ n
unfolding trim_right is_space
trim_right-word [] h = refl
trim_right-word (c ∷ n) h = ground (arith, trim_right-word n)

trim_left-word : (n v : Bytes) → is_name n ≡ true → trim_left is_space (n ++ v) ≡ n ++ v
unfolding trim_left
trim_left-word [] v h = absurd cc
trim_left-word (c ∷ n) v h = ground arith

trim_space-setting :
    (n v : Bytes) → is_name n ≡ true → IsValue v → trim_space (n ++ b' ' ∷ v) ≡ n ++ b' ' ∷ v
unfolding trim_space
trim_space-setting n v h k =
    rw (trim_left-word n (b' ' ∷ v) h)
      (trim_right-behind n (b' ' ∷ v) refl (trim_right-behind (b' ' ∷ []) v k.some_bytes k.no_back))

trim_space-name : (n : Bytes) → is_name n ≡ true → trim_space n ≡ n
unfolding trim_space
trim_space-name n h =
    ap (trim_right is_space)
      (ap (trim_left is_space) (sym (append-nil n)) ∙ (trim_left-word n [] h ∙ append-nil n))
    ∙ trim_right-word n (ground arith)

trim_space-value : (v : Bytes) → IsValue v → trim_space (b' ' ∷ v) ≡ v
unfolding trim_space trim_left is_space
trim_space-value v k = ap (trim_right is_space) k.no_front ∙ k.no_back

-- What a line with these parts is read as, where the parts are as they are.
cut_parts :
    (n v w : Bytes)
    → is_empty n ≡ false
    → is_empty v ≡ false
    → ltb (length n) (length w) ≡ true
    → (if is_empty n || not (ltb (length n) (length w))
        then blank
        else if is_empty v
        then name_only n
        else setting n v)
      ≡ setting n v
cut_parts n v w h k l = rw (h, k, l) refl

-- A line with a name of one word, a space and a value that is trimmed, both without `#`, and with a
-- comment behind it or none, is read as that name and that value.
pub cut_line-render_setting :
    (name value : Bytes) (comment : Option Bytes)
    → is_name name ≡ true
    → IsValue value
    → cut_line (render_setting name value comment) ≡ setting name value
unfolding cut_line
cut_line-render_setting n v t h k =
    rw
      (
        take_until-comment (n ++ b' ' ∷ v) t (name-Lacks n v (ground arith) k.no_hash),
        trim_space-setting n v h k,
        take_until-name n v (ground arith),
        drop-append_length n (b' ' ∷ v),
        trim_space-value v k,
        trim_space-name n h,
      )
      (cut_parts n v (n ++ b' ' ∷ v) (ground arith) k.some_bytes
        (ground (arith, length-append n (b' ' ∷ v))))
