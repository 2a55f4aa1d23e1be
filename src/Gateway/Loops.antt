-- ===== src/Gateway/Loops.antt =====
-- The search for mail loops in the headers of a message.
use gonewsd.Prelude.{
  ℕ, suc, zero, ◌≤◌, ◌<◌, ◌≡◌, refl, ap, ◌∙◌, sym, true, false, List, [], ◌∷◌, some, arith, length,
  take, Bytes, str, All, eq_bytes_iff,
}
use gonewsd.Gateway.{front_is, is_loop, rewrite_from, check_headers}
use gonewsd.Text.Strings.{equal_fold, to_lower}

length-to_lower : (s : Bytes) → length (to_lower s) ≡ length s
unfolding to_lower
length-to_lower [] = refl
length-to_lower (c ∷ s) = ap suc (length-to_lower s)

length-take : (n : ℕ) (s : Bytes) → n ≤ length s → length (take n s) ≡ n
length-take zero s h = refl
length-take (suc n) [] h = absurd (omega arith)
length-take (suc n) (c ∷ s) h = ap suc (length-take n s (omega arith))

equal_fold-length : (s t : Bytes) → equal_fold s t ≡ true → length s ≡ length t
unfolding equal_fold
equal_fold-length s t h =
    sym (length-to_lower s)
    ∙ (ap length ((eq_bytes_iff (to_lower s) (to_lower t)).0 h) ∙ length-to_lower t)

-- A front part of another length than the key is not the key.
front_is-length : (n : ℕ) (key h : Bytes) → front_is n key h ≡ true → n ≡ length key
unfolding front_is
front_is-length n key h e =
    let m : n ≤ length h = ground arith in
    let f : equal_fold (take n h) key ≡ true = ground arith in
    sym (length-take n h m) ∙ equal_fold-length (take n h) key f

is_loop-false : (h : Bytes) → is_loop h ≡ false
unfolding is_loop
is_loop-false h =
    ground (arith, front_is-length 14 (str "X-Newsd-Loop:") h, front_is-length 8 (str "X-Loop:") h)

abbrev pub rewritten : List Bytes → List Bytes
rewritten [] = []
rewritten (h ∷ hs) = rewrite_from h ∷ rewritten hs

-- A line of ASCII bytes, in which folding the case keeps the length.
abbrev pub IsAscii : Bytes → Type 0
IsAscii = All (λ c. c < 128)

-- No message of ASCII headers is taken for a mail loop, not even one with a header `X-Loop:` or
-- `X-Newsd-Loop:`: all of its headers come through, with `From ` lines rewritten.
pub check_headers-rewritten :
    (hs : List Bytes) → All IsAscii hs → check_headers hs ≡ some (rewritten hs)
unfolding check_headers
check_headers-rewritten [] a = refl
check_headers-rewritten (h ∷ hs) (_, a) = rw (is_loop-false h, check_headers-rewritten hs a) refl
