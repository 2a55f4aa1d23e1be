-- ===== src/Group/Wildmat.antt =====
-- `WildmatMatch` of internal/group/group.go, and the proof that it decides the pattern relation.
use mathlib.Core.Bool.{false≢true}
use gonewsd.Prelude.{
  ℕ, zero, suc, ◌≤◌, ◌<◌, ◌≡◌, ◌↔◌, sym, ◌∙◌, ◌⊎◌, inl, inr, refl, Bool, true, false, ◌||◌, [], ◌∷◌,
  arith, ◌==◌, if◌then◌else◌, is_empty, length, Bytes, Bool-cases,
}

-- The inner loop, which drops the stars that stand in front.
strip_stars : Bytes → Bytes
strip_stars [] = []
strip_stars (c ∷ p) = let rest = strip_stars p in if c == b'*' then rest else c ∷ p

-- `for i := 0; i <= len(name); i++ { if doWildmat(pattern, name[i:]) … }`
any_suffix : (Bytes → Bool) → Bytes → Bool
any_suffix test [] = test []
any_suffix test (c ∷ s) = test (c ∷ s) || any_suffix test s

abbrev after_star : (Bytes → Bytes → Bool) → Bytes → Bytes → Bool
after_star match [] name = true
after_star match (c ∷ p) name = any_suffix (match (c ∷ p)) name

-- The cases `?` and `default`: a byte of the name is taken.
abbrev take_one : (Bytes → Bool) → ℕ → Bytes → Bool
take_one match c [] = false
take_one match c (d ∷ name) = if c == b'?' then match name else if c == d then match name else false

-- Each round and each call shortens the pattern, so fuel above its length is enough.
do_wildmat : ℕ → Bytes → Bytes → Bool
unfolding strip_stars any_suffix
do_wildmat zero pattern name = false
do_wildmat (suc f) [] name = is_empty name
do_wildmat (suc f) (c ∷ pattern) name =
    if c == b'*'
    then after_star (do_wildmat f) (strip_stars pattern) name
    else take_one (do_wildmat f pattern) c name

unfoldable pub wildmat_match : Bytes → Bytes → Bool
unfolding do_wildmat
wildmat_match pattern name = do_wildmat (suc (length pattern)) pattern name

-- What a pattern means: a star stands for any run of bytes, `?` for one byte, any other byte for
-- itself.
pub data Matches : Bytes → Bytes → Type 0 where
  nothing : Matches [] []
  byte :
      {c d : ℕ} {p s : Bytes}
      → (c == b'*') ≡ false
      → (c ≡ b'?') ⊎ (c ≡ d)
      → Matches p s
      → Matches (c ∷ p) (d ∷ s)
  leave : {c : ℕ} {p s : Bytes} → (c == b'*') ≡ true → Matches p s → Matches (c ∷ p) s
  take : {c d : ℕ} {p s : Bytes} → (c == b'*') ≡ true → Matches (c ∷ p) s → Matches (c ∷ p) (d ∷ s)

strip_stars→Matches : (p s : Bytes) → Matches (strip_stars p) s → Matches p s
unfolding strip_stars
strip_stars→Matches [] s m = m
strip_stars→Matches (c ∷ p) s m = elim (Bool-cases (c == b'*')) [
  | inl e ↦ leave e (strip_stars→Matches p s (rw e at m))
  | inr e ↦ rw e at m
]

length-strip_stars-le : (p : Bytes) → length (strip_stars p) ≤ length p
unfolding strip_stars
length-strip_stars-le [] = omega arith
length-strip_stars-le (c ∷ p) = ground (arith, length-strip_stars-le p)

any_suffix→Matches :
    (test : Bytes → Bool) (c : ℕ) (p s : Bytes)
    → (c == b'*') ≡ true
    → ((t : Bytes) → test t ≡ true → Matches p t)
    → any_suffix test s ≡ true
    → Matches (c ∷ p) s
unfolding any_suffix
any_suffix→Matches test c p [] e k h = leave e (k [] h)
any_suffix→Matches test c p (d ∷ s) e k h = elim (Bool-cases (test (d ∷ s))) [
  | inl y ↦ leave e (k (d ∷ s) y)
  | inr n ↦ take e (any_suffix→Matches test c p s e k (rw n at h))
]

star_all : (c : ℕ) (p s : Bytes) → (c == b'*') ≡ true → Matches p [] → Matches (c ∷ p) s
star_all c p [] e m = leave e m
star_all c p (d ∷ s) e m = take e (star_all c p s e m)

after_star→Matches :
    (match : Bytes → Bytes → Bool) (c : ℕ) (p q s : Bytes)
    → (c == b'*') ≡ true
    → strip_stars p ≡ q
    → ((t : Bytes) → match q t ≡ true → Matches q t)
    → after_star match q s ≡ true
    → Matches (c ∷ p) s
after_star→Matches match c p [] s e eq k h =
    star_all c p s e (strip_stars→Matches p [] (rw eq nothing))
after_star→Matches match c p (b ∷ q) s e eq k h =
    any_suffix→Matches (match (b ∷ q)) c p s e (λ t y. strip_stars→Matches p t (rw eq (k t y))) h

take_one→Matches :
    (match : Bytes → Bool) (c : ℕ) (p s : Bytes)
    → (c == b'*') ≡ false
    → ((t : Bytes) → match t ≡ true → Matches p t)
    → take_one match c s ≡ true
    → Matches (c ∷ p) s
take_one→Matches match c p [] e k h = absurd (false≢true h)
take_one→Matches match c p (d ∷ s) e k h = byte e (ground arith) (k s (ground arith))

do_wildmat→Matches : (f : ℕ) (p s : Bytes) → do_wildmat f p s ≡ true → Matches p s
unfolding do_wildmat
do_wildmat→Matches zero p s h = absurd (false≢true h)
do_wildmat→Matches (suc f) [] [] h = nothing
do_wildmat→Matches (suc f) [] (d ∷ s) h = absurd (false≢true h)
do_wildmat→Matches (suc f) (c ∷ p) s h = elim (Bool-cases (c == b'*')) [
  | inl e ↦
      after_star→Matches (do_wildmat f) c p (strip_stars p) s e refl
        (do_wildmat→Matches f (strip_stars p)) (rw e at h)
  | inr e ↦ take_one→Matches (do_wildmat f p) c p s e (do_wildmat→Matches f p) (rw e at h)
]

any_suffix_here : (test : Bytes → Bool) (s : Bytes) → test s ≡ true → any_suffix test s ≡ true
unfolding any_suffix
any_suffix_here test [] h = h
any_suffix_here test (d ∷ s) h = rw h refl

-- A match of a star and what follows it is a match of the rest, without its stars, somewhere.
Matches→any_suffix :
    (test : Bytes → Bool) {c : ℕ} {p s : Bytes}
    → Matches (c ∷ p) s
    → (c == b'*') ≡ true
    → ((t : Bytes) → Matches (strip_stars p) t → test t ≡ true)
    → any_suffix test s ≡ true
unfolding strip_stars any_suffix
Matches→any_suffix test (byte n _ _) e k = absurd (false≢true (sym n ∙ e))
Matches→any_suffix test (leave {p = []} {s = t} _ m) e k = any_suffix_here test t (k t m)
Matches→any_suffix test (leave {p = b ∷ q} {s = t} _ m) e k = elim (Bool-cases (b == b'*')) [
  | inl star ↦ Matches→any_suffix test m star (λ u x. k u (rw star x))
  | inr other ↦ any_suffix_here test t (k t (rw other m))
]
Matches→any_suffix test (take {d} {s = t} _ m) e k = ground (arith, Matches→any_suffix test m e k)

any_suffix→after_star :
    (match : Bytes → Bytes → Bool) (q s : Bytes)
    → any_suffix (match q) s ≡ true
    → after_star match q s ≡ true
any_suffix→after_star match [] s h = refl
any_suffix→after_star match (c ∷ q) s h = h

Matches→take_one :
    (match : Bytes → Bool) {c : ℕ} {p s : Bytes}
    → Matches (c ∷ p) s
    → (c == b'*') ≡ false
    → ((t : Bytes) → Matches p t → match t ≡ true)
    → take_one match c s ≡ true
Matches→take_one match (byte {s = t} _ h m) e k = ground (arith, k t m)
Matches→take_one match (leave y _) e k = absurd (false≢true (sym e ∙ y))
Matches→take_one match (take y _) e k = absurd (false≢true (sym e ∙ y))

Matches→do_wildmat : (f : ℕ) (p s : Bytes) → length p < f → Matches p s → do_wildmat f p s ≡ true
unfolding do_wildmat
Matches→do_wildmat zero p s h m = elim h [ ]
Matches→do_wildmat (suc f) [] [] h m = refl
Matches→do_wildmat (suc f) [] (d ∷ s) h m = elim m [ ]
Matches→do_wildmat (suc f) (c ∷ p) s h m = elim (Bool-cases (c == b'*')) [
  | inl e ↦ rw e (
      any_suffix→after_star (do_wildmat f) (strip_stars p) s (
        Matches→any_suffix (do_wildmat f (strip_stars p)) m e (λ t x.
          Matches→do_wildmat f (strip_stars p) t (omega (arith, length-strip_stars-le p)) x)))
  | inr e ↦
      rw e (Matches→take_one (do_wildmat f p) m e (λ t x. Matches→do_wildmat f p t (omega arith) x))
]

-- `WildmatMatch` answers true exactly if the name matches the pattern.
pub wildmat_match_iff :
    (pattern name : Bytes) → (wildmat_match pattern name ≡ true) ↔ Matches pattern name
unfolding wildmat_match
wildmat_match_iff pattern name = (
  do_wildmat→Matches (suc (length pattern)) pattern name,
  Matches→do_wildmat (suc (length pattern)) pattern name (omega arith),
)
