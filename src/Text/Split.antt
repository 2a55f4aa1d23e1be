-- ===== src/Text/Split.antt =====
-- `strings`: splitting and joining.
use gonewsd.Prelude.{
  ℕ, ◌≡◌, refl, sym, ap, false, List, [], ◌∷◌, ◌++◌, arith, ◌==◌, if◌then◌else◌, is_empty, Bytes,
  All, Bool-cases, inl, inr, ◌∙◌, append-nil, append_assoc, ==_iff,
}
use gonewsd.Text.Strings.{is_space, contains_byte, contains_byte-append, Lacks}

-- The parts behind the part in progress, whose bytes so far are `part`.
unfoldable pub split_onto : ℕ → Bytes → Bytes → List Bytes
split_onto sep part [] = part ∷ []
split_onto sep part (c ∷ s) =
    let here = part ∷ split_onto sep [] s in
    let on = split_onto sep (part ++ c ∷ []) s in if c == sep then here else on

-- `strings.Split` at one byte
unfoldable pub split : Bytes → ℕ → List Bytes
unfolding split_onto
split s sep = split_onto sep [] s

-- `strings.Join`
unfoldable pub join : List Bytes → Bytes → Bytes
join [] sep = []
join (p ∷ []) sep = p
join (p ∷ q ∷ ps) sep = p ++ (sep ++ join (q ∷ ps) sep)

-- The fields behind the field in progress, whose bytes so far are `field`.
unfoldable pub fields_onto : Bytes → Bytes → List Bytes
fields_onto field [] = if is_empty field then [] else field ∷ []
fields_onto field (c ∷ s) =
    let rest = fields_onto [] s in
    let on = fields_onto (field ++ c ∷ []) s in
    if is_space c then (if is_empty field then rest else field ∷ rest) else on

-- `strings.Fields`
unfoldable pub fields : Bytes → List Bytes
unfolding fields_onto is_space
fields s = fields_onto [] s

-- `strings.SplitN(s, " ", 2)`: what stands before the first `sep`, and what stands behind it
unfoldable pub cut_onto : ℕ → Bytes → Bytes → Bytes × Bytes
cut_onto sep part [] = (part, [])
cut_onto sep part (c ∷ s) =
    let on = cut_onto sep (part ++ c ∷ []) s in if c == sep then (part, s) else on

-- Every part of a split lacks the separator.
pub split_onto-Lacks :
    (sep : ℕ) (part s : Bytes) → Lacks sep part → All (Lacks sep) (split_onto sep part s)
unfolding split_onto contains_byte
split_onto-Lacks sep part [] h = (h, tt)
split_onto-Lacks sep part (c ∷ s) h = elim (Bool-cases (c == sep)) [
  | inl e ↦ rw e (h, split_onto-Lacks sep [] s refl)
  | inr e ↦ rw e (
      split_onto-Lacks sep (part ++ c ∷ []) s
        (ground (arith, contains_byte-append part (c ∷ []) sep)))
]

split_onto-ne : (sep : ℕ) (part s : Bytes) → is_empty (split_onto sep part s) ≡ false
unfolding split_onto
split_onto-ne sep part [] = refl
split_onto-ne sep part (c ∷ s) = ground (arith, split_onto-ne sep (part ++ c ∷ []) s)

join-cons :
    (p : Bytes) (ps : List Bytes) (sep : Bytes)
    → is_empty ps ≡ false
    → join (p ∷ ps) sep ≡ p ++ (sep ++ join ps sep)
unfolding join
join-cons p [] sep h = cc
join-cons p (q ∷ ps) sep h = refl

-- Joining the parts gives the text back.
pub join-split_onto :
    (sep : ℕ) (part s : Bytes) → join (split_onto sep part s) (sep ∷ []) ≡ part ++ s
unfolding split_onto
join-split_onto sep part [] = unfold join in sym (append-nil part)
join-split_onto sep part (c ∷ s) = elim (Bool-cases (c == sep)) [
  | inl e ↦ rw e (
      rw (
        join-cons part (split_onto sep [] s) (sep ∷ []) (split_onto-ne sep [] s),
        join-split_onto sep [] s,
        (==_iff c sep).0 e,
      ))
  | inr e ↦ rw e (join-split_onto sep (part ++ c ∷ []) s ∙ append_assoc part (c ∷ []) s)
]

pub join-split : (s : Bytes) (sep : ℕ) → join (split s sep) (sep ∷ []) ≡ s
unfolding split
join-split s sep = join-split_onto sep [] s

-- Different texts are split into different parts.
pub split-injective : (s t : Bytes) (sep : ℕ) → split s sep ≡ split t sep → s ≡ t
split-injective s t sep e =
    sym (join-split s sep) ∙ ap (λ ps. join ps (sep ∷ [])) e ∙ join-split t sep

pub split-Lacks : (s : Bytes) (sep : ℕ) → All (Lacks sep) (split s sep)
unfolding split contains_byte
split-Lacks s sep = split_onto-Lacks sep [] s refl
