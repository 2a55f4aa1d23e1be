-- ===== src/Cli/Answers.antt =====
-- Which prompts end.
use gonewsd.Prelude.{
  ℕ, zero, suc, ◌≡◌, refl, Bool-cases, ◌⊎◌, inl, inr, Bool, true, false, not, ◌&&◌, ◌||◌, List, [],
  ◌∷◌, none, some, if◌then◌else◌, is_empty, Bytes,
}
use gonewsd.Auth.Database.{Sql}
use gonewsd.Auth.Validate.{invalid_group_names}
use gonewsd.Auth.Validate.Checks.{IsListed, blank, invalid_group_names-IsListed}
use gonewsd.Cli.{
  Entry, typed, closed, Asked, got, waiting, Terminal, readline_loop, prompt_loop, required,
  prompt_email_if_missing, prompt_groups_if_missing, groups_ok, existing_group_names,
}
use gonewsd.Text.Strings.{trim_space}

abbrev pub has_closed : List Entry → Bool
has_closed [] = false
has_closed (closed ∷ es) = true
has_closed (typed _ ∷ es) = has_closed es

-- An answer: an accepted line, or nothing, if the prompt was left.
pub record Ends (valid : Bytes → Bool) (r : Asked Bytes) : Type 0 where
  pub value : Bytes
  pub rest : List Entry
  pub answers : r ≡ got value rest
  pub accepted : (is_empty value ≡ true) ⊎ (valid value ≡ true)

taken-Ends :
    (valid : Bytes → Bool) (line : Bytes) (es : List Entry) (r : Asked Bytes)
    → Ends valid r
    → Ends valid (elim (required valid line) as (λ _. Asked Bytes) [ some v ↦ got v es | none ↦ r ])
taken-Ends valid [] es r h = h
taken-Ends valid (c ∷ line) es r h = elim (Bool-cases (valid (c ∷ line))) [
  | inl t ↦ rw t (record { value = c ∷ line; rest = es; answers = refl; accepted = inr t })
  | inr f ↦ rw f h
]

readline_loop-Ends :
    (valid : Bytes → Bool) (es : List Entry)
    → has_closed es ≡ true
    → Ends valid (readline_loop (required valid) es)
unfolding readline_loop
readline_loop-Ends valid [] h = absurd cc
readline_loop-Ends valid (closed ∷ es) h = record {
  value = [];
  rest = es;
  answers = refl;
  accepted = inl refl;
}
readline_loop-Ends valid (typed s ∷ es) h =
    taken-Ends valid (trim_space s) es (readline_loop (required valid) es)
      (readline_loop-Ends valid es h)

given-Ends :
    (valid : Bytes → Bool) (value : Bytes) (es : List Entry) (r : Asked Bytes)
    → Ends valid r
    → Ends valid (if (not (is_empty value) && valid value) || false then got value es else r)
given-Ends valid [] es r h = h
given-Ends valid (c ∷ value) es r h = elim (Bool-cases (valid (c ∷ value))) [
  | inl t ↦ rw t (record { value = c ∷ value; rest = es; answers = refl; accepted = inr t })
  | inr f ↦ rw f h
]

-- An answer: a list of groups that is blank, or `*`, or one of groups that are valid and there.
pub record Chooses (names : List Bytes) (r : Asked Bytes) : Type 0 where
  pub groups : Bytes
  pub left : List Entry
  pub answered : r ≡ got groups left
  pub listed : IsListed names groups

accepted-IsListed :
    (names : List Bytes) (value : Bytes)
    → is_empty names ≡ false
    → (is_empty value ≡ true) ⊎ (is_empty (invalid_group_names value names) ≡ true)
    → IsListed names value
unfolding trim_space
accepted-IsListed names value e (inr v) = invalid_group_names-IsListed value names e v
accepted-IsListed names [] e (inl v) = blank refl
accepted-IsListed names (c ∷ value) e (inl v) = absurd cc

Ends-Chooses :
    (names : List Bytes) (r : Asked Bytes)
    → is_empty names ≡ false
    → Ends (λ groups. is_empty (invalid_group_names groups names)) r
    → Chooses names r
Ends-Chooses names r e h = record {
  groups = h.value;
  left = h.rest;
  answered = h.answers;
  listed = accepted-IsListed names h.value e h.accepted;
}

-- At a terminal on which `readline` works, and where the database lists a group, the prompt for
-- groups ends if the input is closed at some time, or before: with a list that is blank, with `*`,
-- or with a list of well-formed names of groups that the database lists.
pub prompt_groups_if_missing-Chooses :
    {S : Type 0} (term : Terminal) (db : Sql S) (s : S) (value : Bytes) (es : List Entry)
    → term.interactive ≡ true
    → term.readline ≡ true
    → is_empty (existing_group_names db s) ≡ false
    → has_closed es ≡ true
    → Chooses (existing_group_names db s) (prompt_groups_if_missing db term value s es)
unfolding prompt_groups_if_missing
prompt_groups_if_missing-Chooses term db s value es i r e h =
    Ends-Chooses (existing_group_names db s) _ e (
      rw (i, r) (given-Ends (groups_ok db s) value es _ (readline_loop-Ends (groups_ok db s) es h)))

-- The end of the input, again and again.
abbrev pub ends : ℕ → List Entry
ends zero = []
ends (suc n) = closed ∷ ends n

prompt_loop-ends : (valid : Bytes → Bool) (n : ℕ) → prompt_loop (required valid) (ends n) ≡ waiting
unfolding prompt_loop
prompt_loop-ends valid zero = refl
prompt_loop-ends valid (suc n) = prompt_loop-ends valid n

-- At a terminal whose input has ended, the prompt for an address asks again, however often the end is
-- read, and never gives an answer.
pub prompt_email_if_missing-ends :
    (term : Terminal) (n : ℕ)
    → term.interactive ≡ true
    → prompt_email_if_missing term [] (ends n) ≡ waiting
unfolding prompt_email_if_missing
prompt_email_if_missing-ends term n h = rw h (prompt_loop-ends term.validate_email n)
