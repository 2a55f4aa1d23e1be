-- ===== src/Group/Articles/Finding.antt =====
-- The search for a message id, in groups whose first number is not 0 and from the number 0 down.
use gonewsd.Prelude.{
  ℕ, zero, suc, ◌+◌, ◌-◌, ◌%◌, ◌≤◌, ◌<◌, ◌≡◌, inl, inr, refl, true, false, Option, Bytes, arith,
  Bool-cases, ltb-false, lt→ltb,
}
use native.Mathlib.Decide.{dec_le, dec_lt}
use gonewsd.Text.Decimal.{two64}
use gonewsd.Spool.Disk.{Disk}
use gonewsd.Group.Types.{Group, Env}
use gonewsd.Group.Articles.{
  get_message_id, find_article_by_message_id, Search, found, not_found, running, is_id, find_onto,
}

module _ (id_of : ℕ → Option Bytes) (msgid : Bytes) where
  -- What the search promises: the greatest number of the range with the id, or that there is none.
  abbrev pub Answers : ℕ → ℕ → Search → Type 0
  Answers start from (found n) =
      (start ≤ n)
      × (n ≤ from)
      × (is_id msgid (id_of n) ≡ true)
      × ((m : ℕ) → n < m → m ≤ from → is_id msgid (id_of m) ≡ false)
  Answers start from not_found = (m : ℕ) → start ≤ m → m ≤ from → is_id msgid (id_of m) ≡ false
  Answers start from running = ⊥

  Answers-below :
      (start from : ℕ) (r : Search)
      → start ≤ suc from
      → is_id msgid (id_of (suc from)) ≡ false
      → Answers start from r
      → Answers start (suc from) r
  Answers-below start from (found n) b h (p, q, e, k) = (
    p,
    omega arith,
    e,
    λ m x y. elim (dec_le m from) [
      | yes z ↦ k m x z
      | no z ↦ let at : m ≡ suc from = omega arith in rw at h
    ],
  )
  Answers-below start from not_found b h k = λ m x y. elim (dec_le m from) [
    | yes z ↦ k m x z
    | no z ↦ let at : m ≡ suc from = omega arith in rw at h
  ]
  Answers-below start from running b h k = k

  find_onto-Answers :
      (start f from : ℕ)
      → 0 < start
      → from < two64
      → from + 1 - start < f
      → Answers start from (find_onto id_of msgid start f from)
  unfolding find_onto
  find_onto-Answers start zero from p b h = absurd (omega arith)
  find_onto-Answers start (suc f) zero p b h = rw (lt→ltb 0 start p) (λ m x y. absurd (omega arith))
  find_onto-Answers start (suc f) (suc k) p b h = elim (dec_lt (suc k) start) [
    | yes below ↦ rw (lt→ltb (suc k) start below) (λ m x y. absurd (omega arith))
    | no above ↦
        rw (ltb-false (suc k) start (omega arith))
          (elim (Bool-cases (is_id msgid (id_of (suc k)))) [
            | inl e ↦ rw e (omega arith, omega arith, e, λ m x y. absurd (omega arith))
            | inr e ↦
                let back : (suc k + two64 - 1) % two64 ≡ k = omega arith in
                rw (e, back)
                  (Answers-below start k (find_onto id_of msgid start f k) (omega arith) e
                    (find_onto-Answers start f k p (omega arith) (omega arith)))
          ])
  ]

  -- Where the first number of the group is 0 and no article from `from` down to 0 has the id, the
  -- search goes on at the number 2^64 - 1 behind the number 0, with the rounds it has left.
  pub find_onto-wraps :
      (f from : ℕ)
      → from < two64
      → ((n : ℕ) → n ≤ from → is_id msgid (id_of n) ≡ false)
      → find_onto id_of msgid 0 (from + 1 + f) from ≡ find_onto id_of msgid 0 f (two64 - 1)
  unfolding find_onto
  find_onto-wraps f zero b h =
      let round : 0 + 1 + f ≡ suc f = omega arith in rw (round, h 0 (omega arith)) refl
  find_onto-wraps f (suc k) b h =
      let back : (suc k + two64 - 1) % two64 ≡ k = omega arith in
      let round : suc k + 1 + f ≡ suc (k + 1 + f) = omega arith in
      rw (round, ltb-false (suc k) 0 (omega arith), h (suc k) (omega arith), back)
        (find_onto-wraps f k (omega arith) (λ n le. h n (omega arith)))

-- In a group whose first number is not 0 and whose last number is below 2^64
-- `FindArticleByMessageID` ends, and returns the greatest number of the group whose article has the
-- id, or reports that no article of the group has it. The first number may be above the last.
pub find_article_by_message_id-Answers :
    (env : Env) (d : Disk) (g : Group) (msgid : Bytes)
    → 0 < g.start
    → g.end < two64
    → Answers
        (get_message_id env d g.name)
        msgid
        g.start
        g.end
        (find_article_by_message_id env d g msgid)
unfolding find_article_by_message_id
find_article_by_message_id-Answers env d g msgid p b =
    find_onto-Answers (get_message_id env d g.name) msgid g.start two64 g.end p b (omega arith)
