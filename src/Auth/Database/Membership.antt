-- ===== src/Auth/Database/Membership.antt =====
-- The memberships that a list of groups gives a user.
use gonewsd.Prelude.{
  ℕ, ◌≡◌, refl, ap, ◌∙◌, sym, Bool, false, not, ◌&&◌, ◌||◌, List, [], ◌∷◌, ◌==◌, arith, is_empty,
  Bytes, if◌then◌else◌, eq_bytes, str,
}
use gonewsd.Auth.Database.{Sql, Exec, Answer, row, no_rows, broken, Result, done, error, run_next}
use gonewsd.Auth.Database.Users.{join_selected, join_part, join_groups, set_membership_tx}
use gonewsd.Auth.Validate.{normalize_groups}
use gonewsd.Text.Split.{split}
use gonewsd.Text.Strings.{trim_space}

-- What is documented of `INSERT OR IGNORE`: where it succeeds, the row is there, the other rows are
-- as before, and no group has another id.
pub record Inserts {S : Type 0} (db : Sql S) (member : ℕ → ℕ → S → Bool) : Type 0 where
  pub adds :
      (uid gid v h : ℕ) (s s' : S)
      → db.insert_membership uid gid s ≡ (done tt, s')
      → member v h s' ≡ ((v == uid && h == gid) || member v h s)
  pub same_ids :
      (uid gid : ℕ) (s s' : S) (name : Bytes)
      → db.insert_membership uid gid s ≡ (done tt, s')
      → db.select_group_id name s' ≡ db.select_group_id name s

-- Whether an answer is the id of a group.
abbrev pub is_id : ℕ → Answer ℕ → Bool
is_id h (row gid) = h == gid
is_id h no_rows = false
is_id h (broken _) = false

module _ {S : Type 0} (db : Sql S) where
  -- Whether the group of this id is named in the list.
  abbrev pub is_named : ℕ → List Bytes → S → Bool
  is_named h [] s = false
  is_named h (part ∷ parts) s =
      (not (is_empty (trim_space part)) && is_id h (db.select_group_id (trim_space part) s))
      || is_named h parts s

run_next-done :
    {S A B : Type 0} (r : Result A × S) (f : A → Exec S B) {b : B} {s' : S}
    → run_next r f ≡ (done b, s')
    → (a : A) × (s : S) × (r ≡ (done a, s)) × (f a s ≡ (done b, s'))
run_next-done (done a, s) f h = (a, s, refl, h)
run_next-done (error e, s) f h = absurd (cc (ap (λ p. p.0) h))

state-eq :
    {S A : Type 0} {a b : A} {s s' : S} → ◌≡◌ {A = Result A × S} (done a, s) (done b, s') → s' ≡ s
state-eq e = sym (ap (λ p. p.1) e)

or_both : (u b a m : Bool) → ((u && b) || ((u && a) || m)) ≡ ((u && (a || b)) || m)
or_both u b a m = ground arith

module _ {S : Type 0} (db : Sql S) (member : ℕ → ℕ → S → Bool) (law : Inserts db member) where
  join_selected-member :
      (uid : ℕ) (name : Bytes) (a : Answer ℕ) (s s' : S)
      → join_selected db uid name a s ≡ (done tt, s')
      → ((v h : ℕ) → member v h s' ≡ ((v == uid && is_id h a) || member v h s))
        × ((n : Bytes) → db.select_group_id n s' ≡ db.select_group_id n s)
  unfolding join_selected
  join_selected-member uid name no_rows s s' h = absurd (cc (ap (λ p. p.0) h))
  join_selected-member uid name (broken e) s s' h = absurd (cc (ap (λ p. p.0) h))
  join_selected-member uid name (row gid) s s' h =
      ((λ v g. law.adds uid gid v g s s' h), (λ n. law.same_ids uid gid s s' n h))

  join_part-member :
      (uid : ℕ) (name : Bytes) (s s' : S)
      → join_part db uid name s ≡ (done tt, s')
      → ((v h : ℕ)
          → member v h s' ≡ (
              (v == uid && (not (is_empty name) && is_id h (db.select_group_id name s)))
              || member v h s))
        × ((n : Bytes) → db.select_group_id n s' ≡ db.select_group_id n s)
  unfolding join_part
  join_part-member uid [] s s' h =
      let q = state-eq h in
      ((λ v g. ap (member v g) q ∙ ground arith), (λ n. ap (db.select_group_id n) q))
  join_part-member uid (c ∷ name) s s' h = join_selected-member uid (c ∷ name) _ s s' h

  is_named-same :
      (parts : List Bytes) (s s' : S) (h : ℕ)
      → ((n : Bytes) → db.select_group_id n s' ≡ db.select_group_id n s)
      → is_named db h parts s' ≡ is_named db h parts s
  is_named-same [] s s' h e = refl
  is_named-same (p ∷ ps) s s' h e = rw (e (trim_space p), is_named-same ps s s' h e) refl

  join_groups-member :
      (uid : ℕ) (parts : List Bytes) (s s' : S)
      → join_groups db uid parts s ≡ (done tt, s')
      → (v h : ℕ) → member v h s' ≡ ((v == uid && is_named db h parts s) || member v h s)
  unfolding join_groups
  join_groups-member uid [] s s' e v h = ap (member v h) (state-eq e) ∙ ground arith
  join_groups-member uid (p ∷ ps) s s' e v h =
      let (_, t, here, next) = run_next-done (join_part db uid (trim_space p) s) _ e in
      let (m, same) = join_part-member uid (trim_space p) s t here in
      join_groups-member uid ps t s' next v h
      ∙ rw (is_named-same ps s t h same, m v h)
          (or_both (v == uid) (is_named db h ps s)
            (not (is_empty (trim_space p)) && is_id h (db.select_group_id (trim_space p) s))
            (member v h s))

  set_names-member :
      (uid : ℕ) (names : Bytes) (s s' : S)
      → (if is_empty names then (done tt, s) else join_groups db uid (split names b',') s)
        ≡ (done tt, s')
      → (v h : ℕ)
      → member v h s' ≡ ((v == uid && is_named db h (split names b',') s) || member v h s)
  unfolding split trim_space
  set_names-member uid [] s s' e v h = ap (member v h) (state-eq e) ∙ ground arith
  set_names-member uid (c ∷ names) s s' e v h =
      join_groups-member uid (split (c ∷ names) b',') s s' e v h

  -- Where a list of groups other than `*` is given to a user without an error, the user has become a
  -- member of exactly the groups that it names; all other memberships are as they were.
  pub set_membership_tx-member :
      (uid : ℕ) (groups : Bytes) (s s' : S)
      → eq_bytes (normalize_groups groups) (str "*") ≡ false
      → set_membership_tx db uid groups s ≡ (done tt, s')
      → (v h : ℕ)
      → member v h s'
        ≡ ((v == uid && is_named db h (split (normalize_groups groups) b',') s) || member v h s)
  unfolding set_membership_tx
  set_membership_tx-member uid groups s s' n e =
      set_names-member uid (normalize_groups groups) s s' (rw n at e)
