-- ===== src/Group/Posting/Ending.antt =====
-- Where the loop of `Post` ends: at the first number that is free.
use mathlib.Core.Path.{subst}
use gonewsd.Prelude.{ℕ, zero, suc, ◌+◌, ◌%◌, ◌<◌, ◌≡◌, refl, false, arith, Bytes}
use gonewsd.Group.Posting.{try_created, try_number, mod_dir, placed, place_onto}
use gonewsd.Group.Types.{Env}
use gonewsd.Spool.Disk.{Disk, Written, written, already_there, create_file}
use gonewsd.Spool.Names.{get_article_path}
use gonewsd.Text.Decimal.{two64}

module _ (env : Env) (postgroup : Bytes) (text : ℕ → Bytes) where
  -- The making of the file of a number.
  abbrev pub creation : ℕ → Disk → Written
  creation n d = create_file env.os (get_article_path env.cfg postgroup n) (text n) d

  try_number-flat :
      (n : ℕ) (d : Disk)
      → env.cfg.msg_mod_dirs ≡ false
      → try_number env postgroup text n d
        ≡ try_created (env.os.error_text (get_article_path env.cfg postgroup n)) d (creation n d)
  unfolding try_number mod_dir
  try_number-flat n d flat = rw flat refl

  -- Without `MsgModDirs`: where the files of the `k` numbers from `n` up are there, that of `n + k`
  -- can be made, and `n + k` is below 2^64, the loop of `Post` that begins at `n` and has more than
  -- `k` rounds ends with the number `n + k`, and the making of its file is all that is done.
  pub place_onto-free :
      (k f n : ℕ) (d : Disk) {d' : Disk}
      → env.cfg.msg_mod_dirs ≡ false
      → n + k < two64
      → k < f
      → ((i : ℕ) → i < k → creation (n + i) d ≡ already_there)
      → creation (n + k) d ≡ written d'
      → place_onto env postgroup text f n d ≡ placed (n + k) d'
  unfolding place_onto
  place_onto-free k zero n d flat b m there free = absurd (omega arith)
  place_onto-free zero (suc f) n d flat b m there free =
      let same : n + 0 ≡ n = omega arith in
      let made_here = rw same at free in rw (try_number-flat n d flat, made_here, same) refl
  place_onto-free (suc k) (suc f) n d {d'} flat b m there free =
      let same : n + 0 ≡ n = omega arith in
      let next : (n + 1) % two64 ≡ n + 1 = omega arith in
      let shifted : (i : ℕ) → n + 1 + i ≡ n + suc i = λ i. omega arith in
      let taken_here : creation n d ≡ already_there =
        subst (λ i. creation i d ≡ already_there) same (there 0 (omega arith)) in
      rw (try_number-flat n d flat, taken_here, next)
        (subst (λ m. place_onto env postgroup text f (n + 1) d ≡ placed m d') (shifted k)
          (place_onto-free k f (n + 1) d flat (omega arith) (omega arith)
            (λ i less. rw (shifted i) (there (suc i) (omega arith))) (rw (shifted k) free)))
