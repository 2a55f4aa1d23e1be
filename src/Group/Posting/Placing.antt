-- ===== src/Group/Posting/Placing.antt =====
-- Where the loop of `Post` puts an article.
use mathlib.Core.Path.{subst}
use gonewsd.Prelude.{
  if◌then◌else◌, ℕ, zero, suc, ◌+◌, ◌%◌, ◌≡◌, refl, ◌∙◌, path_eq, eq_path_iff, Bool, true, false,
  Option, none, some, arith, Bytes, FilePath,
}
use gonewsd.Prelude.Keyed.{lookup, lookup-insert}
use gonewsd.Group.Posting.{
  Try, made, taken, refused, try_created, try_behind, try_number, mod_dir, Placed, placed,
  after_try, place_onto,
}
use gonewsd.Group.Types.{Env, Outcome, ok, fail}
use gonewsd.Spool.Disk.{
  Disk, Os, Node, file, stat, exists, Written, written, already_there, failed, create_file,
  make_dir,
}
use gonewsd.Spool.Disk.Keeping.{KeepsFiles, through, create_file-KeepsFiles, make_dir-KeepsFiles}
use gonewsd.Spool.Names.{drop_last, get_article_path}
use gonewsd.Text.Decimal.{two64}

-- A file that is made where there was none; the files that were there before are as they were.
pub record Created (os : Os) (before : Disk) (path : FilePath) (text : Bytes) (after : Disk)
    : Type 0 where
  pub fresh : (bytes : Bytes) (time : ℕ) → stat before path ≡ some (file bytes time) → ⊥
  pub keeps : KeepsFiles before after
  pub holds : stat after path ≡ some (file text os.now)

absent-stat : (o : Option Node) → exists o ≡ false → o ≡ none
absent-stat none e = refl
absent-stat (some n) e = absurd (ground arith)

create_file-Created :
    (os : Os) (path : FilePath) (text : Bytes) (d : Disk) {d' : Disk}
    → create_file os path text d ≡ written d'
    → Created os d path text d'
unfolding create_file stat
create_file-Created os path text d {d'} e =
    let (missing, same) = through _ _ _ _ e in
    let gone = absent-stat (lookup path d) missing in
    record {
      fresh = λ b t f. cc;
      keeps = create_file-KeepsFiles os path text d e;
      holds =
          subst (λ (x : Disk). lookup path x ≡ some (file text os.now)) same
            (lookup-insert path path _ _ ∙ rw ((eq_path_iff path path).1 refl) refl);
    }

Created-behind :
    (os : Os) (path : FilePath) (text : Bytes) (d d1 : Disk) {d' : Disk}
    → KeepsFiles d d1
    → Created os d1 path text d'
    → Created os d path text d'
Created-behind os path text d d1 k c = record {
  fresh = λ b t f. c.fresh b t (k path b t f);
  keeps = λ p b t f. c.keeps p b t (k p b t f);
  holds = c.holds;
}

try_created-made :
    (msg : Bytes) (d : Disk) (w : Written) {d' : Disk}
    → try_created msg d w ≡ made d'
    → w ≡ written d'
try_created-made msg d (written x) e = cc
try_created-made msg d already_there e = absurd cc
try_created-made msg d failed e = absurd cc

try_created-taken :
    (msg : Bytes) (d : Disk) (w : Written) {d' : Disk} → try_created msg d w ≡ taken d' → d ≡ d'
try_created-taken msg d (written x) e = absurd cc
try_created-taken msg d already_there e = cc
try_created-taken msg d failed e = absurd cc

module _ (env : Env) (postgroup : Bytes) (text : ℕ → Bytes) where
  try_behind-made :
      (path : FilePath) (bytes : Bytes) (r : Outcome (Unit {0}) × Disk) {d' : Disk}
      → try_behind env path bytes r ≡ made d'
      → Created env.os r.1 path bytes d'
  try_behind-made path bytes (fail msg, d) e = absurd cc
  try_behind-made path bytes (ok _, d) e =
      create_file-Created env.os path bytes d (try_created-made _ d _ e)

  try_behind-taken :
      (path : FilePath) (bytes : Bytes) (r : Outcome (Unit {0}) × Disk) {d' : Disk}
      → try_behind env path bytes r ≡ taken d'
      → r.1 ≡ d'
  try_behind-taken path bytes (fail msg, d) e = absurd cc
  try_behind-taken path bytes (ok _, d) e = try_created-taken _ d _ e

  parent_made :
      (parent : FilePath) (d : Disk) (w : Written)
      → make_dir env.os parent d ≡ w
      → KeepsFiles d
          (elim w as (λ _. Outcome (Unit {0}) × Disk) [
            | written d' ↦ (ok tt, d')
            | _ ↦ (fail (env.os.error_text parent), d)
          ]).1
  parent_made parent d (written d') e = make_dir-KeepsFiles env.os parent d e
  parent_made parent d already_there e = λ p b t f. f
  parent_made parent d failed e = λ p b t f. f

  chosen :
      (d : Disk) (b : Bool) (x y : Outcome (Unit {0}) × Disk)
      → KeepsFiles d x.1
      → KeepsFiles d y.1
      → KeepsFiles d (if b then x else y).1
  chosen d true x y h k = h
  chosen d false x y h k = k

  mod_dir-KeepsFiles : (path : FilePath) (d : Disk) → KeepsFiles d (mod_dir env path d).1
  unfolding mod_dir
  mod_dir-KeepsFiles path d = chosen d _ _ _ (parent_made (drop_last path) d _ refl) (λ p b t f. f)

  try_number-made :
      (n : ℕ) (d : Disk) {d' : Disk}
      → try_number env postgroup text n d ≡ made d'
      → Created env.os d (get_article_path env.cfg postgroup n) (text n) d'
  unfolding try_number
  try_number-made n d e =
      let path = get_article_path env.cfg postgroup n in
      Created-behind env.os path (text n) d (mod_dir env path d).1 (mod_dir-KeepsFiles path d)
        (try_behind-made path (text n) (mod_dir env path d) e)

  try_number-taken :
      (n : ℕ) (d : Disk) {d' : Disk}
      → try_number env postgroup text n d ≡ taken d'
      → KeepsFiles d d'
  unfolding try_number
  try_number-taken n d e =
      let path = get_article_path env.cfg postgroup n in
      subst (KeepsFiles d) (try_behind-taken path (text n) (mod_dir env path d) e)
        (mod_dir-KeepsFiles path d)

  after_try-placed :
      (d0 : Disk) (next : Disk → Placed) (n : ℕ) (t : Try) {m : ℕ} {d' : Disk}
      → ((d1 : Disk)
          → t ≡ made d1
          → Created env.os d0 (get_article_path env.cfg postgroup n) (text n) d1)
      → ((d1 : Disk)
          → t ≡ taken d1
          → next d1 ≡ placed m d'
          → Created env.os d0 (get_article_path env.cfg postgroup m) (text m) d')
      → after_try next n t ≡ placed m d'
      → Created env.os d0 (get_article_path env.cfg postgroup m) (text m) d'
  after_try-placed d0 next n (made d) {m} {d'} h k e =
      let same_number : n ≡ m = cc in
      let same_disk : d ≡ d' = cc in
      subst (λ i. Created env.os d0 (get_article_path env.cfg postgroup i) (text i) d') same_number
        (subst (λ x. Created env.os d0 (get_article_path env.cfg postgroup n) (text n) x) same_disk
          (h d refl))
  after_try-placed d0 next n (taken d) h k e = k d refl e
  after_try-placed d0 next n (refused msg d) h k e = absurd cc

  -- Where the loop of `Post` ends with a number, that number's path had no file when the loop began;
  -- it now holds the text of the article under that number, and each file that was there when the
  -- loop began is as it was.
  pub place_onto-Created :
      (f n : ℕ) (d : Disk) {m : ℕ} {d' : Disk}
      → place_onto env postgroup text f n d ≡ placed m d'
      → Created env.os d (get_article_path env.cfg postgroup m) (text m) d'
  unfolding place_onto
  place_onto-Created zero n d e = absurd cc
  place_onto-Created (suc f) n d {m} e =
      after_try-placed d _ n (try_number env postgroup text n d) (λ d1 h. try_number-made n d h)
        (λ d1 h next.
          Created-behind env.os (get_article_path env.cfg postgroup m) (text m) d d1
            (try_number-taken n d h) (place_onto-Created f ((n + 1) % two64) d1 next))
        e
