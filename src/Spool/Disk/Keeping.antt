-- ===== src/Spool/Disk/Keeping.antt =====
-- Making a file or a directory leaves the files alone that are there.
use mathlib.Core.Bool.{true≢false}
use mathlib.Core.Path.{subst}
use gonewsd.Prelude.{
  ℕ, ◌≡◌, refl, sym, ◌∙◌, Bool, true, false, Option, none, some, if◌then◌else◌, arith, Bytes,
  FilePath, path_eq, eq_path, eq_path_iff, Bool-cases, ◌⊎◌, inl, inr,
}
use gonewsd.Prelude.Keyed.{lookup, insert, lookup-insert}
use gonewsd.Spool.Disk.{
  Node, dir, file, Disk, Os, stat, is_dir, exists, written, already_there, failed, touch,
  create_file, make_dir,
}
use gonewsd.Spool.Names.{drop_last}

-- Each file of the one disk is on the other, with its bytes and its time.
abbrev pub KeepsFiles : Disk → Disk → Type 0
KeepsFiles d d' =
    (p : FilePath) (bytes : Bytes) (time : ℕ)
    → stat d p ≡ some (file bytes time)
    → stat d' p ≡ some (file bytes time)

no_file :
    (o : Option Node) (bytes : Bytes) (time : ℕ)
    → o ≡ some (file bytes time)
    → (is_dir o ≡ false) × (exists o ≡ true)
no_file none b t e = absurd cc
no_file (some (dir _)) b t e = absurd cc
no_file (some (file _ _)) b t e = (refl, refl)

-- A node is put where there is no file.
insert-KeepsFiles :
    (q : FilePath) (node : Node) (d : Disk)
    → ((bytes : Bytes) (time : ℕ) → stat d q ≡ some (file bytes time) → ⊥)
    → KeepsFiles d (insert q node d)
unfolding stat
insert-KeepsFiles q node d h p bytes time e = elim (Bool-cases (eq_path q p)) [
  | inl same ↦ absurd (
      h bytes time
        (subst (λ x. lookup x d ≡ some (file bytes time)) (sym ((eq_path_iff q p).0 same)) e))
  | inr other ↦ rw (lookup-insert q p node d) (rw other e)
]

touch-KeepsFiles : (now : ℕ) (q : FilePath) (d : Disk) → KeepsFiles d (touch now q d)
unfolding touch
touch-KeepsFiles now q d p bytes time e = elim (Bool-cases (is_dir (stat d q))) [
  | inl h ↦ rw h (
      insert-KeepsFiles q (dir now) d (λ b t f. true≢false (sym h ∙ (no_file _ b t f).0)) p bytes
        time e)
  | inr h ↦ rw h e
]

touch-file :
    (now : ℕ) (q : FilePath) (d : Disk) (p : FilePath) (bytes : Bytes) (time : ℕ)
    → stat (touch now q d) p ≡ some (file bytes time)
    → stat d p ≡ some (file bytes time)
unfolding touch stat
touch-file now q d p bytes time e = ground (arith, lookup-insert q p (dir now) d)

-- A node put at a path that was not there, behind the touch of its parent.
added-KeepsFiles :
    (now : ℕ) (q : FilePath) (node : Node) (d : Disk)
    → exists (stat d q) ≡ false
    → KeepsFiles d (insert q node (touch now (drop_last q) d))
added-KeepsFiles now q node d h p bytes time e =
    insert-KeepsFiles q node (touch now (drop_last q) d)
      (λ b t f. true≢false (sym (no_file _ b t (touch-file now (drop_last q) d q b t f)).1 ∙ h)) p
      bytes time (touch-KeepsFiles now (drop_last q) d p bytes time e)

-- The one way through three tests.
pub through :
    (b c r : Bool) (x : Disk) {d' : Disk}
    → (if b then failed else if c then already_there else if r then failed else written x)
      ≡ written d'
    → (c ≡ false) × (x ≡ d')
through true c r x e = absurd cc
through false true r x e = absurd cc
through false false true x e = absurd cc
through false false false x e = (refl, cc)

pub create_file-KeepsFiles :
    (os : Os) (q : FilePath) (text : Bytes) (d : Disk) {d' : Disk}
    → create_file os q text d ≡ written d'
    → KeepsFiles d d'
unfolding create_file
create_file-KeepsFiles os q text d {d'} e =
    let (missing, same) = through _ _ _ _ e in
    subst (KeepsFiles d) same (added-KeepsFiles os.now q (file text os.now) d missing)

made_dir :
    (b c r : Bool) (d x : Disk) {d' : Disk}
    → (if b then written d else if c then failed else if r then failed else written x) ≡ written d'
    → (d ≡ d') ⊎ ((c ≡ false) × (x ≡ d'))
made_dir true c r d x e = inl cc
made_dir false true r d x e = absurd cc
made_dir false false true d x e = absurd cc
made_dir false false false d x e = inr (refl, cc)

pub make_dir-KeepsFiles :
    (os : Os) (q : FilePath) (d : Disk) {d' : Disk} → make_dir os q d ≡ written d' → KeepsFiles d d'
unfolding make_dir
make_dir-KeepsFiles os q d {d'} e = elim (made_dir _ _ _ _ _ e) [
  | inl same ↦ subst (KeepsFiles d) same (λ p b t f. f)
  | inr (missing, same) ↦
      subst (KeepsFiles d) same (added-KeepsFiles os.now q (dir os.now) d missing)
]
