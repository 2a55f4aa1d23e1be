-- ===== src/Group/Info/Named.antt =====
-- A group whose numbers are loaded has the name that it was asked for.
use gonewsd.Prelude.{
  ℕ, ◌≡◌, refl, sym, ap, ◌∙◌, Bool-cases, inl, inr, Bool, true, false, not, List, [], ◌∷◌, leb,
  length, Bytes, Option, none, some, str, if◌then◌else◌,
}
use gonewsd.Group.Info.{
  info_entry, info_path, invalid_name, is_comment, lock_if, load_opened, count_numbers,
  count_number, article_numbers, counted, save_info, info_line, info_lines, read_info, scan_group,
  build_info, load_info,
}
use gonewsd.Group.Types.{Group, Env, Outcome, ok, fail, fail-ne-ok, ok-injective, M, run_next}
use gonewsd.Spool.Disk.{
  Disk, Opened, absent, unreadable, directory, content, stat, exists, open_file,
}
use gonewsd.Spool.Names.{dirname}
use gonewsd.Text.Scan.{scan_key_uint}
use gonewsd.Text.Scanner.{Scanned, scan_lines}
use gonewsd.Text.Strings.{trim_space}

-- A result, where there is one, has this name.
pub record HasName (name : Bytes) (r : Outcome Group × Disk) : Type 0 where
  pub name_is : (g : Group) → r.0 ≡ ok g → g.name ≡ name

pub fails : (name m : Bytes) (d : Disk) → HasName name (fail m, d)
fails name m d = record { name_is = λ g e. absurd (fail-ne-ok e) }

pub succeeds : (name : Bytes) (g : Group) (d : Disk) → g.name ≡ name → HasName name (ok g, d)
succeeds name g d h = record {
  name_is = λ g' e. ap (λ (g : Group). g.name) (sym (ok-injective e)) ∙ h;
}

-- Either way of a test keeps the name.
pub pick_name :
    {A : Type 0} (o : Option A) (name : Bytes) (f : A → Group) (k : Group)
    → ((a : A) → (f a).name ≡ name)
    → k.name ≡ name
    → (elim o as (λ _. Group) [ some a ↦ f a | none ↦ k ]).name ≡ name
pick_name (some a) name f k h e = h a
pick_name none name f k h e = e

pub choose_name :
    (b : Bool) (name : Bytes) (g h : Group)
    → g.name ≡ name
    → h.name ≡ name
    → (if b then g else h).name ≡ name
choose_name true name g h d e = d
choose_name false name g h d e = e

info_entry-name : (g : Group) (l : Bytes) → (info_entry g l).name ≡ g.name
info_entry-name g l =
    pick_name (scan_key_uint (str "start") l) g.name _ _ (λ _. refl)
      (pick_name (scan_key_uint (str "end") l) g.name _ _ (λ _. refl)
        (pick_name (scan_key_uint (str "total") l) g.name _ _ (λ _. refl) refl))

info_lines-name : (g : Group) (ls : List Bytes) → (info_lines g ls).name ≡ g.name
unfolding info_lines info_line
info_lines-name g [] = refl
info_lines-name g (l ∷ ls) =
    info_lines-name (info_line g l) ls
    ∙ choose_name (is_comment (trim_space l)) g.name _ _ refl (info_entry-name g (trim_space l))

read_info-HasName : (g : Group) (s : Scanned) (d : Disk) → HasName g.name (read_info g s, d)
unfolding read_info
read_info-HasName g s d = elim (Bool-cases s.complete) [
  | inl h ↦ rw h (succeeds g.name _ d (info_lines-name g s.lines))
  | inr h ↦ rw h (fails g.name [] d)
]

count_numbers-name : (g : Group) (ns : List ℕ) → (count_numbers g ns).name ≡ g.name
unfolding count_numbers
count_numbers-name g [] = refl
count_numbers-name g (n ∷ ns) = count_numbers-name (count_number g n) ns

-- A step behind another gives a name if it does so for whatever it is given.
pub run_next-HasName :
    {A : Type 0} (name : Bytes) (r : Outcome A × Disk) (f : A → M Group)
    → ((a : A) (d : Disk) → HasName name (f a d))
    → HasName name (run_next r f)
run_next-HasName name (ok a, d) f h = h a d
run_next-HasName name (fail m, d) f h = fails name m d

-- The same where the first step gives a group of the name.
pub run_group-HasName :
    (name : Bytes) (r : Outcome Group × Disk) (f : Group → M Group)
    → HasName name r
    → ((g : Group) (d : Disk) → g.name ≡ name → HasName name (f g d))
    → HasName name (run_next r f)
run_group-HasName name (ok g, d) f e h = h g d (e.name_is g refl)
run_group-HasName name (fail m, d) f e h = fails name m d

choose-HasName :
    (b : Bool) (name : Bytes) (x y : Outcome Group × Disk)
    → HasName name x
    → HasName name y
    → HasName name (if b then x else y)
choose-HasName true name x y h k = h
choose-HasName false name x y h k = k

module _ (env : Env) (do_lock : Bool) where
  scan_group-HasName : (g : Group) (d : Disk) → HasName g.name (scan_group env g d)
  unfolding scan_group counted
  scan_group-HasName g d = choose-HasName _ g.name _ _ (fails g.name _ d) (
      run_next-HasName g.name (save_info env (counted env g d) d) _ (λ _ d'.
        succeeds g.name (counted env g d) d' (
          count_numbers-name (record g { start = 0; end = 0; total = 0 })
            (article_numbers env.cfg d g.name))))

  build_info-HasName : (g : Group) (d : Disk) → HasName g.name (build_info env do_lock g d)
  unfolding build_info
  build_info-HasName g d =
      run_next-HasName g.name (lock_if do_lock env g.name d) _ (λ _ d'. scan_group-HasName g d')

  load_opened-HasName :
      (g : Group) (o : Opened) (d : Disk) → HasName g.name (load_opened env do_lock g o d)
  unfolding load_opened
  load_opened-HasName g absent d =
      choose-HasName _ g.name _ _ (fails g.name _ d) (build_info-HasName g d)
  load_opened-HasName g unreadable d = fails g.name _ d
  load_opened-HasName g directory d =
      run_next-HasName g.name (lock_if do_lock env g.name d) _ (λ _ d'. fails g.name [] d')
  load_opened-HasName g (content bytes) d =
      run_next-HasName g.name (lock_if do_lock env g.name d) _
        (λ _ d'. read_info-HasName g (scan_lines bytes) d')

  pub load_info-HasName :
      (g : Group) (name : Bytes) (d : Disk) → HasName name (load_info env do_lock g name d)
  unfolding load_info
  load_info-HasName g name d =
      choose-HasName (leb 1024 (length name)) name _ _ (fails name (str "group name too long") d) (
        choose-HasName (not (exists (stat d (dirname env.cfg name)))) name _ _
          (fails name (invalid_name env name) d)
          (load_opened-HasName (record g { valid = false; name = name })
            (open_file env.os d (info_path env.cfg name)) d))
