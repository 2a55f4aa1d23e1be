-- ===== src/Article/Fields/Kept.antt =====
-- What `Load` leaves of the number, the group and the file that it is called for.
use gonewsd.Prelude.{
  ℕ, ◌≡◌, refl, sym, ap, ◌∙◌, ◌||◌, if◌then◌else◌, Bool, true, false, List, [], ◌∷◌, arith, Bytes,
  ◌++◌, length, leb,
}
use gonewsd.Article.Fields.{
  Article, no_article, parse_header, apply_header, at_most, load_lines, check_loaded, stops,
  load_scanned, load, split_key_value,
}
use gonewsd.Article.Send.{cut_line}
use gonewsd.Config.{Config}
use gonewsd.Spool.Disk.{Disk, Os, Opened, absent, unreadable, directory, content, open_file}
use gonewsd.Spool.Names.{get_article_path}
use gonewsd.Text.Scanner.{Scanned, scan_lines}

-- The two articles are the same number of the same group, in the same file.
pub record SamePlace (a b : Article) : Type 0 where
  pub same_group : a.group ≡ b.group
  pub same_number : a.number ≡ b.number
  pub same_file : a.filename ≡ b.filename

parse_header-SamePlace : (a : Article) (key val : Bytes) → SamePlace (parse_header a key val) a
unfolding parse_header
parse_header-SamePlace a key val = ground arith

apply_header-SamePlace : (a : Article) (key val : Bytes) → SamePlace (apply_header a key val) a
apply_header-SamePlace a key val = ground (arith, parse_header-SamePlace a key val)

load_lines-SamePlace :
    (a : Article) (key val : Bytes) (ls : List Bytes) → SamePlace (load_lines a key val ls) a
unfolding load_lines
load_lines-SamePlace a key val [] = record {
  same_group = refl;
  same_number = refl;
  same_file = refl;
}
load_lines-SamePlace a key val (raw ∷ raws) =
    let line = cut_line raw in
    let (key', val') = split_key_value line in
    ground (
      arith,
      apply_header-SamePlace a key val,
      load_lines-SamePlace a key (at_most 1024 (val ++ line)) raws,
      load_lines-SamePlace (apply_header a key val) key' val' raws,
    )

check_loaded-SamePlace : (a : Article) (s : Scanned) → SamePlace (check_loaded a s) a
unfolding check_loaded
check_loaded-SamePlace a s = ground arith

load_scanned-SamePlace : (a : Article) (s : Scanned) → SamePlace (load_scanned a s) a
unfolding load_scanned
load_scanned-SamePlace a s =
    let a' = load_lines a [] [] s.lines in
    ground (
      arith,
      load_lines-SamePlace a [] [] s.lines,
      check_loaded-SamePlace a' (record s { complete = s.complete || stops s.lines }),
    )

-- If the article is valid, its file is that of its number in the group.
abbrev pub InPlace : Config → Bytes → Article → Type 0
InPlace cfg group a = a.valid ≡ true → a.filename ≡ get_article_path cfg group a.number

by_file :
    (cfg : Config) (group : Bytes) (o : Opened) (x y z : Article) (f : Bytes → Article)
    → InPlace cfg group x
    → InPlace cfg group y
    → InPlace cfg group z
    → ((bytes : Bytes) → InPlace cfg group (f bytes))
    → InPlace cfg group (elim o as (λ _. Article) [
      | absent ↦ x
      | unreadable ↦ y
      | directory ↦ z
      | content bytes ↦ f bytes
    ])
by_file cfg group absent x y z f h k l m = h
by_file cfg group unreadable x y z f h k l m = k
by_file cfg group directory x y z f h k l m = l
by_file cfg group (content bytes) x y z f h k l m = m bytes

choose-InPlace :
    (cfg : Config) (group : Bytes) (b : Bool) (x y : Article)
    → InPlace cfg group x
    → InPlace cfg group y
    → InPlace cfg group (if b then x else y)
choose-InPlace cfg group true x y h k = h
choose-InPlace cfg group false x y h k = k

-- An article that `Load` finds valid is in the file of its number.
pub load-InPlace :
    (cfg : Config) (os : Os) (d : Disk) (group : Bytes) (num : ℕ)
    → InPlace cfg group (load cfg os d group num)
unfolding load
load-InPlace cfg os d group num =
    let path = get_article_path cfg group num in
    let opened : Article = record no_article { group = group; number = num; filename = path } in
    choose-InPlace cfg group (leb 1024 (length group)) _ _ (λ v. absurd cc)
      (by_file cfg group (open_file os d path) _ _ _ _ (λ v. absurd cc) (λ v. absurd cc)
        (λ v. absurd cc)
        (λ bytes v.
          let same = load_scanned-SamePlace opened (scan_lines bytes) in
          same.same_file ∙ ap (get_article_path cfg group) (sym same.same_number)))
