-- ===== src/Group/Settings/Named.antt =====
-- A group that is loaded has the name that it was asked for.
use gonewsd.Prelude.{
  ◌≡◌, refl, ◌∙◌, Bool, true, List, [], ◌∷◌, is_empty, Bytes, Option, none, some, Bool-cases, inl,
  inr, ◌/◌, str,
}
use gonewsd.Group.Info.{config_path, is_comment, lock_if}
use gonewsd.Group.Info.Named.{
  HasName, fails, succeeds, pick_name, choose_name, run_next-HasName, run_group-HasName,
  load_info-HasName,
}
use gonewsd.Group.Settings.{
  node_time, config_words, config_entry, config_line, config_lines, read_config, load_config,
  load_info_full,
}
use gonewsd.Group.Types.{Group, no_group, Env, Outcome}
use gonewsd.Spool.Disk.{Disk, Node, stat, Opened, absent, unreadable, directory, content, open_file}
use gonewsd.Spool.Names.{dirname}
use gonewsd.Text.Scan.{scan_key_word, scan_key_int}
use gonewsd.Text.Scanner.{Scanned, scan_lines}
use gonewsd.Text.Strings.{has_prefix, trim_space}

config_words-name : (g : Group) (l : Bytes) → (config_words g l).name ≡ g.name
config_words-name g l =
    pick_name (scan_key_word (str "ccpost") l) g.name _ _ (λ _. refl)
      (pick_name (scan_key_word (str "replyto") l) g.name _ _ (λ _. refl)
        (pick_name (scan_key_word (str "voidemail") l) g.name _ _ (λ _. refl) refl))

config_entry-name : (g : Group) (l : Bytes) → (config_entry g l).name ≡ g.name
config_entry-name g l = choose_name (has_prefix l (str "description ")) g.name _ _ refl (
    pick_name (scan_key_word (str "creator") l) g.name _ _ (λ _. refl)
      (pick_name (scan_key_int (str "postlimit") l) g.name _ _ (λ _. refl) (config_words-name g l)))

config_line-name : (g : Group) (l : Bytes) → (config_line g l).name ≡ g.name
unfolding config_line
config_line-name g l =
    choose_name (is_comment (trim_space l)) g.name _ _ refl (config_entry-name g (trim_space l))

config_lines-name : (g : Group) (ls : List Bytes) → (config_lines g ls).name ≡ g.name
unfolding config_lines
config_lines-name g [] = refl
config_lines-name g (l ∷ ls) = config_lines-name (config_line g l) ls ∙ config_line-name g l

-- The ways to open a file.
by_open :
    {name : Bytes} (o : Opened) {x y : Outcome Group × Disk} {z : Bytes → Outcome Group × Disk}
    → HasName name x
    → HasName name y
    → ((bytes : Bytes) → HasName name (z bytes))
    → HasName name (elim o as (λ _. Outcome Group × Disk) [
      | absent ↦ x
      | unreadable ↦ x
      | directory ↦ y
      | content bytes ↦ z bytes
    ])
by_open absent h k l = h
by_open unreadable h k l = h
by_open directory h k l = k
by_open (content bytes) h k l = l bytes

read_config-HasName : (g : Group) (s : Scanned) (d : Disk) → HasName g.name (read_config g s, d)
unfolding read_config
read_config-HasName g s d = elim (Bool-cases s.complete) [
  | inl h ↦ rw h (
      succeeds g.name _ d (
        choose_name (is_empty (config_lines (record g { cc_post = [] }) s.lines).cc_post) g.name _ _
          (config_lines-name _ s.lines) (config_lines-name _ s.lines)))
  | inr h ↦ rw h (fails g.name [] d)
]

load_config-HasName :
    (env : Env) (do_lock : Bool) (g : Group) (d : Disk)
    → HasName g.name (load_config env do_lock g d)
unfolding load_config
load_config-HasName env do_lock g d =
    let lock = lock_if do_lock env g.name d in
    by_open (open_file env.os d (config_path env.cfg g.name)) (fails g.name _ d)
      (run_next-HasName g.name lock _ (λ _ d'. fails g.name [] d'))
      (λ bytes.
        run_next-HasName g.name lock _ (λ _ d'. read_config-HasName g (scan_lines bytes) d'))

by_node :
    {name : Bytes} (o : Option Node) {x : Outcome Group × Disk} {y : Node → Outcome Group × Disk}
    → HasName name x
    → ((node : Node) → HasName name (y node))
    → HasName name (elim o as (λ _. Outcome Group × Disk) [ none ↦ x | some node ↦ y node ])
by_node none h k = h
by_node (some node) h k = k node

-- The group that `LoadInfoFull` loads has the name that it was asked for.
pub load_info_full-HasName :
    (env : Env) (name : Bytes) (d : Disk) → HasName name (load_info_full env name d)
unfolding load_info_full
load_info_full-HasName env name d =
    by_node (stat d (dirname env.cfg name)) (fails name _ d) (λ node.
      run_group-HasName name _ _
        (load_info-HasName env true
          (record no_group { name = name; ctime = node_time node / 1000000000 }) name d)
        (λ g d' h.
          run_group-HasName name (load_config env true g d') _
            (rw (← h) (load_config-HasName env true g d')) (λ g' d'' h'. succeeds name _ d'' h')))
